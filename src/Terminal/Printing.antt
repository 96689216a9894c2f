-- ===== src/Terminal/Printing.antt =====
-- `sys_write` and `sys_printx` of kernel/system_calls.c. `text` is the string at a linear address,
-- without its final 0.
pub mod Halting
use mini_operate_system.Prelude.{
  ℕ, zero, suc, ◌+◌, ◌*◌, ◌%◌, Bool, true, false, ◌==◌, ltb, if◌then◌else◌, update, List, [], ◌∷◌,
}
use mini_operate_system.Kernel.Process.{task, user}
use mini_operate_system.Kernel.System.{System, address}
use mini_operate_system.Terminal.Console.{Screen, out_char, v_mem_size, screen_width}
use mini_operate_system.Terminal.Input.{tty_write}

abbrev pub red_char : ℕ
red_char = 0x0c

abbrev pub gray_char : ℕ
gray_char = 0x08

-- Sixteen lines, in bytes.
abbrev pub stripe : ℕ
stripe = screen_width * 16

-- `while (((int) v - V_MEM_BASE) % (SCREEN_WIDTH * 16))`, on fuel: a step goes two bytes on. It
-- colours the cells and keeps their characters. The result is `v` and the memory.
unfoldable pub pad_loop : ℕ → ℕ → (ℕ → ℕ) → ℕ × (ℕ → ℕ)
pad_loop zero v vmem = (v, vmem)
pad_loop (suc n) v vmem = elim (v % stripe == 0) [
  | true ↦ (v, vmem)
  | false ↦ pad_loop n (v + 1 + 1) (update vmem (v + 1) gray_char)
]

-- The loop that fills the video memory with the message `text` again and again, on fuel; `q` is what
-- is left of the message. An empty message makes it read behind the final 0, so that the text here
-- is not empty.
unfoldable pub fill_loop : ℕ → List ℕ → List ℕ → ℕ → (ℕ → ℕ) → ℕ × (ℕ → ℕ)
fill_loop zero text q v vmem = (v, vmem)
fill_loop (suc n) text [] v vmem = (v, vmem)
fill_loop (suc n) text (ch ∷ q) v vmem = elim (ltb v v_mem_size) [
  | false ↦ (v, vmem)
  | true ↦
      let written = update (update vmem v ch) (v + 1) red_char in
      elim q [
        | [] ↦
            let (v', vmem') = pad_loop stripe (v + 1 + 1) written in fill_loop n text text v' vmem'
        | c ∷ r ↦ fill_loop n text (c ∷ r) (v + 1 + 1) written
      ]
]

-- The screen of a machine that a task's `panic` or `assert` halts. One round for each two bytes of
-- the memory is enough.
unfoldable pub halt_screen : List ℕ → (ℕ → ℕ) → ℕ × (ℕ → ℕ)
halt_screen text vmem = fill_loop v_mem_size text text 0 vmem

-- `while ((ch = *p++) != 0) out_char(...)`.
unfoldable pub print_loop : ℕ → List ℕ → Screen → Screen
print_loop nr_tty [] s = s
print_loop nr_tty (ch ∷ p) s = print_loop nr_tty p (out_char nr_tty ch s)

-- How `sys_printx` ends: the machine stops with this video memory, or it returns.
pub data Printx : Type 0 where
  stopped : (ℕ → ℕ) → Printx
  returned : Screen → Printx

-- `sys_printx` for process `p` at the address `s`: the process's own, or the kernel's in an
-- interrupt. `nr_tty` is the process's terminal.
unfoldable pub sys_printx : (ℕ → List ℕ) → ℕ → ℕ → ℕ → System → Screen → Printx
sys_printx text nr_tty s p x screen =
    let str = text (if x.k_reenter == 0 then address x.table p s else s) in
    elim (x.table p).proc_type [
      | task ↦ stopped (halt_screen str screen.vmem).1
      | user ↦ returned (print_loop nr_tty str screen)
    ]

-- `sys_write` of the characters at `buf`.
unfoldable pub sys_write : List ℕ → ℕ → Screen → Screen
sys_write buf nr_tty screen = tty_write nr_tty buf screen
