-- ===== src/Kernel/Start.antt =====
-- The process table, the descriptors and the task state segment that `kernel_main` of kernel/main.c
-- sets up, and `initializeGlobalParameters` of kernel/global.c.
pub mod Ready
use mini_operate_system.Prelude.{
  ℕ, zero, suc, ℤ, pos, ◌+◌, ◌-◌, ◌*◌, ◌/◌, ◌%◌, ◌^◌, Bool, false, ◌==◌, if◌then◌else◌, none, some,
  List, [], ◌∷◌, get_or, update,
}
use mini_operate_system.Kernel.Protect.{Descriptor, init_descriptor, descriptor_base, vir2linear}
use mini_operate_system.Kernel.Process.{
  Process, ProcType, task, user, no_task, nr_tasks, nr_procs, nr_all,
}
use mini_operate_system.Kernel.Schedule.{Clock}

-- The registers of `STACK_FRAME` that `kernel_main` sets.
pub record Registers : Type 0 where
  pub gs : ℕ
  pub fs : ℕ
  pub es : ℕ
  pub ds : ℕ
  pub eip : ℕ
  pub cs : ℕ
  pub eflags : ℕ
  pub esp : ℕ
  pub ss : ℕ

-- An entry of `proc_table`, with the fields that only `kernel_main` sets; `ldt_cs` is `ldts[1]`.
pub record Image : Type 0 where
  pub process : Process
  pub pid : ℕ
  pub ldt_selector : ℕ
  pub nr_tty : ℕ
  pub ldt_cs : Descriptor
  pub regs : Registers
  pub name : List ℕ

-- The fields of `TSS` that are not 0.
pub record Tss : Type 0 where
  pub ss0 : ℕ
  pub esp0 : ℕ
  pub iobase : ℕ

pub record Start : Type 0 where
  pub table : ℕ → Image
  pub gdt : ℕ → Descriptor
  pub tss : Tss

-- What the linker decides: the addresses of entry `i` of the process table, of its `ldts` and
-- `stack`, of the task state segment, and of the function of entry `i` of `task_table`.
pub record Layout : Type 0 where
  pub proc_at : ℕ → ℕ
  pub ldts_at : ℕ → ℕ
  pub stack_at : ℕ → ℕ
  pub tss_at : ℕ
  pub initial_eip : ℕ → ℕ

-- The local variables of `kernel_main` that change where the tasks begin.
pub record Kind : Type 0 where
  pub dpl : ℕ
  pub cs : ℕ
  pub ss : ℕ
  pub eflags : ℕ
  pub proc_type : ProcType
  pub priority : ℕ

-- DA_DPL3 and DA_DPL1 are 0x60 and 0x20; the selectors have SA_LOCAL = 4 and the privilege in their
-- low bits.
abbrev pub user_kind : Kind
user_kind = record {
  dpl = 0x60;
  cs = 0x8 + 4 + 3;
  ss = 0x10 + 4 + 3;
  eflags = 0x202;
  proc_type = user;
  priority = 200;
}

abbrev pub task_kind : Kind
task_kind = record {
  dpl = 0x20;
  cs = 0x8 + 4 + 1;
  ss = 0x10 + 4 + 1;
  eflags = 0x1202;
  proc_type = task;
  priority = 600;
}

-- The names of `task_table`.
abbrev pub task_names : List (List ℕ)
task_names =
    (b'P' ∷ b'r' ∷ b'o' ∷ b'c' ∷ b'e' ∷ b's' ∷ b's' ∷ b' ' ∷ b'A' ∷ [])
    ∷ (b'P' ∷ b'r' ∷ b'o' ∷ b'c' ∷ b'e' ∷ b's' ∷ b's' ∷ b' ' ∷ b'B' ∷ [])
    ∷ (b'P' ∷ b'r' ∷ b'o' ∷ b'c' ∷ b'e' ∷ b's' ∷ b's' ∷ b' ' ∷ b'C' ∷ [])
    ∷ (b'T' ∷ b'T' ∷ b'Y' ∷ [])
    ∷ (b's' ∷ b'y' ∷ b's' ∷ b'c' ∷ b'a' ∷ b'l' ∷ b'l' ∷ [])
    ∷ (b'h' ∷ b'a' ∷ b'r' ∷ b'd' ∷ b' ' ∷ b'd' ∷ b'i' ∷ b's' ∷ b'k' ∷ [])
    ∷ (b'f' ∷ b'i' ∷ b'l' ∷ b'e' ∷ b' ' ∷ b's' ∷ b'y' ∷ b's' ∷ b't' ∷ b'e' ∷ b'm' ∷ [])
    ∷ []

-- `selector2base` of lib/page.c.
unfoldable pub selector2base : (ℕ → Descriptor) → ℕ → ℕ
unfolding descriptor_base
selector2base gdt seg = descriptor_base (gdt (seg / 2 ^ 3))

-- `attr1 |= dpl`: bits 5 and 6, each where `dpl` has it.
unfoldable pub or_dpl : ℕ → ℕ → ℕ
or_dpl attr1 dpl =
    let low = if attr1 / 2 ^ 5 % 2 == 1 then attr1 else attr1 + dpl / 2 ^ 5 % 2 * 2 ^ 5 in
    if low / 2 ^ 6 % 2 == 1 then low else low + dpl / 2 ^ 6 % 2 * 2 ^ 6

-- The fields of entry `i`. `p_msg` and the rest of `filp` and `stack` are not set.
unfoldable pub setup_image : Layout → ℕ → Kind → ℕ → (ℕ → Descriptor) → Image → Image
setup_image l i k selector gdt p = record {
  process = record (p.process) {
    ldt_ds = record (gdt 2) { attr1 = or_dpl (gdt 2).attr1 k.dpl };
    priority = pos k.priority;
    ticks = pos k.priority;
    proc_type = k.proc_type;
    sending = false;
    receiving = false;
    p_recvfrom = no_task;
    p_sendto = no_task;
    has_int_msg = false;
    q_sending = none;
    next_sending = none;
  };
  pid = i;
  ldt_selector = selector;
  nr_tty = 0;
  ldt_cs = record (gdt 1) { attr1 = or_dpl (gdt 1).attr1 k.dpl };
  regs = record {
    gs = 0x1B;
    fs = k.ss;
    es = k.ss;
    ds = k.ss;
    eip = l.initial_eip i;
    cs = k.cs;
    eflags = k.eflags;
    esp = l.stack_at i + 0x4000;
    ss = k.ss;
  };
  name = get_or task_names i [];
}

-- The descriptors of the entry's LDT (DA_LDT = 0x82) and of the TSS (DA_386TSS = 0x89, SELECTOR_TSS
-- = 0x20, of 104 bytes), which `restore_tss_func` marks as available.
unfoldable pub setup_gdt : Layout → ℕ → ℕ → (ℕ → Descriptor) → ℕ → Descriptor
setup_gdt l i selector gdt =
    let gdt1 =
      update gdt (selector / 2 ^ 3)
        (init_descriptor (vir2linear (selector2base gdt 0x10) (l.ldts_at i)) (3 * 8 - 1) 0x82) in
    let gdt2 =
      update gdt1 4
        (init_descriptor (vir2linear (selector2base gdt1 0x10) l.tss_at) (104 - 1) 0x89) in
    update gdt2 4 (record (gdt2 4) { attr1 = 0x89 })

-- The body of the loop for entry `i`; a STACK_FRAME has 18 registers.
unfoldable pub setup : Layout → ℕ → Kind → ℕ → Start → Start
setup l i k selector s = record {
  table = update s.table i (setup_image l i k selector s.gdt (s.table i));
  gdt = setup_gdt l i selector s.gdt;
  tss = record { ss0 = 0x10; esp0 = l.proc_at i + 18 * 4; iobase = 104 };
}

-- The loop from entry `i` with `n` entries left. `priority` stays positive.
unfoldable pub setup_loop : ℕ → Layout → ℕ → Kind → ℕ → Start → Start
setup_loop zero l i k selector s = s
setup_loop (suc n) l i k selector s =
    let k' = if i == nr_procs then task_kind else k in
    setup_loop n l (i + 1) (record k' { priority = k'.priority - 50 }) (selector + 8)
      (setup l i k' selector s)

-- `kernel_main` up to `process_start`, without `init_clock`, `init_keyboard` and `init_tty`.
-- SELECTOR_LDT = 0x28.
unfoldable pub kernel_main : Layout → Start → Start
unfolding setup_loop setup setup_image
kernel_main l s = setup_loop nr_all l 0 user_kind 0x28 s

-- The globals that the clock interrupt touches, as `initializeGlobalParameters` sets them.
unfoldable pub first_clock : Start → Clock
first_clock s = record { k_reenter = 0; ticks = 0; table = λ i. (s.table i).process; current = 0 }
