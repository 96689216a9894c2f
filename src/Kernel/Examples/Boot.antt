-- ===== src/Kernel/Examples/Boot.antt =====
-- The theorems on kernel/main.c and on the interrupt table of kernel/protect.c at a concrete start.
use mini_operate_system.Prelude.{ℕ, ◌+◌, ◌%◌, ◌^◌, ◌*◌, ◌≡◌, ◌<◌, refl, arith, pos, [], get_or}
use mini_operate_system.Kernel.Protect.Gates.{
  Gate, Handler, hwint, sys_call, init_protect_mode_interrupt_mechanism, IsInstalled,
  install-IsInstalled,
}
use mini_operate_system.Kernel.Process.{nr_all}
use mini_operate_system.Kernel.Schedule.Tick.{IsValid}
use mini_operate_system.Kernel.Ipc.Sent.{IsKernel}
use mini_operate_system.Kernel.Start.{Layout, Start, Image, kernel_main, first_clock}
use mini_operate_system.Kernel.Start.Ready.{priorities, kernel_main-IsValid}
use mini_operate_system.Kernel.Examples.Tables.{flat, ready}

abbrev layout : Layout
layout = record {
  proc_at = λ i. 0x30000 + i * 0x5000;
  ldts_at = λ i. 0x30000 + i * 0x5000 + 74;
  stack_at = λ i. 0x31000 + i * 0x5000;
  tss_at = 0x2F000;
  initial_eip = λ i. 0x1000 + i * 0x100;
}

abbrev image : Image
image = record {
  process = ready;
  pid = 0;
  ldt_selector = 0;
  nr_tty = 0;
  ldt_cs = flat;
  regs = record { gs = 0; fs = 0; es = 0; ds = 0; eip = 0; cs = 0; eflags = 0; esp = 0; ss = 0 };
  name = [];
}

abbrev start : Start
start = record {
  table = λ i. image;
  gdt = λ i. flat;
  tss = record { ss0 = 0; esp0 = 0; iobase = 0 };
}

kernel_main-IsValid_example :
    let c = first_clock (kernel_main layout start) in
    IsValid c
    × IsKernel c.table (λ d. [])
    × ((i : ℕ)
        → i < nr_all
        → ((c.table i).priority ≡ pos (get_or priorities i 0))
          × ((c.table i).ticks ≡ pos (get_or priorities i 0)))
kernel_main-IsValid_example = kernel_main-IsValid layout start (λ i lt. refl)

abbrev handler : Handler → ℕ
handler (hwint n) = 0x30400 + n % 16 * 16
handler sys_call = 0x30600
handler h = 0x30700

handler-lt : (h : Handler) → handler h < 2 ^ 32
handler-lt (hwint n) = omega arith
handler-lt sys_call = omega arith
handler-lt h = omega arith

abbrev no_gate : Gate
no_gate = record { offset_low = 0; selector = 0; dcount = 0; attr = 0; offset_high = 0 }

install-IsInstalled_example :
    IsInstalled handler
      (λ v. no_gate)
      (init_protect_mode_interrupt_mechanism handler (λ v. no_gate))
install-IsInstalled_example = install-IsInstalled handler (λ v. no_gate) handler-lt
