-- ===== src/Kernel/Protect/Gates.antt =====
-- The interrupt descriptor table of kernel/protect.c, without `init_8259A`.
use mini_operate_system.Prelude.{
  ℕ, zero, suc, ◌+◌, ◌*◌, ◌/◌, ◌%◌, ◌^◌, ◌≡◌, ◌≢◌, ◌≤◌, ◌<◌, ◌⊎◌, ◌∙◌, refl, arith, false, List, [],
  ◌∷◌, ◌==◌, update,
}

-- `GATE`.
pub record Gate : Type 0 where
  pub offset_low : ℕ
  pub selector : ℕ
  pub dcount : ℕ
  pub attr : ℕ
  pub offset_high : ℕ

abbrev pub privilege_kernel : ℕ
privilege_kernel = 0

abbrev pub privilege_user : ℕ
privilege_user = 3

-- `init_idt_descriptor` for DA_386INT_GATE = 0x8E; SELECTOR_KERNEL_CS = 8. The privilege is below 4.
unfoldable pub init_idt_descriptor : ℕ → ℕ → Gate
init_idt_descriptor base privilege = record {
  offset_low = base % 2 ^ 16;
  selector = 8;
  dcount = 0;
  attr = 0x8E + privilege * 2 ^ 5;
  offset_high = base / 2 ^ 16 % 2 ^ 16;
}

-- The assembly routines; `hwint n` is `hwint00` to `hwint15`.
pub data Handler : Type 0 where
  divide_error single_step_exception nmi breakpoint_exception overflow bounds_check : Handler
  inval_opcode copr_not_available double_fault copr_seg_overrun inval_tss : Handler
  segment_not_present stack_exception general_protection page_fault copr_error sys_call : Handler
  hwint : ℕ → Handler

-- The calls of `init_protect_mode_interrupt_mechanism`: vector, handler and privilege.
abbrev pub calls : List (ℕ × Handler × ℕ)
calls =
    (0, divide_error, privilege_kernel)
    ∷ (1, single_step_exception, privilege_kernel)
    ∷ (2, nmi, privilege_kernel)
    ∷ (3, breakpoint_exception, privilege_user)
    ∷ (4, overflow, privilege_user)
    ∷ (5, bounds_check, privilege_kernel)
    ∷ (6, inval_opcode, privilege_kernel)
    ∷ (7, copr_not_available, privilege_kernel)
    ∷ (8, double_fault, privilege_kernel)
    ∷ (9, copr_seg_overrun, privilege_kernel)
    ∷ (10, inval_tss, privilege_kernel)
    ∷ (11, segment_not_present, privilege_kernel)
    ∷ (12, stack_exception, privilege_kernel)
    ∷ (13, general_protection, privilege_kernel)
    ∷ (14, page_fault, privilege_kernel)
    ∷ (15, copr_error, privilege_kernel)
    ∷ (32, hwint 0, privilege_kernel)
    ∷ (33, hwint 1, privilege_kernel)
    ∷ (34, hwint 2, privilege_kernel)
    ∷ (35, hwint 3, privilege_kernel)
    ∷ (36, hwint 4, privilege_kernel)
    ∷ (37, hwint 5, privilege_kernel)
    ∷ (38, hwint 6, privilege_kernel)
    ∷ (39, hwint 7, privilege_kernel)
    ∷ (40, hwint 8, privilege_kernel)
    ∷ (41, hwint 9, privilege_kernel)
    ∷ (42, hwint 10, privilege_kernel)
    ∷ (43, hwint 11, privilege_kernel)
    ∷ (44, hwint 12, privilege_kernel)
    ∷ (45, hwint 13, privilege_kernel)
    ∷ (46, hwint 14, privilege_kernel)
    ∷ (47, hwint 15, privilege_kernel)
    ∷ (0x70, sys_call, privilege_user)
    ∷ []

-- `handler h` is the address of a routine.
unfoldable pub install : (Handler → ℕ) → List (ℕ × Handler × ℕ) → (ℕ → Gate) → ℕ → Gate
install handler [] idt = idt
install handler ((v, h, privilege) ∷ rest) idt =
    install handler rest (update idt v (init_idt_descriptor (handler h) privilege))

unfoldable pub init_protect_mode_interrupt_mechanism : (Handler → ℕ) → (ℕ → Gate) → ℕ → Gate
unfolding install
init_protect_mode_interrupt_mechanism handler idt = install handler calls idt

-- What the processor reads from a gate.
unfoldable pub gate_offset : Gate → ℕ
gate_offset g = g.offset_low + g.offset_high * 2 ^ 16

unfoldable pub gate_privilege : Gate → ℕ
gate_privilege g = g.attr / 2 ^ 5 % 2 ^ 2

-- A present gate of a 32-bit interrupt routine in the kernel's code segment, at an address and with
-- the least privilege of a caller.
pub record Leads (g : Gate) (address privilege : ℕ) : Type 0 where
  pub offset : gate_offset g ≡ address
  pub caller : gate_privilege g ≡ privilege
  pub segment : g.selector ≡ 8
  pub kind : g.attr % 2 ^ 5 ≡ 0x0E
  pub is_present : g.attr / 2 ^ 7 ≡ 1

init_idt_descriptor-Leads :
    (base privilege : ℕ)
    → base < 2 ^ 32
    → privilege < 4
    → Leads (init_idt_descriptor base privilege) base privilege
unfolding gate_offset gate_privilege init_idt_descriptor
init_idt_descriptor-Leads base privilege lt small = record {
  offset = omega arith;
  caller = omega arith;
  segment = refl;
  kind = omega arith;
  is_present = omega arith;
}

-- The table for the processor's exceptions, the two interrupt controllers and the system call.
pub record IsInstalled (handler : Handler → ℕ) (idt idt' : ℕ → Gate) : Type 0 where
  pub on_divide_error : Leads (idt' 0) (handler divide_error) 0
  pub on_single_step_exception : Leads (idt' 1) (handler single_step_exception) 0
  pub on_nmi : Leads (idt' 2) (handler nmi) 0
  pub on_breakpoint_exception : Leads (idt' 3) (handler breakpoint_exception) 3
  pub on_overflow : Leads (idt' 4) (handler overflow) 3
  pub on_bounds_check : Leads (idt' 5) (handler bounds_check) 0
  pub on_inval_opcode : Leads (idt' 6) (handler inval_opcode) 0
  pub on_copr_not_available : Leads (idt' 7) (handler copr_not_available) 0
  pub on_double_fault : Leads (idt' 8) (handler double_fault) 0
  pub on_copr_seg_overrun : Leads (idt' 9) (handler copr_seg_overrun) 0
  pub on_inval_tss : Leads (idt' 10) (handler inval_tss) 0
  pub on_segment_not_present : Leads (idt' 11) (handler segment_not_present) 0
  pub on_stack_exception : Leads (idt' 12) (handler stack_exception) 0
  pub on_general_protection : Leads (idt' 13) (handler general_protection) 0
  pub on_page_fault : Leads (idt' 14) (handler page_fault) 0
  pub on_copr_error : Leads (idt' 15) (handler copr_error) 0
  pub on_interrupt : (n : ℕ) → n < 16 → Leads (idt' (0x20 + n)) (handler (hwint n)) 0
  pub on_sys_call : Leads (idt' 0x70) (handler sys_call) 3
  pub others : (v : ℕ) → 16 ≤ v → (v < 0x20) ⊎ (0x30 ≤ v) → v ≢ 0x70 → idt' v ≡ idt v

-- No call names the vector.
abbrev IsAbsent : ℕ → List (ℕ × Handler × ℕ) → Type 0
IsAbsent v [] = Unit
IsAbsent v ((w, h, p) ∷ rest) = ((w == v) ≡ false) × IsAbsent v rest

install-others :
    (handler : Handler → ℕ) (v : ℕ) (cs : List (ℕ × Handler × ℕ)) (idt : ℕ → Gate)
    → IsAbsent v cs
    → install handler cs idt v ≡ idt v
unfolding install
install-others handler v [] idt absent = refl
install-others handler v ((w, h, p) ∷ rest) idt (out, absent) =
    install-others handler v rest (update idt w (init_idt_descriptor (handler h) p)) absent
    ∙ rw (out) refl

interrupts :
    (handler : Handler → ℕ) (idt : ℕ → Gate) (n : ℕ)
    → n < 16
    → Leads (init_idt_descriptor (handler (hwint n)) 0) (handler (hwint n)) 0
    → Leads (install handler calls idt (0x20 + n)) (handler (hwint n)) 0
unfolding install
interrupts handler idt zero h g = g
interrupts handler idt (suc zero) h g = g
interrupts handler idt (suc (suc zero)) h g = g
interrupts handler idt (suc (suc (suc zero))) h g = g
interrupts handler idt (suc (suc (suc (suc zero)))) h g = g
interrupts handler idt (suc (suc (suc (suc (suc zero))))) h g = g
interrupts handler idt (suc (suc (suc (suc (suc (suc zero)))))) h g = g
interrupts handler idt (suc (suc (suc (suc (suc (suc (suc zero))))))) h g = g
interrupts handler idt (suc (suc (suc (suc (suc (suc (suc (suc zero)))))))) h g = g
interrupts handler idt (suc (suc (suc (suc (suc (suc (suc (suc (suc zero))))))))) h g = g
interrupts handler idt (suc (suc (suc (suc (suc (suc (suc (suc (suc (suc zero)))))))))) h g = g
interrupts handler idt (suc (suc (suc (suc (suc (suc (suc (suc (suc (suc (suc zero))))))))))) h g =
    g
interrupts handler idt (suc (suc (suc (suc (suc (suc (suc (suc (suc (suc (suc (suc zero))))))))))))
      h g =
    g
interrupts handler idt
      (suc (suc (suc (suc (suc (suc (suc (suc (suc (suc (suc (suc (suc zero))))))))))))) h g =
    g
interrupts handler idt
      (suc (suc (suc (suc (suc (suc (suc (suc (suc (suc (suc (suc (suc (suc zero)))))))))))))) h g =
    g
interrupts handler idt
      (suc (suc (suc (suc (suc (suc (suc (suc (suc (suc (suc (suc (suc (suc (suc zero)))))))))))))))
      h g =
    g
interrupts handler idt
      (suc
        (suc (suc (suc (suc (suc (suc (suc (suc (suc (suc (suc (suc (suc (suc (suc n))))))))))))))))
      h g =
    absurd (omega arith)

-- `init_protect_mode_interrupt_mechanism` leads each exception, each of the sixteen interrupts and the
-- system call to its own routine, for all 32-bit addresses of the routines; a user's program may
-- raise the breakpoint, the overflow and the system call, and no other. Every other entry of the
-- table stays as it was.
pub install-IsInstalled :
    (handler : Handler → ℕ) (idt : ℕ → Gate)
    → ((h : Handler) → handler h < 2 ^ 32)
    → IsInstalled handler idt (init_protect_mode_interrupt_mechanism handler idt)
unfolding init_protect_mode_interrupt_mechanism
install-IsInstalled handler idt lt =
    let gate : (h : Handler) (p : ℕ)
        → p < 4
        → Leads (init_idt_descriptor (handler h) p) (handler h) p =
      λ h p small. init_idt_descriptor-Leads (handler h) p (lt h) small in
    record {
      on_divide_error = gate divide_error 0 (omega arith);
      on_single_step_exception = gate single_step_exception 0 (omega arith);
      on_nmi = gate nmi 0 (omega arith);
      on_breakpoint_exception = gate breakpoint_exception 3 (omega arith);
      on_overflow = gate overflow 3 (omega arith);
      on_bounds_check = gate bounds_check 0 (omega arith);
      on_inval_opcode = gate inval_opcode 0 (omega arith);
      on_copr_not_available = gate copr_not_available 0 (omega arith);
      on_double_fault = gate double_fault 0 (omega arith);
      on_copr_seg_overrun = gate copr_seg_overrun 0 (omega arith);
      on_inval_tss = gate inval_tss 0 (omega arith);
      on_segment_not_present = gate segment_not_present 0 (omega arith);
      on_stack_exception = gate stack_exception 0 (omega arith);
      on_general_protection = gate general_protection 0 (omega arith);
      on_page_fault = gate page_fault 0 (omega arith);
      on_copr_error = gate copr_error 0 (omega arith);
      on_interrupt = λ n h. interrupts handler idt n h (gate (hwint n) 0 (omega arith));
      on_sys_call = gate sys_call 3 (omega arith);
      others = λ v low out ne. install-others handler v calls idt (ground arith);
    }
