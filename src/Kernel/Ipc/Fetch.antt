-- ===== src/Kernel/Ipc/Fetch.antt =====
-- `msg_receive` of kernel/ipc.c as an operation on the mailboxes.
use mathlib.Core.Path.{fun_ext, ap₂}
use mini_operate_system.Prelude.{
  ℕ, ◌≡◌, ◌≢◌, refl, ap, ◌∙◌, inl, inr, arith, true, false, none, some, ◌==◌, List, [], ◌∷◌, update,
  Bool-cases, Option-cases,
}
use mini_operate_system.Kernel.Process.{Process, no_task}
use mini_operate_system.Kernel.Schedule.{Table}
use mini_operate_system.Kernel.System.{Message, System, ok, ◌>>=◌, ◌>>◌, address, unblock}
use mini_operate_system.Kernel.Ipc.Receive.{unlink_waiting, copy_waiting, take_message}
use mini_operate_system.Kernel.Ipc.Queue.{has, Chain, before, before-has, before-ne}
use mini_operate_system.Kernel.Ipc.Taken.{release, cut, taken}

pub update_twice {ℓ} :
    {A : Type ℓ} (f : ℕ → A) (i : ℕ) (a b : A) → update (update f i a) i b ≡ update f i b
update_twice f i a b = fun_ext (λ j. ground arith)

-- The state after a receive that finds a waiting sender: its message lies where the receiver asked.
abbrev pub received : System → ℕ → ℕ → ℕ → List ℕ → System
received s me from m xs = record s {
  table = taken s.table me from xs;
  mem = update s.mem (address s.table me m) (s.mem (address s.table from (s.table from).p_msg));
}

cut-from : (t : Table) (me from : ℕ) (xs : List ℕ) → me ≢ from → cut t me from xs from ≡ t from
unfolding cut
cut-from t me from [] ne = refl
cut-from t me from (h ∷ r) ne = elim (Bool-cases (h == from)) [
  | inl hit ↦ ground arith
  | inr miss ↦ elim (Option-cases (before (some h) from r)) [
    | inl e ↦ rw (miss, e)
    | inr (b, e) ↦ rw (miss, e) (ground (arith, before-ne from b h r e (ground arith)))
  ]
]

cut-ldt_ds :
    (t : Table) (me from : ℕ) (xs : List ℕ) (i : ℕ) → (cut t me from xs i).ldt_ds ≡ (t i).ldt_ds
unfolding cut
cut-ldt_ds t me from [] i = refl
cut-ldt_ds t me from (h ∷ r) i = ground arith

unlink_waiting-cut :
    (s : System) (me from : ℕ) (xs : List ℕ)
    → me ≢ from
    → Chain s.table (s.table me).q_sending xs
    → has from xs ≡ true
    → unlink_waiting me from (before none from xs) s
      ≡ ok tt (record s {
        table =
            update (cut s.table me from xs) from (record (s.table from) { next_sending = none });
      })
unfolding unlink_waiting cut
unlink_waiting-cut s me from [] ne c i = absurd (ground arith)
unlink_waiting-cut s me from (h ∷ r) ne (e, c) i = elim (Bool-cases (h == from)) [
  | inl hit ↦ ground arith
  | inr miss ↦
      let (b, prev, j) = before-has from h r (ground arith) in
      let apart : b ≢ from = before-ne from b h r prev (ground arith) in
      rw (miss, prev) (ground arith)
]

copy_waiting-ok :
    (s : System) (me from m : ℕ)
    → m ≢ 0
    → (s.table from).p_msg ≢ 0
    → (s.table from).receiving ≡ false
    → copy_waiting me from m s
      ≡ ok tt (record s {
        table =
            update s.table from
              (record (s.table from) { p_msg = 0; p_sendto = no_task; sending = false });
        mem =
            update s.mem (address s.table me m) (s.mem (address s.table from (s.table from).p_msg));
      })
unfolding copy_waiting unblock
copy_waiting-ok s me from m given msg idle = ground arith

address-same :
    (t t' : Table) (i vir : ℕ) → (t' i).ldt_ds ≡ (t i).ldt_ds → address t' i vir ≡ address t i vir
unfolding address
address-same t t' i vir e = rw e

pub take_message-received :
    (s : System) (me from m : ℕ) (xs : List ℕ)
    → me ≢ from
    → Chain s.table (s.table me).q_sending xs
    → has from xs ≡ true
    → m ≢ 0
    → (s.table from).p_msg ≢ 0
    → (s.table from).receiving ≡ false
    → take_message me from (before none from xs) m s ≡ ok tt (received s me from m xs)
unfolding take_message
take_message-received s me from m xs ne c i given msg idle =
    rw (unlink_waiting-cut s me from xs ne c i, ◌>>◌, ◌>>=◌)
      (copy_waiting-ok s' me from m given (rw at msg) (rw at idle)
        ∙ ap₂ (λ (t : Table) (f : ℕ → Message). ok tt (record s { table = t; mem = f })) tables
            mems)
  where
    entry : Process
    entry = record (s.table from) { next_sending = none }

    s' : System
    s' = record s { table = update (cut s.table me from xs) from entry }

    at : s'.table from ≡ entry
    at = ground arith

    bases : (j : ℕ) → (s'.table j).ldt_ds ≡ (s.table j).ldt_ds
    bases j = ground (arith, cut-ldt_ds s.table me from xs j)

    tables :
        update s'.table from
          (record (s'.table from) { p_msg = 0; p_sendto = no_task; sending = false })
        ≡ taken s.table me from xs
    tables =
        update_twice (cut s.table me from xs) from entry _
        ∙ ap
            (λ (p : Process).
              update (cut s.table me from xs) from
                (record p { p_msg = 0; p_sendto = no_task; sending = false }))
            at
        ∙ unfold taken release in refl

    mems :
        update s'.mem (address s'.table me m) (s'.mem (address s'.table from (s'.table from).p_msg))
        ≡ update s.mem (address s.table me m) (s.mem (address s.table from (s.table from).p_msg))
    mems =
        ap
          (λ (p : Process).
            update s.mem (address s'.table me m) (s.mem (address s'.table from p.p_msg)))
          at
        ∙ ap₂ (λ (a b : ℕ). update s.mem a (s.mem b))
            (address-same s.table s'.table me m (bases me))
            (address-same s.table s'.table from (s.table from).p_msg (bases from))
