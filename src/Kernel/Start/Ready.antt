-- ===== src/Kernel/Start/Ready.antt =====
-- What `kernel_main` of kernel/main.c hands to the scheduler and to message passing.
use mini_operate_system.Prelude.{
  ℕ, zero, suc, ◌<◌, ◌≡◌, refl, ap, ◌∙◌, arith, pos, false, List, [], ◌∷◌, get_or, none, pos_part,
  neg_part,
}
use mini_operate_system.Kernel.Process.{Process, no_task, nr_all}
use mini_operate_system.Kernel.Schedule.{Table, Clock}
use mini_operate_system.Kernel.Schedule.Tick.{IsTable, IsValid}
use mini_operate_system.Kernel.Ipc.Mail.{IsSane}
use mini_operate_system.Kernel.Ipc.Sent.{IsKernel}
use mini_operate_system.Kernel.Start.{Start, Layout, kernel_main, first_clock}

below_seven : (P : ℕ → Type 0) → P 0 → P 1 → P 2 → P 3 → P 4 → P 5 → P 6 → (i : ℕ) → i < 7 → P i
below_seven P a b c d e f g zero lt = a
below_seven P a b c d e f g (suc zero) lt = b
below_seven P a b c d e f g (suc (suc zero)) lt = c
below_seven P a b c d e f g (suc (suc (suc zero))) lt = d
below_seven P a b c d e f g (suc (suc (suc (suc zero)))) lt = e
below_seven P a b c d e f g (suc (suc (suc (suc (suc zero))))) lt = f
below_seven P a b c d e f g (suc (suc (suc (suc (suc (suc zero)))))) lt = g
below_seven P a b c d e f g (suc (suc (suc (suc (suc (suc (suc n))))))) lt = absurd (omega arith)

-- The priorities of the entries, in order.
abbrev pub priorities : List ℕ
priorities = 200 ∷ 150 ∷ 100 ∷ 600 ∷ 550 ∷ 500 ∷ 450 ∷ []

-- A process that has just been set up.
abbrev fresh : Process → ℕ → Process
fresh p n = record p {
  priority = pos n;
  ticks = pos n;
  sending = false;
  receiving = false;
  p_recvfrom = no_task;
  p_sendto = no_task;
  has_int_msg = false;
  q_sending = none;
  next_sending = none;
}

IsSane-fresh : (p : Process) (n : ℕ) → p ≡ fresh p n → p.p_msg ≡ 0 → IsSane p
IsSane-fresh p n e null =
    let still : p.sending ≡ false = ap (λ (q : Process). q.sending) e in
    let deaf : p.receiving ≡ false = ap (λ (q : Process). q.receiving) e in
    let from : p.p_recvfrom ≡ no_task = ap (λ (q : Process). q.p_recvfrom) e in
    let to : p.p_sendto ≡ no_task = ap (λ (q : Process). q.p_sendto) e in
    record {
      one = rw still refl;
      msg = ground arith;
      from = ground arith;
      to = ground arith;
      quiet = ap (λ (q : Process). q.has_int_msg) e;
    }

priorities-positive : (i : ℕ) → i < nr_all → 0 < get_or priorities i 0
priorities-positive =
    below_seven (λ i. 0 < get_or priorities i 0) (omega arith) (omega arith) (omega arith)
      (omega arith) (omega arith) (omega arith) (omega arith)

-- The table is the one of message passing without any message.
abbrev pub IsQuiet : Table → Type 0
IsQuiet t = (i : ℕ) → i < nr_all → (t i ≡ fresh (t i) (get_or priorities i 0)) × ((t i).p_msg ≡ 0)

still_of : {t : Table} → IsQuiet t → (i : ℕ) → i < nr_all → (t i).sending ≡ false
still_of v i lt = ap (λ (q : Process). q.sending) ((v i lt).0)

IsKernel-quiet : (t : Table) → IsQuiet t → IsKernel t (λ d. [])
IsKernel-quiet t v = record {
  mail = record {
    sane = λ i lt. IsSane-fresh (t i) _ ((v i lt).0) ((v i lt).1);
    links = λ d lt. ap (λ (q : Process). q.q_sending) ((v d lt).0);
    distinct = λ d lt. tt;
    members = λ d i lt w. cc;
    complete = λ i d lt sends to. let idle = still_of v i lt in cc;
    addressed = λ i lt sends. let idle = still_of v i lt in cc;
  };
  acyclic = λ p lt. (0, still_of v p lt);
}

IsTable-quiet : (t : Table) → IsQuiet t → IsTable t
IsTable-quiet t v = record {
  no_debt = λ i lt. ap (λ (q : Process). neg_part q.ticks) ((v i lt).0);
  ranked = λ i lt.
      let e = ap (λ (q : Process). pos_part q.priority) ((v i lt).0) in
      rw e (priorities-positive i lt);
}

IsValid-quiet : (c : Clock) → IsQuiet c.table → c.current ≡ 0 → IsValid c
IsValid-quiet c v first =
    let at = v 0 (omega arith) in
    record {
      table = IsTable-quiet c.table v;
      within = rw first (omega arith);
      running =
          let still = ap (λ (q : Process). q.sending) (at.0) in
          let deaf = ap (λ (q : Process). q.receiving) (at.0) in rw (first, still, deaf) refl;
      credit = let e = ap (λ (q : Process). pos_part q.ticks) (at.0) in rw (first, e) (omega arith);
    }

module _ (l : Layout) (s : Start) where
  table-fresh :
      (i : ℕ)
      → i < nr_all
      → let t = (first_clock (kernel_main l s)).table in t i ≡ fresh (t i) (get_or priorities i 0)
  unfolding kernel_main first_clock
  table-fresh =
      below_seven
        (λ i.
          let t = (first_clock (kernel_main l s)).table in
          t i ≡ fresh (t i) (get_or priorities i 0))
        refl refl refl refl refl refl refl

  table-p_msg :
      (i : ℕ)
      → i < nr_all
      → ((first_clock (kernel_main l s)).table i).p_msg ≡ (s.table i).process.p_msg
  unfolding kernel_main first_clock
  table-p_msg =
      below_seven (λ i. ((first_clock (kernel_main l s)).table i).p_msg ≡ (s.table i).process.p_msg)
        refl refl refl refl refl refl refl

-- What `kernel_main` sets up is a valid start: with the message pointers null, as they lie in the
-- zeroed part of the image, the clock interrupt finds a valid system with process 0 running, and
-- message passing finds empty mailboxes and nobody waiting. Each process has its priority as its
-- ticks, and the seven priorities are 200, 150, 100, 600, 550, 500 and 450.
pub kernel_main-IsValid :
    (l : Layout) (s : Start)
    → ((i : ℕ) → i < nr_all → (s.table i).process.p_msg ≡ 0)
    → let c = first_clock (kernel_main l s) in
      IsValid c
      × IsKernel c.table (λ d. [])
      × ((i : ℕ)
          → i < nr_all
          → ((c.table i).priority ≡ pos (get_or priorities i 0))
            × ((c.table i).ticks ≡ pos (get_or priorities i 0)))
kernel_main-IsValid l s clear =
    let c = first_clock (kernel_main l s) in
    let v : IsQuiet c.table = λ i lt. (table-fresh l s i lt, table-p_msg l s i lt ∙ clear i lt) in
    (
      IsValid-quiet c v (unfold first_clock in refl),
      IsKernel-quiet c.table v,
      λ i lt. (
        ap (λ (q : Process). q.priority) ((v i lt).0),
        ap (λ (q : Process). q.ticks) ((v i lt).0),
      ),
    )
