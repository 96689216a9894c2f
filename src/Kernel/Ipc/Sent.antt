-- ===== src/Kernel/Ipc/Sent.antt =====
-- `msg_send` of kernel/ipc.c as an operation on the mailboxes.
use mini_operate_system.Prelude.{
  ℕ, zero, suc, ◌<◌, ◌≡◌, ◌≢◌, refl, sym, ap, ◌∙◌, inl, inr, arith, true, false, none, ◌==◌,
  pos_part, Bool-cases,
}
use mini_operate_system.Kernel.Process.{Process, task, nr_all, is_runnable}
use mini_operate_system.Kernel.Schedule.{Table}
use mini_operate_system.Kernel.Schedule.Select.{Scheduled, schedule-Scheduled}
use mini_operate_system.Kernel.System.{System, ok, halt, ◌>>=◌, ◌>>◌}
use mini_operate_system.Kernel.Ipc.{awaits, deadlock, deadlock_loop, msg_send}
use mini_operate_system.Kernel.Ipc.Queue.{has, Chain-frame}
use mini_operate_system.Kernel.Ipc.Mail.{
  IsSane, IsMail, Boxes, Scheduled-SameMail, IsMail-same, length-box-le, not_waiting,
}
use mini_operate_system.Kernel.Ipc.Deadlock.{
  Leads, EndsIn, Acyclic, Acyclic-extended, deadlock-Leads,
}
use mini_operate_system.Kernel.Ipc.Queued.{
  queued, mark, posted, queued-sender, queued-other, IsMail-queued,
}
use mini_operate_system.Kernel.Ipc.Send.{delivered, deliver-delivered, enqueue-queued}

-- The table holds the mailboxes `q`, and no processes wait for one another in a cycle.
pub record IsKernel (t : Table) (q : Boxes) : Type 0 where
  pub mail : IsMail t q
  pub acyclic : Acyclic t

-- Chains depend on who sends to whom alone.
EndsIn-same :
    (t t' : Table)
    → ((i : ℕ) → ((t' i).sending ≡ (t i).sending) × ((t' i).p_sendto ≡ (t i).p_sendto))
    → (n p : ℕ) → EndsIn t n p
    → EndsIn t' n p
EndsIn-same t t' same zero p e = (same p).0 ∙ e
EndsIn-same t t' same (suc n) p (q, s, to, e) =
    (q, (same p).0 ∙ s, (same p).1 ∙ to, EndsIn-same t t' same n q e)

pub Acyclic-same :
    (t t' : Table)
    → ((i : ℕ) → ((t' i).sending ≡ (t i).sending) × ((t' i).p_sendto ≡ (t i).p_sendto))
    → Acyclic t
    → Acyclic t'
Acyclic-same t t' same a p lt = let (n, e) = a p lt in (n, EndsIn-same t t' same n p e)

module _ (s : System) (q : Boxes) (sender dest m : ℕ) (k : IsKernel s.table q)
    (lt : sender < nr_all) (lt' : dest < nr_all) (other : sender ≢ dest) (given : m ≢ 0)
    (run : is_runnable (s.table sender) ≡ true) where
  abbrev sent : Table
  sent = (delivered s sender dest m).table

  delivered-fields :
      (i : ℕ)
      → ((sent i).sending ≡ (s.table i).sending)
        × ((sent i).p_sendto ≡ (s.table i).p_sendto)
        × ((sent i).q_sending ≡ (s.table i).q_sending)
        × ((sent i).next_sending ≡ (s.table i).next_sending)
  delivered-fields i = ground arith

  delivered-IsSane : (s.table dest).receiving ≡ true → (i : ℕ) → i < nr_all → IsSane (sent i)
  delivered-IsSane waits i h = elim (Bool-cases (dest == i)) [
    | inl own ↦
        let w = k.mail.sane dest lt' in
        let at : dest ≡ i = ground arith in
        rw own (ground (arith, w.one, w.msg, w.from, w.to, w.quiet))
    | inr ne ↦ elim (Bool-cases (sender == i)) [
      | inl own ↦
          let w = k.mail.sane sender lt in
          rw (ne, own) (ground (arith, w.one, w.msg, w.from, w.to, w.quiet))
      | inr ne' ↦ rw (ne, ne') (k.mail.sane i h)
    ]
  ]

  delivered-IsKernel : (s.table dest).receiving ≡ true → IsKernel sent q
  delivered-IsKernel waits = record {
    mail = record {
      sane = delivered-IsSane waits;
      links = λ d h. rw (delivered-fields d).2 (
          Chain-frame s.table sent (s.table d).q_sending (q d) (k.mail.links d h)
            (λ a i. (delivered-fields a).3));
      distinct = k.mail.distinct;
      members = λ d i h w.
          let (a, b, c) = k.mail.members d i h w in
          (a, (delivered-fields i).0 ∙ b, (delivered-fields i).1 ∙ c);
      complete = λ i d h sends to.
          k.mail.complete i d h (sym (delivered-fields i).0 ∙ sends)
            (sym (delivered-fields i).1 ∙ to);
      addressed = λ i h sends.
          let (d, e) = k.mail.addressed i h (sym (delivered-fields i).0 ∙ sends) in
          (d, (delivered-fields i).1 ∙ e);
    };
    acyclic =
        Acyclic-same s.table sent (λ i. ((delivered-fields i).0, (delivered-fields i).1)) k.acyclic;
  }

  awaits-receiving : awaits (s.table dest) sender ≡ true → (s.table dest).receiving ≡ true
  awaits-receiving h = ground arith

  -- A receiver does not wait to send, so no chain starts at it.
  deadlock-receiving : (s.table dest).receiving ≡ true → deadlock sender dest s ≡ ok false s
  unfolding deadlock deadlock_loop
  deadlock-receiving waits =
      let e : (s.table dest).sending ≡ false = ground (arith, (k.mail.sane dest lt').one) in rw e

  -- A runnable process that sends to one which waits for its message hands the message over and
  -- goes on: `msg_send` returns, the message lies at the address that the receiver gave, the
  -- receiver is runnable, and the mailboxes are as before.
  pub msg_send-delivered :
      awaits (s.table dest) sender ≡ true
      → (msg_send sender dest m s ≡ ok tt (delivered s sender dest m))
        × IsKernel (delivered s sender dest m).table q
        × (is_runnable ((delivered s sender dest m).table dest) ≡ true)
  unfolding msg_send
  msg_send-delivered h =
      let waits = awaits-receiving h in
      let self : (sender == dest) ≡ false = ground arith in
      let d =
        deliver-delivered s sender dest m other given (k.mail.sane sender lt) run
          (k.mail.sane dest lt') waits in
      (
        rw (self, deadlock-receiving waits, h, ◌>>=◌, ◌>>◌) d,
        delivered-IsKernel waits,
        ground (arith, (k.mail.sane dest lt').one),
      )

  -- What a send makes of the state if it has to wait.
  pub record Posted (r : Table × ℕ) : Type 0 where
    pub returns : msg_send sender dest m s ≡ ok tt (record s { table = r.0; current = r.1 })
    pub kernel : IsKernel r.0 (posted q sender dest)
    pub waiting :
        r.0 sender
        ≡ record (mark (s.table sender) dest m) { next_sending = none; ticks = (r.0 sender).ticks }
    pub scheduled : Scheduled (queued s.table sender dest m (q dest)) r

  abbrev made : Table
  made = queued s.table sender dest m (q dest)

  idle : (s.table sender).sending ≡ false
  idle = ground arith

  outside : has sender (q dest) ≡ false
  outside = not_waiting dest sender k.mail lt' idle

  made-Acyclic : (Leads s.table sender dest → ⊥) → Acyclic made
  made-Acyclic clear =
      let e = queued-sender s.table sender dest m (q dest) other outside in
      Acyclic-extended s.table made sender dest idle (rw e (unfold mark in refl))
        (rw e (unfold mark in refl))
        (λ i ne.
          let f = queued-other s.table sender dest m (q dest) other outside i ne in
          (ap (λ (p : Process). p.sending) f, ap (λ (p : Process). p.p_sendto) f))
        other lt' clear k.acyclic

  -- A runnable process that sends to one which does not wait for its message, where the chain of
  -- waiting processes does not lead back to it, waits: it goes to the end of the receiver's mailbox
  -- with its message, the other mailboxes are as before, and no cyclic wait arises. If another
  -- process is runnable with a positive priority, `msg_send` returns with the scheduler's choice.
  pub msg_send-Posted :
      (p : ℕ)
      → awaits (s.table dest) sender ≡ false
      → (Leads s.table sender dest → ⊥)
      → p < nr_all
      → p ≢ sender
      → is_runnable (s.table p) ≡ true
      → 0 < pos_part (s.table p).priority
      → (r : Table × ℕ) × Posted r
  unfolding msg_send
  msg_send-Posted p h clear lt'' ne run' prio =
      let self : (sender == dest) ≡ false = ground arith in
      let f = queued-other s.table sender dest m (q dest) other outside p ne in
      let e = queued-sender s.table sender dest m (q dest) other outside in
      let (b, found, iff) = deadlock-Leads s sender dest k.mail k.acyclic lt' in
      let (r, chosen, sch) = schedule-Scheduled made s.current p lt'' (rw f run') (rw f prio) in
      let same = Scheduled-SameMail sch in
      let small = length-box-le dest k.mail lt' in
      let b_false : b ≡ false = elim (Bool-cases b) [
        | inl y ↦ absurd (clear (iff.0 y))
        | inr z ↦ z
      ] in
      let done =
        enqueue-queued s sender dest m (q dest) r other given (k.mail.sane sender lt) run outside
          (k.mail.links dest lt') (omega arith) chosen same in
      (
        r,
        record {
          returns = rw (self, found, b_false, h, ◌>>=◌, ◌>>◌) done;
          kernel = record {
            mail =
                IsMail-same made r.0 same
                  (IsMail-queued s.table q sender dest m k.mail lt lt' other given run);
            acyclic =
                Acyclic-same made r.0
                  (λ i. (
                    ap (λ (p : Process). p.sending) (same i),
                    ap (λ (p : Process). p.p_sendto) (same i),
                  ))
                  (made-Acyclic clear);
          };
          waiting = same sender ∙ ap (λ (x : Process). record x { ticks = (r.0 sender).ticks }) e;
          scheduled = sch;
        },
      )

-- A send that would close a cycle of waiting processes stops the machine if the current process is
-- a task.
pub msg_send-deadlock :
    (s : System) (q : Boxes) (sender dest m : ℕ)
    → IsKernel s.table q
    → dest < nr_all
    → sender ≢ dest
    → Leads s.table sender dest
    → (s.table s.current).proc_type ≡ task
    → msg_send sender dest m s ≡ halt
unfolding msg_send
msg_send-deadlock s q sender dest m k lt other w kind =
    let self : (sender == dest) ≡ false = ground arith in
    let (b, found, iff) = deadlock-Leads s sender dest k.mail k.acyclic lt in
    rw (self, found, iff.1 w, kind, ◌>>=◌, ◌>>◌)
