-- ===== src/Kernel/Ipc/Mail.antt =====
-- The abstract view of message passing in kernel/ipc.c: each process has a mailbox, the list of the
-- processes that wait to send to it, oldest first.
use mini_operate_system.Prelude.{
  ℕ, ◌≤◌, ◌<◌, ◌≡◌, refl, sym, ap, ◌∙◌, inl, inr, arith, true, false, ◌&&◌, ◌==◌, negate, List,
  length, Bool-cases,
}
use mini_operate_system.Kernel.Process.{Process, proc, nr_all, is_runnable}
use mini_operate_system.Kernel.Schedule.{Table, refill}
use mini_operate_system.Kernel.Schedule.Select.{Scheduled}
use mini_operate_system.Kernel.Ipc.{is_no_task}
use mini_operate_system.Kernel.Ipc.Queue.{has, Chain, Distinct, Chain-frame, length-le}

-- The fields of one entry agree: it does not both send and receive, its message pointer is null
-- exactly while it is runnable, it names a source or a destination exactly while it waits for one,
-- and no interrupt is pending.
pub record IsSane (p : Process) : Type 0 where
  pub one : (p.sending && p.receiving) ≡ false
  pub msg : (p.p_msg == 0) ≡ is_runnable p
  pub from : is_no_task p.p_recvfrom ≡ negate p.receiving
  pub to : is_no_task p.p_sendto ≡ negate p.sending
  pub quiet : p.has_int_msg ≡ false

abbrev pub Boxes : Type 0
Boxes = ℕ → List ℕ

-- The table holds the mailboxes `q`.
pub record IsMail (t : Table) (q : Boxes) : Type 0 where
  pub sane : (i : ℕ) → i < nr_all → IsSane (t i)
  pub links : (d : ℕ) → d < nr_all → Chain t (t d).q_sending (q d)
  pub distinct : (d : ℕ) → d < nr_all → Distinct (q d)
  pub members :
      (d i : ℕ)
      → d < nr_all
      → has i (q d) ≡ true
      → (i < nr_all) × ((t i).sending ≡ true) × ((t i).p_sendto ≡ proc d)
  pub complete :
      (i d : ℕ)
      → i < nr_all
      → (t i).sending ≡ true
      → (t i).p_sendto ≡ proc d
      → (d < nr_all) × (has i (q d) ≡ true)
  pub addressed : (i : ℕ) → i < nr_all → (t i).sending ≡ true → (d : ℕ) × ((t i).p_sendto ≡ proc d)

-- No mailbox outgrows the process table.
pub length-box-le :
    {t : Table} {q : Boxes} (d : ℕ) → IsMail t q → d < nr_all → length (q d) ≤ nr_all
length-box-le {q} d v lt = length-le nr_all (q d) (v.distinct d lt) (λ a i. (v.members d a lt i).0)

-- A runnable process waits in no mailbox.
pub not_waiting :
    {t : Table} {q : Boxes} (d i : ℕ)
    → IsMail t q
    → d < nr_all
    → (t i).sending ≡ false
    → has i (q d) ≡ false
not_waiting {q} d i v lt idle = elim (Bool-cases (has i (q d))) [
  | inl waits ↦ let (_, sends, _) = v.members d i lt waits in cc
  | inr e ↦ e
]

-- Two tables that differ in ticks alone.
abbrev pub SameMail : Table → Table → Type 0
SameMail t t' = (i : ℕ) → t' i ≡ record (t i) { ticks = (t' i).ticks }

SameMail-refill : (t : Table) → SameMail t (refill t)
unfolding refill
SameMail-refill t i = ground arith

pub Scheduled-SameMail : {t : Table} {r : Table × ℕ} → Scheduled t r → SameMail t r.0
Scheduled-SameMail {t} s = elim s.table [
  | inl e ↦ λ i. rw e refl
  | inr (e, _) ↦ λ i. rw e (SameMail-refill t i)
]

module _ (t t' : Table) (same : SameMail t t') where
  IsSane-same : (i : ℕ) → IsSane (t i) → IsSane (t' i)
  IsSane-same i v =
      rw (same i) (record { one = v.one; msg = v.msg; from = v.from; to = v.to; quiet = v.quiet })

  -- The ticks have no part in the mailboxes.
  pub IsMail-same : {q : Boxes} → IsMail t q → IsMail t' q
  IsMail-same {q} v = record {
    sane = λ i lt. IsSane-same i (v.sane i lt);
    links = λ d lt. rw (ap (λ (p : Process). p.q_sending) (same d)) (
        Chain-frame t t' (t d).q_sending (q d) (v.links d lt)
          (λ a i. ap (λ (p : Process). p.next_sending) (same a)));
    distinct = v.distinct;
    members = λ d i lt w.
        let (a, b, c) = v.members d i lt w in
        (
          a,
          ap (λ (p : Process). p.sending) (same i) ∙ b,
          ap (λ (p : Process). p.p_sendto) (same i) ∙ c,
        );
    complete = λ i d lt sends to.
        v.complete i d lt (sym (ap (λ (p : Process). p.sending) (same i)) ∙ sends)
          (sym (ap (λ (p : Process). p.p_sendto) (same i)) ∙ to);
    addressed = λ i lt sends.
        let (d, e) = v.addressed i lt (sym (ap (λ (p : Process). p.sending) (same i)) ∙ sends) in
        (d, ap (λ (p : Process). p.p_sendto) (same i) ∙ e);
  }
