-- ===== src/Kernel/Ipc/Deadlock.antt =====
-- `deadlock` of kernel/ipc.c decides whether the processes that wait for one another lead from the
-- destination back to the sender.
use mini_operate_system.Prelude.{
  ℕ, zero, suc, ◌≤◌, ◌<◌, ◌≡◌, ◌≢◌, ◌↔◌, ◌⊎◌, refl, sym, ◌∙◌, inl, inr, arith, Bool, true, false,
  ◌==◌, List, [], ◌∷◌, length, Bool-cases,
}
use mini_operate_system.Kernel.Process.{Peer, proc, nr_all}
use mini_operate_system.Kernel.Schedule.{Table}
use mini_operate_system.Kernel.System.{System, ok, ◌>>=◌, ◌>>◌}
use mini_operate_system.Kernel.Ipc.{print_cycle, deadlock_loop, deadlock}
use mini_operate_system.Kernel.Ipc.Queue.{has, Distinct, length-le}
use mini_operate_system.Kernel.Ipc.Mail.{IsMail, Boxes}

-- The chain of processes of which each waits to send to the next leads from `p` to `src`.
pub data Leads (t : Table) (src : ℕ) : ℕ → Type 0 where
  here : {p : ℕ} (q : ℕ) → (t p).sending ≡ true → (t p).p_sendto ≡ proc q → q ≡ src → Leads t src p
  there :
      {p : ℕ} (q : ℕ)
      → (t p).sending ≡ true
      → (t p).p_sendto ≡ proc q
      → Leads t src q
      → Leads t src p

-- The chain from `p` ends after `n` steps at a process that does not wait to send.
abbrev pub EndsIn : Table → ℕ → ℕ → Type 0
EndsIn t zero p = (t p).sending ≡ false
EndsIn t (suc n) p = (q : ℕ) × ((t p).sending ≡ true) × ((t p).p_sendto ≡ proc q) × EndsIn t n q

-- Every chain ends: no processes wait for one another in a cycle.
abbrev pub Acyclic : Table → Type 0
Acyclic t = (p : ℕ) → p < nr_all → (n : ℕ) × EndsIn t n p

next : Peer → ℕ
next (proc q) = q
next _ = 0

trail : Table → ℕ → ℕ → List ℕ
trail t zero p = p ∷ []
trail t (suc n) p = p ∷ trail t n (next (t p).p_sendto)

EndsIn-unique : (t : Table) (n m p : ℕ) → EndsIn t n p → EndsIn t m p → n ≡ m
EndsIn-unique t zero zero p a b = refl
EndsIn-unique t zero (suc m) p a (q, b, _, _) = cc
EndsIn-unique t (suc n) zero p (q, a, _, _) b = cc
EndsIn-unique t (suc n) (suc m) p (q, a, e, c) (r, b, f, d) =
    let same : q ≡ r = ground arith in omega (arith, EndsIn-unique t n m r (rw same at c) d)

module _ (t : Table) where
  has-trail :
      (n p a : ℕ) → EndsIn t n p → has a (trail t n p) ≡ true → (k : ℕ) × (k ≤ n) × EndsIn t k a
  unfolding trail next
  has-trail zero p a e h = (0, omega arith, (let same : a ≡ p = ground arith in rw same e))
  has-trail (suc n) p a (q, s, to, e) h = elim (Bool-cases (a == p)) [
    | inl own ↦ let same : a ≡ p = ground arith in (suc n, omega arith, rw same (q, s, to, e))
    | inr ne ↦ let (k, le, w) = has-trail n q a e (rw (ne, to) at h) in (k, omega arith, w)
  ]

  Distinct-trail : (n p : ℕ) → EndsIn t n p → Distinct (trail t n p)
  unfolding trail next
  Distinct-trail zero p e = (refl, tt)
  Distinct-trail (suc n) p (q, s, to, e) = rw to (fresh, Distinct-trail n q e)
    where
      fresh : has p (trail t n q) ≡ false
      fresh = elim (Bool-cases (has p (trail t n q))) [
        | inr out ↦ out
        | inl i ↦
            let (k, le, w) = has-trail n q p e i in
            absurd (omega (arith, EndsIn-unique t (suc n) k p (q, s, to, e) w))
      ]

  length-trail : (n p : ℕ) → length (trail t n p) ≡ suc n
  unfolding trail
  length-trail zero p = refl
  length-trail (suc n) p = omega (arith, length-trail n (next (t p).p_sendto))

module _ {t : Table} {q : Boxes} (v : IsMail t q) where
  trail_below : (n p a : ℕ) → p < nr_all → EndsIn t n p → has a (trail t n p) ≡ true → a < nr_all
  unfolding trail next
  trail_below zero p a lt e h = let same : a ≡ p = ground arith in rw same lt
  trail_below (suc n) p a lt (d, s, to, e) h = elim (Bool-cases (a == p)) [
    | inl own ↦ let same : a ≡ p = ground arith in rw same lt
    | inr ne ↦ trail_below n d a (v.complete p d lt s to).0 e (rw (ne, to) at h)
  ]

  -- A chain visits no process twice, so it is shorter than the process table.
  pub EndsIn-lt : (n p : ℕ) → p < nr_all → EndsIn t n p → n < nr_all
  EndsIn-lt n p lt e = omega (
    arith,
    length-trail t n p,
    length-le nr_all (trail t n p) (Distinct-trail t n p e) (λ a. trail_below n p a lt e),
  )

module _ (s : System) (src : ℕ) where
  abbrev LeadsBack : ℕ → Type 0
  LeadsBack = Leads s.table src

  Leads-next :
      {p : ℕ} (q : ℕ) → (s.table p).p_sendto ≡ proc q → LeadsBack p → (q ≡ src) ⊎ LeadsBack q
  Leads-next q to (here r sends to' e) = let same : q ≡ r = ground arith in inl (same ∙ e)
  Leads-next q to (there r sends to' w) = let same : q ≡ r = ground arith in inr (rw same w)

  Leads-sending : {p : ℕ} → LeadsBack p → (s.table p).sending ≡ true
  Leads-sending (here q sends to e) = sends
  Leads-sending (there q sends to w) = sends

  -- The loop that prints the cycle ends.
  print_cycle-ok :
      (fuel n p : ℕ) {boxes : Boxes}
      → IsMail s.table boxes
      → p < nr_all
      → EndsIn s.table n p
      → n ≤ fuel
      → LeadsBack p
      → print_cycle fuel src p s ≡ ok tt s
  unfolding print_cycle
  print_cycle-ok fuel zero p v lt e le w = absurd (ground (arith, Leads-sending w))
  print_cycle-ok zero (suc n) p v lt e le w = absurd (omega arith)
  print_cycle-ok (suc fuel) (suc n) p v lt (q, sends, to, e) le w =
      let msg' : ((s.table p).p_msg == 0) ≡ false = ground (arith, (v.sane p lt).msg) in
      rw (print_cycle, msg', to)
        (elim (Bool-cases (q == src)) [
          | inl hit ↦ rw hit
          | inr miss ↦ rw miss (elim (Leads-next q to w) [
            | inl eq ↦ absurd (ground arith)
            | inr w' ↦ print_cycle-ok fuel n q v (v.complete p q lt sends to).0 e (omega arith) w'
          ])
        ])

  deadlock_loop-Leads :
      (fuel n dest p : ℕ)
      → EndsIn s.table n p
      → n < fuel
      → (LeadsBack p → print_cycle nr_all src dest s ≡ ok tt s)
      → (b : Bool) × (deadlock_loop fuel src dest p s ≡ ok b s) × ((b ≡ true) ↔ LeadsBack p)
  unfolding deadlock_loop
  deadlock_loop-Leads zero n dest p e lt print = absurd (omega arith)
  deadlock_loop-Leads (suc fuel) zero dest p e lt print =
      (false, rw e, ((λ f. cc), λ w. ground (arith, Leads-sending w)))
  deadlock_loop-Leads (suc fuel) (suc n) dest p (q, sends, to, e) lt print =
      elim (Bool-cases (q == src)) [
        | inl hit ↦
            let w : LeadsBack p = here q sends to (ground arith) in
            (true, rw (deadlock_loop, sends, to, hit, print w, ◌>>◌, ◌>>=◌), ((λ f. w), λ w'. refl))
        | inr miss ↦
            let (b, run, iff) =
              deadlock_loop-Leads fuel n dest q e (omega arith) (λ w. print (there q sends to w)) in
            (
              b,
              rw (deadlock_loop, sends, to, miss) run,
              (
                (λ f. there q sends to (iff.0 f)),
                λ w. elim (Leads-next q to w) [
                  | inl eq ↦ absurd (ground arith)
                  | inr w' ↦ iff.1 w'
                ],
              ),
            )
      ]

-- In a valid table without cyclic waits `deadlock` ends, and returns 1 exactly if the chain of
-- waiting processes leads from the destination to the sender.
pub deadlock-Leads :
    (s : System) (src dest : ℕ) {q : Boxes}
    → IsMail s.table q
    → Acyclic s.table
    → dest < nr_all
    → (b : Bool) × (deadlock src dest s ≡ ok b s) × ((b ≡ true) ↔ Leads s.table src dest)
unfolding deadlock
deadlock-Leads s src dest v acyclic lt =
    let (n, e) = acyclic dest lt in
    let small : n < nr_all = EndsIn-lt v n dest lt e in
    deadlock_loop-Leads s src nr_all n dest dest e small
      (λ w. print_cycle-ok s src nr_all n dest v lt e (omega arith) w)

-- Chains in a table where `sender`, which did not wait, now waits for `dest`.
module _ (t t' : Table) (sender dest : ℕ) (idle : (t sender).sending ≡ false)
    (sends : (t' sender).sending ≡ true) (to : (t' sender).p_sendto ≡ proc dest)
    (same : (i : ℕ)
      → i ≢ sender
      → ((t' i).sending ≡ (t i).sending) × ((t' i).p_sendto ≡ (t i).p_sendto)) where
  -- A chain that does not lead to the sender is as before.
  EndsIn-clear : (n p : ℕ) → p ≢ sender → (Leads t sender p → ⊥) → EndsIn t n p → EndsIn t' n p
  EndsIn-clear zero p ne clear e = (same p ne).0 ∙ e
  EndsIn-clear (suc n) p ne clear (q, s, to', e) = (
    q,
    (same p ne).0 ∙ s,
    (same p ne).1 ∙ to',
    EndsIn-clear n q (λ eq. clear (here q s to' eq)) (λ w. clear (there q s to' w)) e,
  )

  EndsIn-extended : (k : ℕ) → EndsIn t' k dest → (n p : ℕ) → EndsIn t n p → (m : ℕ) × EndsIn t' m p
  EndsIn-extended k after zero p e = elim (Bool-cases (p == sender)) [
    | inl own ↦ let at : p ≡ sender = ground arith in (suc k, rw at (dest, sends, to, after))
    | inr ne ↦ (0, (same p (ground arith)).0 ∙ e)
  ]
  EndsIn-extended k after (suc n) p (q, s, to', e) =
      let ne : p ≢ sender = ground arith in
      let (m, w) = EndsIn-extended k after n q e in
      (suc m, (q, (same p ne).0 ∙ s, (same p ne).1 ∙ to', w))

  -- Without a deadlock the new wait closes no cycle.
  pub Acyclic-extended :
      sender ≢ dest → dest < nr_all → (Leads t sender dest → ⊥) → Acyclic t → Acyclic t'
  Acyclic-extended other lt clear acyclic p h =
      let (k, e) = acyclic dest lt in
      let (n, w) = acyclic p h in
      EndsIn-extended k (EndsIn-clear k dest (λ eq. other (sym eq)) clear e) n p w
