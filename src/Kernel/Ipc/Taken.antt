-- ===== src/Kernel/Ipc/Taken.antt =====
-- The table that `take_message` of kernel/ipc.c makes: the sender leaves the receiver's queue and is
-- runnable again.
use mini_operate_system.Prelude.{
  ℕ, ◌<◌, ◌≡◌, ◌≢◌, refl, sym, ap, ◌∙◌, inl, inr, arith, true, false, none, some, ◌==◌, List, [],
  ◌∷◌, if◌then◌else◌, update, Bool-cases,
}
use mini_operate_system.Kernel.Process.{Process, no_task, nr_all}
use mini_operate_system.Kernel.Schedule.{Table}
use mini_operate_system.Kernel.Ipc.Queue.{
  has, Chain, Distinct, erase, has-erase, Distinct-erase, before, before-has, before-ne,
  Chain-frame, Chain-erase,
}
use mini_operate_system.Kernel.Ipc.Mail.{IsSane, IsMail, Boxes}

unfoldable pub release : Process → Process
release p = record p { next_sending = none; p_msg = 0; p_sendto = no_task; sending = false }

-- The write to the link that led to the sender.
unfoldable pub cut : Table → ℕ → ℕ → List ℕ → Table
cut t me from [] = t
cut t me from (h ∷ r) =
    if h == from
    then update t me (record (t me) { q_sending = (t from).next_sending })
    else elim (before (some h) from r) [
      | none ↦ t
      | some b ↦ update t b (record (t b) { next_sending = (t from).next_sending })
    ]

unfoldable pub taken : Table → ℕ → ℕ → List ℕ → Table
taken t me from xs = update (cut t me from xs) from (release (t from))

-- The sender's own entry is not touched by the first write, but for its link to itself.
module _ (t : Table) (me from : ℕ) (other : me ≢ from) where
  pub taken-from : (xs : List ℕ) → taken t me from xs from ≡ release (t from)
  unfolding taken
  taken-from xs = ground arith

  pub taken-other :
      (xs : List ℕ) (i : ℕ)
      → i ≢ from
      → taken t me from xs i ≡ record (t i) {
        q_sending = (taken t me from xs i).q_sending;
        next_sending = (taken t me from xs i).next_sending;
      }
  unfolding taken cut
  taken-other [] i ne = ground arith
  taken-other (h ∷ r) i ne = ground arith

  -- The receiver's mailbox loses the sender.
  pub taken-own :
      (xs : List ℕ)
      → Chain t (t me).q_sending xs
      → Distinct xs
      → has from xs ≡ true
      → let t' = taken t me from xs in Chain t' (t' me).q_sending (erase from xs)
  unfolding taken cut release erase
  taken-own [] c u i = absurd (ground arith)
  taken-own (h ∷ r) (e, c) (o, u) i = elim (Bool-cases (h == from)) [
    | inl hit ↦
        let at : h ≡ from = ground arith in
        let front : (taken t me from (h ∷ r) me).q_sending ≡ (t h).next_sending = ground arith in
        let dropped : erase from (h ∷ r) ≡ r = rw hit in
        rw (front, dropped)
          (Chain-frame t (taken t me from (h ∷ r)) (t h).next_sending r c (λ a j. ground arith))
    | inr miss ↦
        let (b, prev, j) = before-has from h r (ground arith) in
        let ne : b ≢ from = before-ne from b h r prev (ground arith) in
        let front : (taken t me from (h ∷ r) me).q_sending ≡ (t me).q_sending = ground arith in
        let kept : erase from (h ∷ r) ≡ h ∷ erase from r = rw miss in
        rw (front, kept)
          (
            e,
            Chain-erase t (taken t me from (h ∷ r)) from b h r c (o, u) (ground arith) prev
                (ground arith) (λ k p q. ground arith),
          )
  ]

  -- The other mailboxes are as before.
  pub taken-rest :
      (d : ℕ) (xs ys : List ℕ)
      → d ≢ me
      → has from xs ≡ true
      → has from ys ≡ false
      → ((a : ℕ) → has a ys ≡ true → has a xs ≡ false)
      → Chain t (t d).q_sending ys
      → let t' = taken t me from xs in Chain t' (t' d).q_sending ys
  unfolding taken cut release
  taken-rest d [] ys ne in_box out apart c = absurd (ground arith)
  taken-rest d (h ∷ r) ys ne in_box out apart c = elim (Bool-cases (h == from)) [
    | inl hit ↦
        let e : (taken t me from (h ∷ r) d).q_sending ≡ (t d).q_sending = ground arith in
        rw e (Chain-frame t (taken t me from (h ∷ r)) (t d).q_sending ys c (λ a i. ground arith))
    | inr miss ↦
        let (b, prev, j) = before-has from h r (ground arith) in
        let e : (taken t me from (h ∷ r) d).q_sending ≡ (t d).q_sending = ground arith in
        rw e (
          Chain-frame t (taken t me from (h ∷ r)) (t d).q_sending ys c
            (λ a w. ground (arith, apart a)))
  ]

-- The mailboxes after a receive.
abbrev pub fetched : Boxes → ℕ → ℕ → Boxes
fetched q me from = update q me (erase from (q me))

module _ (t : Table) (q : Boxes) (me from : ℕ) (v : IsMail t q) (lt : me < nr_all)
    (other : me ≢ from) (waits : has from (q me) ≡ true) where
  abbrev pub rest : Table
  rest = taken t me from (q me)

  from-eq : rest from ≡ release (t from)
  from-eq = taken-from t me from other (q me)

  taken-IsSane : (i : ℕ) → i < nr_all → IsSane (rest i)
  taken-IsSane i h = elim (Bool-cases (i == from)) [
    | inl own ↦
        let at : i ≡ from = ground arith in
        let (lt', sends, _) = v.members me from lt waits in
        let w = v.sane from lt' in
        rw (at, from-eq) (unfold release in ground (arith, w.one, w.msg, w.from, w.to, w.quiet))
    | inr ne ↦
        let w = v.sane i h in
        rw (taken-other t me from other (q me) i (ground arith))
          (record { one = w.one; msg = w.msg; from = w.from; to = w.to; quiet = w.quiet })
  ]

  pub rest_sends : (i : ℕ) → (rest i).sending ≡ (if i == from then false else (t i).sending)
  rest_sends i = elim (Bool-cases (i == from)) [
    | inl own ↦
        let at : i ≡ from = ground arith in rw own (rw (at, from-eq) (unfold release in refl))
    | inr ne ↦
        rw ne
          (ap (λ (p : Process). p.sending) (taken-other t me from other (q me) i (ground arith)))
  ]

  pub rest_to : (i : ℕ) → (rest i).p_sendto ≡ (if i == from then no_task else (t i).p_sendto)
  rest_to i = elim (Bool-cases (i == from)) [
    | inl own ↦
        let at : i ≡ from = ground arith in rw own (rw (at, from-eq) (unfold release in refl))
    | inr ne ↦
        rw ne
          (ap (λ (p : Process). p.p_sendto) (taken-other t me from other (q me) i (ground arith)))
  ]

  -- A process waits in one mailbox only.
  apart : (d : ℕ) → d < nr_all → d ≢ me → (a : ℕ) → has a (q d) ≡ true → has a (q me) ≡ false
  apart d h ne a i = elim (Bool-cases (has a (q me))) [
    | inr e ↦ e
    | inl j ↦
        let (_, _, to) = v.members d a h i in
        let (_, _, to') = v.members me a lt j in absurd (ground arith)
  ]

  absent : (d : ℕ) → d < nr_all → d ≢ me → has from (q d) ≡ false
  absent d h ne = elim (Bool-cases (has from (q d))) [
    | inr e ↦ e
    | inl j ↦ let out = apart d h ne from j in cc
  ]

  pub IsMail-taken : IsMail rest (fetched q me from)
  IsMail-taken = record {
    sane = taken-IsSane;
    links = λ d h. elim (Bool-cases (me == d)) [
      | inl own ↦
          let e : d ≡ me = ground arith in
          rw (own, e) (taken-own t me from other (q me) (v.links me lt) (v.distinct me lt) waits)
      | inr ne ↦ rw ne (
          taken-rest t me from other d (q me) (q d) (ground arith) waits (absent d h (ground arith))
            (apart d h (ground arith)) (v.links d h))
    ];
    distinct = λ d h. elim (Bool-cases (me == d)) [
      | inl own ↦ rw own (Distinct-erase from (q me) (v.distinct me lt))
      | inr ne ↦ rw ne (v.distinct d h)
    ];
    members = λ d i h w. ground (
      arith,
      rest_sends i,
      rest_to i,
      v.members d i h,
      has-erase from i (q me) (v.distinct me lt),
      absent d h,
    );
    complete = λ i d h sends to. ground (
      arith,
      rest_sends i,
      rest_to i,
      v.complete i d h,
      has-erase from i (q me) (v.distinct me lt),
    );
    addressed = λ i h sends. elim (Bool-cases (i == from)) [
      | inl own ↦ absurd (ground (arith, rest_sends i))
      | inr ne ↦
          let (d, e) = v.addressed i h (sym (rw ne at (rest_sends i)) ∙ sends) in
          (d, (rw ne at (rest_to i)) ∙ e)
    ];
  }
