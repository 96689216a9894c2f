-- ===== src/Kernel/Ipc/Queued.antt =====
-- The table that `enqueue` of kernel/ipc.c makes: the sender is marked and linked to the end of the
-- receiver's queue.
use mini_operate_system.Prelude.{
  ℕ, ◌<◌, ◌≡◌, ◌≢◌, arith, true, false, none, some, List, [], ◌∷◌, ◌++◌, length, update, inl, inr,
  ◌==◌, Bool-cases, ◌∙◌, sym, ap, if◌then◌else◌, refl,
}
use mini_operate_system.Kernel.Process.{Process, proc, nr_all, is_runnable}
use mini_operate_system.Kernel.Schedule.{Table}
use mini_operate_system.Kernel.System.{System, ok}
use mini_operate_system.Kernel.Ipc.{append_waiting}
use mini_operate_system.Kernel.Ipc.Queue.{
  has, has-append, Chain, Distinct, Distinct-append, last, has-last, Chain-frame, Chain-append,
  last_waiting-last,
}
use mini_operate_system.Kernel.Ipc.Mail.{IsSane, IsMail, Boxes, not_waiting}

-- The link that `append_waiting` sets when the mailbox of `dest` is `xs`.
unfoldable pub link : Table → ℕ → ℕ → List ℕ → Table
link t sender dest [] = update t dest (record (t dest) { q_sending = some sender })
link t sender dest (h ∷ r) =
    update t (last h r) (record (t (last h r)) { next_sending = some sender })

unfoldable pub mark : Process → ℕ → ℕ → Process
mark p dest m = record p { sending = true; p_sendto = proc dest; p_msg = m }

-- The table when `enqueue` comes to `block`.
unfoldable pub queued : Table → ℕ → ℕ → ℕ → List ℕ → Table
queued t sender dest m xs =
    let t' = link (update t sender (mark (t sender) dest m)) sender dest xs in
    update t' sender (record (t' sender) { next_sending = none })

pub append_waiting-link :
    (s : System) (sender dest : ℕ) (xs : List ℕ)
    → Chain s.table (s.table dest).q_sending xs
    → length xs < 8
    → append_waiting sender dest s ≡ ok tt (record s { table = link s.table sender dest xs })
unfolding append_waiting link
append_waiting-link s sender dest [] c lt = rw (append_waiting, c)
append_waiting-link s sender dest (h ∷ r) (e, c) lt =
    rw (append_waiting, e, last_waiting-last nr_all s.table h r c (omega arith))

module _ (t : Table) (sender dest m : ℕ) (xs : List ℕ) (other : sender ≢ dest)
    (out : has sender xs ≡ false) where
  pub queued-sender :
      queued t sender dest m xs sender ≡ record (mark (t sender) dest m) { next_sending = none }
  unfolding queued mark
  queued-sender = go xs out
    where
      go :
          (ys : List ℕ)
          → has sender ys ≡ false
          → queued t sender dest m ys sender
            ≡ record (mark (t sender) dest m) { next_sending = none }
      go [] o = unfold link in ground arith
      go (h ∷ r) o = unfold link in ground (arith, has-last h r)

  -- Of the other entries only the links change.
  pub queued-other :
      (i : ℕ)
      → i ≢ sender
      → queued t sender dest m xs i ≡ record (t i) {
        q_sending = (queued t sender dest m xs i).q_sending;
        next_sending = (queued t sender dest m xs i).next_sending;
      }
  unfolding queued mark
  queued-other i ne = go xs
    where
      go :
          (ys : List ℕ)
          → queued t sender dest m ys i ≡ record (t i) {
            q_sending = (queued t sender dest m ys i).q_sending;
            next_sending = (queued t sender dest m ys i).next_sending;
          }
      go [] = unfold link in ground arith
      go (h ∷ r) = unfold link in ground arith

-- The mailbox of `dest` holds one more sender.
pub queued-own :
    (t : Table) (sender dest m : ℕ) (xs : List ℕ)
    → sender ≢ dest
    → has sender xs ≡ false
    → Chain t (t dest).q_sending xs
    → Distinct xs
    → let t' = queued t sender dest m xs in Chain t' (t' dest).q_sending (xs ++ (sender ∷ []))
unfolding queued mark link
queued-own t sender dest m [] other out c u = (ground arith, ground arith)
queued-own t sender dest m (h ∷ r) other out (e, c) u = (
  ground (arith, has-last h r),
  Chain-append t (queued t sender dest m (h ∷ r)) sender h r c u out (ground (arith, has-last h r))
      (ground arith) (λ a ne i. ground arith),
)

-- The other mailboxes are as before.
pub queued-rest :
    (t : Table) (sender dest m d : ℕ) (xs ys : List ℕ)
    → d ≢ dest
    → has sender ys ≡ false
    → ((a : ℕ) → has a ys ≡ true → has a xs ≡ false)
    → Chain t (t d).q_sending ys
    → let t' = queued t sender dest m xs in Chain t' (t' d).q_sending ys
unfolding queued mark link
queued-rest t sender dest m d [] ys ne out apart c =
    let e : (queued t sender dest m [] d).q_sending ≡ (t d).q_sending = ground arith in
    rw e (Chain-frame t (queued t sender dest m []) (t d).q_sending ys c (λ a i. ground arith))
queued-rest t sender dest m d (h ∷ r) ys ne out apart c =
    let e : (queued t sender dest m (h ∷ r) d).q_sending ≡ (t d).q_sending = ground arith in
    rw e (
      Chain-frame t (queued t sender dest m (h ∷ r)) (t d).q_sending ys c
        (λ a i. ground (arith, has-last h r, apart a)))

-- The mailboxes after a send that has to wait.
abbrev pub posted : Boxes → ℕ → ℕ → Boxes
posted q sender dest = update q dest (q dest ++ (sender ∷ []))

module _ (t : Table) (q : Boxes) (sender dest m : ℕ) (v : IsMail t q) (lt : sender < nr_all)
    (lt' : dest < nr_all) (other : sender ≢ dest) (given : m ≢ 0)
    (run : is_runnable (t sender) ≡ true) where
  abbrev made : Table
  made = queued t sender dest m (q dest)

  idle : (t sender).sending ≡ false
  idle = ground arith

  outside : (d : ℕ) → d < nr_all → has sender (q d) ≡ false
  outside d h = not_waiting d sender v h idle

  queued-IsSane : (i : ℕ) → i < nr_all → IsSane (made i)
  queued-IsSane i h = elim (Bool-cases (i == sender)) [
    | inl own ↦
        let e : i ≡ sender = ground arith in
        let w = v.sane sender lt in
        rw (e, queued-sender t sender dest m (q dest) other (outside dest lt'))
          (unfold mark in ground (arith, w.one, w.msg, w.from, w.to, w.quiet))
    | inr ne ↦
        let w = v.sane i h in
        rw (queued-other t sender dest m (q dest) other (outside dest lt') i (ground arith))
          (record { one = w.one; msg = w.msg; from = w.from; to = w.to; quiet = w.quiet })
  ]

  made_sends : (i : ℕ) → (made i).sending ≡ (if i == sender then true else (t i).sending)
  made_sends i = elim (Bool-cases (i == sender)) [
    | inl own ↦
        let e : i ≡ sender = ground arith in
        rw own (
          rw (e, queued-sender t sender dest m (q dest) other (outside dest lt'))
            (unfold mark in refl))
    | inr ne ↦ rw ne (
        ap (λ (p : Process). p.sending)
          (queued-other t sender dest m (q dest) other (outside dest lt') i (ground arith)))
  ]

  made_to : (i : ℕ) → (made i).p_sendto ≡ (if i == sender then proc dest else (t i).p_sendto)
  made_to i = elim (Bool-cases (i == sender)) [
    | inl own ↦
        let e : i ≡ sender = ground arith in
        rw own (
          rw (e, queued-sender t sender dest m (q dest) other (outside dest lt'))
            (unfold mark in refl))
    | inr ne ↦ rw ne (
        ap (λ (p : Process). p.p_sendto)
          (queued-other t sender dest m (q dest) other (outside dest lt') i (ground arith)))
  ]

  -- No process waits in two mailboxes.
  apart : (d : ℕ) → d < nr_all → d ≢ dest → (a : ℕ) → has a (q d) ≡ true → has a (q dest) ≡ false
  apart d h ne a i = elim (Bool-cases (has a (q dest))) [
    | inr e ↦ e
    | inl j ↦
        let (_, _, to) = v.members d a h i in
        let (_, _, to') = v.members dest a lt' j in absurd (ground arith)
  ]

  pub IsMail-queued : IsMail made (posted q sender dest)
  IsMail-queued = record {
    sane = queued-IsSane;
    links = λ d h. elim (Bool-cases (dest == d)) [
      | inl own ↦
          let e : d ≡ dest = ground arith in
          rw (own, e)
            (queued-own t sender dest m (q dest) other (outside dest lt') (v.links dest lt')
              (v.distinct dest lt'))
      | inr ne ↦ rw ne (
          queued-rest t sender dest m d (q dest) (q d) (ground arith) (outside d h)
            (apart d h (ground arith)) (v.links d h))
    ];
    distinct = λ d h. elim (Bool-cases (dest == d)) [
      | inl own ↦ rw own (Distinct-append sender (q dest) (v.distinct dest lt') (outside dest lt'))
      | inr ne ↦ rw ne (v.distinct d h)
    ];
    members = λ d i h w.
        ground
          (arith, made_sends i, made_to i, v.members d i h, has-append i (q dest) (sender ∷ []));
    complete = λ i d h sends to.
        ground
          (arith, made_sends i, made_to i, v.complete i d h, has-append i (q dest) (sender ∷ []));
    addressed = λ i h sends. elim (Bool-cases (i == sender)) [
      | inl own ↦ (dest, made_to i ∙ rw own)
      | inr ne ↦
          let (d, e) = v.addressed i h (sym (rw ne at (made_sends i)) ∙ sends) in
          (d, (rw ne at (made_to i)) ∙ e)
    ];
  }
