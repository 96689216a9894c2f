-- ===== src/Kernel/Ipc/Received.antt =====
-- `msg_receive` of kernel/ipc.c as an operation on the mailboxes.
use mini_operate_system.Prelude.{
  ℕ, zero, suc, ◌<◌, ◌≡◌, ◌≢◌, refl, ◌∙◌, inl, inr, arith, true, false, Option, none, some, ◌==◌,
  ltb, List, [], ◌∷◌, if◌then◌else◌, Bool-cases,
}
use mini_operate_system.Kernel.Process.{Peer, proc, no_task, any, interrupt, nr_all, is_runnable}
use mini_operate_system.Kernel.Schedule.{Table}
use mini_operate_system.Kernel.System.{System, ok, ◌>>=◌, ◌>>◌}
use mini_operate_system.Kernel.Ipc.Receive.{
  assert_pair, take_message, receive_any, receive_from, msg_receive,
}
use mini_operate_system.Kernel.Ipc.Queue.{has, Chain, before, find_prev-before}
use mini_operate_system.Kernel.Ipc.Mail.{Boxes, length-box-le}
use mini_operate_system.Kernel.Ipc.Deadlock.{EndsIn}
use mini_operate_system.Kernel.Ipc.Taken.{
  release, taken, taken-from, fetched, rest_sends, rest_to, IsMail-taken,
}
use mini_operate_system.Kernel.Ipc.Fetch.{received, take_message-received}
use mini_operate_system.Kernel.Ipc.Sent.{IsKernel}

-- Whom a receive from `src` takes from a mailbox: the oldest sender for ANY, and the named one if
-- it is there.
unfoldable pub pick : Peer → List ℕ → Option ℕ
pick any [] = none
pick any (x ∷ xs) = some x
pick (proc i) xs = if has i xs then some i else none
pick no_task xs = none
pick interrupt xs = none

pick-has : (src : Peer) (xs : List ℕ) (i : ℕ) → pick src xs ≡ some i → has i xs ≡ true
unfolding pick
pick-has any [] i e = cc
pick-has any (x ∷ xs) i e = ground arith
pick-has (proc j) xs i e = ground arith
pick-has no_task xs i e = cc
pick-has interrupt xs i e = cc

head_some :
    (t : Table) (h : Option ℕ) (xs : List ℕ) (i : ℕ)
    → Chain t h xs
    → has i xs ≡ true
    → (x : ℕ) × (h ≡ some x)
head_some t h [] i c w = absurd (ground arith)
head_some t h (x ∷ xs) i (e, c) w = (x, e)

module _ (s : System) (q : Boxes) (me m : ℕ) (k : IsKernel s.table q) (lt : me < nr_all)
    (given : m ≢ 0) (run : is_runnable (s.table me) ≡ true) where
  assert_pair-ok :
      (i : ℕ)
      → has i (q me) ≡ true
      → (h : ℕ) → (s.table me).q_sending ≡ some h
      → assert_pair me i s ≡ ok tt s
  unfolding assert_pair
  assert_pair-ok i waits h e =
      let (lt', sends, to) = k.mail.members me i lt waits in
      let w = k.mail.sane me lt in
      let w' = k.mail.sane i lt' in
      ground (arith, w.one, w.msg, w.from, w.to, w'.one, w'.msg, w'.from, w'.to)

  not_self : (i : ℕ) → has i (q me) ≡ true → me ≢ i
  not_self i waits e =
      let (lt', sends, to) = k.mail.members me i lt waits in
      let idle : (s.table me).sending ≡ false = ground arith in ground arith

  takes :
      (i : ℕ)
      → has i (q me) ≡ true
      → take_message me i (before none i (q me)) m s ≡ ok tt (received s me i m (q me))
  takes i waits =
      let (lt', sends, to) = k.mail.members me i lt waits in
      let w = k.mail.sane i lt' in
      take_message-received s me i m (q me) (not_self i waits) (k.mail.links me lt) waits given
        (ground (arith, w.msg)) (ground (arith, w.one))

  receive_any-received :
      (x : ℕ) (xs : List ℕ) → q me ≡ x ∷ xs → receive_any me m s ≡ ok tt (received s me x m (q me))
  unfolding receive_any
  receive_any-received x xs e =
      let waits : has x (q me) ≡ true = rw e (ground arith) in
      let head : (s.table me).q_sending ≡ some x = (rw e at (k.mail.links me lt)).0 in
      let first : before none x (q me) ≡ none = rw e (ground arith) in
      let t = takes x waits in
      rw (receive_any, head, assert_pair-ok x waits x head, ◌>>◌, ◌>>=◌) (rw first at t)

  receive_from-received :
      (i : ℕ) → has i (q me) ≡ true → receive_from me i m s ≡ ok tt (received s me i m (q me))
  unfolding receive_from
  receive_from-received i waits =
      let (lt', sends, to) = k.mail.members me i lt waits in
      let small = length-box-le me k.mail lt in
      let found =
        find_prev-before nr_all i none (s.table me).q_sending s (q me) (k.mail.links me lt) sends
          waits small in
      let self : (me == me) ≡ true = ground arith in
      let (h, e) = head_some s.table (s.table me).q_sending (q me) i (k.mail.links me lt) waits in
      rw (receive_from, sends, to, self, e, ◌>>=◌, ◌>>◌)
        (rw (found, ◌>>=◌, ◌>>◌) (rw (assert_pair-ok i waits h e, ◌>>=◌, ◌>>◌) (takes i waits)))

  -- A process that stops waiting leaves every chain ending.
  EndsIn-taken :
      (i : ℕ)
      → has i (q me) ≡ true
      → (n p : ℕ) → EndsIn s.table n p
      → (l : ℕ) × EndsIn (taken s.table me i (q me)) l p
  EndsIn-taken i waits zero p e =
      (0, rest_sends s.table q me i k.mail lt (not_self i waits) waits p ∙ ground arith)
  EndsIn-taken i waits (suc n) p (d, sends, to, e) =
      let a = rest_sends s.table q me i k.mail lt (not_self i waits) waits p in
      let b = rest_to s.table q me i k.mail lt (not_self i waits) waits p in
      elim (Bool-cases (p == i)) [
        | inl own ↦ (0, a ∙ rw own)
        | inr ne ↦
            let (l, w) = EndsIn-taken i waits n d e in
            (suc l, (d, a ∙ rw ne sends, b ∙ rw ne to, w))
      ]

  received-IsKernel :
      (i : ℕ) → has i (q me) ≡ true → IsKernel (taken s.table me i (q me)) (fetched q me i)
  received-IsKernel i waits = record {
    mail = IsMail-taken s.table q me i k.mail lt (not_self i waits) waits;
    acyclic = λ p h. let (n, e) = k.acyclic p h in EndsIn-taken i waits n p e;
  }

  receives :
      (src : Peer) (i : ℕ)
      → pick src (q me) ≡ some i
      → msg_receive me src m s ≡ ok tt (received s me i m (q me))
  unfolding msg_receive pick
  receives any i e = any_case (q me) refl e
    where
      any_case :
          (xs : List ℕ)
          → q me ≡ xs
          → pick any xs ≡ some i
          → msg_receive me any m s ≡ ok tt (received s me i m (q me))
      any_case [] eq none_there = cc
      any_case (x ∷ xs) eq there =
          let same : x ≡ i = ground arith in
          let quiet = (k.mail.sane me lt).quiet in
          rw (quiet, ◌>>=◌, ◌>>◌) (rw (← same) (receive_any-received x xs eq))
  receives (proc j) i e =
      let waits : has j (q me) ≡ true = ground arith in
      let same : j ≡ i = ground arith in
      let other : (j == me) ≡ false = ground (arith, not_self j waits) in
      let small : ltb j nr_all ≡ true = ground (arith, k.mail.members me j lt waits) in
      let quiet = (k.mail.sane me lt).quiet in
      rw (other, quiet, small, ◌>>=◌, ◌>>◌) (rw (← same) (receive_from-received j waits))
  receives no_task i e = cc
  receives interrupt i e = cc

  -- A runnable process that receives from somebody who waits in its mailbox (the oldest sender for
  -- ANY, the named process otherwise) returns at once with that sender's message at the address it
  -- gave. The sender leaves the mailbox and is runnable; the other mailboxes, and the order of the
  -- remaining senders, are as before.
  pub msg_receive-received :
      (src : Peer) (i : ℕ)
      → pick src (q me) ≡ some i
      → (msg_receive me src m s ≡ ok tt (received s me i m (q me)))
        × IsKernel (received s me i m (q me)).table (fetched q me i)
        × (is_runnable ((received s me i m (q me)).table i) ≡ true)
  msg_receive-received src i e =
      let waits = pick-has src (q me) i e in
      let (lt', sends, to) = k.mail.members me i lt waits in
      let w = k.mail.sane i lt' in
      (
        receives src i e,
        received-IsKernel i waits,
        rw (taken-from s.table me i (not_self i waits) (q me))
            (unfold release in ground (arith, w.one)),
      )
