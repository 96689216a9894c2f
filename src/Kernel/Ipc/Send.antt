-- ===== src/Kernel/Ipc/Send.antt =====
-- `msg_send` of kernel/ipc.c: a message goes to a waiting receiver at once, and otherwise the
-- sender goes to the end of the receiver's mailbox.
use mini_operate_system.Prelude.{
  ℕ, ◌<◌, ◌≡◌, ◌≢◌, refl, arith, true, false, none, some, ◌==◌, List, length, update,
}
use mini_operate_system.Kernel.Process.{proc, no_task, is_runnable}
use mini_operate_system.Kernel.Schedule.{Table, schedule}
use mini_operate_system.Kernel.System.{System, ok, ◌>>=◌, ◌>>◌, address, block-ok, unblock}
use mini_operate_system.Kernel.Ipc.{
  is_no_task, deliver, append_waiting, mark_waiting, assert_waiting, suspend, enqueue,
}
use mini_operate_system.Kernel.Ipc.Queue.{has, Chain, Chain-frame}
use mini_operate_system.Kernel.Ipc.Mail.{IsSane, SameMail}
use mini_operate_system.Kernel.Ipc.Queued.{mark, link, queued, append_waiting-link, queued-sender}
use mathlib.Core.Path.{fun_ext, ap}

-- The state after `deliver`: the message lies where the receiver waits for it, and neither
-- process waits.
abbrev pub delivered : System → ℕ → ℕ → ℕ → System
delivered s sender dest m = record s {
  table =
      update (update s.table sender (record (s.table sender) { p_msg = 0 })) dest
        (record (s.table dest) { p_msg = 0; receiving = false; p_recvfrom = no_task });
  mem = update s.mem (address s.table dest (s.table dest).p_msg) (s.mem (address s.table sender m));
}

module _ (s : System) (sender dest m : ℕ) (other : sender ≢ dest) (given : m ≢ 0)
    (sane : IsSane (s.table sender)) (run : is_runnable (s.table sender) ≡ true)
    (sane' : IsSane (s.table dest)) (waits : (s.table dest).receiving ≡ true) where
  pub deliver-delivered : deliver sender dest m s ≡ ok tt (delivered s sender dest m)
  unfolding deliver unblock
  deliver-delivered = ground arith

update_twice {ℓ} :
    {A : Type ℓ} (f : ℕ → A) (i : ℕ) (a b : A) → update (update f i a) i b ≡ update f i b
update_twice f i a b = fun_ext (λ j. ground arith)

mark_waiting-mark :
    (s : System) (sender dest m : ℕ)
    → IsSane (s.table sender)
    → is_runnable (s.table sender) ≡ true
    → mark_waiting sender dest m s
      ≡ ok tt (record s { table = update s.table sender (mark (s.table sender) dest m) })
unfolding mark_waiting mark
mark_waiting-mark s sender dest m v run =
    let self : (sender == sender) ≡ true = ground arith in
    let idle : (s.table sender).receiving ≡ false = ground arith in
    simp (self, idle)
      (ap (λ (t : Table). ok tt (record s { table = t })) (update_twice s.table sender _ _))

assert_waiting-ok :
    (s : System) (sender dest : ℕ)
    → (s.table sender).sending ≡ true
    → (s.table sender).receiving ≡ false
    → (s.table sender).p_msg ≢ 0
    → is_no_task (s.table sender).p_recvfrom ≡ true
    → (s.table sender).p_sendto ≡ proc dest
    → assert_waiting sender dest s ≡ ok tt s
unfolding assert_waiting
assert_waiting-ok s sender dest a b c d e = ground arith

module _ (s : System) (sender dest m : ℕ) (xs : List ℕ) (r : Table × ℕ) (other : sender ≢ dest)
    (given : m ≢ 0) (v : IsSane (s.table sender)) (run : is_runnable (s.table sender) ≡ true)
    (out : has sender xs ≡ false) (c : Chain s.table (s.table dest).q_sending xs)
    (small : length xs < 8) where
  abbrev marked : Table
  marked = update s.table sender (mark (s.table sender) dest m)

  appends :
      append_waiting sender dest (record s { table = marked })
      ≡ ok tt (record s { table = link marked sender dest xs })
  unfolding mark
  appends =
      append_waiting-link (record s { table = marked }) sender dest xs
        (let e : (marked dest).q_sending ≡ (s.table dest).q_sending = ground arith in
          rw e (Chain-frame s.table marked (s.table dest).q_sending xs c (λ a i. ground arith)))
        small

  resumed : Table → ℕ → System
  resumed t current = record s { table = t; current = current }

  -- The sender's entry, apart from its ticks, when it is about to wait.
  suspend-ok :
      (t : Table)
      → t sender ≡ record (mark (s.table sender) dest m) { next_sending = none }
      → schedule t s.current ≡ some r
      → SameMail t r.0
      → suspend sender dest (record s { table = t })
        ≡ ok tt (record s { table = r.0; current = r.1 })
  unfolding suspend
  suspend-ok t e chosen same =
      let busy : is_runnable (t sender) ≡ false = rw e (unfold mark in refl) in
      let e' = same sender in
      let done =
        assert_waiting-ok (record s { table = r.0; current = r.1 }) sender dest
          (rw (e', e) (unfold mark in refl)) (rw (e', e) (unfold mark in ground arith))
          (rw (e', e) (unfold mark in given)) (rw (e', e) (unfold mark in ground (arith, v.from)))
          (rw (e', e) (unfold mark in refl)) in
      rw (busy, block-ok (record s { table = t }) sender r busy chosen, ◌>>◌, ◌>>=◌) done

  pub enqueue-queued :
      schedule (queued s.table sender dest m xs) s.current ≡ some r
      → SameMail (queued s.table sender dest m xs) r.0
      → enqueue sender dest m s ≡ ok tt (record s { table = r.0; current = r.1 })
  unfolding enqueue
  enqueue-queued chosen same =
      let e = queued-sender s.table sender dest m xs other out in
      let end = suspend-ok (queued s.table sender dest m xs) e chosen same in
      rw (mark_waiting-mark s sender dest m v run, enqueue, ◌>>=◌)
        (rw (appends, ◌>>◌, ◌>>=◌) (unfold queued in end))
