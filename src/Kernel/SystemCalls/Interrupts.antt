-- ===== src/Kernel/SystemCalls/Interrupts.antt =====
-- An interrupt that a task waits for: `sys_sendint` of kernel/system_calls.c and a receive from
-- INTERRUPT (`msg_receive` of kernel/ipc.c), in both orders.
use mini_operate_system.Prelude.{
  ℕ, suc, ◌<◌, ◌≡◌, ◌≢◌, refl, sym, subst, ap, ◌∙◌, arith, true, false, ◌==◌, ltb, update, negate,
  pos_part,
}
use mini_operate_system.Kernel.Process.{
  Process, Peer, proc, any, interrupt, no_task, nr_all, is_runnable,
}
use mini_operate_system.Kernel.Schedule.{Table}
use mini_operate_system.Kernel.System.{System, address, ok, unblock}
use mini_operate_system.Kernel.Ipc.{is_interrupt, is_no_task}
use mini_operate_system.Kernel.Ipc.Receive.{msg_receive, take_interrupt}
use mini_operate_system.Kernel.Ipc.Mail.{Boxes}
use mini_operate_system.Kernel.Ipc.Fetch.{update_twice}
use mini_operate_system.Kernel.Ipc.Sent.{IsKernel}
use mini_operate_system.Kernel.Ipc.Received.{pick}
use mini_operate_system.Kernel.Ipc.Waiting.{listen, Listening, msg_receive-waiting}
use mini_operate_system.Kernel.SystemCalls.Delivery.{update_same}
use mini_operate_system.Kernel.SystemCalls.{sys_sendint}

-- In the interrupt handler.
abbrev pub entered : System → System
entered s = record s { k_reenter = suc s.k_reenter }

-- The receiver goes on, with no interrupt pending, and nothing else of its entry but the address and
-- the ticks has changed.
abbrev pub Goes : System → ℕ → System → Type 0
Goes s me s' =
    (is_runnable (s'.table me) ≡ true)
    × (s'.table me
        ≡ record (s.table me) { p_msg = (s'.table me).p_msg; ticks = (s'.table me).ticks })

is_no_task-eq : (p : Peer) → is_no_task p ≡ true → p ≡ no_task
is_no_task-eq (proc i) e = cc
is_no_task-eq no_task e = refl
is_no_task-eq any e = cc
is_no_task-eq interrupt e = cc

-- The interrupted receiver's entry.
abbrev awake : Process → Process
awake d = record d { has_int_msg = false; receiving = false; p_recvfrom = no_task }

sys_sendint-awake :
    (x : System) (me p msg : ℕ)
    → ltb 0 x.k_reenter ≡ true
    → ltb me nr_all ≡ true
    → is_interrupt (x.mem msg).source ≡ true
    → (x.table me).receiving ≡ true
    → is_interrupt (x.table me).p_recvfrom ≡ true
    → (x.table me).sending ≡ false
    → is_no_task (x.table me).p_sendto ≡ true
    → sys_sendint me p msg x
      ≡ ok tt (record x {
        table = update x.table me (awake (x.table me));
        mem = update x.mem (address x.table me (x.table me).p_msg) (x.mem (address x.table p msg));
      })
unfolding sys_sendint unblock address
sys_sendint-awake x me p msg inside small sent waits from idle to =
    let self : me == me ≡ true = ground arith in
    let d : Process = record (x.table me) { has_int_msg = false } in
    let raw : sys_sendint me p msg x
        ≡ ok tt (record x {
          table = update (update x.table me d) me (awake (x.table me));
          mem =
              update x.mem (address x.table me (x.table me).p_msg) (x.mem (address x.table p msg));
        }) =
      ground arith in
    raw
    ∙ ap
        (λ (t : Table). ok tt (record x {
          table = t;
          mem =
              update x.mem (address x.table me (x.table me).p_msg) (x.mem (address x.table p msg));
        }))
        (update_twice x.table me d (awake (x.table me)))

module _ (s : System) (q : Boxes) (me p m msg : ℕ) (k : IsKernel s.table q) (lt : me < nr_all)
    (given : m ≢ 0) (run : is_runnable (s.table me) ≡ true)
    (sent : is_interrupt (s.mem msg).source ≡ true) where
  -- First the interrupt.
  pending : System
  pending = record s { table = update s.table me (record (s.table me) { has_int_msg = true }) }

  sys_sendint-pending : sys_sendint me p msg (entered s) ≡ ok tt (entered pending)
  unfolding sys_sendint pending
  sys_sendint-pending = let idle : (s.table me).receiving ≡ false = ground arith in ground arith

  msg_receive-pending :
      (s' : System) × (msg_receive me interrupt m pending ≡ ok tt s') × Goes s me s'
  unfolding msg_receive take_interrupt pending
  msg_receive-pending =
      let quiet = (k.mail.sane me lt).quiet in
      let idle = (k.mail.sane me lt).to in
      let t =
        update pending.table me (record (pending.table me) { has_int_msg = false; p_msg = 0 }) in
      (
        record s {
          table = t;
          mem =
              update s.mem (address pending.table me m)
                (s.mem (address pending.table me (pending.table me).p_msg));
        },
        ground arith,
        (ground arith, ground arith),
      )

  -- First the receive, which waits.
  module _ (r : Table × ℕ) (l : Listening s q me interrupt m k lt given run refl r) where
    waiting : System
    waiting = record s { table = r.0; current = r.1 }

    sys_sendint-woken :
        (s' : System) × (sys_sendint me p msg (entered waiting) ≡ ok tt s')
        × Goes s me s'
        × (s'.mem (address r.0 me m) ≡ s.mem (address r.0 p msg))
    unfolding sys_sendint unblock waiting listen
    sys_sendint-woken =
        let x = entered waiting in
        let e = l.waiting in
        let sane = k.mail.sane me lt in
        let inside : ltb 0 x.k_reenter ≡ true = ground arith in
        let small : ltb me nr_all ≡ true = ground arith in
        let idle : (s.table me).sending ≡ false = ground arith in
        let off : (s.table me).receiving ≡ false = ground arith in
        let self : me == me ≡ true = ground arith in
        let at : (r.0 me).p_msg ≡ m = ap (λ (d : Process). d.p_msg) e in
        let done =
          sys_sendint-awake x me p msg inside small sent (ap (λ (d : Process). d.receiving) e)
            (ap (λ (d : Process). is_interrupt d.p_recvfrom) e)
            (ap (λ (d : Process). d.sending) e ∙ idle)
            (ap (λ (d : Process). is_no_task d.p_sendto) e ∙ sane.to ∙ ap negate idle) in
        let own : update r.0 me (awake (r.0 me)) me ≡ awake (r.0 me) = rw (self) refl in
        let quiet = sane.quiet in
        let from : (s.table me).p_recvfrom ≡ no_task =
          is_no_task-eq (s.table me).p_recvfrom (sane.from ∙ ap negate off) in
        let back : awake (listen (s.table me) interrupt m) ≡ record (s.table me) { p_msg = m } =
          ground arith in
        let same : awake (r.0 me) ≡ record (s.table me) { p_msg = m; ticks = (r.0 me).ticks } =
          ap awake e ∙ ap (λ (d : Process). record d { ticks = (r.0 me).ticks }) back in
        let goes : record (s.table me) { p_msg = m; ticks = (r.0 me).ticks }
            ≡ update r.0 me (awake (r.0 me)) me =
          sym (own ∙ same) in
        let there = address r.0 me (r.0 me).p_msg in
        let here : there ≡ address r.0 me m = ap (address r.0 me) at in
        let s2 : System = record x {
          table = update r.0 me (awake (r.0 me));
          mem = update s.mem there (s.mem (address r.0 p msg));
        } in
        (
          s2,
          done,
          (
            ap is_runnable own ∙ ap is_runnable same ∙ run,
            own
                ∙ same
                ∙ (λ i. record (s.table me) { p_msg = (goes i).p_msg; ticks = (goes i).ticks }),
          ),
          subst
              (λ (a : ℕ).
                update s.mem there (s.mem (address r.0 p msg)) a ≡ s.mem (address r.0 p msg))
              here (update_same s.mem there (s.mem (address r.0 p msg))),
        )

  -- An interrupt for a runnable task is not lost, whichever comes first. If the interrupt does, the
  -- receive from INTERRUPT returns at once. If the receive does, the task waits, and `sys_sendint`
  -- makes it runnable with the interrupt's message at the address it gave. In the end the task's
  -- entry is as before but for the address and the ticks. For the task to wait another process is
  -- runnable with a positive priority.
  pub sys_sendint-Goes :
      (i : ℕ)
      → i < nr_all
      → i ≢ me
      → is_runnable (s.table i) ≡ true
      → 0 < pos_part (s.table i).priority
      → ((s1 : System) × (s2 : System) × (sys_sendint me p msg (entered s) ≡ ok tt (entered s1))
          × (msg_receive me interrupt m s1 ≡ ok tt s2)
          × Goes s me s2)
        × ((s1 : System) × (s2 : System) × (msg_receive me interrupt m s ≡ ok tt s1)
            × (sys_sendint me p msg (entered s1) ≡ ok tt s2)
            × Goes s me s2
            × (s2.mem (address s1.table me m) ≡ s.mem (address s1.table p msg)))
  unfolding pick waiting
  sys_sendint-Goes i lt' ne run' rank =
      let (s2, taken, goes) = msg_receive-pending in
      let (r, l) =
        msg_receive-waiting s q me interrupt m k lt given run refl i refl refl lt' ne run' rank in
      let (s2', woken, goes', message) = sys_sendint-woken r l in
      (
        (pending, s2, sys_sendint-pending, taken, goes),
        (waiting r l, s2', l.returns, woken, goes', message),
      )
