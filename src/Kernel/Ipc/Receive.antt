-- ===== src/Kernel/Ipc/Receive.antt =====
-- `msg_receive` of kernel/ipc.c.
use mini_operate_system.Prelude.{
  ℕ, zero, suc, Bool, true, false, Option, none, some, ◌&&◌, ◌||◌, ◌==◌, ltb, negate, if◌then◌else◌,
}
use mini_operate_system.Kernel.Process.{Peer, proc, no_task, any, interrupt, is_runnable, nr_all}
use mini_operate_system.Kernel.System.{
  ok, halt, hang, M, ◌>>=◌, ◌>>◌, assert, get, modify, copy_message, block, unblock,
}
use mini_operate_system.Kernel.Ipc.{
  is_proc, is_any, is_interrupt, is_no_task, is_null, only_sending,
}

-- The loop that looks for `src` in the receiver's queue from `p` on. The result is `prev`.
unfoldable pub find_prev : ℕ → ℕ → Option ℕ → Option ℕ → M (Option ℕ)
find_prev zero src prev p s = hang
find_prev (suc fuel) src prev none s = ok prev s
find_prev (suc fuel) src prev (some x) s =
    let rest = find_prev fuel src (some x) (s.table x).next_sending s in
    if (s.table src).sending then (if x == src then ok prev s else rest) else halt

-- The assertions about the receiver and the sender whose message it is about to take.
unfoldable pub assert_pair : ℕ → ℕ → M (Unit {0})
assert_pair me from = do
  r ← get me
  assert (is_runnable r)
  assert (r.p_msg == 0)
  assert (is_no_task r.p_recvfrom)
  assert (is_no_task r.p_sendto)
  assert (negate (is_null r.q_sending))
  p ← get from
  assert (only_sending p)
  assert (negate (p.p_msg == 0))
  assert (is_no_task p.p_recvfrom)
  assert (is_proc p.p_sendto me)

-- `p_from == p_who_wanna_recv->q_sending`.
abbrev pub is_head : Option ℕ → ℕ → Bool
is_head none x = false
is_head (some h) x = x == h

-- The sender leaves the receiver's queue: from its head, or from behind `prev`.
unfoldable pub unlink_waiting : ℕ → ℕ → Option ℕ → M (Unit {0})
unlink_waiting me from prev = do
  r ← get me
  p ← get from
  (if is_head r.q_sending from
      then (assert (is_null prev) >> modify me (λ r. record r { q_sending = p.next_sending }))
      else elim prev [
        | none ↦ (λ s. halt)
        | some x ↦ modify x (λ q. record q { next_sending = p.next_sending })
      ])
  modify from (λ p. record p { next_sending = none })

-- The copy of the message, and the sender's new entry.
unfoldable pub copy_waiting : ℕ → ℕ → ℕ → M (Unit {0})
copy_waiting me from m = do
  assert (negate (m == 0))
  p ← get from
  assert (negate (p.p_msg == 0))
  copy_message from p.p_msg me m
  modify from (λ p. record p { p_msg = 0; p_sendto = no_task; sending = false })
  unblock from

-- `msg_receive` with `copyok`.
unfoldable pub take_message : ℕ → ℕ → Option ℕ → ℕ → M (Unit {0})
take_message me from prev m = do unlink_waiting me from prev; copy_waiting me from m

-- The receiver's entry before it waits.
unfoldable pub mark_receiving : ℕ → Peer → ℕ → M (Unit {0})
mark_receiving me src m = do
  modify me (λ r. record r { receiving = true })
  r ← get me
  assert (negate (is_runnable r))
  modify me (λ r. record r { p_msg = m; p_recvfrom = src })

-- The assertions after `block`.
unfoldable pub assert_receiving : ℕ → M (Unit {0})
assert_receiving me = do
  r ← get me
  assert (r.receiving && negate r.sending)
  assert (negate (r.p_msg == 0))
  assert (negate (is_no_task r.p_recvfrom))
  assert (is_no_task r.p_sendto)
  assert (negate r.has_int_msg)

-- `msg_receive` without `copyok`: the receiver waits.
unfoldable pub wait_message : ℕ → Peer → ℕ → M (Unit {0})
wait_message me src m = do mark_receiving me src m; block me; assert_receiving me

-- `msg_receive` where an interrupt has set `has_int_msg`.
unfoldable pub take_interrupt : ℕ → ℕ → M (Unit {0})
take_interrupt me m = do
  r ← get me
  copy_message me r.p_msg me m
  modify me (λ r. record r { has_int_msg = false; p_msg = 0 })
  r ← get me
  assert (is_runnable r)
  assert (r.p_msg == 0)
  assert (is_no_task r.p_sendto)
  assert (negate r.has_int_msg)

-- `src == ANY`: the first waiting sender, if there is one.
unfoldable pub receive_any : ℕ → ℕ → M (Unit {0})
receive_any me m s = elim (s.table me).q_sending [
  | none ↦ wait_message me any m s
  | some h ↦ (assert_pair me h >> take_message me h none m) s
]

-- `src` is an index of the table: that process, if it is sending to the receiver.
unfoldable pub receive_from : ℕ → ℕ → ℕ → M (Unit {0})
receive_from me src m s =
    if (s.table src).sending && is_proc (s.table src).p_sendto me
    then (do
      r ← get me
      assert (negate (is_null r.q_sending))
      prev ← find_prev nr_all src none r.q_sending
      assert_pair me src
      take_message me src prev m)
        s
    else wait_message me (proc src) m s

-- `msg_receive`. It returns 0 whenever it returns.
unfoldable pub msg_receive : ℕ → Peer → ℕ → M (Unit {0})
msg_receive me src m = do
  assert (negate (is_proc src me))
  r ← get me
  if r.has_int_msg && (is_any src || is_interrupt src) then take_interrupt me m else elim src [
    | any ↦ receive_any me m
    | proc i ↦ if ltb i nr_all then receive_from me i m else wait_message me (proc i) m
    | interrupt ↦ wait_message me interrupt m
    | no_task ↦ wait_message me no_task m
  ]
