-- ===== src/Kernel/Ipc.antt =====
-- kernel/ipc.c and the two system calls of kernel/system_calls.c that use it. A null pointer
-- among the queue links is `none`. Loops along `p_sendto` and `next_sending` run on fuel, one round
-- for each entry of the process table.
pub mod Deadlock
pub mod Mail
pub mod Fetch
pub mod Queue
pub mod Send
pub mod Sent
pub mod Taken
pub mod Waiting
pub mod Queued
pub mod Receive
pub mod Received
use mini_operate_system.Prelude.{
  ℕ, zero, suc, Bool, true, false, Option, none, some, ◌&&◌, ◌||◌, ◌==◌, negate, if◌then◌else◌,
}
use mini_operate_system.Kernel.Process.{
  Process, Peer, proc, no_task, any, interrupt, is_runnable, nr_all,
}
use mini_operate_system.Kernel.Schedule.{Table}
use mini_operate_system.Kernel.System.{
  ok, halt, hang, wild, M, ◌>>=◌, ◌>>◌, pure, assert, get, modify, panic, copy_message, block,
  unblock,
}

-- Comparisons of `p_recvfrom`, `p_sendto` and `src` with a process or a constant.
abbrev pub is_proc : Peer → ℕ → Bool
is_proc (proc i) j = i == j
is_proc _ j = false

abbrev pub is_any : Peer → Bool
is_any any = true
is_any _ = false

abbrev pub is_interrupt : Peer → Bool
is_interrupt interrupt = true
is_interrupt _ = false

abbrev pub is_no_task : Peer → Bool
is_no_task no_task = true
is_no_task _ = false

abbrev pub is_null : Option ℕ → Bool
is_null none = true
is_null (some _) = false

-- The `do` loop of `deadlock`, which prints the cycle.
unfoldable pub print_cycle : ℕ → ℕ → ℕ → M (Unit {0})
print_cycle zero src p s = hang
print_cycle (suc fuel) src p s =
    if (s.table p).p_msg == 0 then halt else elim (s.table p).p_sendto [
      | proc q ↦ let rest = print_cycle fuel src q s in if q == src then ok tt s else rest
      | _ ↦ wild
    ]

-- The `while` loop of `deadlock`, at process `p`.
unfoldable pub deadlock_loop : ℕ → ℕ → ℕ → ℕ → M Bool
deadlock_loop zero src dest p s = hang
deadlock_loop (suc fuel) src dest p s =
    if (s.table p).sending
    then elim (s.table p).p_sendto [
      | proc q ↦
          let rest = deadlock_loop fuel src dest q s in
          if q == src then (print_cycle nr_all src dest >> pure true) s else rest
      | _ ↦ wild
    ]
    else ok false s

unfoldable pub deadlock : ℕ → ℕ → M Bool
deadlock src dest = deadlock_loop nr_all src dest dest

-- `while (p->next_sending) p = p->next_sending;`
unfoldable pub last_waiting : ℕ → Table → ℕ → Option ℕ
last_waiting zero t p = none
last_waiting (suc fuel) t p = elim (t p).next_sending [
  | none ↦ some p
  | some q ↦ last_waiting fuel t q
]

-- `p_flags == SENDING`.
abbrev pub only_sending : Process → Bool
only_sending p = p.sending && negate p.receiving

-- `msg_send` where the destination waits for a message.
unfoldable pub deliver : ℕ → ℕ → ℕ → M (Unit {0})
deliver sender dest m = do
  d ← get dest
  assert (negate (d.p_msg == 0))
  assert (negate (m == 0))
  copy_message sender m dest d.p_msg
  modify sender (λ p. record p { p_msg = 0 })
  modify dest (λ p. record p { p_msg = 0; receiving = false; p_recvfrom = no_task })
  unblock dest
  d ← get dest
  assert (is_runnable d)
  assert (d.p_msg == 0)
  assert (is_no_task d.p_recvfrom)
  assert (is_no_task d.p_sendto)
  p ← get sender
  assert (is_runnable p)
  assert (p.p_msg == 0)
  assert (is_no_task p.p_recvfrom)
  assert (is_no_task p.p_sendto)

-- The sender's entry goes to the end of the destination's queue.
unfoldable pub append_waiting : ℕ → ℕ → M (Unit {0})
append_waiting sender dest s = elim (s.table dest).q_sending [
  | none ↦ modify dest (λ p. record p { q_sending = some sender }) s
  | some h ↦ elim (last_waiting nr_all s.table h) [
    | none ↦ hang
    | some p ↦ modify p (λ r. record r { next_sending = some sender }) s
  ]
]

-- The sender's own entry, before it is linked into the queue.
unfoldable pub mark_waiting : ℕ → ℕ → ℕ → M (Unit {0})
mark_waiting sender dest m = do
  modify sender (λ p. record p { sending = true })
  p ← get sender
  assert (only_sending p)
  modify sender (λ p. record p { p_sendto = proc dest; p_msg = m })

-- The assertions after `block`.
unfoldable pub assert_waiting : ℕ → ℕ → M (Unit {0})
assert_waiting sender dest = do
  p ← get sender
  assert (negate (is_runnable p))
  assert (only_sending p)
  assert (negate (p.p_msg == 0))
  assert (is_no_task p.p_recvfrom)
  assert (is_proc p.p_sendto dest)

-- The sender gives up the processor.
unfoldable pub suspend : ℕ → ℕ → M (Unit {0})
suspend sender dest = do
  p ← get sender
  assert (negate (is_runnable p))
  block sender
  assert_waiting sender dest

-- `msg_send` where the destination does not wait for a message.
unfoldable pub enqueue : ℕ → ℕ → ℕ → M (Unit {0})
enqueue sender dest m = do
  mark_waiting sender dest m
  append_waiting sender dest
  modify sender (λ p. record p { next_sending = none })
  suspend sender dest

-- `(p_dest->p_flags & RECEIVING) && (p_dest->p_recvfrom == sender || p_dest->p_recvfrom == ANY)`.
abbrev pub awaits : Process → ℕ → Bool
awaits d sender = d.receiving && (is_proc d.p_recvfrom sender || is_any d.p_recvfrom)

-- `msg_send`. It returns 0 whenever it returns.
unfoldable pub msg_send : ℕ → ℕ → ℕ → M (Unit {0})
msg_send sender dest m = do
  assert (negate (sender == dest))
  found ← deadlock sender dest
  (if found then panic else pure tt)
  d ← get dest
  if awaits d sender then deliver sender dest m else enqueue sender dest m
