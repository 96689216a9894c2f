-- ===== src/Kernel/User/Tasks.antt =====
-- kernel/systask.c and lib/time.c.
use mini_operate_system.Prelude.{
  ℕ, zero, suc, ◌+◌, ◌-◌, ◌*◌, ◌/◌, ◌%◌, ◌^◌, ℤ, pos, negsuc, Bool, true, false, ◌==◌, ltb,
  if◌then◌else◌,
}
use mini_operate_system.Kernel.Process.{any}
use mini_operate_system.Kernel.System.{Message}
use mini_operate_system.Kernel.User.{
  Program, write, read, read_ticks, fault, send_recv, send_function, receive_function,
}
use mini_operate_system.Kernel.User.Api.{get_ticks_type, get_ticks}

-- The `switch` of `task_sys` on a message and the rest of its loop's body.
abbrev pub serve : {A : Type 0} → Program A → Message → Program A
serve k m =
    if m.type == get_ticks_type
    then read_ticks
        (λ n. write (λ m. record m { retval = pos n }) (send_recv send_function m.source k))
    else fault

-- The body of the loop of `task_sys` behind the call that receives.
unfoldable pub answer : {A : Type 0} → Program A → Program A
answer k = read (serve k)

-- One round of the loop of `task_sys`.
unfoldable pub task_sys_round : {A : Type 0} → Program A → Program A
task_sys_round k = send_recv receive_function any (answer k)

-- `n` rounds of the endless loop.
unfoldable pub task_sys : {A : Type 0} → ℕ → Program A → Program A
task_sys zero k = k
task_sys (suc n) k = task_sys_round (task_sys n k)

-- The 32 bits of an `int`.
abbrev pub pattern : ℤ → ℕ
pattern (pos n) = n % 2 ^ 32
pattern (negsuc n) = (2 ^ 32 - 1 - n % 2 ^ 32) % 2 ^ 32

-- `((get_ticks() - t) * 1000 / TIME_INT_FREQ) < milli_sec`. The difference and the product wrap to 32
-- bits, and the quotient of a negative product is rounded to 0.
unfoldable pub early : ℤ → ℤ → ℕ → Bool
early now t milli_sec =
    let diff = (pattern now + 2 ^ 32 - pattern t) % 2 ^ 32 in
    let product = diff * 1000 % 2 ^ 32 in
    if ltb product (2 ^ 31)
    then ltb (product / 100) milli_sec
    else ltb 0 (milli_sec + (2 ^ 32 - product) / 100)

-- The loop of `milli_delay`, on `n` rounds; past them the program stops.
unfoldable pub delay_loop : {A : Type 0} → ℕ → ℤ → ℕ → Program A → Program A
delay_loop zero t milli_sec k = fault
delay_loop (suc n) t milli_sec k =
    get_ticks
      (λ now. elim (early now t milli_sec) [ true ↦ delay_loop n t milli_sec k | false ↦ k ])

unfoldable pub milli_delay : {A : Type 0} → ℕ → ℕ → Program A → Program A
milli_delay n milli_sec k = get_ticks (λ t. delay_loop n t milli_sec k)
