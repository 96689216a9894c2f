-- ===== src/Kernel/Examples/Calls.antt =====
-- The theorems on kernel/api.c, kernel/systask.c and `sys_sendint` at concrete machines.
use mini_operate_system.Prelude.{
  ℕ, ℤ, pos, ◌≡◌, ◌≢◌, refl, arith, some, ◌==◌, [], ◌∷◌, if◌then◌else◌,
}
use mini_operate_system.Kernel.Process.{interrupt}
use mini_operate_system.Kernel.System.{System, address, ok}
use mini_operate_system.Kernel.Ipc.Receive.{msg_receive}
use mini_operate_system.Kernel.SystemCalls.{sys_sendint}
use mini_operate_system.Kernel.SystemCalls.Interrupts.{entered, Goes, sys_sendint-Goes}
use mini_operate_system.Kernel.User.{Program, done, Machine, place, turns}
use mini_operate_system.Kernel.User.Api.{get_ticks}
use mini_operate_system.Kernel.User.Tasks.{answer, task_sys, milli_delay}
use mini_operate_system.Kernel.User.Asked.{CanSend, Kept}
use mini_operate_system.Kernel.User.Ticks.{Answered, get_ticks-Answered}
use mini_operate_system.Kernel.User.Rounds.{CanAsk, task_sys-CanAsk}
use mini_operate_system.Kernel.User.Delay.{calls, Passes, Returned, milli_delay-Returned}
use mini_operate_system.Kernel.Examples.Tables.{
  message, running, calm, calm-IsKernel, no_boxes, attentive_at, attentive_at-IsKernel,
}

-- Process 1 asks for the ticks, and process 4 waits.
abbrev asking : Machine ℤ
asking = record {
  kernel = running (attentive_at 4);
  ticks = 1234;
  buffer = λ i. if i == 4 then 64 else 32;
  program = λ i. if i == 4 then answer (done (pos 0)) else get_ticks done;
}

asking-CanSend : CanSend asking no_boxes 1 4
asking-CanSend = record {
  kernel = attentive_at-IsKernel 4;
  entry = refl;
  sender = omega arith;
  dest = omega arith;
  other = omega arith;
  given = omega arith;
  run = refl;
  waits = refl;
  at = refl;
}

asking-apart : place asking 1 ≢ place asking 4
unfolding address
asking-apart = omega arith

get_ticks-Answered_example :
    (y : Machine ℤ) × (turns (1 ∷ 1 ∷ 1 ∷ 1 ∷ 4 ∷ 4 ∷ 4 ∷ 4 ∷ 1 ∷ []) asking ≡ some y)
    × Answered y no_boxes 1 done (done (pos 0)) 1234
    × Kept asking y
get_ticks-Answered_example =
    get_ticks-Answered asking no_boxes 1 done (done (pos 0)) asking-CanSend (omega arith)
      (omega arith) asking-apart refl refl

asking-CanAsk : (f : ℕ → Program ℤ) → CanAsk (record asking { program = f }) no_boxes 1
asking-CanAsk f = record {
  ask = record {
    kernel = attentive_at-IsKernel 4;
    entry = refl;
    sender = omega arith;
    dest = omega arith;
    other = omega arith;
    given = omega arith;
    run = refl;
    waits = refl;
    at = refl;
  };
  given = omega arith;
  rank = omega arith;
  client_rank = omega arith;
  apart = asking-apart;
  empty = refl;
}

-- The task has two rounds of its loop left.
abbrev looping : Machine ℤ
looping = record asking {
  program = λ i. if i == 4 then answer (task_sys 2 (done (pos 0))) else get_ticks done;
}

task_sys-CanAsk_example :
    (y : Machine ℤ) × (turns (1 ∷ 1 ∷ 1 ∷ 1 ∷ 4 ∷ 4 ∷ 4 ∷ 4 ∷ 1 ∷ 4 ∷ 4 ∷ []) looping ≡ some y)
    × CanAsk y no_boxes 1
    × (y.program 1 ≡ done (pos 1234))
    × (y.program 4 ≡ answer (task_sys 1 (done (pos 0))))
    × (y.ticks ≡ 1234)
task_sys-CanAsk_example =
    task_sys-CanAsk looping no_boxes 1 1 done (done (pos 0)) (asking-CanAsk looping.program) refl
      refl

-- 30 milliseconds, with one tick and then two between the calls.
abbrev delaying : Machine ℤ
delaying = record asking {
  program =
      λ i. if i == 4 then answer (task_sys 3 (done (pos 0))) else milli_delay 2 30 (done (pos 7));
}

delaying-Passes : Passes 30 1 (2 ∷ [])
unfolding Passes
delaying-Passes = (omega arith, omega arith, (omega arith, omega arith))

milli_delay-Returned_example :
    (y : Machine ℤ) × (calls 1 (1 ∷ 2 ∷ []) delaying ≡ some y)
    × Returned 1 30 1234 (done (pos 7)) (done (pos 0)) y
milli_delay-Returned_example =
    milli_delay-Returned 1 (2 ∷ []) delaying no_boxes 1 30 (done (pos 7)) (done (pos 0))
      (asking-CanAsk delaying.program) delaying-Passes refl refl

-- Everybody is runnable, and memory holds messages from INTERRUPT.
abbrev interrupted : System
interrupted = record (running calm) { mem = λ a. record message { source = interrupt } }

sys_sendint-Goes_example :
    ((s1 : System) × (s2 : System) × (sys_sendint 5 1 64 (entered interrupted) ≡ ok tt (entered s1))
      × (msg_receive 5 interrupt 32 s1 ≡ ok tt s2)
      × Goes interrupted 5 s2)
    × ((s1 : System) × (s2 : System) × (msg_receive 5 interrupt 32 interrupted ≡ ok tt s1)
        × (sys_sendint 5 1 64 (entered s1) ≡ ok tt s2)
        × Goes interrupted 5 s2
        × (s2.mem (address s1.table 5 32) ≡ interrupted.mem (address s1.table 1 64)))
sys_sendint-Goes_example =
    sys_sendint-Goes interrupted no_boxes 5 1 32 64 calm-IsKernel (omega arith) (omega arith) refl
      refl 3 (omega arith) (omega arith) refl (omega arith)
