-- ===== src/Kernel/Examples.antt =====
-- The theorems on kernel/clock.c, kernel/ipc.c and kernel/protect.c at concrete process tables.
mod Boot
mod Calls
mod Tables
use mini_operate_system.Prelude.{
  ℕ, ◌+◌, ◌≡◌, ◌≢◌, ◌↔◌, refl, inl, inr, arith, Bool, true, false, none, some, ◌==◌, [], ◌∷◌, pos,
  if◌then◌else◌, ◌^◌, ◌%◌, ◌/◌, Bool-cases,
}
use mini_operate_system.Kernel.Protect.{
  Descriptor, init_descriptor, descriptor_base, descriptor_limit, descriptor-roundtrip,
}
use mini_operate_system.Kernel.Process.{Process, task, proc, any, no_task, is_runnable}
use mini_operate_system.Kernel.Schedule.{Table, schedule, schedule_loop, Clock, clock_handler}
use mini_operate_system.Kernel.Schedule.Select.{Scheduled, schedule-Scheduled}
use mini_operate_system.Kernel.Schedule.Fairness.{Reaches, clock_handler-Reaches}
use mini_operate_system.Kernel.Schedule.Fairness.Totals.{ticks_of, priorities_of}
use mini_operate_system.Kernel.Schedule.Tick.{IsValid, Ticked, clock_handler-Ticked}
use mini_operate_system.Kernel.SystemCalls.{sys_sendrec}
use mini_operate_system.Kernel.SystemCalls.Delivery.{sys_sendrec-delivered}
use mini_operate_system.Kernel.System.{address, System, Message, ok, halt}
use mini_operate_system.Kernel.Ipc.{msg_send, deadlock}
use mini_operate_system.Kernel.Ipc.Receive.{msg_receive}
use mini_operate_system.Kernel.Ipc.Queue.{Chain, Distinct}
use mini_operate_system.Kernel.Ipc.Mail.{IsSane, Boxes}
use mini_operate_system.Kernel.Ipc.Deadlock.{Leads, here, there, EndsIn, deadlock-Leads}
use mini_operate_system.Kernel.Ipc.Send.{delivered}
use mini_operate_system.Kernel.Ipc.Sent.{
  IsKernel, Posted, msg_send-delivered, msg_send-Posted, msg_send-deadlock,
}
use mini_operate_system.Kernel.Ipc.Taken.{fetched}
use mini_operate_system.Kernel.Ipc.Fetch.{received}
use mini_operate_system.Kernel.Ipc.Received.{msg_receive-received, pick}
use mini_operate_system.Kernel.Ipc.Waiting.{Listening, msg_receive-waiting}
use mini_operate_system.Kernel.Examples.Tables.{
  message, running, calm, no_boxes, calm-IsKernel, attentive, attentive-IsKernel, sender, crowded,
  one_box, crowded-IsKernel,
}

apart : ◌≢◌ {A = ℕ} 1 2
apart = omega arith

calm-no_Leads : Leads calm 1 2 → ⊥
calm-no_Leads (here q s to e) = cc
calm-no_Leads (there q s to w) = cc

crowded-Leads : Leads crowded 1 2
crowded-Leads = here 1 refl refl refl

msg_send-delivered_example :
    let s = running attentive in
    let s' = delivered s 1 2 32 in
    (msg_send 1 2 32 s ≡ ok tt s') × IsKernel s'.table no_boxes × (is_runnable (s'.table 2) ≡ true)
msg_send-delivered_example =
    msg_send-delivered (running attentive) no_boxes 1 2 32 attentive-IsKernel (omega arith)
      (omega arith) apart (omega arith) refl refl

msg_send-Posted_example :
    (r : Table × ℕ) × Posted
      (running calm)
      no_boxes
      1
      2
      32
      calm-IsKernel
      (omega arith)
      (omega arith)
      apart
      (omega arith)
      refl
      r
msg_send-Posted_example =
    msg_send-Posted (running calm) no_boxes 1 2 32 calm-IsKernel (omega arith) (omega arith) apart
      (omega arith) refl 3 refl calm-no_Leads (omega arith) (omega arith) refl (omega arith)

msg_send-deadlock_example : msg_send 1 2 32 (running crowded) ≡ halt
msg_send-deadlock_example =
    msg_send-deadlock (running crowded) one_box 1 2 32 crowded-IsKernel (omega arith) apart
      crowded-Leads refl

deadlock-Leads_example :
    (b : Bool) × (deadlock 1 2 (running crowded) ≡ ok b (running crowded))
    × ((b ≡ true) ↔ Leads crowded 1 2)
deadlock-Leads_example =
    deadlock-Leads (running crowded) 1 2 crowded-IsKernel.mail crowded-IsKernel.acyclic
      (omega arith)

msg_receive-received_example :
    let s = running crowded in
    let s' = received s 1 2 32 (2 ∷ []) in
    (msg_receive 1 any 32 s ≡ ok tt s')
    × IsKernel s'.table (fetched one_box 1 2)
    × (is_runnable (s'.table 2) ≡ true)
unfolding pick
msg_receive-received_example =
    msg_receive-received (running crowded) one_box 1 32 crowded-IsKernel (omega arith) (omega arith)
      refl any 2 refl

msg_receive-waiting_example :
    (r : Table × ℕ) × Listening
      (running calm)
      no_boxes
      1
      any
      32
      calm-IsKernel
      (omega arith)
      (omega arith)
      refl
      refl
      r
unfolding pick
msg_receive-waiting_example =
    msg_receive-waiting (running calm) no_boxes 1 any 32 calm-IsKernel (omega arith) (omega arith)
      refl refl 3 refl refl (omega arith) (omega arith) refl (omega arith)

schedule-Scheduled_example : (r : Table × ℕ) × (schedule crowded 2 ≡ some r) × Scheduled crowded r
schedule-Scheduled_example = schedule-Scheduled crowded 2 3 (omega arith) refl (omega arith)

-- Every process waits.
abbrev stuck : Table
stuck i = sender

abbrev clock : Clock
clock = record { k_reenter = 0; ticks = 0; table = calm; current = 1 }

clock-IsValid : IsValid clock
clock-IsValid = record {
  table = record { no_debt = λ i h. refl; ranked = λ i h. omega arith };
  within = omega arith;
  running = refl;
  credit = omega arith;
}

clock_handler-Ticked_example : (c : Clock) × (clock_handler clock ≡ some c) × Ticked clock c
clock_handler-Ticked_example = clock_handler-Ticked clock clock-IsValid

clock_handler-Reaches_example : Reaches clock 3 (ticks_of clock.table + priorities_of clock.table)
clock_handler-Reaches_example = clock_handler-Reaches clock 3 clock-IsValid refl (omega arith) refl

descriptor-roundtrip_example :
    let d = init_descriptor 0x30000 0xfffff 0xc092 in
    (descriptor_base d ≡ 0x30000)
    × (descriptor_limit d ≡ 0xfffff)
    × (d.attr1 ≡ 0xc092 % 2 ^ 8)
    × (d.limit_high_attr2 / 2 ^ 4 ≡ 0xc092 / 2 ^ 12 % 2 ^ 4)
descriptor-roundtrip_example =
    descriptor-roundtrip 0x30000 0xfffff 0xc092 (omega arith) (omega arith)
