-- ===== src/Kernel/Examples/Tables.antt =====
-- Process tables with which the theorems on kernel/ipc.c and kernel/clock.c are tried.
use mini_operate_system.Prelude.{
  ℕ, ◌≡◌, refl, inl, inr, arith, true, false, none, some, ◌==◌, [], ◌∷◌, pos, if◌then◌else◌,
  Bool-cases,
}
use mini_operate_system.Kernel.Protect.{Descriptor}
use mini_operate_system.Kernel.Process.{Process, task, proc, any, no_task}
use mini_operate_system.Kernel.Schedule.{Table}
use mini_operate_system.Kernel.System.{System, Message}
use mini_operate_system.Kernel.Ipc.Queue.{Chain, Distinct}
use mini_operate_system.Kernel.Ipc.Mail.{IsSane, Boxes}
use mini_operate_system.Kernel.Ipc.Deadlock.{EndsIn}
use mini_operate_system.Kernel.Ipc.Sent.{IsKernel}

abbrev pub flat : Descriptor
flat = record {
  limit_low = 0xffff;
  base_low = 0;
  base_mid = 0;
  attr1 = 0x92;
  limit_high_attr2 = 0xcf;
  base_high = 0;
}

abbrev pub ready : Process
ready = record {
  ldt_ds = flat;
  priority = pos 15;
  ticks = pos 3;
  proc_type = task;
  sending = false;
  receiving = false;
  p_msg = 0;
  p_recvfrom = no_task;
  p_sendto = no_task;
  has_int_msg = false;
  q_sending = none;
  next_sending = none;
}

abbrev pub message : Message
message = record {
  source = no_task;
  type = 0;
  retval = pos 0;
  device = 0;
  cnt = pos 0;
  proc_nr = 0;
  request = 0;
  flags = 0;
  name_len = 0;
  fd = pos 0;
  pathname = 0;
  position = 0;
  buf = 0;
}

abbrev pub running : Table → System
running t = record { table = t; current = 1; k_reenter = 0; mem = λ a. message }

-- Everybody is runnable.
abbrev pub calm : Table
calm i = ready

abbrev pub no_boxes : Boxes
no_boxes d = []

ready-IsSane : IsSane ready
ready-IsSane = record { one = refl; msg = refl; from = refl; to = refl; quiet = refl }

pub calm-IsKernel : IsKernel calm no_boxes
calm-IsKernel = record {
  mail = record {
    sane = λ i h. ready-IsSane;
    links = λ d h. refl;
    distinct = λ d h. tt;
    members = λ d i h w. cc;
    complete = λ i d h sends to. cc;
    addressed = λ i h sends. cc;
  };
  acyclic = λ p h. (0, refl);
}

-- Process `n` waits for a message from anybody.
abbrev listener : Process
listener = record ready { receiving = true; p_msg = 64; p_recvfrom = any }

abbrev pub attentive_at : ℕ → Table
attentive_at n i = if i == n then listener else ready

attentive_at-IsSane : (n i : ℕ) → IsSane (attentive_at n i)
attentive_at-IsSane n i = elim (Bool-cases (i == n)) [
  | inl own ↦ rw own (record { one = refl; msg = refl; from = refl; to = refl; quiet = refl })
  | inr ne ↦ rw ne ready-IsSane
]

attentive_at-sending : (n i : ℕ) → (attentive_at n i).sending ≡ false
attentive_at-sending n i = ground arith

attentive_at-q_sending : (n i : ℕ) → (attentive_at n i).q_sending ≡ none
attentive_at-q_sending n i = ground arith

pub attentive_at-IsKernel : (n : ℕ) → IsKernel (attentive_at n) no_boxes
attentive_at-IsKernel n = record {
  mail = record {
    sane = λ i h. attentive_at-IsSane n i;
    links = λ d h. attentive_at-q_sending n d;
    distinct = λ d h. tt;
    members = λ d i h w. cc;
    complete = λ i d h sends to. let idle = attentive_at-sending n i in cc;
    addressed = λ i h sends. let idle = attentive_at-sending n i in cc;
  };
  acyclic = λ p h. (0, attentive_at-sending n p);
}

abbrev pub attentive : Table
attentive = attentive_at 2

pub attentive-IsKernel : IsKernel attentive no_boxes
attentive-IsKernel = attentive_at-IsKernel 2

-- Process 2 waits to send to process 1.
abbrev pub sender : Process
sender = record ready { sending = true; p_msg = 64; p_sendto = proc 1 }

abbrev pub crowded : Table
crowded i = if i == 2 then sender else if i == 1 then record ready { q_sending = some 2 } else ready

abbrev pub one_box : Boxes
one_box d = if d == 1 then 2 ∷ [] else []

crowded-IsSane : (i : ℕ) → IsSane (crowded i)
crowded-IsSane i = elim (Bool-cases (i == 2)) [
  | inl own ↦ rw own (record { one = refl; msg = refl; from = refl; to = refl; quiet = refl })
  | inr ne ↦ elim (Bool-cases (i == 1)) [
    | inl own ↦
        rw (ne, own) (record { one = refl; msg = refl; from = refl; to = refl; quiet = refl })
    | inr ne' ↦ rw (ne, ne') ready-IsSane
  ]
]

crowded-Chain : (d : ℕ) → Chain crowded (crowded d).q_sending (one_box d)
crowded-Chain d = elim (Bool-cases (d == 1)) [
  | inl own ↦ let e : d ≡ 1 = ground arith in rw e (refl, refl)
  | inr ne ↦ rw ne (ground arith)
]

crowded-Distinct : (d : ℕ) → Distinct (one_box d)
crowded-Distinct d = elim (Bool-cases (d == 1)) [ inl own ↦ rw own (refl, tt) | inr ne ↦ rw ne tt ]

crowded-ends : (p : ℕ) → (n : ℕ) × EndsIn crowded n p
crowded-ends p = elim (Bool-cases (p == 2)) [
  | inl own ↦ let e : p ≡ 2 = ground arith in (1, rw e (1, refl, refl, refl))
  | inr ne ↦ (0, ground arith)
]

pub crowded-IsKernel : IsKernel crowded one_box
crowded-IsKernel = record {
  mail = record {
    sane = λ i h. crowded-IsSane i;
    links = λ d h. crowded-Chain d;
    distinct = λ d h. crowded-Distinct d;
    members = λ d i h w. ground arith;
    complete = λ i d h sends to. ground arith;
    addressed = λ i h sends. (1, ground arith);
  };
  acyclic = λ p h. crowded-ends p;
}
