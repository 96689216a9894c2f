-- ===== src/Kernel/User/Asked.antt =====
-- A request: a process sends a message to a task that waits for one, and waits for the answer; and
-- the task's answer to a process that waits for it.
use mini_operate_system.Prelude.{
  ℕ, ◌<◌, ◌≡◌, ◌≢◌, refl, subst, ap, ◌∙◌, arith, true, false, none, some, ◌==◌, [], ◌∷◌, update,
  pos_part,
}
use mini_operate_system.Kernel.Process.{Process, Peer, proc, nr_all, is_runnable}
use mini_operate_system.Kernel.Schedule.{Table}
use mini_operate_system.Kernel.System.{address}
use mini_operate_system.Kernel.Ipc.{awaits}
use mini_operate_system.Kernel.Ipc.Mail.{Boxes, Scheduled-SameMail, not_waiting}
use mini_operate_system.Kernel.Ipc.Send.{delivered}
use mini_operate_system.Kernel.Ipc.Sent.{IsKernel, msg_send-delivered}
use mini_operate_system.Kernel.Ipc.Received.{pick}
use mini_operate_system.Kernel.Ipc.Waiting.{listen, listening, msg_receive-waiting}
use mini_operate_system.Kernel.SystemCalls.Delivery.{update_same}
use mini_operate_system.Kernel.User.{
  Program, sendrec, Machine, place, turn, turns, send_function, receive_function,
}
use mini_operate_system.Kernel.User.Turns.{turns-cons, called, turn-send, turn-receive}

-- The machine after the turn of `p` in which its message goes to `d`.
abbrev pub handed : {A : Type 0} → Machine A → ℕ → ℕ → Program A → Machine A
handed x p d k = record x {
  kernel = delivered (called x p) p d (x.buffer p);
  program = update x.program p k;
}

-- `p` is runnable and can send to `d`, which waits with its own message for one from `p`.
pub record CanSend {A : Type 0} (x : Machine A) (q : Boxes) (p d : ℕ) : Type 0 where
  pub kernel : IsKernel x.kernel.table q
  pub entry : x.kernel.k_reenter ≡ 0
  pub sender : p < nr_all
  pub dest : d < nr_all
  pub other : d ≢ p
  pub given : x.buffer p ≢ 0
  pub run : is_runnable (x.kernel.table p) ≡ true
  pub waits : awaits (x.kernel.table d) p ≡ true
  pub at : (x.kernel.table d).p_msg ≡ x.buffer d

-- What the turn does.
pub record Handed {A : Type 0} (x : Machine A) (q : Boxes) (p d : ℕ) (k : Program A) : Type 0 where
  pub turns_to : turn p x ≡ some (handed x p d k)
  pub kernel : IsKernel (handed x p d k).kernel.table q
  pub woken : is_runnable ((handed x p d k).kernel.table d) ≡ true
  pub message :
      (handed x p d k).kernel.mem (place x d)
      ≡ record (x.kernel.mem (place x p)) { source = proc p }

pub turn-Handed :
    {A : Type 0} (x : Machine A) (q : Boxes) (p d : ℕ) (k : Program A)
    → CanSend x q p d
    → x.program p ≡ sendrec send_function (proc d) k
    → Handed x q p d k
turn-Handed x q p d k c e =
    let other : p ≢ d = ground (arith, c.other) in
    let s1 = called x p in
    let b = address x.kernel.table d (x.kernel.table d).p_msg in
    let there : b ≡ place x d = ap (address x.kernel.table d) c.at in
    let (sent, kernel, woken) =
      msg_send-delivered (called x p) q p d (x.buffer p) c.kernel c.sender c.dest other c.given
        c.run c.waits in
    record {
      turns_to = turn-send p x c.run d c.dest c.other c.entry k _ e sent;
      kernel = kernel;
      woken = woken;
      message =
          subst
            (λ (a : ℕ).
              update s1.mem b (s1.mem (place x p)) a
              ≡ record (x.kernel.mem (place x p)) { source = proc p })
            there
            (update_same s1.mem b (s1.mem (place x p))
              ∙ update_same x.kernel.mem (place x p)
                  (record (x.kernel.mem (place x p)) { source = proc p }));
    }

-- What requests and answers leave as it is.
pub record Kept {A : Type 0} (x y : Machine A) : Type 0 where
  pub ranks : (i : ℕ) → (y.kernel.table i).priority ≡ (x.kernel.table i).priority
  pub segments : (i : ℕ) → (y.kernel.table i).ldt_ds ≡ (x.kernel.table i).ldt_ds
  pub buffer : y.buffer ≡ x.buffer
  pub ticks : y.ticks ≡ x.ticks

pub Kept-trans : {A : Type 0} {x y z : Machine A} → Kept x y → Kept y z → Kept x z
Kept-trans f g = record {
  ranks = λ i. g.ranks i ∙ f.ranks i;
  segments = λ i. g.segments i ∙ f.segments i;
  buffer = g.buffer ∙ f.buffer;
  ticks = g.ticks ∙ f.ticks;
}

-- What the two turns of `p` that ask `d` make of the machine: `p` waits for `d`, which has the
-- message and is runnable, and no other program has moved.
pub record Asked {A : Type 0} (x : Machine A) (q : Boxes) (p d : ℕ) (k : Program A) (y : Machine A)
    : Type 0 where
  pub turns_to : turns (p ∷ p ∷ []) x ≡ some y
  pub kernel : IsKernel y.kernel.table q
  pub entry : y.kernel.k_reenter ≡ 0
  pub woken : is_runnable (y.kernel.table d) ≡ true
  pub waits : awaits (y.kernel.table p) d ≡ true
  pub at : (y.kernel.table p).p_msg ≡ x.buffer p
  pub message : y.kernel.mem (place x d) ≡ record (x.kernel.mem (place x p)) { source = proc p }
  pub rest : y.program p ≡ k
  pub others : (i : ℕ) → i ≢ p → y.program i ≡ x.program i
  pub kept : Kept x y

pub address-same :
    (t t' : Table) (i v : ℕ) → (t' i).ldt_ds ≡ (t i).ldt_ds → address t' i v ≡ address t i v
unfolding address
address-same t t' i v e = rw e refl

pub handed-ldt_ds :
    {A : Type 0} (x : Machine A) (p d : ℕ) (k : Program A) (i : ℕ)
    → ((handed x p d k).kernel.table i).ldt_ds ≡ (x.kernel.table i).ldt_ds
handed-ldt_ds x p d k i = ground arith

pub handed-priority :
    {A : Type 0} (x : Machine A) (p d : ℕ) (k : Program A) (i : ℕ)
    → ((handed x p d k).kernel.table i).priority ≡ (x.kernel.table i).priority
handed-priority x p d k i = ground arith

pub listening-priority :
    (t : Table) (p : ℕ) (src : Peer) (m i : ℕ) → (listening t p src m i).priority ≡ (t i).priority
unfolding listen
listening-priority t p src m i = ground arith

pub listening-ldt_ds :
    (t : Table) (p : ℕ) (src : Peer) (m i : ℕ) → (listening t p src m i).ldt_ds ≡ (t i).ldt_ds
unfolding listen
listening-ldt_ds t p src m i = ground arith

pub ask-Asked :
    {A : Type 0} (x : Machine A) (q : Boxes) (p d : ℕ) (k : Program A)
    → CanSend x q p d
    → 0 < pos_part (x.kernel.table d).priority
    → place x p ≢ place x d
    → x.program p ≡ sendrec send_function (proc d) (sendrec receive_function (proc d) k)
    → (y : Machine A) × Asked x q p d k y
unfolding turns
ask-Asked x q p d k c rank apart e =
    let k1 = sendrec receive_function (proc d) k in
    let h = turn-Handed x q p d k1 c e in
    let y = handed x p d k1 in
    let self : p == p ≡ true = ground arith in
    let run : is_runnable (y.kernel.table p) ≡ true = let r = c.run in ground (arith, c.other) in
    let awake : (y.kernel.table d).sending ≡ false = let w = h.woken in ground arith in
    let nobody : pick (proc d) (q p) ≡ none =
      unfold pick in rw (not_waiting p d h.kernel.mail c.sender awake) refl in
    let distinct : d == p ≡ false = ground (arith, c.other) in
    let prio : 0 < pos_part (y.kernel.table d).priority = ground arith in
    let (r, l) =
      msg_receive-waiting (called y p) q p (proc d) (x.buffer p) h.kernel c.sender c.given run refl
        d nobody distinct c.dest c.other h.woken prio in
    let z = record x {
      kernel = record (called y p) { table = r.0; current = r.1 };
      program = update y.program p k;
    } in
    let same = Scheduled-SameMail l.scheduled in
    let t = listening y.kernel.table p (proc d) (x.buffer p) in
    let own : y.program p ≡ k1 = rw (self) refl in
    let apart_d : t d ≡ y.kernel.table d = ground (arith, c.other) in
    let here : place y p ≡ place x p =
      address-same x.kernel.table y.kernel.table p (x.buffer p) (handed-ldt_ds x p d k1 p) in
    let miss : place y p == place x d ≡ false = rw here (ground arith) in
    (
      z,
      record {
        turns_to = turns-cons p (p ∷ []) x y h.turns_to (
            turns-cons p [] y z (turn-receive p y run d c.dest c.other c.entry k _ own l.returns)
              refl);
        kernel = l.kernel;
        entry = c.entry;
        woken = ap is_runnable (same d) ∙ ap is_runnable apart_d ∙ h.woken;
        waits = ap (λ (b : Process). awaits b d) l.waiting ∙ (unfold listen in ground arith);
        at = ap (λ (b : Process). b.p_msg) l.waiting ∙ (unfold listen in refl);
        message = rw miss h.message;
        rest = rw (self) refl;
        others = λ i ne. let out : p == i ≡ false = ground (arith, ne) in rw (out) refl;
        kept = record {
          ranks = λ i.
              ap (λ (b : Process). b.priority) (same i)
              ∙ listening-priority y.kernel.table p (proc d) (x.buffer p) i
              ∙ handed-priority x p d k1 i;
          segments = λ i.
              ap (λ (b : Process). b.ldt_ds) (same i)
              ∙ listening-ldt_ds y.kernel.table p (proc d) (x.buffer p) i
              ∙ handed-ldt_ds x p d k1 i;
          buffer = refl;
          ticks = refl;
        };
      },
    )
