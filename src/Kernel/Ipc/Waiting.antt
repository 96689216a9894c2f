-- ===== src/Kernel/Ipc/Waiting.antt =====
-- `msg_receive` of kernel/ipc.c where nobody waits in the mailbox: the receiver waits.
use mini_operate_system.Prelude.{
  ℕ, ◌<◌, ◌≡◌, ◌≢◌, refl, sym, ap, ◌∙◌, inl, inr, arith, true, false, none, some, ◌&&◌, ◌==◌, ltb,
  ltb→lt, negate, List, [], ◌∷◌, update, pos_part, Bool-cases,
}
use mini_operate_system.Kernel.Process.{
  Process, Peer, proc, no_task, any, interrupt, nr_all, is_runnable,
}
use mini_operate_system.Kernel.Schedule.{Table, schedule}
use mini_operate_system.Kernel.Schedule.Select.{Scheduled, schedule-Scheduled}
use mini_operate_system.Kernel.System.{System, ok, ◌>>=◌, ◌>>◌, block-ok}
use mini_operate_system.Kernel.Ipc.{is_proc, is_no_task}
use mini_operate_system.Kernel.Ipc.Receive.{
  mark_receiving, assert_receiving, wait_message, receive_any, receive_from, msg_receive,
}
use mini_operate_system.Kernel.Ipc.Queue.{has, Chain-frame}
use mini_operate_system.Kernel.Ipc.Mail.{IsSane, Boxes, SameMail, Scheduled-SameMail, IsMail-same}
use mini_operate_system.Kernel.Ipc.Fetch.{update_twice}
use mini_operate_system.Kernel.Ipc.Sent.{IsKernel, Acyclic-same}
use mini_operate_system.Kernel.Ipc.Received.{pick}

unfoldable pub listen : Process → Peer → ℕ → Process
listen p src m = record p { receiving = true; p_msg = m; p_recvfrom = src }

-- The table when `wait_message` comes to `block`.
abbrev pub listening : Table → ℕ → Peer → ℕ → Table
listening t me src m = update t me (listen (t me) src m)

mark_receiving-listen :
    (s : System) (me : ℕ) (src : Peer) (m : ℕ)
    → mark_receiving me src m s ≡ ok tt (record s { table = listening s.table me src m })
unfolding mark_receiving listen
mark_receiving-listen s me src m =
    let self : (me == me) ≡ true = ground arith in
    let busy : (negate (s.table me).sending && false) ≡ false = ground arith in
    simp (self, busy)
      (ap (λ (t : Table). ok tt (record s { table = t })) (update_twice s.table me _ _))

assert_receiving-ok :
    (s : System) (me : ℕ)
    → (s.table me).receiving ≡ true
    → (s.table me).sending ≡ false
    → (s.table me).p_msg ≢ 0
    → is_no_task (s.table me).p_recvfrom ≡ false
    → is_no_task (s.table me).p_sendto ≡ true
    → (s.table me).has_int_msg ≡ false
    → assert_receiving me s ≡ ok tt s
unfolding assert_receiving
assert_receiving-ok s me a b c d e f = ground arith

module _ (s : System) (q : Boxes) (me : ℕ) (src : Peer) (m : ℕ) (k : IsKernel s.table q)
    (lt : me < nr_all) (given : m ≢ 0) (run : is_runnable (s.table me) ≡ true)
    (someone : is_no_task src ≡ false) where
  abbrev waits : Table
  waits = listening s.table me src m

  idle : (s.table me).sending ≡ false
  idle = ground arith

  fields :
      (i : ℕ)
      → ((waits i).sending ≡ (s.table i).sending)
        × ((waits i).p_sendto ≡ (s.table i).p_sendto)
        × ((waits i).q_sending ≡ (s.table i).q_sending)
        × ((waits i).next_sending ≡ (s.table i).next_sending)
  unfolding listen
  fields i = ground arith

  listening-IsSane : (i : ℕ) → i < nr_all → IsSane (waits i)
  unfolding listen
  listening-IsSane i h = elim (Bool-cases (me == i)) [
    | inl own ↦
        let w = k.mail.sane me lt in rw own (ground (arith, w.one, w.msg, w.from, w.to, w.quiet))
    | inr ne ↦ rw ne (k.mail.sane i h)
  ]

  listening-IsKernel : IsKernel waits q
  listening-IsKernel = record {
    mail = record {
      sane = listening-IsSane;
      links = λ d h. rw (fields d).2 (
          Chain-frame s.table waits (s.table d).q_sending (q d) (k.mail.links d h)
            (λ a i. (fields a).3));
      distinct = k.mail.distinct;
      members = λ d i h w.
          let (a, b, c) = k.mail.members d i h w in (a, (fields i).0 ∙ b, (fields i).1 ∙ c);
      complete = λ i d h sends to.
          k.mail.complete i d h (sym (fields i).0 ∙ sends) (sym (fields i).1 ∙ to);
      addressed = λ i h sends.
          let (d, e) = k.mail.addressed i h (sym (fields i).0 ∙ sends) in (d, (fields i).1 ∙ e);
    };
    acyclic = Acyclic-same s.table waits (λ i. ((fields i).0, (fields i).1)) k.acyclic;
  }

  wait_message-ok :
      (r : Table × ℕ)
      → schedule waits s.current ≡ some r
      → SameMail waits r.0
      → wait_message me src m s ≡ ok tt (record s { table = r.0; current = r.1 })
  unfolding wait_message
  wait_message-ok r chosen same =
      let e : waits me ≡ listen (s.table me) src m = ground arith in
      let e' = same me in
      let w = k.mail.sane me lt in
      let busy : is_runnable (waits me) ≡ false = rw e (unfold listen in ground arith) in
      let done =
        assert_receiving-ok (record s { table = r.0; current = r.1 }) me
          (rw (e', e) (unfold listen in refl)) (rw (e', e) (unfold listen in idle))
          (rw (e', e) (unfold listen in given)) (rw (e', e) (unfold listen in someone))
          (rw (e', e) (unfold listen in ground (arith, w.to)))
          (rw (e', e) (unfold listen in w.quiet)) in
      rw
        (
          mark_receiving-listen s me src m,
          block-ok (record s { table = waits }) me r busy chosen,
          ◌>>◌,
          ◌>>=◌,
        )
        done

  not_sender :
      (i : ℕ)
      → i < nr_all
      → has i (q me) ≡ false
      → ((s.table i).sending && is_proc (s.table i).p_sendto me) ≡ false
  not_sender i h out = elim (Bool-cases ((s.table i).sending)) [
    | inr e ↦ rw e
    | inl sends ↦
        let (d, to) = k.mail.addressed i h sends in
        rw (sends, to) (ground (arith, k.mail.complete i d h sends to))
  ]

  -- Nobody to take: the call comes to `wait_message`.
  to_wait :
      pick src (q me) ≡ none
      → is_proc src me ≡ false
      → msg_receive me src m s ≡ wait_message me src m s
  to_wait = go src
    where
      quiet : (s.table me).has_int_msg ≡ false
      quiet = (k.mail.sane me lt).quiet

      empty_box : (xs : List ℕ) → q me ≡ xs → pick any xs ≡ none → (s.table me).q_sending ≡ none
      empty_box [] eq e = rw eq at (k.mail.links me lt)
      empty_box (x ∷ xs) eq e = unfold pick in cc

      go :
          (src : Peer)
          → pick src (q me) ≡ none
          → is_proc src me ≡ false
          → msg_receive me src m s ≡ wait_message me src m s
      go any e other =
          unfold msg_receive receive_any in rw (quiet, receive_any, empty_box (q me) refl e)
      go (proc i) e other = elim (Bool-cases (ltb i nr_all)) [
        | inr out ↦ unfold msg_receive in rw (other, quiet, out)
        | inl below ↦
            let absent : has i (q me) ≡ false = unfold pick in ground arith in
            unfold msg_receive receive_from in
            rw (other, quiet, below, receive_from, not_sender i (ltb→lt i nr_all below) absent)
      ]
      go interrupt e other = unfold msg_receive in rw quiet
      go no_task e other = unfold msg_receive in rw quiet

  -- What a receive makes of the state if it has to wait.
  pub record Listening (r : Table × ℕ) : Type 0 where
    pub returns : msg_receive me src m s ≡ ok tt (record s { table = r.0; current = r.1 })
    pub kernel : IsKernel r.0 q
    pub waiting : r.0 me ≡ record (listen (s.table me) src m) { ticks = (r.0 me).ticks }
    pub scheduled : Scheduled waits r

  -- A runnable process that receives from somebody who does not wait in its mailbox waits for him
  -- with the address it gave, and the mailboxes are as before. If another process is runnable with
  -- a positive priority, `msg_receive` returns with the scheduler's choice.
  pub msg_receive-waiting :
      (p : ℕ)
      → pick src (q me) ≡ none
      → is_proc src me ≡ false
      → p < nr_all
      → p ≢ me
      → is_runnable (s.table p) ≡ true
      → 0 < pos_part (s.table p).priority
      → (r : Table × ℕ) × Listening r
  msg_receive-waiting p e other lt' ne run' prio =
      let f : waits p ≡ s.table p = ground arith in
      let (r, chosen, sch) = schedule-Scheduled waits s.current p lt' (rw f run') (rw f prio) in
      let same = Scheduled-SameMail sch in
      let own : waits me ≡ listen (s.table me) src m = ground arith in
      (
        r,
        record {
          returns = to_wait e other ∙ wait_message-ok r chosen same;
          kernel = record {
            mail = IsMail-same waits r.0 same listening-IsKernel.mail;
            acyclic =
                Acyclic-same waits r.0
                  (λ i. (
                    ap (λ (x : Process). x.sending) (same i),
                    ap (λ (x : Process). x.p_sendto) (same i),
                  ))
                  listening-IsKernel.acyclic;
          };
          waiting = same me ∙ ap (λ (x : Process). record x { ticks = (r.0 me).ticks }) own;
          scheduled = sch;
        },
      )
