-- ===== src/Terminal/Input/Steps.antt =====
-- The steps of the terminals' task (kernel/tty.c) keep the screen and the buffers well formed.
use mini_operate_system.Prelude.{
  ℕ, zero, suc, ◌+◌, ◌-◌, ◌%◌, ◌^◌, ◌≤◌, ◌<◌, ◌≡◌, subst, inl, inr, arith, Bool, true, false, ◌&&◌,
  ◌||◌, ◌==◌, leb, negate, Option, none, some, update, Bool-cases, Option-cases, if◌then◌else◌,
}
use mini_operate_system.Terminal.Ring.{Ring, tty_in_bytes, take}
use mini_operate_system.Terminal.Ring.Queue.{IsValid, put-IsValid, take-IsValid}
use mini_operate_system.Terminal.Console.{
  nr_consoles, scr_up, scr_down, scroll_screen, select_console,
}
use mini_operate_system.Terminal.Console.Bounds.{IsScreen}
use mini_operate_system.Terminal.Console.Output.{
  scroll_screen-IsScreen, select_console-IsScreen, out_char-Printed,
}
use mini_operate_system.Terminal.Keyboard.{keyboard_read, has_flag}
use mini_operate_system.Terminal.Keyboard.Keys
use mini_operate_system.Terminal.Input.{
  Terminals, put_key, on_screen, tty_input_process, tty_do_read, tty_do_write, tty_round,
}

-- The screen's state and the terminals' buffers are well formed.
pub record IsTerminals (t : Terminals) : Type 0 where
  pub screen : IsScreen t.screen
  pub buffers : (i : ℕ) → i < nr_consoles → IsValid tty_in_bytes (t.in_buf i)

-- If the task goes on, the terminals are well formed.
abbrev Kept : Option Terminals → Type 0
Kept none = Unit {0}
Kept (some t) = IsTerminals t

either : (P : Terminals → Type 0) (b : Bool) {t u : Terminals} → P t → P u → P (if b then t else u)
either P true p q = p
either P false p q = q

update-IsValid :
    (f : ℕ → Ring) (i : ℕ) (r : Ring)
    → ((j : ℕ) → j < nr_consoles → IsValid tty_in_bytes (f j))
    → IsValid tty_in_bytes r
    → (j : ℕ) → j < nr_consoles
    → IsValid tty_in_bytes (update f i r j)
update-IsValid f i r v w j h = elim (Bool-cases (i == j)) [
  | inl own ↦ rw (own) w
  | inr other ↦ rw other (v j h)
]

module _ (i : ℕ) (t : Terminals) (lt : i < nr_consoles) (v : IsTerminals t) where
  put_key-IsTerminals : (key : ℕ) → IsTerminals (put_key i key t)
  unfolding put_key
  put_key-IsTerminals key = record {
    screen = v.screen;
    buffers = update-IsValid t.in_buf i _ v.buffers (put-IsValid tty_in_bytes key (v.buffers i lt));
  }

  -- Whatever key the keyboard gives, a character, a control key, a scrolling key or a key that
  -- switches the console, the terminals stay well formed.
  pub tty_input_process-IsTerminals : (key : ℕ) → IsTerminals (tty_input_process i key t)
  unfolding tty_input_process
  tty_input_process-IsTerminals key =
      let up : IsTerminals (on_screen (scroll_screen scr_up i) t) = record {
        screen = scroll_screen-IsScreen t.screen i v.screen lt scr_up;
        buffers = v.buffers;
      } in
      let down : IsTerminals (on_screen (scroll_screen scr_down i) t) = record {
        screen = scroll_screen-IsScreen t.screen i v.screen lt scr_down;
        buffers = v.buffers;
      } in
      let switch : IsTerminals (on_screen (select_console (key % 0x200 - Keys.f1)) t) = record {
        screen = select_console-IsScreen t.screen i v.screen lt _;
        buffers = v.buffers;
      } in
      let P = IsTerminals in
      let raw = key % 0x200 in
      let shift = has_flag Keys.flag_shift_l key || has_flag Keys.flag_shift_r key in
      let alt = has_flag Keys.flag_alt_l key || has_flag Keys.flag_alt_r key in
      either P (negate (has_flag Keys.flag_ext key)) (put_key-IsTerminals key) (
        either P (raw == Keys.enter) (put_key-IsTerminals 10) (
          either P (raw == Keys.backspace) (put_key-IsTerminals 8) (
            either P (raw == Keys.up) (either P shift up v) (
              either P (raw == Keys.down) (either P shift down v)
                (either P (leb Keys.f1 raw && leb raw Keys.f12) (either P alt switch v) v)))))

  -- Printing the oldest key of a terminal keeps the terminals well formed, also if there is none.
  pub tty_do_write-IsTerminals : IsTerminals (tty_do_write i t)
  unfolding tty_do_write
  tty_do_write-IsTerminals = elim (Option-cases (take tty_in_bytes (t.in_buf i))) [
    | inl nothing ↦ rw (tty_do_write, nothing) v
    | inr ((key, r), e) ↦
        rw (tty_do_write, e)
          (record {
            screen = (out_char-Printed t.screen i v.screen lt (key % 2 ^ 8)).screen;
            buffers =
                update-IsValid t.in_buf i r v.buffers
                  (take-IsValid tty_in_bytes (v.buffers i lt) e);
          })
  ]

tty_do_read-Kept :
    (i : ℕ) (t : Terminals) → i < nr_consoles → IsTerminals t → Kept (tty_do_read i t)
unfolding tty_do_read
tty_do_read-Kept i t lt v = elim (Bool-cases (i == t.screen.current_console)) [
  | inr other ↦ rw (tty_do_read, other) v
  | inl own ↦ elim (Option-cases (keyboard_read t.keyboard)) [
    | inl waits ↦ rw (tty_do_read, own, waits) tt
    | inr ((none, k), e) ↦
        rw (tty_do_read, own, e) (record { screen = v.screen; buffers = v.buffers })
    | inr ((some key, k), e) ↦
        rw (tty_do_read, own, e)
          (tty_input_process-IsTerminals i (record t { keyboard = k }) lt
            (record { screen = v.screen; buffers = v.buffers }) key)
  ]
]

tty_round-Kept :
    (n i : ℕ) (t : Terminals) → i + n ≤ nr_consoles → IsTerminals t → Kept (tty_round n i t)
unfolding tty_round
tty_round-Kept zero i t le v = v
tty_round-Kept (suc n) i t le v =
    let read = tty_do_read-Kept i t (omega arith) v in
    elim (Option-cases (tty_do_read i t)) [
      | inl waits ↦ rw (tty_round, waits) tt
      | inr (t', e) ↦
          let w = subst Kept e read in
          rw (tty_round, e)
            (tty_round-Kept n (suc i) (tty_do_write i t') (omega arith)
              (tty_do_write-IsTerminals i t' (omega arith) w))
    ]

-- One round of the terminals' task over all the consoles keeps the terminals well formed, whatever
-- scan codes the keyboard has given, if every read in it gets the scan codes that it waits for.
pub tty_round-IsTerminals :
    (t t' : Terminals) → IsTerminals t → tty_round nr_consoles 0 t ≡ some t' → IsTerminals t'
tty_round-IsTerminals t t' v e = subst Kept e (tty_round-Kept nr_consoles 0 t (omega arith) v)
