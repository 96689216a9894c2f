-- ===== src/Terminal/Input.antt =====
-- kernel/tty.c: keys from the keyboard go to the terminal whose console is shown, which stores the
-- characters and later prints them. Terminal `i` has console `i`, as `init_screen` arranges.
pub mod Steps
pub mod Start
use mini_operate_system.Prelude.{
  ℕ, zero, suc, ◌+◌, ◌-◌, ◌*◌, ◌/◌, ◌%◌, ◌^◌, Bool, true, false, ◌&&◌, ◌||◌, ◌==◌, ltb, leb,
  if◌then◌else◌, update, negate, Option, none, some, List, [], ◌∷◌, ◌>>=◌,
}
use mini_operate_system.Terminal.Ring.{Ring, tty_in_bytes, put, take, empty}
use mini_operate_system.Terminal.Console.{
  Screen, scr_up, scr_down, scroll_screen, out_char, select_console, init_console, set_cursor,
  with_console, nr_consoles,
}
use mini_operate_system.Terminal.Keyboard.{Keyboard, keyboard_read, has_flag}
use mini_operate_system.Terminal.Keyboard.Keys

-- `tty_table`, by the terminals' input buffers, with what the terminals share.
pub record Terminals : Type 0 where
  pub in_buf : ℕ → Ring
  pub screen : Screen
  pub keyboard : Keyboard

-- The loop of `init_tty`, with `init_screen` in it, for the terminals from `i` on.
unfoldable pub init_ttys : ℕ → ℕ → ℕ → Terminals → Terminals
init_ttys zero cursor_pos i t = t
init_ttys (suc n) cursor_pos i t = init_ttys n cursor_pos (suc i) (record t {
  in_buf = update t.in_buf i empty;
  screen =
      set_cursor (init_console cursor_pos i).cursor
        (with_console i (init_console cursor_pos i) t.screen);
})

unfoldable pub init_tty : ℕ → Terminals → Terminals
init_tty cursor_pos t =
    let t' = init_ttys nr_consoles cursor_pos 0 t in
    record t' { screen = select_console 0 t'.screen }

unfoldable pub put_key : ℕ → ℕ → Terminals → Terminals
put_key i key t = record t { in_buf = update t.in_buf i (put tty_in_bytes (t.in_buf i) key) }

abbrev pub on_screen : (Screen → Screen) → Terminals → Terminals
on_screen f t = record t { screen = f t.screen }

unfoldable pub tty_input_process : ℕ → ℕ → Terminals → Terminals
tty_input_process i key t =
    let raw_code = key % 0x200 in
    if negate (has_flag Keys.flag_ext key)
    then put_key i key t
    else if raw_code == Keys.enter
    then put_key i 10 t
    else if raw_code == Keys.backspace
    then put_key i 8 t
    else if raw_code == Keys.up
    then if has_flag Keys.flag_shift_l key || has_flag Keys.flag_shift_r key
      then on_screen (scroll_screen scr_up i) t
      else t
    else if raw_code == Keys.down
    then if has_flag Keys.flag_shift_l key || has_flag Keys.flag_shift_r key
      then on_screen (scroll_screen scr_down i) t
      else t
    else if leb Keys.f1 raw_code && leb raw_code Keys.f12
    then if has_flag Keys.flag_alt_l key || has_flag Keys.flag_alt_r key
      then on_screen (select_console (raw_code - Keys.f1)) t
      else t
    else t

-- `tty_do_read`, with `tty_input_process` for the key that the read gives. `none`: the read waits
-- for a scan code that does not come.
unfoldable pub tty_do_read : ℕ → Terminals → Option Terminals
tty_do_read i t =
    if i == t.screen.current_console
    then (do
      (key, k) ← keyboard_read t.keyboard
      let t' : Terminals = record t { keyboard = k }
      some (elim key [ some key ↦ tty_input_process i key t' | none ↦ t' ]))
    else some t

-- `char ch` keeps the low 8 bits of the key.
unfoldable pub tty_do_write : ℕ → Terminals → Terminals
tty_do_write i t = elim (take tty_in_bytes (t.in_buf i)) [
  | some (key, r) ↦ record t {
    in_buf = update t.in_buf i r;
    screen = out_char i (key % 2 ^ 8) t.screen;
  }
  | none ↦ t
]

-- `tty_write` of the characters `buf[0]` to `buf[len - 1]`.
unfoldable pub tty_write : ℕ → List ℕ → Screen → Screen
tty_write i [] s = s
tty_write i (ch ∷ buf) s = tty_write i buf (out_char i ch s)

-- The body of the endless loop of `task_tty`, for the `n` terminals from `i` on.
unfoldable pub tty_round : ℕ → ℕ → Terminals → Option Terminals
tty_round zero i t = some t
tty_round (suc n) i t = do t ← tty_do_read i t; tty_round n (suc i) (tty_do_write i t)
