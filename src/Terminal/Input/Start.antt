-- ===== src/Terminal/Input/Start.antt =====
-- `init_tty` of kernel/tty.c makes a well-formed state.
use mini_operate_system.Prelude.{
  ℕ, ◌+◌, ◌*◌, ◌^◌, false, ◌/◌, ◌<◌, ◌≡◌, refl, inl, inr, arith, ◌==◌, Bool-cases,
}
use mini_operate_system.Terminal.Ring.{tty_in_bytes, empty}
use mini_operate_system.Terminal.Ring.Queue.{IsValid}
use mini_operate_system.Terminal.Console.{
  cursor_h, cursor_l, start_addr_h, start_addr_l, nr_consoles, init_console, set_cursor,
  set_video_start_addr, select_console,
}
use mini_operate_system.Terminal.Console.Bounds.{IsConsole, part}
use mini_operate_system.Terminal.Input.{Terminals, init_ttys, init_tty}
use mini_operate_system.Terminal.Input.Steps.{IsTerminals}

init_console-IsConsole :
    (pos i : ℕ) → pos / 2 < part → i < nr_consoles → IsConsole (init_console pos i)
unfolding init_console
init_console-IsConsole pos i h lt = ground arith

-- After its initialization terminal `i` has an empty buffer and its own console.
abbrev Started : ℕ → Terminals → ℕ → Type 0
Started pos t i = (t.in_buf i ≡ empty) × (t.screen.console_table i ≡ init_console pos i)

init_ttys-Started :
    (pos : ℕ) (t : Terminals) (i : ℕ)
    → i < nr_consoles
    → Started pos (init_ttys nr_consoles pos 0 t) i
unfolding init_ttys set_cursor
init_ttys-Started pos t i lt = elim (Bool-cases (i == 0)) [
  | inl own ↦ let e : i ≡ 0 = ground arith in rw e (refl, refl)
  | inr ne ↦ elim (Bool-cases (i == 1)) [
    | inl own ↦ let e : i ≡ 1 = ground arith in rw e (refl, refl)
    | inr ne' ↦ let e : i ≡ 2 = ground arith in rw e (refl, refl)
  ]
]

empty-IsValid : IsValid tty_in_bytes empty
unfolding empty
empty-IsValid = record {
  head_in = omega arith;
  tail_in = omega arith;
  count_in = omega arith;
  apart = inl refl;
}

-- What `init_tty` makes of the terminals: terminal `i` has no keys, starts at the top of its part, with
-- the cursor behind the boot messages on the first and at the top of the others, and the display
-- controller shows the first one, with its cursor.
pub record IsStarted (pos : ℕ) (t : Terminals) : Type 0 where
  pub terminals : IsTerminals t
  pub no_keys : (i : ℕ) → i < nr_consoles → (t.in_buf i).count ≡ 0
  pub top : (i : ℕ) → i < nr_consoles → (t.screen.console_table i).current_start_addr ≡ i * part
  pub first_cursor : (t.screen.console_table 0).cursor ≡ pos / 2
  pub cursors : (i : ℕ) → 0 < i → i < nr_consoles → (t.screen.console_table i).cursor ≡ i * part
  pub current : t.screen.current_console ≡ 0
  pub start_shown : t.screen.crtc start_addr_h * 2 ^ 8 + t.screen.crtc start_addr_l ≡ 0
  pub cursor_shown : t.screen.crtc cursor_h * 2 ^ 8 + t.screen.crtc cursor_l ≡ pos / 2

-- `init_tty` makes the terminals well formed whatever state it starts from, if the boot messages'
-- position lies in the first console's part of the video memory: every terminal has an empty
-- buffer and shows the top of its own part, and the display shows the first console with the cursor
-- behind the boot messages.
pub init_tty-IsTerminals :
    (pos : ℕ) (t : Terminals) → pos / 2 < part → IsStarted pos (init_tty pos t)
unfolding init_tty select_console init_ttys set_cursor set_video_start_addr init_console
init_tty-IsTerminals pos t h =
    let t' = init_ttys nr_consoles pos 0 t in
    let at = init_ttys-Started pos t in
    let own : (i : ℕ)
        → i < nr_consoles
        → (select_console 0 t'.screen).console_table i ≡ init_console pos i =
      λ i lt. (at i lt).1 in
    record {
      terminals = record {
        screen = record {
          consoles = λ i lt. rw (own i lt) (init_console-IsConsole pos i h lt);
          parts = λ i lt. rw (own i lt) (unfold init_console in (refl, refl));
          current = omega arith;
          shown = (omega arith, omega arith);
        };
        buffers = λ i lt. rw ((at i lt).0) empty-IsValid;
      };
      no_keys = λ i lt. rw ((at i lt).0) (unfold empty in refl);
      top = λ i lt. rw (own i lt) (unfold init_console in refl);
      first_cursor = refl;
      cursors = λ i low lt.
          let later : (i == 0) ≡ false = ground arith in
          rw (own i lt) (unfold init_console in rw (later) refl);
      current = refl;
      start_shown = omega arith;
      cursor_shown = omega arith;
    }
