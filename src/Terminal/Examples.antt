-- ===== src/Terminal/Examples.antt =====
-- The theorems on kernel/tty.c, kernel/console.c and kernel/keyboard.c at concrete states.
use mini_operate_system.Terminal.Printing.{gray_char, halt_screen}
use mini_operate_system.Terminal.Printing.Halting.{halt_screen_past_end}
use mini_operate_system.Prelude.{
  ℕ, ◌+◌, ◌%◌, ◌≤◌, ◌<◌, ◌≡◌, refl, inl, arith, true, false, some, ◌==◌, [], ◌∷◌, if◌then◌else◌,
}
use mini_operate_system.Terminal.Ring.{empty, put, take}
use mini_operate_system.Terminal.Ring.Queue.{IsValid, insert, remove, run, run_queue, run-queue}
use mini_operate_system.Terminal.Console.{Screen, init_console, nr_consoles, out_char, v_mem_size}
use mini_operate_system.Terminal.Console.Bounds.{IsConsole, IsScreen}
use mini_operate_system.Terminal.Console.Output.{Printed, out_char-Printed}
use mini_operate_system.Terminal.Keyboard.{
  Keyboard, init_keyboard, set_leds, keyboard_handler, keyboard_read, get_byte_from_kbuf,
  read_prefix, decode, latch, column, with_flags, set_flag,
}
use mini_operate_system.Terminal.Keyboard.Reading.{IsLit, keyboard_read-IsLit}
use mini_operate_system.Terminal.Input.{
  Terminals, init_tty, tty_round, tty_do_read, tty_do_write, tty_input_process,
}
use mini_operate_system.Terminal.Input.Start.{IsStarted, init_tty-IsTerminals}
use mini_operate_system.Terminal.Input.Steps.{IsTerminals, tty_round-IsTerminals}

empty-IsValid : (size : ℕ) → 0 < size → IsValid size empty
unfolding empty
empty-IsValid size h = record { head_in = h; tail_in = h; count_in = omega arith; apart = inl refl }

run-queue_example :
    run 2 empty (insert 7 ∷ insert 8 ∷ insert 9 ∷ remove ∷ remove ∷ remove ∷ [])
    ≡ run_queue 2 [] (insert 7 ∷ insert 8 ∷ insert 9 ∷ remove ∷ remove ∷ remove ∷ [])
unfolding empty
run-queue_example =
    run-queue 2 empty (insert 7 ∷ insert 8 ∷ insert 9 ∷ remove ∷ remove ∷ remove ∷ [])
      (empty-IsValid 2 (omega arith))

-- The screen after the three consoles' initialization, with the boot messages' position 160.
abbrev screen : Screen
screen = record {
  console_table = init_console 160;
  current_console = 0;
  crtc = λ r. if r == 15 then 80 else 0;
  vmem = λ a. 0;
}

init_console-IsConsole : (i : ℕ) → IsConsole (init_console 160 i)
unfolding init_console
init_console-IsConsole i = ground arith

screen-IsScreen : IsScreen screen
unfolding init_console
screen-IsScreen = record {
  consoles = λ i h. init_console-IsConsole i;
  parts = λ i h. (refl, refl);
  current = omega arith;
  shown = (refl, refl);
}

out_char-Printed_example : Printed screen 1 screen-IsScreen (omega arith) (out_char 1 b'a' screen)
out_char-Printed_example = out_char-Printed screen 1 screen-IsScreen (omega arith) b'a'

-- The key A has been pressed.
abbrev typed : Keyboard
typed = keyboard_handler 0x1e (init_keyboard [])

abbrev terminals : Terminals
terminals = record { in_buf = λ i. empty; screen = screen; keyboard = typed }

terminals-IsTerminals : IsTerminals terminals
terminals-IsTerminals = record {
  screen = screen-IsScreen;
  buffers = λ i h. empty-IsValid 256 (omega arith);
}

typed-IsLit : IsLit typed
unfolding keyboard_handler init_keyboard set_leds
typed-IsLit = refl

-- The scan code has been read.
abbrev read_one : Keyboard → Keyboard
read_one k = record k { kb_in = record k.kb_in { tail = 1; count = 0 } }

typed-key : keyboard_read typed ≡ some (some b'a', read_one typed)
unfolding keyboard_read get_byte_from_kbuf take put empty keyboard_handler init_keyboard set_leds
    read_prefix decode latch column with_flags set_flag
typed-key = refl

keyboard_read-IsLit_example : IsLit (read_one typed)
keyboard_read-IsLit_example =
    keyboard_read-IsLit typed (read_one typed) (some b'a') typed-IsLit typed-key

-- The left shift key has been pressed, on the console that is shown.
abbrev shifting : Terminals
shifting = record terminals { keyboard = keyboard_handler 0x2a (init_keyboard []) }

abbrev shifted : Terminals
shifted = record terminals { keyboard = record (read_one shifting.keyboard) { shift_l = true } }

shifting-round : tty_round nr_consoles 0 shifting ≡ some shifted
unfolding tty_round tty_do_read tty_do_write tty_input_process keyboard_read get_byte_from_kbuf take
    put empty keyboard_handler init_keyboard set_leds read_prefix decode latch column with_flags
    set_flag
shifting-round = refl

tty_round-IsTerminals_example : IsTerminals shifted
tty_round-IsTerminals_example =
    tty_round-IsTerminals shifting shifted
      (record { screen = terminals-IsTerminals.screen; buffers = terminals-IsTerminals.buffers })
      shifting-round

init_tty-IsTerminals_example : IsStarted 160 (init_tty 160 terminals)
init_tty-IsTerminals_example = init_tty-IsTerminals 160 terminals (omega arith)

-- Caps lock is on.
abbrev capital : Keyboard
capital = record (init_keyboard []) { code_with_e0 = false; caps_lock = true }

halt_screen_past_end_example :
    let (v, vmem) = halt_screen (b'o' ∷ b'h' ∷ []) (λ a. 0) in
    (v ≡ v_mem_size + 512)
    × ((a : ℕ)
        → v_mem_size ≤ a
        → a < v_mem_size + 512
        → vmem a ≡ (if a % 2 == 1 then gray_char else 0))
    × ((a : ℕ) → v_mem_size + 512 ≤ a → vmem a ≡ 0)
halt_screen_past_end_example =
    halt_screen_past_end (b'o' ∷ b'h' ∷ []) (λ a. 0) (omega arith) (omega arith)
