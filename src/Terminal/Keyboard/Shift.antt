-- ===== src/Terminal/Keyboard/Shift.antt =====
-- Pressing and releasing a shift key in kernel/keyboard.c.
use mini_operate_system.Prelude.{Bool, false}
use mini_operate_system.Terminal.Keyboard.{Keyboard}

abbrev with_keys : Keyboard → Bool → Bool → Bool → Keyboard
with_keys k l r c = record k { code_with_e0 = false; shift_l = l; shift_r = r; caps_lock = c }
