-- ===== src/Terminal/Ring.antt =====
-- The two ring buffers of the terminal: `in_buf` of include/tty.h (256 keys, `put_key` and
-- `tty_do_write` of kernel/tty.c) and `KB_INPUT` of include/keyboard.h (32 scan codes,
-- `keyboard_handler` and `get_byte_from_kbuf` of kernel/keyboard.c). The code is the same but for
-- the size. A pointer into the buffer is an index.
pub mod Queue
use mini_operate_system.Prelude.{
  ℕ, ◌+◌, ◌-◌, Bool, true, false, Option, none, some, ◌==◌, ltb, if◌then◌else◌, update,
}

pub record Ring : Type 0 where
  pub buf : ℕ → ℕ
  pub head : ℕ
  pub tail : ℕ
  pub count : ℕ

abbrev pub tty_in_bytes : ℕ
tty_in_bytes = 256

abbrev pub kb_in_bytes : ℕ
kb_in_bytes = 32

-- `p++; if (p == buf + size) p = buf;`
abbrev pub step : ℕ → ℕ → ℕ
step size p = if p + 1 == size then 0 else p + 1

unfoldable pub empty : Ring
empty = record { buf = λ i. 0; head = 0; tail = 0; count = 0 }

-- A full buffer drops the key.
unfoldable pub put : ℕ → Ring → ℕ → Ring
put size r x =
    if ltb r.count size
    then record r { buf = update r.buf r.head x; head = step size r.head; count = r.count + 1 }
    else r

-- `none`: there is nothing to take. `tty_do_write` then does nothing, and `get_byte_from_kbuf`
-- waits for the keyboard's interrupt.
unfoldable pub take : ℕ → Ring → Option (ℕ × Ring)
take size r =
    if ltb 0 r.count
    then some (r.buf r.tail, record r { tail = step size r.tail; count = r.count - 1 })
    else none
