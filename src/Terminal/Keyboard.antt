-- ===== src/Terminal/Keyboard.antt =====
-- kernel/keyboard.c: the interrupt handler that stores scan codes, and `keyboard_read`, which turns
-- them into a key for the terminal. `disable_int` and `enable_int` leave the state alone.
pub mod Keys
pub mod Keymap
pub mod Reading
pub mod Shift
use mini_operate_system.Prelude.{
  ℕ, ◌+◌, ◌-◌, ◌*◌, ◌/◌, ◌%◌, ◌^◌, Bool, true, false, ◌&&◌, ◌||◌, ◌==◌, ltb, leb, negate,
  if◌then◌else◌, Option, none, some, List, [], ◌∷◌, get_or, ◌>>=◌,
}
use mini_operate_system.Terminal.Ring.{Ring, kb_in_bytes, put, take, empty}
use mini_operate_system.Terminal.Keyboard.Keys
use mini_operate_system.Terminal.Keyboard.Keymap.{keymap, map_cols}

-- The static variables of kernel/keyboard.c but `column`, which every read sets before it uses it.
-- `leds` is what `set_leds` last sent to the keyboard, and `incoming` the scan codes that arrive
-- while `get_byte_from_kbuf` waits.
pub record Keyboard : Type 0 where
  pub kb_in : Ring
  pub code_with_e0 : Bool
  pub shift_l : Bool
  pub shift_r : Bool
  pub alt_l : Bool
  pub alt_r : Bool
  pub ctrl_l : Bool
  pub ctrl_r : Bool
  pub caps_lock : Bool
  pub num_lock : Bool
  pub scroll_lock : Bool
  pub leds : ℕ
  pub incoming : List ℕ

abbrev pub bit : Bool → ℕ
bit b = if b then 1 else 0

-- `set_leds`, without its waits for the keyboard.
unfoldable pub set_leds : Keyboard → Keyboard
set_leds k = record k { leds = bit k.caps_lock * 4 + bit k.num_lock * 2 + bit k.scroll_lock }

unfoldable pub init_keyboard : List ℕ → Keyboard
init_keyboard incoming = set_leds (record {
  kb_in = empty;
  code_with_e0 = false;
  shift_l = false;
  shift_r = false;
  alt_l = false;
  alt_r = false;
  ctrl_l = false;
  ctrl_r = false;
  caps_lock = false;
  num_lock = true;
  scroll_lock = false;
  leds = 0;
  incoming = incoming;
})

unfoldable pub keyboard_handler : ℕ → Keyboard → Keyboard
keyboard_handler scan_code k = record k { kb_in = put kb_in_bytes k.kb_in scan_code }

-- `get_byte_from_kbuf`. On an empty buffer it spins until the interrupt stores a scan code; `none`
-- is a wait that does not end.
unfoldable pub get_byte_from_kbuf : Keyboard → Option (ℕ × Keyboard)
get_byte_from_kbuf k = elim (take kb_in_bytes k.kb_in) [
  | some (x, r) ↦ some (x, record k { kb_in = r })
  | none ↦ elim k.incoming [
    | [] ↦ none
    | (x ∷ xs) ↦ elim (take kb_in_bytes (put kb_in_bytes k.kb_in x)) [
      | some (y, r) ↦ some (y, record k { kb_in = r; incoming = xs })
      | none ↦ none
    ]
  ]
]

-- The loop of the pause key: are these the next scan codes? It stops at the first that is not.
unfoldable pub matches : List ℕ → Keyboard → Option (Bool × Keyboard)
matches [] k = some (true, k)
matches (x ∷ xs) k = do
  (y, k') ← get_byte_from_kbuf k
  elim (y == x) [ true ↦ matches xs k' | false ↦ some (false, k') ]

-- After 0xE0, 0x2A (or 0xE0, 0xB7): is the rest that of the print screen key?
abbrev pub print_screen : ℕ → Keyboard → Option (ℕ × Keyboard)
print_screen last k = do
  (x, k) ← get_byte_from_kbuf k
  if x == 0xE0
      then (do (y, k) ← get_byte_from_kbuf k; some (if y == last then Keys.printscreen else 0, k))
      else some (0, k)

-- The key that a sequence starting with `scan_code` stands for by itself, 0 if none, with the scan
-- code to look up.
unfoldable pub read_prefix : ℕ → Keyboard → Option (ℕ × ℕ × Keyboard)
read_prefix scan_code k =
    if scan_code == 0xE1
    then (do
      (is_pausebreak, k) ← matches (0x1D ∷ 0x45 ∷ 0xE1 ∷ 0x9D ∷ 0xC5 ∷ []) k
      some (if is_pausebreak then Keys.pausebreak else 0, scan_code, k))
    else if scan_code == 0xE0
    then (do
      (x, k) ← get_byte_from_kbuf k
      (key, k) ←
          if x == 0x2A
          then print_screen 0x37 k
          else if x == 0xB7
          then print_screen 0xAA k
          else some (0, k)
      some (key, x, if key == 0 then record k { code_with_e0 = true } else k))
    else some (0, scan_code, k)

abbrev pub xor : Bool → Bool → Bool
xor true b = negate b
xor false b = b

-- The column of the keymap: with caps lock on, shift is turned round for letters.
unfoldable pub column : Keyboard → ℕ → ℕ
column k plain =
    let letter = leb b'a' plain && leb plain b'z' in
    let caps = xor (k.caps_lock && letter) (k.shift_l || k.shift_r) in
    if k.code_with_e0 then 2 else if caps then 1 else 0

-- The `switch` on the keys that are held or toggled.
unfoldable pub latch : ℕ → Bool → Keyboard → Keyboard
latch key make k =
    if key == Keys.shift_l
    then record k { shift_l = make }
    else if key == Keys.shift_r
    then record k { shift_r = make }
    else if key == Keys.ctrl_l
    then record k { ctrl_l = make }
    else if key == Keys.ctrl_r
    then record k { ctrl_r = make }
    else if key == Keys.alt_l
    then record k { alt_l = make }
    else if key == Keys.alt_r
    then record k { alt_r = make }
    else if (key == Keys.caps_lock) && make
    then set_leds (record k { caps_lock = negate k.caps_lock })
    else if (key == Keys.num_lock) && make
    then set_leds (record k { num_lock = negate k.num_lock })
    else if (key == Keys.scroll_lock) && make
    then set_leds (record k { scroll_lock = negate k.scroll_lock })
    else k

-- A key of the number pad, PAD_SLASH to PAD_9.
unfoldable pub pad_key : Bool → ℕ → ℕ
pad_key num_lock key =
    if key == Keys.pad_slash
    then b'/'
    else if key == Keys.pad_star
    then b'*'
    else if key == Keys.pad_minus
    then b'-'
    else if key == Keys.pad_plus
    then b'+'
    else if key == Keys.pad_enter
    then Keys.enter
    else if num_lock && (leb Keys.pad_0 key && leb key Keys.pad_9)
    then key - Keys.pad_0 + b'0'
    else if num_lock && (key == Keys.pad_dot)
    then b'.'
    else if key == Keys.pad_home
    then Keys.home
    else if key == Keys.pad_end
    then Keys.end
    else if key == Keys.pad_pageup
    then Keys.pageup
    else if key == Keys.pad_pagedown
    then Keys.pagedown
    else if key == Keys.pad_ins
    then Keys.insert
    else if key == Keys.pad_up
    then Keys.up
    else if key == Keys.pad_down
    then Keys.down
    else if key == Keys.pad_left
    then Keys.left
    else if key == Keys.pad_right
    then Keys.right
    else if key == Keys.pad_dot
    then Keys.delete
    else key

-- `key & flag` and `key |= flag` for a flag of one bit.
abbrev pub has_flag : ℕ → ℕ → Bool
has_flag flag key = key / flag % 2 == 1

unfoldable pub set_flag : ℕ → Bool → ℕ → ℕ
set_flag flag b key = if b && negate (has_flag flag key) then key + flag else key

unfoldable pub with_flags : Keyboard → Bool → ℕ → ℕ
with_flags k pad key = set_flag Keys.flag_pad pad (
    set_flag Keys.flag_alt_r k.alt_r (
      set_flag Keys.flag_alt_l k.alt_l (
        set_flag Keys.flag_ctrl_r k.ctrl_r (
          set_flag Keys.flag_ctrl_l k.ctrl_l
            (set_flag Keys.flag_shift_r k.shift_r (set_flag Keys.flag_shift_l k.shift_l key))))))

-- The rest of `keyboard_read` for one scan code, with the key that it passes to the terminal.
unfoldable pub decode : ℕ → Keyboard → Option ℕ × Keyboard
decode scan_code k =
    let make = negate (has_flag Keys.flag_break scan_code) in
    let row = scan_code % 0x80 * map_cols in
    let key = get_or keymap (row + column k (get_or keymap row 0)) 0 in
    let k' = latch key make (record k { code_with_e0 = false }) in
    let pad = leb Keys.pad_slash key && leb key Keys.pad_9 in
    let sent = with_flags k' pad (if pad then pad_key k'.num_lock key else key) in
    (if make then some sent else none, k')

-- `keyboard_read`, with the key that it passes to `tty_input_process`.
unfoldable pub keyboard_read : Keyboard → Option (Option ℕ × Keyboard)
keyboard_read k =
    if ltb 0 k.kb_in.count
    then (do
      (scan_code, k) ← get_byte_from_kbuf k
      (key, scan_code, k) ← read_prefix scan_code k
      some (
          if (key == Keys.pausebreak) || (key == Keys.printscreen)
          then (none, k)
          else decode scan_code k))
    else some (none, k)
