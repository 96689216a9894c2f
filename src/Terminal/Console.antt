-- ===== src/Terminal/Console.antt =====
-- kernel/console.c: three consoles that share the video memory, and the registers of the display
-- controller. Addresses count cells of two bytes (character, colour); they stay far below 2 ^ 32
-- (`Console.Bounds`), so the `unsigned int` operations do not wrap, and every subtraction is
-- guarded. `disable_int` and `enable_int` leave the state alone.
pub mod Bounds
pub mod Output
use mini_operate_system.Prelude.{
  ℕ, zero, suc, ◌+◌, ◌-◌, ◌*◌, ◌/◌, ◌%◌, ◌^◌, Bool, true, false, ◌==◌, ltb, leb, if◌then◌else◌,
  update,
}

-- `CONSOLE`.
pub record Console : Type 0 where
  pub current_start_addr : ℕ
  pub original_addr : ℕ
  pub v_mem_limit : ℕ
  pub cursor : ℕ

-- `console_table`, `current_console`, the display controller's registers and the video memory, byte
-- by byte from V_MEM_BASE on.
pub record Screen : Type 0 where
  pub console_table : ℕ → Console
  pub current_console : ℕ
  pub crtc : ℕ → ℕ
  pub vmem : ℕ → ℕ

abbrev pub nr_consoles : ℕ
nr_consoles = 3

abbrev pub screen_width : ℕ
screen_width = 80

abbrev pub screen_size : ℕ
screen_size = 2000

abbrev pub v_mem_size : ℕ
v_mem_size = 0x8000

abbrev pub default_char_color : ℕ
default_char_color = 0x0f

-- START_ADDR_H, START_ADDR_L, CURSOR_H and CURSOR_L.
abbrev pub start_addr_h : ℕ
start_addr_h = 0xc

abbrev pub start_addr_l : ℕ
start_addr_l = 0xd

abbrev pub cursor_h : ℕ
cursor_h = 0xe

abbrev pub cursor_l : ℕ
cursor_l = 0xf

-- Two writes of 8 bits: `(pos >> 8) & 0xFF` and `pos & 0xFF`.
abbrev pub out_pair : ℕ → ℕ → ℕ → Screen → Screen
out_pair high low pos s = record s {
  crtc = update (update s.crtc high (pos / 2 ^ 8 % 2 ^ 8)) low (pos % 2 ^ 8);
}

unfoldable pub set_cursor : ℕ → Screen → Screen
set_cursor pos s = out_pair cursor_h cursor_l pos s

unfoldable pub set_video_start_addr : ℕ → Screen → Screen
set_video_start_addr addr s = out_pair start_addr_h start_addr_l addr s

-- `flush`, with `is_current_console` as the test.
unfoldable pub flush : ℕ → Screen → Screen
unfolding set_cursor set_video_start_addr
flush con s =
    if con == s.current_console
    then set_video_start_addr (s.console_table con).current_start_addr
        (set_cursor (s.console_table con).cursor s)
    else s

pub data Direction : Type 0 where
  scr_up scr_down : Direction

-- The new start address of `scroll_screen`.
unfoldable pub scrolled : Direction → Console → Console
scrolled scr_up c =
    if ltb c.original_addr c.current_start_addr
    then record c { current_start_addr = c.current_start_addr - screen_width }
    else c
scrolled scr_down c =
    if ltb (c.current_start_addr + screen_size) (c.original_addr + c.v_mem_limit)
    then record c { current_start_addr = c.current_start_addr + screen_width }
    else c

abbrev pub with_console : ℕ → Console → Screen → Screen
with_console con c s = record s { console_table = update s.console_table con c }

unfoldable pub scroll_screen : Direction → ℕ → Screen → Screen
unfolding scrolled flush
scroll_screen dir con s = flush con (with_console con (scrolled dir (s.console_table con)) s)

-- The `switch` of `out_char` on the console itself. 10 is '\n' and 8 is '\b'.
unfoldable pub advance : Console → ℕ → Console
advance c ch =
    if ch == 10
    then if ltb c.cursor (c.original_addr + c.v_mem_limit - screen_width)
      then record c {
        cursor = c.original_addr + screen_width * (1 + (c.cursor - c.original_addr) / screen_width);
      }
      else c
    else if ch == 8
    then if ltb c.original_addr c.cursor then record c { cursor = c.cursor - 1 } else c
    else if ltb c.cursor (c.original_addr + c.v_mem_limit - 1)
    then record c { cursor = c.cursor + 1 }
    else c

-- A cell of the video memory: a character and its colour.
abbrev pub put_cell : ℕ → ℕ → (ℕ → ℕ) → ℕ → ℕ
put_cell cell ch vmem = update (update vmem (cell * 2) ch) (cell * 2 + 1) default_char_color

-- The writes of `out_char` to the video memory, at the cell of the cursor before it moves.
unfoldable pub draw : Console → ℕ → (ℕ → ℕ) → ℕ → ℕ
draw c ch vmem =
    if ch == 10
    then vmem
    else if ch == 8
    then if ltb c.original_addr c.cursor then put_cell (c.cursor - 1) b' ' vmem else vmem
    else if ltb c.cursor (c.original_addr + c.v_mem_limit - 1)
    then put_cell c.cursor ch vmem
    else vmem

-- The `while` loop of `out_char`, on fuel. `scroll_screen` flushes in each round.
unfoldable pub scroll_loop : ℕ → ℕ → Screen → Screen
scroll_loop zero con s = s
scroll_loop (suc fuel) con s =
    let rest = scroll_loop fuel con (scroll_screen scr_down con s) in
    let c = s.console_table con in
    if leb (c.current_start_addr + screen_size) c.cursor then rest else s

-- `out_char`. The fuel is enough by `Bounds`.
unfoldable pub out_char : ℕ → ℕ → Screen → Screen
out_char con ch s =
    let c = s.console_table con in
    let s' = record (with_console con (advance c ch) s) { vmem = draw c ch s.vmem } in
    flush con (scroll_loop c.v_mem_limit con s')

-- `select_console`; the number comes from a key, so it is not negative.
unfoldable pub select_console : ℕ → Screen → Screen
unfolding set_cursor set_video_start_addr
select_console nr s =
    if leb nr_consoles nr
    then s
    else let s' = record s { current_console = nr } in
      set_video_start_addr (s.console_table nr).current_start_addr
        (set_cursor (s.console_table nr).cursor s')

-- The console that `init_screen` gives to terminal `nr_tty`, where `cursor_pos` is the boot
-- messages' position in bytes.
unfoldable pub init_console : ℕ → ℕ → Console
init_console cursor_pos nr_tty =
    let size = v_mem_size / 2 / nr_consoles in
    let start = nr_tty * size in
    record {
      current_start_addr = start;
      original_addr = start;
      v_mem_limit = size;
      cursor = if nr_tty == 0 then cursor_pos / 2 else start;
    }
