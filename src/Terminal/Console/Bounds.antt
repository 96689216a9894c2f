-- ===== src/Terminal/Console/Bounds.antt =====
-- The consoles of kernel/console.c stay within their own part of the video memory, and the display
-- controller shows the current one.
use mini_operate_system.Prelude.{
  ℕ, zero, suc, ◌+◌, ◌-◌, ◌*◌, ◌%◌, ◌^◌, ◌≤◌, ◌<◌, ◌≡◌, ◌≢◌, refl, ap, ◌∙◌, inl, inr, arith, leb,
  leb→le, Bool-cases,
}
use mini_operate_system.Terminal.Console.{
  Console, Screen, nr_consoles, screen_width, screen_size, cursor_h, cursor_l, start_addr_h,
  start_addr_l, set_cursor, set_video_start_addr, flush, Direction, scr_up, scr_down, scrolled,
  with_console, scroll_screen, advance, scroll_loop,
}

-- A console's cursor lies in its part of the video memory; its screen starts in it, a whole number
-- of lines behind its beginning.
pub record IsConsole (c : Console) : Type 0 where
  pub room : screen_size ≤ c.v_mem_limit
  pub low : c.original_addr ≤ c.cursor
  pub high : c.cursor < c.original_addr + c.v_mem_limit
  pub start_low : c.original_addr ≤ c.current_start_addr
  pub lines : (c.current_start_addr - c.original_addr) % screen_width ≡ 0
  pub start_high :
      c.current_start_addr + screen_size < c.original_addr + c.v_mem_limit + screen_width

pub advance-IsConsole : (c : Console) (ch : ℕ) → IsConsole c → IsConsole (advance c ch)
unfolding advance
advance-IsConsole c ch v = ground arith

pub scrolled-IsConsole : (d : Direction) (c : Console) → IsConsole c → IsConsole (scrolled d c)
unfolding scrolled
scrolled-IsConsole scr_up c v = ground arith
scrolled-IsConsole scr_down c v = ground arith

-- The registers hold a console's cursor and start address.
abbrev pub Shows : (ℕ → ℕ) → Console → Type 0
Shows crtc c =
    (crtc cursor_h * 2 ^ 8 + crtc cursor_l ≡ c.cursor)
    × (crtc start_addr_h * 2 ^ 8 + crtc start_addr_l ≡ c.current_start_addr)

-- The part of the video memory that belongs to a console.
abbrev pub part : ℕ
part = 5461

-- The state of the screen: every console has its part of the video memory and keeps to it, and the
-- display controller shows the current one.
pub record IsScreen (s : Screen) : Type 0 where
  pub consoles : (i : ℕ) → i < nr_consoles → IsConsole (s.console_table i)
  pub parts :
      (i : ℕ)
      → i < nr_consoles
      → ((s.console_table i).original_addr ≡ i * part) × ((s.console_table i).v_mem_limit ≡ part)
  pub current : s.current_console < nr_consoles
  pub shown : Shows s.crtc (s.console_table s.current_console)

pub small :
    (i : ℕ) (c : Console)
    → i < nr_consoles
    → c.original_addr ≡ i * part
    → c.v_mem_limit ≡ part
    → IsConsole c
    → (c.cursor < 2 ^ 16) × (c.current_start_addr < 2 ^ 16)
small i c lt o l v = ground arith

-- `s'` has `c` for console `con`; the rest of the table, the current console and the memory are as
-- in `s`, and so is what is shown of another console.
pub record Redrawn (s : Screen) (con : ℕ) (c : Console) (s' : Screen) : Type 0 where
  pub own : s'.console_table con ≡ c
  pub others : (i : ℕ) → i ≢ con → s'.console_table i ≡ s.console_table i
  pub current : s'.current_console ≡ s.current_console
  pub memory : s'.vmem ≡ s.vmem
  pub shown_there : con ≢ s.current_console → s'.crtc ≡ s.crtc

pub Redrawn-trans :
    {s s' s'' : Screen} {con : ℕ} {c c' : Console}
    → Redrawn s con c s'
    → Redrawn s' con c' s''
    → Redrawn s con c' s''
Redrawn-trans a b = record {
  own = b.own;
  others = λ i ne. b.others i ne ∙ a.others i ne;
  current = b.current ∙ a.current;
  memory = b.memory ∙ a.memory;
  shown_there = λ ne. b.shown_there (rw a.current ne) ∙ a.shown_there ne;
}

pub with_console-Redrawn :
    (s : Screen) (con : ℕ) (c : Console) → Redrawn s con c (with_console con c s)
with_console-Redrawn s con c = record {
  own = ground arith;
  others = λ i ne. ground arith;
  current = refl;
  memory = refl;
  shown_there = λ ne. refl;
}

pub flush-Redrawn :
    (s : Screen) (con : ℕ) {c : Console} → s.console_table con ≡ c → Redrawn s con c (flush con s)
unfolding flush set_cursor set_video_start_addr
flush-Redrawn s con e = record {
  own = ground arith;
  others = λ i ne. ground arith;
  current = ground arith;
  memory = ground arith;
  shown_there = λ ne. ground arith;
}

pub flush-Shows :
    (s : Screen) (con : ℕ) {c : Console}
    → con ≡ s.current_console
    → s.console_table con ≡ c
    → c.cursor < 2 ^ 16
    → c.current_start_addr < 2 ^ 16
    → Shows (flush con s).crtc c
unfolding flush set_cursor set_video_start_addr
flush-Shows s con now e h h' = ground arith

pub scroll_screen-Redrawn :
    (d : Direction) (s : Screen) (con : ℕ)
    → Redrawn s con (scrolled d (s.console_table con)) (scroll_screen d con s)
unfolding scroll_screen
scroll_screen-Redrawn d s con =
    let c = scrolled d (s.console_table con) in
    let a = with_console-Redrawn s con c in
    Redrawn-trans a (flush-Redrawn (with_console con c s) con a.own)

-- What the loop of `out_char` leaves: the cursor is on the visible screen.
pub record Settled (s : Screen) (con : ℕ) (s' : Screen) : Type 0 where
  pub redrawn : Redrawn s con (s'.console_table con) s'
  pub console : IsConsole (s'.console_table con)
  pub kept :
      ((s'.console_table con).cursor ≡ (s.console_table con).cursor)
      × ((s'.console_table con).original_addr ≡ (s.console_table con).original_addr)
      × ((s'.console_table con).v_mem_limit ≡ (s.console_table con).v_mem_limit)
  pub visible :
      (s'.console_table con).cursor < (s'.console_table con).current_start_addr + screen_size

scroll_down_moves :
    (c : Console)
    → IsConsole c
    → c.current_start_addr + screen_size ≤ c.cursor
    → ((scrolled scr_down c).current_start_addr ≡ c.current_start_addr + screen_width)
      × ((scrolled scr_down c).cursor ≡ c.cursor)
      × ((scrolled scr_down c).original_addr ≡ c.original_addr)
      × ((scrolled scr_down c).v_mem_limit ≡ c.v_mem_limit)
unfolding scrolled
scroll_down_moves c v h = ground arith

pub scroll_loop-Settled :
    (fuel con : ℕ) (s : Screen)
    → IsConsole (s.console_table con)
    → (s.console_table con).cursor < (s.console_table con).current_start_addr + screen_size + fuel
    → Settled s con (scroll_loop fuel con s)
unfolding scroll_loop
scroll_loop-Settled zero con s v h = record {
  redrawn = record {
    own = refl;
    others = λ i ne. refl;
    current = refl;
    memory = refl;
    shown_there = λ ne. refl;
  };
  console = v;
  kept = (refl, refl, refl);
  visible = omega arith;
}
scroll_loop-Settled (suc fuel) con s v h =
    elim (Bool-cases
      (leb ((s.console_table con).current_start_addr + screen_size) (s.console_table con).cursor)) [
        | inr seen ↦
            rw (scroll_loop, seen)
              (record {
                redrawn = record {
                  own = refl;
                  others = λ i ne. refl;
                  current = refl;
                  memory = refl;
                  shown_there = λ ne. refl;
                };
                console = v;
                kept = (refl, refl, refl);
                visible = ground arith;
              })
        | inl hidden ↦
            let r = scroll_screen-Redrawn scr_down s con in
            let (start, same, low, limit) =
              scroll_down_moves (s.console_table con) v (leb→le _ _ hidden) in
            let w = rw (← r.own) at (scrolled-IsConsole scr_down (s.console_table con) v) in
            let t =
              scroll_loop-Settled fuel con (scroll_screen scr_down con s) w
                (rw (r.own) (omega arith)) in
            rw (scroll_loop, hidden)
              (record {
                redrawn = Redrawn-trans r t.redrawn;
                console = t.console;
                kept = (
                  t.kept.0 ∙ ap (λ (c : Console). c.cursor) r.own ∙ same,
                  t.kept.1 ∙ ap (λ (c : Console). c.original_addr) r.own ∙ low,
                  t.kept.2 ∙ ap (λ (c : Console). c.v_mem_limit) r.own ∙ limit,
                );
                visible = t.visible;
              })
      ]
