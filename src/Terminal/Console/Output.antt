-- ===== src/Terminal/Console/Output.antt =====
-- `out_char`, `scroll_screen` and `select_console` of kernel/console.c keep the state of the screen.
use mini_operate_system.Prelude.{
  ℕ, ◌+◌, ◌*◌, ◌≤◌, ◌<◌, ◌≡◌, ◌≢◌, refl, ap, sym, ◌∙◌, ◌⊎◌, inl, inr, arith, ◌==◌, leb, Bool-cases,
}
use mini_operate_system.Terminal.Console.{
  Console, Screen, nr_consoles, screen_size, Direction, scr_up, scr_down, scrolled, with_console,
  scroll_screen, advance, draw, scroll_loop, out_char, select_console, set_cursor,
  set_video_start_addr,
}
use mini_operate_system.Terminal.Console.Bounds.{
  IsConsole, IsScreen, Shows, part, small, Redrawn, Redrawn-trans, flush-Redrawn, flush-Shows,
  scroll_screen-Redrawn, with_console-Redrawn, scroll_loop-Settled, advance-IsConsole,
  scrolled-IsConsole,
}

-- The address lies outside the video memory of console `con`.
abbrev pub Outside : ℕ → ℕ → Type 0
Outside con a = (a < 2 * (con * part)) ⊎ (2 * (con * part + part) ≤ a)

draw-Outside :
    (con ch a : ℕ) (c : Console) (vmem : ℕ → ℕ)
    → IsConsole c
    → c.original_addr ≡ con * part
    → c.v_mem_limit ≡ part
    → Outside con a
    → draw c ch vmem a ≡ vmem a
unfolding draw
draw-Outside con ch a c vmem v low limit out = ground arith

advance-parts :
    (c : Console) (ch : ℕ)
    → ((advance c ch).original_addr ≡ c.original_addr)
      × ((advance c ch).v_mem_limit ≡ c.v_mem_limit)
      × ((advance c ch).current_start_addr ≡ c.current_start_addr)
unfolding advance
advance-parts c ch = ground arith

scrolled-parts :
    (d : Direction) (c : Console)
    → ((scrolled d c).original_addr ≡ c.original_addr)
      × ((scrolled d c).v_mem_limit ≡ c.v_mem_limit)
      × ((scrolled d c).cursor ≡ c.cursor)
unfolding scrolled
scrolled-parts scr_up c = ground arith
scrolled-parts scr_down c = ground arith

-- A screen that differs in one console, which is shown if it is the current one.
Redrawn-IsScreen :
    {s s' : Screen} {con : ℕ} {c : Console}
    → IsScreen s
    → con < nr_consoles
    → Redrawn s con c s'
    → IsConsole c
    → c.original_addr ≡ con * part
    → c.v_mem_limit ≡ part
    → (con ≡ s.current_console → Shows s'.crtc c)
    → IsScreen s'
Redrawn-IsScreen {s} {s'} {con} {c} v lt r w low limit shows = record {
  consoles = λ i h. elim (Bool-cases (i == con)) [
    | inl own ↦ let e : i ≡ con = ground arith in rw (e, r.own) w
    | inr ne ↦ rw (r.others i (ground arith)) (v.consoles i h)
  ];
  parts = λ i h. elim (Bool-cases (i == con)) [
    | inl own ↦ let e : i ≡ con = ground arith in rw (e, r.own) (low, limit)
    | inr ne ↦ rw (r.others i (ground arith)) (v.parts i h)
  ];
  current = rw r.current v.current;
  shown = elim (Bool-cases (s.current_console == con)) [
    | inl own ↦
        let e : s.current_console ≡ con = ground arith in rw (r.current, e, r.own) (shows (sym e))
    | inr ne ↦
        let e : s.current_console ≢ con = ground arith in
        rw (r.current, r.others s.current_console e, r.shown_there (λ eq. e (sym eq))) v.shown
  ];
}

module _ (s : Screen) (con : ℕ) (v : IsScreen s) (lt : con < nr_consoles) where
  abbrev own : Console
  own = s.console_table con

  -- Scrolling a console by hand keeps the state of the screen: each console stays in its part of
  -- the video memory and the display controller shows the current one.
  pub scroll_screen-IsScreen : (d : Direction) → IsScreen (scroll_screen d con s)
  scroll_screen-IsScreen d =
      let r = scroll_screen-Redrawn d s con in
      let c = scrolled d own in
      let w = scrolled-IsConsole d own (v.consoles con lt) in
      let (low, limit, _) = scrolled-parts d own in
      let (low', limit') = v.parts con lt in
      let (h, h') = small con c lt (low ∙ low') (limit ∙ limit') w in
      Redrawn-IsScreen v lt r w (low ∙ low') (limit ∙ limit') (λ e.
        unfold scroll_screen in
        flush-Shows (with_console con c s) con e (with_console-Redrawn s con c).own h h')

  -- What printing a character does.
  pub record Printed (s' : Screen) : Type 0 where
    pub screen : IsScreen s'
    pub visible :
        (s'.console_table con).cursor < (s'.console_table con).current_start_addr + screen_size
    pub others : (i : ℕ) → i ≢ con → s'.console_table i ≡ s.console_table i
    pub outside : (a : ℕ) → Outside con a → s'.vmem a ≡ s.vmem a

  -- Printing any character on a console keeps the state of the screen, leaves the cursor on the
  -- visible screen of that console, and changes no other console and no video memory outside the
  -- console's part. The fuel of the scrolling loop is enough.
  pub out_char-Printed : (ch : ℕ) → Printed (out_char con ch s)
  unfolding out_char
  out_char-Printed ch =
      let c = advance own ch in
      let s0 : Screen = record s { vmem = draw own ch s.vmem } in
      let s1 = with_console con c s0 in
      let r = with_console-Redrawn s0 con c in
      let w = v.consoles con lt in
      let w1 = advance-IsConsole own ch w in
      let (low, limit, start) = advance-parts own ch in
      let (low', limit') = v.parts con lt in
      let near : c.cursor < c.current_start_addr + screen_size + own.v_mem_limit =
        omega (arith, w1.high, w.start_low) in
      let t = scroll_loop-Settled own.v_mem_limit con s1 (rw r.own w1) (rw r.own near) in
      let s2 = scroll_loop own.v_mem_limit con s1 in
      let f = flush-Redrawn s2 con refl in
      let all = Redrawn-trans r (Redrawn-trans t.redrawn f) in
      let low2 = t.kept.1 ∙ ap (λ (x : Console). x.original_addr) r.own ∙ low ∙ low' in
      let limit2 = t.kept.2 ∙ ap (λ (x : Console). x.v_mem_limit) r.own ∙ limit ∙ limit' in
      let (h, h') = small con (s2.console_table con) lt low2 limit2 t.console in
      let v0 : IsScreen s0 = record {
        consoles = v.consoles;
        parts = v.parts;
        current = v.current;
        shown = v.shown;
      } in
      record {
        screen =
            Redrawn-IsScreen v0 lt all t.console low2 limit2
              (λ e. flush-Shows s2 con (e ∙ sym (t.redrawn.current ∙ r.current)) refl h h');
        visible = rw f.own t.visible;
        others = all.others;
        outside = λ a out.
            ap (λ (m : ℕ → ℕ). m a) all.memory ∙ draw-Outside con ch a own s.vmem w low' limit' out;
      }

  -- Switching to a console keeps the state of the screen, whatever the number.
  pub select_console-IsScreen : (nr : ℕ) → IsScreen (select_console nr s)
  unfolding select_console set_cursor set_video_start_addr
  select_console-IsScreen nr = elim (Bool-cases (leb nr_consoles nr)) [
    | inl out ↦ rw out v
    | inr below ↦
        let h : nr < nr_consoles = ground arith in
        let (low, limit) = v.parts nr h in
        let (a, b) = small nr (s.console_table nr) h low limit (v.consoles nr h) in
        rw below (record {
          consoles = v.consoles;
          parts = v.parts;
          current = h;
          shown = (omega arith, omega arith);
        })
  ]
