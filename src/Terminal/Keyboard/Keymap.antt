-- ===== src/Terminal/Keyboard/Keymap.antt =====
-- The table of include/keymap.h, a row of `map_cols` keys for each scan code: plain, with shift,
-- after 0xE0. A character is its ASCII code.
use mini_operate_system.Prelude.{ℕ, List, [], ◌∷◌}
use mini_operate_system.Terminal.Keyboard.Keys.{
  alt_l, alt_r, apps, backspace, caps_lock, ctrl_l, ctrl_r, delete, down, end, enter, esc, f1, f10,
  f11, f12, f2, f3, f4, f5, f6, f7, f8, f9, gui_l, gui_r, home, insert, left, num_lock, pad_dot,
  pad_down, pad_end, pad_enter, pad_home, pad_ins, pad_left, pad_mid, pad_minus, pad_pagedown,
  pad_pageup, pad_plus, pad_right, pad_slash, pad_up, pagedown, pageup, right, scroll_lock, shift_l,
  shift_r, tab, up,
}

abbrev pub map_cols : ℕ
map_cols = 3

abbrev pub keymap : List ℕ
keymap =
    0 ∷ 0 ∷ 0 ∷ esc ∷ esc ∷ 0 ∷ 49 ∷ 33 ∷ 0 ∷ 50 ∷ 64 ∷ 0 ∷ 51 ∷ 35 ∷ 0 ∷ 52 ∷ 36 ∷ 0 ∷ 53 ∷ 37 ∷ 0
    ∷ 54 ∷ 94 ∷ 0 ∷ 55 ∷ 38 ∷ 0 ∷ 56 ∷ 42 ∷ 0 ∷ 57 ∷ 40 ∷ 0 ∷ 48 ∷ 41 ∷ 0 ∷ 45 ∷ 95 ∷ 0 ∷ 61 ∷ 43
    ∷ 0 ∷ backspace ∷ backspace ∷ 0 ∷ tab ∷ tab ∷ 0 ∷ 113 ∷ 81 ∷ 0 ∷ 119 ∷ 87 ∷ 0 ∷ 101 ∷ 69 ∷ 0
    ∷ 114 ∷ 82 ∷ 0 ∷ 116 ∷ 84 ∷ 0 ∷ 121 ∷ 89 ∷ 0 ∷ 117 ∷ 85 ∷ 0 ∷ 105 ∷ 73 ∷ 0 ∷ 111 ∷ 79 ∷ 0 ∷ 112
    ∷ 80 ∷ 0 ∷ 91 ∷ 123 ∷ 0 ∷ 93 ∷ 125 ∷ 0 ∷ enter ∷ enter ∷ pad_enter ∷ ctrl_l ∷ ctrl_l ∷ ctrl_r
    ∷ 97 ∷ 65 ∷ 0 ∷ 115 ∷ 83 ∷ 0 ∷ 100 ∷ 68 ∷ 0 ∷ 102 ∷ 70 ∷ 0 ∷ 103 ∷ 71 ∷ 0 ∷ 104 ∷ 72 ∷ 0 ∷ 106
    ∷ 74 ∷ 0 ∷ 107 ∷ 75 ∷ 0 ∷ 108 ∷ 76 ∷ 0 ∷ 59 ∷ 58 ∷ 0 ∷ 39 ∷ 34 ∷ 0 ∷ 96 ∷ 126 ∷ 0 ∷ shift_l
    ∷ shift_l ∷ 0 ∷ 92 ∷ 124 ∷ 0 ∷ 122 ∷ 90 ∷ 0 ∷ 120 ∷ 88 ∷ 0 ∷ 99 ∷ 67 ∷ 0 ∷ 118 ∷ 86 ∷ 0 ∷ 98
    ∷ 66 ∷ 0 ∷ 110 ∷ 78 ∷ 0 ∷ 109 ∷ 77 ∷ 0 ∷ 44 ∷ 60 ∷ 0 ∷ 46 ∷ 62 ∷ 0 ∷ 47 ∷ 63 ∷ pad_slash
    ∷ shift_r ∷ shift_r ∷ 0 ∷ 42 ∷ 42 ∷ 0 ∷ alt_l ∷ alt_l ∷ alt_r ∷ 32 ∷ 32 ∷ 0 ∷ caps_lock
    ∷ caps_lock ∷ 0 ∷ f1 ∷ f1 ∷ 0 ∷ f2 ∷ f2 ∷ 0 ∷ f3 ∷ f3 ∷ 0 ∷ f4 ∷ f4 ∷ 0 ∷ f5 ∷ f5 ∷ 0 ∷ f6 ∷ f6
    ∷ 0 ∷ f7 ∷ f7 ∷ 0 ∷ f8 ∷ f8 ∷ 0 ∷ f9 ∷ f9 ∷ 0 ∷ f10 ∷ f10 ∷ 0 ∷ num_lock ∷ num_lock ∷ 0
    ∷ scroll_lock ∷ scroll_lock ∷ 0 ∷ pad_home ∷ 55 ∷ home ∷ pad_up ∷ 56 ∷ up ∷ pad_pageup ∷ 57
    ∷ pageup ∷ pad_minus ∷ 45 ∷ 0 ∷ pad_left ∷ 52 ∷ left ∷ pad_mid ∷ 53 ∷ 0 ∷ pad_right ∷ 54 ∷ right
    ∷ pad_plus ∷ 43 ∷ 0 ∷ pad_end ∷ 49 ∷ end ∷ pad_down ∷ 50 ∷ down ∷ pad_pagedown ∷ 51 ∷ pagedown
    ∷ pad_ins ∷ 48 ∷ insert ∷ pad_dot ∷ 46 ∷ delete ∷ 0 ∷ 0 ∷ 0 ∷ 0 ∷ 0 ∷ 0 ∷ 0 ∷ 0 ∷ 0 ∷ f11 ∷ f11
    ∷ 0 ∷ f12 ∷ f12 ∷ 0 ∷ 0 ∷ 0 ∷ 0 ∷ 0 ∷ 0 ∷ 0 ∷ 0 ∷ 0 ∷ gui_l ∷ 0 ∷ 0 ∷ gui_r ∷ 0 ∷ 0 ∷ apps ∷ 0
    ∷ 0 ∷ 0 ∷ 0 ∷ 0 ∷ 0 ∷ 0 ∷ 0 ∷ 0 ∷ 0 ∷ 0 ∷ 0 ∷ 0 ∷ 0 ∷ 0 ∷ 0 ∷ 0 ∷ 0 ∷ 0 ∷ 0 ∷ 0 ∷ 0 ∷ 0 ∷ 0 ∷ 0
    ∷ 0 ∷ 0 ∷ 0 ∷ 0 ∷ 0 ∷ 0 ∷ 0 ∷ 0 ∷ 0 ∷ 0 ∷ 0 ∷ 0 ∷ 0 ∷ 0 ∷ 0 ∷ 0 ∷ 0 ∷ 0 ∷ 0 ∷ 0 ∷ 0 ∷ 0 ∷ 0 ∷ 0
    ∷ 0 ∷ 0 ∷ 0 ∷ 0 ∷ 0 ∷ 0 ∷ 0 ∷ 0 ∷ 0 ∷ 0 ∷ 0 ∷ 0 ∷ 0 ∷ 0 ∷ 0 ∷ 0 ∷ 0 ∷ 0 ∷ 0 ∷ 0 ∷ 0 ∷ 0 ∷ 0 ∷ 0
    ∷ 0 ∷ 0 ∷ 0 ∷ 0 ∷ 0 ∷ 0 ∷ 0 ∷ 0 ∷ 0 ∷ 0 ∷ 0 ∷ 0 ∷ 0 ∷ 0 ∷ 0 ∷ 0 ∷ 0 ∷ 0 ∷ 0 ∷ 0 ∷ 0 ∷ 0 ∷ 0 ∷ 0
    ∷ 0 ∷ 0 ∷ 0 ∷ 0 ∷ 0 ∷ []
