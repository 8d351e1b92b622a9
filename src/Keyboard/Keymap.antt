-- ===== src/Keyboard/Keymap.antt =====
-- include/sys/keymap.h: `keymap`, a row of three keys for each scan code.
use oscourse_project.Base.{ℕ, List, [], ◌∷◌}
use oscourse_project.Keyboard.Keys.{
  alt_l, alt_r, apps, backspace, caps_lock, ctrl_l, ctrl_r, delete, down, end, enter, esc, f1, f10,
  f11, f12, f2, f3, f4, f5, f6, f7, f8, f9, gui_l, gui_r, home, insert, left, num_lock, pad_dot,
  pad_down, pad_end, pad_enter, pad_home, pad_ins, pad_left, pad_mid, pad_minus, pad_pagedown,
  pad_pageup, pad_plus, pad_right, pad_slash, pad_up, pagedown, pageup, right, scroll_lock, shift_l,
  shift_r, tab, up,
}

-- A key with no code is 0.
abbrev pub keymap : List ℕ
keymap =
    0 ∷ 0 ∷ 0 ∷ esc ∷ esc ∷ 0 ∷ b'1' ∷ b'!' ∷ 0 ∷ b'2' ∷ b'@' ∷ 0 ∷ b'3' ∷ b'#' ∷ 0 ∷ b'4' ∷ b'$'
    ∷ 0 ∷ b'5' ∷ b'%' ∷ 0 ∷ b'6' ∷ b'^' ∷ 0 ∷ b'7' ∷ b'&' ∷ 0 ∷ b'8' ∷ b'*' ∷ 0 ∷ b'9' ∷ b'(' ∷ 0
    ∷ b'0' ∷ b')' ∷ 0 ∷ b'-' ∷ b'_' ∷ 0 ∷ b'=' ∷ b'+' ∷ 0 ∷ backspace ∷ backspace ∷ 0 ∷ tab ∷ tab
    ∷ 0 ∷ b'q' ∷ b'Q' ∷ 0 ∷ b'w' ∷ b'W' ∷ 0 ∷ b'e' ∷ b'E' ∷ 0 ∷ b'r' ∷ b'R' ∷ 0 ∷ b't' ∷ b'T' ∷ 0
    ∷ b'y' ∷ b'Y' ∷ 0 ∷ b'u' ∷ b'U' ∷ 0 ∷ b'i' ∷ b'I' ∷ 0 ∷ b'o' ∷ b'O' ∷ 0 ∷ b'p' ∷ b'P' ∷ 0 ∷ b'['
    ∷ b'{' ∷ 0 ∷ b']' ∷ b'}' ∷ 0 ∷ enter ∷ enter ∷ pad_enter ∷ ctrl_l ∷ ctrl_l ∷ ctrl_r ∷ b'a'
    ∷ b'A' ∷ 0 ∷ b's' ∷ b'S' ∷ 0 ∷ b'd' ∷ b'D' ∷ 0 ∷ b'f' ∷ b'F' ∷ 0 ∷ b'g' ∷ b'G' ∷ 0 ∷ b'h' ∷ b'H'
    ∷ 0 ∷ b'j' ∷ b'J' ∷ 0 ∷ b'k' ∷ b'K' ∷ 0 ∷ b'l' ∷ b'L' ∷ 0 ∷ b';' ∷ b':' ∷ 0 ∷ 39 ∷ b'"' ∷ 0
    ∷ b'`' ∷ b'~' ∷ 0 ∷ shift_l ∷ shift_l ∷ 0 ∷ 92 ∷ b'|' ∷ 0 ∷ b'z' ∷ b'Z' ∷ 0 ∷ b'x' ∷ b'X' ∷ 0
    ∷ b'c' ∷ b'C' ∷ 0 ∷ b'v' ∷ b'V' ∷ 0 ∷ b'b' ∷ b'B' ∷ 0 ∷ b'n' ∷ b'N' ∷ 0 ∷ b'm' ∷ b'M' ∷ 0 ∷ b','
    ∷ b'<' ∷ 0 ∷ b'.' ∷ b'>' ∷ 0 ∷ b'/' ∷ b'?' ∷ pad_slash ∷ shift_r ∷ shift_r ∷ 0 ∷ b'*' ∷ b'*' ∷ 0
    ∷ alt_l ∷ alt_l ∷ alt_r ∷ b' ' ∷ b' ' ∷ 0 ∷ caps_lock ∷ caps_lock ∷ 0 ∷ f1 ∷ f1 ∷ 0 ∷ f2 ∷ f2
    ∷ 0 ∷ f3 ∷ f3 ∷ 0 ∷ f4 ∷ f4 ∷ 0 ∷ f5 ∷ f5 ∷ 0 ∷ f6 ∷ f6 ∷ 0 ∷ f7 ∷ f7 ∷ 0 ∷ f8 ∷ f8 ∷ 0 ∷ f9
    ∷ f9 ∷ 0 ∷ f10 ∷ f10 ∷ 0 ∷ num_lock ∷ num_lock ∷ 0 ∷ scroll_lock ∷ scroll_lock ∷ 0 ∷ pad_home
    ∷ b'7' ∷ home ∷ pad_up ∷ b'8' ∷ up ∷ pad_pageup ∷ b'9' ∷ pageup ∷ pad_minus ∷ b'-' ∷ 0
    ∷ pad_left ∷ b'4' ∷ left ∷ pad_mid ∷ b'5' ∷ 0 ∷ pad_right ∷ b'6' ∷ right ∷ pad_plus ∷ b'+' ∷ 0
    ∷ pad_end ∷ b'1' ∷ end ∷ pad_down ∷ b'2' ∷ down ∷ pad_pagedown ∷ b'3' ∷ pagedown ∷ pad_ins
    ∷ b'0' ∷ insert ∷ pad_dot ∷ b'.' ∷ delete ∷ 0 ∷ 0 ∷ 0 ∷ 0 ∷ 0 ∷ 0 ∷ 0 ∷ 0 ∷ 0 ∷ f11 ∷ f11 ∷ 0
    ∷ f12 ∷ f12 ∷ 0 ∷ 0 ∷ 0 ∷ 0 ∷ 0 ∷ 0 ∷ 0 ∷ 0 ∷ 0 ∷ gui_l ∷ 0 ∷ 0 ∷ gui_r ∷ 0 ∷ 0 ∷ apps ∷ 0 ∷ 0
    ∷ 0 ∷ 0 ∷ 0 ∷ 0 ∷ 0 ∷ 0 ∷ 0 ∷ 0 ∷ 0 ∷ 0 ∷ 0 ∷ 0 ∷ 0 ∷ 0 ∷ 0 ∷ 0 ∷ 0 ∷ 0 ∷ 0 ∷ 0 ∷ 0 ∷ 0 ∷ 0 ∷ 0
    ∷ 0 ∷ 0 ∷ 0 ∷ 0 ∷ 0 ∷ 0 ∷ 0 ∷ 0 ∷ 0 ∷ 0 ∷ 0 ∷ 0 ∷ 0 ∷ 0 ∷ 0 ∷ 0 ∷ 0 ∷ 0 ∷ 0 ∷ 0 ∷ 0 ∷ 0 ∷ 0 ∷ 0
    ∷ 0 ∷ 0 ∷ 0 ∷ 0 ∷ 0 ∷ 0 ∷ 0 ∷ 0 ∷ 0 ∷ 0 ∷ 0 ∷ 0 ∷ 0 ∷ 0 ∷ 0 ∷ 0 ∷ 0 ∷ 0 ∷ 0 ∷ 0 ∷ 0 ∷ 0 ∷ 0 ∷ 0
    ∷ 0 ∷ 0 ∷ 0 ∷ 0 ∷ 0 ∷ 0 ∷ 0 ∷ 0 ∷ 0 ∷ 0 ∷ 0 ∷ 0 ∷ 0 ∷ 0 ∷ 0 ∷ 0 ∷ 0 ∷ 0 ∷ 0 ∷ 0 ∷ 0 ∷ 0 ∷ 0 ∷ 0
    ∷ 0 ∷ 0 ∷ 0 ∷ 0 ∷ []
