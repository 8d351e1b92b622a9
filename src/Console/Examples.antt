-- ===== src/Console/Examples.antt =====
-- Runs of a console: a character, a line feed and the end of the console.
use oscourse_project.Base.{ℕ, ◌≡◌, refl, true, false, ◌+◌, ◌==◌, arith}
use oscourse_project.Console.Scroll.{IsConsole}
use oscourse_project.Console.Cursor.{next_place}
use oscourse_project.Console.Print.{out_char_lem}
use oscourse_project.Act.{Result, ok, stop}
use oscourse_project.Console.{
  shows, Video, out_char, put_console, print_at, wrap_console, clear_screen, w_copy, follow_cursor,
  scroll_screen, scrolled, flush,
}

-- The second console, with its cursor at `cursor`.
abbrev at : (cursor : ℕ) → Video
at cursor = record {
  console_table = λ i. record {
    crtc_start = 5461;
    orig = 5461;
    con_size = 5440;
    cursor = cursor;
    is_full = false;
  };
  current_console = 0;
  disp_pos = 0;
  mem = λ a. 0;
  cursor_reg = 0;
  start_reg = 0;
}

abbrev cursor_after : Result Video (Unit {0}) → ℕ
cursor_after (ok a v) = (v.console_table 1).cursor
cursor_after (stop e) = 0

abbrev start_after : Result Video (Unit {0}) → ℕ
start_after (ok a v) = (v.console_table 1).crtc_start
start_after (stop e) = 0

out_char_letter : cursor_after (out_char 1 b'A' (at 5461)) ≡ 5462
unfolding out_char put_console print_at wrap_console follow_cursor flush
out_char_letter = refl

out_char_line : cursor_after (out_char 1 10 (at 5470)) ≡ 5461 + 80
unfolding out_char put_console print_at wrap_console follow_cursor flush
out_char_line = refl

-- The line feed in the last line of the screen scrolls by a line.
out_char_scroll : start_after (out_char 1 10 (at (5461 + 1990))) ≡ 5461 + 80
unfolding out_char put_console print_at wrap_console follow_cursor flush scroll_screen scrolled
    clear_screen
out_char_scroll = refl

-- The line feed in the last line of the console goes back to its first screen.
out_char_wrap : cursor_after (out_char 1 10 (at (5461 + 5430))) ≡ 5461 + 1920
unfolding out_char put_console print_at wrap_console follow_cursor flush scroll_screen scrolled
    clear_screen w_copy
out_char_wrap = refl

at-IsConsole : IsConsole ((at 5461).console_table 1)
at-IsConsole = record {
  in_memory = omega arith;
  whole_lines = refl;
  a_screen = omega arith;
  start_low = omega arith;
  start_line = refl;
  start_high = omega arith;
  cursor_low = omega arith;
  cursor_high = omega arith;
  not_behind = λ f. omega arith;
}

out_char_lem_example :
    (w : Video) × (out_char 1 b'A' (at 5461) ≡ ok tt w)
    × IsConsole (w.console_table 1)
    × (shows (w.console_table 1) ≡ true)
    × ((w.console_table 1).orig ≡ 5461)
    × ((w.console_table 1).con_size ≡ 5440)
    × ((w.console_table 1).cursor ≡ 5461 + next_place b'A' ((at 5461).console_table 1))
    × ((i : ℕ) → (1 == i) ≡ false → w.console_table i ≡ (at 5461).console_table i)
out_char_lem_example = out_char_lem 1 b'A' (at 5461) at-IsConsole (λ e. omega (arith, e))
