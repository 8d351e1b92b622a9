-- ===== src/Terminal/Examples.antt =====
-- A line typed at a terminal.
use oscourse_project.Base.{
  ℕ, ◌≡◌, refl, false, some, inr, List, [], ◌∷◌, ◌==◌, if◌then◌else◌, arith,
}
use oscourse_project.Boot.{cleared}
use oscourse_project.Act.{ok}
use oscourse_project.Terminal.{Terminals, tty_dev_write}
use oscourse_project.Console.{Video, out_text}
use oscourse_project.Console.Scroll.{IsConsole}
use oscourse_project.Terminal.Printx.{
  sys_printx, halted, returned, visible, sys_printx-halts, sys_printx-prints,
}
use oscourse_project.Terminal.Line.{edit_all}
use oscourse_project.Terminal.Deliver.{tty_dev_write_lem, Delivered}

-- "ax", a backspace, "b" and a line feed, for process 9, which wants 20 bytes at 0x1000.
abbrev typed_line : Terminals
typed_line = record {
  tty_table = λ i. record {
    ibuf = λ a.
        if a == 255
        then b'a'
        else (if a == 0 then b'x' else (if a == 1 then 8 else (if a == 2 then b'b' else 10)));
    ibuf_head = 4;
    ibuf_tail = 255;
    ibuf_cnt = 5;
    tty_caller = 3;
    tty_procnr = 9;
    tty_req_buf = 0x1000;
    tty_left_cnt = 20;
    tty_trans_cnt = 0;
    console = [];
  };
  table = cleared;
  mem = λ a. 0;
  printed = [];
  sent = [];
  key_pressed = 0;
}

edited_line : edit_all (b'a' ∷ b'x' ∷ 8 ∷ b'b' ∷ []) [] ≡ b'b' ∷ b'a' ∷ []
edited_line = refl

tty_dev_write_lem_example :
    (u : Terminals) × (tty_dev_write 0 typed_line ≡ ok tt u)
    × Delivered 0 (typed_line.tty_table 0) [] (edit_all (b'a' ∷ b'x' ∷ 8 ∷ b'b' ∷ []) []) u
tty_dev_write_lem_example =
    tty_dev_write_lem 0 (b'a' ∷ b'x' ∷ 8 ∷ b'b' ∷ []) typed_line (ground arith) refl (omega arith)
      refl (omega arith) (λ e. omega (arith, e)) (λ e. omega (arith, e))

-- The first console, empty.
abbrev screen : Video
screen = record {
  console_table =
      λ i. record { crtc_start = 0; orig = 0; con_size = 5440; cursor = 0; is_full = false };
  current_console = 0;
  disp_pos = 0;
  mem = λ a. 0;
  cursor_reg = 0;
  start_reg = 0;
}

screen-IsConsole : IsConsole (screen.console_table 0)
screen-IsConsole = record {
  in_memory = omega arith;
  whole_lines = refl;
  a_screen = omega arith;
  start_low = omega arith;
  start_line = refl;
  start_high = omega arith;
  cursor_low = omega arith;
  cursor_high = omega arith;
  not_behind = λ f. omega arith;
}

-- The message of an assertion that failed.
abbrev failed : ℕ → List ℕ
failed a = 3 ∷ b'n' ∷ b'o' ∷ []

-- In the task of the disk it halts the machine.
sys_printx-halts_example : (m : ℕ → ℕ) × (sys_printx failed 0 2 0x1000 0 screen ≡ halted (some m))
sys_printx-halts_example =
    sys_printx-halts failed 0 2 0x1000 0 3 b'n' (b'o' ∷ []) screen refl (inr (refl, omega arith))

-- In a user process it is printed.
sys_printx-prints_example :
    (w : Video) × (sys_printx failed 0 9 0x1000 0 screen ≡ returned (ok tt w))
    × (out_text 0 (visible (failed 0)) screen ≡ ok tt w)
    × IsConsole (w.console_table 0)
    × ((i : ℕ) → (0 == i) ≡ false → w.console_table i ≡ screen.console_table i)
sys_printx-prints_example =
    sys_printx-prints failed 0 9 0x1000 0 3 (b'n' ∷ b'o' ∷ []) screen refl (λ f. ground (arith, f))
      screen-IsConsole (ground arith)
