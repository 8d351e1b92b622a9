-- ===== src/Keyboard/Examples.antt =====
-- Runs of the keyboard code at concrete inputs.
use oscourse_project.Base.{◌≡◌, refl, some, [], arith}
use oscourse_project.Keyboard.State.{
  KbInbuf, Keyboard, Tty, store_code, get_byte_from_kb_buf, put_key, init_keyboard, init_tty,
}
use oscourse_project.Keyboard.Read.{Reading, read_round, keymap_at}
use oscourse_project.Keyboard.Fifo.{
  codes, keys, enqueued, IsKbInbuf, IsTty, store_code_lem, put_key_lem,
}
use oscourse_project.Keyboard.Press.{read_round-press}

-- The buffer after the key A has been pressed.
abbrev one_code : KbInbuf
one_code = record { p_head = 1; p_tail = 0; count = 1; buf = λ _. 0x1E }

abbrev keyboard : Keyboard
keyboard = record {
  kb_in = one_code;
  code_with_e0 = 0;
  shift_l = 0;
  shift_r = 0;
  alt_l = 0;
  alt_r = 0;
  ctrl_l = 0;
  ctrl_r = 0;
  caps_lock = 0;
  num_lock = 1;
  scroll_lock = 0;
  column = 0;
  leds = 2;
}

abbrev tty : Tty
tty = record {
  ibuf = λ _. 0;
  ibuf_head = 0;
  ibuf_tail = 0;
  ibuf_cnt = 0;
  tty_caller = 57;
  tty_procnr = 57;
  tty_req_buf = 0;
  tty_left_cnt = 0;
  tty_trans_cnt = 0;
  console = [];
}

one_code-IsKbInbuf : IsKbInbuf one_code
one_code-IsKbInbuf = record { inside = omega arith; fits = omega arith; meets = refl }

tty-IsTty : IsTty tty
tty-IsTty = record { inside = omega arith; fits = omega arith; meets = refl }

store_code_lem_example :
    IsKbInbuf (store_code 0x9E one_code)
    × (codes (store_code 0x9E one_code) ≡ enqueued 32 0x9E (codes one_code))
store_code_lem_example = store_code_lem 0x9E one_code one_code-IsKbInbuf

put_key_lem_example :
    IsTty (put_key b'a' tty) × (keys (put_key b'a' tty) ≡ enqueued 256 b'a' (keys tty))
put_key_lem_example = put_key_lem b'a' tty tty-IsTty

-- The key A is typed.
abbrev typing : Reading
typing = record { keyboard = keyboard; tty = tty; scan_code = 0; key = 0; make = 0 }

read_round-press_example :
    read_round typing
    ≡ some (record {
      keyboard = record keyboard {
        kb_in = record one_code { p_tail = 1; count = 0 };
        code_with_e0 = 0;
        column = 0;
      };
      tty = put_key (keymap_at 0x1E 0) tty;
      scan_code = 0x1E;
      key = keymap_at 0x1E 0;
      make = 1;
    })
unfolding get_byte_from_kb_buf keymap_at
read_round-press_example =
    read_round-press typing 0x1E (record one_code { p_tail = 1; count = 0 })
      (record {
        no_shift_l = refl;
        no_shift_r = refl;
        no_ctrl_l = refl;
        no_ctrl_r = refl;
        no_alt_l = refl;
        no_alt_r = refl;
        no_caps = refl;
      })
      ((omega arith), (omega arith)) refl (omega arith) (omega arith)

-- `init_keyboard` and `init_tty` leave well-formed, empty buffers.
init_keyboard-IsKbInbuf : (k : Keyboard) → IsKbInbuf (init_keyboard k).kb_in
unfolding init_keyboard
init_keyboard-IsKbInbuf k = record { inside = omega arith; fits = omega arith; meets = refl }

init_tty-IsTty : (t : Tty) → IsTty (init_tty t)
unfolding init_tty
init_tty-IsTty t = record { inside = omega arith; fits = omega arith; meets = refl }
