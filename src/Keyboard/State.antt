-- ===== src/Keyboard/State.antt =====
-- The state of kernel/keyboard.c and of a TTY of kernel/tty.c, with the ring buffers of both.
use oscourse_project.Base.{
  ℕ, ◌+◌, ◌-◌, ◌*◌, ◌%◌, ◌^◌, Bool, not, ◌&&◌, ◌||◌, Option, none, some, List, ◌∷◌, ltb, leb, ◌==◌,
  if◌then◌else◌, has_flag,
}
use oscourse_project.Proc.{no_task}
use oscourse_project.Segment.{poke}
use oscourse_project.Ring.{next}
use oscourse_project.Keyboard.Keys

-- `struct kb_inbuf`: the pointers are indices of `buf`.
pub record KbInbuf : Type 0 where
  pub p_head : ℕ
  pub p_tail : ℕ
  pub count : ℕ
  pub buf : ℕ → ℕ

-- The variables of keyboard.c, and the byte last sent to the leds.
pub record Keyboard : Type 0 where
  pub kb_in : KbInbuf
  pub code_with_e0 : ℕ
  pub shift_l : ℕ
  pub shift_r : ℕ
  pub alt_l : ℕ
  pub alt_r : ℕ
  pub ctrl_l : ℕ
  pub ctrl_r : ℕ
  pub caps_lock : ℕ
  pub num_lock : ℕ
  pub scroll_lock : ℕ
  pub column : ℕ
  pub leds : ℕ

-- What a key asks of console.c: `scroll_screen` with its direction, or `select_console`.
pub data Request : Type 0 where
  scroll_dn scroll_up : Request
  select_console : ℕ → Request

-- `TTY`. `console` is what has been asked of the console, the last first.
pub record Tty : Type 0 where
  pub ibuf : ℕ → ℕ
  pub ibuf_head : ℕ
  pub ibuf_tail : ℕ
  pub ibuf_cnt : ℕ
  pub tty_caller : ℕ
  pub tty_procnr : ℕ
  pub tty_req_buf : ℕ
  pub tty_left_cnt : ℕ
  pub tty_trans_cnt : ℕ
  pub console : List Request

abbrev pub tty_in_bytes : ℕ
tty_in_bytes = 256

-- `keyboard_handler`, without `key_pressed`, which it sets
unfoldable pub store_code : ℕ → KbInbuf → KbInbuf
unfolding poke
store_code scan_code kb =
    if ltb kb.count Keys.kb_in_bytes
    then record kb {
      buf = poke kb.buf kb.p_head scan_code;
      p_head = next Keys.kb_in_bytes kb.p_head;
      count = kb.count + 1;
    }
    else kb

-- `get_byte_from_kb_buf`. Where the buffer is empty it waits for an interrupt: `none`.
unfoldable pub get_byte_from_kb_buf : KbInbuf → Option (ℕ × KbInbuf)
get_byte_from_kb_buf kb =
    if kb.count == 0
    then none
    else some (
      kb.buf kb.p_tail,
      record kb { p_tail = next Keys.kb_in_bytes kb.p_tail; count = kb.count - 1 },
    )

-- `set_leds`: the byte that it sends.
unfoldable pub set_leds : Keyboard → Keyboard
set_leds k = record k { leds = (k.caps_lock * 4 + k.num_lock * 2 + k.scroll_lock) % 2 ^ 8 }

-- `init_keyboard`, without the interrupt controller
unfoldable pub init_keyboard : Keyboard → Keyboard
unfolding set_leds
init_keyboard k = set_leds (record k {
  kb_in = record (k.kb_in) { count = 0; p_head = 0; p_tail = 0 };
  shift_l = 0;
  shift_r = 0;
  alt_l = 0;
  alt_r = 0;
  ctrl_l = 0;
  ctrl_r = 0;
  caps_lock = 0;
  num_lock = 1;
  scroll_lock = 0;
  column = 0;
})

-- `init_tty`, without the screen
unfoldable pub init_tty : Tty → Tty
init_tty t = record t {
  ibuf_cnt = 0;
  ibuf_head = 0;
  ibuf_tail = 0;
  tty_caller = no_task;
  tty_procnr = no_task;
  tty_req_buf = 0;
  tty_left_cnt = 0;
  tty_trans_cnt = 0;
}

-- `put_key`
unfoldable pub put_key : ℕ → Tty → Tty
unfolding poke
put_key key t =
    if ltb t.ibuf_cnt tty_in_bytes
    then record t {
      ibuf = poke t.ibuf t.ibuf_head key;
      ibuf_head = next tty_in_bytes t.ibuf_head;
      ibuf_cnt = t.ibuf_cnt + 1;
    }
    else t

-- Either of the two flags is set.
abbrev pub either_flag : (key flag flag' : ℕ) → Bool
either_flag key flag flag' = has_flag key flag || has_flag key flag'

-- `in_process`
unfoldable pub in_process : ℕ → Tty → Tty
unfolding put_key
in_process key t =
    let raw_code : ℕ = key % 2 ^ 9 in
    let shift : Bool = either_flag key Keys.flag_shift_l Keys.flag_shift_r in
    let alt : Bool = either_flag key Keys.flag_alt_l Keys.flag_alt_r in
    if not (has_flag key Keys.flag_ext)
    then put_key key t
    else (if raw_code == Keys.enter
        then put_key b'\n' t
        else (if raw_code == Keys.backspace
            then put_key b'\x08' t
            else (if raw_code == Keys.up
                then (if shift then record t { console = Request.scroll_dn ∷ t.console } else t)
                else (if raw_code == Keys.down
                    then (if shift then record t { console = Request.scroll_up ∷ t.console } else t)
                    else (if leb Keys.f1 raw_code && leb raw_code Keys.f12
                        then (if alt
                            then record t {
                              console = Request.select_console (raw_code - Keys.f1) ∷ t.console;
                            }
                            else t)
                        else t)))))
