-- ===== src/Keyboard/Read.antt =====
-- kernel/keyboard.c `keyboard_read`.
use oscourse_project.Base.{
  ℕ, zero, suc, ◌+◌, ◌-◌, ◌*◌, ◌%◌, ◌^◌, Bool, not, ◌&&◌, ◌||◌, Option, none, some, List, [], ◌∷◌,
  leb, ◌==◌, if◌then◌else◌, has_flag, set_flag, get_or,
}
use oscourse_project.Keyboard.Keys
use oscourse_project.Keyboard.Keymap.{keymap}
use oscourse_project.Keyboard.State.{Keyboard, Tty, get_byte_from_kb_buf, set_leds, in_process}

-- The variables of `keyboard_read` with what it changes. `make` starts with any value.
pub record Reading : Type 0 where
  pub keyboard : Keyboard
  pub tty : Tty
  pub scan_code : ℕ
  pub key : ℕ
  pub make : ℕ

-- A step that ends with `none` waits for a byte that has not arrived.
abbrev pub Step : Type 0
Step = Reading → Option Reading

infixl 5 ◌>=>◌
abbrev pub ◌>=>◌ : Step → Step → Step
f >=> g = λ r. elim (f r) [ none ↦ none | some r' ↦ g r' ]

-- A byte, given to the rest.
abbrev pub with_byte : (ℕ → Step) → Step
with_byte f r = elim (get_byte_from_kb_buf r.keyboard.kb_in) [
  | none ↦ none
  | some (c, kb) ↦ f c (record r { keyboard = record (r.keyboard) { kb_in = kb } })
]

-- `scan_code = get_byte_from_kb_buf()`
unfoldable pub next_code : Step
unfolding get_byte_from_kb_buf
next_code = with_byte (λ c r. some (record r { scan_code = c }))

abbrev pub e0 : ℕ → Reading → Reading
e0 v r = record r { keyboard = record (r.keyboard) { code_with_e0 = v } }

abbrev pub set_e0 : ℕ → Step
set_e0 v r = some (e0 v r)

-- The rest of a scan code that starts with 0xE1.
unfoldable pub pausebreak_code : List ℕ → Step
unfolding get_byte_from_kb_buf
pausebreak_code [] r = some (record r { key = Keys.pausebreak })
pausebreak_code (c ∷ cs) r = with_byte (λ b r'. if b == c then pausebreak_code cs r' else some r') r

-- The second half of the scan code of PrintScreen, which ends with `last`.
unfoldable pub printscreen_code : (last pressed : ℕ) → Step
unfolding next_code
printscreen_code last pressed = set_e0 0 >=> next_code >=> λ r.
    if r.scan_code == 0xE0
    then (set_e0 1 >=> next_code >=> λ r'. some (
          if r'.scan_code == last
          then record r' { key = Keys.printscreen; make = pressed }
          else r'))
        r
    else some r

-- "parse the scan code below"
unfoldable pub parse : Step
unfolding pausebreak_code printscreen_code next_code
parse r =
    if r.scan_code == 0xE1
    then pausebreak_code (0x1D ∷ 0x45 ∷ 0xE1 ∷ 0x9D ∷ 0xC5 ∷ []) r
    else (if r.scan_code == 0xE0
        then (set_e0 1 >=> next_code >=> λ r'.
              if r'.scan_code == 0x2A
              then printscreen_code 0x37 1 r'
              else (if r'.scan_code == 0xB7 then printscreen_code 0xAA 0 r' else some r'))
            r
        else some r)

-- The column of `keymap`, where the row starts with `first`.
unfoldable pub column_of : Keyboard → (first : ℕ) → ℕ
column_of k first =
    let shift : Bool = not (k.shift_l == 0) || not (k.shift_r == 0) in
    let caps : Bool =
      if not (k.caps_lock == 0) && (leb b'a' first && leb first b'z') then not shift else shift in
    if k.code_with_e0 == 0 then (if caps then 1 else 0) else 2

abbrev pub flip : ℕ → ℕ
flip v = if v == 0 then 1 else 0

-- `switch(key)` on the keys with a state
unfoldable pub note_state : (key make : ℕ) → Keyboard → Keyboard
unfolding set_leds
note_state key make k =
    if key == Keys.shift_l
    then record k { shift_l = make }
    else (if key == Keys.shift_r
        then record k { shift_r = make }
        else (if key == Keys.ctrl_l
            then record k { ctrl_l = make }
            else (if key == Keys.ctrl_r
                then record k { ctrl_r = make }
                else (if key == Keys.alt_l
                    then record k { alt_l = make }
                    else (if key == Keys.alt_r
                        then record k { alt_l = make }
                        else (if key == Keys.caps_lock && not (make == 0)
                            then set_leds (record k { caps_lock = flip k.caps_lock })
                            else (if key == Keys.num_lock && not (make == 0)
                                then set_leds (record k { num_lock = flip k.num_lock })
                                else (if key == Keys.scroll_lock && not (make == 0)
                                    then set_leds (record k { scroll_lock = flip k.scroll_lock })
                                    else k))))))))

-- `keymap[(scan_code & 0x7F) * MAP_COLS + column]`
unfoldable pub keymap_at : (scan_code column : ℕ) → ℕ
keymap_at scan_code column = get_or keymap (scan_code % 2 ^ 7 * Keys.map_cols + column) 0

-- "if ((key != PAUSEBREAK) && (key != PRINTSCREEN))"
unfoldable pub decode : Reading → Reading
unfolding column_of note_state keymap_at
decode r =
    if r.key == Keys.pausebreak || r.key == Keys.printscreen
    then r
    else (let make : ℕ = if has_flag r.scan_code Keys.flag_break then 0 else 1 in
        let column : ℕ = column_of r.keyboard (keymap_at r.scan_code 0) in
        let key : ℕ = keymap_at r.scan_code column in
        record r {
          make = make;
          key = key;
          keyboard = note_state key make (record (r.keyboard) { column = column });
        })

-- "the value of these keys depends on the Numlock"
unfoldable pub numpad_digit : (num_lock key : ℕ) → ℕ
numpad_digit num_lock key =
    if num_lock == 0
    then (if key == Keys.pad_home
        then Keys.home
        else (if key == Keys.pad_end
            then Keys.end
            else (if key == Keys.pad_pageup
                then Keys.pageup
                else (if key == Keys.pad_pagedown
                    then Keys.pagedown
                    else (if key == Keys.pad_ins
                        then Keys.insert
                        else (if key == Keys.pad_up
                            then Keys.up
                            else (if key == Keys.pad_down
                                then Keys.down
                                else (if key == Keys.pad_left
                                    then Keys.left
                                    else (if key == Keys.pad_right
                                        then Keys.right
                                        else (if key == Keys.pad_dot
                                            then Keys.delete
                                            else key))))))))))
    else (if leb Keys.pad_0 key && leb key Keys.pad_9
        then key - Keys.pad_0 + b'0'
        else (if key == Keys.pad_dot then b'.' else key))

-- "deal with the numpad first", for a key of the numpad
unfoldable pub numpad : (num_lock key : ℕ) → ℕ
unfolding numpad_digit
numpad num_lock key =
    if key == Keys.pad_slash
    then b'/'
    else (if key == Keys.pad_star
        then b'*'
        else (if key == Keys.pad_minus
            then b'-'
            else (if key == Keys.pad_plus
                then b'+'
                else (if key == Keys.pad_enter then Keys.enter else numpad_digit num_lock key))))

-- `key |= state ? flag : 0`
abbrev flag_if : (state flag key : ℕ) → ℕ
flag_if state flag key = if state == 0 then key else set_flag key flag

-- The flags of the keys that are held, and of the numpad.
unfoldable pub add_flags : Keyboard → (pad key : ℕ) → ℕ
add_flags k pad key = flag_if pad Keys.flag_pad (
    flag_if k.alt_r Keys.flag_alt_r (
      flag_if k.alt_l Keys.flag_alt_l (
        flag_if k.ctrl_r Keys.flag_ctrl_r (
          flag_if k.ctrl_l Keys.flag_ctrl_l
            (flag_if k.shift_r Keys.flag_shift_r (flag_if k.shift_l Keys.flag_shift_l key))))))

-- "if (make) { /* Break Code is ignored */"
unfoldable pub emit : Reading → Reading
unfolding numpad add_flags in_process
emit r =
    if r.make == 0
    then r
    else (let pad : Bool = leb Keys.pad_slash r.key && leb r.key Keys.pad_9 in
        let raw : ℕ = if pad then numpad r.keyboard.num_lock r.key else r.key in
        let key : ℕ = add_flags r.keyboard (if pad then 1 else 0) raw in
        record r { key = key; tty = in_process key r.tty })

-- The body of the loop. `key` and `make` keep their values from one round to the next.
unfoldable pub read_round : Step
unfolding next_code parse decode emit
read_round = set_e0 0 >=> next_code >=> parse >=> λ r. some (emit (decode r))

-- How `keyboard_read` ends.
pub data Result : Type 0 where
  finished : Reading → Result
  waits out_of_fuel : Result

-- `while (kb_in.count > 0)`
unfoldable pub read_loop : (fuel : ℕ) → Reading → Result
read_loop zero r = if r.keyboard.kb_in.count == 0 then Result.finished r else Result.out_of_fuel
read_loop (suc n) r =
    if r.keyboard.kb_in.count == 0
    then Result.finished r
    else elim (read_round r) [ none ↦ Result.waits | some r' ↦ read_loop n r' ]

-- `keyboard_read`, which starts with `key` 0. A round takes a byte, so the loop has at most as many
-- rounds as there are bytes.
unfoldable pub keyboard_read : (make : ℕ) → Keyboard → Tty → Result
keyboard_read make k t =
    read_loop k.kb_in.count (record { keyboard = k; tty = t; scan_code = 0; key = 0; make = make })
