-- ===== src/Keyboard/Press.antt =====
-- What a press of a key does.
use oscourse_project.Base.{
  ℕ, ◌<◌, ◌≡◌, ◌≢◌, refl, Option, none, some, if◌then◌else◌, arith, has_flag, ap, ◌∙◌, ne→==,
}
use oscourse_project.Keyboard.Keys
use oscourse_project.Keyboard.State.{
  KbInbuf, Keyboard, get_byte_from_kb_buf, set_leds, in_process, put_key,
}
use oscourse_project.Keyboard.Read.{
  Reading, e0, next_code, parse, keymap_at, column_of, note_state, decode, add_flags, emit,
  read_round,
}

-- No key with a state is held, and Caps Lock is off.
pub record IsPlain (k : Keyboard) : Type 0 where
  pub no_shift_l : k.shift_l ≡ 0
  pub no_shift_r : k.shift_r ≡ 0
  pub no_ctrl_l : k.ctrl_l ≡ 0
  pub no_ctrl_r : k.ctrl_r ≡ 0
  pub no_alt_l : k.alt_l ≡ 0
  pub no_alt_r : k.alt_r ≡ 0
  pub no_caps : k.caps_lock ≡ 0

-- The last round did not end with Pause or PrintScreen.
abbrev pub IsOrdinary : ℕ → Type 0
IsOrdinary key = (key ≢ Keys.pausebreak) × (key ≢ Keys.printscreen)

IsPlain-kb_in :
    (k : Keyboard) (kb : KbInbuf) → IsPlain k → IsPlain (record k { kb_in = kb; code_with_e0 = 0 })
IsPlain-kb_in k kb p = record {
  no_shift_l = p.no_shift_l;
  no_shift_r = p.no_shift_r;
  no_ctrl_l = p.no_ctrl_l;
  no_ctrl_r = p.no_ctrl_r;
  no_alt_l = p.no_alt_l;
  no_alt_r = p.no_alt_r;
  no_caps = p.no_caps;
}

IsPlain-column : (k : Keyboard) → IsPlain k → IsPlain (record k { column = 0 })
IsPlain-column k p = record {
  no_shift_l = p.no_shift_l;
  no_shift_r = p.no_shift_r;
  no_ctrl_l = p.no_ctrl_l;
  no_ctrl_r = p.no_ctrl_r;
  no_alt_l = p.no_alt_l;
  no_alt_r = p.no_alt_r;
  no_caps = p.no_caps;
}

column_of-plain :
    (k : Keyboard) (first : ℕ) → IsPlain k → k.code_with_e0 ≡ 0 → column_of k first ≡ 0
unfolding column_of
column_of-plain k first p z = ground (arith, p.no_shift_l, p.no_shift_r, p.no_caps)

note_state-small : (key make : ℕ) (k : Keyboard) → key < 256 → note_state key make k ≡ k
unfolding note_state
note_state-small key make k h = ground arith

-- The column is worked out before the key is looked up.
found :
    (k : Keyboard) (code : ℕ)
    → IsPlain k
    → k.code_with_e0 ≡ 0
    → keymap_at code (column_of k (keymap_at code 0)) ≡ keymap_at code 0
found k code p z = ap (λ (i : ℕ). keymap_at code i) (column_of-plain k (keymap_at code 0) p z)

module _ (r : Reading) where
  decode-plain :
      IsPlain r.keyboard
      → r.keyboard.code_with_e0 ≡ 0
      → IsOrdinary r.key
      → r.scan_code < 128
      → keymap_at r.scan_code 0 < 256
      → decode r ≡ record r {
        make = 1;
        key = keymap_at r.scan_code 0;
        keyboard = record (r.keyboard) { column = 0 };
      }
  unfolding decode has_flag
  decode-plain p z o h h' =
      rw
        (
          ne→== r.key Keys.pausebreak o.0,
          ne→== r.key Keys.printscreen o.1,
          column_of-plain r.keyboard (keymap_at r.scan_code 0) p z,
          note_state-small (keymap_at r.scan_code 0) _ (record (r.keyboard) { column = 0 }) h',
          making,
        )
        refl
    where
      making : ◌≡◌ {A = ℕ} (if has_flag r.scan_code Keys.flag_break then 0 else 1) 1
      making = ground arith

  emit-plain :
      IsPlain r.keyboard
      → r.make ≡ 1
      → r.key < 256
      → emit r ≡ record r { tty = put_key r.key r.tty }
  unfolding emit add_flags in_process has_flag
  emit-plain p m h =
      ground (arith, p.no_shift_l, p.no_shift_r, p.no_ctrl_l, p.no_ctrl_r, p.no_alt_l, p.no_alt_r)

parse-plain : (r : Reading) → r.scan_code < 128 → parse r ≡ some r
unfolding parse
parse-plain r h =
    rw (ne→== r.scan_code 0xE1 (omega arith), ne→== r.scan_code 0xE0 (omega arith)) refl

module _ (r : Reading) where
  -- The entry that `decode` leaves for a plain key.
  unfoldable pressed : Reading
  pressed = record r {
    make = 1;
    key = keymap_at r.scan_code 0;
    keyboard = record (r.keyboard) { column = 0 };
  }

  emit-decode :
      IsPlain r.keyboard
      → r.keyboard.code_with_e0 ≡ 0
      → IsOrdinary r.key
      → r.scan_code < 128
      → keymap_at r.scan_code 0 < 256
      → emit (decode r) ≡ record r {
        make = 1;
        key = keymap_at r.scan_code 0;
        keyboard = record (r.keyboard) { column = 0 };
        tty = put_key (keymap_at r.scan_code 0) r.tty;
      }
  unfolding pressed
  emit-decode p z o h h' =
      ap emit (decode-plain r p z o h h') ∙ emit-plain pressed (IsPlain-column r.keyboard p) refl h'

next_code-some :
    (r : Reading) (c : ℕ) (kb : KbInbuf)
    → get_byte_from_kb_buf r.keyboard.kb_in ≡ some (c, kb)
    → next_code r ≡ some (record r { keyboard = record (r.keyboard) { kb_in = kb }; scan_code = c })
unfolding next_code
next_code-some r c kb e =
    ap
      (λ (q : Option (ℕ × KbInbuf)). elim q as (λ _. Option Reading) [
        | none ↦ none
        | some (a, b) ↦
            some (record r { keyboard = record (r.keyboard) { kb_in = b }; scan_code = a })
      ])
      e

-- A round after its first byte.
unfoldable rest_of_round : Option Reading → Option Reading
rest_of_round q = elim (elim q as (λ _. Option Reading) [ none ↦ none | some t ↦ parse t ]) [
  | none ↦ none
  | some t ↦ some (emit (decode t))
]

-- In a round of keyboard_read that does not follow Pause or PrintScreen, with no modifier held and
-- Caps Lock off, a press code below 128 whose key in the first column of the keymap is below 256
-- puts that key into the TTY's buffer and changes no modifier and no lock.
pub read_round-press :
    (r : Reading) (c : ℕ) (kb : KbInbuf)
    → IsPlain r.keyboard
    → IsOrdinary r.key
    → get_byte_from_kb_buf r.keyboard.kb_in ≡ some (c, kb)
    → c < 128
    → keymap_at c 0 < 256
    → read_round r
      ≡ some (record {
        keyboard = record (r.keyboard) { kb_in = kb; code_with_e0 = 0; column = 0 };
        tty = put_key (keymap_at c 0) r.tty;
        scan_code = c;
        key = keymap_at c 0;
        make = 1;
      })
unfolding read_round rest_of_round
read_round-press r c kb p o e h h' =
    ap rest_of_round (next_code-some (e0 0 r) c kb e)
    ∙ ap (λ (q : Option Reading). elim q [ none ↦ none | some t ↦ some (emit (decode t)) ])
        (parse-plain start h)
    ∙ ap (λ (t : Reading). some t) (emit-decode start plain refl o h h')
  where
    start : Reading
    start = record r {
      keyboard = record (r.keyboard) { kb_in = kb; code_with_e0 = 0 };
      scan_code = c;
    }

    plain : IsPlain start.keyboard
    plain = IsPlain-kb_in r.keyboard kb p

-- No key changes the state of the right Alt key: pressed or released, it is noted as the left one.
pub note_state-alt_r :
    (key make : ℕ) (k : Keyboard)
    → ((note_state key make k).alt_r ≡ k.alt_r) × ((note_state Keys.alt_r make k).alt_l ≡ make)
unfolding note_state set_leds
note_state-alt_r key make k = (ground arith, refl)
