-- ===== src/Keyboard/Rounds.antt =====
-- The loop of `keyboard_read` ends: a round takes at least one byte.
use oscourse_project.Base.{
  ℕ, zero, suc, ◌+◌, ◌≤◌, ◌≡◌, ==→eq, eq→==, refl, Bool, true, false, Option, none, some, List, [],
  ◌∷◌, ◌==◌, if◌then◌else◌, arith, Bool-cases, inl, inr,
}
use oscourse_project.Keyboard.State.{KbInbuf, Keyboard, get_byte_from_kb_buf, set_leds, Tty}
use oscourse_project.Keyboard.Read.{
  Reading, Step, e0, with_byte, next_code, pausebreak_code, printscreen_code, parse, note_state,
  decode, emit, read_round, Result, read_loop, keyboard_read,
}

abbrev bytes : Reading → ℕ
bytes r = r.keyboard.kb_in.count

-- Where the step ends, at most `b` bytes are left.
abbrev AtMost : ℕ → Option Reading → Type 0
AtMost b none = Unit {0}
AtMost b (some r) = bytes r ≤ b

get_byte-count :
    (kb kb' : KbInbuf) (c : ℕ) → get_byte_from_kb_buf kb ≡ some (c, kb') → kb'.count + 1 ≡ kb.count
unfolding get_byte_from_kb_buf
get_byte-count kb kb' c e = ground (arith, e)

AtMost-given :
    (b : ℕ) (f : ℕ → Step) (r : Reading) (o : Option (ℕ × KbInbuf))
    → ((c : ℕ) (kb : KbInbuf)
        → o ≡ some (c, kb)
        → AtMost b (f c (record r { keyboard = record (r.keyboard) { kb_in = kb } })))
    → AtMost b (elim o [
      | none ↦ none
      | some (c, kb) ↦ f c (record r { keyboard = record (r.keyboard) { kb_in = kb } })
    ])
AtMost-given b f r none h = tt
AtMost-given b f r (some (c, kb)) h = h c kb refl

AtMost-with_byte :
    (b : ℕ) (f : ℕ → Step) (r : Reading)
    → bytes r ≤ b + 1
    → ((c : ℕ) (r' : Reading) → bytes r' ≤ b → AtMost b (f c r'))
    → AtMost b (with_byte f r)
AtMost-with_byte b f r h next =
    AtMost-given b f r (get_byte_from_kb_buf r.keyboard.kb_in) (λ c kb e.
      next c (record r { keyboard = record (r.keyboard) { kb_in = kb } })
        (omega (arith, get_byte-count r.keyboard.kb_in kb c e)))

AtMost-seq :
    (b : ℕ) (o : Option Reading) (g : Step)
    → AtMost b o
    → ((r : Reading) → bytes r ≤ b → AtMost b (g r))
    → AtMost b (elim o [ none ↦ none | some r ↦ g r ])
AtMost-seq b none g h next = tt
AtMost-seq b (some r) g h next = next r h

AtMost-if :
    (b : ℕ) (t : Bool) (o o' : Option Reading)
    → AtMost b o
    → AtMost b o'
    → AtMost b (if t then o else o')
AtMost-if b true o o' h h' = h
AtMost-if b false o o' h h' = h'

AtMost-next_code : (b : ℕ) (r : Reading) → bytes r ≤ b + 1 → AtMost b (next_code r)
unfolding next_code
AtMost-next_code b r h =
    AtMost-with_byte b (λ c r'. some (record r' { scan_code = c })) r h (λ c r' h'. h')

AtMost-pausebreak_code :
    (b : ℕ) (cs : List ℕ) (r : Reading) → bytes r ≤ b → AtMost b (pausebreak_code cs r)
unfolding pausebreak_code
AtMost-pausebreak_code b [] r h = h
AtMost-pausebreak_code b (c ∷ cs) r h =
    AtMost-with_byte b (λ a r'. if a == c then pausebreak_code cs r' else some r') r (omega arith)
      (λ a r' h'. AtMost-if b (a == c) _ _ (AtMost-pausebreak_code b cs r' h') h')

AtMost-printscreen_code :
    (b last pressed : ℕ) (r : Reading) → bytes r ≤ b → AtMost b (printscreen_code last pressed r)
unfolding printscreen_code
AtMost-printscreen_code b last pressed r h =
    AtMost-seq b _ _ (AtMost-next_code b (e0 0 r) (omega arith)) (λ r1 h1.
      AtMost-if b (r1.scan_code == 0xE0) _ _
        (AtMost-seq b _ _ (AtMost-next_code b (e0 1 r1) (omega arith)) (λ r2 h2. kept r2 h2)) h1)
  where
    kept :
        (r2 : Reading)
        → bytes r2 ≤ b
        → bytes
            (if r2.scan_code == last then record r2 { key = 0x1D + 0x0100; make = pressed } else r2)
          ≤ b
    kept r2 h2 = ground arith

AtMost-parse : (b : ℕ) (r : Reading) → bytes r ≤ b → AtMost b (parse r)
unfolding parse
AtMost-parse b r h =
    AtMost-if b (r.scan_code == 0xE1) _ _
      (AtMost-pausebreak_code b (0x1D ∷ 0x45 ∷ 0xE1 ∷ 0x9D ∷ 0xC5 ∷ []) r h)
      (AtMost-if b (r.scan_code == 0xE0) _ _
        (AtMost-seq b _ _ (AtMost-next_code b (e0 1 r) (omega arith)) (λ r1 h1.
          AtMost-if b (r1.scan_code == 0x2A) _ _ (AtMost-printscreen_code b 0x37 1 r1 h1)
            (AtMost-if b (r1.scan_code == 0xB7) _ _ (AtMost-printscreen_code b 0xAA 0 r1 h1) h1)))
        h)

note_state-kb_in : (key make : ℕ) (k : Keyboard) → (note_state key make k).kb_in ≡ k.kb_in
unfolding note_state set_leds
note_state-kb_in key make k = ground arith

emit-bytes : (r : Reading) → bytes (emit r) ≡ bytes r
unfolding emit
emit-bytes r = ground arith

decode-bytes : (r : Reading) → bytes (decode r) ≡ bytes r
unfolding decode
decode-bytes r = grind (arith, note_state-kb_in)

AtMost-read_round : (b : ℕ) (r : Reading) → bytes r ≤ b + 1 → AtMost b (read_round r)
unfolding read_round
AtMost-read_round b r h =
    AtMost-seq b _ _
      (AtMost-seq b _ _ (AtMost-next_code b (e0 0 r) h) (λ r1 h1. AtMost-parse b r1 h1))
      (λ r2 h2. kept r2 h2)
  where
    kept : (r2 : Reading) → bytes r2 ≤ b → bytes (emit (decode r2)) ≤ b
    kept r2 h2 = omega (arith, emit-bytes (decode r2), decode-bytes r2)

-- How the loop can end.
abbrev Ends : Result → Type 0
Ends (Result.finished r) = r.keyboard.kb_in.count ≡ 0
Ends Result.waits = Unit {0}
Ends Result.out_of_fuel = ⊥

Ends-after_round :
    (n : ℕ) (g : Reading → Result) (o : Option Reading)
    → AtMost n o
    → ((r : Reading) → bytes r ≤ n → Ends (g r))
    → Ends (elim o [ none ↦ Result.waits | some r ↦ g r ])
Ends-after_round n g none h next = tt
Ends-after_round n g (some r) h next = next r h

read_loop-Ends : (n : ℕ) (r : Reading) → bytes r ≤ n → Ends (read_loop n r)
unfolding read_loop
read_loop-Ends zero r h = rw (eq→== (bytes r) 0 (omega arith)) (omega arith)
read_loop-Ends (suc n) r h = elim (Bool-cases (bytes r == 0)) [
  | inl empty ↦ rw empty (==→eq (bytes r) 0 empty)
  | inr full ↦ rw full (
      Ends-after_round n (read_loop n) (read_round r) (AtMost-read_round n r (omega arith))
        (λ r' h'. read_loop-Ends n r' h'))
]

-- keyboard_read never runs out of rounds.
keyboard_read-Ends : (make : ℕ) (k : Keyboard) (t : Tty) → Ends (keyboard_read make k t)
unfolding keyboard_read
keyboard_read-Ends make k t = read_loop-Ends k.kb_in.count _ (omega arith)
