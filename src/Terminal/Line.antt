-- ===== src/Terminal/Line.antt =====
-- kernel/tty.c: how a typed line reaches the process that reads the terminal.
use oscourse_project.Base.{
  ℕ, ◌+◌, ◌-◌, ◌%◌, ◌^◌, ◌≤◌, ◌<◌, ◌≡◌, ◌≢◌, refl, sym, ap, ◌∙◌, true, false, not, ◌&&◌, List, [],
  ◌∷◌, length, ◌==◌, if◌then◌else◌, arith, Bool-cases, inl, inr, ==-self, ne→==, then_of_true,
  else_of_false, subst,
}
use oscourse_project.Act.{Act, ok, pure}
use oscourse_project.Act.Laws.{and_then-ok, assert-ok}
use oscourse_project.Segment.{poke}
use oscourse_project.Keyboard.State.{Tty}
use oscourse_project.Terminal.{Terminals, Sent, put_tty, print_char, printable, transfer, take_back}

-- A line that is being typed, its last character first: a printable character is put at its end, a
-- backspace takes the last character away, and nothing else has an effect.
abbrev pub edit : (ch : ℕ) → List ℕ → List ℕ
edit ch [] = if printable ch then ch ∷ [] else []
edit ch (c ∷ b) = if printable ch then ch ∷ c ∷ b else (if ch == 8 then b else c ∷ b)

abbrev pub edit_all : List ℕ → List ℕ → List ℕ
edit_all [] b = b
edit_all (ch ∷ s) b = edit_all s (edit ch b)

-- The line stands in the memory from `base` on.
abbrev pub Spells : (ℕ → ℕ) → (base : ℕ) → List ℕ → Type 0
Spells mem base [] = Unit {0}
Spells mem base (c ∷ b) = (mem (base + length b) ≡ c) × Spells mem base b

-- A terminal whose reader wants `total` bytes at `t0.tty_req_buf` and has the line `b` so far.
pub record Typing (i total tail : ℕ) (t0 : Tty) (sent0 : List Sent) (b : List ℕ) (s : Terminals)
    : Type 0 where
  pub trans : (s.tty_table i).tty_trans_cnt ≡ length b
  pub left_over : (s.tty_table i).tty_left_cnt + length b ≡ total
  pub same_buf : (s.tty_table i).tty_req_buf ≡ t0.tty_req_buf
  pub same_caller : (s.tty_table i).tty_caller ≡ t0.tty_caller
  pub same_proc : (s.tty_table i).tty_procnr ≡ t0.tty_procnr
  pub same_tail : (s.tty_table i).ibuf_tail ≡ tail
  pub same_ibuf : (s.tty_table i).ibuf ≡ t0.ibuf
  pub same_sent : s.sent ≡ sent0
  pub spells : Spells s.mem t0.tty_req_buf b

edit-printable : (ch : ℕ) (b : List ℕ) → printable ch ≡ true → edit ch b ≡ ch ∷ b
edit-printable ch [] e = then_of_true (ch ∷ []) [] e
edit-printable ch (c ∷ b) e = then_of_true (ch ∷ c ∷ b) _ e

Spells-poke :
    (mem : ℕ → ℕ) (base a v : ℕ) (b : List ℕ)
    → base + length b ≤ a
    → Spells mem base b
    → Spells (poke mem a v) base b
unfolding poke
Spells-poke mem base a v [] h m = tt
Spells-poke mem base a v (c ∷ b) h m = (
  else_of_false v (mem (base + length b)) (ne→== a (base + length b) (omega (arith, h))) ∙ m.0,
  Spells-poke mem base a v b (omega (arith, h)) m.1,
)

-- The state behind the echo and the transfer of a printable character.
abbrev transferred : (i ch : ℕ) → Terminals → Terminals
transferred i ch s =
    let t = s.tty_table i in
    put_tty i (record t { tty_trans_cnt = t.tty_trans_cnt + 1; tty_left_cnt = t.tty_left_cnt - 1 })
      (record (print_char i ch s) {
        mem = poke s.mem ((t.tty_req_buf + t.tty_trans_cnt) % 2 ^ 32) ch;
      })

transfer_lem :
    (i ch : ℕ) (s : Terminals)
    → (s.tty_table i).tty_req_buf ≢ 0
    → transfer i ch s ≡ ok tt (transferred i ch s)
unfolding transfer print_char
transfer_lem i ch s h =
    and_then-ok _ tt (print_char i ch s) _
      (assert-ok (not ((s.tty_table i).tty_req_buf == 0)) (print_char i ch s) (ground (arith, h)))

-- The terminal's own fields are replaced, and the rest of the line's state is kept.
pub replaced-Typing :
    (i total tail tail2 : ℕ) (t0 t1 : Tty) (sent0 : List Sent) (b c : List ℕ) (s u : Terminals)
    → (u.tty_table i ≡ t1)
    → t1.tty_trans_cnt ≡ length c
    → t1.tty_left_cnt + length c ≡ total
    → t1.ibuf_tail ≡ tail2
    → ((t1.tty_req_buf ≡ (s.tty_table i).tty_req_buf)
        × (t1.tty_caller ≡ (s.tty_table i).tty_caller)
        × (t1.tty_procnr ≡ (s.tty_table i).tty_procnr)
        × (t1.ibuf ≡ (s.tty_table i).ibuf))
    → u.sent ≡ s.sent
    → Spells u.mem t0.tty_req_buf c
    → Typing i total tail t0 sent0 b s
    → Typing i total tail2 t0 sent0 c u
replaced-Typing i total tail tail2 t0 t1 sent0 b c s u here n l k same sent spells w = record {
  trans = ap (λ (x : Tty). x.tty_trans_cnt) here ∙ n;
  left_over = ap (λ (x : Tty). x.tty_left_cnt + length c) here ∙ l;
  same_buf = ap (λ (x : Tty). x.tty_req_buf) here ∙ (same.0 ∙ w.same_buf);
  same_caller = ap (λ (x : Tty). x.tty_caller) here ∙ (same.1 ∙ w.same_caller);
  same_proc = ap (λ (x : Tty). x.tty_procnr) here ∙ (same.2 ∙ w.same_proc);
  same_tail = ap (λ (x : Tty). x.ibuf_tail) here ∙ k;
  same_ibuf = ap (λ (x : Tty). x.ibuf) here ∙ (same.3 ∙ w.same_ibuf);
  same_sent = sent ∙ w.same_sent;
  spells = spells;
}

transferred-Typing :
    (i ch total tail : ℕ) (t0 : Tty) (sent0 : List Sent) (b : List ℕ) (s : Terminals)
    → t0.tty_req_buf + total < 2 ^ 32
    → length b + 1 ≤ total
    → Typing i total tail t0 sent0 b s
    → Typing i total tail t0 sent0 (ch ∷ b) (transferred i ch s)
unfolding put_tty print_char poke
transferred-Typing i ch total tail t0 sent0 b s fits more w =
    let t = s.tty_table i in
    let t1 : Tty = record t {
      tty_trans_cnt = t.tty_trans_cnt + 1;
      tty_left_cnt = t.tty_left_cnt - 1;
    } in
    let here : (transferred i ch s).tty_table i ≡ t1 = then_of_true t1 t (==-self i) in
    let place : (t.tty_req_buf + t.tty_trans_cnt) % 2 ^ 32 ≡ t0.tty_req_buf + length b =
      omega (arith, w.same_buf, w.trans, fits, more) in
    replaced-Typing i total tail tail t0 t1 sent0 b (ch ∷ b) s (transferred i ch s) here
      (omega (arith, w.trans)) (omega (arith, w.left_over, more)) w.same_tail
      (refl, refl, refl, refl) refl
      (subst (λ (a : ℕ). Spells (poke s.mem a ch) t0.tty_req_buf (ch ∷ b)) (sym place)
        (spelled s.mem t0.tty_req_buf ch b w.spells))
      w
  where
    spelled :
        (mem : ℕ → ℕ) (base ch : ℕ) (b : List ℕ)
        → Spells mem base b
        → Spells (poke mem (base + length b) ch) base (ch ∷ b)
    spelled mem base ch b m = (
      then_of_true ch (mem (base + length b)) (==-self (base + length b)),
      Spells-poke mem base (base + length b) ch b (omega arith) m,
    )

-- The state behind a backspace that takes a character back.
abbrev taken_back : (i ch : ℕ) → Terminals → Terminals
taken_back i ch s =
    let t = s.tty_table i in
    put_tty i (record t { tty_trans_cnt = t.tty_trans_cnt - 1; tty_left_cnt = t.tty_left_cnt + 1 })
      (print_char i ch s)

taken_back-Typing :
    (i ch total tail c : ℕ) (t0 : Tty) (sent0 : List Sent) (b : List ℕ) (s : Terminals)
    → Typing i total tail t0 sent0 (c ∷ b) s
    → Typing i total tail t0 sent0 b (taken_back i ch s)
unfolding put_tty print_char
taken_back-Typing i ch total tail c t0 sent0 b s w =
    let t = s.tty_table i in
    let t1 : Tty = record t {
      tty_trans_cnt = t.tty_trans_cnt - 1;
      tty_left_cnt = t.tty_left_cnt + 1;
    } in
    replaced-Typing i total tail tail t0 t1 sent0 (c ∷ b) b s (taken_back i ch s)
      (then_of_true t1 t (==-self i)) (omega (arith, w.trans)) (omega (arith, w.left_over))
      w.same_tail (refl, refl, refl, refl) refl w.spells.1 w

-- What a character does before the test for the end of the line.
abbrev pub edited : (i ch : ℕ) → Act Terminals (Unit {0})
edited i ch s =
    (if printable ch
        then transfer i ch
        else (if (ch == 8) && not ((s.tty_table i).tty_trans_cnt == 0)
            then take_back i ch
            else pure tt))
      s

-- Not printable, and nothing to take back: nothing happens.
not_printed :
    (i ch total tail : ℕ) (t0 : Tty) (sent0 : List Sent) (b : List ℕ) (s : Terminals)
    → printable ch ≡ false
    → Typing i total tail t0 sent0 b s
    → (u : Terminals) × (edited i ch s ≡ ok tt u) × Typing i total tail t0 sent0 (edit ch b) u
unfolding take_back print_char
not_printed i ch total tail t0 sent0 [] s e w =
    let empty : ((ch == 8) && not ((s.tty_table i).tty_trans_cnt == 0)) ≡ false =
      ground (arith, w.trans) in
    (
      s,
      ap (λ (m : Act Terminals (Unit {0})). m s)
          (else_of_false (transfer i ch) _ e ∙ else_of_false (take_back i ch) (pure tt) empty),
      subst (λ (c : List ℕ). Typing i total tail t0 sent0 c s) (sym (else_of_false (ch ∷ []) [] e))
          w,
    )
not_printed i ch total tail t0 sent0 (c ∷ b) s e w = elim (Bool-cases (ch == 8)) [
  | inl q ↦
      let some_left : ((ch == 8) && not ((s.tty_table i).tty_trans_cnt == 0)) ≡ true =
        ground (arith, w.trans, q) in
      (
        taken_back i ch s,
        ap (λ (m : Act Terminals (Unit {0})). m s)
            (else_of_false (transfer i ch) _ e ∙ then_of_true (take_back i ch) (pure tt) some_left),
        subst (λ (k : List ℕ). Typing i total tail t0 sent0 k (taken_back i ch s))
            (sym (else_of_false (ch ∷ c ∷ b) _ e ∙ then_of_true b (c ∷ b) q))
            (taken_back-Typing i ch total tail c t0 sent0 b s w),
      )
  | inr q ↦
      let other : ((ch == 8) && not ((s.tty_table i).tty_trans_cnt == 0)) ≡ false =
        ground (arith, q) in
      (
        s,
        ap (λ (m : Act Terminals (Unit {0})). m s)
            (else_of_false (transfer i ch) _ e ∙ else_of_false (take_back i ch) (pure tt) other),
        subst (λ (k : List ℕ). Typing i total tail t0 sent0 k s)
            (sym (else_of_false (ch ∷ c ∷ b) _ e ∙ else_of_false b (c ∷ b) q)) w,
      )
]

pub edited_lem :
    (i ch total tail : ℕ) (t0 : Tty) (sent0 : List Sent) (b : List ℕ) (s : Terminals)
    → t0.tty_req_buf + total < 2 ^ 32
    → t0.tty_req_buf ≢ 0
    → length b + 1 ≤ total
    → Typing i total tail t0 sent0 b s
    → (u : Terminals) × (edited i ch s ≡ ok tt u) × Typing i total tail t0 sent0 (edit ch b) u
edited_lem i ch total tail t0 sent0 b s fits there more w = elim (Bool-cases (printable ch)) [
  | inl e ↦ (
    transferred i ch s,
    ap (λ (m : Act Terminals (Unit {0})). m s) (then_of_true (transfer i ch) _ e)
        ∙ transfer_lem i ch s (λ q. there (sym w.same_buf ∙ q)),
    subst (λ (c : List ℕ). Typing i total tail t0 sent0 c (transferred i ch s))
        (sym (edit-printable ch b e)) (transferred-Typing i ch total tail t0 sent0 b s fits more w),
  )
  | inr e ↦ not_printed i ch total tail t0 sent0 b s e w
]
