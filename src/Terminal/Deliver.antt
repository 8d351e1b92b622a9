-- ===== src/Terminal/Deliver.antt =====
-- kernel/tty.c `tty_dev_write`: a typed line is edited, and reaches the process that waits for it.
use oscourse_project.Base.{
  ℕ, suc, ◌+◌, ◌-◌, ◌%◌, ◌^◌, ◌≤◌, ◌<◌, ◌≡◌, ◌≢◌, refl, sym, ap, ◌∙◌, false, not, ◌||◌, List, [],
  ◌∷◌, length, ◌==◌, arith, ==-self, ne→==, then_of_true, else_of_false, subst,
}
use oscourse_project.Proc.{no_task}
use oscourse_project.Act.{Act, Result, ok, pure}
use oscourse_project.Act.Laws.{and_then-ok, assert-ok}
use oscourse_project.Ring.{next}
use oscourse_project.Keyboard.State.{Tty, tty_in_bytes}
use oscourse_project.Terminal.{
  Terminals, Sent, resume_proc, put_tty, print_char, send_msg, finish, serve_char, take_char,
  write_rounds, tty_dev_write,
}
use oscourse_project.Terminal.Line.{edit, edit_all, Spells, Typing, edited_lem, replaced-Typing}

-- The buffer of the terminal holds the characters of a line, none a line feed, and then a line feed.
abbrev pub HoldsLine : (ibuf : ℕ → ℕ) → (tail : ℕ) → List ℕ → Type 0
HoldsLine ibuf tail [] = ibuf tail % 2 ^ 8 ≡ 10
HoldsLine ibuf tail (ch ∷ line) =
    (ibuf tail % 2 ^ 8 ≡ ch) × (ch ≢ 10) × HoldsLine ibuf (next tty_in_bytes tail) line

length-edit : (ch : ℕ) (b : List ℕ) → length (edit ch b) ≤ length b + 1
length-edit ch [] = ground arith
length-edit ch (c ∷ b) = ground arith

edit_line_feed : (b : List ℕ) → edit 10 b ≡ b
edit_line_feed [] = refl
edit_line_feed (c ∷ b) = refl

-- A round takes the character from the buffer first.
take_char-Typing :
    (i total tail : ℕ) (t0 : Tty) (sent0 : List Sent) (b : List ℕ) (s : Terminals)
    → Typing i total tail t0 sent0 b s
    → Typing i total (next tty_in_bytes tail) t0 sent0 b (take_char i s)
unfolding take_char put_tty
take_char-Typing i total tail t0 sent0 b s w =
    let t = s.tty_table i in
    let t1 : Tty = record t {
      ibuf_tail = next tty_in_bytes t.ibuf_tail;
      ibuf_cnt = t.ibuf_cnt - 1;
    } in
    replaced-Typing i total tail (next tty_in_bytes tail) t0 t1 sent0 b b s (take_char i s)
      (then_of_true t1 t (==-self i)) w.trans w.left_over (ap (next tty_in_bytes) w.same_tail)
      (refl, refl, refl, refl) refl w.spells w

finish_on :
    (i ch : ℕ) (s : Terminals)
    → ch ≢ 10
    → 0 < (s.tty_table i).tty_left_cnt
    → finish i ch s ≡ ok tt s
unfolding finish
finish_on i ch s other more =
    let on : ((ch == 10) || ((s.tty_table i).tty_left_cnt == 0)) ≡ false =
      ground (arith, other, more) in
    ap (λ (m : Act Terminals (Unit {0})). m s) (else_of_false _ (pure tt) on)

-- The state behind the end of a line.
abbrev ended : ℕ → Terminals → Terminals
ended i s =
    let t = s.tty_table i in
    put_tty i (record t { tty_left_cnt = 0 })
      (send_msg (resume_proc t.tty_caller t.tty_procnr t.tty_trans_cnt) (print_char i 10 s))

finish_line :
    (i : ℕ) (s : Terminals)
    → (s.tty_table i).tty_procnr ≢ no_task
    → finish i 10 s ≡ ok tt (ended i s)
unfolding finish print_char
finish_line i s h = and_then-ok _ tt (print_char i 10 s) _ (
    assert-ok (not ((s.tty_table i).tty_procnr == no_task)) (print_char i 10 s) (ground (arith, h)))

-- A character that the process still has room for.
serve_char_lem :
    (i ch total tail : ℕ) (t0 : Tty) (sent0 : List Sent) (b : List ℕ) (s : Terminals)
    → t0.tty_req_buf + total < 2 ^ 32
    → t0.tty_req_buf ≢ 0
    → length b + 1 ≤ total
    → Typing i total tail t0 sent0 b s
    → (u : Terminals) × (serve_char i ch s ≡ finish i ch u)
      × Typing i total tail t0 sent0 (edit ch b) u
unfolding serve_char
serve_char_lem i ch total tail t0 sent0 b s fits there more w =
    let (u, run, w2) = edited_lem i ch total tail t0 sent0 b s fits there more w in
    let on : ((s.tty_table i).tty_left_cnt == 0) ≡ false =
      ne→== (s.tty_table i).tty_left_cnt 0 (omega (arith, w.left_over, more)) in
    (
      u,
      ap (λ (m : Act Terminals (Unit {0})). m s) (else_of_false (pure tt) _ on)
          ∙ and_then-ok _ tt u _ run,
      w2,
    )

-- What the task leaves at the end of a line: the reply to the file system is sent, the bytes stand
-- in the memory, and the terminal wants no more.
pub record Delivered (i : ℕ) (t0 : Tty) (sent0 : List Sent) (b : List ℕ) (u : Terminals)
    : Type 0 where
  pub replied : u.sent ≡ resume_proc t0.tty_caller t0.tty_procnr (length b) ∷ sent0
  pub in_memory : Spells u.mem t0.tty_req_buf b
  pub satisfied : (u.tty_table i).tty_left_cnt ≡ 0

ended-Delivered :
    (i total tail : ℕ) (t0 : Tty) (sent0 : List Sent) (b : List ℕ) (s : Terminals)
    → Typing i total tail t0 sent0 b s
    → Delivered i t0 sent0 b (ended i s)
unfolding put_tty send_msg print_char
ended-Delivered i total tail t0 sent0 b s w =
    let t = s.tty_table i in
    record {
      replied = λ k. resume_proc (w.same_caller k) (w.same_proc k) (w.trans k) ∷ w.same_sent k;
      in_memory = w.spells;
      satisfied =
          ap (λ (x : Tty). x.tty_left_cnt)
            (then_of_true (record t { tty_left_cnt = 0 }) t (==-self i));
    }

-- One round: the character at the tail, served.
abbrev served : (i : ℕ) → Terminals → ℕ → Result Terminals (Unit {0})
served i s ch = serve_char i ch (take_char i s)

write_rounds_lem :
    (i total tail : ℕ) (t0 : Tty) (sent0 : List Sent) (line b : List ℕ) (s : Terminals)
    → t0.tty_req_buf + total < 2 ^ 32
    → t0.tty_req_buf ≢ 0
    → t0.tty_procnr ≢ no_task
    → length b + length line < total
    → HoldsLine t0.ibuf tail line
    → Typing i total tail t0 sent0 b s
    → (u : Terminals) × (write_rounds (suc (length line)) i s ≡ ok tt u)
      × Delivered i t0 sent0 (edit_all line b) u
unfolding write_rounds
write_rounds_lem i total tail t0 sent0 [] b s fits there waits more holds w =
    let s1 : Terminals = take_char i s in
    let here : (s.tty_table i).ibuf (s.tty_table i).ibuf_tail % 2 ^ 8 ≡ 10 =
      (λ k. w.same_ibuf k (w.same_tail k) % 2 ^ 8) ∙ holds in
    let (u, run, w2) =
      serve_char_lem i 10 total (next tty_in_bytes tail) t0 sent0 b s1 fits there
        (omega (arith, more)) (take_char-Typing i total tail t0 sent0 b s w) in
    (
      ended i u,
      and_then-ok _ tt (ended i u) _
          (ap (served i s) here ∙ (run ∙ finish_line i u (λ q. waits (sym w2.same_proc ∙ q)))),
      subst (λ (c : List ℕ). Delivered i t0 sent0 c (ended i u)) (edit_line_feed b)
          (ended-Delivered i total (next tty_in_bytes tail) t0 sent0 (edit 10 b) u w2),
    )
write_rounds_lem i total tail t0 sent0 (ch ∷ line) b s fits there waits more holds w =
    let s1 : Terminals = take_char i s in
    let here : (s.tty_table i).ibuf (s.tty_table i).ibuf_tail % 2 ^ 8 ≡ ch =
      (λ k. w.same_ibuf k (w.same_tail k) % 2 ^ 8) ∙ holds.0 in
    let (u, run, w2) =
      serve_char_lem i ch total (next tty_in_bytes tail) t0 sent0 b s1 fits there
        (omega (arith, more)) (take_char-Typing i total tail t0 sent0 b s w) in
    let (v, run2, d) =
      write_rounds_lem i total (next tty_in_bytes tail) t0 sent0 line (edit ch b) u fits there waits
        (omega (arith, more, length-edit ch b)) holds.2 w2 in
    (
      v,
      and_then-ok _ tt u _ (
            ap (served i s) here
            ∙ (run
                ∙ finish_on i ch u holds.1 (omega (arith, w2.left_over, length-edit ch b, more))))
          ∙ run2,
      d,
    )

-- A process waits for input at a terminal whose buffer holds exactly a line and its line feed, and
-- wants more bytes than the line has. Then tty_dev_write ends with no assertion failed. The line with
-- its backspaces carried out stands in the memory of the process, the file system is told to
-- resume the process with the number of these bytes, and the terminal wants no more.
pub tty_dev_write_lem :
    (i : ℕ) (line : List ℕ) (s : Terminals)
    → HoldsLine (s.tty_table i).ibuf (s.tty_table i).ibuf_tail line
    → (s.tty_table i).ibuf_cnt ≡ length line + 1
    → length line < (s.tty_table i).tty_left_cnt
    → (s.tty_table i).tty_trans_cnt ≡ 0
    → (s.tty_table i).tty_req_buf + (s.tty_table i).tty_left_cnt < 2 ^ 32
    → (s.tty_table i).tty_req_buf ≢ 0
    → (s.tty_table i).tty_procnr ≢ no_task
    → (u : Terminals) × (tty_dev_write i s ≡ ok tt u)
      × Delivered i (s.tty_table i) s.sent (edit_all line []) u
unfolding tty_dev_write
tty_dev_write_lem i line s holds count more fresh fits there waits =
    let t = s.tty_table i in
    let (u, run, d) =
      write_rounds_lem i t.tty_left_cnt t.ibuf_tail t s.sent line [] s fits there waits
        (omega (arith, more)) holds
        (record {
          trans = fresh;
          left_over = omega arith;
          same_buf = refl;
          same_caller = refl;
          same_proc = refl;
          same_tail = refl;
          same_ibuf = refl;
          same_sent = refl;
          spells = tt;
        }) in
    (u, ap (λ (n : ℕ). write_rounds n i s) {y = suc (length line)} (omega (arith, count)) ∙ run, d)
