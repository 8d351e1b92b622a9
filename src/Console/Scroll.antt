-- ===== src/Console/Scroll.antt =====
-- kernel/console.c: the loop of `out_char` that scrolls the screen up to the cursor.
use oscourse_project.Base.{
  ℕ, zero, suc, ◌+◌, ◌-◌, ◌/◌, ◌%◌, ◌^◌, ◌≤◌, ◌<◌, ◌≡◌, ◌⊎◌, refl, sym, ap, ◌∙◌, true, false, leb,
  ◌==◌, if◌then◌else◌, arith, Bool-cases, ==→eq, subst, then_of_true, else_of_false, inl, inr,
  ==-self,
}
use oscourse_project.Act.{Act, ok, pure, change, ◌>>◌}
use oscourse_project.Console.{
  Console, Video, scr_size, scr_width, offset, newest, scr_top, scrolled, shows, up, follow_cursor,
  scroll_screen, flush, put_console, clear_screen, set_cursor, set_video_start_addr,
}

-- A console of whole lines, at least a screen, with the screen at a line of it and the cursor in it;
-- until the console has been full once, the screen does not start behind the cursor.
pub record IsConsole (con : Console) : Type 0 where
  pub in_memory : con.orig + con.con_size < 2 ^ 31
  pub whole_lines : con.con_size % scr_width ≡ 0
  pub a_screen : scr_size ≤ con.con_size
  pub start_low : con.orig ≤ con.crtc_start
  pub start_line : (con.crtc_start - con.orig) % scr_width ≡ 0
  pub start_high : con.crtc_start + scr_size ≤ con.orig + con.con_size
  pub cursor_low : con.orig ≤ con.cursor
  pub cursor_high : con.cursor < con.orig + con.con_size
  pub not_behind : con.is_full ≡ false → con.crtc_start ≤ con.cursor

-- The rounds that bring the screen to the cursor.
abbrev pub rounds_left : Console → ℕ
rounds_left con =
    let line : ℕ = (con.cursor - con.orig) / scr_width in
    let top : ℕ = (con.crtc_start - con.orig) / scr_width in
    if leb con.crtc_start con.cursor
    then line - 24 - top
    else con.con_size / scr_width - 24 - top + (line - 24)

abbrev pub moved : Console → Console
moved con = record con { crtc_start = scrolled up con }

pub offset_of : (con : Console) → IsConsole con → offset con.cursor con.orig ≡ con.cursor - con.orig
offset_of con w = omega (arith, w.in_memory, w.cursor_low, w.cursor_high)

top_of : (con : Console) → IsConsole con → scr_top con ≡ con.crtc_start - con.orig
top_of con w = omega (arith, w.in_memory, w.start_low, w.start_high)

forward :
    (con : Console)
    → scr_top con + scr_size ≤ newest con
    → scr_top con + scr_size < con.con_size
    → scrolled up con ≡ con.crtc_start + scr_width
unfolding scrolled
forward con a b = ground (arith, a, b)

-- Where a scroll takes the screen when the cursor is off it: a line on towards the cursor, or round
-- to the first line.
scrolled-up :
    (con : Console)
    → IsConsole con
    → shows con ≡ false
    → ((con.crtc_start + scr_size ≤ con.cursor) × (scrolled up con ≡ con.crtc_start + scr_width))
      ⊎ ((con.cursor < con.crtc_start)
          × (con.is_full ≡ true)
          × (((con.crtc_start + scr_size ≡ con.orig + con.con_size) × (scrolled up con ≡ con.orig))
              ⊎ ((con.crtc_start + scr_size < con.orig + con.con_size)
                  × (scrolled up con ≡ con.crtc_start + scr_width))))
unfolding scrolled
scrolled-up con w off =
    let used = offset_of con w in
    let top = top_of con w in
    elim (Bool-cases (leb con.crtc_start con.cursor)) [
      | inl e ↦
          let below : con.crtc_start + scr_size ≤ con.cursor = ground (arith, off, e) in
          let a : scr_top con + scr_size ≤ newest con =
            omega (arith, used, top, below, w.start_line, w.start_low) in
          let b : scr_top con + scr_size < con.con_size =
            omega (arith, top, below, w.cursor_high, w.start_low) in
          inl (below, forward con a b)
      | inr e ↦
          let above : con.cursor < con.crtc_start = ground (arith, e) in
          let full : con.is_full ≡ true = elim (Bool-cases con.is_full) [
            | inl f ↦ f
            | inr f ↦ absurd (omega (arith, w.not_behind f, above))
          ] in
          let a : newest con < scr_top con =
            omega (arith, used, top, above, w.start_line, w.cursor_low, w.start_low) in
          inr (
            above,
            full,
            elim (Bool-cases (scr_top con + scr_size == con.con_size)) [
              | inl q ↦ inl (
                omega (arith, ==→eq (scr_top con + scr_size) con.con_size q, top, w.start_low),
                ground (arith, full, a, q),
              )
              | inr q ↦
                  inr
                    (ground (arith, q, top, w.start_low, w.start_high), ground (arith, full, a, q))
            ],
          )
    ]

-- The console with its screen at `start`.
abbrev at_start : Console → ℕ → Console
at_start con start = record con { crtc_start = start }

at_start-IsConsole :
    (con : Console) (start : ℕ)
    → IsConsole con
    → con.orig ≤ start
    → (start - con.orig) % scr_width ≡ 0
    → start + scr_size ≤ con.orig + con.con_size
    → (con.is_full ≡ false → start ≤ con.cursor)
    → IsConsole (at_start con start)
at_start-IsConsole con start w low line high behind = record {
  in_memory = w.in_memory;
  whole_lines = w.whole_lines;
  a_screen = w.a_screen;
  start_low = low;
  start_line = line;
  start_high = high;
  cursor_low = w.cursor_low;
  cursor_high = w.cursor_high;
  not_behind = behind;
}

abbrev Nearer : Console → ℕ → Type 0
Nearer con start =
    IsConsole (at_start con start) × (rounds_left (at_start con start) < rounds_left con)

-- With the cursor off the screen, a scroll keeps the console well formed and brings the screen nearer.
moved-IsConsole : (con : Console) → IsConsole con → shows con ≡ false → Nearer con (scrolled up con)
moved-IsConsole con w off = elim (scrolled-up con w off) [
  | inl (below, e) ↦ subst (Nearer con) (sym e) (
    at_start-IsConsole con (con.crtc_start + scr_width) w (omega (arith, w.start_low))
        (omega (arith, w.start_low, w.start_line))
        (omega (arith, below, w.cursor_high, w.start_low, w.start_line, w.whole_lines))
        (λ f. omega (arith, below)),
    ground (arith, below, w.start_low, w.start_line, w.cursor_low),
  )
  | inr (above, full, inl (last, e)) ↦ subst (Nearer con) (sym e) (
    at_start-IsConsole con con.orig w (omega arith) (omega arith) (omega (arith, w.a_screen))
        (λ f. w.cursor_low),
    ground (arith, above, last, w.whole_lines, w.cursor_low, w.a_screen),
  )
  | inr (above, full, inr (more, e)) ↦ subst (Nearer con) (sym e) (
    at_start-IsConsole con (con.crtc_start + scr_width) w (omega (arith, w.start_low))
        (omega (arith, w.start_low, w.start_line))
        (omega (arith, more, w.start_low, w.start_line, w.whole_lines))
        (λ f. absurd (cc (full, f))),
    ground (arith, above, more, w.whole_lines, w.start_line, w.start_low),
  )
]

pub flush-console_table : (c : ℕ) (v : Video) → (flush c v).console_table ≡ v.console_table
unfolding flush set_cursor set_video_start_addr
flush-console_table c v = elim (Bool-cases (c == v.current_console)) [
  | inl e ↦ ap (λ (u : Video). u.console_table) (then_of_true _ v e)
  | inr e ↦ ap (λ (u : Video). u.console_table) (else_of_false _ v e)
]

-- One round of the loop, with the state behind it.
abbrev scrolled_video : ℕ → Video → Video
scrolled_video c v =
    let w = scroll_screen c up v in clear_screen (w.console_table c).cursor scr_width w

scrolled_video-console :
    (c i : ℕ) (v : Video)
    → (scrolled_video c v).console_table i
      ≡ (if c == i then moved (v.console_table c) else v.console_table i)
unfolding scroll_screen clear_screen put_console
scrolled_video-console c i v =
    ap (λ (t : ℕ → Console). t i)
      (flush-console_table c (put_console c (moved (v.console_table c)) v))

-- What the loop leaves of the consoles: console `c` is well formed, with the cursor where it was and
-- on the screen, and the entries of the others are as they were.
pub record Followed (c : ℕ) (v w : Video) : Type 0 where
  pub keeps_form : IsConsole (w.console_table c)
  pub on_screen : shows (w.console_table c) ≡ true
  pub same_cursor : (w.console_table c).cursor ≡ (v.console_table c).cursor
  pub same_orig : (w.console_table c).orig ≡ (v.console_table c).orig
  pub same_size : (w.console_table c).con_size ≡ (v.console_table c).con_size
  pub others : (i : ℕ) → (c == i) ≡ false → w.console_table i ≡ v.console_table i

abbrev on_again : (n c : ℕ) → Act Video (Unit {0})
on_again n c =
    change (scroll_screen c up)
    >> (change (λ w. clear_screen (w.console_table c).cursor scr_width w) >> follow_cursor n c)

stays :
    (n c : ℕ) (v : Video)
    → IsConsole (v.console_table c)
    → shows (v.console_table c) ≡ true
    → (w : Video) × (follow_cursor (suc n) c v ≡ ok tt w) × Followed c v w
unfolding follow_cursor
stays n c v form e = (
  v,
  ap (λ (m : Act Video (Unit {0})). m v) (then_of_true (pure tt) (on_again n c) e),
  record {
    keeps_form = form;
    on_screen = e;
    same_cursor = refl;
    same_orig = refl;
    same_size = refl;
    others = λ i h. refl;
  },
)

-- With fuel for the rounds that are left, the loop ends.
pub follow_cursor_lem :
    (n c : ℕ) (v : Video)
    → IsConsole (v.console_table c)
    → rounds_left (v.console_table c) ≤ n
    → (w : Video) × (follow_cursor (suc n) c v ≡ ok tt w) × Followed c v w
unfolding follow_cursor
follow_cursor_lem zero c v form fuel = elim (Bool-cases (shows (v.console_table c))) [
  | inl e ↦ stays zero c v form e
  | inr e ↦ absurd (omega (arith, (moved-IsConsole (v.console_table c) form e).1, fuel))
]
follow_cursor_lem (suc n) c v form fuel = elim (Bool-cases (shows (v.console_table c))) [
  | inl e ↦ stays (suc n) c v form e
  | inr e ↦
      let nearer = moved-IsConsole (v.console_table c) form e in
      let v1 : Video = scrolled_video c v in
      let here : v1.console_table c ≡ moved (v.console_table c) =
        scrolled_video-console c c v ∙ then_of_true _ _ (==-self c) in
      let (w, run, f) =
        follow_cursor_lem n c v1 (subst IsConsole (sym here) nearer.0)
          (omega (arith, ap rounds_left here, nearer.1, fuel)) in
      (
        w,
        ap (λ (m : Act Video (Unit {0})). m v) (else_of_false (pure tt) (on_again (suc n) c) e)
            ∙ run,
        record {
          keeps_form = f.keeps_form;
          on_screen = f.on_screen;
          same_cursor = f.same_cursor ∙ ap (λ (k : Console). k.cursor) here;
          same_orig = f.same_orig ∙ ap (λ (k : Console). k.orig) here;
          same_size = f.same_size ∙ ap (λ (k : Console). k.con_size) here;
          others = λ i h. f.others i h ∙ (scrolled_video-console c i v ∙ else_of_false _ _ h);
        },
      )
]
