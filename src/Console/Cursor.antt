-- ===== src/Console/Cursor.antt =====
-- kernel/console.c `out_char`: where a character leaves the cursor of its console.
use oscourse_project.Base.{
  ℕ, ◌+◌, ◌-◌, ◌*◌, ◌/◌, ◌≤◌, ◌<◌, ◌≡◌, ◌≢◌, refl, sym, ap, ◌∙◌, Bool, true, false, ◌==◌,
  if◌then◌else◌, arith, Bool-cases, ne→==, subst, then_of_true, else_of_false, inl, inr,
}
use oscourse_project.Console.{Console, scr_size, scr_width, print_at}
use oscourse_project.Console.Scroll.{offset_of, IsConsole}

-- The place behind a character at place `pos` of a console: the start of the next line for a line
-- feed, else the next place.
abbrev pub behind : (ch pos : ℕ) → ℕ
behind ch pos = if ch == 10 then (pos / scr_width + 1) * scr_width else pos + 1

-- Where a character leaves the cursor: behind it, or in the last line of the first screen when that
-- is the end of the console.
abbrev pub next_place : (ch : ℕ) → Console → ℕ
next_place ch con =
    let pos = behind ch (con.cursor - con.orig) in
    if pos == con.con_size then scr_size - scr_width else pos

-- The console in front of the loop.
abbrev pub after : (ch : ℕ) → Console → Console
after ch con =
    let pos = behind ch (con.cursor - con.orig) in
    if pos == con.con_size
    then record con {
      crtc_start = con.orig;
      cursor = con.orig + (scr_size - scr_width);
      is_full = true;
    }
    else record con { cursor = con.orig + pos }

abbrev pub at_cursor : Console → ℕ → Console
at_cursor con cursor = record con { cursor = cursor }

pub after_fields :
    (ch : ℕ) (con : Console)
    → ((after ch con).orig ≡ con.orig)
      × ((after ch con).con_size ≡ con.con_size)
      × ((after ch con).cursor ≡ con.orig + next_place ch con)
after_fields ch con =
    either (behind ch (con.cursor - con.orig) == con.con_size) (behind ch (con.cursor - con.orig))
  where
    either :
        (b : Bool) (pos : ℕ)
        → let k : Console =
            (if b
              then record con {
                crtc_start = con.orig;
                cursor = con.orig + (scr_size - scr_width);
                is_full = true;
              }
              else at_cursor con (con.orig + pos)) in
          (k.orig ≡ con.orig)
          × (k.con_size ≡ con.con_size)
          × (k.cursor ≡ con.orig + (if b then scr_size - scr_width else pos))
    either true pos = (refl, refl, refl)
    either false pos = (refl, refl, refl)

pub print_at-console :
    (ch : ℕ) (con : Console) (mem : ℕ → ℕ)
    → IsConsole con
    → ch ≢ 8
    → (print_at ch con mem).0 ≡ record con { cursor = con.orig + behind ch (con.cursor - con.orig) }
unfolding print_at
print_at-console ch con mem w other = elim (Bool-cases (ch == 10)) [
  | inl e ↦
      ap (λ (r : Console × (ℕ → ℕ)). r.0) (then_of_true (_, mem) _ e)
      ∙ ap (at_cursor con) {y = con.orig + behind ch (con.cursor - con.orig)}
          (ground (arith, e, offset_of con w))
  | inr e ↦
      ap (λ (r : Console × (ℕ → ℕ)). r.0)
        (else_of_false _ _ e
          ∙ else_of_false _ (at_cursor con (con.cursor + 1), _) (ne→== ch 8 other))
      ∙ ap (at_cursor con) {y = con.orig + behind ch (con.cursor - con.orig)}
          (ground (arith, e, w.cursor_low))
]

pub behind_le :
    (ch : ℕ) (con : Console) → IsConsole con → behind ch (con.cursor - con.orig) ≤ con.con_size
behind_le ch con w = ground (arith, w.cursor_low, w.cursor_high, w.whole_lines)

pub after-IsConsole : (ch : ℕ) (con : Console) → IsConsole con → IsConsole (after ch con)
after-IsConsole ch con w =
    let pos : ℕ = behind ch (con.cursor - con.orig) in
    let le : pos ≤ con.con_size = behind_le ch con w in
    let grows : con.cursor < con.orig + pos = ground (arith, w.cursor_low) in
    elim (Bool-cases (pos == con.con_size)) [
      | inl e ↦ subst IsConsole (sym (then_of_true _ (at_cursor con (con.orig + pos)) e)) (record {
        in_memory = w.in_memory;
        whole_lines = w.whole_lines;
        a_screen = w.a_screen;
        start_low = omega arith;
        start_line = omega arith;
        start_high = omega (arith, w.a_screen);
        cursor_low = omega arith;
        cursor_high = omega (arith, w.a_screen);
        not_behind = λ f. absurd (cc);
      })
      | inr e ↦ subst IsConsole (sym (else_of_false _ (at_cursor con (con.orig + pos)) e)) (record {
        in_memory = w.in_memory;
        whole_lines = w.whole_lines;
        a_screen = w.a_screen;
        start_low = w.start_low;
        start_line = w.start_line;
        start_high = w.start_high;
        cursor_low = omega arith;
        cursor_high = ground (arith, e, le);
        not_behind = λ f. omega (arith, w.not_behind f, grows);
      })
    ]
