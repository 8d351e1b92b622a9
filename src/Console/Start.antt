-- ===== src/Console/Start.antt =====
-- kernel/console.c: texts, and the consoles that `init_screen` sets up.
use oscourse_project.Base.{
  ℕ, zero, suc, ◌*◌, ◌<◌, ◌≡◌, ◌≢◌, refl, sym, ap, ◌∙◌, false, List, [], ◌∷◌, ◌==◌, if◌then◌else◌,
  arith, subst, then_of_true, else_of_false, ==-self,
}
use oscourse_project.Act.{ok}
use oscourse_project.Act.Laws.{and_then-ok}
use oscourse_project.Console.{
  Console, Video, put_console, set_cursor, out_text, init_screen, prompt, consoles,
}
use oscourse_project.Console.Scroll.{IsConsole}
use oscourse_project.Console.Print.{out_char_lem}

-- No backspace stands in a text.
abbrev pub Plain : List ℕ → Type 0
Plain [] = Unit {0}
Plain (ch ∷ s) = (ch ≢ 8) × Plain s

-- A text without a backspace is printed to its end, on a console that stays well formed, with its
-- place and size, and the entries of the other consoles are as they were.
pub out_text_lem :
    (c : ℕ) (s : List ℕ) (v : Video)
    → IsConsole (v.console_table c)
    → Plain s
    → (w : Video) × (out_text c s v ≡ ok tt w)
      × IsConsole (w.console_table c)
      × ((w.console_table c).orig ≡ (v.console_table c).orig)
      × ((w.console_table c).con_size ≡ (v.console_table c).con_size)
      × ((i : ℕ) → (c == i) ≡ false → w.console_table i ≡ v.console_table i)
unfolding out_text
out_text_lem c [] v form plain = (v, refl, form, refl, refl, (λ i h. refl))
out_text_lem c (ch ∷ s) v form plain =
    let (v1, run1, form1, on1, orig1, size1, cursor1, others1) = out_char_lem c ch v form plain.0 in
    let (w, run, form2, orig2, size2, others2) = out_text_lem c s v1 form1 plain.1 in
    (
      w,
      and_then-ok _ tt v1 _ run1 ∙ run,
      form2,
      orig2 ∙ orig1,
      size2 ∙ size1,
      (λ i h. others2 i h ∙ others1 i h),
    )

-- The console as `init_screen` makes it, in front of the prompt.
abbrev made : ℕ → Console
made n = record {
  crtc_start = n * 5461;
  orig = n * 5461;
  con_size = 5440;
  cursor = n * 5461;
  is_full = false;
}

made-IsConsole : (n : ℕ) → n < consoles → IsConsole (made n)
made-IsConsole n h = record {
  in_memory = omega (arith, h);
  whole_lines = refl;
  a_screen = omega arith;
  start_low = omega arith;
  start_line = omega arith;
  start_high = omega arith;
  cursor_low = omega arith;
  cursor_high = omega arith;
  not_behind = λ f. omega arith;
}

-- The state in front of the prompt.
abbrev set_up : ℕ → Video → Video
set_up n v = record v { console_table = λ i. if n == i then made n else v.console_table i }

set_up-prompt :
    (n : ℕ) (v : Video)
    → n < consoles
    → (w : Video) × (out_text n (prompt n) (set_up n v) ≡ ok tt w)
      × IsConsole (w.console_table n)
      × ((w.console_table n).orig ≡ n * 5461)
      × ((w.console_table n).con_size ≡ 5440)
      × ((i : ℕ) → (n == i) ≡ false → w.console_table i ≡ v.console_table i)
set_up-prompt n v h =
    let here : (set_up n v).console_table n ≡ made n = then_of_true _ _ (==-self n) in
    let (w, run, form, orig, size, others) =
      out_text_lem n (prompt n) (set_up n v) (subst IsConsole (sym here) (made-IsConsole n h))
        (ground arith) in
    (
      w,
      run,
      form,
      orig ∙ ap (λ (k : Console). k.orig) here,
      size ∙ ap (λ (k : Console). k.con_size) here,
      (λ i q. others i q ∙ else_of_false _ _ q),
    )

-- `init_screen` for a terminal other than the first ends, its prompt printed, and makes a console
-- that is well formed and lies in its own third of the video memory; the entries of the others are as they
-- were.
pub init_screen_lem :
    (n : ℕ) (v : Video)
    → 0 < n
    → n < consoles
    → (w : Video) × (init_screen n v ≡ ok tt w)
      × IsConsole (w.console_table n)
      × ((w.console_table n).orig ≡ n * 5461)
      × ((w.console_table n).con_size ≡ 5440)
      × ((i : ℕ) → (n == i) ≡ false → w.console_table i ≡ v.console_table i)
unfolding init_screen put_console set_cursor
init_screen_lem zero v pos h = absurd (omega arith)
init_screen_lem (suc zero) v pos h =
    let (w, run, form, orig, size, others) = set_up-prompt 1 v h in
    (_, and_then-ok _ tt w _ run, form, orig, size, others)
init_screen_lem (suc (suc zero)) v pos h =
    let (w, run, form, orig, size, others) = set_up-prompt 2 v h in
    (_, and_then-ok _ tt w _ run, form, orig, size, others)
init_screen_lem (suc (suc (suc n))) v pos h = absurd (omega (arith, h))
