-- ===== src/Console/Print.antt =====
-- kernel/console.c `out_char`: it ends, and keeps the console well formed.
use oscourse_project.Base.{
  ℕ, suc, ◌+◌, ◌-◌, ◌/◌, ◌%◌, ◌≤◌, ◌≡◌, ◌≢◌, sym, ap, ◌∙◌, true, false, ltb, leb, ◌==◌,
  if◌then◌else◌, arith, Bool-cases, ==→eq, subst, then_of_true, else_of_false, inl, inr, ==-self,
  lt→ltb,
}
use oscourse_project.Act.{ok}
use oscourse_project.Act.Laws.{and_then-ok, assert-ok}
use oscourse_project.Console.{
  Console, Video, scr_size, scr_width, offset, shows, follow_cursor, flush, put_console,
  clear_screen, w_copy, print_at, wrap_console, out_char,
}
use oscourse_project.Console.Scroll.{
  offset_of, IsConsole, rounds_left, follow_cursor_lem, flush-console_table,
}
use oscourse_project.Console.Cursor.{
  behind, next_place, after, at_cursor, after_fields, print_at-console, behind_le, after-IsConsole,
}

rounds_left_le : (con : Console) → IsConsole con → rounds_left con ≤ con.con_size / scr_width
rounds_left_le con w = ground (arith, w)

-- The state behind the character, in front of the wrap.
abbrev printed : (c ch : ℕ) → Video → Video
printed c ch v =
    let r = print_at ch (v.console_table c) v.mem in put_console c r.0 (record v { mem = r.1 })

-- Console `con` when its end is reached.
abbrev restarted : Console → Console
restarted con = record con {
  crtc_start = con.orig;
  cursor = con.orig + (scr_size - scr_width) + offset con.cursor con.orig % scr_width;
  is_full = true;
}

wrap_console-console :
    (c i : ℕ) (v : Video)
    → (wrap_console c v).console_table i ≡ (
        if leb
          (v.console_table c).con_size
          (offset (v.console_table c).cursor (v.console_table c).orig)
        then (if c == i then restarted (v.console_table c) else v.console_table i)
        else v.console_table i)
unfolding wrap_console clear_screen put_console w_copy
wrap_console-console c i v =
    let full =
      leb (v.console_table c).con_size
        (offset (v.console_table c).cursor (v.console_table c).orig) in
    elim (Bool-cases full) [
      | inl e ↦
          ap (λ (u : Video). u.console_table i) (then_of_true _ v e) ∙ sym (then_of_true _ _ e)
      | inr e ↦
          ap (λ (u : Video). u.console_table i) (else_of_false _ v e) ∙ sym (else_of_false _ _ e)
    ]

-- Character and wrap together, on the console itself and on the others.
wrapped_self :
    (c ch : ℕ) (v : Video)
    → IsConsole (v.console_table c)
    → ch ≢ 8
    → (wrap_console c (printed c ch v)).console_table c ≡ after ch (v.console_table c)
unfolding put_console
wrapped_self c ch v w other =
    let con = v.console_table c in
    let pos : ℕ = behind ch (con.cursor - con.orig) in
    let here : (printed c ch v).console_table c ≡ at_cursor con (con.orig + pos) =
      then_of_true _ con (==-self c) ∙ print_at-console ch con v.mem w other in
    let used : offset (con.orig + pos) con.orig ≡ pos =
      omega (arith, behind_le ch con w, w.in_memory) in
    wrap_console-console c c (printed c ch v)
    ∙ (ap
          (λ (k : Console).
            if leb k.con_size (offset k.cursor k.orig)
            then (if c == c then restarted k else k)
            else k)
          here
        ∙ elim (Bool-cases (pos == con.con_size)) [
          | inl e ↦
              let q : pos ≡ con.con_size = ==→eq pos con.con_size e in
              let full : leb con.con_size (offset (con.orig + pos) con.orig) ≡ true =
                ground (arith, q, used) in
              then_of_true _ _ full
              ∙ (then_of_true (restarted (at_cursor con (con.orig + pos))) _ (==-self c)
                  ∙ (ap
                        (λ (n : ℕ). record con {
                          crtc_start = con.orig;
                          cursor = n;
                          is_full = true;
                        })
                        (omega (arith, used, q, w.whole_lines))
                      ∙ sym (then_of_true _ (at_cursor con (con.orig + pos)) e)))
          | inr e ↦
              let on : leb con.con_size (offset (con.orig + pos) con.orig) ≡ false =
                ground (arith, e, used, behind_le ch con w) in
              else_of_false _ _ on ∙ sym (else_of_false _ (at_cursor con (con.orig + pos)) e)
        ])

wrapped_other :
    (c ch i : ℕ) (v : Video)
    → (c == i) ≡ false
    → (wrap_console c (printed c ch v)).console_table i ≡ v.console_table i
unfolding put_console
wrapped_other c ch i v h =
    let kept : (printed c ch v).console_table i ≡ v.console_table i = else_of_false _ _ h in
    let k : Console = (printed c ch v).console_table c in
    wrap_console-console c i (printed c ch v)
    ∙ (elim (Bool-cases (leb k.con_size (offset k.cursor k.orig))) [
      | inl e ↦ then_of_true _ _ e ∙ else_of_false (restarted k) _ h
      | inr e ↦ else_of_false _ _ e
    ]
        ∙ kept)

-- The cursor lies in its console, as the assertions of `out_char` want.
cursor_inside :
    (con : Console) → IsConsole con → ltb (offset con.cursor con.orig) con.con_size ≡ true
cursor_inside con w =
    lt→ltb _ con.con_size (omega (arith, offset_of con w, w.cursor_low, w.cursor_high))

-- On a well-formed console, `out_char` of any character but a backspace ends with no assertion
-- failed: its loop comes to an end within the rounds given. The console stays well formed, with its
-- place in the memory and its size; the cursor stands behind the character, or, where that is the
-- end of the console, at the start of the last line of the first screen; and it is on the screen. The
-- entries of all other consoles in `console_table` are as they were; nothing is said of the video
-- memory, where a line cleared from the cursor on may reach into the next console.
pub out_char_lem :
    (c ch : ℕ) (v : Video)
    → IsConsole (v.console_table c)
    → ch ≢ 8
    → (w : Video) × (out_char c ch v ≡ ok tt w)
      × IsConsole (w.console_table c)
      × (shows (w.console_table c) ≡ true)
      × ((w.console_table c).orig ≡ (v.console_table c).orig)
      × ((w.console_table c).con_size ≡ (v.console_table c).con_size)
      × ((w.console_table c).cursor ≡ (v.console_table c).orig + next_place ch (v.console_table c))
      × ((i : ℕ) → (c == i) ≡ false → w.console_table i ≡ v.console_table i)
unfolding out_char
out_char_lem c ch v form other =
    let con = v.console_table c in
    let v2 : Video = wrap_console c (printed c ch v) in
    let self : v2.console_table c ≡ after ch con = wrapped_self c ch v form other in
    let form2 : IsConsole (v2.console_table c) =
      subst IsConsole (sym self) (after-IsConsole ch con form) in
    let (w, run, f) =
      follow_cursor_lem ((v2.console_table c).con_size / scr_width) c v2 form2
        (rounds_left_le (v2.console_table c) form2) in
    let fields = after_fields ch con in
    let t : (flush c w).console_table ≡ w.console_table = flush-console_table c w in
    let t2 : (flush c w).console_table c ≡ w.console_table c = ap (λ (u : ℕ → Console). u c) t in
    (
      flush c w,
      and_then-ok _ tt v _ (assert-ok _ v (cursor_inside con form))
          ∙ (and_then-ok _ tt v2 _ (assert-ok _ v2 (cursor_inside (v2.console_table c) form2))
              ∙ and_then-ok _ tt w _ (
                  ap (λ (n : ℕ). follow_cursor n c v2)
                    {x = (v2.console_table c).con_size / scr_width + 1}
                    {y = suc ((v2.console_table c).con_size / scr_width)} (omega arith)
                  ∙ run)),
      subst IsConsole (sym t2) f.keeps_form,
      ap shows t2 ∙ f.on_screen,
      ap (λ (k : Console). k.orig) t2
          ∙ (f.same_orig ∙ (ap (λ (k : Console). k.orig) self ∙ fields.0)),
      ap (λ (k : Console). k.con_size) t2
          ∙ (f.same_size ∙ (ap (λ (k : Console). k.con_size) self ∙ fields.1)),
      ap (λ (k : Console). k.cursor) t2
          ∙ (f.same_cursor ∙ (ap (λ (k : Console). k.cursor) self ∙ fields.2)),
      (λ i h. ap (λ (u : ℕ → Console). u i) t ∙ (f.others i h ∙ wrapped_other c ch i v h)),
    )
