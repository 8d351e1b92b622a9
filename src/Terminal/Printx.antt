-- ===== src/Terminal/Printx.antt =====
-- kernel/tty.c `sys_printx`: the system call behind every print of the kernel, `assert` and `panic`
-- included. `text_at` gives the string at a linear address; it lies apart from the video memory.
use oscourse_project.Base.{
  ℕ, zero, suc, ◌+◌, ◌-◌, ◌*◌, ◌%◌, ◌≤◌, ◌<◌, ◌≡◌, ◌⊎◌, ==→eq, refl, sym, ap, ◌∙◌, Bool, true,
  false, ◌&&◌, ◌||◌, Option, none, some, List, [], ◌∷◌, ltb, ◌==◌, if◌then◌else◌, arith, Bool-cases,
  inl, inr, le→ltb, ltb→lt, then_of_true, else_of_false,
}
use oscourse_project.Proc.{nr_tasks}
use oscourse_project.Act.{Act, Result, ok, pure, ◌>>◌}
use oscourse_project.Segment.{poke}
use oscourse_project.Console.Scroll.{IsConsole}
use oscourse_project.Console.Start.{out_text_lem, Plain}
use oscourse_project.Console.{Video, v_mem_base, v_mem_size, scr_width, out_char, out_text}

abbrev pub mag_ch_panic : ℕ
mag_ch_panic = 2

abbrev pub mag_ch_assert : ℕ
mag_ch_assert = 3

-- How a call ends: the machine stands still, with the video memory filled, or the call returns.
pub data Printx : Type 0 where
  halted : Option (ℕ → ℕ) → Printx
  returned : Result Video (Unit {0}) → Printx

abbrev pub red_char : ℕ
red_char = 0x1C

abbrev pub gray_char : ℕ
gray_char = 0x08

-- "while (((int)v - V_MEM_BASE) % (SCR_WIDTH * 16))"; 640 rounds pass a whole such part.
unfoldable pub pad : (n v : ℕ) → (ℕ → ℕ) → ℕ × (ℕ → ℕ)
pad zero v mem = (v, mem)
pad (suc n) v mem =
    let rest = pad n (v + 2) (poke mem (v + 1) gray_char) in
    if (v - v_mem_base) % (scr_width * 16) == 0 then (v, mem) else rest

-- "if (!*q)": at the end of the text, the rest of the part is passed and the text starts again.
unfoldable pub next_text : (q body : List ℕ) → (v : ℕ) → (ℕ → ℕ) → List ℕ × (ℕ × (ℕ → ℕ))
next_text [] body v mem = (body, pad 640 v mem)
next_text (c ∷ q) body v mem = (c ∷ q, (v, mem))

-- The loop over the video memory, from address `v` on; `q` is the rest of the text. An empty text is
-- read past its end.
unfoldable pub fill : (fuel v : ℕ) → (q body : List ℕ) → (ℕ → ℕ) → Option (ℕ → ℕ)
fill zero v q body mem = none
fill (suc n) v [] body mem = none
fill (suc n) v (c ∷ q) body mem =
    let r = next_text q body (v + 2) (poke (poke mem v c) (v + 1) red_char) in
    let rest = fill n r.1.0 r.0 body r.1.1 in
    if ltb v (v_mem_base + v_mem_size) then rest else some mem

-- The last loop of `sys_printx`
unfoldable pub print_text : List ℕ → Act Video (Unit {0})
print_text [] = pure tt
print_text (ch ∷ s) =
    let rest = print_text s in
    if (ch == mag_ch_panic) || (ch == mag_ch_assert) then rest else out_char 0 ch >> rest

-- The test for a panic, or for an assertion that failed in a task; `ready` is `p_proc_ready`.
unfoldable pub stops_machine : (ready : ℕ) → List ℕ → Bool
stops_machine ready [] = false
stops_machine ready (ch ∷ s) = (ch == mag_ch_panic) || ((ch == mag_ch_assert) && ltb ready nr_tasks)

abbrev pub body_of : List ℕ → List ℕ
body_of [] = []
body_of (ch ∷ s) = s

-- `sys_printx`; `la` is the linear address of `s` for the caller. `k_reenter` is unsigned, so the third
-- case of its test is never taken.
unfoldable pub sys_printx : (text_at : ℕ → List ℕ) → (k_reenter ready la s : ℕ) → Video → Printx
sys_printx text_at k_reenter ready la s v =
    let text = text_at (if k_reenter == 0 then la else s) in
    if stops_machine ready text
    then halted (fill (v_mem_size + 1) v_mem_base (body_of text) (body_of text) v.mem)
    else returned (print_text text v)

-- The text without its magic characters.
abbrev pub visible : List ℕ → List ℕ
visible [] = []
visible (ch ∷ s) =
    if (ch == mag_ch_panic) || (ch == mag_ch_assert) then visible s else ch ∷ visible s

print_text-visible : (s : List ℕ) → print_text s ≡ out_text 0 (visible s)
unfolding print_text out_text
print_text-visible [] = refl
print_text-visible (ch ∷ s) = elim (Bool-cases ((ch == mag_ch_panic) || (ch == mag_ch_assert))) [
  | inl e ↦
      then_of_true (print_text s) _ e
      ∙ (print_text-visible s ∙ ap (out_text 0) (sym (then_of_true (visible s) _ e)))
  | inr e ↦
      else_of_false _ (out_char 0 ch >> print_text s) e
      ∙ ((λ i. out_char 0 ch >> print_text-visible s i)
          ∙ ap (out_text 0) (sym (else_of_false (visible s) (ch ∷ visible s) e)))
]

pad-le : (n v : ℕ) (mem : ℕ → ℕ) → v ≤ (pad n v mem).0
unfolding pad
pad-le zero v mem = omega arith
pad-le (suc n) v mem = elim (Bool-cases ((v - v_mem_base) % (scr_width * 16) == 0)) [
  | inl e ↦ omega (arith, ap (λ (r : ℕ × (ℕ → ℕ)). r.0) (then_of_true (v, mem) _ e))
  | inr e ↦ omega (
    arith,
    ap (λ (r : ℕ × (ℕ → ℕ)). r.0)
        (else_of_false (v, mem) (pad n (v + 2) (poke mem (v + 1) gray_char)) e),
    pad-le n (v + 2) (poke mem (v + 1) gray_char),
  )
]

-- With a text that is not empty, the loop passes the whole video memory in as many rounds as it has
-- characters.
fill_lem :
    (n v c d : ℕ) (q body : List ℕ) (mem : ℕ → ℕ)
    → v_mem_base + v_mem_size ≤ v + n * 2
    → (m : ℕ → ℕ) × (fill (suc n) v (c ∷ q) (d ∷ body) mem ≡ some m)
unfolding fill next_text
fill_lem zero v c d q body mem h = (mem, else_of_false _ (some mem) (le→ltb v _ (omega (arith, h))))
fill_lem (suc n) v c d [] body mem h =
    let m1 : ℕ → ℕ = poke (poke mem v c) (v + 1) red_char in
    let (m, run) =
      fill_lem n (pad 640 (v + 2) m1).0 d d body body (pad 640 (v + 2) m1).1
        (omega (arith, h, pad-le 640 (v + 2) m1)) in
    elim (Bool-cases (ltb v (v_mem_base + v_mem_size))) [
      | inl e ↦ (m, then_of_true _ (some mem) e ∙ run)
      | inr e ↦ (mem, else_of_false _ (some mem) e)
    ]
fill_lem (suc n) v c d (b ∷ q) body mem h =
    let (m, run) =
      fill_lem n (v + 2) b d q body (poke (poke mem v c) (v + 1) red_char) (omega (arith, h)) in
    elim (Bool-cases (ltb v (v_mem_base + v_mem_size))) [
      | inl e ↦ (m, then_of_true _ (some mem) e ∙ run)
      | inr e ↦ (mem, else_of_false _ (some mem) e)
    ]

-- The first character asks for a halt: a panic, or an assertion that failed in a task.
abbrev pub Fatal : (ready ch : ℕ) → Type 0
Fatal ready ch = (ch ≡ mag_ch_panic) ⊎ ((ch ≡ mag_ch_assert) × (ready < nr_tasks))

Fatal-stops : (ready ch : ℕ) (s : List ℕ) → Fatal ready ch → stops_machine ready (ch ∷ s) ≡ true
unfolding stops_machine
Fatal-stops ready ch s (inl h) = ground (arith, h)
Fatal-stops ready ch s (inr h) = ground (arith, h)

not_Fatal : (ready ch : ℕ) (s : List ℕ) → ¬ Fatal ready ch → stops_machine ready (ch ∷ s) ≡ false
unfolding stops_machine
not_Fatal ready ch s h = elim (Bool-cases (ch == mag_ch_panic)) [
  | inl e ↦ absurd (h (inl (==→eq ch mag_ch_panic e)))
  | inr e ↦ elim (Bool-cases (ch == mag_ch_assert)) [
    | inl q ↦ elim (Bool-cases (ltb ready nr_tasks)) [
      | inl r ↦ absurd (h (inr (==→eq ch mag_ch_assert q, ltb→lt ready nr_tasks r)))
      | inr r ↦ ground (arith, e, q, r)
    ]
    | inr q ↦ ground (arith, e, q)
  ]
]

-- What the call does with its text.
abbrev printx_of : (ready : ℕ) → Video → List ℕ → Printx
printx_of ready v text =
    if stops_machine ready text
    then halted (fill (v_mem_size + 1) v_mem_base (body_of text) (body_of text) v.mem)
    else returned (print_text text v)

-- A message of panic, or of an assertion that failed while a task ran, halts the machine, whatever
-- mode it was printed in: the loop over the video memory comes to its end. The message has at least
-- one character behind the magic one.
pub sys_printx-halts :
    (text_at : ℕ → List ℕ) (k_reenter ready la s ch d : ℕ) (body : List ℕ) (v : Video)
    → text_at (if k_reenter == 0 then la else s) ≡ ch ∷ d ∷ body
    → Fatal ready ch
    → (m : ℕ → ℕ) × (sys_printx text_at k_reenter ready la s v ≡ halted (some m))
unfolding sys_printx
sys_printx-halts text_at k_reenter ready la s ch d body v here fatal =
    let (m, run) = fill_lem v_mem_size v_mem_base d d body body v.mem (omega arith) in
    (
      m,
      ap (printx_of ready v) here
          ∙ (then_of_true _ (returned (print_text (ch ∷ d ∷ body) v))
                (Fatal-stops ready ch (d ∷ body) fatal)
              ∙ (ap (λ (n : ℕ). halted (fill n v_mem_base (d ∷ body) (d ∷ body) v.mem))
                    {y = suc v_mem_size} (omega arith)
                  ∙ ap halted run)),
    )

-- A message that is neither of panic nor of an assertion that failed while a task ran (one of a user
-- process may be), is printed on the first console without its magic characters, and the call
-- returns. The console is well formed before and after, the entries of the other consoles in
-- `console_table` are as they were, and no backspace stands in the message. Nothing is said of the
-- video memory, where a line cleared from the cursor on may reach into the next console.
pub sys_printx-prints :
    (text_at : ℕ → List ℕ) (k_reenter ready la s ch : ℕ) (body : List ℕ) (v : Video)
    → text_at (if k_reenter == 0 then la else s) ≡ ch ∷ body
    → ¬ Fatal ready ch
    → IsConsole (v.console_table 0)
    → Plain (visible (ch ∷ body))
    → (w : Video) × (sys_printx text_at k_reenter ready la s v ≡ returned (ok tt w))
      × (out_text 0 (visible (ch ∷ body)) v ≡ ok tt w)
      × IsConsole (w.console_table 0)
      × ((i : ℕ) → (0 == i) ≡ false → w.console_table i ≡ v.console_table i)
unfolding sys_printx
sys_printx-prints text_at k_reenter ready la s ch body v here mild form plain =
    let (w, run, form2, orig, size, others) = out_text_lem 0 (visible (ch ∷ body)) v form plain in
    (
      w,
      ap (printx_of ready v) here
          ∙ (else_of_false _ (returned (print_text (ch ∷ body) v)) (not_Fatal ready ch body mild)
              ∙ ap returned
                  (ap (λ (m : Act Video (Unit {0})). m v) (print_text-visible (ch ∷ body)) ∙ run)),
      run,
      form2,
      others,
    )
