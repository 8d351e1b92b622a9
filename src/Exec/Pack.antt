-- ===== src/Exec/Pack.antt =====
-- The stack of arguments that `execv` of lib/exec.c builds.
use oscourse_project.Base.{
  ℕ, zero, suc, ◌+◌, ◌*◌, ◌^◌, ◌≤◌, ◌<◌, ◌≡◌, ◌⊎◌, refl, ap, ◌∙◌, List, [], ◌∷◌, length, arith,
  ne→==, ==-self, lt→ltb, then_of_true, else_of_false,
}
use oscourse_project.Act.{Act, ok, ◌>>=◌}
use oscourse_project.Act.Laws.{and_then-ok, assert-ok}
use oscourse_project.Segment.{poke, poke_int, load_int}
use oscourse_project.Segment.Laws.{load_int-poke_int, Apart}
use oscourse_project.Exec.{
  Bytes, table_len, store_string, store_args, pack_args, proc_origin_stack, setup_args,
}
use oscourse_project.Exec.Layout.{
  TextAt, Argv, window, TextAt-same, load_int-same, poke_int-outside, setup_args_lem,
}

-- The bytes of the strings with their zeros.
abbrev pub strings : List (List ℕ) → ℕ
strings [] = 0
strings (s ∷ argv) = length s + 1 + strings argv

store_string-outside :
    (a : ℕ) (s : List ℕ) (mem : Bytes) (b : ℕ)
    → (b < a) ⊎ (a + length s < b)
    → store_string a s mem b ≡ mem b
unfolding store_string poke
store_string-outside a [] mem b h = else_of_false 0 (mem b) (ne→== a b (omega (arith, h)))
store_string-outside a (c ∷ s) mem b h =
    store_string-outside (a + 1) s (poke mem a c) b (omega (arith, h))
    ∙ else_of_false c (mem b) (ne→== a b (omega (arith, h)))

store_string-TextAt : (a : ℕ) (s : List ℕ) (mem : Bytes) → TextAt (store_string a s mem) a s
unfolding store_string poke
store_string-TextAt a [] mem = then_of_true 0 (mem a) (==-self a)
store_string-TextAt a (c ∷ s) mem = (
  store_string-outside (a + 1) s (poke mem a c) a (omega arith)
      ∙ then_of_true c (mem a) (==-self a),
  store_string-TextAt (a + 1) s (poke mem a c),
)

-- The loop of assertions over the table.
table_len_lem :
    (argv : List (List ℕ)) (n : ℕ) (mem : Bytes)
    → n + length argv * 4 + 4 < proc_origin_stack
    → table_len argv n mem ≡ ok (n + length argv * 4) mem
unfolding table_len
table_len_lem [] n mem h = ap (λ (k : ℕ). ok k mem) (omega arith)
table_len_lem (s ∷ argv) n mem h =
    and_then-ok _ tt mem _
      (assert-ok _ mem (lt→ltb (n + 2 * 4) proc_origin_stack (omega (arith, h))))
    ∙ (table_len_lem argv (n + 4) mem (omega (arith, h)) ∙ ap (λ (k : ℕ). ok k mem) (omega arith))

-- The bytes that the loop leaves: those in front of the table's rest, and those between the table
-- and the strings to come.
record Kept (at q n len : ℕ) (m1 m2 : Bytes) : Type 0 where
  in_front : (j : ℕ) → j < q → m2 (at + j) ≡ m1 (at + j)
  between : (j : ℕ) → q + n * 4 ≤ j → j < len → m2 (at + j) ≡ m1 (at + j)

store_args_lem :
    (base at low high q len : ℕ) (argv : List (List ℕ)) (mem : Bytes)
    → load_int (window mem (base + at)) (q + length argv * 4) ≡ 0
    → q + length argv * 4 + 4 ≤ low
    → low ≤ len
    → len + strings argv ≤ high
    → high < proc_origin_stack
    → at + proc_origin_stack < 2 ^ 32
    → (mem2 : Bytes) × (store_args base at argv (at + q) len mem ≡ ok (len + strings argv) mem2)
      × Argv (window mem2 (base + at)) at low high q argv
      × Kept (base + at) q (length argv) len mem mem2
unfolding store_args
store_args_lem base at low high q len [] mem z fits le room small hb = (
  mem,
  ap (λ (k : ℕ). ok k mem) (omega arith),
  ap (load_int (window mem (base + at))) {y = q + zero * 4} (omega arith) ∙ z,
  record { in_front = λ j h. refl; between = λ j h h2. refl },
)
store_args_lem base at low high q len (s ∷ argv) mem z fits le room small hb =
    let m1 : Bytes = poke_int mem (base + (at + q)) (at + len) in
    let m2 : Bytes = store_string (base + at + len) s m1 in
    let pointer : (j : ℕ) → (j < q) ⊎ (q + 4 ≤ j) → m1 (base + at + j) ≡ mem (base + at + j) =
      λ j b. poke_int-outside mem (base + (at + q)) (at + len) (base + at + j) (omega (arith, b)) in
    let string : (j : ℕ) → j < len → m2 (base + at + j) ≡ m1 (base + at + j) =
      λ j b. store_string-outside (base + at + len) s m1 (base + at + j) (omega (arith, b)) in
    let end : load_int (window m2 (base + at)) (q + 4 + length argv * 4) ≡ 0 =
      load_int-same (window mem (base + at)) (window m2 (base + at)) (q + suc (length argv) * 4)
        (q + 4 + length argv * 4)
        (λ j b.
          string (q + 4 + length argv * 4 + j) (omega (arith, b, fits, le))
          ∙ (pointer (q + 4 + length argv * 4 + j) (omega arith)
              ∙ ap (window mem (base + at)) (omega arith)))
      ∙ z in
    let (m3, run, t, k) =
      store_args_lem base at low high (q + 4) (len + length s + 1) argv m2 end (omega (arith, fits))
        (omega (arith, le)) (omega (arith, room)) small hb in
    (
      m3,
      and_then-ok _ tt m1 _ (
            assert-ok _ m1
              (lt→ltb (len + length s + 1) proc_origin_stack (omega (arith, room, small))))
          ∙ (ap (λ (a : ℕ). store_args base at argv a (len + length s + 1) m2) {x = at + q + 4}
                {y = at + (q + 4)} (omega arith)
              ∙ (run ∙ ap (λ (n : ℕ). ok n m3) (omega arith))),
      (
        (
          len,
          load_int-same m1 (window m3 (base + at)) (base + (at + q)) q (λ j b.
                k.in_front (q + j) (omega (arith, b))
                ∙ (string (q + j) (omega (arith, b, fits, le)) ∙ ap m1 (omega arith)))
              ∙ load_int-poke_int mem (base + (at + q)) (at + len) (omega (arith, hb, room, small)),
          le,
          omega (arith, room),
          TextAt-same m2 (window m3 (base + at)) (base + at + len) len s
              (λ j b.
                k.between (len + j) (omega (arith, fits, le)) (omega (arith, b))
                ∙ ap m2 (omega arith))
              (store_string-TextAt (base + at + len) s m1),
        ),
        t,
      ),
      record {
        in_front = λ j b.
            k.in_front j (omega (arith, b))
            ∙ (string j (omega (arith, b, fits, le)) ∙ pointer j (omega (arith, b)));
        between = λ j b b2.
            k.between j (omega (arith, b)) (omega (arith, b2))
            ∙ (string j b2 ∙ pointer j (omega (arith, b)));
      },
    )

-- The length of the whole stack.
abbrev pub stack_bytes : List (List ℕ) → ℕ
stack_bytes argv = length argv * 4 + 4 + strings argv

pub pack_args_lem :
    (base at : ℕ) (argv : List (List ℕ)) (mem : Bytes)
    → stack_bytes argv < proc_origin_stack
    → at + proc_origin_stack < 2 ^ 32
    → (mem2 : Bytes) × (pack_args base at argv mem ≡ ok (stack_bytes argv) mem2)
      × Argv (window mem2 (base + at)) at (length argv * 4 + 4) (stack_bytes argv) 0 argv
unfolding pack_args
pack_args_lem base at argv mem small hb =
    let n : ℕ = length argv * 4 in
    let m1 : Bytes = poke_int mem (base + at + n) 0 in
    let end : load_int (window m1 (base + at)) (0 + n) ≡ 0 =
      load_int-same m1 (window m1 (base + at)) (base + at + n) (0 + n) (λ j b. ap m1 (omega arith))
      ∙ load_int-poke_int mem (base + at + n) 0 (omega arith) in
    let (m2, run, t, k) =
      store_args_lem base at (n + 4) (stack_bytes argv) 0 (n + 4) argv m1 end (omega arith)
        (omega arith) (omega arith) small hb in
    (
      m2,
      and_then-ok _ n mem _ (
            table_len_lem argv 0 mem (omega (arith, small))
            ∙ ap (λ (i : ℕ). ok i mem) (omega arith))
          ∙ (ap (λ (a : ℕ). store_args base at argv a (n + 4) m1) {y = at + 0} (omega arith) ∙ run),
      t,
    )

-- `execv` and then the part of `do_exec` for the arguments, on what the message carries.
abbrev pub pass_args : (base arg_stack stackcopy orig_stack : ℕ) → List (List ℕ) → Act Bytes ℕ
pass_args base arg_stack stackcopy orig_stack argv = do
  len ← pack_args base arg_stack argv
  setup_args base arg_stack len stackcopy orig_stack

-- Arguments whose strings and pointers take less than the 1 KB of the stack, packed by execv at
-- `arg_stack` and moved by do_exec to `orig_stack`, over a buffer that overlaps neither. Both calls
-- end with no assertion failed, and the number of arguments comes out. At `orig_stack` the process
-- then finds a pointer to each argument, in their order, and a zero behind them; each pointer leads,
-- inside the new stack, to the bytes of its argument and a zero.
pub pass_args_lem :
    (base arg_stack stackcopy orig_stack : ℕ) (argv : List (List ℕ)) (mem : Bytes)
    → stack_bytes argv < proc_origin_stack
    → base + arg_stack + proc_origin_stack < 2 ^ 32
    → base + orig_stack + proc_origin_stack < 2 ^ 32
    → stackcopy + proc_origin_stack < 2 ^ 32
    → Apart stackcopy (base + arg_stack) proc_origin_stack
    → Apart (base + orig_stack) stackcopy proc_origin_stack
    → (mem2 : Bytes) × (pass_args base arg_stack stackcopy orig_stack argv mem
        ≡ ok (length argv) mem2)
      × Argv
          (window mem2 (base + orig_stack))
          orig_stack
          (length argv * 4 + 4)
          (stack_bytes argv)
          0
          argv
pass_args_lem base arg_stack stackcopy orig_stack argv mem small ha ho hc apart apart2 =
    let len : ℕ = stack_bytes argv in
    let (m1, run, t) = pack_args_lem base arg_stack argv mem small (omega (arith, ha)) in
    let (m2, run2, t2) =
      setup_args_lem base arg_stack len stackcopy orig_stack (length argv * 4 + 4) argv m1 t
        (omega arith) (omega arith) (omega (arith, small, ha)) (omega (arith, small, ho))
        (omega (arith, small, hc)) (omega (arith, small, apart)) (omega (arith, small, apart2)) in
    (m2, and_then-ok _ len m1 _ run ∙ run2, t2)
