-- ===== src/Exec/Layout.antt =====
-- The stack of arguments that `execv` builds, as a table of pointers to texts, and what a move of it
-- by `do_exec` leaves.
use oscourse_project.Base.{
  ℕ, zero, suc, ◌+◌, ◌-◌, ◌*◌, ◌%◌, ◌^◌, ◌≤◌, ◌<◌, ◌≡◌, ◌⊎◌, refl, ap, ◌∙◌, false, List, [], ◌∷◌,
  length, ◌==◌, arith, ne→==, eq→==, then_of_true, else_of_false,
}
use oscourse_project.Act.{Act, ok, pure, change, ◌>>◌}
use oscourse_project.Act.Laws.{and_then-ok}
use oscourse_project.Segment.{poke, poke_int, load_int, copy}
use oscourse_project.Segment.Laws.{load_int-poke_int, copied, Apart}
use oscourse_project.Exec.{Bytes, relocate, setup_args}

-- A string with its zero at an address.
abbrev pub TextAt : Bytes → (a : ℕ) → List ℕ → Type 0
TextAt mem a [] = mem a ≡ 0
TextAt mem a (c ∷ s) = (mem a ≡ c) × TextAt mem (a + 1) s

-- A table of pointers at `q`, ended by a zero, on bytes that the process has from `start` on: each
-- pointer names its string, which starts at offset `low` or behind it and ends before `high`.
abbrev pub Argv : Bytes → (start low high q : ℕ) → List (List ℕ) → Type 0
Argv w start low high q [] = load_int w q ≡ 0
Argv w start low high q (s ∷ argv) =
    ((off : ℕ) × (load_int w q ≡ start + off)
      × (low ≤ off)
      × (off + length s < high)
      × TextAt w off s)
    × Argv w start low high (q + 4) argv

-- The bytes from an address on.
abbrev pub window : Bytes → ℕ → Bytes
window mem at j = mem (at + j)

-- A text stands on when its bytes do.
pub TextAt-same :
    (m1 m2 : Bytes) (a b : ℕ) (s : List ℕ)
    → ((j : ℕ) → j ≤ length s → m2 (b + j) ≡ m1 (a + j))
    → TextAt m1 a s
    → TextAt m2 b s
TextAt-same m1 m2 a b [] same t =
    ap m2 {y = b + 0} (omega arith) ∙ (same 0 (omega arith) ∙ (ap m1 (omega arith) ∙ t))
TextAt-same m1 m2 a b (c ∷ s) same t = (
  ap m2 {y = b + 0} (omega arith) ∙ (same 0 (omega arith) ∙ (ap m1 (omega arith) ∙ t.0)),
  TextAt-same m1 m2 (a + 1) (b + 1) s
      (λ j h.
        ap m2 {y = b + suc j} (omega arith)
        ∙ (same (suc j) (omega (arith, h)) ∙ ap m1 (omega arith)))
      t.1,
)

pub load_int-same :
    (m1 m2 : Bytes) (a b : ℕ)
    → ((j : ℕ) → j < 4 → m2 (b + j) ≡ m1 (a + j))
    → load_int m2 b ≡ load_int m1 a
unfolding load_int
load_int-same m1 m2 a b same = omega (
  arith,
  ap m2 {x = b} {y = b + 0} (omega arith) ∙ (same 0 (omega arith) ∙ ap m1 {y = a} (omega arith)),
  same 1 (omega arith),
  same 2 (omega arith),
  same 3 (omega arith),
)

-- The table and its texts stand where their bytes do.
pub Argv-same :
    (w1 w2 : Bytes) (start low high q : ℕ) (argv : List (List ℕ))
    → q + length argv * 4 + 4 ≤ low
    → low ≤ high
    → ((j : ℕ) → q ≤ j → j < high → w2 j ≡ w1 j)
    → Argv w1 start low high q argv
    → Argv w2 start low high q argv
Argv-same w1 w2 start low high q [] fits le same t =
    load_int-same w1 w2 q q (λ j h. same (q + j) (omega arith) (omega (arith, h, fits, le))) ∙ t
Argv-same w1 w2 start low high q (s ∷ argv) fits le same ((off, p, l, h, t), rest) = (
  (
    off,
    load_int-same w1 w2 q q (λ j b. same (q + j) (omega arith) (omega (arith, b, fits, le))) ∙ p,
    l,
    h,
    TextAt-same w1 w2 off off s
        (λ j b. same (off + j) (omega (arith, l, fits)) (omega (arith, b, h))) t,
  ),
  Argv-same w1 w2 start low high (q + 4) argv (omega (arith, fits)) le
      (λ j b. same j (omega (arith, b))) rest,
)

pub poke_int-outside :
    (mem : Bytes) (a v b : ℕ) → (b < a) ⊎ (a + 4 ≤ b) → poke_int mem a v b ≡ mem b
unfolding poke_int poke
poke_int-outside mem a v b h = ground (arith, h)

-- What the relocation of the table at offset `q` of `at` leaves as it was: the bytes in front of it,
-- and those from offset `low` on.
record Kept (at low q : ℕ) (m1 m2 : Bytes) : Type 0 where
  in_front : (j : ℕ) → j < q → m2 (at + j) ≡ m1 (at + j)
  texts : (j : ℕ) → low ≤ j → m2 (at + j) ≡ m1 (at + j)
  outside : (a : ℕ) → (a < at) ⊎ (at + low ≤ a) → m2 a ≡ m1 a

abbrev onward : (n q delta argc : ℕ) → Act Bytes ℕ
onward n q delta argc = do
  change (λ m. poke_int m q ((load_int m q + delta) % 2 ^ 32))
  relocate n (q + 4) delta (argc + 1)

relocate_lem :
    (fuel at q low high buf to argc : ℕ) (argv : List (List ℕ)) (mem : Bytes)
    → length argv < fuel
    → q + length argv * 4 + 4 ≤ low
    → low ≤ high
    → buf + high < 2 ^ 32
    → to + high < 2 ^ 32
    → 0 < low
    → Argv (window mem at) buf low high q argv
    → (mem2 : Bytes) × (relocate fuel (at + q) ((to + (2 ^ 32 - buf)) % 2 ^ 32) argc mem
        ≡ ok (argc + length argv) mem2)
      × Argv (window mem2 at) to low high q argv
      × Kept at low q mem mem2
unfolding relocate
relocate_lem zero at q low high buf to argc argv mem f fits le hb ht pos t =
    absurd (omega (arith, f))
relocate_lem (suc n) at q low high buf to argc [] mem f fits le hb ht pos t =
    let here : load_int mem (at + q) ≡ 0 =
      load_int-same (window mem at) mem q (at + q)
        (λ j h. ap mem {x = at + q + j} {y = at + (q + j)} (omega arith))
      ∙ t in
    (
      mem,
      ap (λ (m : Act Bytes ℕ). m mem)
            (then_of_true (pure argc) _ (eq→== (load_int mem (at + q)) 0 here))
          ∙ ap (λ (k : ℕ). ok k mem) (omega arith),
      t,
      record { in_front = λ j h. refl; texts = λ j h. refl; outside = λ a h. refl },
    )
relocate_lem (suc n) at q low high buf to argc (s ∷ argv) mem f fits le hb ht pos
      ((off, p, l, h, t), rest) =
    let v : ℕ = (load_int mem (at + q) + (to + (2 ^ 32 - buf)) % 2 ^ 32) % 2 ^ 32 in
    let there : load_int mem (at + q) ≡ buf + off =
      load_int-same (window mem at) mem q (at + q)
        (λ j b. ap mem {x = at + q + j} {y = at + (q + j)} (omega arith))
      ∙ p in
    let moved : v ≡ to + off = omega (arith, there, h, hb, ht) in
    let m1 : Bytes = poke_int mem (at + q) v in
    let away : (j : ℕ) → (j < q) ⊎ (q + 4 ≤ j) → m1 (at + j) ≡ mem (at + j) =
      λ j b. poke_int-outside mem (at + q) v (at + j) (omega (arith, b)) in
    let (m2, run, t2, k) =
      relocate_lem n at (q + 4) low high buf to (argc + 1) argv m1 (omega (arith, f))
        (omega (arith, fits)) le hb ht pos
        (Argv-same (window mem at) (window m1 at) buf low high (q + 4) argv (omega (arith, fits)) le
          (λ j b b2. away j (omega (arith, b))) rest) in
    (
      m2,
      ap (λ (m : Act Bytes ℕ). m mem)
            (else_of_false (pure argc) (onward n (at + q) ((to + (2 ^ 32 - buf)) % 2 ^ 32) argc)
              (ne→== (load_int mem (at + q)) 0 (λ e. omega (arith, e, there, l, pos))))
          ∙ (ap (λ (a : ℕ). relocate n a ((to + (2 ^ 32 - buf)) % 2 ^ 32) (argc + 1) m1)
                {x = at + q + 4} {y = at + (q + 4)} (omega arith)
              ∙ (run ∙ ap (λ (c : ℕ). ok c m2) (omega arith))),
      (
        (
          off,
          load_int-same m1 (window m2 at) (at + q) q (λ j b.
                k.in_front (q + j) (omega (arith, b))
                ∙ ap m1 {x = at + (q + j)} {y = at + q + j} (omega arith))
              ∙ (load_int-poke_int mem (at + q) v (omega arith) ∙ moved),
          l,
          h,
          TextAt-same (window mem at) (window m2 at) off off s
              (λ j b.
                k.texts (off + j) (omega (arith, l)) ∙ away (off + j) (omega (arith, l, fits)))
              t,
        ),
        t2,
      ),
      record {
        in_front = λ j b. k.in_front j (omega (arith, b)) ∙ away j (omega (arith, b));
        texts = λ j b. k.texts j b ∙ away j (omega (arith, b, fits));
        outside = λ a b. k.outside a b ∙ poke_int-outside mem (at + q) v a (omega (arith, b, fits));
      },
    )

-- A stack of arguments stands at `buf` in a process: a table of pointers to its strings, a zero, and
-- the strings behind that. `do_exec` copies it to a buffer of its own and on to `orig_stack` in the
-- process, places in the memory that do not overlap. Then a stack of the same arguments stands
-- there, with pointers to the strings at their new places, and the number of the arguments is what
-- goes to `ecx`.
pub setup_args_lem :
    (base buf len stackcopy orig_stack low : ℕ) (argv : List (List ℕ)) (mem : Bytes)
    → Argv (window mem (base + buf)) buf low len 0 argv
    → length argv * 4 + 4 ≤ low
    → low ≤ len
    → base + buf + len < 2 ^ 32
    → base + orig_stack + len < 2 ^ 32
    → stackcopy + len < 2 ^ 32
    → Apart stackcopy (base + buf) len
    → Apart (base + orig_stack) stackcopy len
    → (mem2 : Bytes) × (setup_args base buf len stackcopy orig_stack mem ≡ ok (length argv) mem2)
      × Argv (window mem2 (base + orig_stack)) orig_stack low len 0 argv
unfolding setup_args
setup_args_lem base buf len stackcopy orig_stack low argv mem t fits le hb ho hc apart apart2 =
    let m1 : Bytes = copy len stackcopy (base + buf) mem in
    let (m2, run, t2, k) =
      relocate_lem (len + 1) stackcopy 0 low len buf orig_stack 0 argv m1 (omega (arith, fits, le))
        (omega (arith, fits)) le (omega (arith, hb)) (omega (arith, ho)) (omega (arith, fits))
        (Argv-same (window mem (base + buf)) (window m1 stackcopy) buf low len 0 argv
          (omega (arith, fits)) le
          (λ j b b2. copied len stackcopy (base + buf) mem hc hb apart j b2) t) in
    let delta : ℕ = (orig_stack + (2 ^ 32 - buf)) % 2 ^ 32 in
    let some_bytes : (len == 0) ≡ false = ne→== len 0 (omega (arith, fits, le)) in
    (
      copy len (base + orig_stack) stackcopy m2,
      and_then-ok _ (length argv) m2 _ (
          ap (λ (m : Act Bytes ℕ). m m1)
            (else_of_false (pure 0) (relocate (len + 1) stackcopy delta 0) some_bytes)
          ∙ (ap (λ (a : ℕ). relocate (len + 1) a delta 0 m1) {y = stackcopy + 0} (omega arith)
              ∙ (run ∙ ap (λ (c : ℕ). ok c m2) (omega arith)))),
      Argv-same (window m2 stackcopy)
          (window (copy len (base + orig_stack) stackcopy m2) (base + orig_stack)) orig_stack low
          len 0 argv (omega (arith, fits)) le
          (λ j b b2. copied len (base + orig_stack) stackcopy m2 ho hc apart2 j b2) t2,
    )
