-- ===== src/Text/Compare.antt =====
-- When `strcmp` and `memcmp` say that two texts are the same.
use oscourse_project.Base.{
  ℕ, zero, suc, ◌+◌, ◌<◌, ◌≡◌, ◌≢◌, ◌↔◌, refl, sym, ap, ◌∙◌, List, [], ◌∷◌, ◌==◌, if◌then◌else◌,
  arith, Bool-cases, inl, inr, ==→eq, eq→==, Bool, true, false, ==-self, ne→==,
}
use oscourse_project.Text.{sign_extend, char_difference, strcmp, compare_bytes, memcmp}

char_difference_self : (c : ℕ) → c < 256 → char_difference c c ≡ 0
unfolding char_difference sign_extend
char_difference_self c h = ground arith

char_difference-ne : (c d : ℕ) → c < 256 → d < 256 → c ≢ d → char_difference c d ≢ 0
unfolding char_difference sign_extend
char_difference-ne c d h h' ne = λ e. ground (arith, e, ne)

-- The bytes of a string: none is zero.
abbrev pub IsText : List ℕ → Type 0
IsText [] = Unit {0}
IsText (c ∷ cs) = (0 < c) × (c < 256) × IsText cs

strcmp-same : (s : List ℕ) → IsText s → strcmp s s ≡ 0
unfolding strcmp char_difference sign_extend
strcmp-same [] t = refl
strcmp-same (c ∷ cs) (p, b, t) = rw (==-self c) (strcmp-same cs t)

strcmp-cons :
    (c d : ℕ) (cs ds : List ℕ) (same : Bool)
    → (c == d) ≡ same
    → strcmp (c ∷ cs) (d ∷ ds) ≡ (if same then strcmp cs ds else char_difference c d)
unfolding strcmp
strcmp-cons c d cs ds same h = rw h refl

strcmp-zero : (s t : List ℕ) → IsText s → IsText t → strcmp s t ≡ 0 → s ≡ t
unfolding strcmp
strcmp-zero [] [] u v e = refl
strcmp-zero [] (d ∷ ds) u (p, b, v) e =
    absurd (char_difference-ne 0 d (omega arith) b (omega arith) e)
strcmp-zero (c ∷ cs) [] (p, b, u) v e =
    absurd (char_difference-ne c 0 b (omega arith) (omega arith) e)
strcmp-zero (c ∷ cs) (d ∷ ds) (p, b, u) (q, g, v) e = elim (Bool-cases (c == d)) [
  | inl same ↦
      (let rest : strcmp cs ds ≡ 0 = sym (strcmp-cons c d cs ds true same) ∙ e in
        cc (==→eq c d same, strcmp-zero cs ds u v rest))
  | inr other ↦ absurd (
      char_difference-ne c d b g (λ h. cc (sym (eq→== c d h) ∙ other))
        (sym (strcmp-cons c d cs ds false other) ∙ e))
]

-- strcmp gives 0 for two strings of bytes without a zero exactly if they are equal.
pub strcmp_lem : (s t : List ℕ) → IsText s → IsText t → (strcmp s t ≡ 0) ↔ (s ≡ t)
strcmp_lem s t u v = (strcmp-zero s t u v, (λ e. ap (strcmp s) (sym e) ∙ strcmp-same s u))

compare_bytes-suc :
    (n p1 p2 : ℕ) (mem : ℕ → ℕ) (same : Bool)
    → (mem p1 == mem p2) ≡ same
    → compare_bytes (suc n) p1 p2 mem
      ≡ (if same then compare_bytes n (p1 + 1) (p2 + 1) mem else char_difference (mem p1) (mem p2))
unfolding compare_bytes
compare_bytes-suc n p1 p2 mem same h = rw h refl

-- The first `n` bytes from two addresses on are the same.
abbrev pub SameBytes : (ℕ → ℕ) → (n p1 p2 : ℕ) → Type 0
SameBytes mem n p1 p2 = (i : ℕ) → i < n → mem (p1 + i) ≡ mem (p2 + i)

SameBytes-suc :
    (mem : ℕ → ℕ) (n p1 p2 : ℕ)
    → mem p1 ≡ mem p2
    → SameBytes mem n (p1 + 1) (p2 + 1)
    → SameBytes mem (suc n) p1 p2
SameBytes-suc mem n p1 p2 e rest zero h =
    ap mem {x = p1 + 0} {y = p1} (omega arith) ∙ e ∙ ap mem {x = p2} {y = p2 + 0} (omega arith)
SameBytes-suc mem n p1 p2 e rest (suc i) h =
    ap mem {x = p1 + suc i} {y = p1 + 1 + i} (omega arith)
    ∙ rest i (omega arith)
    ∙ ap mem {x = p2 + 1 + i} {y = p2 + suc i} (omega arith)

SameBytes-rest :
    (mem : ℕ → ℕ) (n p1 p2 : ℕ)
    → SameBytes mem (suc n) p1 p2
    → (mem p1 ≡ mem p2) × SameBytes mem n (p1 + 1) (p2 + 1)
SameBytes-rest mem n p1 p2 all = (
  ap mem {x = p1} {y = p1 + 0} (omega arith)
      ∙ all 0 (omega arith)
      ∙ ap mem {x = p2 + 0} {y = p2} (omega arith),
  (λ i h.
      ap mem {x = p1 + 1 + i} {y = p1 + suc i} (omega arith)
      ∙ all (suc i) (omega arith)
      ∙ ap mem {x = p2 + suc i} {y = p2 + 1 + i} (omega arith)),
)

module _ (mem : ℕ → ℕ) (bytes : (a : ℕ) → mem a < 256) where
  zero→same : (n p1 p2 : ℕ) → compare_bytes n p1 p2 mem ≡ 0 → SameBytes mem n p1 p2
  zero→same zero p1 p2 e = λ i h. absurd (omega arith)
  zero→same (suc n) p1 p2 e = elim (Bool-cases (mem p1 == mem p2)) [
    | inl same ↦
        SameBytes-suc mem n p1 p2 (==→eq (mem p1) (mem p2) same)
          (zero→same n (p1 + 1) (p2 + 1) (sym (compare_bytes-suc n p1 p2 mem true same) ∙ e))
    | inr other ↦ absurd (
        char_difference-ne (mem p1) (mem p2) (bytes p1) (bytes p2)
          (λ h. cc (sym (eq→== (mem p1) (mem p2) h) ∙ other))
          (sym (compare_bytes-suc n p1 p2 mem false other) ∙ e))
  ]

  same→zero : (n p1 p2 : ℕ) → SameBytes mem n p1 p2 → compare_bytes n p1 p2 mem ≡ 0
  same→zero zero p1 p2 all = unfold compare_bytes in refl
  same→zero (suc n) p1 p2 all =
      let (first, rest) = SameBytes-rest mem n p1 p2 all in
      compare_bytes-suc n p1 p2 mem true (eq→== (mem p1) (mem p2) first)
      ∙ same→zero n (p1 + 1) (p2 + 1) rest

  -- memcmp of two areas, neither at address 0, gives 0 exactly if their bytes are the same.
  pub memcmp_lem :
      (s1 s2 n : ℕ)
      → s1 ≢ 0
      → s2 ≢ 0
      → (memcmp s1 s2 n mem ≡ 0) ↔ ((i : ℕ) → i < n → mem (s1 + i) ≡ mem (s2 + i))
  unfolding memcmp
  memcmp_lem s1 s2 n h h' = rw (ne→== s1 0 h, ne→== s2 0 h') (zero→same n s1 s2, same→zero n s1 s2)
