-- ===== src/Text.antt =====
-- lib/misc.c `strcmp` and `memcmp`. A string is the list of its bytes before the final zero. `char` is
-- signed, and an `int` is its bit pattern.
pub mod Compare
mod Examples
use oscourse_project.Base.{
  ℕ, zero, suc, ◌+◌, ◌-◌, ◌%◌, ◌^◌, ◌||◌, List, [], ◌∷◌, ltb, ◌==◌, if◌then◌else◌,
}

-- A `char` as an `int`
unfoldable pub sign_extend : ℕ → ℕ
sign_extend c = if ltb c 128 then c else c + (2 ^ 32 - 256)

-- `*p1 - *p2`
unfoldable pub char_difference : ℕ → ℕ → ℕ
unfolding sign_extend
char_difference c d = (sign_extend c + (2 ^ 32 - sign_extend d)) % 2 ^ 32

-- `strcmp` on two strings that are there
unfoldable pub strcmp : List ℕ → List ℕ → ℕ
unfolding char_difference
strcmp [] [] = char_difference 0 0
strcmp [] (d ∷ ds) = char_difference 0 d
strcmp (c ∷ cs) [] = char_difference c 0
strcmp (c ∷ cs) (d ∷ ds) = let rest = strcmp cs ds in if c == d then rest else char_difference c d

-- The loop of `memcmp` over `n` bytes
unfoldable pub compare_bytes : (n p1 p2 : ℕ) → (ℕ → ℕ) → ℕ
unfolding char_difference
compare_bytes zero p1 p2 mem = 0
compare_bytes (suc n) p1 p2 mem =
    let rest = compare_bytes n (p1 + 1) (p2 + 1) mem in
    if mem p1 == mem p2 then rest else char_difference (mem p1) (mem p2)

-- `memcmp`, for a size that is not negative
unfoldable pub memcmp : (s1 s2 n : ℕ) → (ℕ → ℕ) → ℕ
unfolding compare_bytes
memcmp s1 s2 n mem =
    if s1 == 0 || s2 == 0 then (s1 + (2 ^ 32 - s2)) % 2 ^ 32 else compare_bytes n s1 s2 mem
