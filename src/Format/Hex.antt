-- ===== src/Format/Hex.antt =====
-- kernel/klib.c `itoa`: a number in hexadecimal, without the zeros before it.
use oscourse_project.Base.{
  ℕ, zero, suc, ◌+◌, ◌*◌, ◌/◌, ◌%◌, ◌^◌, Bool, true, false, ◌||◌, List, [], ◌∷◌, ltb, ◌==◌,
  if◌then◌else◌,
}

-- `ch += '0'`, and 7 more behind '9'
unfoldable pub hex_char : ℕ → ℕ
hex_char ch = if ltb b'9' (ch + b'0') then ch + b'0' + 7 else ch + b'0'

-- The loop, over the `n` lowest digits; `flag` is set behind the first digit that is not 0.
unfoldable pub hex_digits : (n : ℕ) → (flag : Bool) → (num : ℕ) → List ℕ
hex_digits zero flag num = []
hex_digits (suc n) flag num =
    let ch = num / 2 ^ (4 * n) % 2 ^ 4 in
    let shown = hex_digits n true num in
    let hidden = hex_digits n false num in if flag || ltb 0 ch then hex_char ch ∷ shown else hidden

-- `itoa`
unfoldable pub itoa : (num : ℕ) → List ℕ
itoa num = b'0' ∷ b'x' ∷ (if num == 0 then b'0' ∷ [] else hex_digits 8 false num)
