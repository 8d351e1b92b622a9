-- ===== src/Format/Digits.antt =====
-- The digits that `i2a` prints are those of its number.
use oscourse_project.Base.{
  ℕ, zero, suc, ◌+◌, ◌-◌, ◌*◌, ◌/◌, ◌%◌, ◌≤◌, ◌<◌, ◌^◌, leb, ◌≡◌, refl, false, List, [], ◌∷◌, ◌++◌,
  ltb, ◌==◌, if◌then◌else◌, arith, Bool-cases, inl, inr, subst, sym, ap, ◌∙◌, ==→eq, ◌⊎◌,
}
use native.Mathlib.Nat.{zero-mod}
use native.Mathlib.Omega.{div_any}
use oscourse_project.Format.{digit, int_div, i2a}

lt→leb_false : (val : ℕ) → val < 2 ^ 31 → leb (2 ^ 31) val ≡ false
lt→leb_false val h = ground arith

-- The value of a digit.
abbrev pub digit_value : ℕ → ℕ
digit_value c = if ltb c b'A' then c - b'0' else c - b'A' + 10

-- Horner's rule: the number that the digits spell after a number `acc`.
abbrev pub value_from : (base acc : ℕ) → List ℕ → ℕ
value_from base acc [] = acc
value_from base acc (c ∷ cs) = value_from base (acc * base + digit_value c) cs

value_from-append :
    (base acc : ℕ) (xs ys : List ℕ)
    → value_from base acc (xs ++ ys) ≡ value_from base (value_from base acc xs) ys
value_from-append base acc [] ys = refl
value_from-append base acc (x ∷ xs) ys = value_from-append base (acc * base + digit_value x) xs ys

digit_value-digit : (m : ℕ) → m < 16 → digit_value (digit false m) ≡ m
unfolding digit
digit_value-digit m h = ground arith

abbrev pub IsBase : ℕ → Type 0
IsBase base = (base ≡ 10) ⊎ (base ≡ 16)

quotient_le : (base val n : ℕ) → IsBase base → val ≤ suc n → val / base ≤ n
quotient_le base val n (inl e) h = subst (λ (k : ℕ). val / k ≤ n) (sym e) (omega arith)
quotient_le base val n (inr e) h = subst (λ (k : ℕ). val / k ≤ n) (sym e) (omega arith)

last_digit : (base val : ℕ) → IsBase base → digit_value (digit false (val % base)) ≡ val % base
last_digit base val (inl e) =
    digit_value-digit (val % base) (subst (λ (k : ℕ). val % k < 16) (sym e) (omega arith))
last_digit base val (inr e) =
    digit_value-digit (val % base) (subst (λ (k : ℕ). val % k < 16) (sym e) (omega arith))

-- A step of `i2a` on a number that is not negative.
i2a-step :
    (n val base : ℕ)
    → val < 2 ^ 31
    → i2a (suc n) val base
      ≡ (if val / base == 0 then [] else i2a n (val / base) base) ++ (digit false (val % base) ∷ [])
unfolding i2a int_div
i2a-step n val base h = rw (lt→leb_false val h) refl

quotient_small : (val base : ℕ) → IsBase base → val < 2 ^ 31 → val / base < 2 ^ 31
quotient_small val base (inl e) h = subst (λ (k : ℕ). val / k < 2 ^ 31) (sym e) (omega arith)
quotient_small val base (inr e) h = subst (λ (k : ℕ). val / k < 2 ^ 31) (sym e) (omega arith)

-- What i2a prints for an `int` that is not negative spells it, in base 10 and in base 16, if the fuel
-- is at least the number.
pub value_from-i2a :
    (fuel val base : ℕ)
    → val < 2 ^ 31
    → val ≤ fuel
    → (base ≡ 10) ⊎ (base ≡ 16)
    → value_from base 0 (i2a fuel val base) ≡ val
unfolding i2a
value_from-i2a zero val base small h b = rw (lt→leb_false val small) (
    omega (
      arith,
      last_digit base val b,
      subst (λ (v : ℕ). v % base ≡ 0) {x = 0} {y = val} (omega arith) (zero-mod base),
    ))
value_from-i2a (suc n) val base small h b =
    let q : ℕ = val / base in
    let high : value_from base 0 (i2a n q base) ≡ q =
      value_from-i2a n q base (quotient_small val base b small) (quotient_le base val n b h) b in
    ap (value_from base 0) (i2a-step n val base small) ∙ elim (Bool-cases (q == 0)) [
      | inl zero_q ↦ rw zero_q (
          omega (
            arith,
            last_digit base val b,
            div_any val base,
            ap (λ (t : ℕ). base * t) (==→eq q 0 zero_q),
          ))
      | inr more ↦ rw more (
          value_from-append base 0 (i2a n q base) (digit false (val % base) ∷ [])
          ∙ omega (arith, last_digit base val b, div_any val base, ap (λ (t : ℕ). t * base) high))
    ]
