-- ===== src/Base/Lists.antt =====
-- Lists measured and indexed by native numbers, and lists of numbers as sets.
use Prim.Native.Nat.{ℕ, zero, suc, ◌+◌, ◌<◌, ◌≤◌}
use mathlib.Core.Path.{◌≡◌, refl, ap, subst}
use mathlib.Core.Logic.{◌≢◌}
use mathlib.Core.Bool.{Bool, true, false, ◌||◌}
use mathlib.Core.List.{List, [], ◌∷◌, ◌++◌}
use mathlib.Core.Option.{Option, none, some}
use native.Mathlib.Omega.{arith}
use oscourse_project.Base.Tests.{◌==◌, if◌then◌else◌}

module _ {ℓ} {A : Type ℓ} where
  abbrev pub length : List A → ℕ
  length [] = 0
  length (x ∷ xs) = suc (length xs)

  abbrev pub get_elem? : List A → ℕ → Option A
  get_elem? [] i = none
  get_elem? (x ∷ xs) zero = some x
  get_elem? (x ∷ xs) (suc i) = get_elem? xs i

  abbrev pub get_or : List A → ℕ → A → A
  get_or [] i d = d
  get_or (x ∷ xs) zero d = x
  get_or (x ∷ xs) (suc i) d = get_or xs i d

  -- A write out of bounds changes nothing.
  abbrev pub set : List A → ℕ → A → List A
  set [] i v = []
  set (x ∷ xs) zero v = v ∷ xs
  set (x ∷ xs) (suc i) v = x ∷ set xs i v

  abbrev pub take : ℕ → List A → List A
  take zero xs = []
  take (suc n) [] = []
  take (suc n) (x ∷ xs) = x ∷ take n xs

  pub length-append : (xs ys : List A) → length (xs ++ ys) ≡ length xs + length ys
  length-append [] ys = omega arith
  length-append (x ∷ xs) ys = omega (arith, length-append xs ys)

  pub length-set : (xs : List A) (i : ℕ) (v : A) → length (set xs i v) ≡ length xs
  length-set [] i v = refl
  length-set (x ∷ xs) zero v = refl
  length-set (x ∷ xs) (suc i) v = ap suc (length-set xs i v)

  pub get_or-set_self :
      (xs : List A) (i : ℕ) (v d : A) → i < length xs → get_or (set xs i v) i d ≡ v
  get_or-set_self [] i v d h = absurd (omega arith)
  get_or-set_self (x ∷ xs) zero v d h = refl
  get_or-set_self (x ∷ xs) (suc i) v d h = get_or-set_self xs i v d (omega arith)

  pub get_or-set_ne :
      (xs : List A) (i j : ℕ) (v d : A) → i ≢ j → get_or (set xs i v) j d ≡ get_or xs j d
  get_or-set_ne [] i j v d h = refl
  get_or-set_ne (x ∷ xs) zero zero v d h = absurd (h refl)
  get_or-set_ne (x ∷ xs) zero (suc j) v d h = refl
  get_or-set_ne (x ∷ xs) (suc i) zero v d h = refl
  get_or-set_ne (x ∷ xs) (suc i) (suc j) v d h = get_or-set_ne xs i j v d (λ e. h (ap suc e))

-- Whether a number stands in a list.
abbrev pub elem : ℕ → List ℕ → Bool
elem a [] = false
elem a (x ∷ xs) = x == a || elem a xs

-- The list without the first occurrence of a number.
abbrev pub remove : ℕ → List ℕ → List ℕ
remove a [] = []
remove a (x ∷ xs) = if x == a then xs else x ∷ remove a xs

-- No number stands twice.
abbrev pub Distinct : List ℕ → Type 0
Distinct [] = Unit {0}
Distinct (x ∷ xs) = (elem x xs ≡ false) × Distinct xs

pub elem-append : (a : ℕ) (xs ys : List ℕ) → elem a (xs ++ ys) ≡ (elem a xs || elem a ys)
elem-append a [] ys = refl
elem-append a (x ∷ xs) ys = ground (arith, elem-append a xs ys)

pub elem-remove_ne : (a b : ℕ) (xs : List ℕ) → a ≢ b → elem a (remove b xs) ≡ elem a xs
elem-remove_ne a b [] h = refl
elem-remove_ne a b (x ∷ xs) h = ground (arith, elem-remove_ne a b xs h)

pub elem-remove_self : (a : ℕ) (xs : List ℕ) → Distinct xs → elem a (remove a xs) ≡ false
elem-remove_self a [] d = refl
elem-remove_self a (x ∷ xs) d = ground (arith, elem-remove_self a xs d.1)

pub Distinct-remove : (a : ℕ) (xs : List ℕ) → Distinct xs → Distinct (remove a xs)
Distinct-remove a [] d = tt
Distinct-remove a (x ∷ xs) d = grind (arith, Distinct-remove a xs d.1, elem-remove_ne x a xs)

pub Distinct-snoc :
    (a : ℕ) (xs : List ℕ) → Distinct xs → elem a xs ≡ false → Distinct (xs ++ (a ∷ []))
Distinct-snoc a [] d h = (refl, tt)
Distinct-snoc a (x ∷ xs) d h = ground (arith, Distinct-snoc a xs d.1, elem-append x xs (a ∷ []))

length-le-remove : (a : ℕ) (xs : List ℕ) → length xs ≤ length (remove a xs) + 1
length-le-remove a [] = omega arith
length-le-remove a (x ∷ xs) = ground (arith, length-le-remove a xs)

pub elem_of_elem-remove : (a b : ℕ) (xs : List ℕ) → elem a (remove b xs) ≡ true → elem a xs ≡ true
elem_of_elem-remove a b [] h = cc
elem_of_elem-remove a b (x ∷ xs) h = ground (arith, elem_of_elem-remove a b xs)

-- Distinct numbers below `n` are at most `n`.
pub length_le_of_Distinct :
    (n : ℕ) (xs : List ℕ) → Distinct xs → ((a : ℕ) → elem a xs ≡ true → a < n) → length xs ≤ n
length_le_of_Distinct n [] d h = omega arith
length_le_of_Distinct zero (x ∷ xs) d h = absurd (omega (arith, h x (ground arith)))
length_le_of_Distinct (suc n) (x ∷ xs) d h = omega (
  arith,
  length-le-remove n (x ∷ xs),
  length_le_of_Distinct n (remove n (x ∷ xs)) (Distinct-remove n (x ∷ xs) d) below,
)
  where
    below : (a : ℕ) → elem a (remove n (x ∷ xs)) ≡ true → a < n
    below a m =
        let small : a < suc n = h a (elem_of_elem-remove a n (x ∷ xs) m) in
        let other : a ≢ n = λ e. absurd (
          cc (
            subst (λ (b : ℕ). elem b (remove n (x ∷ xs)) ≡ true) e m,
            elem-remove_self n (x ∷ xs) d,
          )) in
        omega arith
