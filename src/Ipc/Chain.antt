-- ===== src/Ipc/Chain.antt =====
-- A sending queue as a list: the entries that `next_sending` leads through from its head.
use oscourse_project.Base.{
  ℕ, zero, suc, ◌<◌, ◌≡◌, ◌≢◌, sym, subst, true, false, Option, none, some, List, [], ◌∷◌, ◌++◌,
  arith, ◌==◌, if◌then◌else◌, length, elem, remove, Distinct, Bool-cases, ==→eq, inl, inr,
}
use oscourse_project.Proc.{Table}
use oscourse_project.Ipc.Send.{last_sending}

-- The `next_sending` pointers.
abbrev pub Links : Type 0
Links = ℕ → Option ℕ

abbrev pub links : Table → Links
links t i = (t i).next_sending

abbrev pub IsChain : Links → Option ℕ → List ℕ → Type 0
IsChain next o [] = o ≡ none
IsChain next o (x ∷ xs) = (o ≡ some x) × IsChain next (next x) xs

-- The last of a list that starts with `x`.
abbrev pub last : ℕ → List ℕ → ℕ
last x [] = x
last x (y ∷ ys) = last y ys

-- The pointers with the one of `i` set to `o`.
abbrev pub relink : Links → ℕ → Option ℕ → Links
relink next i o j = if i == j then o else next j

-- A chain stands as long as the pointers of its members do.
pub IsChain-frame :
    (next next' : Links) (o : Option ℕ) (xs : List ℕ)
    → ((a : ℕ) → elem a xs ≡ true → next' a ≡ next a)
    → IsChain next o xs
    → IsChain next' o xs
IsChain-frame next next' o [] same c = c
IsChain-frame next next' o (x ∷ xs) same (e, c) = (
  e,
  IsChain-frame next next' (next' x) xs (λ a h. same a (ground arith))
      (subst (λ (p : Option ℕ). IsChain next p xs) (sym (same x (ground arith))) c),
)

pub elem-last : (x : ℕ) (xs : List ℕ) → elem (last x xs) (x ∷ xs) ≡ true
elem-last x [] = ground arith
elem-last x (y ∷ ys) = ground (arith, elem-last y ys)

-- The walk to the tail ends at the last entry, within as many rounds as there are entries.
pub last_sending-last :
    (n : ℕ) (t : Table) (x : ℕ) (xs : List ℕ)
    → IsChain (links t) (links t x) xs
    → length xs < n
    → last_sending n t x ≡ some (last x xs)
unfolding last_sending
last_sending-last zero t x xs c h = absurd (omega arith)
last_sending-last (suc n) t x [] c h = rw (c, last_sending)
last_sending-last (suc n) t x (y ∷ ys) (e, c) h =
    rw (e, last_sending) (last_sending-last n t y ys c (omega arith))

-- Linking `s` behind the last entry appends it.
pub IsChain-snoc :
    (next : Links) (s x : ℕ) (xs : List ℕ)
    → IsChain next (next x) xs
    → Distinct (x ∷ xs)
    → elem s (x ∷ xs) ≡ false
    → IsChain
        (relink (relink next (last x xs) (some s)) s none)
        (relink (relink next (last x xs) (some s)) s none x)
        (xs ++ (s ∷ []))
IsChain-snoc next s x [] c d out = ground arith
IsChain-snoc next s x (y ∷ ys) (e, c) (new, d) out =
    let rest = IsChain-snoc next s y ys c d (ground arith) in (ground (arith, elem-last y ys), rest)

-- The entry before `a`, and `none` if `a` comes first.
abbrev pub before : ℕ → ℕ → List ℕ → ℕ
before a x [] = x
before a x (y ∷ ys) = if y == a then x else before a y ys

pub elem-before : (a x : ℕ) (xs : List ℕ) → elem (before a x xs) (x ∷ xs) ≡ true
elem-before a x [] = ground arith
elem-before a x (y ∷ ys) = ground (arith, elem-before a y ys)

pub elem_ne : (a b : ℕ) (xs : List ℕ) → elem a xs ≡ true → elem b xs ≡ false → a ≢ b
elem_ne a b xs h k e = ground arith

-- Unlinking an entry that is not the first removes it.
pub IsChain-unlink :
    (next : Links) (a x : ℕ) (xs : List ℕ)
    → IsChain next (next x) xs
    → Distinct (x ∷ xs)
    → x ≢ a
    → elem a xs ≡ true
    → IsChain
        (relink (relink next (before a x xs) (next a)) a none)
        (relink (relink next (before a x xs) (next a)) a none x)
        (remove a xs)
IsChain-unlink next a x [] c d ne i = cc
IsChain-unlink next a x (y ∷ ys) (e, c) (new, d) ne i = elim (Bool-cases (y == a)) [
  | inl hit ↦
      let same : y ≡ a = ==→eq y a hit in
      rw hit (
        IsChain-frame next (relink (relink next x (next a)) a none)
          (relink (relink next x (next a)) a none x) ys
          (λ b m. ground (arith, elem_ne b x ys m, elem_ne b y ys m))
          (subst (λ (p : Option ℕ). IsChain next p ys) (ground arith) c))
  | inr miss ↦ rw miss (
    ground (arith, elem-before a y ys),
    IsChain-unlink next a y ys c d (ground arith) (ground arith),
  )
]
