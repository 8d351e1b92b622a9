-- ===== src/Ipc/Walk.antt =====
-- Who waits for whom: the walk that `deadlock` follows.
use oscourse_project.Base.{
  ℕ, zero, suc, ◌≤◌, ◌<◌, ◌≡◌, refl, ◌∙◌, sym, subst, Bool, true, false, ◌||◌, List, [], ◌∷◌, arith,
  ◌==◌, if◌then◌else◌, length, elem, has_flag, Distinct, Bool-cases, inl, inr, lt→ltb,
  length_le_of_Distinct,
}
use oscourse_project.Proc.{Table, Kernel, sending, nr_slots}
use oscourse_project.Run.{ok}
use oscourse_project.Ipc.Deadlock.{follow}

abbrev pub IsSending : Table → ℕ → Bool → Type 0
IsSending t i b = has_flag (t i).p_flags sending ≡ b

-- From `i`, along `p_sendto`, the processes `xs` wait to send, but for the last.
pub data Walk (t : Table) : ℕ → List ℕ → Type 0 where
  stops : {i : ℕ} → i < nr_slots → IsSending t i false → Walk t i (i ∷ [])
  goes :
      {i j : ℕ} {xs : List ℕ}
      → i < nr_slots
      → IsSending t i true
      → (t i).p_sendto ≡ j
      → Walk t j xs
      → Walk t i (i ∷ xs)

-- Each walk ends: there is no circle of processes that wait for one another.
abbrev pub IsAcyclic : Table → Type 0
IsAcyclic t = (i : ℕ) → i < nr_slots → (xs : List ℕ) × Walk t i xs

-- A walk from a place is determined.
Walk-length :
    {t : Table} {i j : ℕ} {xs ys : List ℕ}
    → i ≡ j
    → Walk t i xs
    → Walk t j ys
    → length xs ≡ length ys
Walk-length e (stops p s) (stops q u) = refl
Walk-length {t} e (stops p s) (goes q u f w) =
    absurd (cc (subst (λ (a : ℕ). IsSending t a false) e s))
Walk-length {t} e (goes p s f v) (stops q u) =
    absurd (cc (subst (λ (a : ℕ). IsSending t a true) e s))
Walk-length e (goes p s f v) (goes q u g w) = omega (arith, Walk-length (ground arith) v w)

-- Each place that a walk comes by starts a walk that is no longer.
Walk-suffix :
    {t : Table} {i : ℕ} {xs : List ℕ} (a : ℕ)
    → Walk t i xs
    → elem a xs ≡ true
    → (ys : List ℕ) × Walk t a ys × (length ys ≤ length xs)
Walk-suffix {t} {i} a (stops p s) m =
    let e : i ≡ a = ground arith in
    (i ∷ [], subst (λ (b : ℕ). Walk t b (i ∷ [])) e (stops p s), omega arith)
Walk-suffix {t} {i} {xs} a (goes {xs = r} p s f w) m = elim (Bool-cases (i == a)) [
  | inl hit ↦
      let e : i ≡ a = ground arith in
      (i ∷ r, subst (λ (b : ℕ). Walk t b (i ∷ r)) e (goes p s f w), omega arith)
  | inr miss ↦ (let (ys, v, l) = Walk-suffix a w (ground arith) in (ys, v, omega arith))
]

-- A walk comes by no place twice, and so by at most as many as the table has.
pub Walk-Distinct : {t : Table} {i : ℕ} {xs : List ℕ} → Walk t i xs → Distinct xs
Walk-Distinct (stops p s) = (refl, tt)
Walk-Distinct {t} {i} (goes {xs = r} p s f w) = (
  elim (Bool-cases (elem i r)) [
    | inl again ↦
        let (ys, v, l) = Walk-suffix i w again in
        absurd (omega (arith, Walk-length refl v (goes p s f w)))
    | inr once ↦ once
  ],
  Walk-Distinct w,
)

Walk-below :
    {t : Table} {i : ℕ} {xs : List ℕ} (a : ℕ) → Walk t i xs → elem a xs ≡ true → a < nr_slots
Walk-below a (stops p s) m = ground arith
Walk-below a (goes p s f w) m = ground (arith, Walk-below a w)

pub length-Walk : {t : Table} {i : ℕ} {xs : List ℕ} → Walk t i xs → length xs ≤ nr_slots
length-Walk w = length_le_of_Distinct nr_slots _ (Walk-Distinct w) (λ a m. Walk-below a w m)

-- Whether one of `xs` waits to send to `src`.
abbrev pub reaches : Table → ℕ → List ℕ → Bool
reaches t src [] = false
reaches t src (x ∷ xs) =
    if has_flag (t x).p_flags sending then ((t x).p_sendto == src || reaches t src xs) else false

-- The loop of `deadlock` ends within as many rounds as the walk has places, and tells whether the
-- walk comes by a process that waits to send to `src`.
pub follow-reaches :
    (n src : ℕ) (k : Kernel) {i : ℕ} {xs : List ℕ}
    → Walk k.table i xs
    → length xs < n
    → follow n src i k ≡ ok (reaches k.table src xs) k
unfolding follow
follow-reaches zero src k w h = absurd (omega arith)
follow-reaches (suc n) src k {i} (stops p s) h = ground (arith, lt→ltb i nr_slots p)
follow-reaches (suc n) src k {i} (goes {j} {xs = r} p s f w) h = ground (
  arith,
  lt→ltb i nr_slots p,
  subst (λ (a : ℕ). follow n src a k ≡ ok (reaches k.table src r) k) (sym f)
      (follow-reaches n src k w (omega arith)),
)

-- `i` waits to send to `src`, or to a process that does so in turn.
pub data WaitsOn (t : Table) (src : ℕ) : ℕ → Type 0 where
  direct : {i : ℕ} → IsSending t i true → (t i).p_sendto ≡ src → WaitsOn t src i
  through : {i j : ℕ} → IsSending t i true → (t i).p_sendto ≡ j → WaitsOn t src j → WaitsOn t src i

pub WaitsOn-of_reaches :
    {t : Table} {i : ℕ} {xs : List ℕ} (src : ℕ)
    → Walk t i xs
    → reaches t src xs ≡ true
    → WaitsOn t src i
WaitsOn-of_reaches src (stops p s) h = absurd (ground arith)
WaitsOn-of_reaches {t} src (goes {i} {xs = r} p s f w) h =
    elim (Bool-cases ((t i).p_sendto == src)) [
      | inl hit ↦ direct s (ground arith)
      | inr miss ↦ through s f (WaitsOn-of_reaches src w (ground arith))
    ]

pub reaches_of_WaitsOn :
    {t : Table} {i j : ℕ} {xs : List ℕ} (src : ℕ)
    → Walk t i xs
    → i ≡ j
    → WaitsOn t src j
    → reaches t src xs ≡ true
reaches_of_WaitsOn {t} src (stops p s) e (direct g h) =
    absurd (cc (subst (λ (a : ℕ). IsSending t a false) e s))
reaches_of_WaitsOn {t} src (stops p s) e (through g h v) =
    absurd (cc (subst (λ (a : ℕ). IsSending t a false) e s))
reaches_of_WaitsOn {t} src (goes p s f w) e (direct {i = b} g h) =
    let to : (t b).p_sendto ≡ src = h in
    ground (arith, subst (λ (a : ℕ). (t a).p_sendto ≡ src) (sym e) h)
reaches_of_WaitsOn {t} src (goes {i} {j} p s f w) e (through {i = b} {j = c} g h v) =
    ground
      (arith, reaches_of_WaitsOn src w (sym f ∙ subst (λ (a : ℕ). (t a).p_sendto ≡ c) (sym e) h) v)
