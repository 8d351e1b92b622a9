-- ===== src/Ipc/Acyclic.antt =====
-- The absence of circles is kept when a process starts to wait for one that does not wait for it,
-- and when a process stops waiting.
use oscourse_project.Base.{
  ℕ, ◌<◌, ◌≡◌, ◌≢◌, ◌∙◌, subst, true, false, List, [], ◌∷◌, arith, ◌==◌, elem, has_flag, Bool-cases,
  inl, inr,
}
use oscourse_project.Proc.{Table, sending, nr_slots}
use oscourse_project.Ipc.Walk.{IsSending, Walk, stops, goes, IsAcyclic, reaches}

-- Entry `i` waits alike in both tables.
abbrev pub SameWait : Table → Table → ℕ → Type 0
SameWait t t' i =
    (has_flag (t' i).p_flags sending ≡ has_flag (t i).p_flags sending)
    × ((t' i).p_sendto ≡ (t i).p_sendto)

pub Walk-frame :
    {t : Table} (t' : Table) {i : ℕ} {xs : List ℕ}
    → Walk t i xs
    → ((a : ℕ) → elem a xs ≡ true → SameWait t t' a)
    → Walk t' i xs
Walk-frame t' (stops {i} p s) same = stops p ((same i (ground arith)).0 ∙ s)
Walk-frame t' (goes {i} {xs = r} p s f w) same =
    goes p ((same i (ground arith)).0 ∙ s) ((same i (ground arith)).1 ∙ f)
      (Walk-frame t' w (λ a m. same a (ground arith)))

not-elem-Walk :
    {t : Table} {i : ℕ} {xs : List ℕ} (src : ℕ)
    → Walk t i xs
    → reaches t src xs ≡ false
    → i ≢ src
    → elem src xs ≡ false
not-elem-Walk src (stops p s) h ne = ground arith
not-elem-Walk {t} src (goes {i} {j} {xs = r} p s f w) h ne =
    ground (arith, not-elem-Walk src w (ground arith) (ground arith))

module _ {t t' : Table} {s : ℕ} (same : (i : ℕ) → i ≢ s → SameWait t t' i) where
  -- From where `s` waits now, a walk leads on.
  Walk-extend :
      {ds : List ℕ} {i : ℕ} {xs : List ℕ}
      → IsSending t s false
      → Walk t' s ds
      → Walk t i xs
      → (ys : List ℕ) × Walk t' i ys
  Walk-extend {ds} idle v (stops {i} p u) = elim (Bool-cases (i == s)) [
    | inl hit ↦ (ds, subst (λ (a : ℕ). Walk t' a ds) (ground arith) v)
    | inr miss ↦ (i ∷ [], stops p ((same i (ground arith)).0 ∙ u))
  ]
  Walk-extend {ds} idle v (goes {i} {xs = r} p u f w) =
      let ne : i ≢ s = λ e. absurd (cc (subst (λ (a : ℕ). IsSending t a true) e u)) in
      let (ys, w') = Walk-extend idle v w in
      (i ∷ ys, goes p ((same i ne).0 ∙ u) ((same i ne).1 ∙ f) w')

  -- `s` starts to wait for `d`, which does not wait for it.
  pub IsAcyclic-block :
      {d : ℕ} {ds : List ℕ}
      → s < nr_slots
      → IsSending t s false
      → IsSending t' s true
      → (t' s).p_sendto ≡ d
      → d ≢ s
      → Walk t d ds
      → reaches t s ds ≡ false
      → IsAcyclic t
      → IsAcyclic t'
  IsAcyclic-block {ds} small idle now to ne w free h i a =
      let out = not-elem-Walk s w free ne in
      let w' =
        Walk-frame t' w
          (λ b m. same b (λ e. absurd (cc (subst (λ (c : ℕ). elem c ds ≡ true) e m)))) in
      Walk-extend idle (goes small now to w') (h i a).1

  Walk-release :
      {i : ℕ} {xs : List ℕ}
      → s < nr_slots
      → IsSending t' s false
      → Walk t i xs
      → (ys : List ℕ) × Walk t' i ys
  Walk-release small idle (stops {i} p u) = elim (Bool-cases (i == s)) [
    | inl hit ↦ (s ∷ [], subst (λ (a : ℕ). Walk t' a (s ∷ [])) (ground arith) (stops small idle))
    | inr miss ↦ (i ∷ [], stops p ((same i (ground arith)).0 ∙ u))
  ]
  Walk-release small idle (goes {i} {xs = r} p u f w) = elim (Bool-cases (i == s)) [
    | inl hit ↦ (s ∷ [], subst (λ (a : ℕ). Walk t' a (s ∷ [])) (ground arith) (stops small idle))
    | inr miss ↦
        let (ys, w') = Walk-release small idle w in
        (i ∷ ys, goes p ((same i (ground arith)).0 ∙ u) ((same i (ground arith)).1 ∙ f) w')
  ]

  -- `s` waits no longer.
  pub IsAcyclic-release : s < nr_slots → IsSending t' s false → IsAcyclic t → IsAcyclic t'
  IsAcyclic-release small idle h i a = Walk-release small idle (h i a).1
