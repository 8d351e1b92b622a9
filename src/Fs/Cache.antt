-- ===== src/Fs/Cache.antt =====
-- fs/main.c `get_inode` and `put_inode`: the table of i-nodes is a cache with a count in each slot. The search for
-- an i-node in the table.
pub mod Unique
pub mod Get
use oscourse_project.Base.{
  ℕ, zero, suc, ◌+◌, ◌-◌, ◌*◌, ◌/◌, ◌%◌, ◌^◌, ◌≤◌, ◌<◌, ◌≡◌, ◌≢◌, refl, ap, ◌∙◌, sym, Bool, true,
  false, not, ◌&&◌, Option, none, some, ltb, leb, ◌==◌, if◌then◌else◌, arith, some_inj,
  Option-cases, Bool-cases, ◌⊎◌, inl, inr, ==→eq, eq→==, subst, ne→==, ==-self,
}
use oscourse_project.Act.{Act, Result, ok}
use oscourse_project.Fs.State.{Fs, Inode, SuperBlock, put_in, rd_sect, read_disk}
use oscourse_project.Fs.Inodes.{
  Slot, cached, vacant, holds, find_slot, get_inode, put_inode, read_inode, load_inode,
}
use oscourse_project.Fs.Mounted.{Mounted, get_super_block-Mounted}

pub Slot-cases :
    (x : Slot)
    → ((k : ℕ) × (x ≡ cached k)) ⊎ ((x ≡ vacant none) ⊎ ((k : ℕ) × (x ≡ vacant (some k))))
Slot-cases (cached k) = inl (k, refl)
Slot-cases (vacant none) = inr (inl refl)
Slot-cases (vacant (some k)) = inr (inr (k, refl))

abbrev index : Slot → ℕ
index (cached k) = k
index (vacant q) = 0

abbrev slot : Slot → Option ℕ
slot (cached k) = some k
slot (vacant q) = q

module _ (dev num : ℕ) (t : ℕ → Inode) where
  -- The first free slot up to slot `i`.
  abbrev choice : (i : ℕ) → Option ℕ → Option ℕ
  choice i q = if (t i).i_cnt == 0 then (elim q [ none ↦ some i | some j ↦ some j ]) else q

  hit :
      (n i : ℕ) (q : Option ℕ)
      → holds (t i) dev num ≡ true
      → find_slot (suc n) i dev num t q ≡ cached i
  unfolding find_slot
  hit n i q e = ap (λ b. if b then cached i else find_slot n (i + 1) dev num t (choice i q)) e

  miss :
      (n i : ℕ) (q : Option ℕ)
      → holds (t i) dev num ≡ false
      → find_slot (suc n) i dev num t q ≡ find_slot n (i + 1) dev num t (choice i q)
  unfolding find_slot
  miss n i q e = ap (λ b. if b then cached i else find_slot n (i + 1) dev num t (choice i q)) e

  pub find_slot-cached :
      (n i k : ℕ) (q : Option ℕ)
      → find_slot n i dev num t q ≡ cached k
      → (k < i + n) × (holds (t k) dev num ≡ true)
  unfolding find_slot
  find_slot-cached zero i k q h = absurd (cc)
  find_slot-cached (suc n) i k q h = elim (Bool-cases (holds (t i) dev num)) [
    | inl e ↦
        let w : i ≡ k = ap index (sym (hit n i q e) ∙ h) in
        (omega (arith, w), ap (λ (x : ℕ). holds (t x) dev num) (sym w) ∙ e)
    | inr e ↦
        let (a, b) = find_slot-cached n (i + 1) k (choice i q) (sym (miss n i q e) ∙ h) in
        (omega arith, b)
  ]

  pub find_slot-clear :
      (n i m : ℕ) (q r : Option ℕ)
      → find_slot n i dev num t q ≡ vacant r
      → i ≤ m
      → m < i + n
      → holds (t m) dev num ≡ false
  find_slot-clear zero i m q r h l l' = absurd (omega arith)
  find_slot-clear (suc n) i m q r h l l' = elim (Bool-cases (holds (t i) dev num)) [
    | inl e ↦ absurd (let w : cached i ≡ vacant r = sym (hit n i q e) ∙ h in cc)
    | inr e ↦ elim (Bool-cases (m == i)) [
      | inl w ↦ ap (λ (x : ℕ). holds (t x) dev num) (==→eq m i w) ∙ e
      | inr w ↦
          find_slot-clear n (i + 1) m (choice i q) r (sym (miss n i q e) ∙ h) (ground (arith, w))
            (omega arith)
    ]
  ]

  -- A slot below 64 that is free, if there is one.
  abbrev pub Vacant : Option ℕ → Type 0
  Vacant none = Unit {0}
  Vacant (some k) = (k < 64) × ((t k).i_cnt ≡ 0)

  choice-Vacant : (i : ℕ) (q : Option ℕ) → i < 64 → Vacant q → Vacant (choice i q)
  choice-Vacant i none l f = elim (Bool-cases ((t i).i_cnt == 0)) [
    | inl e ↦ subst (λ b. Vacant (if b then some i else none)) (sym e) (l, ==→eq (t i).i_cnt 0 e)
    | inr e ↦ subst (λ b. Vacant (if b then some i else none)) (sym e) tt
  ]
  choice-Vacant i (some k) l f = elim (Bool-cases ((t i).i_cnt == 0)) [
    | inl e ↦ subst (λ b. Vacant (if b then some k else some k)) (sym e) f
    | inr e ↦ subst (λ b. Vacant (if b then some k else some k)) (sym e) f
  ]

  pub find_slot-Vacant :
      (n i : ℕ) (q r : Option ℕ)
      → i + n ≤ 64
      → Vacant q
      → find_slot n i dev num t q ≡ vacant r
      → Vacant r
  unfolding find_slot
  find_slot-Vacant zero i q r l f h = subst Vacant (ap slot h) f
  find_slot-Vacant (suc n) i q r l f h = elim (Bool-cases (holds (t i) dev num)) [
    | inl e ↦ absurd (let w : cached i ≡ vacant r = sym (hit n i q e) ∙ h in cc)
    | inr e ↦
        find_slot-Vacant n (i + 1) (choice i q) r (omega arith) (choice-Vacant i q (omega arith) f)
          (sym (miss n i q e) ∙ h)
  ]

  choice-some : (i k : ℕ) → choice i (some k) ≡ some k
  choice-some i k = elim (Bool-cases ((t i).i_cnt == 0)) [
    | inl e ↦ ap (λ b. if b then some k else some k) e
    | inr e ↦ ap (λ b. if b then some k else some k) e
  ]

  choice_free : (i : ℕ) → (t i).i_cnt ≡ 0 → choice i none ≡ some i
  choice_free i e = ap (λ (b : Bool). if b then some i else none) (eq→== (t i).i_cnt 0 e)

  find_slot-some : (n i k : ℕ) → find_slot n i dev num t (some k) ≢ vacant none
  unfolding find_slot
  find_slot-some zero i k h = let w : some k ≡ none = ap slot h in cc
  find_slot-some (suc n) i k h = elim (Bool-cases (holds (t i) dev num)) [
    | inl e ↦ let w : cached i ≡ vacant none = sym (hit n i (some k) e) ∙ h in cc
    | inr e ↦
        find_slot-some n (i + 1) k
          (sym (miss n i (some k) e ∙ ap (find_slot n (i + 1) dev num t) (choice-some i k)) ∙ h)
  ]

  -- A table with a free slot is not full.
  pub find_slot_free :
      (n i x : ℕ) (q : Option ℕ)
      → (t x).i_cnt ≡ 0
      → i ≤ x
      → x < i + n
      → find_slot n i dev num t q ≢ vacant none
  find_slot_free n i x (some k) e l l' h = find_slot-some n i k h
  find_slot_free zero i x none e l l' h = absurd (omega arith)
  find_slot_free (suc n) i x none e l l' h = elim (Bool-cases (holds (t i) dev num)) [
    | inl b ↦ let w : cached i ≡ vacant none = sym (hit n i none b) ∙ h in cc
    | inr b ↦ elim (Bool-cases (i == x)) [
      | inl w ↦ find_slot-some n (i + 1) i (
          sym (
            miss n i none b
            ∙ ap (find_slot n (i + 1) dev num t)
                (choice_free i (ap (λ (y : ℕ). (t y).i_cnt) (==→eq i x w) ∙ e)))
          ∙ h)
      | inr w ↦
          find_slot_free n (i + 1) x (choice i none) e (ground (arith, w)) (omega arith)
            (sym (miss n i none b) ∙ h)
    ]
  ]
