-- ===== src/Fs/Cache/Unique.antt =====
-- The table of i-nodes: which slot holds an i-node, and that no two do.
use oscourse_project.Base.{
  ℕ, ◌<◌, ◌≡◌, ◌≢◌, ap, ◌∙◌, sym, Bool, true, false, ◌==◌, if◌then◌else◌, arith, Bool-cases, ◌⊎◌,
  inl, inr, ==→eq, ne→==, ==-self,
}
use oscourse_project.Fs.State.{Inode}
use oscourse_project.Fs.Inodes.{holds}

-- No i-node is in two slots of the table.
abbrev pub Unique : (ℕ → Inode) → Type 0
Unique t =
    (i j dev num : ℕ)
    → i < 64
    → j < 64
    → holds (t i) dev num ≡ true
    → holds (t j) dev num ≡ true
    → i ≡ j

pub holds_parts :
    (p : Inode) (dev num : ℕ)
    → holds p dev num ≡ true
    → (p.i_cnt ≢ 0) × (p.i_dev ≡ dev) × (p.i_num ≡ num)
holds_parts p dev num h = ((λ e. ground (arith, e, h)), ground (arith, h), ground (arith, h))

pub holds_same :
    (p : Inode) (dev num : ℕ) → p.i_cnt ≢ 0 → p.i_dev ≡ dev → p.i_num ≡ num → holds p dev num ≡ true
holds_same p dev num c d n = ground (arith, c, d, n)

met :
    (t : ℕ → Inode) (i dev num b : ℕ)
    → Unique t
    → i < 64
    → b < 64
    → (holds (t i) dev num ≡ true) ⊎ ((j : ℕ) → j < 64 → holds (t j) dev num ≡ false)
    → holds (t b) dev num ≡ true
    → i ≡ b
met t i dev num b u li lb (inl w) h = u i b dev num li lb w h
met t i dev num b u li lb (inr all) h = absurd (let w : true ≡ false = sym h ∙ all b lb in cc)

-- A slot may be given to an i-node that it holds, or that no slot holds.
pub Unique-put :
    (t : ℕ → Inode) (i : ℕ) (p : Inode)
    → Unique t
    → ((dev num : ℕ)
        → holds p dev num ≡ true
        → (holds (t i) dev num ≡ true) ⊎ ((j : ℕ) → j < 64 → holds (t j) dev num ≡ false))
    → Unique (λ j. if i == j then p else t j)
Unique-put t i p u c a b dev num la lb ha hb =
    let in_slot : (x : ℕ) (v : Bool)
        → (i == x) ≡ v
        → holds (if i == x then p else t x) dev num ≡ true
        → holds (if v then p else t x) dev num ≡ true =
      λ x v e h. sym (ap (λ w. holds (if w then p else t x) dev num) e) ∙ h in
    elim (Bool-cases (i == a)) [
      | inl ea ↦ elim (Bool-cases (i == b)) [
        | inl eb ↦ sym (==→eq i a ea) ∙ ==→eq i b eb
        | inr eb ↦
            sym (==→eq i a ea)
            ∙ met t i dev num b u (omega (arith, ==→eq i a ea)) lb
                (c dev num (in_slot a true ea ha)) (in_slot b false eb hb)
      ]
      | inr ea ↦ elim (Bool-cases (i == b)) [
        | inl eb ↦
            sym (
              met t i dev num a u (omega (arith, ==→eq i b eb)) la
                (c dev num (in_slot b true eb hb)) (in_slot a false ea ha))
            ∙ ==→eq i b eb
        | inr eb ↦ u a b dev num la lb (in_slot a false ea ha) (in_slot b false eb hb)
      ]
    ]

pub counted-put : (t : ℕ → Inode) (i j : ℕ) (p : Inode) → i ≢ j → (if i == j then p else t j) ≡ t j
counted-put t i j p h = ap (λ (b : Bool). if b then p else t j) (ne→== i j h)

pub put_self : (t : ℕ → Inode) (i : ℕ) (p : Inode) → (if i == i then p else t i) ≡ p
put_self t i p = ap (λ (b : Bool). if b then p else t i) (==-self i)
