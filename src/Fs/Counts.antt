-- ===== src/Fs/Counts.antt =====
-- fs/main.c `fs_fork` and `fs_exit`: the counts of descriptors and i-nodes. What
-- `filp` names, and the change of one entry of a table.
pub mod Fork
pub mod Exit
use oscourse_project.Base.{
  ℕ, zero, suc, ◌+◌, ◌-◌, ◌*◌, ◌%◌, ◌^◌, ◌≤◌, ◌<◌, ◌≡◌, ◌≢◌, refl, ap, ◌∙◌, sym, subst, Bool, true,
  false, Option, none, some, List, [], ◌∷◌, ◌==◌, if◌then◌else◌, arith, ◌⊎◌, inl, inr, Bool-cases,
  ==→eq, ne→==, ==-self,
}
use oscourse_project.Act.{Act, Result, ok, deref, and_then}
use oscourse_project.Act.Laws.{and_then-ok}
use oscourse_project.Fs.State.{Fs, Inode, FileDesc, put_in, put_desc, put_proc}
use oscourse_project.Fs.Open.{drop_desc}
use oscourse_project.Fs.Share.{
  more_inode, less_inode, more_desc, share, share_all, fs_fork, release, release_all, fs_exit,
  no_descs,
}

-- 1 if the pointer is to `i`, or else 0.
abbrev pub points : Option ℕ → ℕ → ℕ
points none i = 0
points (some j) i = if j == i then 1 else 0

-- How many entries of `filp` name descriptor `d`.
abbrev pub uses : List (Option ℕ) → (d : ℕ) → ℕ
uses [] d = 0
uses (none ∷ l) d = uses l d
uses (some e ∷ l) d = points (some e) d + uses l d

-- How many entries of `filp` name a descriptor of i-node `i`.
abbrev pub refs : (ℕ → FileDesc) → List (Option ℕ) → (i : ℕ) → ℕ
refs t [] i = 0
refs t (none ∷ l) i = refs t l i
refs t (some d ∷ l) i = points (t d).fd_inode i + refs t l i

-- Each descriptor that `filp` names has an i-node.
abbrev pub Linked : (ℕ → FileDesc) → List (Option ℕ) → Type 0
Linked t [] = Unit {0}
Linked t (none ∷ l) = Linked t l
Linked t (some d ∷ l) = ((i : ℕ) × ((t d).fd_inode ≡ some i)) × Linked t l

abbrev pub SameLinks : (t u : ℕ → FileDesc) → Type 0
SameLinks t u = (d : ℕ) → (u d).fd_inode ≡ (t d).fd_inode

pub refs_same :
    (t u : ℕ → FileDesc) (l : List (Option ℕ)) (i : ℕ) → SameLinks t u → refs u l i ≡ refs t l i
refs_same t u [] i h = refl
refs_same t u (none ∷ l) i h = refs_same t u l i h
refs_same t u (some d ∷ l) i h = omega (arith, refs_same t u l i h, ap (λ o. points o i) (h d))

pub Linked-same :
    (t u : ℕ → FileDesc) (l : List (Option ℕ)) → SameLinks t u → Linked t l → Linked u l
Linked-same t u [] h k = tt
Linked-same t u (none ∷ l) h k = Linked-same t u l h k
Linked-same t u (some d ∷ l) h ((i, e), k) = ((i, h d ∙ e), Linked-same t u l h k)

module _ {A : Type 0} (t : ℕ → A) (d e : ℕ) (x : A) where
  pub kept : {B : Type 0} (f : A → B) → f x ≡ f (t d) → f (if d == e then x else t e) ≡ f (t e)
  kept f h = elim (Bool-cases (d == e)) [
    | inl w ↦
        ap (λ (b : Bool). f (if b then x else t e)) w ∙ h ∙ ap (λ (n : ℕ). f (t n)) (==→eq d e w)
    | inr w ↦ ap (λ (b : Bool). f (if b then x else t e)) w
  ]

  pub raised :
      (f : A → ℕ) → f x ≡ f (t d) + 1 → f (if d == e then x else t e) ≡ f (t e) + points (some d) e
  raised f h = elim (Bool-cases (d == e)) [
    | inl w ↦
        ap (λ (b : Bool). f (if b then x else t e)) w
        ∙ h
        ∙ ap (λ (n : ℕ). f (t n) + 1) (==→eq d e w)
        ∙ ap (λ (b : Bool). f (t e) + (if b then 1 else 0)) (sym w)
    | inr w ↦
        ap (λ (b : Bool). f (if b then x else t e)) w
        ∙ omega (arith, ap (λ (b : Bool). f (t e) + (if b then 1 else 0)) w)
  ]

  pub lowered :
      (f : A → ℕ) → f x + 1 ≡ f (t d) → f (if d == e then x else t e) + points (some d) e ≡ f (t e)
  lowered f h = elim (Bool-cases (d == e)) [
    | inl w ↦
        ap (λ (b : Bool). f (if b then x else t e) + (if b then 1 else 0)) w
        ∙ h
        ∙ ap (λ (n : ℕ). f (t n)) (==→eq d e w)
    | inr w ↦ omega (arith, ap (λ (b : Bool). f (if b then x else t e) + (if b then 1 else 0)) w)
  ]

pub points_self : (d : ℕ) → points (some d) d ≡ 1
points_self d = ap (λ (b : Bool). if b then 1 else 0) (==-self d)
