-- ===== src/FileTable/Lookup.antt =====
-- Names in the directory of pro1/src/kernel/file.c.
use oscourse_project.Base.{
  ℕ, zero, suc, ◌+◌, ◌<◌, ◌≡◌, refl, sym, ap, ◌∙◌, true, none, some, ltb, if◌then◌else◌, arith,
  Bool-cases, lt→ltb, inl, inr, then_of_true, else_of_false,
}
use oscourse_project.FileTable.{Fcb, Dir, same_from, same_file_name, set_name, fchk_from, f_namelen}

same_from_agree :
    (n i : ℕ) (a b : ℕ → ℕ) → ((j : ℕ) → j < i + n → a j ≡ b j) → same_from n i a b ≡ true
unfolding same_from
same_from_agree zero i a b h = refl
same_from_agree (suc n) i a b h =
    let rest = same_from_agree n (i + 1) a b (λ j q. h j (omega (arith, q))) in
    ground (arith, rest, h i (omega arith))

-- A name compares equal to its own copy.
pub same_file_name-set_name : (dest src : ℕ → ℕ) → same_file_name (set_name dest src) src ≡ true
unfolding same_file_name set_name
same_file_name-set_name dest src =
    same_from_agree f_namelen 0 (λ i. if ltb i f_namelen then src i else dest i) src
      (λ j q. then_of_true (src j) (dest j) (lt→ltb j f_namelen q))

-- The first `n` entries from `i` on do not have the name, and the next one, entry `k`, has.
pub fchk_from_add :
    (n i k : ℕ) (name : ℕ → ℕ) (d e : Dir)
    → k ≡ i + n
    → fchk_from n i name d ≡ none
    → ((j : ℕ) → j < k → e.fcb j ≡ d.fcb j)
    → same_file_name (e.fcb k).name name ≡ true
    → fchk_from (suc n) i name e ≡ some k
unfolding fchk_from
fchk_from_add zero i k name d e p h agree new =
    let q : k ≡ i = omega (arith, p) in
    then_of_true (some i) (fchk_from zero (i + 1) name e)
      (ap (λ (j : ℕ). same_file_name (e.fcb j).name name) (sym q) ∙ new)
    ∙ ap some (sym q)
fchk_from_add (suc n) i k name d e p h agree new =
    let same : (e.fcb i).name ≡ (d.fcb i).name =
      ap (λ (f : Fcb). f.name) (agree i (omega (arith, p))) in
    elim (Bool-cases (same_file_name (d.fcb i).name name)) [
      | inl q ↦ absurd (cc (h, then_of_true (some i) (fchk_from n (i + 1) name d) q))
      | inr q ↦
          else_of_false (some i) (fchk_from (suc n) (i + 1) name e)
            (ap (λ (m : ℕ → ℕ). same_file_name m name) same ∙ q)
          ∙ fchk_from_add n (i + 1) k name d e (omega (arith, p))
              (sym (else_of_false (some i) (fchk_from n (i + 1) name d) q) ∙ h) agree new
    ]
