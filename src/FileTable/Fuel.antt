-- ===== src/FileTable/Fuel.antt =====
-- The loops of pro1/src/kernel/file.c whose rounds change the count that ends them: as many rounds
-- as the count at the start are enough.
use oscourse_project.Base.{
  ℕ, zero, suc, ◌+◌, ◌-◌, ◌%◌, ◌^◌, ◌≤◌, ◌<◌, ◌≡◌, sym, ap, ◌∙◌, Bool, true, false, ltb, leb, ◌==◌,
  if◌then◌else◌, arith, Bool-cases, inl, inr, ltb→lt, le→ltb, then_of_true, else_of_false,
}
use oscourse_project.FileTable.{Dir, Eptbl, put_item, put_fcb}
use oscourse_project.FileTable.Ops.{shift_items, shift_entries, take_blocks, search_blocks}

-- With the count as fuel, one round more of `shift_items` makes no difference.
pub shift_items_enough :
    (n j : ℕ) (t : Eptbl)
    → t.count ≤ n
    → t.count < 2 ^ 16
    → shift_items (suc n) j t ≡ shift_items n j t
unfolding shift_items put_item
shift_items_enough zero j t h small = else_of_false _ t (le→ltb (j + 1) t.count (omega (arith, h)))
shift_items_enough (suc n) j t h small = elim (Bool-cases (ltb (j + 1) t.count)) [
  | inl e ↦
      let moved : Eptbl = record (put_item j (t.item (j + 1)) t) {
        count = (t.count + 2 ^ 16 - 1) % 2 ^ 16;
      } in
      let some_left : j + 1 < t.count = ltb→lt (j + 1) t.count e in
      ap (λ (u : Eptbl). if ltb (j + 1) t.count then u else t)
        (shift_items_enough n (j + 1) moved (omega (arith, h, some_left, small)) (omega arith))
  | inr e ↦ else_of_false _ t e ∙ sym (else_of_false _ t e)
]

-- The same of `shift_entries`.
pub shift_entries_enough :
    (n i : ℕ) (d : Dir)
    → d.count ≤ n
    → d.count < 2 ^ 8
    → shift_entries (suc n) i d ≡ shift_entries n i d
unfolding shift_entries put_fcb
shift_entries_enough zero i d h small =
    else_of_false _ d (le→ltb (i + 1) d.count (omega (arith, h)))
shift_entries_enough (suc n) i d h small = elim (Bool-cases (ltb (i + 1) d.count)) [
  | inl e ↦
      let some_left : i + 1 < d.count = ltb→lt (i + 1) d.count e in
      ap (λ (u : Dir). if ltb (i + 1) d.count then u else d)
        (shift_entries_enough n (i + 1) _ (omega (arith, h, some_left, small)) (omega arith))
  | inr e ↦ else_of_false _ d e ∙ sym (else_of_false _ d e)
]

shift_items-le : (n j : ℕ) (t : Eptbl) → t.count < 2 ^ 16 → (shift_items n j t).count ≤ t.count
unfolding shift_items put_item
shift_items-le zero j t small = omega arith
shift_items-le (suc n) j t small = elim (Bool-cases (ltb (j + 1) t.count)) [
  | inl e ↦
      let moved : Eptbl = record (put_item j (t.item (j + 1)) t) {
        count = (t.count + 2 ^ 16 - 1) % 2 ^ 16;
      } in
      omega (
        arith,
        ap (λ (u : Eptbl). u.count) (then_of_true (shift_items n (j + 1) moved) t e),
        shift_items-le n (j + 1) moved (omega arith),
        ltb→lt (j + 1) t.count e,
      )
  | inr e ↦ omega (arith, ap (λ (u : Eptbl). u.count) (else_of_false (shift_items n (j + 1) _) t e))
]

-- Each branch of a round has a count of at most `n`.
chosen_le :
    (b c : Bool) (x y : ℕ) (u v w : Eptbl) (n : ℕ)
    → u.count ≤ n
    → v.count ≤ n
    → w.count ≤ n
    → (if◌then◌else◌ {A = ℕ × Eptbl} b (x, (if c then u else v)) (y, w)).1.count ≤ n
chosen_le true true x y u v w n h h2 h3 = h
chosen_le true false x y u v w n h h2 h3 = h2
chosen_le false c x y u v w n h h2 h3 = h3

take_blocks-le :
    (i blocknum start : ℕ) (t : Eptbl)
    → t.count < 2 ^ 16
    → (take_blocks i blocknum start t).1.count ≤ t.count
unfolding take_blocks put_item
take_blocks-le i blocknum start t small =
    let left : ℕ = ((t.item i).size + 2 ^ 32 - blocknum) % 2 ^ 16 in
    let taken : Eptbl = put_item i (record (t.item i) { size = left }) t in
    chosen_le (leb (t.item i).size blocknum) (left == 0) (t.item i).start start
      (shift_items t.count i taken) taken t t.count (shift_items-le t.count i taken small)
      (omega arith) (omega arith)

-- With as many rounds as items lie ahead, one more round of `search_blocks` makes no difference.
pub search_blocks_enough :
    (n i blocknum start : ℕ) (t : Eptbl)
    → t.count ≤ i + n
    → t.count < 2 ^ 16
    → search_blocks (suc n) i blocknum start t ≡ search_blocks n i blocknum start t
unfolding search_blocks
search_blocks_enough zero i blocknum start t h small =
    else_of_false _ (start, t) (le→ltb i t.count (omega (arith, h)))
search_blocks_enough (suc n) i blocknum start t h small =
    let le = take_blocks-le i blocknum start t small in
    ap (λ (r : ℕ × Eptbl). if ltb i t.count then r else (start, t))
      (search_blocks_enough n (i + 1) blocknum (take_blocks i blocknum start t).0
        (take_blocks i blocknum start t).1 (omega (arith, le, h)) (omega (arith, le, small)))
