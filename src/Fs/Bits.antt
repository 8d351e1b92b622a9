-- ===== src/Fs/Bits.antt =====
-- fs/open.c and fs/link.c: one bit of a byte of a bit map.
use oscourse_project.Base.{
  ℕ, zero, suc, ◌^◌, ◌<◌, ◌≡◌, ◌≢◌, refl, ap, ◌∙◌, Bool, true, false, not, ◌&&◌, ◌||◌, sym, ltb,
  ◌==◌, has_flag, set_flag, clear_flag, arith, ==→eq, ltb→lt, Bool-cases, inl, inr,
}
use oscourse_project.Fs.Maps.{bit_at, zero_bit}

abbrev pub all_below : ℕ → (ℕ → Bool) → Bool
all_below zero f = true
all_below (suc n) f = f n && all_below n f

pub all_below_lem : (n m : ℕ) (f : ℕ → Bool) → all_below n f ≡ true → m < n → f m ≡ true
all_below_lem zero m f e h = absurd (omega arith)
all_below_lem (suc n) m f e h = elim (Bool-cases (m == n)) [
  | inl q ↦ ap f (==→eq m n q) ∙ ground (arith, e)
  | inr q ↦ all_below_lem n m f (ground (arith, e)) (ground (arith, q))
]

abbrev pub agree : Bool → Bool → Bool
agree true b = b
agree false b = not b

-- Bit `k` is the first free one of a byte, and can be set and cleared again.
pub record FirstFree (b k : ℕ) : Type 0 where
  pub below : k < 8
  pub free : bit_at b k ≡ false
  pub used : (m : ℕ) → m < k → bit_at b m ≡ true
  pub taken : bit_at (set_flag b (2 ^ k)) k ≡ true
  pub others : (m : ℕ) → m < 8 → m ≢ k → bit_at (set_flag b (2 ^ k)) m ≡ bit_at b m
  pub restored : clear_flag (set_flag b (2 ^ k)) (2 ^ k) ≡ b

-- The same as tests.
abbrev other_bit : (b k m : ℕ) → Bool
other_bit b k m = (m == k) || agree (bit_at (set_flag b (2 ^ k)) m) (bit_at b m)

abbrev tests : (b k : ℕ) → Bool
tests b k =
    ltb k 8
    && (not (bit_at b k)
        && (all_below k (bit_at b)
            && (bit_at (set_flag b (2 ^ k)) k
                && ((clear_flag (set_flag b (2 ^ k)) (2 ^ k) == b)
                    && all_below 8 (other_bit b k)))))

abbrev good_byte : ℕ → Bool
good_byte b = tests b (zero_bit 8 0 b)

good_bytes : all_below 255 good_byte ≡ true
unfolding zero_bit has_flag set_flag clear_flag
good_bytes = refl

split_and : (a b : Bool) → (a && b) ≡ true → (a ≡ true) × (b ≡ true)
split_and true b h = (refl, h)
split_and false b h = absurd (cc)

agree→eq : (a b : Bool) → agree a b ≡ true → a ≡ b
agree→eq true b h = sym h
agree→eq false true h = absurd (cc)
agree→eq false false h = refl

off : (b : Bool) → not b ≡ true → b ≡ false
off true h = sym h
off false h = refl

other : (m k : ℕ) (a : Bool) → m ≢ k → ((m == k) || a) ≡ true → a ≡ true
other m k a d h = ground arith

tests-FirstFree : (b k : ℕ) → tests b k ≡ true → FirstFree b k
tests-FirstFree b k h =
    let set : ℕ = set_flag b (2 ^ k) in
    let back : Bool = clear_flag set (2 ^ k) == b in
    let (l, h1) =
      split_and (ltb k 8)
        (not (bit_at b k)
          && (all_below k (bit_at b) && (bit_at set k && (back && all_below 8 (other_bit b k)))))
        h in
    let (f, h2) =
      split_and (not (bit_at b k))
        (all_below k (bit_at b) && (bit_at set k && (back && all_below 8 (other_bit b k)))) h1 in
    let (u, h3) =
      split_and (all_below k (bit_at b)) (bit_at set k && (back && all_below 8 (other_bit b k)))
        h2 in
    let (t, h4) = split_and (bit_at set k) (back && all_below 8 (other_bit b k)) h3 in
    let (r, o) = split_and back (all_below 8 (other_bit b k)) h4 in
    record {
      below = ltb→lt k 8 l;
      free = off (bit_at b k) f;
      used = λ m lt. all_below_lem k m (bit_at b) u lt;
      taken = t;
      others = λ m lt d. agree→eq (bit_at set m) (bit_at b m) (
          other m k (agree (bit_at set m) (bit_at b m)) d (all_below_lem 8 m (other_bit b k) o lt));
      restored = ==→eq (clear_flag set (2 ^ k)) b r;
    }

-- In a byte that is not full, the loop over its bits stops at the first free one.
pub zero_bit-FirstFree : (b : ℕ) → b < 256 → b ≢ 0xFF → FirstFree b (zero_bit 8 0 b)
zero_bit-FirstFree b h n =
    tests-FirstFree b (zero_bit 8 0 b) (all_below_lem 255 b good_byte good_bytes (omega arith))
