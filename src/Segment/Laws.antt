-- ===== src/Segment/Laws.antt =====
-- Descriptors give back the base they were made from; a copy moves bytes and touches no others.
use oscourse_project.Base.{
  ℕ, zero, ◌-◌, suc, ◌+◌, ◌*◌, ◌/◌, ◌%◌, ◌^◌, ◌≤◌, ◌<◌, ◌≡◌, ◌∙◌, ap, ◌⊎◌, inl, inr, arith,
  if◌then◌else◌, ltb, leb, ◌&&◌, then_of_true,
}
use Prim.Native.Nat.{bit_or}
use oscourse_project.Base.Bits.{bit_or_field}
use oscourse_project.Segment.{init_desc, ldt_seg_linear, poke, poke_int, load_int, copy}

-- A descriptor built by `init_desc` for a 32-bit base has that base, whatever its limit and
-- attributes.
pub ldt_seg_linear-init_desc :
    (base limit attribute : ℕ)
    → base < 2 ^ 32
    → ldt_seg_linear (init_desc base limit attribute) ≡ base
unfolding ldt_seg_linear init_desc
ldt_seg_linear-init_desc base limit attribute h =
    let hi : ℕ = base / 2 ^ 24 % 2 ^ 8 in
    let mid : ℕ = base / 2 ^ 16 % 2 ^ 8 in
    let lo : ℕ = base % 2 ^ 16 in
    omega (
      arith,
      ap (λ (t : ℕ). bit_or t lo) (bit_or_field 24 hi (mid * 2 ^ 16) (omega arith)),
      ap (λ (t : ℕ). bit_or t lo) {x = hi * 2 ^ 24 + mid * 2 ^ 16} {y = (hi * 2 ^ 8 + mid) * 2 ^ 16}
          (omega arith),
      bit_or_field 16 (hi * 2 ^ 8 + mid) lo (omega arith),
    )

-- Apart from one another, the `n` bytes from `src` and the `n` bytes from `dst`.
abbrev pub Apart : (dst src n : ℕ) → Type 0
Apart dst src n = (dst + n ≤ src) ⊎ (src + n ≤ dst)

-- After a copy between areas that do not overlap, the byte at each address of the destination is
-- the byte that the source held, and every other byte is unchanged.
pub copy_lem :
    (n dst src : ℕ) (mem : ℕ → ℕ) (a : ℕ)
    → dst + n < 2 ^ 32
    → src + n < 2 ^ 32
    → Apart dst src n
    → copy n dst src mem a ≡ (if leb dst a && ltb a (dst + n) then mem (src + (a - dst)) else mem a)
unfolding copy
copy_lem zero dst src mem a hd hs ap = ground arith
copy_lem (suc n) dst src mem a hd hs ap =
    let d : (dst + 1) % 2 ^ 32 ≡ dst + 1 = omega arith in
    let s : (src + 1) % 2 ^ 32 ≡ src + 1 = omega arith in
    rw (d, s)
      (copy_lem n (dst + 1) (src + 1) (poke mem dst (mem src)) a (omega arith) (omega arith)
          (omega arith)
        ∙ ground arith)

-- The bytes of the destination, by their offset.
pub copied :
    (len dst src : ℕ) (mem : ℕ → ℕ)
    → dst + len < 2 ^ 32
    → src + len < 2 ^ 32
    → Apart dst src len
    → (k : ℕ) → k < len
    → copy len dst src mem (dst + k) ≡ mem (src + k)
copied len dst src mem hd hs apart k b =
    copy_lem len dst src mem (dst + k) hd hs apart
    ∙ (then_of_true (mem (src + (dst + k - dst))) (mem (dst + k)) (ground (arith, b))
        ∙ ap mem {x = src + (dst + k - dst)} {y = src + k} (omega arith))

-- A stored `int` is read back.
pub load_int-poke_int : (mem : ℕ → ℕ) (a v : ℕ) → v < 2 ^ 32 → load_int (poke_int mem a v) a ≡ v
unfolding load_int poke_int
load_int-poke_int mem a v h = ground arith

-- A store of an `int` leaves the `int` before it and the one behind it.
pub load_int-poke_int_apart :
    (mem : ℕ → ℕ) (a b v : ℕ)
    → (b + 4 ≤ a) ⊎ (a + 4 ≤ b)
    → load_int (poke_int mem a v) b ≡ load_int mem b
unfolding load_int poke_int
load_int-poke_int_apart mem a b v (inl h) = ground arith
load_int-poke_int_apart mem a b v (inr h) = ground arith
