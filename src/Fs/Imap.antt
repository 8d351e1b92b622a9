-- ===== src/Fs/Imap.antt =====
-- fs/open.c `alloc_imap_bit` and fs/link.c `free_imap_bit`: a map of bits, and its first free bit.
pub mod Alloc
pub mod Free
pub mod First
use oscourse_project.Base.{
  ℕ, zero, suc, ◌+◌, ◌-◌, ◌*◌, ◌/◌, ◌%◌, ◌^◌, ◌≤◌, ◌<◌, ◌≡◌, ◌≢◌, refl, ap, ◌∙◌, sym, Bool, true,
  false, not, ◌&&◌, Option, none, some, ltb, leb, ◌==◌, if◌then◌else◌, has_flag, set_flag,
  clear_flag, arith, some_inj, Option-cases, Bool-cases, ◌⊎◌, inl, inr, ==→eq, ne→==, ==-self,
}
use oscourse_project.Act.{Act, Result, ok, assert, pure, change, ◌>>=◌, ◌>>◌}
use oscourse_project.Act.Laws.{and_then-ok, assert-ok}
use oscourse_project.Segment.{poke}
use oscourse_project.Fs.State.{Fs, SuperBlock, rd_sect, wr_sect, read_disk, write_disk, sector_pos}
use oscourse_project.Fs.Inodes.{find_super_block, get_super_block}
use oscourse_project.Fs.Maps.{bit_at, zero_bit, open_byte, alloc_imap_bit}
use oscourse_project.Fs.Bits.{all_below, all_below_lem, FirstFree, zero_bit-FirstFree}
use oscourse_project.Fs.Unlink.{free_imap_bit}

-- A bit of a map.
abbrev pub map_bit : (ℕ → ℕ) → ℕ → Bool
map_bit map nr = bit_at (map (nr / 8)) (nr % 8)

-- A map before and after its first free bit, number `nr`, is taken.
pub record Takes (before after : ℕ → ℕ) (nr : ℕ) : Type 0 where
  pub in_map : nr < 4096
  pub free : map_bit before nr ≡ false
  pub used : (m : ℕ) → m < nr → map_bit before m ≡ true
  pub taken : map_bit after nr ≡ true
  pub others : (m : ℕ) → m < 4096 → m ≢ nr → map_bit after m ≡ map_bit before m

pub open_byte-some :
    (n j i : ℕ) (buf : ℕ → ℕ)
    → open_byte n j buf ≡ some i
    → (j ≤ i) × (i < j + n) × (buf i ≢ 0xFF) × ((m : ℕ) → j ≤ m → m < i → buf m ≡ 0xFF)
unfolding open_byte
open_byte-some zero j i buf h = absurd (cc)
open_byte-some (suc n) j i buf h = elim (Bool-cases (buf j == 0xFF)) [
  | inl e ↦
      let (a, b, c, d) = open_byte-some n (j + 1) i buf (ground (arith, e, h)) in
      (
        omega arith,
        omega arith,
        c,
        (λ m p q. elim (Bool-cases (m == j)) [
          | inl w ↦ ap buf (==→eq m j w) ∙ ==→eq (buf j) 0xFF e
          | inr w ↦ d m (ground (arith, w)) q
        ]),
      )
  | inr e ↦
      let w : j ≡ i = some_inj (ground (arith, e, h)) in
      (
        omega (arith, w),
        omega (arith, w),
        (λ z. ground (arith, e, z, w)),
        (λ m p q. absurd (omega (arith, w))),
      )
]

pub open_byte-none :
    (n j : ℕ) (buf : ℕ → ℕ)
    → ((m : ℕ) → j ≤ m → m < j + n → buf m ≡ 0xFF)
    → open_byte n j buf ≡ none
unfolding open_byte
open_byte-none zero j buf h = refl
open_byte-none (suc n) j buf h = ground (
  arith,
  h j (omega arith) (omega arith),
  open_byte-none n (j + 1) buf (λ m p q. h m (omega arith) (omega arith)),
)

pub open_byte-full :
    (n j : ℕ) (buf : ℕ → ℕ) → open_byte n j buf ≡ none → (m : ℕ) → j ≤ m → m < j + n → buf m ≡ 0xFF
unfolding open_byte
open_byte-full zero j buf h m p q = absurd (omega arith)
open_byte-full (suc n) j buf h m p q = elim (Bool-cases (buf j == 0xFF)) [
  | inl e ↦ elim (Bool-cases (m == j)) [
    | inl w ↦ ap buf (==→eq m j w) ∙ ==→eq (buf j) 0xFF e
    | inr w ↦
        open_byte-full n (j + 1) buf (ground (arith, e, h)) m (ground (arith, w)) (omega arith)
  ]
  | inr e ↦ absurd (ground (arith, e, h))
]

pub full_byte : (m : ℕ) → bit_at 0xFF (m % 8) ≡ true
unfolding has_flag
full_byte m = all_below_lem 8 (m % 8) (bit_at 0xFF) refl (omega arith)

-- A map with the bit of number `j * 8 + k` set.
abbrev pub with_bit : (ℕ → ℕ) → (j k : ℕ) → ℕ → ℕ
with_bit map j k = poke map j (set_flag (map j) (2 ^ k))

pub poke_same : (map : ℕ → ℕ) (j v i : ℕ) → i ≡ j → poke map j v i ≡ v
unfolding poke
poke_same map j v i h = ground arith

pub poke_other : (map : ℕ → ℕ) (j v i : ℕ) → i ≢ j → poke map j v i ≡ map i
unfolding poke
poke_other map j v i h = ground arith

pub bit_eq : (a b m k : ℕ) → a ≡ b → m ≡ k → bit_at a m ≡ bit_at b k
bit_eq a b m k h h' = ap (λ (x : ℕ). bit_at x m) h ∙ ap (bit_at b) h'

pub with_bit-Takes :
    (map : ℕ → ℕ) (j k : ℕ)
    → j < 512
    → ((m : ℕ) → m < j → map m ≡ 0xFF)
    → FirstFree (map j) k
    → Takes map (with_bit map j k) (j * 8 + k)
with_bit-Takes map j k h full f =
    let q : (j * 8 + k) / 8 ≡ j = omega (arith, f.below) in
    let r : (j * 8 + k) % 8 ≡ k = omega (arith, f.below) in
    record {
      in_map = omega (arith, f.below);
      free = bit_eq (map ((j * 8 + k) / 8)) (map j) ((j * 8 + k) % 8) k (ap map q) r ∙ f.free;
      used = λ m l. elim (Bool-cases (m / 8 == j)) [
        | inl e ↦
            bit_eq (map (m / 8)) (map j) (m % 8) (m % 8) (ap map (==→eq (m / 8) j e)) refl
            ∙ f.used (m % 8) (ground (arith, e))
        | inr e ↦
            bit_eq (map (m / 8)) 0xFF (m % 8) (m % 8) (full (m / 8) (ground (arith, e, f.below)))
              refl
            ∙ full_byte m
      ];
      taken =
          bit_eq (with_bit map j k ((j * 8 + k) / 8)) (set_flag (map j) (2 ^ k)) ((j * 8 + k) % 8) k
            (poke_same map j (set_flag (map j) (2 ^ k)) ((j * 8 + k) / 8) q) r
          ∙ f.taken;
      others = λ m l d. elim (Bool-cases (m / 8 == j)) [
        | inl e ↦
            let w : m / 8 ≡ j = ==→eq (m / 8) j e in
            bit_eq (with_bit map j k (m / 8)) (set_flag (map j) (2 ^ k)) (m % 8) (m % 8)
              (poke_same map j (set_flag (map j) (2 ^ k)) (m / 8) w) refl
            ∙ f.others (m % 8) (omega arith) (λ z. d (omega (arith, z, w)))
            ∙ bit_eq (map j) (map (m / 8)) (m % 8) (m % 8) (ap map (sym w)) refl
        | inr e ↦
            bit_eq (with_bit map j k (m / 8)) (map (m / 8)) (m % 8) (m % 8)
              (poke_other map j (set_flag (map j) (2 ^ k)) (m / 8) (λ z. ground (arith, z, e))) refl
      ];
    }
