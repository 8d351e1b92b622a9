-- ===== src/Fs/Imap/Alloc.antt =====
-- fs/open.c `alloc_imap_bit`: the map of i-nodes in use, which is one sector of the disk.
use oscourse_project.Base.{
  ℕ, ◌+◌, ◌-◌, ◌*◌, ◌/◌, ◌%◌, ◌^◌, ◌≤◌, ◌<◌, ◌≡◌, ◌≢◌, refl, ap, ◌∙◌, sym, false, ◌&&◌, Option,
  none, some, ltb, leb, ◌==◌, if◌then◌else◌, set_flag, arith, Option-cases, ◌⊎◌, inl, inr, ne→==,
}
use oscourse_project.Act.{Act, Result, ok, pure, change, ◌>>◌}
use oscourse_project.Act.Laws.{and_then-ok}
use oscourse_project.Segment.{poke}
use oscourse_project.Fs.State.{Fs, SuperBlock, rd_sect, wr_sect, read_disk, write_disk, sector_pos}
use oscourse_project.Fs.Inodes.{get_super_block}
use oscourse_project.Fs.Mounted.{Mounted, get_super_block-Mounted}
use oscourse_project.Fs.Maps.{zero_bit, open_byte, alloc_imap_bit}
use oscourse_project.Fs.Bits.{FirstFree, zero_bit-FirstFree}
use oscourse_project.Fs.Imap.{
  Takes, map_bit, open_byte-some, open_byte-none, open_byte-full, full_byte, with_bit, bit_eq,
  with_bit-Takes,
}

-- The map on the disk.
abbrev pub imap : (dev : ℕ) → Fs → ℕ → ℕ
imap dev s i = s.disk dev (1024 + i)

pub record HasMap (s : Fs) (dev : ℕ) (sb : SuperBlock) : Type 0 where
  pub mounted : Mounted dev sb s
  pub some_sector : sb.nr_imap_sects ≢ 0
  pub bytes : (i : ℕ) → i < 512 → imap dev s i < 256

-- `fsbuf` with the map in it.
abbrev pub loaded : (dev : ℕ) → Fs → ℕ → ℕ
loaded dev s i = if ltb i 512 then s.disk dev (1024 + i) else s.fsbuf i

-- After a new map has been written.
abbrev pub written : (dev : ℕ) → (ℕ → ℕ) → Fs → Fs
written dev buf s = record s {
  fsbuf = buf;
  disk = λ d a.
      if (d == dev) && (leb 1024 a && ltb a (1024 + 512)) then buf (a - 1024) else s.disk d a;
}

abbrev pub outcome : (dev : ℕ) → Fs → Option ℕ → Result Fs ℕ
outcome dev s none = ok 0 (record s { fsbuf = loaded dev s })
outcome dev s (some j) =
    ok (j * 8 + zero_bit 8 0 (loaded dev s j))
      (written dev (with_bit (loaded dev s) j (zero_bit 8 0 (loaded dev s j))) s)

by_case :
    (dev : ℕ) (s : Fs) (o : Option ℕ)
    → (elim o as (λ x. Act Fs ℕ) [
      | none ↦ pure 0
      | some j ↦ (do
        let k = zero_bit 8 0 (loaded dev s j)
        change (λ t. record t { fsbuf = poke t.fsbuf j (set_flag (t.fsbuf j) (2 ^ k)) })
        wr_sect dev 2
        pure (j * 8 + k))
    ])
        (record s { fsbuf = loaded dev s })
      ≡ outcome dev s o
unfolding wr_sect write_disk sector_pos
by_case dev s none = refl
by_case dev s (some j) = refl

pub alloc_outcome :
    (dev : ℕ) (s : Fs) (sb : SuperBlock)
    → HasMap s dev sb
    → alloc_imap_bit dev s ≡ outcome dev s (open_byte 512 0 (loaded dev s))
unfolding alloc_imap_bit rd_sect wr_sect read_disk write_disk sector_pos
alloc_outcome dev s sb h =
    and_then-ok (get_super_block dev s) sb s _ (get_super_block-Mounted dev s sb h.mounted)
    ∙ rw (ne→== sb.nr_imap_sects 0 h.some_sector) (by_case dev s (open_byte 512 0 (loaded dev s)))

Takes-same :
    (a b a' b' : ℕ → ℕ) (nr : ℕ)
    → ((i : ℕ) → i < 512 → a i ≡ a' i)
    → ((i : ℕ) → i < 512 → b i ≡ b' i)
    → Takes a b nr
    → Takes a' b' nr
Takes-same a b a' b' nr p q h =
    let old : (m : ℕ) → m < 4096 → map_bit a m ≡ map_bit a' m =
      λ m l. bit_eq (a (m / 8)) (a' (m / 8)) (m % 8) (m % 8) (p (m / 8) (omega arith)) refl in
    let new : (m : ℕ) → m < 4096 → map_bit b m ≡ map_bit b' m =
      λ m l. bit_eq (b (m / 8)) (b' (m / 8)) (m % 8) (m % 8) (q (m / 8) (omega arith)) refl in
    record {
      in_map = h.in_map;
      free = sym (old nr h.in_map) ∙ h.free;
      used = λ m l. sym (old m (omega (arith, h.in_map))) ∙ h.used m l;
      taken = sym (new nr h.in_map) ∙ h.taken;
      others = λ m l d. sym (new m l) ∙ h.others m l d ∙ old m l;
    }

pub loaded-imap : (dev : ℕ) (s : Fs) (i : ℕ) → i < 512 → loaded dev s i ≡ imap dev s i
loaded-imap dev s i h = ground arith

pub imap-written :
    (dev : ℕ) (buf : ℕ → ℕ) (s : Fs) (i : ℕ) → i < 512 → buf i ≡ imap dev (written dev buf s) i
imap-written dev buf s i h = ground (arith, ap buf {x = 1024 + i - 1024} {y = i} (omega arith))

-- Not a byte of the map of device `dev`.
abbrev pub OffMap : (dev d a : ℕ) → Type 0
OffMap dev d a = (d ≢ dev) ⊎ ((a < 1024) ⊎ (1024 + 512 ≤ a))

pub written_off :
    (dev : ℕ) (buf : ℕ → ℕ) (s : Fs) (d a : ℕ)
    → OffMap dev d a
    → (written dev buf s).disk d a ≡ s.disk d a
written_off dev buf s d a (inl h) = ground arith
written_off dev buf s d a (inr (inl h)) = ground arith
written_off dev buf s d a (inr (inr h)) = ground arith

-- State `t` differs from `s` in `fsbuf` and in the map of device `dev` at most.
pub record OnlyMap (dev : ℕ) (s t : Fs) : Type 0 where
  pub rest : t ≡ record s { fsbuf = t.fsbuf; disk = t.disk }
  pub off_map : (d a : ℕ) → OffMap dev d a → t.disk d a ≡ s.disk d a

-- Byte `j` of the map is the first that is not full, and `k` its first free bit.
pub record FreeBit (dev : ℕ) (s : Fs) (j k : ℕ) : Type 0 where
  pub in_sector : j < 512
  pub full : (m : ℕ) → m < j → loaded dev s m ≡ 0xFF
  pub bit : FirstFree (loaded dev s j) k
  pub result : alloc_imap_bit dev s ≡ ok (j * 8 + k) (written dev (with_bit (loaded dev s) j k) s)

pub alloc_imap_bit-FreeBit :
    (dev free : ℕ) (s : Fs) (sb : SuperBlock)
    → HasMap s dev sb
    → free < 4096
    → map_bit (imap dev s) free ≡ false
    → (j : ℕ) × (k : ℕ) × FreeBit dev s j k
alloc_imap_bit-FreeBit dev free s sb h l e = elim (Option-cases (open_byte 512 0 (loaded dev s))) [
  | inl o ↦ absurd (
      ground (
        arith,
        e,
        bit_eq (imap dev s (free / 8)) 0xFF (free % 8) (free % 8)
              (sym (loaded-imap dev s (free / 8) (omega arith))
                ∙ open_byte-full 512 0 (loaded dev s) o (free / 8) (omega arith) (omega arith))
              refl
            ∙ full_byte free,
      ))
  | inr (j, o) ↦
      let (p, q, r, full) = open_byte-some 512 0 j (loaded dev s) o in
      (
        j,
        zero_bit 8 0 (loaded dev s j),
        record {
          in_sector = q;
          full = λ m l. full m (omega arith) l;
          bit =
              zero_bit-FirstFree (loaded dev s j)
                (ground (arith, loaded-imap dev s j q, h.bytes j q)) r;
          result = alloc_outcome dev s sb h ∙ ap (outcome dev s) o;
        },
      )
]

-- alloc_imap_bit, if a bit of the map is free, returns the number of the first free one and sets it on
-- the disk: no other bit of the map changes, and nothing else but fsbuf.
pub alloc_imap_bit_lem :
    (dev free : ℕ) (s : Fs) (sb : SuperBlock)
    → HasMap s dev sb
    → free < 4096
    → map_bit (imap dev s) free ≡ false
    → (nr : ℕ) × (t : Fs) × (alloc_imap_bit dev s ≡ ok nr t)
      × Takes (imap dev s) (imap dev t) nr
      × OnlyMap dev s t
alloc_imap_bit_lem dev free s sb h l e =
    let (j, k, w) = alloc_imap_bit-FreeBit dev free s sb h l e in
    let buf : ℕ → ℕ = with_bit (loaded dev s) j k in
    (
      j * 8 + k,
      written dev buf s,
      w.result,
      Takes-same (loaded dev s) buf (imap dev s) (imap dev (written dev buf s)) (j * 8 + k)
          (loaded-imap dev s) (imap-written dev buf s)
          (with_bit-Takes (loaded dev s) j k w.in_sector w.full w.bit),
      record { rest = refl; off_map = written_off dev buf s },
    )

-- If the map is full, alloc_imap_bit does not stop at its panic: it returns 0, and the disk is
-- unchanged.
pub alloc_imap_bit_full :
    (dev : ℕ) (s : Fs) (sb : SuperBlock)
    → HasMap s dev sb
    → ((i : ℕ) → i < 512 → imap dev s i ≡ 0xFF)
    → (t : Fs) × (alloc_imap_bit dev s ≡ ok 0 t) × (t.disk ≡ s.disk)
alloc_imap_bit_full dev s sb h full = (
  record s { fsbuf = loaded dev s },
  alloc_outcome dev s sb h
      ∙ ap (outcome dev s)
          (open_byte-none 512 0 (loaded dev s) (λ m p q. loaded-imap dev s m q ∙ full m q)),
  refl,
)
