-- ===== src/Fs/Maps.antt =====
-- fs/open.c `alloc_imap_bit` and `alloc_smap_bit`: the bit maps of i-nodes and of sectors.
use oscourse_project.Base.{
  ℕ, zero, suc, ◌+◌, ◌-◌, ◌*◌, ◌^◌, Bool, true, false, ◌&&◌, Option, none, some, ◌==◌,
  if◌then◌else◌, has_flag, set_flag,
}
use oscourse_project.Run.{Stop}
use oscourse_project.Act.{Act, ◌>>=◌, ◌>>◌, pure, get, change, assert, halt}
use oscourse_project.Segment.{poke}
use oscourse_project.Fs.State.{SuperBlock, Fs, rd_sect, wr_sect, sector_size}
use oscourse_project.Fs.Inodes.{get_super_block}

-- `(byte >> k) & 1`
abbrev pub bit_at : (byte k : ℕ) → Bool
bit_at byte k = has_flag byte (2 ^ k)

-- `for (k = 0; ((fsbuf[j] >> k) & 1) != 0; k++) {}`, of the `n` bits from `k` on
unfoldable pub zero_bit : (n k byte : ℕ) → ℕ
zero_bit zero k byte = k
zero_bit (suc n) k byte = let rest = zero_bit n (k + 1) byte in if bit_at byte k then rest else k

-- The first byte that is not 0xFF, of the `n` bytes from `j` on.
unfoldable pub open_byte : (n j : ℕ) → (ℕ → ℕ) → Option ℕ
open_byte zero j buf = none
open_byte (suc n) j buf =
    let rest = open_byte n (j + 1) buf in if buf j == 0xFF then rest else some j

-- `alloc_imap_bit`. The `return` in the loop leaves it in the first round.
unfoldable pub alloc_imap_bit : (dev : ℕ) → Act Fs ℕ
alloc_imap_bit dev = do
  sb ← get_super_block dev
  if sb.nr_imap_sects == 0 then halt Stop.panic else pure tt
  rd_sect dev 2
  s ← get
  elim (open_byte sector_size 0 s.fsbuf) [
    | none ↦ pure 0
    | some j ↦ (do
      let k = zero_bit 8 0 (s.fsbuf j)
      change (λ t. record t { fsbuf = poke t.fsbuf j (set_flag (t.fsbuf j) (2 ^ k)) })
      wr_sect dev 2
      pure (j * 8 + k))
  ]

-- The variables of `alloc_smap_bit`.
pub record Allocation : Type 0 where
  pub left : ℕ
  pub free_sect_nr : ℕ

-- `for (; k < 8; k++)`: bits from `k` on, `n` of them, are set while some are left to set; an `assert`
-- fails at a bit that is set already.
unfoldable pub fill_bits : (n k left byte : ℕ) → Option (ℕ × ℕ)
fill_bits zero k left byte = some (left, byte)
fill_bits (suc n) k left byte =
    let rest = fill_bits n (k + 1) (left - 1) (set_flag byte (2 ^ k)) in
    if bit_at byte k then none else (if left == 1 then some (0, set_flag byte (2 ^ k)) else rest)

-- The body of the loop over the bytes of a sector: the `j`-th byte of the `i`-th sector.
unfoldable pub smap_byte : (first i j : ℕ) → Allocation → (ℕ → ℕ) → Option (Allocation × (ℕ → ℕ))
smap_byte first i j r buf =
    if (r.free_sect_nr == 0) && (buf j == 0xFF)
    then some (r, buf)
    else (let k : ℕ = if r.free_sect_nr == 0 then zero_bit 8 0 (buf j) else 0 in
        let nr : ℕ =
          if r.free_sect_nr == 0
          then (i * sector_size + j) * 8 + k + first - 1
          else r.free_sect_nr in
        elim (fill_bits (8 - k) k r.left (buf j)) [
          | none ↦ none
          | some (left, byte) ↦ some (record { left = left; free_sect_nr = nr }, poke buf j byte)
        ])

-- The loop, of `n` bytes from `j` on.
unfoldable pub smap_bytes : (n first i j : ℕ) → Allocation → (ℕ → ℕ) → Option (Allocation × (ℕ → ℕ))
smap_bytes zero first i j r buf = some (r, buf)
smap_bytes (suc n) first i j r buf =
    if r.left == 0 then some (r, buf) else elim (smap_byte first i j r buf) [
      | none ↦ none
      | some (r', buf') ↦ smap_bytes n first i (j + 1) r' buf'
    ]

-- The loop over the `n` sectors of the map from the `i`-th on.
unfoldable pub smap_sects : (n i dev : ℕ) → SuperBlock → Allocation → Act Fs Allocation
smap_sects zero i dev sb r = pure r
smap_sects (suc n) i dev sb r = do
  rd_sect dev (2 + sb.nr_imap_sects + i)
  s ← get
  elim (smap_bytes sector_size sb.n_1st_sect i 0 r s.fsbuf) [
    | none ↦ halt Stop.assertion
    | some (r', buf) ↦ (do
      change (λ t. record t { fsbuf = buf })
      if r'.free_sect_nr == 0 then pure tt else wr_sect dev (2 + sb.nr_imap_sects + i)
      elim (r'.left == 0) [ true ↦ pure r' | false ↦ smap_sects n (i + 1) dev sb r' ])
  ]

-- `alloc_smap_bit`
unfoldable pub alloc_smap_bit : (dev nr_sects_to_alloc : ℕ) → Act Fs ℕ
alloc_smap_bit dev nr_sects_to_alloc = do
  sb ← get_super_block dev
  r ← smap_sects sb.nr_smap_sects 0 dev sb (record { left = nr_sects_to_alloc; free_sect_nr = 0 })
  assert (r.left == 0)
  pure r.free_sect_nr
