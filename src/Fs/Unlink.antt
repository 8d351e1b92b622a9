-- ===== src/Fs/Unlink.antt =====
-- fs/link.c `do_unlink`.
use oscourse_project.Base.{
  ℕ, zero, suc, ◌+◌, ◌-◌, ◌*◌, ◌/◌, ◌%◌, ◌^◌, Bool, true, false, not, ◌&&◌, ◌||◌, Option, none,
  some, List, [], ◌∷◌, ltb, leb, ◌==◌, if◌then◌else◌, clear_flag,
}
use oscourse_project.Run.{Stop}
use oscourse_project.Act.{Act, ◌>>=◌, ◌>>◌, pure, get, change, assert, need, halt, deref}
use oscourse_project.Segment.{load_int, poke}
use oscourse_project.Fs.State.{
  SuperBlock, Inode, Fs, put_in, rd_sect, wr_sect, sector_size, dir_entry_size, invalid_inode,
  i_regular,
}
use oscourse_project.Fs.Inodes.{get_super_block, get_inode, put_inode, sync_inode}
use oscourse_project.Fs.Path.{strip_path, search_file}
use oscourse_project.Fs.Maps.{bit_at}
use oscourse_project.Fs.Open.{copy_path, minus_one}

-- "free the bit in i-map"
unfoldable pub free_imap_bit : (dev inode_nr : ℕ) → Act Fs (Unit {0})
free_imap_bit dev inode_nr = do
  let byte_idx = inode_nr / 8
  let bit_idx = inode_nr % 8
  assert (ltb byte_idx sector_size)
  rd_sect dev 2
  s ← get
  assert (bit_at (s.fsbuf byte_idx) bit_idx)
  change (λ t. record t {
    fsbuf = poke t.fsbuf byte_idx (clear_flag (t.fsbuf byte_idx) (2 ^ bit_idx));
  })
  wr_sect dev 2

-- "clear the first byte": the `n` bits from `i` on while there are bits left; each must be set.
unfoldable pub clear_bits : (n i bits_left byte : ℕ) → Option (ℕ × ℕ)
clear_bits zero i bits_left byte = some (bits_left, byte)
clear_bits (suc n) i bits_left byte =
    let rest = clear_bits n (i + 1) (bits_left - 1) (clear_flag byte (2 ^ i)) in
    if bits_left == 0 then some (0, byte) else (if bit_at byte i then rest else none)

-- `if (i == SECTOR_SIZE) { … RD_SECT(pin->i_dev, ++s); }`: the next byte and its sector
unfoldable pub wrap_sect : (dev i s : ℕ) → Act Fs (ℕ × ℕ)
wrap_sect dev i s =
    if i == sector_size
    then (do wr_sect dev s; rd_sect dev (s + 1); pure (0, s + 1))
    else pure (i, s)

-- "clear bytes from the second byte to the second to last": `k` of them
unfoldable pub clear_bytes : (k dev i s : ℕ) → Act Fs (ℕ × ℕ)
clear_bytes zero dev i s = pure (i, s)
clear_bytes (suc k) dev i s = do
  place ← wrap_sect dev i s
  t ← get
  assert (t.fsbuf place.0 == 0xFF)
  change (λ u. record u { fsbuf = poke u.fsbuf place.0 0 })
  clear_bytes k dev (place.0 + 1) place.1

-- "free the bits in s-map". Where a file has fewer bits than the first byte holds, C rounds the count
-- of whole bytes up to 0, as the subtraction here does. A file lies in the data sectors, and its
-- sector numbers are not negative as `int`.
unfoldable pub free_smap_bits : SuperBlock → Inode → Act Fs (Unit {0})
free_smap_bits sb p = do
  need Stop.too_large
      (leb sb.n_1st_sect p.i_start_sect && ltb p.i_start_sect (2 ^ 31) && ltb p.i_nr_sects (2 ^ 31))
  let bit_idx = p.i_start_sect + 1 - sb.n_1st_sect
  let byte_idx = bit_idx / 8
  let byte_cnt = (p.i_nr_sects - (8 - bit_idx % 8)) / 8
  let s = 2 + sb.nr_imap_sects + byte_idx / sector_size
  let j = byte_idx % sector_size
  rd_sect p.i_dev s
  t ← get
  elim (clear_bits (8 - bit_idx % 8) (bit_idx % 8) p.i_nr_sects (t.fsbuf j)) [
    | none ↦ halt Stop.assertion
    | some (left, byte) ↦ (do
      change (λ u. record u { fsbuf = poke u.fsbuf j byte })
      place ← clear_bytes byte_cnt p.i_dev (j + 1) s
      end ← wrap_sect p.i_dev place.0 place.1
      let bits_left = left - byte_cnt * 8
      v ← get
      assert (v.fsbuf end.0 % 2 ^ bits_left == 2 ^ bits_left - 1)
      change (λ u. record u {
        fsbuf = poke u.fsbuf end.0 (u.fsbuf end.0 / 2 ^ bits_left * 2 ^ bits_left);
      })
      wr_sect p.i_dev end.1)
  ]

-- "clear the i-node itself"
unfoldable pub clear_inode : ℕ → Act Fs (Unit {0})
clear_inode i = do
  s ← get
  change (
      put_in i
        (record (s.inode_table i) { i_mode = 0; i_size = 0; i_start_sect = 0; i_nr_sects = 0 }))
  sync_inode i
  put_inode i

-- What the search in a sector of the directory ends with: the count of the entries so far and the
-- bytes of those in use, and where the entry of the file is, or whether the entries are at an end.
pub record Scan : Type 0 where
  pub m : ℕ
  pub dir_size : ℕ
  pub hit : Option ℕ
  pub stopped : Bool

-- The loop over the `n` entries of a sector from the `j`-th on.
unfoldable pub scan_entries : (n j m dir_size nr inode_nr : ℕ) → (ℕ → ℕ) → Scan
scan_entries zero j m dir_size nr inode_nr buf = record {
  m = m;
  dir_size = dir_size;
  hit = none;
  stopped = false;
}
scan_entries (suc n) j m dir_size nr inode_nr buf =
    let entry : ℕ = load_int buf (j * dir_entry_size) in
    let size : ℕ = if entry == invalid_inode then dir_size else dir_size + dir_entry_size in
    let rest = scan_entries n (j + 1) (m + 1) size nr inode_nr buf in
    if ltb nr (m + 1)
    then record { m = m + 1; dir_size = dir_size; hit = none; stopped = true }
    else (if entry == inode_nr
        then record { m = m + 1; dir_size = dir_size; hit = some j; stopped = true }
        else rest)

-- `memset(pde, 0, DIR_ENTRY_SIZE)`
abbrev pub zero_entry : (j : ℕ) → (ℕ → ℕ) → ℕ → ℕ
zero_entry j buf i =
    if leb (j * dir_entry_size) i && ltb i (j * dir_entry_size + dir_entry_size) then 0 else buf i

-- The loop over the `n` sectors of the directory from the `i`-th on.
unfoldable pub drop_entry : (n i m dir_size nr inode_nr : ℕ) → Inode → Act Fs Scan
drop_entry zero i m dir_size nr inode_nr dir =
    pure (record { m = m; dir_size = dir_size; hit = none; stopped = false })
drop_entry (suc n) i m dir_size nr inode_nr dir = do
  rd_sect dir.i_dev (dir.i_start_sect + i)
  s ← get
  let r = scan_entries (sector_size / dir_entry_size) 0 m dir_size nr inode_nr s.fsbuf
  elim r.hit [
    | some j ↦ (do
      change (λ t. record t { fsbuf = zero_entry j t.fsbuf })
      wr_sect dir.i_dev (dir.i_start_sect + i)
      pure r)
    | none ↦ elim (r.stopped) [
      | true ↦ pure r
      | false ↦ drop_entry n (i + 1) r.m r.dir_size nr inode_nr dir
    ]
  ]

-- "set the inode-nr to 0 in the directory entry", in the directory at index `d`
unfoldable pub remove_entry : (d inode_nr : ℕ) → Act Fs (Unit {0})
remove_entry d inode_nr = do
  s ← get
  let dir = s.inode_table d
  let nr = dir.i_size / dir_entry_size
  r ← drop_entry ((dir.i_size + sector_size) % 2 ^ 32 / sector_size) 0 0 0 nr inode_nr dir
  assert (elim r.hit [ none ↦ false | some j ↦ true ])
  if r.m == nr
      then (do
        change (λ t. put_in d (record (t.inode_table d) { i_size = r.dir_size }) t)
        sync_inode d)
      else pure tt

-- What `do_unlink` does to a file that it can remove.
unfoldable pub remove_file : (i inode_nr : ℕ) → Act Fs ℕ
remove_file i inode_nr = do
  s ← get
  let p = s.inode_table i
  sb ← get_super_block p.i_dev
  free_imap_bit p.i_dev inode_nr
  free_smap_bits sb p
  clear_inode i
  remove_entry s.root inode_nr
  pure 0

-- `do_unlink` for the i-node of the path: -1 for one that is not a regular file, or is open.
unfoldable pub unlink_inode : (inode_nr : ℕ) → Act Fs ℕ
unlink_inode inode_nr = do
  s ← get
  found ← get_inode (s.inode_table s.root).i_dev inode_nr
  i ← deref found
  t ← get
  let p = t.inode_table i
  if not (p.i_mode == i_regular) || (ltb 1 p.i_cnt && ltb p.i_cnt (2 ^ 31))
      then pure minus_one
      else remove_file i inode_nr

-- `strcmp(pathname, "/") == 0`
abbrev pub is_root : List ℕ → Bool
is_root [] = false
is_root (c ∷ []) = c == b'/'
is_root (c ∷ d ∷ s) = false

-- `do_unlink` for a path
unfoldable pub unlink_path : List ℕ → Act Fs ℕ
unlink_path path = if is_root path then pure minus_one else (do
  inode_nr ← search_file path
  if inode_nr == invalid_inode then pure minus_one else (elim (strip_path path) [
    | none ↦ pure minus_one
    | some filename ↦ unlink_inode inode_nr
  ]))

-- `do_unlink`
unfoldable pub do_unlink : (src pathname name_len : ℕ) → Act Fs ℕ
do_unlink src pathname name_len = do path ← copy_path src pathname name_len; unlink_path path
