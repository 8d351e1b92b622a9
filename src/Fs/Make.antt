-- ===== src/Fs/Make.antt =====
-- fs/main.c `mkfs`: the super block and the maps of an empty file system.
pub mod Start
use oscourse_project.Base.{
  ℕ, zero, suc, ◌+◌, ◌-◌, ◌*◌, ◌/◌, ◌%◌, ◌^◌, true, false, Option, none, some, List, [], ◌∷◌, ltb,
  ◌==◌, if◌then◌else◌, set_flag,
}
use oscourse_project.Run.{Stop}
use oscourse_project.Act.{Act, ◌>>=◌, ◌>>◌, pure, get, change, assert, halt}
use oscourse_project.Segment.{poke, load_int, poke_int}
use oscourse_project.Format.{sprintf, int_arg}
use oscourse_project.Fs.State.{
  SuperBlock, Inode, FileDesc, Fs, rd_sect, wr_sect, sector_size, inode_size, dir_entry_size,
  nr_default_file_sects, nr_file_desc, nr_inode, nr_super_block, root_inode_nr, i_directory,
  i_char_special, i_regular, minor,
}
use oscourse_project.Fs.Inodes.{get_super_block, get_inode}
use oscourse_project.Fs.Entries.{store_text}

abbrev pub magic_v1 : ℕ
magic_v1 = 0x111

abbrev pub nr_consoles : ℕ
nr_consoles = 3

abbrev pub install_start_sect : ℕ
install_start_sect = 0x8000

abbrev pub install_nr_sects : ℕ
install_nr_sects = 0x800

abbrev pub nr_sects_for_log : ℕ
nr_sects_for_log = nr_default_file_sects

-- `MAKE_DEV(DEV_HD, MINOR_BOOT)`
abbrev pub root_dev : ℕ
root_dev = 3 * 2 ^ 8 + 0x20

-- `memset(fsbuf, v, SECTOR_SIZE)`
unfoldable pub fill_fsbuf : (v : ℕ) → Fs → Fs
fill_fsbuf v s = record s { fsbuf = λ i. if ltb i sector_size then v else s.fsbuf i }

-- `sb` as `mkfs` fills it, for a partition of `size` sectors
unfoldable pub new_super_block : (size : ℕ) → SuperBlock
new_super_block size =
    let nr_inodes : ℕ = sector_size * 8 in
    let nr_inode_sects : ℕ = nr_inodes * inode_size / sector_size in
    let nr_smap_sects : ℕ = size / (sector_size * 8) + 1 in
    record {
      magic = magic_v1;
      nr_inodes = nr_inodes;
      nr_sects = size;
      nr_imap_sects = 1;
      nr_smap_sects = nr_smap_sects;
      n_1st_sect = 1 + 1 + 1 + nr_smap_sects + nr_inode_sects;
      nr_inode_sects = nr_inode_sects;
      root_inode = root_inode_nr;
      sb_inode_size = inode_size;
      inode_isize_off = 4;
      inode_start_off = 8;
      dir_ent_size = dir_entry_size;
      dir_ent_inode_off = 0;
      dir_ent_fname_off = 4;
      sb_dev = 0;
    }

-- Numbers that stand one behind another, as the fields of a `struct` do.
unfoldable pub store_ints : List ℕ → (a : ℕ) → (ℕ → ℕ) → ℕ → ℕ
store_ints [] a buf = buf
store_ints (v ∷ l) a buf = store_ints l (a + 4) (poke_int buf a v)

-- `memcpy(fsbuf, &sb, SUPER_BLOCK_SIZE)`
unfoldable pub store_super_block : SuperBlock → (ℕ → ℕ) → ℕ → ℕ
store_super_block sb buf =
    store_ints
      (sb.magic ∷ sb.nr_inodes ∷ sb.nr_sects ∷ sb.nr_imap_sects ∷ sb.nr_smap_sects ∷ sb.n_1st_sect
        ∷ sb.nr_inode_sects ∷ sb.root_inode ∷ sb.sb_inode_size ∷ sb.inode_isize_off
        ∷ sb.inode_start_off ∷ sb.dir_ent_size ∷ sb.dir_ent_inode_off ∷ sb.dir_ent_fname_off ∷ [])
      0 buf

-- "write the super block"
unfoldable pub make_super_block : SuperBlock → Act Fs (Unit {0})
make_super_block sb = do
  change (fill_fsbuf 0x90)
  change (λ s. record s { fsbuf = store_super_block sb s.fsbuf })
  wr_sect root_dev 1

-- `for (; i < n; i++) byte |= 1 << i;`, for the `n` bits from `i` on
unfoldable pub set_bits : (n i byte : ℕ) → ℕ
set_bits zero i byte = byte
set_bits (suc n) i byte = set_bits n (i + 1) (set_flag byte (2 ^ i))

-- "inode map"
unfoldable pub make_imap : Act Fs (Unit {0})
make_imap = do
  change (fill_fsbuf 0)
  change (λ s. record s { fsbuf = poke s.fsbuf 0 (set_bits (nr_consoles + 3) 0 (s.fsbuf 0)) })
  s ← get
  assert (s.fsbuf 0 == 0x3F)
  wr_sect root_dev 2

-- "zeromemory the rest sector-map": `n` sectors from the `i`-th on
unfoldable pub clear_smap : (n i : ℕ) → SuperBlock → Act Fs (Unit {0})
clear_smap zero i sb = pure tt
clear_smap (suc n) i sb = do wr_sect root_dev (2 + sb.nr_imap_sects + i); clear_smap n (i + 1) sb

-- "secter map"
unfoldable pub make_smap : SuperBlock → Act Fs (Unit {0})
make_smap sb = do
  change (fill_fsbuf 0)
  let nr_sects = nr_default_file_sects + 1
  change (λ s. record s { fsbuf = λ i. if ltb i (nr_sects / 8) then 0xFF else s.fsbuf i })
  change (λ s. record s {
    fsbuf = poke s.fsbuf (nr_sects / 8) (set_bits (nr_sects % 8) 0 (s.fsbuf (nr_sects / 8)));
  })
  wr_sect root_dev (2 + sb.nr_imap_sects)
  change (fill_fsbuf 0)
  clear_smap (sb.nr_smap_sects - 1) 1 sb

-- The loop that marks the sectors of cmd.tar: the sector of the map that it ends in.
unfoldable pub mark_sects : (bit_left bit_off_in_sect cur_sect : ℕ) → SuperBlock → Act Fs ℕ
mark_sects zero bit_off_in_sect cur_sect sb = pure cur_sect
mark_sects (suc n) bit_off_in_sect cur_sect sb = do
  let byte_off = bit_off_in_sect / 8
  change (λ s. record s {
    fsbuf = poke s.fsbuf byte_off (set_flag (s.fsbuf byte_off) (2 ^ (bit_off_in_sect % 8)));
  })
  elim (bit_off_in_sect + 1 == sector_size * 8) [
    | true ↦ (do
      wr_sect root_dev (2 + sb.nr_imap_sects + cur_sect)
      rd_sect root_dev (2 + sb.nr_imap_sects + (cur_sect + 1))
      mark_sects n 0 (cur_sect + 1) sb)
    | false ↦ mark_sects n (bit_off_in_sect + 1) cur_sect sb
  ]

-- "cmd.tar": the assertion is on `u32`. The offset is not negative on a partition below 60 GB.
unfoldable pub reserve_archive : SuperBlock → Act Fs (Unit {0})
reserve_archive sb = do
  assert (
      ltb (install_start_sect + install_nr_sects)
        ((sb.nr_sects + (2 ^ 32 - nr_sects_for_log)) % 2 ^ 32))
  let bit_offset = install_start_sect + 1 - sb.n_1st_sect
  rd_sect root_dev (2 + sb.nr_imap_sects + bit_offset / (sector_size * 8))
  last ←
      mark_sects install_nr_sects (bit_offset % (sector_size * 8)) (bit_offset / (sector_size * 8))
        sb
  wr_sect root_dev (2 + sb.nr_imap_sects + last)
