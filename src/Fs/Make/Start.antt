-- ===== src/Fs/Make/Start.antt =====
-- fs/main.c `mkfs`, `read_super_block` and `init_fs`: an empty file system is made at each start. The
-- size of the partition is what the disk driver answers.
use oscourse_project.Base.{
  ℕ, zero, suc, ◌+◌, ◌*◌, ◌^◌, Option, none, some, List, [], ◌∷◌, ltb, ◌==◌, if◌then◌else◌,
}
use oscourse_project.Run.{Stop}
use oscourse_project.Act.{Act, ◌>>=◌, ◌>>◌, get, change, assert, halt}
use oscourse_project.Segment.{load_int, poke_int}
use oscourse_project.Format.{sprintf, int_arg}
use oscourse_project.Fs.State.{
  SuperBlock, Inode, FileDesc, Fs, rd_sect, wr_sect, sector_size, inode_size, dir_entry_size,
  nr_default_file_sects, nr_file_desc, nr_inode, nr_super_block, root_inode_nr, i_directory,
  i_char_special, i_regular, minor,
}
use oscourse_project.Fs.Inodes.{get_super_block, get_inode}
use oscourse_project.Fs.Entries.{store_text}
use oscourse_project.Fs.Make.{
  magic_v1, nr_consoles, install_start_sect, install_nr_sects, root_dev, fill_fsbuf,
  new_super_block, store_ints, make_super_block, make_imap, make_smap, reserve_archive,
}

-- The fields of the i-node at place `j` of `fsbuf`: `i_mode`, `i_size`, `i_start_sect`, `i_nr_sects`
unfoldable pub store_fields : (j mode size start_sect nr_sects : ℕ) → (ℕ → ℕ) → ℕ → ℕ
store_fields j mode size start_sect nr_sects =
    store_ints (mode ∷ size ∷ start_sect ∷ nr_sects ∷ []) (inode_size * j)

-- "inode of `/dev_tty0~2'": `n` of them from the `i`-th on, at `MAKE_DEV(DEV_CHAR_TTY, i)`
unfoldable pub store_terminals : (n i : ℕ) → (ℕ → ℕ) → ℕ → ℕ
store_terminals zero i buf = buf
store_terminals (suc n) i buf =
    store_terminals n (i + 1) (store_fields (i + 1) i_char_special 0 (4 * 2 ^ 8 + i) 0 buf)

-- "inodes"
unfoldable pub make_inodes : SuperBlock → Act Fs (Unit {0})
make_inodes sb = do
  change (fill_fsbuf 0)
  change (λ s. record s {
    fsbuf =
        store_fields (nr_consoles + 1) i_regular (install_nr_sects * sector_size) install_start_sect
          install_nr_sects
          (store_terminals nr_consoles 0 (
            store_fields 0 i_directory (dir_entry_size * 5) sb.n_1st_sect nr_default_file_sects
              s.fsbuf));
  })
  wr_sect root_dev (2 + sb.nr_imap_sects + sb.nr_smap_sects)

-- An entry at place `j` of `fsbuf`.
unfoldable pub store_name : (j inode_nr : ℕ) → List ℕ → (ℕ → ℕ) → ℕ → ℕ
store_name j inode_nr name buf =
    store_text name (j * dir_entry_size + 4) (poke_int buf (j * dir_entry_size) inode_nr)

-- "dev_tty%d"
abbrev terminal_format : List ℕ
terminal_format = b'd' ∷ b'e' ∷ b'v' ∷ b'_' ∷ b't' ∷ b't' ∷ b'y' ∷ b'%' ∷ b'd' ∷ []

abbrev archive_name : List ℕ
archive_name = b'c' ∷ b'm' ∷ b'd' ∷ b'.' ∷ b't' ∷ b'a' ∷ b'r' ∷ []

-- "dir entries of `/dev_tty0~2'": `n` of them from the `i`-th on
unfoldable pub store_terminal_names : (n i : ℕ) → (ℕ → ℕ) → ℕ → ℕ
store_terminal_names zero i buf = buf
store_terminal_names (suc n) i buf =
    store_terminal_names n (i + 1)
      (store_name (i + 1) (i + 2) (sprintf terminal_format (int_arg i ∷ [])) buf)

-- "`/'"
unfoldable pub make_root : SuperBlock → Act Fs (Unit {0})
make_root sb = do
  change (fill_fsbuf 0)
  change (λ s. record s {
    fsbuf =
        store_name (nr_consoles + 1) (nr_consoles + 2) archive_name
          (store_terminal_names nr_consoles 0 (store_name 0 1 (b'.' ∷ []) s.fsbuf));
  })
  wr_sect root_dev sb.n_1st_sect

-- `mkfs`
unfoldable pub mkfs : (size : ℕ) → Act Fs (Unit {0})
mkfs size = do
  let sb = new_super_block size
  make_super_block sb
  make_imap
  make_smap sb
  reserve_archive sb
  make_inodes sb
  make_root sb

-- "find a free slot in super_block[]", among `n` from `i` on
unfoldable pub free_super_block : (n i : ℕ) → (ℕ → SuperBlock) → Option ℕ
free_super_block zero i t = none
free_super_block (suc n) i t =
    let rest = free_super_block n (i + 1) t in if (t i).sb_dev == 0 then some i else rest

-- `*psb`, with its device
unfoldable pub load_super_block : (ℕ → ℕ) → (dev : ℕ) → SuperBlock
load_super_block buf dev = record {
  magic = load_int buf 0;
  nr_inodes = load_int buf 4;
  nr_sects = load_int buf 8;
  nr_imap_sects = load_int buf 12;
  nr_smap_sects = load_int buf 16;
  n_1st_sect = load_int buf 20;
  nr_inode_sects = load_int buf 24;
  root_inode = load_int buf 28;
  sb_inode_size = load_int buf 32;
  inode_isize_off = load_int buf 36;
  inode_start_off = load_int buf 40;
  dir_ent_size = load_int buf 44;
  dir_ent_inode_off = load_int buf 48;
  dir_ent_fname_off = load_int buf 52;
  sb_dev = dev;
}

-- `read_super_block`
unfoldable pub read_super_block : (dev : ℕ) → Act Fs (Unit {0})
read_super_block dev = do
  rd_sect dev 1
  s ← get
  elim (free_super_block nr_super_block 0 s.super_block) [
    | none ↦ halt Stop.panic
    | some i ↦ (do
      assert (i == 0)
      change (λ t. record t {
        super_block = λ j. if i == j then load_super_block t.fsbuf dev else t.super_block j;
      }))
  ]

-- `memset(&f_desc_table[i], 0, sizeof(struct file_desc))`, and the same for an i-node
abbrev zero_desc : FileDesc
zero_desc = record { fd_mode = 0; fd_pos = 0; fd_cnt = 0; fd_inode = none }

abbrev zero_inode : Inode
zero_inode = record {
  i_mode = 0;
  i_size = 0;
  i_start_sect = 0;
  i_nr_sects = 0;
  i_dev = 0;
  i_cnt = 0;
  i_num = 0;
}

-- The tables, as `init_fs` clears them; the disk driver is told to open the root device.
unfoldable pub clear_tables : Fs → Fs
clear_tables s = record s {
  f_desc_table = λ i. if ltb i nr_file_desc then zero_desc else s.f_desc_table i;
  inode_table = λ i. if ltb i nr_inode then zero_inode else s.inode_table i;
  super_block = λ i.
      if ltb i nr_super_block then record (s.super_block i) { sb_dev = 0 } else s.super_block i;
  opened = minor root_dev ∷ s.opened;
}

-- `init_fs`. The root's pointer is null only for number 0.
unfoldable pub init_fs : (size : ℕ) → Act Fs (Unit {0})
init_fs size = do
  change clear_tables
  mkfs size
  read_super_block root_dev
  sb ← get_super_block root_dev
  assert (sb.magic == magic_v1)
  found ← get_inode root_dev root_inode_nr
  elim found [ none ↦ halt Stop.wild | some i ↦ change (λ s. record s { root = i }) ]
