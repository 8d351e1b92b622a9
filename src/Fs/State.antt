-- ===== src/Fs/State.antt =====
-- include/sys/fs.h and include/sys/const.h: the tables of the file system, and the transfer of
-- sectors. A pointer into a table is an index, and `none` is the null pointer. The hard disk driver
-- is the array of bytes that it serves: a request of `rw_sector` is answered at once.
use oscourse_project.Base.{
  ℕ, ◌+◌, ◌-◌, ◌*◌, ◌/◌, ◌%◌, ◌^◌, ◌&&◌, Option, List, ltb, leb, ◌==◌, if◌then◌else◌,
}
use oscourse_project.Proc.{Proc, Table, write}
use oscourse_project.Act.{Act, ok}

abbrev pub sector_size : ℕ
sector_size = 512

abbrev pub nr_file_desc : ℕ
nr_file_desc = 64

abbrev pub nr_inode : ℕ
nr_inode = 64

abbrev pub nr_super_block : ℕ
nr_super_block = 8

abbrev pub inode_size : ℕ
inode_size = 32

abbrev pub dir_entry_size : ℕ
dir_entry_size = 16

abbrev pub max_filename_len : ℕ
max_filename_len = 12

abbrev pub max_path : ℕ
max_path = 128

abbrev pub nr_default_file_sects : ℕ
nr_default_file_sects = 2048

abbrev pub invalid_inode : ℕ
invalid_inode = 0

abbrev pub root_inode_nr : ℕ
root_inode_nr = 1

-- `i_mode`, in octal 0100000, 0040000 and 0020000
abbrev pub i_regular : ℕ
i_regular = 0x8000

abbrev pub i_directory : ℕ
i_directory = 0x4000

abbrev pub i_char_special : ℕ
i_char_special = 0x2000

-- `i_mode & I_TYPE_MASK`
abbrev pub type_of : ℕ → ℕ
type_of mode = mode / 2 ^ 12 % 2 ^ 4 * 2 ^ 12

abbrev pub o_creat : ℕ
o_creat = 1

abbrev pub o_rdwr : ℕ
o_rdwr = 2

-- The major and minor number of a device.
abbrev pub major : ℕ → ℕ
major dev = dev / 2 ^ 8 % 2 ^ 8

abbrev pub minor : ℕ → ℕ
minor dev = dev % 2 ^ 8

-- `struct super_block`
pub record SuperBlock : Type 0 where
  pub magic : ℕ
  pub nr_inodes : ℕ
  pub nr_sects : ℕ
  pub nr_imap_sects : ℕ
  pub nr_smap_sects : ℕ
  pub n_1st_sect : ℕ
  pub nr_inode_sects : ℕ
  pub root_inode : ℕ
  pub sb_inode_size : ℕ
  pub inode_isize_off : ℕ
  pub inode_start_off : ℕ
  pub dir_ent_size : ℕ
  pub dir_ent_inode_off : ℕ
  pub dir_ent_fname_off : ℕ
  pub sb_dev : ℕ

-- `struct inode`
pub record Inode : Type 0 where
  pub i_mode : ℕ
  pub i_size : ℕ
  pub i_start_sect : ℕ
  pub i_nr_sects : ℕ
  pub i_dev : ℕ
  pub i_cnt : ℕ
  pub i_num : ℕ

-- `struct file_desc`
pub record FileDesc : Type 0 where
  pub fd_mode : ℕ
  pub fd_pos : ℕ
  pub fd_cnt : ℕ
  pub fd_inode : Option ℕ

-- What the file system reads and writes: `proc_table`, linear memory, the bytes of each device,
-- `fsbuf`, its three tables, `root_inode`, and the messages to drivers, the last first.
pub record Fs : Type 0 where
  pub table : Table
  pub mem : ℕ → ℕ
  pub disk : ℕ → ℕ → ℕ
  pub fsbuf : ℕ → ℕ
  pub f_desc_table : ℕ → FileDesc
  pub inode_table : ℕ → Inode
  pub super_block : ℕ → SuperBlock
  pub root : ℕ
  pub opened : List ℕ

-- `inode_table[i] = p`
unfoldable pub put_in : ℕ → Inode → Fs → Fs
put_in i p s = record s { inode_table = λ j. if i == j then p else s.inode_table j }

-- `f_desc_table[i] = d`
unfoldable pub put_desc : ℕ → FileDesc → Fs → Fs
put_desc i d s = record s { f_desc_table = λ j. if i == j then d else s.f_desc_table j }

-- `proc_table[i] = p`
unfoldable pub put_proc : ℕ → Proc → Fs → Fs
put_proc i p s = record s { table = write s.table i p }

-- `(sect_nr) * SECTOR_SIZE`, in 32 bits
unfoldable pub sector_pos : ℕ → ℕ
sector_pos sect_nr = sect_nr * sector_size % 2 ^ 32

-- `rw_sector(DEV_READ, dev, pos, bytes, TASK_FS, fsbuf)`
unfoldable pub read_disk : (dev pos bytes : ℕ) → Act Fs (Unit {0})
read_disk dev pos bytes s =
    ok tt (record s { fsbuf = λ i. if ltb i bytes then s.disk dev (pos + i) else s.fsbuf i })

-- `rw_sector(DEV_WRITE, dev, pos, bytes, TASK_FS, fsbuf)`
unfoldable pub write_disk : (dev pos bytes : ℕ) → Act Fs (Unit {0})
write_disk dev pos bytes s = ok tt (record s {
  disk = λ d a.
      if (d == dev) && (leb pos a && ltb a (pos + bytes)) then s.fsbuf (a - pos) else s.disk d a;
})

-- `RD_SECT` and `WR_SECT`
unfoldable pub rd_sect : (dev sect_nr : ℕ) → Act Fs (Unit {0})
rd_sect dev sect_nr = read_disk dev (sector_pos sect_nr) sector_size

unfoldable pub wr_sect : (dev sect_nr : ℕ) → Act Fs (Unit {0})
wr_sect dev sect_nr = write_disk dev (sector_pos sect_nr) sector_size
