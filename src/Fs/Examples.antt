-- ===== src/Fs/Examples.antt =====
-- Runs of the file system on a small disk.
mod Reads
use oscourse_project.Base.{
  ℕ, ◌+◌, ◌-◌, ◌*◌, ◌%◌, ◌^◌, ◌<◌, ◌≡◌, ◌≢◌, inr, refl, false, none, some, List, [], ◌∷◌, ◌==◌,
  if◌then◌else◌, arith, has_flag,
}
use oscourse_project.Boot.{cleared}
use oscourse_project.Act.{ok}
use oscourse_project.Fs.State.{Fs, SuperBlock, Inode, FileDesc, i_regular}
use oscourse_project.Fs.Path.{strip_path, search_block, found, same_name}
use oscourse_project.Fs.Inodes.{find_super_block, get_inode, read_inode, sync_inode}
use oscourse_project.Fs.Maps.{alloc_imap_bit}
use oscourse_project.Fs.Entries.{store_entry}
use oscourse_project.Fs.Open.{minus_one}
use oscourse_project.Fs.Share.{fs_fork, fs_exit}
use oscourse_project.Fs.Unlink.{free_imap_bit, unlink_inode}
use oscourse_project.Fs.Names.{strip_path_lem}
use oscourse_project.Fs.Imap.{map_bit, Takes}
use oscourse_project.Fs.Imap.Alloc.{imap, HasMap, OnlyMap, alloc_imap_bit_lem, alloc_imap_bit_full}
use oscourse_project.Fs.Imap.Free.{free_imap_bit-alloc_imap_bit}
use oscourse_project.Fs.Imap.First.{alloc_imap_bit-make_imap}
use oscourse_project.Fs.Make.{make_imap, root_dev}
use oscourse_project.Fs.Mounted.{Mounted}
use oscourse_project.Fs.Cache.Unique.{Unique}
use oscourse_project.Fs.Cache.Get.{Gets, get_inode_lem}
use oscourse_project.Fs.Sync.{SameFields, read_inode-sync_inode}
use oscourse_project.Fs.Leak.{unlink_inode_open}
use oscourse_project.Fs.Directory.{store_entry_overflow, search_block-store_entry}
use oscourse_project.Fs.Rdwt.{reading, rdwt_file}
use oscourse_project.Fs.Reading.Past.{Past, rdwt_file-Past}
use oscourse_project.Segment.{ldt_seg_linear, reassembly}
use oscourse_project.Fs.Counts.{Linked, uses}
use oscourse_project.Fs.Counts.Fork.{Room}
use oscourse_project.Fs.Counts.Exit.{fs_exit-fs_fork}

-- Device 5, with one sector for each map.
abbrev pub sb : SuperBlock
sb = record {
  magic = 0x111;
  nr_inodes = 4096;
  nr_sects = 10000;
  nr_imap_sects = 1;
  nr_smap_sects = 3;
  n_1st_sect = 261;
  nr_inode_sects = 256;
  root_inode = 1;
  sb_inode_size = 32;
  inode_isize_off = 4;
  inode_start_off = 8;
  dir_ent_size = 16;
  dir_ent_inode_off = 0;
  dir_ent_fname_off = 4;
  sb_dev = 5;
}

-- The root directory.
abbrev root_inode_of_5 : Inode
root_inode_of_5 = record {
  i_mode = 0x4000;
  i_size = 80;
  i_start_sect = 261;
  i_nr_sects = 2048;
  i_dev = 5;
  i_cnt = 1;
  i_num = 1;
}

abbrev file : Inode
file = record root_inode_of_5 { i_mode = i_regular; i_start_sect = 2309; i_num = 6 }

abbrev unused_inode : Inode
unused_inode = record root_inode_of_5 { i_cnt = 0 }

abbrev unused_desc : FileDesc
unused_desc = record { fd_mode = 0; fd_pos = 0; fd_cnt = 0; fd_inode = none }

-- The root and a file of 80 bytes are in the table, and process 7 has opened the file.
abbrev pub fs : Fs
fs = record {
  table = λ i. if i == 7 then record (cleared 7) { filp = none ∷ some 0 ∷ [] } else cleared i;
  mem = λ a. 0;
  disk = λ d a. if a == 1024 then 0x3F else 0;
  fsbuf = λ a. 0;
  f_desc_table = λ d.
      if d == 0
      then record unused_desc { fd_mode = 2; fd_cnt = 1; fd_inode = some 1 }
      else unused_desc;
  inode_table = λ i. if i == 0 then root_inode_of_5 else (if i == 1 then file else unused_inode);
  super_block = λ i. if i == 0 then sb else record sb { sb_dev = 0 };
  root = 0;
  opened = [];
}

abbrev full : Fs
full = record fs { disk = λ d a. 0xFF }

pub fs-Mounted : Mounted 5 sb fs
unfolding find_super_block
fs-Mounted = refl

full-Mounted : Mounted 5 sb full
unfolding find_super_block
full-Mounted = refl

fs-HasMap : HasMap fs 5 sb
fs-HasMap = record {
  mounted = fs-Mounted;
  some_sector = λ e. (omega (arith, e));
  bytes = λ i l. ground arith;
}

full-HasMap : HasMap full 5 sb
full-HasMap = record {
  mounted = full-Mounted;
  some_sector = λ e. (omega (arith, e));
  bytes = λ i l. omega arith;
}

six_free : map_bit (imap 5 fs) 6 ≡ false
unfolding has_flag
six_free = refl

alloc_imap_bit_lem_example :
    (nr : ℕ) × (t : Fs) × (alloc_imap_bit 5 fs ≡ ok nr t)
    × Takes (imap 5 fs) (imap 5 t) nr
    × OnlyMap 5 fs t
alloc_imap_bit_lem_example = alloc_imap_bit_lem 5 6 fs sb fs-HasMap (omega arith) six_free

free_imap_bit-alloc_imap_bit_example :
    (nr : ℕ) × (t : Fs) × (u : Fs) × (alloc_imap_bit 5 fs ≡ ok nr t)
    × (free_imap_bit 5 nr t ≡ ok tt u)
    × ((d a : ℕ) → u.disk d a ≡ fs.disk d a)
free_imap_bit-alloc_imap_bit_example =
    free_imap_bit-alloc_imap_bit 5 6 fs sb fs-HasMap (omega arith) six_free

fs-Unique : Unique fs.inode_table
fs-Unique i j dev num li lj hi hj = ground (arith, hi, hj)

small_counts : (i : ℕ) → (fs.inode_table i).i_cnt + 1 < 2 ^ 31
small_counts i = ground arith

get_inode_lem_example : (i : ℕ) × (t : Fs) × (get_inode 5 6 fs ≡ ok (some i) t) × Gets 5 6 i fs t
get_inode_lem_example =
    get_inode_lem 5 6 1 fs sb fs-Mounted (λ e. (omega (arith, e))) fs-Unique
      (λ i. omega (arith, small_counts i)) (omega arith) (inr refl)

unlink_inode_open_example :
    (t : Fs) × (unlink_inode 6 fs ≡ ok minus_one t) × ((t.inode_table 1).i_cnt ≡ 1 + 1)
unlink_inode_open_example =
    unlink_inode_open 6 1 fs sb fs-Mounted (λ e. (omega (arith, e))) fs-Unique small_counts
      (omega arith) refl

read_inode-sync_inode_example :
    (t : Fs) × (u : Fs) × (sync_inode 1 fs ≡ ok tt t)
    × (read_inode 9 5 6 t ≡ ok (some 9) u)
    × SameFields (u.inode_table 9) file
read_inode-sync_inode_example =
    read_inode-sync_inode 1 9 fs sb fs-Mounted
      (record { mode = omega arith; size = omega arith; start = omega arith; sects = omega arith })

-- "cmdstartfile", of twelve characters
abbrev long_name : List ℕ
long_name = b'c' ∷ b'm' ∷ b'd' ∷ b's' ∷ b't' ∷ b'a' ∷ b'r' ∷ b't' ∷ b'f' ∷ b'i' ∷ b'l' ∷ b'e' ∷ []

empty_name : (k : ℕ) → same_name 12 (b'a' ∷ []) (k * 16 + 4) (λ a. 0) ≡ false
unfolding same_name
empty_name k = refl

search_block-store_entry_example :
    search_block 32 0 0 5 (b'a' ∷ []) (store_entry 1 7 (b'a' ∷ []) (λ a. 0)) ≡ found 7
search_block-store_entry_example =
    search_block-store_entry 1 0 5 7 (b'a' ∷ []) (λ a. 0) (omega arith) (omega arith) (omega arith)
      (omega arith) (λ k l. refl) (λ k l. empty_name k)

fs-Linked : Linked fs.f_desc_table (fs.table 7).filp
unfolding cleared
fs-Linked = ((1, refl), tt)

fs-Room : Room (fs.table 7).filp fs
unfolding cleared
fs-Room = record { descs = λ d. ground arith; inodes = λ i. ground arith }

used_once : (d : ℕ) → uses (fs.table 7).filp d ≢ 0 → (fs.f_desc_table d).fd_cnt ≢ 0
unfolding cleared
used_once d h e = ground (arith, h, e)

fs_exit-fs_fork_example :
    (t : Fs) × (u : Fs) × (fs_fork 7 fs ≡ ok 0 t)
    × (fs_exit 7 t ≡ ok 0 u)
    × ((d : ℕ) → (u.f_desc_table d).fd_cnt ≡ (fs.f_desc_table d).fd_cnt)
    × ((d : ℕ) → (u.f_desc_table d).fd_inode ≡ (fs.f_desc_table d).fd_inode)
    × ((i : ℕ) → (u.inode_table i).i_cnt ≡ (fs.inode_table i).i_cnt)
fs_exit-fs_fork_example = fs_exit-fs_fork 7 fs fs-Linked fs-Room used_once
