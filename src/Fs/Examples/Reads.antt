-- ===== src/Fs/Examples/Reads.antt =====
-- Reads of a file, and the map of a new file system.
use oscourse_project.Base.{ℕ, ◌+◌, ◌-◌, ◌*◌, ◌%◌, ◌^◌, ◌≤◌, ◌<◌, ◌≡◌, refl, arith}
use oscourse_project.Boot.{cleared}
use oscourse_project.Act.{ok}
use oscourse_project.Fs.State.{Fs}
use oscourse_project.Fs.Inodes.{find_super_block}
use oscourse_project.Fs.Make.{root_dev}
use oscourse_project.Fs.Mounted.{Mounted}
use oscourse_project.Fs.Rdwt.{reading, rdwt_file}
use oscourse_project.Fs.Reading.{linear}
use oscourse_project.Fs.Reading.Inside.{Inside, rdwt_file_lem}
use oscourse_project.Fs.Reading.Past.{Past, rdwt_file-Past}
use oscourse_project.Fs.Examples.{sb, fs, fs-Mounted}

-- A read of 40 bytes of the file.
fs-Inside : Inside fs 12 0 1 0x1000 40
unfolding cleared
fs-Inside = record {
  regular = refl;
  within = omega arith;
  size = omega arith;
  short = omega arith;
  on_disk = omega arith;
  translates = refl;
}

rdwt_file_lem_example :
    (t : Fs) × (rdwt_file reading 12 0 1 0x1000 40 fs ≡ ok 40 t)
    × ((k : ℕ)
        → k < 40
        → t.mem ((linear fs 12 0x1000 + k) % 2 ^ 32) ≡ fs.disk 5 (2309 * 512 + 0 + k))
    × ((a : ℕ) → 40 ≤ (a + (2 ^ 32 - linear fs 12 0x1000)) % 2 ^ 32 → t.mem a ≡ fs.mem a)
    × ((t.f_desc_table 0).fd_pos ≡ 0 + 40)
    × (t.inode_table ≡ fs.inode_table)
    × (t.disk ≡ fs.disk)
rdwt_file_lem_example = rdwt_file_lem fs 12 0 1 0x1000 40 fs-Inside

-- A read of 100 bytes of the file, which has 80.
fs-Past : Past fs 12 0 1 0x1000 100
unfolding cleared
fs-Past = record {
  regular = refl;
  starts = omega arith;
  ends = omega arith;
  last = omega arith;
  size = omega arith;
  on_disk = omega arith;
  short = omega arith;
  translates = refl;
}

rdwt_file-Past_example :
    (t : Fs) × (rdwt_file reading 12 0 1 0x1000 100 fs ≡ ok 100 t)
    × (80 - 0 < 100)
    × ((t.inode_table 1).i_size ≡ 0 + 100)
rdwt_file-Past_example = rdwt_file-Past fs 12 0 1 0x1000 100 sb fs-Past fs-Mounted

-- The root device is mounted.
abbrev booted : Fs
booted = record fs { super_block = λ i. record sb { sb_dev = root_dev } }

booted-Mounted : Mounted root_dev (record sb { sb_dev = root_dev }) booted
unfolding find_super_block
booted-Mounted = refl
