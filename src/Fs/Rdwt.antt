-- ===== src/Fs/Rdwt.antt =====
-- fs/read_write.c `do_rdwt`.
use oscourse_project.Base.{
  ℕ, zero, suc, ◌+◌, ◌-◌, ◌*◌, ◌/◌, ◌%◌, ◌^◌, Bool, true, false, not, ◌&&◌, ◌||◌, min, ltb, leb,
  ◌==◌, if◌then◌else◌, has_flag,
}
use oscourse_project.Run.{Stop}
use oscourse_project.Act.{Act, ◌>>=◌, ◌>>◌, pure, get, change, assert, need, halt, deref}
use oscourse_project.Fs.State.{
  Fs, put_desc, put_in, read_disk, write_disk, sector_pos, sector_size, nr_file_desc, nr_inode,
  type_of, i_char_special, i_regular, i_directory, o_rdwr, major, minor,
}
use oscourse_project.Fs.Inodes.{sync_inode}
use oscourse_project.Fs.Open.{user_address, desc_of}

-- READ or WRITE
pub data Rw : Type 0 where
  reading writing : Rw

-- How the driver of a terminal answers: with SUSPEND_PROC or not, and with a count.
pub record Answer : Type 0 where
  pub suspended : Bool
  pub cnt : ℕ

-- `min` on unsigned numbers of 32 bits
abbrev pub end_of : (pos len limit : ℕ) → ℕ
end_of pos len limit = min ((pos + len) % 2 ^ 32) limit

-- `phys_copy(buf, fsbuf + off, bytes)`
unfoldable pub to_user : (la off bytes : ℕ) → Fs → Fs
to_user la off bytes s = record s {
  mem = λ a.
      let o : ℕ = (a + (2 ^ 32 - la)) % 2 ^ 32 in
      if ltb o bytes then s.fsbuf (off + o) else s.mem a;
}

-- `phys_copy(fsbuf + off, buf, bytes)`
unfoldable pub from_user : (la off bytes : ℕ) → Fs → Fs
from_user la off bytes s = record s {
  fsbuf = λ i.
      if leb off i && ltb i (off + bytes) then s.mem ((la + (i - off)) % 2 ^ 32) else s.fsbuf i;
}

-- `rw_sector`: the driver's command has eight bits for the count of sectors, where 0 means 256, and
-- the driver waits for the interrupt of each sector that it was asked for.
abbrev pub drive_sectors : ℕ
drive_sectors = 256

-- The body of the loop: `bytes` bytes at `off` in the `chunk` sectors from `i` on, on the first 2 GB
-- of the disk, as `i * SECTOR_SIZE` is an `int`.
unfoldable pub move_bytes : Rw → (src buf dev i chunk off bytes : ℕ) → Act Fs (Unit {0})
move_bytes rw_type src buf dev i chunk off bytes = do
  need Stop.too_large (ltb (i * sector_size) (2 ^ 31))
  need Stop.stuck (leb chunk drive_sectors)
  read_disk dev (sector_pos i) (chunk * sector_size)
  la ← user_address src buf
  elim rw_type [
    | reading ↦ change (to_user la off bytes)
    | writing ↦ (do
      change (from_user la off bytes)
      write_disk dev (sector_pos i) (chunk * sector_size))
  ]

-- `fd_pos += bytes`
abbrev pub advance : (d bytes : ℕ) → Fs → Fs
advance d bytes s =
    put_desc d (record (s.f_desc_table d) { fd_pos = ((s.f_desc_table d).fd_pos + bytes) % 2 ^ 32 })
      s

-- `for (i = rw_sect_min; i <= rw_sect_max; i += chunk)`: the count of bytes moved
unfoldable pub rdwt_loop :
    (fuel : ℕ) → Rw → (src buf dev d i last chunk off bytes_rw bytes_left : ℕ) → Act Fs ℕ
rdwt_loop zero rw_type src buf dev d i last chunk off bytes_rw bytes_left = halt Stop.out_of_fuel
rdwt_loop (suc n) rw_type src buf dev d i last chunk off bytes_rw bytes_left = elim (leb i last) [
  | false ↦ pure bytes_rw
  | true ↦ (do
    let bytes = min bytes_left (chunk * sector_size - off)
    move_bytes rw_type src (buf + bytes_rw) dev i chunk off bytes
    change (advance d bytes)
    rdwt_loop n rw_type src buf dev d (i + chunk) last chunk 0 (bytes_rw + bytes)
        (bytes_left - bytes))
]

-- "update inode::size"
unfoldable pub grow : (d i : ℕ) → Act Fs (Unit {0})
grow d i = do
  s ← get
  let pos = (s.f_desc_table d).fd_pos
  if ltb (s.inode_table i).i_size pos
      then (do change (put_in i (record (s.inode_table i) { i_size = pos })); sync_inode i)
      else pure tt

-- The branch for a file or a directory, for positions and lengths that are not negative as `int`.
unfoldable pub rdwt_file : Rw → (src d i buf len : ℕ) → Act Fs ℕ
rdwt_file rw_type src d i buf len = do
  s ← get
  let p = s.inode_table i
  assert (p.i_mode == i_regular || p.i_mode == i_directory)
  let pos = (s.f_desc_table d).fd_pos
  let pos_end =
      end_of pos len
        (elim rw_type [ reading ↦ p.i_size | writing ↦ p.i_nr_sects * sector_size % 2 ^ 32 ])
  need Stop.too_large (ltb pos (2 ^ 31) && ltb pos_end (2 ^ 31) && ltb len (2 ^ 31))
  let first = p.i_start_sect + pos / sector_size
  let last = p.i_start_sect + pos_end / sector_size
  let chunk = min (last + 1 - first) 2048
  n ←
      rdwt_loop (last + 2 - first) rw_type src buf p.i_dev d first last chunk (pos % sector_size) 0
        len
  grow d i
  pure n

module _ (driver : Rw → (minor_nr src buf len : ℕ) → Answer) where
  -- The branch for a terminal: the driver's answer must have the count of the request.
  unfoldable pub rdwt_tty : Rw → (src i buf len : ℕ) → Act Fs Answer
  rdwt_tty rw_type src i buf len = do
    s ← get
    let dev = (s.inode_table i).i_start_sect
    assert (major dev == 4)
    let answer = driver rw_type (minor dev) src buf len
    assert (answer.cnt == len)
    pure answer

  -- `do_rdwt`: the count, and whether the caller is suspended
  unfoldable pub do_rdwt : Rw → (src fd buf len : ℕ) → Act Fs Answer
  do_rdwt rw_type src fd buf len = do
    d ← desc_of src fd
    assert (ltb d nr_file_desc)
    s ← get
    if not (has_flag (s.f_desc_table d).fd_mode o_rdwr)
        then pure (record { suspended = false; cnt = 0 })
        else (do
          i ← deref (s.f_desc_table d).fd_inode
          assert (ltb i nr_inode)
          if type_of (s.inode_table i).i_mode == i_char_special
              then rdwt_tty rw_type src i buf len
              else (do
                n ← rdwt_file rw_type src d i buf len
                pure (record { suspended = false; cnt = n })))
