-- ===== src/Fs/Reading/Past.antt =====
-- fs/read_write.c `do_rdwt`: a read past the end of a file.
use oscourse_project.Base.{
  ℕ, ◌+◌, ◌-◌, ◌*◌, ◌/◌, ◌^◌, ◌≤◌, ◌<◌, ◌≡◌, refl, ap, ◌∙◌, sym, subst, arith, lt→ltb,
}
use oscourse_project.Act.{ok}
use oscourse_project.Act.Laws.{and_then-ok}
use oscourse_project.Fs.State.{Fs, Inode, SuperBlock, put_in, put_desc, i_regular}
use oscourse_project.Fs.Rdwt.{reading, rdwt_file, grow, to_user}
use oscourse_project.Fs.Mounted.{Mounted}
use oscourse_project.Fs.Cache.Unique.{put_self}
use oscourse_project.Fs.Sync.{synced, sync_outcome}
use oscourse_project.Fs.Reading.{Translates}
use oscourse_project.Fs.Reading.Outcome.{OneRound, amount, after, fd_pos-after, file_outcome}

-- A read that starts in a file and ends past its end, but not past its last sector.
pub record Past (s : Fs) (src d i buf len : ℕ) : Type 0 where
  pub regular : (s.inode_table i).i_mode ≡ i_regular
  pub starts : (s.f_desc_table d).fd_pos ≤ (s.inode_table i).i_size
  pub ends : (s.inode_table i).i_size < (s.f_desc_table d).fd_pos + len
  pub last : (s.f_desc_table d).fd_pos + len ≤ ((s.inode_table i).i_size / 512 + 1) * 512
  pub size : (s.inode_table i).i_size + 512 < 2 ^ 31
  pub on_disk : ((s.inode_table i).i_start_sect + (s.f_desc_table d).fd_pos / 512) * 512 < 2 ^ 31
  pub short : len + 512 ≤ 2 ^ 17
  pub translates : Translates s src buf

Past-OneRound : (s : Fs) (src d i buf len : ℕ) → Past s src d i buf len → OneRound s src d i buf len
Past-OneRound s src d i buf len h = record {
  regular = h.regular;
  starts = omega (arith, h.starts, h.ends, h.size, h.short);
  short = omega (arith, h.starts, h.ends, h.last, h.size, h.short);
  low = h.on_disk;
  positions = ground (arith, h.starts, h.size, h.short);
  translates = h.translates;
}

all_asked : (s : Fs) (src d i buf len : ℕ) → Past s src d i buf len → amount s d i len ≡ len
all_asked s src d i buf len h = omega (arith, h.starts, h.ends, h.last, h.size, h.short)

-- The i-node at index `i` with the size that `grow` gives it.
abbrev grown : (d i : ℕ) → Fs → Fs
grown d i s = put_in i (record (s.inode_table i) { i_size = (s.f_desc_table d).fd_pos }) s

grow_outcome :
    (d i : ℕ) (s : Fs) (sb : SuperBlock)
    → (s.inode_table i).i_size < (s.f_desc_table d).fd_pos
    → Mounted ((grown d i s).inode_table i).i_dev sb (grown d i s)
    → grow d i s ≡ ok tt (synced i sb (grown d i s))
unfolding grow
grow_outcome d i s sb h m =
    rw (grow, lt→ltb (s.inode_table i).i_size (s.f_desc_table d).fd_pos h)
      (sync_outcome i (grown d i s) sb m)

grown_inode :
    (d i : ℕ) (s : Fs)
    → (grown d i s).inode_table i ≡ record (s.inode_table i) { i_size = (s.f_desc_table d).fd_pos }
unfolding put_in
grown_inode d i s =
    put_self s.inode_table i (record (s.inode_table i) { i_size = (s.f_desc_table d).fd_pos })

after_inodes :
    (s : Fs) (src d i buf len : ℕ) → (after s src d i buf len).inode_table ≡ s.inode_table
unfolding put_desc to_user
after_inodes s src d i buf len = refl

after-Mounted :
    (s : Fs) (src d i buf len dev : ℕ) (sb : SuperBlock)
    → Mounted dev sb s
    → Mounted dev sb (grown d i (after s src d i buf len))
unfolding put_desc to_user put_in
after-Mounted s src d i buf len dev sb m = m

-- A read from a regular file that starts in the file and passes its end, but not its last sector, is
-- answered with the whole count that was asked for, which is more than the file has left; and the
-- file is afterwards as long as the read wanted it to be. The device is mounted, the read is a sector
-- less than 128 KB at most and starts in the first 2 GB of the disk, the file is below 2 GB, and the
-- address passes the check of va2la.
pub rdwt_file-Past :
    (s : Fs) (src d i buf len : ℕ) (sb : SuperBlock)
    → Past s src d i buf len
    → Mounted (s.inode_table i).i_dev sb s
    → (t : Fs) × (rdwt_file reading src d i buf len s ≡ ok len t)
      × ((s.inode_table i).i_size - (s.f_desc_table d).fd_pos < len)
      × ((t.inode_table i).i_size ≡ (s.f_desc_table d).fd_pos + len)
unfolding put_desc to_user
rdwt_file-Past s src d i buf len sb h m =
    let n : amount s d i len ≡ len = all_asked s src d i buf len h in
    let u : Fs = after s src d i buf len in
    let t : Fs = synced i sb (grown d i u) in
    let pos : (u.f_desc_table d).fd_pos ≡ (s.f_desc_table d).fd_pos + len =
      fd_pos-after s src d i buf len ∙ omega (arith, n, h.last, h.size) in
    (
      t,
      file_outcome s src d i buf len (Past-OneRound s src d i buf len h)
          ∙ and_then-ok (grow d i u) tt t _ (
              grow_outcome d i u sb (omega (arith, pos, h.ends)) (
                subst (λ (x : ℕ). Mounted x sb (grown d i u))
                  (sym (ap (λ (p : Inode). p.i_dev) (grown_inode d i u)))
                  (after-Mounted s src d i buf len (s.inode_table i).i_dev sb m)))
          ∙ ap (λ (x : ℕ). ok x t) n,
      omega (arith, h.starts, h.ends),
      ap (λ (p : Inode). p.i_size) (grown_inode d i u) ∙ pos,
    )
