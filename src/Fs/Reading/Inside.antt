-- ===== src/Fs/Reading/Inside.antt =====
-- fs/read_write.c `do_rdwt`: a read inside a file.
use oscourse_project.Base.{ℕ, ◌+◌, ◌-◌, ◌*◌, ◌/◌, ◌%◌, ◌^◌, ◌≤◌, ◌<◌, ◌≡◌, refl, ap, ◌∙◌, arith}
use oscourse_project.Act.{ok}
use oscourse_project.Act.Laws.{and_then-ok}
use oscourse_project.Fs.State.{Fs, put_desc, sector_pos, i_regular}
use oscourse_project.Fs.Rdwt.{reading, to_user, rdwt_file, grow}
use oscourse_project.Fs.Reading.{linear, Translates}
use oscourse_project.Fs.Reading.Outcome.{
  OneRound, amount, after, file_outcome, grow_none, fd_pos-after, mem-after, mem-after_other,
}

-- A read inside a file that lies in the first 2 GB of its disk, of a sector less than 128 KB at most.
pub record Inside (s : Fs) (src d i buf len : ℕ) : Type 0 where
  pub regular : (s.inode_table i).i_mode ≡ i_regular
  pub within : (s.f_desc_table d).fd_pos + len ≤ (s.inode_table i).i_size
  pub size : (s.inode_table i).i_size < 2 ^ 31
  pub short : len + 512 ≤ 2 ^ 17
  pub on_disk : ((s.inode_table i).i_start_sect + (s.inode_table i).i_size / 512 + 1) * 512 < 2 ^ 31
  pub translates : Translates s src buf

Inside-OneRound :
    (s : Fs) (src d i buf len : ℕ) → Inside s src d i buf len → OneRound s src d i buf len
Inside-OneRound s src d i buf len h = record {
  regular = h.regular;
  starts = omega (arith, h.within, h.size);
  short = omega (arith, h.within, h.size, h.short);
  low = omega (arith, h.within, h.on_disk);
  positions = ground (arith, h.within, h.size, h.short);
  translates = h.translates;
}

whole : (s : Fs) (src d i buf len : ℕ) → Inside s src d i buf len → amount s d i len ≡ len
whole s src d i buf len h = omega (arith, h.within, h.size, h.short)

-- A read inside a regular file, of a sector less than 128 KB at most, ends with the count that was asked for. The
-- caller's buffer has the bytes of the file from the descriptor's position on, in order, no other
-- byte of memory changes, the position moves behind them, and i-nodes and disk are unchanged. The file
-- lies in the first 2 GB of the disk, and the address passes the check of va2la.
pub rdwt_file_lem :
    (s : Fs) (src d i buf len : ℕ)
    → Inside s src d i buf len
    → (t : Fs) × (rdwt_file reading src d i buf len s ≡ ok len t)
      × ((k : ℕ)
          → k < len
          → t.mem ((linear s src buf + k) % 2 ^ 32)
            ≡ s.disk
                (s.inode_table i).i_dev
                ((s.inode_table i).i_start_sect * 512 + (s.f_desc_table d).fd_pos + k))
      × ((a : ℕ) → len ≤ (a + (2 ^ 32 - linear s src buf)) % 2 ^ 32 → t.mem a ≡ s.mem a)
      × ((t.f_desc_table d).fd_pos ≡ (s.f_desc_table d).fd_pos + len)
      × (t.inode_table ≡ s.inode_table)
      × (t.disk ≡ s.disk)
unfolding put_desc to_user sector_pos
rdwt_file_lem s src d i buf len h =
    let n : amount s d i len ≡ len = whole s src d i buf len h in
    let t : Fs = after s src d i buf len in
    let pos : (t.f_desc_table d).fd_pos ≡ (s.f_desc_table d).fd_pos + len =
      fd_pos-after s src d i buf len ∙ omega (arith, n, h.within, h.size) in
    (
      t,
      file_outcome s src d i buf len (Inside-OneRound s src d i buf len h)
          ∙ and_then-ok (grow d i t) tt t _ (grow_none d i t (omega (arith, pos, h.within)))
          ∙ ap (λ (m : ℕ). ok m t) n,
      (λ k l.
          mem-after s src d i buf len k (omega (arith, n, l)) (omega (arith, n, h.short))
            (omega (arith, n, h.within, h.size))
          ∙ ap (s.disk (s.inode_table i).i_dev) (omega (arith, h.within, h.size, h.on_disk))),
      (λ a l. mem-after_other s src d i buf len a (omega (arith, n, l))),
      pos,
      refl,
      refl,
    )
