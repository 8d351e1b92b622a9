-- ===== src/Fs/Reading/Outcome.antt =====
-- fs/read_write.c `do_rdwt`: what a read of one round does.
use oscourse_project.Base.{
  ℕ, suc, ◌+◌, ◌-◌, ◌*◌, ◌/◌, ◌%◌, ◌^◌, ◌≤◌, ◌<◌, ◌≡◌, refl, ap, ◌∙◌, Bool, true, ◌&&◌, ◌||◌, min,
  ltb, ◌==◌, if◌then◌else◌, arith, le→ltb, lt→ltb, subst, ==-self,
}
use oscourse_project.Run.{Stop}
use oscourse_project.Act.{ok, and_then, assert}
use oscourse_project.Act.Laws.{and_then-ok, assert-ok, need-ok}
use oscourse_project.Fs.State.{Fs, Inode, put_desc, sector_pos, i_regular, i_directory}
use oscourse_project.Fs.Rdwt.{reading, to_user, advance, rdwt_loop, rdwt_file, grow}
use oscourse_project.Fs.Reading.{linear, Translates, moved, fetched, loop_once}

-- The sectors of a read: the first and the last.
abbrev pub first_sect : Fs → (d i : ℕ) → ℕ
first_sect s d i = (s.inode_table i).i_start_sect + (s.f_desc_table d).fd_pos / 512

abbrev pub last_sect : Fs → (d i len : ℕ) → ℕ
last_sect s d i len =
    (s.inode_table i).i_start_sect
    + min (((s.f_desc_table d).fd_pos + len) % 2 ^ 32) (s.inode_table i).i_size / 512

-- How many bytes the one round of a read moves.
abbrev pub amount : Fs → (d i len : ℕ) → ℕ
amount s d i len =
    min len ((last_sect s d i len + 1 - first_sect s d i) * 512 - (s.f_desc_table d).fd_pos % 512)

-- A read from a file, of at most 256 sectors, that starts in the file, below 2 GB of file and disk.
pub record OneRound (s : Fs) (src d i buf len : ℕ) : Type 0 where
  pub regular : (s.inode_table i).i_mode ≡ i_regular
  pub starts : first_sect s d i ≤ last_sect s d i len
  pub short : last_sect s d i len < first_sect s d i + 256
  pub low : first_sect s d i * 512 < 2 ^ 31
  pub positions :
      ltb (s.f_desc_table d).fd_pos (2 ^ 31)
        && ltb (min (((s.f_desc_table d).fd_pos + len) % 2 ^ 32) (s.inode_table i).i_size) (2 ^ 31)
        && ltb len (2 ^ 31)
      ≡ true
  pub translates : Translates s src buf

-- The state after the round.
abbrev pub after : Fs → (src d i buf len : ℕ) → Fs
after s src d i buf len = advance d (amount s d i len) (
    moved src buf (s.inode_table i).i_dev (first_sect s d i)
      (last_sect s d i len + 1 - first_sect s d i) ((s.f_desc_table d).fd_pos % 512)
      (amount s d i len) s)

loop_outcome :
    (s : Fs) (src d i buf len chunk fuel : ℕ)
    → OneRound s src d i buf len
    → chunk ≡ last_sect s d i len + 1 - first_sect s d i
    → fuel ≡ suc (suc (last_sect s d i len - first_sect s d i))
    → rdwt_loop fuel reading src buf
        (s.inode_table i).i_dev
        d
        (first_sect s d i)
        (last_sect s d i len)
        chunk
        ((s.f_desc_table d).fd_pos % 512)
        0
        len
        s
      ≡ ok (amount s d i len) (after s src d i buf len)
loop_outcome s src d i buf len chunk fuel r c f =
    let dev : ℕ = (s.inode_table i).i_dev in
    let a : ℕ = first_sect s d i in
    let z : ℕ = last_sect s d i len in
    let off : ℕ = (s.f_desc_table d).fd_pos % 512 in
    let n : ℕ = amount s d i len in
    ap (λ (m : ℕ). rdwt_loop m reading src buf dev d a z chunk off 0 len s) f
    ∙ ap (λ (m : ℕ). rdwt_loop (suc (suc (z - a))) reading src buf dev d a z m off 0 len s) c
    ∙ loop_once (z - a) src buf dev d a z (z + 1 - a) off len s r.starts (omega (arith, r.starts))
        (subst (Translates s src) {x = buf} {y = buf + 0} (omega arith) r.translates) r.low
        (omega (arith, r.starts, r.short))
    ∙ ap (λ (m : ℕ). ok (0 + n) (advance d n (moved src m dev a (z + 1 - a) off n s))) {x = buf + 0}
        {y = buf} (omega arith)
    ∙ ap (λ (m : ℕ). ok m (advance d n (moved src buf dev a (z + 1 - a) off n s))) {x = 0 + n}
        {y = n} (omega arith)

pub file_outcome :
    (s : Fs) (src d i buf len : ℕ)
    → OneRound s src d i buf len
    → rdwt_file reading src d i buf len s
      ≡ and_then (grow d i (after s src d i buf len)) (λ x. ok (amount s d i len))
unfolding rdwt_file
file_outcome s src d i buf len r =
    let p : Inode = s.inode_table i in
    let a : ℕ = first_sect s d i in
    let z : ℕ = last_sect s d i len in
    and_then-ok (assert ((p.i_mode == i_regular) || (p.i_mode == i_directory)) s) tt s _ (
      assert-ok ((p.i_mode == i_regular) || (p.i_mode == i_directory)) s
        (ground (arith, r.regular)))
    ∙ and_then-ok _ tt s _ (need-ok Stop.too_large _ s r.positions)
    ∙ and_then-ok
        (rdwt_loop (z + 2 - a) reading src buf p.i_dev d a z (min (z + 1 - a) 2048)
          ((s.f_desc_table d).fd_pos % 512) 0 len s)
        (amount s d i len) (after s src d i buf len) _
        (loop_outcome s src d i buf len (min (z + 1 - a) 2048) (z + 2 - a) r
          (omega (arith, r.short, r.starts)) (omega (arith, r.starts)))

pub grow_none :
    (d i : ℕ) (s : Fs) → (s.f_desc_table d).fd_pos ≤ (s.inode_table i).i_size → grow d i s ≡ ok tt s
unfolding grow
grow_none d i s h = rw (grow, le→ltb (s.inode_table i).i_size (s.f_desc_table d).fd_pos h) refl

pub fd_pos-after :
    (s : Fs) (src d i buf len : ℕ)
    → ((after s src d i buf len).f_desc_table d).fd_pos
      ≡ ((s.f_desc_table d).fd_pos + amount s d i len) % 2 ^ 32
unfolding put_desc to_user
fd_pos-after s src d i buf len =
    ap
      (λ (b : Bool).
        (if b
          then record (s.f_desc_table d) {
            fd_pos = ((s.f_desc_table d).fd_pos + amount s d i len) % 2 ^ 32;
          }
          else s.f_desc_table d).fd_pos)
      (==-self d)

-- A byte that the round has moved, and one that it has not.
pub mem-after :
    (s : Fs) (src d i buf len k : ℕ)
    → k < amount s d i len
    → amount s d i len < 2 ^ 32
    → (s.f_desc_table d).fd_pos % 512 + amount s d i len
      ≤ (last_sect s d i len + 1 - first_sect s d i) * 512
    → (after s src d i buf len).mem ((linear s src buf + k) % 2 ^ 32)
      ≡ s.disk
          (s.inode_table i).i_dev
          (sector_pos (first_sect s d i) + ((s.f_desc_table d).fd_pos % 512 + k))
unfolding put_desc to_user
mem-after s src d i buf len k h w r =
    let la : ℕ = linear s src buf in
    let o : ℕ = ((la + k) % 2 ^ 32 + (2 ^ 32 - la)) % 2 ^ 32 in
    let e : o ≡ k = omega arith in
    let n : ℕ = amount s d i len in
    let off : ℕ = (s.f_desc_table d).fd_pos % 512 in
    let top : ℕ = (last_sect s d i len + 1 - first_sect s d i) * 512 in
    let base : ℕ = sector_pos (first_sect s d i) in
    let dev : ℕ = (s.inode_table i).i_dev in
    let old : ℕ = s.mem ((la + k) % 2 ^ 32) in
    ap
      (λ (x : ℕ).
        if ltb x n
        then (if ltb (off + x) top then s.disk dev (base + (off + x)) else s.fsbuf (off + x))
        else old)
      e
    ∙ ap
        (λ (b : Bool).
          if b
          then (if ltb (off + k) top then s.disk dev (base + (off + k)) else s.fsbuf (off + k))
          else old)
        (lt→ltb k n h)
    ∙ ap (λ (b : Bool). if b then s.disk dev (base + (off + k)) else s.fsbuf (off + k))
        (lt→ltb (off + k) top (omega (arith, h, r)))

pub mem-after_other :
    (s : Fs) (src d i buf len a : ℕ)
    → amount s d i len ≤ (a + (2 ^ 32 - linear s src buf)) % 2 ^ 32
    → (after s src d i buf len).mem a ≡ s.mem a
unfolding put_desc to_user
mem-after_other s src d i buf len a h =
    let o : ℕ = (a + (2 ^ 32 - linear s src buf)) % 2 ^ 32 in
    let off : ℕ = (s.f_desc_table d).fd_pos % 512 in
    ap
      (λ (b : Bool).
        if b
        then (fetched (s.inode_table i).i_dev (first_sect s d i)
              (last_sect s d i len + 1 - first_sect s d i) s).fsbuf
            (off + o)
        else s.mem a)
      (le→ltb o (amount s d i len) h)
