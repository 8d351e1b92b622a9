-- ===== src/Fs/Seek.antt =====
-- fs/open.c `do_lseek`: positions stay in the file.
use oscourse_project.Base.{
  ℕ, ◌^◌, ◌≤◌, ◌<◌, ◌≡◌, false, Option, none, some, ◌||◌, if◌then◌else◌, get_or, arith,
}
use oscourse_project.Act.{Result, ok}
use oscourse_project.Fs.State.{Fs, put_desc}
use oscourse_project.Fs.Open.{target, minus_one, signed_gt, negative}

-- Descriptor `fd` of process `src` is entry `d` of the table, for the i-node at index `i`.
pub record Opened (s : Fs) (src fd d i : ℕ) : Type 0 where
  pub descriptor : get_or (s.table src).filp fd none ≡ some d
  pub inode : (s.f_desc_table d).fd_inode ≡ some i

in_file :
    (pos f_size : ℕ)
    → pos < 2 ^ 32
    → f_size < 2 ^ 31
    → (signed_gt pos f_size || negative pos) ≡ false
    → pos ≤ f_size
in_file pos f_size p f h = ground arith

pub moved_to : (d pos : ℕ) → Fs → Fs
unfolding put_desc
moved_to d pos s = put_desc d (record (s.f_desc_table d) { fd_pos = pos }) s

-- The target of a call is `pos`, and lies in the file.
pub Reaches : (s : Fs) (d i off whence pos : ℕ) → Type 0
Reaches s d i off whence pos =
    (target whence off (s.f_desc_table d).fd_pos (s.inode_table i).i_size ≡ some pos)
    × (pos ≤ (s.inode_table i).i_size)

abbrev outcome : (d f_size : ℕ) → Option ℕ → Fs → Result Fs ℕ
outcome d f_size none s = ok minus_one s
outcome d f_size (some pos) s =
    if signed_gt pos f_size || negative pos then ok minus_one s else ok pos (moved_to d pos s)
