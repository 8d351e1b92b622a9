-- ===== src/Fs/Mounted.antt =====
-- fs/main.c `get_super_block`, for a device whose super block is in the table.
use oscourse_project.Base.{ℕ, ◌≡◌, refl, some}
use oscourse_project.Act.{ok}
use oscourse_project.Fs.State.{Fs, SuperBlock, nr_super_block}
use oscourse_project.Fs.Inodes.{find_super_block, get_super_block}

-- Device `dev` has the super block `sb`.
abbrev pub Mounted : (dev : ℕ) → SuperBlock → Fs → Type 0
Mounted dev sb s = find_super_block nr_super_block 0 dev s.super_block ≡ some sb

pub get_super_block-Mounted :
    (dev : ℕ) (s : Fs) (sb : SuperBlock) → Mounted dev sb s → get_super_block dev s ≡ ok sb s
unfolding get_super_block
get_super_block-Mounted dev s sb h = rw (get_super_block, h) refl
