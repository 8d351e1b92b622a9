-- ===== src/Fs/Names.antt =====
-- fs/misc.c `strip_path`: which paths have a name, and which name.
use oscourse_project.Base.{
  ℕ, zero, suc, ◌≡◌, refl, Bool, false, ◌||◌, none, some, List, [], ◌∷◌, ◌==◌, if◌then◌else◌, arith,
}
use oscourse_project.Fs.State.{max_filename_len}
use oscourse_project.Fs.Path.{copy_name, strip_path}

-- The first `n` characters.
abbrev pub first : ℕ → List ℕ → List ℕ
first zero s = []
first (suc n) [] = []
first (suc n) (c ∷ s) = c ∷ first n s

abbrev pub has_slash : List ℕ → Bool
has_slash [] = false
has_slash (c ∷ s) = (c == b'/') || has_slash s

-- A path without the slash that it may begin with.
abbrev pub relative : List ℕ → List ℕ
relative [] = []
relative (c ∷ s) = if c == b'/' then s else c ∷ s

copy_name_lem :
    (n : ℕ) (s : List ℕ)
    → copy_name n s ≡ (if has_slash (first n s) then none else some (first n s))
unfolding copy_name
copy_name_lem zero s = refl
copy_name_lem (suc n) [] = refl
copy_name_lem (suc n) (c ∷ s) = ground (arith, copy_name_lem n s)

-- The name that strip_path gives is the first twelve characters of the path, after the slash that it
-- may begin with; a path with a further slash among these is refused.
pub strip_path_lem :
    (path : List ℕ)
    → strip_path path ≡ (
        if has_slash (first max_filename_len (relative path))
        then none
        else some (first max_filename_len (relative path)))
unfolding strip_path
strip_path_lem [] = copy_name_lem max_filename_len []
strip_path_lem (c ∷ s) = copy_name_lem max_filename_len (relative (c ∷ s))
