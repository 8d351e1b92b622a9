-- ===== src/Fs/Path.antt =====
-- fs/misc.c `strip_path` and `search_file`. A path is the list of its bytes before the final zero.
use oscourse_project.Base.{
  ℕ, zero, suc, ◌+◌, ◌-◌, ◌*◌, ◌/◌, ◌%◌, ◌^◌, Bool, true, ◌&&◌, Option, none, some, List, [], ◌∷◌,
  ltb, ◌==◌, if◌then◌else◌,
}
use oscourse_project.Act.{Act, ok, ◌>>=◌, ◌>>◌, pure, get}
use oscourse_project.Segment.{load_int}
use oscourse_project.Fs.State.{Inode, Fs, rd_sect, sector_size, dir_entry_size, max_filename_len}

-- The loop of `strip_path` with room for `n` characters: `none` for a path with a second slash.
unfoldable pub copy_name : (n : ℕ) → List ℕ → Option (List ℕ)
copy_name zero s = some []
copy_name (suc n) [] = some []
copy_name (suc n) (c ∷ s) =
    if c == b'/' then none else elim (copy_name n s) [ none ↦ none | some t ↦ some (c ∷ t) ]

-- `strip_path`: the name of the file in the root directory, or `none` for -1
unfoldable pub strip_path : List ℕ → Option (List ℕ)
strip_path [] = copy_name max_filename_len []
strip_path (c ∷ s) = copy_name max_filename_len (if c == b'/' then s else c ∷ s)

-- `memcmp(filename, pde->name, n) == 0`: the bytes of a name after its end are zero.
unfoldable pub same_name : (n : ℕ) → List ℕ → (a : ℕ) → (ℕ → ℕ) → Bool
same_name zero name a buf = true
same_name (suc n) [] a buf = (0 == buf a) && same_name n [] (a + 1) buf
same_name (suc n) (c ∷ name) a buf = (c == buf a) && same_name n name (a + 1) buf

-- What the search in a sector of the directory ends with: an i-node, the last entry, or the count
-- of the entries so far.
pub data Search : Type 0 where
  found : ℕ → Search
  past : Search
  more : ℕ → Search

-- The loop over the `n` entries of a sector from the `j`-th on; `m` entries came before.
unfoldable pub search_block : (n j m nr : ℕ) → List ℕ → (ℕ → ℕ) → Search
search_block zero j m nr name buf = more m
search_block (suc n) j m nr name buf =
    let rest = search_block n (j + 1) (m + 1) nr name buf in
    if same_name max_filename_len name (j * dir_entry_size + 4) buf
    then found (load_int buf (j * dir_entry_size))
    else (if ltb nr (m + 1) then past else rest)

-- The loop over the `n` sectors of the directory from the `i`-th on.
unfoldable pub search_dir : (n i m nr : ℕ) → List ℕ → Inode → Act Fs ℕ
search_dir zero i m nr name dir = pure 0
search_dir (suc n) i m nr name dir = do
  rd_sect dir.i_dev (dir.i_start_sect + i)
  s ← get
  elim (search_block (sector_size / dir_entry_size) 0 m nr name s.fsbuf) [
    | found inode_nr ↦ pure inode_nr
    | past ↦ pure 0
    | more m' ↦ search_dir n (i + 1) m' nr name dir
  ]

-- `search_file`: the number of the file's i-node, or 0
unfoldable pub search_file : List ℕ → Act Fs ℕ
search_file path s = elim (strip_path path) [
  | none ↦ ok 0 s
  | some [] ↦ ok (s.inode_table s.root).i_num s
  | some (c ∷ name) ↦
      let dir : Inode = s.inode_table s.root in
      search_dir ((dir.i_size + sector_size - 1) % 2 ^ 32 / sector_size) 0 0
        (dir.i_size / dir_entry_size) (c ∷ name) dir s
]
