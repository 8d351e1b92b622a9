-- ===== src/Fs/Entries.antt =====
-- fs/open.c `new_inode`, `new_dir_entry` and `create_file`.
use oscourse_project.Base.{
  ℕ, zero, suc, ◌+◌, ◌*◌, ◌/◌, ◌%◌, ◌^◌, Bool, true, false, Option, none, some, List, [], ◌∷◌, ltb,
  ◌==◌, if◌then◌else◌,
}
use oscourse_project.Run.{Stop}
use oscourse_project.Act.{Act, ok, ◌>>=◌, ◌>>◌, pure, get, change, halt, deref}
use oscourse_project.Segment.{load_int, poke_int, poke}
use oscourse_project.Fs.State.{
  Inode, Fs, put_in, rd_sect, wr_sect, sector_size, dir_entry_size, nr_default_file_sects,
  i_regular,
}
use oscourse_project.Fs.Inodes.{get_inode, sync_inode}
use oscourse_project.Fs.Path.{strip_path}
use oscourse_project.Fs.Maps.{alloc_imap_bit, alloc_smap_bit}

-- `new_inode`: the index of the new i-node. For number 0 `get_inode` gives the null pointer.
unfoldable pub new_inode : (dev inode_nr start_sect : ℕ) → Act Fs ℕ
new_inode dev inode_nr start_sect = do
  found ← get_inode dev inode_nr
  i ← deref found
  s ← get
  change (
      put_in i (record {
        i_mode = i_regular;
        i_size = 0;
        i_start_sect = start_sect;
        i_nr_sects = nr_default_file_sects;
        i_dev = dev;
        i_cnt = 1;
        i_num = inode_nr;
      }))
  sync_inode i
  pure i

-- What the search for a slot in a sector of the directory ends with: a free slot, the place after the
-- last entry, or the count of the entries so far.
pub data Place : Type 0 where
  unused : ℕ → Place
  at_end : ℕ → Place
  full : ℕ → Place

-- The loop over the `n` entries of a sector from the `j`-th on; `m` entries came before.
unfoldable pub find_place : (n j m nr : ℕ) → (ℕ → ℕ) → Place
find_place zero j m nr buf = full m
find_place (suc n) j m nr buf =
    let rest = find_place n (j + 1) (m + 1) nr buf in
    if ltb nr (m + 1)
    then at_end j
    else (if load_int buf (j * dir_entry_size) == 0 then unused j else rest)

-- `strcpy`, with the zero that ends the text
unfoldable pub store_text : List ℕ → (a : ℕ) → (ℕ → ℕ) → ℕ → ℕ
store_text [] a buf = poke buf a 0
store_text (c ∷ s) a buf = store_text s (a + 1) (poke buf a c)

-- The entry at place `j` of `fsbuf`, as `new_dir_entry` fills it.
unfoldable pub store_entry : (j inode_nr : ℕ) → List ℕ → (ℕ → ℕ) → ℕ → ℕ
store_entry j inode_nr filename buf =
    store_text filename (j * dir_entry_size + 4) (poke_int buf (j * dir_entry_size) inode_nr)

-- The loop over the `n` sectors from the `i`-th on: the sector's number and the place in it, and
-- whether the directory grows. A directory whose sectors are all full of entries in use has a further
-- sector, since the count of sectors is rounded up past a full one.
unfoldable pub find_entry : (n i m nr : ℕ) → Inode → Act Fs (ℕ × ℕ × Bool)
find_entry zero i m nr dir = halt Stop.wild
find_entry (suc n) i m nr dir = do
  rd_sect dir.i_dev (dir.i_start_sect + i)
  s ← get
  elim (find_place (sector_size / dir_entry_size) 0 m nr s.fsbuf) [
    | unused j ↦ pure (i, j, false)
    | at_end j ↦ pure (i, j, true)
    | full m' ↦ find_entry n (i + 1) m' nr dir
  ]

-- `new_dir_entry`, in the directory at index `d`
unfoldable pub new_dir_entry : (d inode_nr : ℕ) → List ℕ → Act Fs (Unit {0})
new_dir_entry d inode_nr filename = do
  s ← get
  let dir = s.inode_table d
  place ←
      find_entry ((dir.i_size + sector_size) % 2 ^ 32 / sector_size) 0 0
        (dir.i_size / dir_entry_size) dir
  if place.2
      then change (put_in d (record dir { i_size = (dir.i_size + dir_entry_size) % 2 ^ 32 }))
      else pure tt
  change (λ t. record t { fsbuf = store_entry place.1 inode_nr filename t.fsbuf })
  wr_sect dir.i_dev (dir.i_start_sect + place.0)
  sync_inode d

-- `create_file`: the index of the i-node, or `none` for a bad path
unfoldable pub create_file : List ℕ → Act Fs (Option ℕ)
create_file path s = elim (strip_path path) [
  | none ↦ ok none s
  | some filename ↦
      (do
        let dev = (s.inode_table s.root).i_dev
        inode_nr ← alloc_imap_bit dev
        free_sect_nr ← alloc_smap_bit dev nr_default_file_sects
        i ← new_inode dev inode_nr free_sect_nr
        t ← get
        new_dir_entry s.root (t.inode_table i).i_num filename
        pure (some i))
        s
]
