-- ===== src/Fs/Open.antt =====
-- fs/open.c `do_open`, `do_close` and `do_lseek`. A -1 is its bit pattern.
use oscourse_project.Base.{
  ℕ, zero, suc, ◌+◌, ◌-◌, ◌%◌, ◌^◌, Bool, not, ◌||◌, Option, none, some, List, [], ◌∷◌, get_or, set,
  ltb, leb, ◌==◌, if◌then◌else◌, has_flag,
}
use oscourse_project.Proc.{nr_tasks, nr_native_procs}
use oscourse_project.Run.{Stop}
use oscourse_project.Act.{Act, ◌>>=◌, ◌>>◌, pure, get, change, assert, halt, deref}
use oscourse_project.Segment.{ldt_seg_linear}
use oscourse_project.Fs.State.{
  FileDesc, Fs, put_desc, put_proc, nr_file_desc, max_path, type_of, i_char_special, i_directory,
  i_regular, root_inode_nr, o_creat, o_rdwr, major, minor,
}
use oscourse_project.Fs.Inodes.{get_inode, put_inode}
use oscourse_project.Fs.Path.{strip_path, search_file}
use oscourse_project.Fs.Entries.{create_file}

abbrev pub minus_one : ℕ
minus_one = 2 ^ 32 - 1

-- `va2la` of kernel/proc.c, on the tables of the file system
unfoldable pub user_address : (pid va : ℕ) → Act Fs ℕ
user_address pid va = do
  s ← get
  let la = (ldt_seg_linear (s.table pid).ldt_rw + va) % 2 ^ 32
  assert (not (ltb pid (nr_tasks + nr_native_procs)) || la == va)
  pure la

-- The text of at most `n` bytes at an address.
unfoldable pub text_at : (n a : ℕ) → (ℕ → ℕ) → List ℕ
text_at zero a mem = []
text_at (suc n) a mem =
    let rest = text_at n ((a + 1) % 2 ^ 32) mem in if mem a == 0 then [] else mem a ∷ rest

-- "get parameters from the message": the path that the caller names
unfoldable pub copy_path : (src pathname name_len : ℕ) → Act Fs (List ℕ)
copy_path src pathname name_len = do
  assert (ltb name_len max_path)
  la ← user_address src pathname
  s ← get
  pure (text_at name_len la s.mem)

-- "find a free slot in PROCESS::filp[]"
unfoldable pub free_fd : List (Option ℕ) → Option ℕ
free_fd [] = none
free_fd (none ∷ l) = some 0
free_fd (some d ∷ l) = elim (free_fd l) [ none ↦ none | some i ↦ some (i + 1) ]

-- "find a free slot in f_desc_table[]", among `n` from `i` on
unfoldable pub free_desc : (n i : ℕ) → (ℕ → FileDesc) → Option ℕ
free_desc zero i t = none
free_desc (suc n) i t =
    let rest = free_desc n (i + 1) t in elim (t i).fd_inode [ none ↦ some i | some p ↦ rest ]

abbrev or_panic : Option ℕ → Act Fs ℕ
or_panic none = halt Stop.panic
or_panic (some i) = pure i

-- The i-node that is opened, or `none` for -1.
unfoldable pub find_inode : (flags : ℕ) → List ℕ → Act Fs (Option ℕ)
find_inode flags pathname = do
  inode_nr ← search_file pathname
  if has_flag flags o_creat
      then (if inode_nr == 0 then create_file pathname else pure none)
      else (do
        assert (has_flag flags o_rdwr)
        s ← get
        elim (strip_path pathname) [
          | none ↦ pure none
          | some filename ↦ get_inode (s.inode_table s.root).i_dev inode_nr
        ])

-- The checks on the kind of i-node that has been opened; the driver of a terminal is told.
unfoldable pub check_mode : ℕ → Act Fs (Unit {0})
check_mode i = do
  s ← get
  let p = s.inode_table i
  if type_of p.i_mode == i_char_special
      then (do
        assert (major p.i_start_sect == 4)
        change (λ t. record t { opened = minor p.i_start_sect ∷ t.opened }))
      else (if type_of p.i_mode == i_directory
          then assert (p.i_num == root_inode_nr)
          else assert (p.i_mode == i_regular))

-- "connects proc with file_descriptor" and "file_descriptor with inode"
unfoldable pub connect : (src fd d i flags : ℕ) → Fs → Fs
connect src fd d i flags s =
    put_desc d (record { fd_mode = flags; fd_pos = 0; fd_cnt = 1; fd_inode = some i })
      (put_proc src (record (s.table src) { filp = set (s.table src).filp fd (some d) }) s)

-- `do_open`: a descriptor, or -1
unfoldable pub do_open : (src flags pathname name_len : ℕ) → Act Fs ℕ
do_open src flags pathname name_len = do
  path ← copy_path src pathname name_len
  s ← get
  fd ← or_panic (free_fd (s.table src).filp)
  d ← or_panic (free_desc nr_file_desc 0 s.f_desc_table)
  pin ← find_inode flags path
  elim pin [
    | none ↦ pure minus_one
    | some i ↦ (do change (connect src fd d i flags); check_mode i; pure fd)
  ]

-- `f_desc_table` at `pcaller->filp[fd]`, which is null out of range
abbrev pub desc_of : (src fd : ℕ) → Act Fs ℕ
desc_of src fd s = deref (get_or (s.table src).filp fd none) s

-- `if (--desc->fd_cnt == 0) desc->fd_inode = 0;`
unfoldable pub drop_desc : FileDesc → FileDesc
drop_desc d =
    let cnt : ℕ = (d.fd_cnt + minus_one) % 2 ^ 32 in
    record d { fd_cnt = cnt; fd_inode = if cnt == 0 then none else d.fd_inode }

-- `do_close`
unfoldable pub do_close : (src fd : ℕ) → Act Fs ℕ
do_close src fd = do
  d ← desc_of src fd
  s ← get
  i ← deref (s.f_desc_table d).fd_inode
  put_inode i
  change (put_desc d (drop_desc (s.f_desc_table d)))
  change (put_proc src (record (s.table src) { filp = set (s.table src).filp fd none }))
  pure 0

-- An `int` is negative.
abbrev pub negative : ℕ → Bool
negative a = leb (2 ^ 31) a

-- `a > b` on `int`
abbrev pub signed_gt : ℕ → ℕ → Bool
signed_gt a b = ltb ((b + 2 ^ 31) % 2 ^ 32) ((a + 2 ^ 31) % 2 ^ 32)

-- The position that `do_lseek` works out; `whence` is SEEK_SET, SEEK_CUR or SEEK_END.
unfoldable pub target : (whence off pos f_size : ℕ) → Option ℕ
target whence off pos f_size =
    if whence == 1
    then some off
    else (if whence == 2
        then some ((pos + off) % 2 ^ 32)
        else (if whence == 3 then some ((f_size + off) % 2 ^ 32) else none))

-- `do_lseek`
unfoldable pub do_lseek : (src fd off whence : ℕ) → Act Fs ℕ
do_lseek src fd off whence = do
  d ← desc_of src fd
  s ← get
  i ← deref (s.f_desc_table d).fd_inode
  let f_size = (s.inode_table i).i_size
  elim (target whence off (s.f_desc_table d).fd_pos f_size) [
    | none ↦ pure minus_one
    | some pos ↦
        if signed_gt pos f_size || negative pos
        then pure minus_one
        else (do change (put_desc d (record (s.f_desc_table d) { fd_pos = pos })); pure pos)
  ]
