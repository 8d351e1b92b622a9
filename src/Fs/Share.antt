-- ===== src/Fs/Share.antt =====
-- fs/main.c `fs_fork` and `fs_exit`: the descriptors that a child shares with its parent.
use oscourse_project.Base.{ℕ, ◌+◌, ◌%◌, ◌^◌, Option, none, some, List, [], ◌∷◌}
use oscourse_project.Act.{Act, ◌>>=◌, ◌>>◌, pure, get, change, deref}
use oscourse_project.Fs.State.{Inode, FileDesc, Fs, put_in, put_desc, put_proc}
use oscourse_project.Fs.Open.{drop_desc, minus_one}

-- The counts of an i-node and of a descriptor, one more or one less.
unfoldable pub more_inode : Inode → Inode
more_inode p = record p { i_cnt = (p.i_cnt + 1) % 2 ^ 32 }

unfoldable pub less_inode : Inode → Inode
less_inode p = record p { i_cnt = (p.i_cnt + minus_one) % 2 ^ 32 }

unfoldable pub more_desc : FileDesc → FileDesc
more_desc d = record d { fd_cnt = (d.fd_cnt + 1) % 2 ^ 32 }

-- The body of the loop of `fs_fork`, for the descriptor at index `d`
unfoldable pub share : ℕ → Act Fs (Unit {0})
share d = do
  s ← get
  change (put_desc d (more_desc (s.f_desc_table d)))
  i ← deref (s.f_desc_table d).fd_inode
  change (put_in i (more_inode (s.inode_table i)))

-- The loop of `fs_fork` over the child's `filp`
unfoldable pub share_all : List (Option ℕ) → Act Fs (Unit {0})
share_all [] = pure tt
share_all (none ∷ l) = share_all l
share_all (some d ∷ l) = do share d; share_all l

-- `fs_fork`
unfoldable pub fs_fork : (child : ℕ) → Act Fs ℕ
fs_fork child = do s ← get; share_all (s.table child).filp; pure 0

-- The body of the loop of `fs_exit`
unfoldable pub release : ℕ → Act Fs (Unit {0})
release d = do
  s ← get
  i ← deref (s.f_desc_table d).fd_inode
  change (put_in i (less_inode (s.inode_table i)))
  change (put_desc d (drop_desc (s.f_desc_table d)))

-- The loop of `fs_exit` over the entries of `filp`
unfoldable pub release_all : List (Option ℕ) → Act Fs (Unit {0})
release_all [] = pure tt
release_all (none ∷ l) = release_all l
release_all (some d ∷ l) = do release d; release_all l

-- The entries after the loop: all are null.
abbrev pub no_descs : List (Option ℕ) → List (Option ℕ)
no_descs [] = []
no_descs (x ∷ l) = none ∷ no_descs l

-- `fs_exit`
unfoldable pub fs_exit : (pid : ℕ) → Act Fs ℕ
fs_exit pid = do
  s ← get
  release_all (s.table pid).filp
  change (λ t. put_proc pid (record (t.table pid) { filp = no_descs (t.table pid).filp }) t)
  pure 0
