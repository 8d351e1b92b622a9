-- ===== src/Fs/Counts/Exit.antt =====
-- fs/main.c `fs_exit`: the counts go down.
use oscourse_project.Base.{
  ℕ, ◌+◌, ◌-◌, ◌%◌, ◌^◌, ◌≤◌, ◌<◌, ◌≡◌, ◌≢◌, refl, ap, ◌∙◌, Bool, Option, none, some, List, [], ◌∷◌,
  if◌then◌else◌, arith, ne→==,
}
use oscourse_project.Act.{ok, deref, and_then}
use oscourse_project.Act.Laws.{and_then-ok}
use oscourse_project.Fs.State.{Fs, FileDesc, put_in, put_desc, put_proc}
use oscourse_project.Fs.Open.{drop_desc}
use oscourse_project.Fs.Share.{less_inode, fs_fork, release, release_all, fs_exit, no_descs}
use oscourse_project.Fs.Counts.{
  points, uses, refs, Linked, SameLinks, refs_same, Linked-same, kept, lowered, points_self,
}
use oscourse_project.Fs.Counts.Fork.{Room, Raised, fs_fork_lem}

-- The counts in `t` are lower than in `s` by what `filp` names.
pub record Lowered (l : List (Option ℕ)) (s t : Fs) : Type 0 where
  pub descs : (d : ℕ) → (t.f_desc_table d).fd_cnt + uses l d ≡ (s.f_desc_table d).fd_cnt
  pub inodes : (i : ℕ) → (t.inode_table i).i_cnt + refs s.f_desc_table l i ≡ (s.inode_table i).i_cnt
  pub links : (d : ℕ) → (t.f_desc_table d).fd_inode ≡ (s.f_desc_table d).fd_inode
  pub same_table : t.table ≡ s.table

-- The counts are words, and each descriptor has a use besides those of `filp`.
pub record Shared (l : List (Option ℕ)) (s : Fs) : Type 0 where
  pub desc_word : (d : ℕ) → (s.f_desc_table d).fd_cnt < 2 ^ 32
  pub inode_word : (i : ℕ) → (s.inode_table i).i_cnt < 2 ^ 32
  pub descs : (d : ℕ) → uses l d ≢ 0 → uses l d < (s.f_desc_table d).fd_cnt
  pub inodes : (i : ℕ) → refs s.f_desc_table l i ≤ (s.inode_table i).i_cnt

abbrev dropped : (d i : ℕ) → Fs → Fs
dropped d i s =
    put_desc d (drop_desc (s.f_desc_table d)) (put_in i (less_inode (s.inode_table i)) s)

release_lem :
    (d i : ℕ) (s : Fs) → (s.f_desc_table d).fd_inode ≡ some i → release d s ≡ ok tt (dropped d i s)
unfolding release put_desc put_in
release_lem d i s h =
    ap
      (λ o. and_then (deref o s) (λ j t.
        ok tt
          (put_desc d (drop_desc (s.f_desc_table d)) (put_in j (less_inode (s.inode_table j)) t))))
      h

drop_desc_shared :
    (p : FileDesc)
    → 1 < p.fd_cnt
    → p.fd_cnt < 2 ^ 32
    → ((drop_desc p).fd_cnt + 1 ≡ p.fd_cnt) × ((drop_desc p).fd_inode ≡ p.fd_inode)
unfolding drop_desc
drop_desc_shared p h k = (
  ground arith,
  ap (λ (b : Bool). if b then none else p.fd_inode)
      (ne→== ((p.fd_cnt + (2 ^ 32 - 1)) % 2 ^ 32) 0 (λ z. (omega (arith, z)))),
)

dropped_links :
    (d i : ℕ) (s : Fs)
    → 1 < (s.f_desc_table d).fd_cnt
    → (s.f_desc_table d).fd_cnt < 2 ^ 32
    → SameLinks s.f_desc_table (dropped d i s).f_desc_table
unfolding put_in put_desc
dropped_links d i s h k e =
    kept s.f_desc_table d e (drop_desc (s.f_desc_table d)) (λ p. p.fd_inode)
      (drop_desc_shared (s.f_desc_table d) h k).1

dropped_desc :
    (d i e : ℕ) (s : Fs)
    → 1 < (s.f_desc_table d).fd_cnt
    → (s.f_desc_table d).fd_cnt < 2 ^ 32
    → ((dropped d i s).f_desc_table e).fd_cnt + points (some d) e ≡ (s.f_desc_table e).fd_cnt
unfolding put_in put_desc
dropped_desc d i e s h k =
    lowered s.f_desc_table d e (drop_desc (s.f_desc_table d)) (λ p. p.fd_cnt)
      (drop_desc_shared (s.f_desc_table d) h k).0

dropped_inode :
    (d i k : ℕ) (s : Fs)
    → 0 < (s.inode_table i).i_cnt
    → (s.inode_table i).i_cnt < 2 ^ 32
    → ((dropped d i s).inode_table k).i_cnt + points (some i) k ≡ (s.inode_table k).i_cnt
unfolding put_in put_desc less_inode
dropped_inode d i k s h w =
    lowered s.inode_table i k (less_inode (s.inode_table i)) (λ p. p.i_cnt) (omega arith)

dropped_table : (d i : ℕ) (s : Fs) → (dropped d i s).table ≡ s.table
unfolding put_in put_desc
dropped_table d i s = refl

pub release_all_lem :
    (l : List (Option ℕ)) (s : Fs)
    → Linked s.f_desc_table l
    → Shared l s
    → (t : Fs) × (release_all l s ≡ ok tt t) × Lowered l s t
unfolding release_all
release_all_lem [] s k r = (
  s,
  refl,
  record {
    descs = λ d. omega arith;
    inodes = λ i. omega arith;
    links = λ d. refl;
    same_table = refl;
  },
)
release_all_lem (none ∷ l) s k r =
    let (t, e, h) = release_all_lem l s k (record {
      desc_word = r.desc_word;
      inode_word = r.inode_word;
      descs = λ d. r.descs d;
      inodes = λ i. r.inodes i;
    }) in
    (
      t,
      e,
      record {
        descs = λ d. h.descs d;
        inodes = λ i. h.inodes i;
        links = h.links;
        same_table = h.same_table;
      },
    )
release_all_lem (some d ∷ l) s ((i, e), k) r =
    let u : Fs = dropped d i s in
    let two : 1 < (s.f_desc_table d).fd_cnt =
      omega (arith, points_self d, r.descs d (λ z. (omega (arith, points_self d, z)))) in
    let links : SameLinks s.f_desc_table u.f_desc_table = dropped_links d i s two (r.desc_word d) in
    let one : points (s.f_desc_table d).fd_inode i ≡ 1 = ap (λ o. points o i) e ∙ points_self i in
    let desc : (n : ℕ) → (u.f_desc_table n).fd_cnt + points (some d) n ≡ (s.f_desc_table n).fd_cnt =
      λ n. dropped_desc d i n s two (r.desc_word d) in
    let inode : (n : ℕ)
        → (u.inode_table n).i_cnt + points (s.f_desc_table d).fd_inode n ≡ (s.inode_table n).i_cnt =
      λ n.
        ap (λ o. (u.inode_table n).i_cnt + points o n) e
        ∙ dropped_inode d i n s (omega (arith, r.inodes i, one)) (r.inode_word i) in
    let (t, q, h) =
      release_all_lem l u (Linked-same s.f_desc_table u.f_desc_table l links k) (record {
        desc_word = λ n. omega (arith, desc n, r.desc_word n);
        inode_word = λ n. omega (arith, inode n, r.inode_word n);
        descs = λ n z. omega (arith, r.descs n (λ y. z (omega (arith, y))), desc n);
        inodes = λ n.
            omega (arith, r.inodes n, inode n, refs_same s.f_desc_table u.f_desc_table l n links);
      }) in
    (
      t,
      and_then-ok (release d s) tt u _ (release_lem d i s e) ∙ q,
      record {
        descs = λ n. omega (arith, h.descs n, desc n);
        inodes = λ n.
            omega (arith, h.inodes n, inode n, refs_same s.f_desc_table u.f_desc_table l n links);
        links = λ n. h.links n ∙ links n;
        same_table = h.same_table ∙ dropped_table d i s;
      },
    )

-- After `fs_exit` of process `pid`, the state behind its loop being `t`.
abbrev closed_all : (pid : ℕ) → Fs → Fs
closed_all pid t = put_proc pid (record (t.table pid) { filp = no_descs (t.table pid).filp }) t

exit_outcome :
    (pid : ℕ) (l : List (Option ℕ)) (s t : Fs)
    → (s.table pid).filp ≡ l
    → release_all l s ≡ ok tt t
    → fs_exit pid s ≡ ok 0 (closed_all pid t)
unfolding fs_exit
exit_outcome pid l s t e h =
    and_then-ok (release_all (s.table pid).filp s) tt t _ (ap (λ m. release_all m s) e ∙ h)

Shared-Raised :
    (l : List (Option ℕ)) (s t : Fs)
    → Room l s
    → ((d : ℕ) → uses l d ≢ 0 → (s.f_desc_table d).fd_cnt ≢ 0)
    → Raised l s t
    → Shared l t
Shared-Raised l s t r o h = record {
  desc_word = λ d. omega (arith, h.descs d, r.descs d);
  inode_word = λ i. omega (arith, h.inodes i, r.inodes i);
  descs = λ d z. omega (arith, h.descs d, o d z);
  inodes = λ i. omega (arith, h.inodes i, refs_same s.f_desc_table t.f_desc_table l i h.links);
}

-- A child that is forked and exits leaves the counts as they were. If each descriptor that the child
-- names has an i-node and a use, and no count leaves 32 bits, then after fs_fork and fs_exit, which
-- both return 0, each descriptor has its count and its i-node again and each i-node its count.
pub fs_exit-fs_fork :
    (child : ℕ) (s : Fs)
    → Linked s.f_desc_table (s.table child).filp
    → Room (s.table child).filp s
    → ((d : ℕ) → uses (s.table child).filp d ≢ 0 → (s.f_desc_table d).fd_cnt ≢ 0)
    → (t : Fs) × (u : Fs) × (fs_fork child s ≡ ok 0 t)
      × (fs_exit child t ≡ ok 0 u)
      × ((d : ℕ) → (u.f_desc_table d).fd_cnt ≡ (s.f_desc_table d).fd_cnt)
      × ((d : ℕ) → (u.f_desc_table d).fd_inode ≡ (s.f_desc_table d).fd_inode)
      × ((i : ℕ) → (u.inode_table i).i_cnt ≡ (s.inode_table i).i_cnt)
unfolding put_proc
fs_exit-fs_fork child s k r o =
    let l : List (Option ℕ) = (s.table child).filp in
    let (t, e, h) = fs_fork_lem child s k r in
    let (u, q, g) =
      release_all_lem l t (Linked-same s.f_desc_table t.f_desc_table l h.links k)
        (Shared-Raised l s t r o h) in
    (
      t,
      closed_all child u,
      e,
      exit_outcome child l t u (ap (λ m. (m child).filp) h.same_table) q,
      (λ d. omega (arith, g.descs d, h.descs d)),
      (λ d. g.links d ∙ h.links d),
      (λ i.
          omega
            (arith, g.inodes i, h.inodes i, refs_same s.f_desc_table t.f_desc_table l i h.links)),
    )
