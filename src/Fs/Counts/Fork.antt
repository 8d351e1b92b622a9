-- ===== src/Fs/Counts/Fork.antt =====
-- fs/main.c `fs_fork`: the counts go up.
use oscourse_project.Base.{
  ℕ, ◌+◌, ◌^◌, ◌<◌, ◌≡◌, refl, ap, ◌∙◌, sym, Option, none, some, List, [], ◌∷◌, arith,
}
use oscourse_project.Act.{ok, deref, and_then}
use oscourse_project.Act.Laws.{and_then-ok}
use oscourse_project.Fs.State.{Fs, put_in, put_desc}
use oscourse_project.Fs.Share.{more_inode, more_desc, share, share_all, fs_fork}
use oscourse_project.Fs.Counts.{
  points, uses, refs, Linked, SameLinks, refs_same, Linked-same, kept, raised, points_self,
}

-- In `t` the counts are higher than in `s` by what `filp` names, and the links are the same.
pub record Raised (l : List (Option ℕ)) (s t : Fs) : Type 0 where
  pub descs : (d : ℕ) → (t.f_desc_table d).fd_cnt ≡ (s.f_desc_table d).fd_cnt + uses l d
  pub inodes : (i : ℕ) → (t.inode_table i).i_cnt ≡ (s.inode_table i).i_cnt + refs s.f_desc_table l i
  pub links : (d : ℕ) → (t.f_desc_table d).fd_inode ≡ (s.f_desc_table d).fd_inode
  pub same_table : t.table ≡ s.table

-- Counts that have room for what `filp` names.
pub record Room (l : List (Option ℕ)) (s : Fs) : Type 0 where
  pub descs : (d : ℕ) → (s.f_desc_table d).fd_cnt + uses l d < 2 ^ 32
  pub inodes : (i : ℕ) → (s.inode_table i).i_cnt + refs s.f_desc_table l i < 2 ^ 32

abbrev bumped : (d i : ℕ) → Fs → Fs
bumped d i s = put_in i (more_inode (s.inode_table i)) (put_desc d (more_desc (s.f_desc_table d)) s)

share_lem :
    (d i : ℕ) (s : Fs) → (s.f_desc_table d).fd_inode ≡ some i → share d s ≡ ok tt (bumped d i s)
unfolding share put_desc
share_lem d i s h =
    ap
      (λ o.
        and_then (deref o (put_desc d (more_desc (s.f_desc_table d)) s))
          (λ j t. ok tt (put_in j (more_inode (s.inode_table j)) t)))
      h

bumped_links : (d i : ℕ) (s : Fs) → SameLinks s.f_desc_table (bumped d i s).f_desc_table
unfolding put_in put_desc more_desc
bumped_links d i s e = kept s.f_desc_table d e (more_desc (s.f_desc_table d)) (λ p. p.fd_inode) refl

bumped_desc :
    (d i e : ℕ) (s : Fs)
    → (s.f_desc_table d).fd_cnt + 1 < 2 ^ 32
    → ((bumped d i s).f_desc_table e).fd_cnt ≡ (s.f_desc_table e).fd_cnt + points (some d) e
unfolding put_in put_desc more_desc
bumped_desc d i e s h =
    raised s.f_desc_table d e (more_desc (s.f_desc_table d)) (λ p. p.fd_cnt) (omega arith)

bumped_inode :
    (d i k : ℕ) (s : Fs)
    → (s.inode_table i).i_cnt + 1 < 2 ^ 32
    → ((bumped d i s).inode_table k).i_cnt ≡ (s.inode_table k).i_cnt + points (some i) k
unfolding put_in put_desc more_inode
bumped_inode d i k s h =
    raised s.inode_table i k (more_inode (s.inode_table i)) (λ p. p.i_cnt) (omega arith)

bumped_table : (d i : ℕ) (s : Fs) → (bumped d i s).table ≡ s.table
unfolding put_in put_desc
bumped_table d i s = refl

pub share_all_lem :
    (l : List (Option ℕ)) (s : Fs)
    → Linked s.f_desc_table l
    → Room l s
    → (t : Fs) × (share_all l s ≡ ok tt t) × Raised l s t
unfolding share_all
share_all_lem [] s k r = (
  s,
  refl,
  record {
    descs = λ d. omega arith;
    inodes = λ i. omega arith;
    links = λ d. refl;
    same_table = refl;
  },
)
share_all_lem (none ∷ l) s k r =
    let (t, e, h) =
      share_all_lem l s k (record { descs = λ d. r.descs d; inodes = λ i. r.inodes i }) in
    (
      t,
      e,
      record {
        descs = λ d. h.descs d;
        inodes = λ i. h.inodes i;
        links = h.links;
        same_table = h.same_table;
      },
    )
share_all_lem (some d ∷ l) s ((i, e), k) r =
    let u : Fs = bumped d i s in
    let links : SameLinks s.f_desc_table u.f_desc_table = bumped_links d i s in
    let one : points (s.f_desc_table d).fd_inode i ≡ 1 = ap (λ o. points o i) e ∙ points_self i in
    let desc : (n : ℕ) → (u.f_desc_table n).fd_cnt ≡ (s.f_desc_table n).fd_cnt + points (some d) n =
      λ n. bumped_desc d i n s (omega (arith, r.descs d, points_self d)) in
    let inode : (n : ℕ)
        → (u.inode_table n).i_cnt ≡ (s.inode_table n).i_cnt + points (s.f_desc_table d).fd_inode n =
      λ n.
        bumped_inode d i n s (omega (arith, r.inodes i, one))
        ∙ ap (λ o. (s.inode_table n).i_cnt + points o n) (sym e) in
    let (t, q, h) =
      share_all_lem l u (Linked-same s.f_desc_table u.f_desc_table l links k) (record {
        descs = λ n. omega (arith, r.descs n, desc n);
        inodes = λ n.
            omega (arith, r.inodes n, inode n, refs_same s.f_desc_table u.f_desc_table l n links);
      }) in
    (
      t,
      and_then-ok (share d s) tt u _ (share_lem d i s e) ∙ q,
      record {
        descs = λ n. omega (arith, h.descs n, desc n);
        inodes = λ n.
            omega (arith, h.inodes n, inode n, refs_same s.f_desc_table u.f_desc_table l n links);
        links = λ n. h.links n ∙ links n;
        same_table = h.same_table ∙ bumped_table d i s;
      },
    )

-- fs_fork, where each descriptor that the child's `filp` names has an i-node and no count leaves 32
-- bits, returns 0: the count of each descriptor rises by the number of entries that name it, the
-- count of each i-node by the number of entries that name a descriptor of it, and the descriptors
-- keep their i-nodes.
pub fs_fork_lem :
    (child : ℕ) (s : Fs)
    → Linked s.f_desc_table (s.table child).filp
    → Room (s.table child).filp s
    → (t : Fs) × (fs_fork child s ≡ ok 0 t) × Raised (s.table child).filp s t
unfolding fs_fork
fs_fork_lem child s k r =
    let (t, e, h) = share_all_lem (s.table child).filp s k r in
    (t, and_then-ok (share_all (s.table child).filp s) tt t _ e, h)
