-- ===== src/Fs/Leak.antt =====
-- fs/link.c `do_unlink`, for a file that is open.
use oscourse_project.Base.{
  ℕ, ◌+◌, ◌^◌, ◌<◌, ◌≡◌, ◌≢◌, refl, ap, ◌∙◌, sym, Bool, true, false, not, ◌&&◌, ◌||◌, some, ltb,
  ◌==◌, if◌then◌else◌, arith, inr, lt→ltb, ==→eq, Bool-cases, inl,
}
use oscourse_project.Act.{Act, ok}
use oscourse_project.Act.Laws.{and_then-ok}
use oscourse_project.Fs.State.{Fs, Inode, SuperBlock, i_regular}
use oscourse_project.Fs.Inodes.{holds, get_inode}
use oscourse_project.Fs.Open.{minus_one}
use oscourse_project.Fs.Unlink.{unlink_inode, remove_file}
use oscourse_project.Fs.Mounted.{Mounted}
use oscourse_project.Fs.Cache.Unique.{Unique, holds_parts}
use oscourse_project.Fs.Cache.Get.{Gets, get_inode_lem}

refused :
    (a : Bool) (p : Inode) (y : Act Fs ℕ) (s : Fs)
    → ltb 1 p.i_cnt ≡ true
    → ltb p.i_cnt (2 ^ 31) ≡ true
    → (if a || (ltb 1 p.i_cnt && ltb p.i_cnt (2 ^ 31)) then ok minus_one else y) s ≡ ok minus_one s
refused true p y s h k = refl
refused false p y s h k =
    ap (λ (b : Bool). (if b && ltb p.i_cnt (2 ^ 31) then ok minus_one else y) s) h
    ∙ ap (λ (b : Bool). (if b then ok minus_one else y) s) k

the_slot :
    (num dev i x : ℕ) (s t : Fs)
    → Gets dev num i s t
    → x < 64
    → holds (s.inode_table x) dev num ≡ true
    → i ≡ x
the_slot num dev i x s t g l h = elim (Bool-cases (i == x)) [
  | inl e ↦ ==→eq i x e
  | inr e ↦
      g.unique i x dev num g.in_table l g.held
        (ap (λ p. holds p dev num) (g.others x (λ z. ground (arith, e, z))) ∙ h)
]

-- The removal of a file whose i-node is in the table in use, by its number, is refused with -1, and
-- leaves one reference more to the i-node than there was.
pub unlink_inode_open :
    (inode_nr x : ℕ) (s : Fs) (sb : SuperBlock)
    → Mounted (s.inode_table s.root).i_dev sb s
    → inode_nr ≢ 0
    → Unique s.inode_table
    → ((i : ℕ) → (s.inode_table i).i_cnt + 1 < 2 ^ 31)
    → x < 64
    → holds (s.inode_table x) (s.inode_table s.root).i_dev inode_nr ≡ true
    → (t : Fs) × (unlink_inode inode_nr s ≡ ok minus_one t)
      × ((t.inode_table x).i_cnt ≡ (s.inode_table x).i_cnt + 1)
unfolding unlink_inode
unlink_inode_open inode_nr x s sb m n u small l h =
    let dev : ℕ = (s.inode_table s.root).i_dev in
    let (i, t, e, g) =
      get_inode_lem dev inode_nr x s sb m n u (λ j. omega (arith, small j)) l (inr h) in
    let same : i ≡ x = the_slot inode_nr dev i x s t g l h in
    (
      t,
      and_then-ok (get_inode dev inode_nr s) (some i) t _ e
          ∙ refused (not ((t.inode_table i).i_mode == i_regular)) (t.inode_table i)
              (remove_file i inode_nr) t
              (lt→ltb 1 (t.inode_table i).i_cnt (
                omega (
                  arith,
                  g.counted,
                  ap (λ (y : ℕ). (s.inode_table y).i_cnt) same,
                  (holds_parts (s.inode_table x) dev inode_nr h).0,
                )))
              (lt→ltb (t.inode_table i).i_cnt (2 ^ 31) (omega (arith, g.counted, small i))),
      ap (λ (y : ℕ). (t.inode_table y).i_cnt) (sym same)
          ∙ g.counted
          ∙ ap (λ (y : ℕ). (s.inode_table y).i_cnt + 1) same,
    )
