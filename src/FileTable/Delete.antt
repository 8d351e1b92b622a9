-- ===== src/FileTable/Delete.antt =====
-- What `sys_fdelete` of pro1/src/kernel/file.c does to the directory.
use oscourse_project.Base.{
  ℕ, zero, suc, ◌+◌, ◌%◌, ◌^◌, ◌≤◌, ◌<◌, ◌≡◌, refl, ap, ◌∙◌, false, Option, some, arith, lt→ltb,
  le→ltb, ==-self, then_of_true, else_of_false, ◌∷◌,
}
use oscourse_project.Act.{ok, Act}
use oscourse_project.Act.Laws.{and_then-ok}
use oscourse_project.FileTable.{
  Fcb, Dir, Item, Files, said, say, fchkname, put_item, max_eptitm, max_fileopen,
}
use oscourse_project.FileTable.Ops.{sys_fdelete, delete_found, give_back, shift_entries, occupied}

-- The tables with the blocks of an entry at the end of the free list.
abbrev given : Fcb → Files → Files
given f s = record s {
  f_eptbl =
      record (put_item s.f_eptbl.count (record { start = f.init_no; size = f.blkcount })
        s.f_eptbl) { count = (s.f_eptbl.count + 1) % 2 ^ 16 };
  f_sys = record (s.f_sys) { blk_ept = (s.f_sys.blk_ept + f.blkcount) % 2 ^ 32 };
}

give_back_lem :
    (f : Fcb) (s : Files) → s.f_eptbl.count < max_eptitm → give_back f s ≡ ok tt (given f s)
unfolding give_back put_item
give_back_lem f s h = rw (lt→ltb s.f_eptbl.count max_eptitm h) refl

shift_entries_last : (fuel id : ℕ) (d : Dir) → d.count ≤ id + 1 → shift_entries fuel id d ≡ d
unfolding shift_entries
shift_entries_last zero id d h = refl
shift_entries_last (suc n) id d h = else_of_false _ d (le→ltb (id + 1) d.count h)

-- The last file of the directory, not open, with a place in the free list: `sys_fdelete` says that it
-- is deleted and puts its blocks at the end of the free list, but leaves the directory as it was. The
-- name is still found, at the same place.
pub sys_fdelete-last :
    (name : ℕ → ℕ) (id : ℕ) (s : Files)
    → fchkname name s.f_dir ≡ some id
    → s.f_dir.count ≡ id + 1
    → occupied max_fileopen 0 name s.f_sys_opentbl ≡ false
    → s.f_eptbl.count < max_eptitm
    → (s2 : Files) × (sys_fdelete name s ≡ ok tt s2)
      × (s2.f_dir ≡ s.f_dir)
      × (fchkname name s2.f_dir ≡ some id)
      × (s2.f_eptbl.count ≡ s.f_eptbl.count + 1)
      × ((s2.f_eptbl.item s.f_eptbl.count).start ≡ (s.f_dir.fcb id).init_no)
      × ((s2.f_eptbl.item s.f_eptbl.count).size ≡ (s.f_dir.fcb id).blkcount)
unfolding sys_fdelete delete_found put_item
sys_fdelete-last name id s found last closed free =
    let f = s.f_dir.fcb id in
    let s1 : Files = given f s in
    let s2 : Files = record s1 { f_dir = shift_entries s.f_dir.count id s.f_dir } in
    let same : s2.f_dir ≡ s.f_dir =
      shift_entries_last s.f_dir.count id s.f_dir (omega (arith, last)) in
    let item =
      then_of_true (record { start = f.init_no; size = f.blkcount })
        (s.f_eptbl.item s.f_eptbl.count) (==-self s.f_eptbl.count) in
    (
      record s2 { notes = said "File deleted.\n" ∷ s.notes },
      ap (λ (m : Act Files (Unit {0})). m s)
            (else_of_false (say "The file is currently occupied.\n")
              (delete_found (fchkname name s.f_dir)) closed)
          ∙ (ap (λ (o : Option ℕ). delete_found o s) found
              ∙ and_then-ok _ tt s1 _ (give_back_lem f s free)),
      same,
      ap (fchkname name) same ∙ found,
      omega (arith, free),
      ap (λ (e : Item). e.start) item,
      ap (λ (e : Item). e.size) item,
    )
