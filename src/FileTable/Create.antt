-- ===== src/FileTable/Create.antt =====
-- The files that `sys_fcreate` of pro1/src/kernel/file.c makes.
use Prim.Native.String.{String}
use oscourse_project.Base.{
  ℕ, suc, ◌+◌, ◌%◌, ◌^◌, ◌<◌, ◌≡◌, refl, ap, ◌∙◌, Option, none, some, arith, ne→==, ==-self, lt→ltb,
  then_of_true, else_of_false, ◌∷◌,
}
use oscourse_project.Act.{ok}
use oscourse_project.Act.Laws.{and_then-ok}
use oscourse_project.FileTable.{
  Fcb, Dir, Files, said, same_file_name, set_name, fchk_from, fchkname, put_fcb, put_file,
  max_entry,
}
use oscourse_project.FileTable.Ops.{
  sys_fcreate, sys_fopen, open_found, create_new, open_from, add_entry, search_blocks,
}
use oscourse_project.FileTable.Lookup.{same_file_name-set_name, fchk_from_add}

-- The entry that a creation writes, and the directory with it.
abbrev made : (ℕ → ℕ) → (blocknum start : ℕ) → Dir → Fcb
made name blocknum start d = record (d.fcb d.count) {
  blkcount = blocknum % 2 ^ 8;
  init_no = start;
  name = set_name (d.fcb d.count).name name;
}

abbrev grown : (ℕ → ℕ) → (blocknum start : ℕ) → Dir → Dir
grown name blocknum start d = record (put_fcb d.count (made name blocknum start d) d) {
  count = (d.count + 1) % 2 ^ 8;
}

grown-fchkname :
    (name : ℕ → ℕ) (blocknum start : ℕ) (d : Dir)
    → d.count < max_entry
    → fchkname name d ≡ none
    → fchkname name (grown name blocknum start d) ≡ some d.count
unfolding fchkname put_fcb
grown-fchkname name blocknum start d h new =
    let e = grown name blocknum start d in
    ap (λ (n : ℕ). fchk_from n 0 name e) {x = (d.count + 1) % 2 ^ 8} {y = suc d.count} (omega arith)
    ∙ fchk_from_add d.count 0 d.count name d e (omega arith) new
        (λ j q. else_of_false _ (d.fcb j) (ne→== d.count j (omega (arith, q))))
        (ap (λ (f : Fcb). same_file_name f.name name)
            (then_of_true (made name blocknum start d) (d.fcb d.count) (==-self d.count))
          ∙ same_file_name-set_name (d.fcb d.count).name name)

-- The tables when descriptor 0 is opened on entry `id`.
abbrev opened : ℕ → Files → Files
opened id s =
    put_file 0
      (record {
        id = some id;
        offset = 0;
        fcb = record (s.f_dir.fcb id) {
          name = set_name (s.f_dir.fcb id).name (s.f_dir.fcb id).name;
        };
      })
      s

abbrev told : String → Files → Files
told t s = record s { notes = said t ∷ s.notes }

sys_fopen_lem :
    (name : ℕ → ℕ) (id : ℕ) (s : Files)
    → fchkname name s.f_dir ≡ some id
    → (s.f_sys_opentbl 0).id ≡ none
    → sys_fopen name s ≡ ok (some 0) (told "File opened.\n" (opened id s))
unfolding sys_fopen open_found open_from
sys_fopen_lem name id s found free = ap (λ (o : Option ℕ). open_found o s) found ∙ rw free refl

add_entry_lem :
    (name : ℕ → ℕ) (blocknum start : ℕ) (s : Files)
    → s.f_dir.count < max_entry
    → add_entry name blocknum start s
      ≡ ok tt (record s { f_dir = grown name blocknum start s.f_dir })
unfolding add_entry put_fcb
add_entry_lem name blocknum start s h = rw (lt→ltb s.f_dir.count max_entry h) refl

-- A new name, a place in the directory and a free descriptor: the file is made and opened. The call
-- returns the descriptor; the name is found at the end of the directory, with its number of blocks
-- (in the eight bits of the field) there and at the descriptor, which stands at the first byte; and
-- all earlier entries are as they were.
pub sys_fcreate-opens :
    (name : ℕ → ℕ) (blocknum : ℕ) (s : Files)
    → fchkname name s.f_dir ≡ none
    → s.f_dir.count < max_entry
    → (s.f_sys_opentbl 0).id ≡ none
    → (s2 : Files) × (sys_fcreate name blocknum s ≡ ok (some 0) s2)
      × (fchkname name s2.f_dir ≡ some s.f_dir.count)
      × (s2.f_dir.count ≡ s.f_dir.count + 1)
      × ((s2.f_dir.fcb s.f_dir.count).blkcount ≡ blocknum % 2 ^ 8)
      × ((s2.f_sys_opentbl 0).id ≡ some s.f_dir.count)
      × ((s2.f_sys_opentbl 0).fcb.blkcount ≡ blocknum % 2 ^ 8)
      × ((s2.f_sys_opentbl 0).offset ≡ 0)
      × ((j : ℕ) → j < s.f_dir.count → s2.f_dir.fcb j ≡ s.f_dir.fcb j)
unfolding put_fcb put_file sys_fcreate create_new
sys_fcreate-opens name blocknum s new place free =
    let r = search_blocks s.f_eptbl.count 0 blocknum 0 s.f_eptbl in
    let s1 : Files = record s { f_eptbl = r.1 } in
    let s2 : Files =
      told "A new file has been created.\n"
        (record s1 { f_dir = grown name blocknum r.0 s.f_dir }) in
    let found = grown-fchkname name blocknum r.0 s.f_dir place new in
    let entry =
      then_of_true (made name blocknum r.0 s.f_dir) (s.f_dir.fcb s.f_dir.count)
        (==-self s.f_dir.count) in
    (
      told "File opened.\n" (opened s.f_dir.count s2),
      ap (λ (o : Option ℕ). create_new o name blocknum s) new
          ∙ (and_then-ok _ tt _ _ (add_entry_lem name blocknum r.0 s1 place)
              ∙ sys_fopen_lem name s.f_dir.count s2 found free),
      found,
      omega arith,
      ap (λ (f : Fcb). f.blkcount) entry,
      refl,
      ap (λ (f : Fcb). f.blkcount) entry,
      refl,
      (λ j h. else_of_false _ (s.f_dir.fcb j) (ne→== s.f_dir.count j (omega (arith, h)))),
    )
