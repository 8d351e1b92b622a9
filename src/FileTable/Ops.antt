-- ===== src/FileTable/Ops.antt =====
-- pro1/src/kernel/file.c: the system calls on the tables. A count of bytes or blocks is an `int` that
-- is not negative.
use oscourse_project.Base.{
  ℕ, zero, suc, ◌+◌, ◌-◌, ◌*◌, ◌%◌, ◌^◌, Bool, true, false, ◌||◌, Option, none, some, ◌∷◌, ltb, leb,
  ◌==◌, if◌then◌else◌,
}
use oscourse_project.Run.{Stop}
use oscourse_project.Act.{Act, ok, ◌>>=◌, ◌>>◌, pure, get, change, halt}
use oscourse_project.FileTable.{
  Fcb, Dir, Eptbl, File, said, said_closed, said_name, Files, say, put_fcb, put_item, put_file,
  past_opentbl, file, bmap, same_file_name, set_name, fchkname, read_md, write_md, strlen,
  block_size, max_entry, max_eptitm, max_fileopen,
}

-- F_FLAG_READ and F_FLAG_WRITE
pub data Flag : Type 0 where
  reading writing : Flag

-- The bytes that a file has from its offset on, an `int` as its bit pattern.
abbrev pub room : File → ℕ
room f = (f.fcb.blkcount * block_size + 2 ^ 32 - f.offset) % 2 ^ 32

-- The two branches of `__rdwr`, for a file in the table.
unfoldable pub read_cut : (fd blknum buf cut : ℕ) → File → Act Files ℕ
read_cut fd blknum buf cut f = if cut == 0 then pure 0 else (do
  change (read_md buf blknum f.offset cut)
  n ← strlen buf
  change
      (λ s. if n == 0 then s else put_file fd (record f { offset = (f.offset + cut) % 2 ^ 16 }) s)
  strlen buf)

unfoldable pub read_part : (fd blknum buf count : ℕ) → File → Act Files ℕ
read_part fd blknum buf count f =
    read_cut fd blknum buf
      (if leb (f.fcb.blkcount * block_size) (f.offset + count) then room f else count) f

unfoldable pub write_part : (fd blknum buf : ℕ) → File → Act Files ℕ
write_part fd blknum buf f = do
  n ← strlen buf
  let cap : ℕ = f.fcb.blkcount * block_size
  let cut : ℕ = if ltb cap f.offset || ltb (cap - f.offset) n then room f else n
  change (write_md blknum buf f.offset cut)
  change (put_file fd (record f { offset = (f.offset + cut) % 2 ^ 16 }))
  strlen buf

-- `__rdwr`. A block number of 16 bits is never -1.
unfoldable pub rdwr : Flag → (fd buf count : ℕ) → Act Files ℕ
rdwr flag fd buf count =
    if past_opentbl fd then (do say "The file dose not exist.\n"; pure 0) else (do
      blknum ← bmap fd
      if blknum == 2 ^ 32 - 1 then (do say "End of File.\n"; pure 0) else (do
        f ← file fd
        elim flag [
          | reading ↦ read_part fd blknum buf count f
          | writing ↦ write_part fd blknum buf f
        ]))

unfoldable pub sys_fread : (fd buf count : ℕ) → Act Files ℕ
sys_fread fd buf count = rdwr reading fd buf count

unfoldable pub sys_fwrite : (fd buf count : ℕ) → Act Files ℕ
sys_fwrite fd buf count = rdwr writing fd buf count

-- The inner loop of `sys_fcreate`, which lowers the count in each round: `fuel` rounds at most, and
-- the count is fuel enough.
unfoldable pub shift_items : (fuel j : ℕ) → Eptbl → Eptbl
shift_items zero j t = t
shift_items (suc n) j t =
    let moved = put_item j (t.item (j + 1)) t in
    let rest = shift_items n (j + 1) (record moved { count = (t.count + 2 ^ 16 - 1) % 2 ^ 16 }) in
    if ltb (j + 1) t.count then rest else t

-- One round of the loop over the free list: the first block so far, and the list.
unfoldable pub take_blocks : (i blocknum start : ℕ) → Eptbl → ℕ × Eptbl
take_blocks i blocknum start t =
    let left : ℕ = ((t.item i).size + 2 ^ 32 - blocknum) % 2 ^ 16 in
    let taken : Eptbl = put_item i (record (t.item i) { size = left }) t in
    if leb (t.item i).size blocknum
    then ((t.item i).start, (if left == 0 then shift_items taken.count i taken else taken))
    else (start, t)

-- The loop from item `i` on. The count never grows, so as many rounds as items are enough.
unfoldable pub search_blocks : (fuel i blocknum start : ℕ) → Eptbl → ℕ × Eptbl
search_blocks zero i blocknum start t = (start, t)
search_blocks (suc n) i blocknum start t =
    let r = take_blocks i blocknum start t in
    let rest = search_blocks n (i + 1) blocknum r.0 r.1 in
    if ltb i t.count then rest else (start, t)

-- `sys_fopen`, the loop from descriptor `i` on
unfoldable pub open_from : (n i id : ℕ) → Act Files (Option ℕ)
open_from zero i id = do say "Too many files have been opened. Please close first.\n"; pure none
open_from (suc n) i id = do
  s ← get
  elim (s.f_sys_opentbl i).id [
    | none ↦ (do
      let f = s.f_dir.fcb id
      change (
          put_file i
            (record { id = some id; offset = 0; fcb = record f { name = set_name f.name f.name } }))
      say "File opened.\n"
      pure (some i))
    | some other ↦ open_from n (i + 1) id
  ]

-- `sys_fopen`, behind the search for the name
unfoldable pub open_found : (found : Option ℕ) → Act Files (Option ℕ)
open_found none = do say "The file dose not exist.\n"; pure none
open_found (some id) = open_from max_fileopen 0 id

unfoldable pub sys_fopen : (name : ℕ → ℕ) → Act Files (Option ℕ)
sys_fopen name = do s ← get; open_found (fchkname name s.f_dir)

-- "f_dir.fcb[f_dir.count]" and what follows it
unfoldable pub add_entry : (name : ℕ → ℕ) → (blocknum start : ℕ) → Act Files (Unit {0})
add_entry name blocknum start s =
    let d = s.f_dir in
    let f = d.fcb d.count in
    let made : Fcb = record f {
      blkcount = blocknum % 2 ^ 8;
      init_no = start;
      name = set_name f.name name;
    } in
    if ltb d.count max_entry
    then ok tt
        (record s { f_dir = record (put_fcb d.count made d) { count = (d.count + 1) % 2 ^ 8 } })
    else halt Stop.wild s

-- `sys_fcreate`, behind the search for the name
unfoldable pub create_new :
    (found : Option ℕ) → (name : ℕ → ℕ) → (blocknum : ℕ) → Act Files (Option ℕ)
create_new (some id) name blocknum = do say "The filename has already been used.\n"; pure none
create_new none name blocknum = do
  s ← get
  let r = search_blocks s.f_eptbl.count 0 blocknum 0 s.f_eptbl
  change (λ u. record u { f_eptbl = r.1 })
  add_entry name blocknum r.0
  say "A new file has been created.\n"
  sys_fopen name

unfoldable pub sys_fcreate : (name : ℕ → ℕ) → (blocknum : ℕ) → Act Files (Option ℕ)
sys_fcreate name blocknum = do s ← get; create_new (fchkname name s.f_dir) name blocknum

unfoldable pub sys_fclose : (fd : ℕ) → Act Files (Unit {0})
sys_fclose fd = if past_opentbl fd then say "The file does not exist.\n" else (do
  f ← file fd
  change (put_file fd (record f { id = none }))
  change (λ s. record s { notes = said_closed fd ∷ s.notes }))

-- The loops of `sys_fdelete` and `sys_frename` over the open files
unfoldable pub occupied : (n i : ℕ) → (name : ℕ → ℕ) → (ℕ → File) → Bool
occupied zero i name opentbl = false
occupied (suc n) i name opentbl =
    let rest = occupied n (i + 1) name opentbl in
    elim (opentbl i).id [
      | none ↦ rest
      | some id ↦ if same_file_name (opentbl i).fcb.name name then true else rest
    ]

-- "for (i=id; i<f_dir.count-1;i++)", which lowers the count in each round
unfoldable pub shift_entries : (fuel i : ℕ) → Dir → Dir
shift_entries zero i d = d
shift_entries (suc n) i d =
    let next = d.fcb (i + 1) in
    let moved = put_fcb i (record next { name = set_name next.name next.name }) d in
    let rest = shift_entries n (i + 1) (record moved { count = (d.count + 2 ^ 8 - 1) % 2 ^ 8 }) in
    if ltb (i + 1) d.count then rest else d

-- The blocks of an entry go to the end of the free list.
unfoldable pub give_back : Fcb → Act Files (Unit {0})
give_back f s =
    let t = s.f_eptbl in
    if ltb t.count max_eptitm
    then ok tt (record s {
      f_eptbl = record (put_item t.count (record { start = f.init_no; size = f.blkcount }) t) {
        count = (t.count + 1) % 2 ^ 16;
      };
      f_sys = record (s.f_sys) { blk_ept = (s.f_sys.blk_ept + f.blkcount) % 2 ^ 32 };
    })
    else halt Stop.wild s

-- `sys_fdelete`, behind the search for the name
unfoldable pub delete_found : (found : Option ℕ) → Act Files (Unit {0})
delete_found none = say "The file does not exist.\n"
delete_found (some id) = do
  s ← get
  give_back (s.f_dir.fcb id)
  change (λ u. record u { f_dir = shift_entries u.f_dir.count id u.f_dir })
  say "File deleted.\n"

unfoldable pub sys_fdelete : (name : ℕ → ℕ) → Act Files (Unit {0})
sys_fdelete name = do
  s ← get
  if occupied max_fileopen 0 name s.f_sys_opentbl
      then say "The file is currently occupied.\n"
      else delete_found (fchkname name s.f_dir)

unfoldable pub sys_frename : (old_name new_name : ℕ → ℕ) → Act Files (Unit {0})
sys_frename old_name new_name = do
  s ← get
  if occupied max_fileopen 0 old_name s.f_sys_opentbl
      then say "The file is currently occupied.\n"
      else (if same_file_name old_name new_name then pure tt else elim (fchkname new_name s.f_dir) [
        | some id ↦ say "This name has already been used.\n"
        | none ↦ elim (fchkname old_name s.f_dir) [
          | none ↦ say "The file does not exist.\n"
          | some id ↦ (do
            let f = s.f_dir.fcb id
            change (λ u. record u {
              f_dir = put_fcb id (record f { name = set_name f.name new_name }) u.f_dir;
            })
            say "A file has been renamed.\n")
        ]
      ])

unfoldable pub sys_fskbegin : (fd : ℕ) → Act Files (Unit {0})
sys_fskbegin fd =
    if past_opentbl fd
    then say "The file dose not exist.\n"
    else (do f ← file fd; change (put_file fd (record f { offset = 0 })))

-- `sys_flist`, the loop from entry `i` on; the name is printed as a format.
unfoldable pub list_from : (n i : ℕ) → Files → Files
list_from zero i s = s
list_from (suc n) i s =
    list_from n (i + 1)
      (record s { notes = said "\n" ∷ said_name (s.f_dir.fcb i).name ∷ said "  - " ∷ s.notes })

unfoldable pub sys_flist : Files → Files
sys_flist s = list_from s.f_dir.count 0 s
