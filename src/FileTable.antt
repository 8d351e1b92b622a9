-- ===== src/FileTable.antt =====
-- pro1/src/kernel/file.c: the file system of the first kernel, whose directory, free list and open
-- files are tables in memory and whose blocks are a second half of the memory (pro1/src/lib/klib.c).
-- A name is the bytes at a pointer. A message on the screen is noted, the last first. An index past
-- the end of the directory or of the open files stops the machine; the free list is taken to hold its
-- 128 items at most, and an index into it is not tested.
pub mod Ops
pub mod Lookup
pub mod Create
pub mod Delete
pub mod RoundTrip
pub mod Fuel
pub mod Examples
use Prim.Native.String.{String}
use oscourse_project.Base.{
  ℕ, zero, suc, ◌+◌, ◌-◌, ◌*◌, ◌/◌, ◌%◌, ◌^◌, Bool, true, false, not, ◌&&◌, ◌||◌, Option, none,
  some, List, ◌∷◌, ltb, leb, ◌==◌, if◌then◌else◌,
}
use oscourse_project.Run.{Stop}
use oscourse_project.Act.{Act, ok, ◌>>=◌, ◌>>◌, pure, get, change, halt}
use oscourse_project.Segment.{copy}

abbrev pub block_total : ℕ
block_total = 32768

abbrev pub block_size : ℕ
block_size = 512

abbrev pub max_entry : ℕ
max_entry = 32

abbrev pub max_eptitm : ℕ
max_eptitm = 128

abbrev pub max_fileopen : ℕ
max_fileopen = 1

abbrev pub f_namelen : ℕ
f_namelen = 8

-- `MD_Base`
abbrev pub md_base : ℕ
md_base = 0x0100_0000

-- `MD_BytesPerBlock`
abbrev pub md_bytes_per_block : ℕ
md_bytes_per_block = 0x0008_0000

-- `F_FCB`
pub record Fcb : Type 0 where
  pub name : ℕ → ℕ
  pub ext : ℕ → ℕ
  pub blkcount : ℕ
  pub init_no : ℕ
  pub resrv : ℕ → ℕ

-- `F_DIR`
pub record Dir : Type 0 where
  pub fcb : ℕ → Fcb
  pub count : ℕ

-- `F_EPTITM`
pub record Item : Type 0 where
  pub start : ℕ
  pub size : ℕ

-- `F_EPTBL`
pub record Eptbl : Type 0 where
  pub item : ℕ → Item
  pub count : ℕ

-- `F_FILE`; `none` is F_FILE_NULL.
pub record File : Type 0 where
  pub id : Option ℕ
  pub fcb : Fcb
  pub offset : ℕ

-- `F_SYS`
pub record FSys : Type 0 where
  pub blk_total : ℕ
  pub blk_dir : ℕ
  pub blk_epttbl : ℕ
  pub blk_ept : ℕ
  pub deviceinfo : ℕ

pub data Note : Type 0 where
  said : String → Note
  said_closed : (fd : ℕ) → Note
  said_name : (ℕ → ℕ) → Note

pub record Files : Type 0 where
  pub f_sys : FSys
  pub f_dir : Dir
  pub f_eptbl : Eptbl
  pub f_sys_opentbl : ℕ → File
  pub mem : ℕ → ℕ
  pub notes : List Note

abbrev pub say : String → Act Files (Unit {0})
say t = change (λ s. record s { notes = said t ∷ s.notes })

-- `f_dir.fcb[i] = f`, `f_eptbl.item[i] = e` and `f_sys_opentbl[i] = f`
unfoldable pub put_fcb : ℕ → Fcb → Dir → Dir
put_fcb i f d = record d { fcb = λ j. if i == j then f else d.fcb j }

unfoldable pub put_item : ℕ → Item → Eptbl → Eptbl
put_item i e t = record t { item = λ j. if i == j then e else t.item j }

unfoldable pub put_file : ℕ → File → Files → Files
put_file i f s = record s { f_sys_opentbl = λ j. if i == j then f else s.f_sys_opentbl j }

-- The loop of `InitFileSys` over the open files.
unfoldable pub close_all : (n i : ℕ) → Files → Files
close_all zero i s = s
close_all (suc n) i s =
    close_all n (i + 1) (put_file i (record (s.f_sys_opentbl i) { id = none }) s)

-- `InitFileSys`; the second store to the start of the first item is the source's.
unfoldable pub init_file_sys : Files → Files
init_file_sys s =
    let sys : FSys = record {
      blk_total = block_total;
      blk_dir = 0;
      blk_epttbl = 0;
      blk_ept = block_total - 0 - 0 - 1;
      deviceinfo = 0;
    } in
    let first : Item = record (s.f_eptbl.item 0) {
      start = (1 + sys.blk_dir + sys.blk_epttbl) % 2 ^ 16;
    } in
    let second : Item = record first { start = sys.blk_ept % 2 ^ 16 } in
    let tables : Files = record s {
      f_sys = sys;
      f_dir = record (s.f_dir) { count = 0 };
      f_eptbl = put_item 0 second (put_item 0 first (record (s.f_eptbl) { count = 1 }));
    } in
    let closed : Files = close_all max_fileopen 0 tables in
    record closed { notes = said "File System Initialized.\n" ∷ closed.notes }

-- "if (fd >= MAX_FILEOPEN)", for a `short` given as its bit pattern
abbrev pub past_opentbl : ℕ → Bool
past_opentbl fd = leb max_fileopen fd && ltb fd (2 ^ 15)

-- `f_sys_opentbl[fd]`; a negative index is outside the table.
abbrev pub file : (fd : ℕ) → Act Files File
file fd s = if ltb fd max_fileopen then pure (s.f_sys_opentbl fd) s else halt Stop.wild s

-- `__bmap`: F_BLOCK_NULL is 0xFFFF in the 16 bits of its result.
unfoldable pub bmap : (fd : ℕ) → Act Files ℕ
bmap fd = if past_opentbl fd then pure 0xFFFF else (do
  f ← file fd
  let blocknum : ℕ = f.offset / block_size
  pure (if leb f.fcb.blkcount blocknum then 0xFFFF else (blocknum + f.fcb.init_no) % 2 ^ 16))

-- `__same_file_name`, `n` bytes from byte `i` on
unfoldable pub same_from : (n i : ℕ) → (name1 name2 : ℕ → ℕ) → Bool
same_from zero i name1 name2 = true
same_from (suc n) i name1 name2 =
    let rest = same_from n (i + 1) name1 name2 in
    if (name1 i == 0) && (name2 i == 0) then true else (if name1 i == name2 i then rest else false)

unfoldable pub same_file_name : (name1 name2 : ℕ → ℕ) → Bool
same_file_name name1 name2 = same_from f_namelen 0 name1 name2

-- `__set_name`: the first eight bytes
unfoldable pub set_name : (dest src : ℕ → ℕ) → ℕ → ℕ
set_name dest src i = if ltb i f_namelen then src i else dest i

-- `__fchkname`, with `n` entries to go from entry `i` on; `none` is F_NAME_NOT_EXIST.
unfoldable pub fchk_from : (n i : ℕ) → (name : ℕ → ℕ) → Dir → Option ℕ
fchk_from zero i name d = none
fchk_from (suc n) i name d =
    let rest = fchk_from n (i + 1) name d in
    if same_file_name (d.fcb i).name name then some i else rest

unfoldable pub fchkname : (name : ℕ → ℕ) → Dir → Option ℕ
fchkname name d = fchk_from d.count 0 name d

-- `readMD` and `writeMD`: where a block lies
unfoldable pub md_address : (blocknum offset : ℕ) → ℕ
md_address blocknum offset = (blocknum * md_bytes_per_block + md_base + offset) % 2 ^ 32

unfoldable pub read_md : (dest blocknum offset size : ℕ) → Files → Files
read_md dest blocknum offset size s = record s {
  mem = copy size dest (md_address blocknum offset) s.mem;
}

unfoldable pub write_md : (blocknum src offset size : ℕ) → Files → Files
write_md blocknum src offset size s = record s {
  mem = copy size (md_address blocknum offset) src s.mem;
}

-- A round of `strlen`: at the zero, or one more than the rest.
abbrev pub one_more : (at_end : Bool) → Option ℕ → Option ℕ
one_more true rest = some 0
one_more false none = none
one_more false (some k) = some (suc k)

-- `strlen` of pro1/src/lib/string.asm, with `n` bytes to look at from address `a` on
unfoldable pub strlen_from : (n a : ℕ) → (ℕ → ℕ) → Option ℕ
strlen_from zero a mem = none
strlen_from (suc n) a mem =
    let rest = strlen_from n ((a + 1) % 2 ^ 32) mem in one_more (mem a == 0) rest

-- Text that goes round the whole memory has no end.
abbrev pub measured : Option ℕ → Act Files ℕ
measured none = halt Stop.out_of_fuel
measured (some k) = pure k

unfoldable pub strlen : ℕ → Act Files ℕ
strlen a s = measured (strlen_from (2 ^ 32) a s.mem) s
