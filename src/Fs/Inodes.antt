-- ===== src/Fs/Inodes.antt =====
-- fs/main.c `get_super_block`, `get_inode`, `put_inode` and `sync_inode`: the table of i-nodes in use.
use oscourse_project.Base.{
  ℕ, zero, suc, ◌+◌, ◌-◌, ◌*◌, ◌/◌, ◌%◌, ◌^◌, Bool, not, ◌&&◌, Option, none, some, ltb, ◌==◌,
  if◌then◌else◌,
}
use oscourse_project.Run.{Stop}
use oscourse_project.Act.{Act, ok, ◌>>=◌, ◌>>◌, pure, get, change, assert, halt}
use oscourse_project.Segment.{load_int, poke_int}
use oscourse_project.Fs.State.{
  SuperBlock, Inode, Fs, put_in, rd_sect, wr_sect, nr_inode, nr_super_block, sector_size,
  inode_size,
}

-- The loop of `get_super_block`, over `n` slots from `i` on.
unfoldable pub find_super_block : (n i dev : ℕ) → (ℕ → SuperBlock) → Option SuperBlock
find_super_block zero i dev t = none
find_super_block (suc n) i dev t =
    let rest = find_super_block n (i + 1) dev t in if (t i).sb_dev == dev then some (t i) else rest

unfoldable pub get_super_block : ℕ → Act Fs SuperBlock
get_super_block dev s = elim (find_super_block nr_super_block 0 dev s.super_block) [
  | none ↦ halt Stop.panic s
  | some sb ↦ ok sb s
]

-- What the loop of `get_inode` finds: the i-node, or the first free slot.
pub data Slot : Type 0 where
  cached : ℕ → Slot
  vacant : Option ℕ → Slot

-- Whether a slot in use holds an i-node.
abbrev pub holds : Inode → (dev num : ℕ) → Bool
holds p dev num = not (p.i_cnt == 0) && ((p.i_dev == dev) && (p.i_num == num))

-- The loop, over `n` slots from `i` on; `q` is the first free slot so far.
unfoldable pub find_slot : (n i dev num : ℕ) → (ℕ → Inode) → Option ℕ → Slot
find_slot zero i dev num t q = vacant q
find_slot (suc n) i dev num t q =
    let free : Option ℕ =
      if (t i).i_cnt == 0 then (elim q [ none ↦ some i | some j ↦ some j ]) else q in
    let rest = find_slot n (i + 1) dev num t free in if holds (t i) dev num then cached i else rest

-- The number of the sector that holds an i-node, and the i-node's place in it.
abbrev pub inode_sect : SuperBlock → ℕ → ℕ
inode_sect sb num =
    1 + 1 + sb.nr_imap_sects + sb.nr_smap_sects + (num - 1) / (sector_size / inode_size)

-- The place of i-node `num`, which is not 0, in its sector.
abbrev pub inode_off : ℕ → ℕ
inode_off num = (num - 1) % (sector_size / inode_size) * inode_size

-- The fields that an i-node has on the disk.
unfoldable pub load_inode : (ℕ → ℕ) → (off : ℕ) → Inode → Inode
load_inode buf off p = record p {
  i_mode = load_int buf off;
  i_size = load_int buf (off + 4);
  i_start_sect = load_int buf (off + 8);
  i_nr_sects = load_int buf (off + 12);
}

unfoldable pub store_inode : (ℕ → ℕ) → (off : ℕ) → Inode → ℕ → ℕ
store_inode buf off p =
    poke_int
      (poke_int (poke_int (poke_int buf off p.i_mode) (off + 4) p.i_size) (off + 8) p.i_start_sect)
      (off + 12) p.i_nr_sects

-- A slot for an i-node that is not in the table: `q` is filled from the disk.
unfoldable pub read_inode : (q dev num : ℕ) → Act Fs (Option ℕ)
read_inode q dev num = do
  s ← get
  change (put_in q (record (s.inode_table q) { i_dev = dev; i_num = num; i_cnt = 1 }))
  sb ← get_super_block dev
  rd_sect dev (inode_sect sb num)
  t ← get
  change (put_in q (load_inode t.fsbuf (inode_off num) (t.inode_table q)))
  pure (some q)

-- `get_inode`
unfoldable pub get_inode : (dev num : ℕ) → Act Fs (Option ℕ)
get_inode dev num = if num == 0 then pure none else (λ s.
    elim (find_slot nr_inode 0 dev num s.inode_table none) [
      | cached i ↦
          ok (some i) (
            put_in i (record (s.inode_table i) { i_cnt = ((s.inode_table i).i_cnt + 1) % 2 ^ 32 })
              s)
      | vacant none ↦ halt Stop.panic s
      | vacant (some q) ↦ read_inode q dev num s
    ])

-- `put_inode`; a count is an `int`, and positive below 2 ^ 31.
unfoldable pub put_inode : ℕ → Act Fs (Unit {0})
put_inode i = do
  s ← get
  assert (ltb 0 (s.inode_table i).i_cnt && ltb (s.inode_table i).i_cnt (2 ^ 31))
  change (put_in i (record (s.inode_table i) { i_cnt = (s.inode_table i).i_cnt - 1 }))

-- `sync_inode`
unfoldable pub sync_inode : ℕ → Act Fs (Unit {0})
sync_inode i = do
  s ← get
  let p = s.inode_table i
  sb ← get_super_block p.i_dev
  rd_sect p.i_dev (inode_sect sb p.i_num)
  change (λ t. record t { fsbuf = store_inode t.fsbuf (inode_off p.i_num) p })
  wr_sect p.i_dev (inode_sect sb p.i_num)
