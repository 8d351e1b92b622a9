-- ===== src/Fs/Sync.antt =====
-- fs/main.c `sync_inode`: an i-node that is written to the disk is read back.
use oscourse_project.Base.{
  ℕ, ◌+◌, ◌-◌, ◌^◌, ◌≤◌, ◌<◌, ◌≡◌, ap, ◌∙◌, sym, subst, ◌&&◌, some, ltb, leb, ◌==◌, if◌then◌else◌,
  arith, inl,
}
use oscourse_project.Act.{ok}
use oscourse_project.Act.Laws.{and_then-ok}
use oscourse_project.Segment.{load_int, poke_int}
use oscourse_project.Segment.Laws.{load_int-poke_int, load_int-poke_int_apart}
use oscourse_project.Fs.State.{
  Fs, Inode, SuperBlock, put_in, rd_sect, read_disk, wr_sect, write_disk, sector_pos,
}
use oscourse_project.Fs.Inodes.{
  inode_sect, inode_off, get_super_block, read_inode, load_inode, store_inode, sync_inode,
}
use oscourse_project.Fs.Mounted.{Mounted, get_super_block-Mounted}
use oscourse_project.Fs.Cache.Get.{claimed, filled, read_inode_lem}
use oscourse_project.Fs.Cache.Unique.{put_self}

-- The fields of an i-node are `u32`.
pub record Words (p : Inode) : Type 0 where
  pub mode : p.i_mode < 2 ^ 32
  pub size : p.i_size < 2 ^ 32
  pub start : p.i_start_sect < 2 ^ 32
  pub sects : p.i_nr_sects < 2 ^ 32

-- Two i-nodes have the same fields on the disk.
pub record SameFields (p q : Inode) : Type 0 where
  pub mode : p.i_mode ≡ q.i_mode
  pub size : p.i_size ≡ q.i_size
  pub start : p.i_start_sect ≡ q.i_start_sect
  pub sects : p.i_nr_sects ≡ q.i_nr_sects

load_inode-store_inode :
    (buf : ℕ → ℕ) (off : ℕ) (p q : Inode)
    → Words p
    → SameFields (load_inode (store_inode buf off p) off q) p
unfolding load_inode store_inode
load_inode-store_inode buf off p q w =
    let b1 : ℕ → ℕ = poke_int buf off p.i_mode in
    let b2 : ℕ → ℕ = poke_int b1 (off + 4) p.i_size in
    let b3 : ℕ → ℕ = poke_int b2 (off + 8) p.i_start_sect in
    record {
      mode =
          load_int-poke_int_apart b3 (off + 12) off p.i_nr_sects (inl (omega arith))
          ∙ load_int-poke_int_apart b2 (off + 8) off p.i_start_sect (inl (omega arith))
          ∙ load_int-poke_int_apart b1 (off + 4) off p.i_size (inl (omega arith))
          ∙ load_int-poke_int buf off p.i_mode w.mode;
      size =
          load_int-poke_int_apart b3 (off + 12) (off + 4) p.i_nr_sects (inl (omega arith))
          ∙ load_int-poke_int_apart b2 (off + 8) (off + 4) p.i_start_sect (inl (omega arith))
          ∙ load_int-poke_int b1 (off + 4) p.i_size w.size;
      start =
          load_int-poke_int_apart b3 (off + 12) (off + 8) p.i_nr_sects (inl (omega arith))
          ∙ load_int-poke_int b2 (off + 8) p.i_start_sect w.start;
      sects = load_int-poke_int b3 (off + 12) p.i_nr_sects w.sects;
    }

load_int_same :
    (f g : ℕ → ℕ) (a : ℕ)
    → ((i : ℕ) → i < 512 → f i ≡ g i)
    → a + 4 ≤ 512
    → load_int f a ≡ load_int g a
unfolding load_int
load_int_same f g a h l = omega (
  arith,
  h a (omega arith),
  h (a + 1) (omega arith),
  h (a + 2) (omega arith),
  h (a + 3) (omega arith),
)

load_inode_same :
    (f g : ℕ → ℕ) (off : ℕ) (p : Inode)
    → ((i : ℕ) → i < 512 → f i ≡ g i)
    → off + 16 ≤ 512
    → SameFields (load_inode f off p) (load_inode g off p)
unfolding load_inode
load_inode_same f g off p h l = record {
  mode = load_int_same f g off h (omega arith);
  size = load_int_same f g (off + 4) h (omega arith);
  start = load_int_same f g (off + 8) h (omega arith);
  sects = load_int_same f g (off + 12) h (omega arith);
}

SameFields-trans : (p q r : Inode) → SameFields p q → SameFields q r → SameFields p r
SameFields-trans p q r h k = record {
  mode = h.mode ∙ k.mode;
  size = h.size ∙ k.size;
  start = h.start ∙ k.start;
  sects = h.sects ∙ k.sects;
}

-- The state after an i-node has been written.
abbrev pub synced : (i : ℕ) → SuperBlock → Fs → Fs
synced i sb s =
    let p : Inode = s.inode_table i in
    let pos : ℕ = sector_pos (inode_sect sb p.i_num) in
    let buf : ℕ → ℕ = λ j. if ltb j 512 then s.disk p.i_dev (pos + j) else s.fsbuf j in
    let new : ℕ → ℕ = store_inode buf (inode_off p.i_num) p in
    record s {
      fsbuf = new;
      disk = λ d a.
          if (d == p.i_dev) && (leb pos a && ltb a (pos + 512)) then new (a - pos) else s.disk d a;
    }

pub sync_outcome :
    (i : ℕ) (s : Fs) (sb : SuperBlock)
    → Mounted (s.inode_table i).i_dev sb s
    → sync_inode i s ≡ ok tt (synced i sb s)
unfolding sync_inode rd_sect read_disk wr_sect write_disk
sync_outcome i s sb h =
    and_then-ok (get_super_block (s.inode_table i).i_dev s) sb s _
      (get_super_block-Mounted (s.inode_table i).i_dev s sb h)

-- A byte of a sector that has been written is read back.
sector_back :
    (dev pos j old : ℕ) (new : ℕ → ℕ)
    → j < 512
    → (if ltb j 512
        then (if (dev == dev) && (leb pos (pos + j) && ltb (pos + j) (pos + 512))
            then new (pos + j - pos)
            else old)
        else new j)
      ≡ new j
sector_back dev pos j old new h = ground (arith, ap new {x = pos + j - pos} {y = j} (omega arith))

-- The slot `q` after an i-node that has been synced is read into it.
read_back :
    (i q : ℕ) (s : Fs) (sb : SuperBlock)
    → Words (s.inode_table i)
    → SameFields
        ((filled q (s.inode_table i).i_dev (s.inode_table i).i_num sb (synced i sb s)).inode_table
          q)
        (s.inode_table i)
unfolding put_in
read_back i q s sb w =
    let p : Inode = s.inode_table i in
    let pos : ℕ = sector_pos (inode_sect sb p.i_num) in
    let off : ℕ = inode_off p.i_num in
    let t : Fs = synced i sb s in
    let c : Fs = claimed q p.i_dev p.i_num t in
    let buf : ℕ → ℕ = λ j. if ltb j 512 then c.disk p.i_dev (pos + j) else c.fsbuf j in
    subst (λ x. SameFields x p)
      (sym (put_self c.inode_table q (load_inode buf off (c.inode_table q))))
      (SameFields-trans (load_inode buf off (c.inode_table q))
        (load_inode t.fsbuf off (c.inode_table q)) p
        (load_inode_same buf t.fsbuf off (c.inode_table q)
          (λ j l. sector_back p.i_dev pos j (s.disk p.i_dev (pos + j)) t.fsbuf l) (omega arith))
        (load_inode-store_inode (λ j. if ltb j 512 then s.disk p.i_dev (pos + j) else s.fsbuf j) off
          p (c.inode_table q) w))

-- sync_inode, for an i-node of a mounted device, puts its mode, size, start and count of sectors where
-- a read of that i-node finds them, whatever slot it is read into.
pub read_inode-sync_inode :
    (i q : ℕ) (s : Fs) (sb : SuperBlock)
    → Mounted (s.inode_table i).i_dev sb s
    → Words (s.inode_table i)
    → (t : Fs) × (u : Fs) × (sync_inode i s ≡ ok tt t)
      × (read_inode q (s.inode_table i).i_dev (s.inode_table i).i_num t ≡ ok (some q) u)
      × SameFields (u.inode_table q) (s.inode_table i)
read_inode-sync_inode i q s sb m w =
    let p : Inode = s.inode_table i in
    let t : Fs = synced i sb s in
    (
      t,
      filled q p.i_dev p.i_num sb t,
      sync_outcome i s sb m,
      read_inode_lem q p.i_dev p.i_num t sb m,
      read_back i q s sb w,
    )
