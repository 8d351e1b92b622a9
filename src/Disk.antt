-- ===== src/Disk.antt =====
-- kernel/hd.c: the disk driver's partitions and commands. What the drive delivers is a parameter:
-- `sector` gives the bytes of a sector by its number, `identify` the words of ATA_IDENTIFY. The data
-- phase of a transfer is in Transfer.
pub mod Transfer
mod Examples
use oscourse_project.Base.{
  ℕ, zero, suc, ◌+◌, ◌-◌, ◌*◌, ◌/◌, ◌%◌, ◌^◌, Bool, true, false, not, ◌&&◌, List, [], ◌∷◌, ltb, leb,
  ◌==◌, if◌then◌else◌,
}
use oscourse_project.Run.{Stop}
use oscourse_project.Act.{Act, ok, ◌>>=◌, ◌>>◌, pure, get, change, assert, halt}
use oscourse_project.Segment.{load_int}

abbrev pub nr_part_per_drive : ℕ
nr_part_per_drive = 4

abbrev pub nr_sub_per_part : ℕ
nr_sub_per_part = 16

abbrev pub nr_sub_per_drive : ℕ
nr_sub_per_drive = nr_sub_per_part * nr_part_per_drive

abbrev pub nr_prim_per_drive : ℕ
nr_prim_per_drive = nr_part_per_drive + 1

abbrev pub max_drives : ℕ
max_drives = 2

abbrev pub max_prim : ℕ
max_prim = max_drives * nr_prim_per_drive - 1

abbrev pub minor_hd1a : ℕ
minor_hd1a = 0x10

abbrev pub no_part : ℕ
no_part = 0

abbrev pub ext_part : ℕ
ext_part = 5

abbrev pub partition_table_offset : ℕ
partition_table_offset = 0x1BE

-- `struct part_info`
pub record PartInfo : Type 0 where
  pub base : ℕ
  pub size : ℕ

-- `struct hd_info`
pub record HdInfo : Type 0 where
  pub open_cnt : ℕ
  pub primary : ℕ → PartInfo
  pub logical : ℕ → PartInfo

-- `struct hd_cmd`
pub record HdCmd : Type 0 where
  pub features : ℕ
  pub count : ℕ
  pub lba_low : ℕ
  pub lba_mid : ℕ
  pub lba_high : ℕ
  pub device : ℕ
  pub command : ℕ

-- The fields of `struct part_ent` that are read.
pub record PartEnt : Type 0 where
  pub sys_id : ℕ
  pub start_sect : ℕ
  pub nr_sects : ℕ

-- `hd_info[0]`, the only entry, and the commands sent, the last first.
pub record Hd : Type 0 where
  pub hd_info : HdInfo
  pub cmds : List HdCmd

-- `DRV_OF_DEV`; below `MINOR_hd1a` the difference is negative, and C's quotient of it is 0 as well.
unfoldable pub drv_of_dev : ℕ → ℕ
drv_of_dev dev =
    if leb dev max_prim then dev / nr_prim_per_drive else (dev - minor_hd1a) / nr_sub_per_drive

-- `MAKE_DEVICE_REG(1, drive, highest)`, for drives 0 and 1
abbrev pub device_reg : (drive highest : ℕ) → ℕ
device_reg drive highest = 0xA0 + 2 ^ 6 + drive * 2 ^ 4 + highest % 2 ^ 4

-- The command for `count` sectors from `sect_nr` on; its fields are bytes.
unfoldable pub sector_cmd : (drive sect_nr count command : ℕ) → HdCmd
sector_cmd drive sect_nr count command = record {
  features = 0;
  count = count % 2 ^ 8;
  lba_low = sect_nr % 2 ^ 8;
  lba_mid = sect_nr / 2 ^ 8 % 2 ^ 8;
  lba_high = sect_nr / 2 ^ 16 % 2 ^ 8;
  device = device_reg drive (sect_nr / 2 ^ 24 % 2 ^ 4);
  command = command;
}

unfoldable pub hd_cmd_out : HdCmd → Hd → Hd
hd_cmd_out cmd h = record h { cmds = cmd ∷ h.cmds }

-- `(device - MINOR_hd1a) % NR_SUB_PER_DRIVE`
abbrev pub logidx : ℕ → ℕ
logidx device = (device - minor_hd1a) % nr_sub_per_drive

-- The partition of a device.
unfoldable pub part_of : (device : ℕ) → HdInfo → PartInfo
part_of device info =
    if ltb device max_prim then info.primary device else info.logical (logidx device)

-- `hd_rdwt`, up to its command
unfoldable pub hd_rdwt : (reading : Bool) → (device pos cnt : ℕ) → Act Hd (Unit {0})
hd_rdwt reading device pos cnt = do
  let drive = drv_of_dev device
  assert (ltb (pos / 2 ^ 9) (2 ^ 31))
  assert (pos % 2 ^ 9 == 0)
  h ← get
  let sect_nr = (pos / 2 ^ 9 + (part_of device h.hd_info).base) % 2 ^ 32
  change
      (hd_cmd_out (sector_cmd drive sect_nr ((cnt + 511) / 512) (if reading then 0x20 else 0x30)))

-- `hd_ioctl`: the answer to DIOCTL_GET_GEO
unfoldable pub hd_ioctl : (device request : ℕ) → Act Hd PartInfo
hd_ioctl device request = do assert (request == 1); h ← get; pure (part_of device h.hd_info)

-- `hd_info[0].primary[i] = p` and `hd_info[0].logical[i] = p`
unfoldable pub put_primary : ℕ → PartInfo → Hd → Hd
put_primary i p h = record h {
  hd_info = record (h.hd_info) { primary = λ j. if i == j then p else h.hd_info.primary j };
}

unfoldable pub put_logical : ℕ → PartInfo → Hd → Hd
put_logical i p h = record h {
  hd_info = record (h.hd_info) { logical = λ j. if i == j then p else h.hd_info.logical j };
}

module _ (sector : (sect_nr i : ℕ) → ℕ) (identify : ℕ → ℕ) where
  -- `get_part_table`: the entries, by their number
  unfoldable pub get_part_table : (drive sect_nr : ℕ) → Act Hd (ℕ → PartEnt)
  get_part_table drive sect_nr = do
    change (hd_cmd_out (sector_cmd drive sect_nr 1 0x20))
    pure (λ i.
        let at : ℕ = partition_table_offset + i * 16 in
        record {
          sys_id = sector sect_nr (at + 4);
          start_sect = load_int (sector sect_nr) (at + 8);
          nr_sects = load_int (sector sect_nr) (at + 12);
        })

  -- The loop over an extended partition: `n` logical partitions from the `i`-th on; `s` is the
  -- sector of the next table.
  unfoldable pub logical_parts : (n i drive nr_1st_sub ext_start_sect s : ℕ) → Act Hd (Unit {0})
  logical_parts zero i drive nr_1st_sub ext_start_sect s = pure tt
  logical_parts (suc n) i drive nr_1st_sub ext_start_sect s = do
    part_tbl ← get_part_table drive s
    change (
        put_logical (nr_1st_sub + i)
          (record { base = (s + (part_tbl 0).start_sect) % 2 ^ 32; size = (part_tbl 0).nr_sects }))
    elim ((part_tbl 1).sys_id == no_part) [
      | true ↦ pure tt
      | false ↦
          logical_parts n (i + 1) drive nr_1st_sub ext_start_sect
            ((ext_start_sect + (part_tbl 1).start_sect) % 2 ^ 32)
    ]

  -- `partition(device, P_EXTENDED)`, for a device that is not the whole drive
  unfoldable pub partition_extended : (device : ℕ) → Act Hd (Unit {0})
  partition_extended device = do
    h ← get
    let j = device % nr_prim_per_drive
    let ext_start_sect = (h.hd_info.primary j).base
    logical_parts nr_sub_per_part 0 (drv_of_dev device) ((j - 1) * nr_sub_per_part) ext_start_sect
        ext_start_sect

  -- The loop over the primary partitions, `n` of them from the `i`-th on: how many there are.
  unfoldable pub primary_parts : (n i device nr_prim_parts : ℕ) → (ℕ → PartEnt) → Act Hd ℕ
  primary_parts zero i device nr_prim_parts part_tbl = pure nr_prim_parts
  primary_parts (suc n) i device nr_prim_parts part_tbl = elim ((part_tbl i).sys_id == no_part) [
    | true ↦ primary_parts n (i + 1) device nr_prim_parts part_tbl
    | false ↦ (do
      change (
          put_primary (i + 1)
            (record { base = (part_tbl i).start_sect; size = (part_tbl i).nr_sects }))
      if (part_tbl i).sys_id == ext_part then partition_extended (device + (i + 1)) else pure tt
      primary_parts n (i + 1) device (nr_prim_parts + 1) part_tbl)
  ]

  -- `partition(device, P_PRIMARY)`: the table is read from the sector with the drive's number
  unfoldable pub partition_primary : (device : ℕ) → Act Hd (Unit {0})
  partition_primary device = do
    let drive = drv_of_dev device
    part_tbl ← get_part_table drive drive
    nr_prim_parts ← primary_parts nr_part_per_drive 0 device 0 part_tbl
    assert (not (nr_prim_parts == 0))

  -- `hd_identify`; the fields of the command that it does not set have what the `stack` holds.
  unfoldable pub hd_identify : (stack : HdCmd) → (drive : ℕ) → Act Hd (Unit {0})
  hd_identify stack drive = do
    change (hd_cmd_out (record stack { device = 0xA0 + drive * 2 ^ 4; command = 0xEC }))
    change
        (put_primary 0 (record { base = 0; size = (identify 61 * 2 ^ 16 + identify 60) % 2 ^ 32 }))

  -- `hd_open`
  unfoldable pub hd_open : (stack : HdCmd) → (device : ℕ) → Act Hd (Unit {0})
  hd_open stack device = do
    let drive = drv_of_dev device
    assert (drive == 0)
    hd_identify stack drive
    h ← get
    change (λ g. record g {
      hd_info = record (g.hd_info) { open_cnt = (h.hd_info.open_cnt + 1) % 2 ^ 32 };
    })
    if h.hd_info.open_cnt == 0 then partition_primary (drive * nr_prim_per_drive) else pure tt

-- `hd_close`
unfoldable pub hd_close : (device : ℕ) → Act Hd (Unit {0})
hd_close device = do
  assert (drv_of_dev device == 0)
  change (λ g. record g {
    hd_info = record (g.hd_info) { open_cnt = (g.hd_info.open_cnt + (2 ^ 32 - 1)) % 2 ^ 32 };
  })
