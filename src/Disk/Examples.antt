-- ===== src/Disk/Examples.antt =====
-- A drive with a primary partition and an extended one, which holds one logical partition.
use oscourse_project.Base.{ℕ, ◌≡◌, refl, [], ◌+◌, ◌==◌, if◌then◌else◌, true, inl, arith}
use oscourse_project.Disk.Transfer.{
  Port, Read, move_sectors, asked_sectors, move_sectors_lem, move_sectors_hangs,
}
use oscourse_project.Run.{Stop}
use oscourse_project.Act.{Result, ok, stop}
use oscourse_project.Segment.{load_int}
use oscourse_project.Disk.{
  Hd, HdCmd, hd_open, hd_identify, partition_primary, primary_parts, partition_extended,
  logical_parts, get_part_table, put_primary, put_logical, hd_cmd_out, drv_of_dev, part_of,
  partition_table_offset,
}

abbrev table : ℕ
table = partition_table_offset

-- The bytes of the drive: 63 sectors into it a partition of Linux, at 0x100 the extended one, whose
-- table names a partition 1 sector behind it.
abbrev sector : (sect_nr i : ℕ) → ℕ
sector sect_nr i =
    if sect_nr == 0
    then (if i == table + 4
        then 0x83
        else (if i == table + 8
            then 63
            else (if i == table + 20 then 5 else (if i == table + 25 then 1 else 0))))
    else (if i == table + 8 then 1 else 0)

-- What the stack holds.
abbrev stack : HdCmd
stack = record {
  features = 1;
  count = 2;
  lba_low = 3;
  lba_mid = 4;
  lba_high = 5;
  device = 6;
  command = 7;
}

abbrev empty : Hd
empty = record {
  hd_info = record {
    open_cnt = 0;
    primary = λ i. record { base = 0; size = 0 };
    logical = λ i. record { base = 0; size = 0 };
  };
  cmds = [];
}

abbrev base_of : (device : ℕ) → Result Hd (Unit {0}) → ℕ
base_of device (ok a h) = (part_of device (h.hd_info)).base
base_of device (stop e) = 0

hd_open_primary : base_of 1 (hd_open sector (λ i. 0) stack 0x20 empty) ≡ 63
unfolding hd_open hd_identify partition_primary primary_parts partition_extended logical_parts
    get_part_table put_primary put_logical hd_cmd_out drv_of_dev part_of load_int
hd_open_primary = refl

hd_open_logical : base_of 0x20 (hd_open sector (λ i. 0) stack 0x20 empty) ≡ 0x100 + 1
unfolding hd_open hd_identify partition_primary primary_parts partition_extended logical_parts
    get_part_table put_primary put_logical hd_cmd_out drv_of_dev part_of load_int
hd_open_logical = refl

-- Two sectors, each full of its own number, read to 0x2000; the driver's buffer lies at 0x9000.
abbrev waiting_for : ℕ → Port
waiting_for n = record { mem = λ a. 7; delivered = 0; awaited = n; given = [] }

move_sectors_lem_example :
    (q : Port) × (move_sectors (λ k j. k) (λ p. true) 0x9000 3 true 1024 0x2000 (waiting_for 2)
      ≡ ok tt q)
    × Read (λ k j. k) (λ p. true) 0x9000 2 0x2000 (waiting_for 2) q
move_sectors_lem_example =
    move_sectors_lem (λ k j. k) (λ p. true) 0x9000 2 1024 0x2000 (waiting_for 2) (omega arith)
      (omega arith) (unfold asked_sectors in refl) (omega arith) (omega arith) (inl (omega arith))

-- 300 sectors: the command asks for 44.
move_sectors_hangs_example :
    move_sectors (λ k j. k) (λ p. true) 0x9000 301 true 153600 0x10000 (waiting_for 44)
    ≡ stop Stop.stuck
move_sectors_hangs_example =
    move_sectors_hangs (λ k j. k) (λ p. true) 0x9000 300 153600 0x10000 (waiting_for 44)
      (omega arith) (omega arith) (omega arith) (unfold asked_sectors in refl)
