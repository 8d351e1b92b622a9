-- ===== src/Fs/Imap/First.antt =====
-- fs/main.c `mkfs` and fs/open.c `alloc_imap_bit`: the i-nodes of a new file system.
use oscourse_project.Base.{
  ℕ, ◌+◌, ◌≡◌, ◌≢◌, refl, ap, ◌∙◌, some, ltb, set_flag, has_flag, arith, ◌==◌, if◌then◌else◌, ◌-◌,
}
use oscourse_project.Act.{ok}
use oscourse_project.Segment.{poke}
use oscourse_project.Fs.State.{Fs, SuperBlock, wr_sect, write_disk, sector_pos}
use oscourse_project.Fs.Maps.{zero_bit, open_byte, alloc_imap_bit}
use oscourse_project.Fs.Mounted.{Mounted}
use oscourse_project.Fs.Make.{fill_fsbuf, set_bits, make_imap, root_dev}
use oscourse_project.Fs.Imap.{with_bit}
use oscourse_project.Fs.Imap.Alloc.{HasMap, loaded, written, outcome, alloc_outcome}

-- The map that `mkfs` makes, in `fsbuf`.
abbrev new_map : Fs → ℕ → ℕ
new_map s i = if 0 == i then 0x3F else (if ltb i 512 then 0 else s.fsbuf i)

made : (s : Fs) → make_imap s ≡ ok tt (written root_dev (new_map s) s)
unfolding make_imap fill_fsbuf set_bits wr_sect write_disk sector_pos poke set_flag has_flag
made s = refl

made-open_byte :
    (s : Fs) → open_byte 512 0 (loaded root_dev (written root_dev (new_map s) s)) ≡ some 0
unfolding open_byte
made-open_byte s = refl

made-HasMap :
    (s : Fs) (sb : SuperBlock)
    → Mounted root_dev sb s
    → sb.nr_imap_sects ≢ 0
    → HasMap (written root_dev (new_map s) s) root_dev sb
made-HasMap s sb m n = record {
  mounted = m;
  some_sector = n;
  bytes = λ i l. ground (arith, ap (new_map s) {x = 1024 + i - 1024} {y = i} (omega arith));
}

-- In a new map of i-nodes the numbers up to 5 are taken, for the root, the three terminals and the
-- archive: the first number that alloc_imap_bit gives is 6. The root device is mounted and has a
-- sector for the map.
pub alloc_imap_bit-make_imap :
    (s : Fs) (sb : SuperBlock)
    → Mounted root_dev sb s
    → sb.nr_imap_sects ≢ 0
    → (t : Fs) × (u : Fs) × (make_imap s ≡ ok tt t) × (alloc_imap_bit root_dev t ≡ ok 6 u)
unfolding zero_bit has_flag
alloc_imap_bit-make_imap s sb m n =
    let t : Fs = written root_dev (new_map s) s in
    (
      t,
      written root_dev (with_bit (loaded root_dev t) 0 (zero_bit 8 0 (loaded root_dev t 0))) t,
      made s,
      alloc_outcome root_dev t sb (made-HasMap s sb m n)
          ∙ ap (outcome root_dev t) (made-open_byte s),
    )
