-- ===== src/FileTable/Examples.antt =====
-- Runs of the file tables of pro1/src/kernel/file.c.
use oscourse_project.Base.{
  ℕ, ◌+◌, ◌%◌, ◌^◌, ◌<◌, ◌≡◌, refl, inr, none, some, List, [], ◌∷◌, ◌==◌, if◌then◌else◌, arith,
}
use oscourse_project.Act.{Act, Result, ok, stop, ◌>>=◌, ◌>>◌}
use oscourse_project.FileTable.{
  Fcb, Files, md_address, init_file_sys, close_all, put_item, put_fcb, put_file, fchkname,
  fchk_from, set_name, same_file_name, same_from,
}
use oscourse_project.FileTable.Ops.{
  sys_fcreate, sys_fclose, sys_fdelete, create_new, search_blocks, take_blocks, add_entry,
  sys_fopen, open_found, open_from, occupied,
}
use oscourse_project.FileTable.Create.{sys_fcreate-opens}
use oscourse_project.FileTable.Delete.{sys_fdelete-last}
use oscourse_project.FileTable.RoundTrip.{rewrite, sys_fread-sys_fwrite}

abbrev zero_fcb : Fcb
zero_fcb = record { name = λ i. 0; ext = λ i. 0; blkcount = 0; init_no = 0; resrv = λ i. 0 }

-- The tables before `InitFileSys`, and a memory with the text "hi" at 0x1000.
abbrev zeroed : Files
zeroed = record {
  f_sys = record { blk_total = 0; blk_dir = 0; blk_epttbl = 0; blk_ept = 0; deviceinfo = 0 };
  f_dir = record { fcb = λ i. zero_fcb; count = 0 };
  f_eptbl = record { item = λ i. record { start = 0; size = 0 }; count = 0 };
  f_sys_opentbl = λ i. record { id = some 0; fcb = zero_fcb; offset = 0 };
  mem = λ a. if a == 0x1000 then b'h' else (if a == 0x1001 then b'i' else 0);
  notes = [];
}

abbrev named : ℕ → ℕ → ℕ
named c i = if i == 0 then c else 0

-- A file made and closed.
abbrev fresh_file : (c blocknum : ℕ) → Act Files (Unit {0})
fresh_file c blocknum = do fd ← sys_fcreate (named c) blocknum; sys_fclose 0

abbrev starts : Result Files (Unit {0}) → List ℕ
starts (ok a s) =
    s.f_dir.count ∷ (s.f_dir.fcb 0).init_no ∷ (s.f_dir.fcb 1).init_no ∷ (s.f_dir.fcb 2).init_no ∷ []
starts (stop e) = []

-- The first block of the first file is the number of blocks, and the second and third file share
-- theirs.
shared_blocks :
    starts ((do fresh_file b'a' 4; fresh_file b'b' 4; fresh_file b'c' 4) (init_file_sys zeroed))
    ≡ 3 ∷ 32767 ∷ 0 ∷ 0 ∷ []
unfolding sys_fcreate create_new search_blocks take_blocks add_entry sys_fopen open_found open_from
    sys_fclose init_file_sys close_all put_item put_fcb put_file fchkname fchk_from same_file_name
    same_from set_name
shared_blocks = refl

-- One file "a" of one block in the directory, and none open.
abbrev one_file : Files
one_file = record zeroed {
  f_dir = record {
    fcb = λ i. record zero_fcb { name = named b'a'; blkcount = 1; init_no = 1 };
    count = 1;
  };
  f_sys_opentbl = λ i. record { id = none; fcb = zero_fcb; offset = 0 };
}

-- The same, and "a" open.
abbrev one_open : Files
one_open = record one_file {
  f_sys_opentbl = λ i. record { id = some 0; fcb = one_file.f_dir.fcb 0; offset = 7 };
}

sys_fcreate-opens_example :
    (s2 : Files) × (sys_fcreate (named b'b') 3 one_file ≡ ok (some 0) s2)
    × (fchkname (named b'b') s2.f_dir ≡ some 1)
    × (s2.f_dir.count ≡ 1 + 1)
    × ((s2.f_dir.fcb 1).blkcount ≡ 3 % 2 ^ 8)
    × ((s2.f_sys_opentbl 0).id ≡ some 1)
    × ((s2.f_sys_opentbl 0).fcb.blkcount ≡ 3 % 2 ^ 8)
    × ((s2.f_sys_opentbl 0).offset ≡ 0)
    × ((j : ℕ) → j < 1 → s2.f_dir.fcb j ≡ one_file.f_dir.fcb j)
unfolding fchkname fchk_from same_file_name same_from
sys_fcreate-opens_example = sys_fcreate-opens (named b'b') 3 one_file refl (omega arith) refl

sys_fdelete-last_example :
    (s2 : Files) × (sys_fdelete (named b'a') one_file ≡ ok tt s2)
    × (s2.f_dir ≡ one_file.f_dir)
    × (fchkname (named b'a') s2.f_dir ≡ some 0)
    × (s2.f_eptbl.count ≡ 0 + 1)
    × ((s2.f_eptbl.item 0).start ≡ 1)
    × ((s2.f_eptbl.item 0).size ≡ 1)
unfolding fchkname fchk_from same_file_name same_from occupied
sys_fdelete-last_example = sys_fdelete-last (named b'a') 0 one_file refl refl refl (omega arith)

sys_fread-sys_fwrite_example :
    (s2 : Files) × (rewrite 0x1000 5 0x2000 2 one_open ≡ ok 2 s2)
    × ((k : ℕ) → k < 2 → s2.mem (0x2000 + k) ≡ one_open.mem (0x1000 + k))
unfolding md_address
sys_fread-sys_fwrite_example =
    sys_fread-sys_fwrite 0x1000 5 0x2000 2 one_open (omega arith) (omega arith) (omega arith)
      (omega arith)
      (record { inside = omega arith; bytes = λ k b e. ground (arith, b, e); ends = refl })
      (inr (omega arith)) (omega arith) (inr (omega arith)) refl
