-- ===== src/Memory/Examples.antt =====
-- Runs of the memory manager at a concrete process table.
use oscourse_project.Base.{
  ℕ, ◌+◌, ◌-◌, ◌%◌, ◌^◌, ◌==◌, ◌<◌, ◌≤◌, ◌≡◌, ◌≢◌, ◌⊎◌, refl, some, [], ◌∷◌, ltb, if◌then◌else◌,
  arith, has_flag, set_flag,
}
use oscourse_project.Proc.{
  Proc, Table, nr_slots, free_slot, waiting, hanging, receiving, task_mm, no_task,
}
use oscourse_project.Segment.{copy, ldt_seg_linear, reassembly}
use oscourse_project.Boot.{cleared}
use oscourse_project.Memory.{
  Mm, Sent, Outcome, do_fork, do_exit, do_wait, segment_base, same_segments,
}
use oscourse_project.Memory.Blocks.{block_of, alloc_mem-ok, alloc_mem-Apart}
use oscourse_project.Memory.Exit.{do_exit_lem}
use oscourse_project.Memory.Wait.{Cleaned, Waits, Childless, do_wait_lem}
use oscourse_project.Memory.Fork.{CanFork, do_fork_lem, size, child_buffer}
use oscourse_project.Ipc.Send.{message_size}

-- The nine native processes are there and the other entries are free.
-- INIT waits for MM's answer.
abbrev caller : Proc
caller = record (cleared 7) {
  p_flags = receiving;
  p_recvfrom = task_mm;
  p_msg = 0x500;
  p_sendto = no_task;
}

abbrev procs : Table
procs i =
    if i == 7
    then caller
    else (if ltb i 9 then cleared i else record (cleared i) { p_flags = free_slot })

abbrev mm : Mm
mm = record { table = procs; mem = λ _. 0; memory_size = 0x2000000; sent = [] }

-- The bytes of the child's message.
abbrev birth : ℕ → ℕ
birth k = k

abbrev full : Mm
full = record mm { table = cleared }

alloc_mem-Apart_example : (block_of 9 + 0x1000 ≤ block_of 10) ⊎ (block_of 10 + 0x2000 ≤ block_of 9)
alloc_mem-Apart_example =
    alloc_mem-Apart 9 10 0x1000 0x2000 (block_of 9) (block_of 10) mm mm mm mm (omega arith)
      (omega arith) (omega arith)
      (alloc_mem-ok 9 0x1000 mm (omega arith) (omega arith) (omega arith) (omega arith)
        (omega arith))
      (alloc_mem-ok 10 0x2000 mm (omega arith) (omega arith) (omega arith) (omega arith)
        (omega arith))

mm-CanFork : CanFork birth 7 9 mm
unfolding cleared same_segments reassembly has_flag
mm-CanFork = record {
  forkable = omega arith;
  in_the_table = omega arith;
  free = refl;
  used = λ j h e. ground (arith, e);
  agree = refl;
  small = ground arith;
  fits = ground arith;
  receives = refl;
  from_mm = refl;
  buffer = λ e. omega (arith, e);
  sends_none = refl;
  top = omega arith;
}

do_fork_lem_example :
    (s' : Mm) × (do_fork birth 7 mm ≡ Outcome.ok (0, some 9) s')
    × ((s'.table 9).p_parent ≡ 7)
    × ((s'.table 9).ldt_sel ≡ (mm.table 9).ldt_sel)
    × ((s'.table 9).regs ≡ (mm.table 7).regs)
    × ((s'.table 9).p_flags ≡ 0)
    × ((s'.table 9).p_recvfrom ≡ no_task)
    × (ldt_seg_linear (s'.table 9).ldt_rw ≡ block_of 9)
    × ((j : ℕ) → 9 ≢ j → s'.table j ≡ mm.table j)
    × ((k : ℕ) → k < message_size → s'.mem ((child_buffer birth 7 9 mm + k) % 2 ^ 32) ≡ birth k)
    × ((a : ℕ)
        → message_size ≤ (a + (2 ^ 32 - child_buffer birth 7 9 mm)) % 2 ^ 32
        → s'.mem a
          ≡ copy (size birth 7 9 mm) (block_of 9) (segment_base (mm.table 7).ldt_c) mm.mem a)
    × (s'.sent ≡ Sent.born 9 ∷ Sent.fork_to_fs 9 ∷ mm.sent)
do_fork_lem_example = do_fork_lem birth 7 9 mm mm-CanFork

do_exit_lem_example :
    ((j : ℕ) → j < nr_slots → ((do_exit 7 3 mm).table j).p_parent ≢ 7)
    × ((do_exit 7 3 mm).table 7 ≡ (
        if has_flag (mm.table (mm.table 7).p_parent).p_flags waiting
        then record (mm.table 7) { exit_status = 3; p_flags = free_slot }
        else record (mm.table 7) {
          exit_status = 3;
          p_flags = set_flag (mm.table 7).p_flags hanging;
        }))
unfolding cleared
do_exit_lem_example = do_exit_lem 7 3 mm (omega arith) (omega arith)

do_wait_lem_example :
    Cleaned 7 mm (do_wait 7 mm) ⊎ Waits 7 mm (do_wait 7 mm) ⊎ Childless 7 mm (do_wait 7 mm)
do_wait_lem_example = do_wait_lem 7 mm
