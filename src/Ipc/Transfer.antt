-- ===== src/Ipc/Transfer.antt =====
-- The copy of a message between two processes.
use oscourse_project.Base.{ℕ, ◌+◌, ◌%◌, ◌^◌, ◌<◌, ◌≡◌, ltb, arith, ltb→lt, inl, inr, Bool-cases}
use oscourse_project.Proc.{Table, Kernel, nr_tasks, nr_native_procs}
use oscourse_project.Run.{ok}
use oscourse_project.Segment.{ldt_seg_linear, va2la, phys_copy, copy}
use oscourse_project.Ipc.Send.{copy_message, message_size}

-- The linear address of a process's virtual address.
abbrev pub linear : Table → (pid va : ℕ) → ℕ
linear t pid va = (ldt_seg_linear (t pid).ldt_rw + va) % 2 ^ 32

abbrev pub IsFlat : Table → Type 0
IsFlat t = (i : ℕ) → i < nr_tasks + nr_native_procs → ldt_seg_linear (t i).ldt_rw ≡ 0

module _ (k : Kernel) (flat : IsFlat k.table) where
  pub va2la-ok : (pid va : ℕ) → va < 2 ^ 32 → va2la pid va k ≡ ok (linear k.table pid va) k
  unfolding va2la
  va2la-ok pid va h = elim (Bool-cases (ltb pid (nr_tasks + nr_native_procs))) [
    | inl native ↦ ground (arith, flat pid (ltb→lt pid 9 native))
    | inr other ↦ ground arith
  ]

  -- The bytes of a message, moved between two linear addresses.
  pub copy_message-ok :
      (to to_va from from_va : ℕ)
      → to_va < 2 ^ 32
      → from_va < 2 ^ 32
      → copy_message to to_va from from_va k
        ≡ ok tt (record k {
          mem = copy message_size (linear k.table to to_va) (linear k.table from from_va) k.mem;
        })
  unfolding copy_message phys_copy
  copy_message-ok to to_va from from_va h h' =
      ground (arith, va2la-ok to to_va h, va2la-ok from from_va h')
