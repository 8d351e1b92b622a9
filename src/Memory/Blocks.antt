-- ===== src/Memory/Blocks.antt =====
-- The memory that alloc_mem gives to the processes.
use oscourse_project.Base.{ℕ, ◌+◌, ◌-◌, ◌*◌, ◌^◌, ◌<◌, ◌≤◌, ◌≡◌, ◌≢◌, ◌⊎◌, arith}
use oscourse_project.Proc.{nr_slots}
use oscourse_project.Memory.{Mm, Outcome, alloc_mem, first_pid, procs_base, proc_image_size_default}

-- The block of a process.
abbrev pub block_of : ℕ → ℕ
block_of pid = procs_base + (pid - first_pid) * proc_image_size_default

-- The address that an allocation gives, where it gives one.
abbrev pub base_or : Outcome ℕ → ℕ → ℕ
base_or (Outcome.ok a s) d = a
base_or (Outcome.stop e) d = d

module _ (pid memsize : ℕ) (s : Mm) where
  -- What is asked of an allocation.
  pub alloc_mem-ok :
      first_pid ≤ pid
      → pid < nr_slots
      → memsize ≤ proc_image_size_default
      → block_of pid + memsize < s.memory_size
      → s.memory_size < 2 ^ 31
      → alloc_mem pid memsize s ≡ Outcome.ok (block_of pid) s
  unfolding alloc_mem
  alloc_mem-ok h p m fits top = ground arith

  alloc_mem-inv :
      (a : ℕ) (s' : Mm)
      → alloc_mem pid memsize s ≡ Outcome.ok a s'
      → memsize < 2 ^ 31
      → (a ≡ block_of pid) × (first_pid ≤ pid) × (memsize ≤ proc_image_size_default)
  unfolding alloc_mem
  alloc_mem-inv a s' e m = ground (arith, e)

-- The blocks that alloc_mem gives to two processes do not overlap, whatever sizes (below 2 GB) they ask for.
pub alloc_mem-Apart :
    (i j m n a b : ℕ) (s s' t t' : Mm)
    → i ≢ j
    → m < 2 ^ 31
    → n < 2 ^ 31
    → alloc_mem i m s ≡ Outcome.ok a s'
    → alloc_mem j n t ≡ Outcome.ok b t'
    → (a + m ≤ b) ⊎ (b + n ≤ a)
alloc_mem-Apart i j m n a b s s' t t' ne hm hn e e' =
    let (ea, hi, sm) = alloc_mem-inv i m s a s' e hm in
    let (eb, hj, sn) = alloc_mem-inv j n t b t' e' hn in grind arith
