-- ===== src/Boot.antt =====
-- kernel/main.c `kernel_main`: the process table before the first process runs. The descriptors of
-- the flat segments are those that the loader left in the GDT, the entry points and the top of the
-- stacks are the linker's, and the size of the kernel image is read from its file: they are
-- parameters. `init_prot` has cleared the table and set the LDT selectors.
pub mod Start
use oscourse_project.Base.{
  ℕ, zero, suc, ◌+◌, ◌-◌, ◌*◌, ◌/◌, ◌%◌, ◌^◌, Bool, true, false, ◌&&◌, Option, none, List, [], ◌∷◌,
  ltb, ◌==◌, if◌then◌else◌,
}
use oscourse_project.Proc.{
  Descriptor, StackFrame, Proc, Table, Kernel, nr_tasks, nr_native_procs, nr_slots, free_slot,
  no_task,
}
use oscourse_project.Segment.{init_desc}

abbrev pub nr_files : ℕ
nr_files = 64

-- The names in `task_table` and `user_proc_table` of kernel/global.c.
abbrev pub task_name : ℕ → List ℕ
task_name zero = b'T' ∷ b'T' ∷ b'Y' ∷ []
task_name (suc zero) = b'S' ∷ b'Y' ∷ b'S' ∷ []
task_name (suc (suc zero)) = b'H' ∷ b'D' ∷ []
task_name (suc (suc (suc zero))) = b'F' ∷ b'S' ∷ []
task_name (suc (suc (suc (suc zero)))) = b'M' ∷ b'M' ∷ []
task_name (suc (suc (suc (suc (suc zero))))) = b'I' ∷ b'N' ∷ b'I' ∷ b'T' ∷ []
task_name (suc (suc (suc (suc (suc (suc zero)))))) = b'T' ∷ b'e' ∷ b's' ∷ b't' ∷ b'A' ∷ []
task_name (suc (suc (suc (suc (suc (suc (suc zero))))))) = b'T' ∷ b'e' ∷ b's' ∷ b't' ∷ b'B' ∷ []
task_name (suc (suc (suc (suc (suc (suc (suc (suc n)))))))) = b'T' ∷ b'e' ∷ b's' ∷ b't' ∷ b'C' ∷ []

-- `strcmp(a, b) == 0`
abbrev pub same_text : List ℕ → List ℕ → Bool
same_text [] [] = true
same_text [] (y ∷ ys) = false
same_text (x ∷ xs) [] = false
same_text (x ∷ xs) (y ∷ ys) = (x == y) && same_text xs ys

abbrev pub init_name : List ℕ
init_name = b'I' ∷ b'N' ∷ b'I' ∷ b'T' ∷ []

abbrev pub zero_frame : StackFrame
zero_frame = record {
  gs = 0;
  fs = 0;
  es = 0;
  ds = 0;
  edi = 0;
  esi = 0;
  ebp = 0;
  kernel_esp = 0;
  ebx = 0;
  edx = 0;
  ecx = 0;
  eax = 0;
  retaddr = 0;
  eip = 0;
  cs = 0;
  eflags = 0;
  esp = 0;
  ss = 0;
}

abbrev pub zero_descriptor : Descriptor
zero_descriptor = record {
  limit_low = 0;
  base_low = 0;
  base_mid = 0;
  attr1 = 0;
  limit_high_attr2 = 0;
  base_high = 0;
}

abbrev pub no_files : ℕ → List (Option ℕ)
no_files zero = []
no_files (suc n) = none ∷ no_files n

-- What `init_prot` leaves of entry `i`: zero bytes, and the selector of its LDT.
unfoldable pub cleared : ℕ → Proc
cleared i = record {
  regs = zero_frame;
  ldt_sel = 0x28 + i * 8;
  ldt_c = zero_descriptor;
  ldt_rw = zero_descriptor;
  ticks = 0;
  priority = 0;
  name = [];
  p_flags = 0;
  p_msg = 0;
  p_recvfrom = 0;
  p_sendto = 0;
  has_int_msg = 0;
  q_sending = none;
  next_sending = none;
  p_parent = 0;
  exit_status = 0;
  filp = no_files nr_files;
}

-- What the loader and the linker provide.
pub record Image : Type 0 where
  pub flat_c : Descriptor
  pub flat_rw : Descriptor
  pub entry : ℕ → ℕ
  pub stack_top : ℕ
  pub k_base : ℕ
  pub k_limit : ℕ

module _ (image : Image) where
  -- The registers of a task (privilege 1) or of a user process (privilege 3).
  unfoldable pub first_frame : ℕ → StackFrame
  first_frame i =
      let rpl : ℕ = if ltb i nr_tasks then 1 else 3 in
      let selector : ℕ = 8 + 4 + rpl in
      record {
        gs = 0x18 + rpl;
        fs = selector;
        es = selector;
        ds = selector;
        edi = 0;
        esi = 0;
        ebp = 0;
        kernel_esp = 0;
        ebx = 0;
        edx = 0;
        ecx = 0;
        eax = 0;
        retaddr = 0;
        eip = image.entry i;
        cs = 4 + rpl;
        eflags = if ltb i nr_tasks then 0x1202 else 0x202;
        esp = image.stack_top - i * 0x4000;
        ss = selector;
      }

  -- `DA_C | priv << 5` and `DA_DRW | priv << 5`, where the two share no bit
  unfoldable pub segment_c : ℕ → Descriptor
  segment_c i =
      let priv : ℕ = if ltb i nr_tasks then 1 else 3 in
      if same_text (task_name i) init_name
      then init_desc 0 ((image.k_base + image.k_limit) / 2 ^ 12)
          (0x4000 + 0x8000 + 0x98 + priv * 2 ^ 5)
      else record (image.flat_c) { attr1 = 0x98 + priv * 2 ^ 5 }

  unfoldable pub segment_rw : ℕ → Descriptor
  segment_rw i =
      let priv : ℕ = if ltb i nr_tasks then 1 else 3 in
      if same_text (task_name i) init_name
      then init_desc 0 ((image.k_base + image.k_limit) / 2 ^ 12)
          (0x4000 + 0x8000 + 0x92 + priv * 2 ^ 5)
      else record (image.flat_rw) { attr1 = 0x92 + priv * 2 ^ 5 }

  -- One round of the loop over the table.
  unfoldable pub first_entry : ℕ → Proc
  unfolding cleared first_frame segment_c segment_rw
  first_entry i =
      if ltb i (nr_tasks + nr_native_procs)
      then record (cleared i) {
        regs = first_frame i;
        ldt_c = segment_c i;
        ldt_rw = segment_rw i;
        ticks = if ltb i nr_tasks then 15 else 5;
        priority = if ltb i nr_tasks then 15 else 5;
        name = task_name i;
        p_flags = 0;
        p_msg = 0;
        p_recvfrom = no_task;
        p_sendto = no_task;
        has_int_msg = 0;
        q_sending = none;
        next_sending = none;
        p_parent = no_task;
        filp = no_files nr_files;
      }
      else record (cleared i) { p_flags = free_slot }

  -- The kernel when `restart` is called, with the memory `mem`.
  unfoldable pub kernel_main : (ℕ → ℕ) → Kernel
  kernel_main mem = record {
    table = first_entry;
    mem = mem;
    ready = 0;
    clock = 0;
    key_pressed = 0;
    k_reenter = 0;
  }
