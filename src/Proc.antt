-- ===== src/Proc.antt =====
-- include/sys/proc.h, include/sys/const.h and include/type.h: the process table and its constants.
-- A pointer to an entry of `proc_table` is the entry's index, and `none` is the null pointer. An
-- `int` is its bit pattern, a number below 2 ^ 32.
use oscourse_project.Base.{ℕ, Option, List, ◌==◌, if◌then◌else◌}

abbrev pub nr_tasks : ℕ
nr_tasks = 5

abbrev pub nr_procs : ℕ
nr_procs = 32

abbrev pub nr_native_procs : ℕ
nr_native_procs = 4

-- the number of entries of `proc_table`
abbrev pub nr_slots : ℕ
nr_slots = 37

-- bits of `p_flags`
abbrev pub sending : ℕ
sending = 0x02

abbrev pub receiving : ℕ
receiving = 0x04

abbrev pub waiting : ℕ
waiting = 0x08

abbrev pub hanging : ℕ
hanging = 0x10

abbrev pub free_slot : ℕ
free_slot = 0x20

abbrev pub task_tty : ℕ
task_tty = 0

abbrev pub task_sys : ℕ
task_sys = 1

abbrev pub task_hd : ℕ
task_hd = 2

abbrev pub task_fs : ℕ
task_fs = 3

abbrev pub task_mm : ℕ
task_mm = 4

abbrev pub init : ℕ
init = 5

-- `(NR_TASKS + NR_PROCS + 10)`
abbrev pub any : ℕ
any = 47

-- `(NR_TASKS + NR_PROCS + 20)`
abbrev pub no_task : ℕ
no_task = 57

-- -10 as a bit pattern
abbrev pub interrupt : ℕ
interrupt = 4294967286

abbrev pub send : ℕ
send = 1

abbrev pub receive : ℕ
receive = 2

abbrev pub both : ℕ
both = 3

abbrev pub hard_int : ℕ
hard_int = 1

-- `struct descriptor`
pub record Descriptor : Type 0 where
  pub limit_low : ℕ
  pub base_low : ℕ
  pub base_mid : ℕ
  pub attr1 : ℕ
  pub limit_high_attr2 : ℕ
  pub base_high : ℕ

-- `struct stackframe`
pub record StackFrame : Type 0 where
  pub gs : ℕ
  pub fs : ℕ
  pub es : ℕ
  pub ds : ℕ
  pub edi : ℕ
  pub esi : ℕ
  pub ebp : ℕ
  pub kernel_esp : ℕ
  pub ebx : ℕ
  pub edx : ℕ
  pub ecx : ℕ
  pub eax : ℕ
  pub retaddr : ℕ
  pub eip : ℕ
  pub cs : ℕ
  pub eflags : ℕ
  pub esp : ℕ
  pub ss : ℕ

-- `struct proc`. `ldts` is its two descriptors; `filp` holds indices of `f_desc_table`.
pub record Proc : Type 0 where
  pub regs : StackFrame
  pub ldt_sel : ℕ
  pub ldt_c : Descriptor
  pub ldt_rw : Descriptor
  pub ticks : ℕ
  pub priority : ℕ
  pub name : List ℕ
  pub p_flags : ℕ
  pub p_msg : ℕ
  pub p_recvfrom : ℕ
  pub p_sendto : ℕ
  pub has_int_msg : ℕ
  pub q_sending : Option ℕ
  pub next_sending : Option ℕ
  pub p_parent : ℕ
  pub exit_status : ℕ
  pub filp : List (Option ℕ)

abbrev pub Table : Type 0
Table = ℕ → Proc

-- A write through the pointer `&proc_table[i]`.
unfoldable pub write : Table → ℕ → Proc → Table
write t i p j = if i == j then p else t j

-- The kernel's data that the modelled code reads and writes: `proc_table`, the bytes of linear
-- memory, `p_proc_ready`, `ticks`, `key_pressed` and `k_reenter`.
pub record Kernel : Type 0 where
  pub table : Table
  pub mem : ℕ → ℕ
  pub ready : ℕ
  pub clock : ℕ
  pub key_pressed : ℕ
  pub k_reenter : ℕ
