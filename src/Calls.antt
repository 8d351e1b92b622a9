-- ===== src/Calls.antt =====
-- lib/: the stubs of the system calls, which pack their arguments into a message, send it and wait for
-- the answer. `send_recv` with BOTH is the parameter `call`; a `MESSAGE` on the stack starts with the
-- parameter `fresh` as its content. A result is `none` where an assertion fails.
use oscourse_project.Base.{ℕ, ◌-◌, ◌^◌, ◌&&◌, Option, none, some, List, ◌==◌, if◌then◌else◌, length}
use oscourse_project.Proc.{task_mm, task_sys, task_fs, no_task}

-- `MESSAGE`, with the fields of `struct mess3`
pub record Message : Type 0 where
  pub source : ℕ
  pub type : ℕ
  pub m3i1 : ℕ
  pub m3i2 : ℕ
  pub m3i3 : ℕ
  pub m3i4 : ℕ
  pub m3l1 : ℕ
  pub m3p1 : ℕ
  pub m3p2 : ℕ

-- The types of messages that the stubs use.
pub data MsgType : Type 0 where
  get_pid open_file close_file read_file write_file stat_file unlink_file wait_child fork_child
        exit_child syscall_ret :
      MsgType

-- `enum msgtype`, which counts from HARD_INT, 1
unfoldable pub number : MsgType → ℕ
number get_pid = 3
number open_file = 5
number close_file = 6
number read_file = 7
number write_file = 8
number stat_file = 10
number unlink_file = 11
number wait_child = 15
number fork_child = 16
number exit_child = 17
number syscall_ret = 18

module _ (call : (dest : ℕ) → Message → Message) (fresh : Message) where
  -- `assert(msg.type == SYSCALL_RET)`, and the result
  abbrev checked : Message → ℕ → Option ℕ
  checked msg result = if msg.type == number syscall_ret then some result else none

  -- `open`: the path's address and length. FLAGS and FD are one field.
  unfoldable pub open_path : (pathname : ℕ) → (text : List ℕ) → (flags : ℕ) → Option ℕ
  open_path pathname text flags =
      let msg : Message = call task_fs (record fresh {
        type = number open_file;
        m3p1 = pathname;
        m3i1 = flags;
        m3i2 = length text;
      }) in
      checked msg msg.m3i1

  -- `close`
  unfoldable pub close : (fd : ℕ) → ℕ
  close fd = (call task_fs (record fresh { type = number close_file; m3i1 = fd })).m3i1

  -- `read` and `write`: FD, BUF and CNT
  unfoldable pub read : (fd buf count : ℕ) → ℕ
  read fd buf count =
      (call task_fs
        (record fresh { type = number read_file; m3i1 = fd; m3p2 = buf; m3i2 = count })).m3i2

  unfoldable pub write : (fd buf count : ℕ) → ℕ
  write fd buf count =
      (call task_fs
        (record fresh { type = number write_file; m3i1 = fd; m3p2 = buf; m3i2 = count })).m3i2

  -- `unlink`
  unfoldable pub unlink : (pathname : ℕ) → (text : List ℕ) → ℕ
  unlink pathname text =
      (call task_fs
        (record fresh { type = number unlink_file; m3p1 = pathname; m3i2 = length text })).m3i1

  -- `stat`
  unfoldable pub stat : (path : ℕ) → (text : List ℕ) → (buf : ℕ) → Option ℕ
  stat path text buf =
      let msg : Message =
        call task_fs
          (record fresh { type = number stat_file; m3p1 = path; m3p2 = buf; m3i2 = length text }) in
      checked msg msg.m3i1

  -- `fork`: RETVAL must be 0
  unfoldable pub fork : Option ℕ
  fork =
      let msg : Message = call task_mm (record fresh { type = number fork_child }) in
      if (msg.type == number syscall_ret) && (msg.m3i1 == 0) then some msg.m3i2 else none

  -- `exit`, which returns no value
  unfoldable pub exit : (status : ℕ) → Option ℕ
  exit status = checked (call task_mm (record fresh { type = number exit_child; m3i1 = status })) 0

  -- `wait`: the status, and the child or -1
  unfoldable pub wait : ℕ × ℕ
  wait =
      let msg : Message = call task_mm (record fresh { type = number wait_child }) in
      (msg.m3i1, if msg.m3i2 == no_task then 2 ^ 32 - 1 else msg.m3i2)

  -- `getpid`
  unfoldable pub getpid : Option ℕ
  getpid =
      let msg : Message = call task_sys (record fresh { type = number get_pid }) in
      checked msg msg.m3i2
