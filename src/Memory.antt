-- ===== src/Memory.antt =====
-- mm/main.c and mm/forkexit.c: the memory manager, a task that serves fork, exit and wait. What it
-- asks of the message code by `send_recv` is noted in the order of the calls, and the birth of a child,
-- which is its own copy of a waiting process, is carried out; all else that it does is done to the
-- process table and to memory.
pub mod Blocks
pub mod Exit
pub mod Wait
pub mod Fork
mod Examples
use oscourse_project.Base.{
  ℕ, zero, suc, ◌+◌, ◌-◌, ◌*◌, ◌/◌, ◌%◌, ◌^◌, Bool, true, false, not, ◌&&◌, ◌||◌, Option, none,
  some, List, [], ◌∷◌, leb, ltb, ◌==◌, if◌then◌else◌, has_flag, set_flag, clear_flag,
}
use oscourse_project.Proc.{
  Descriptor, Proc, Table, write, nr_slots, nr_tasks, nr_native_procs, free_slot, waiting, hanging,
  init, task_mm, no_task,
}
use oscourse_project.Run.{Stop}
use oscourse_project.Segment.{init_desc, reassembly, copy, ldt_seg_linear}
use oscourse_project.Ipc.Send.{waits_for, received, message_size}
use oscourse_project.Format.{Arg, sprintf}

-- What MM sends: to FS a message of fork or exit, which FS answers; to a new process its birth; to a
-- parent the end of a child; to a process without children that it has none; and the reply to the
-- caller with RETVAL and PID.
pub data Sent : Type 0 where
  fork_to_fs exit_to_fs born no_child : ℕ → Sent
  child_exited : (parent pid status : ℕ) → Sent
  reply : (dest retval pid : ℕ) → Sent

-- The state that MM reads and writes. `sent` holds the last message first.
pub record Mm : Type 0 where
  pub table : Table
  pub mem : ℕ → ℕ
  pub memory_size : ℕ
  pub sent : List Sent

-- A value and the new state, or a stop of the machine.
pub data Outcome (A : Type 0) : Type 0 where
  ok : A → Mm → Outcome A
  stop : Stop → Outcome A

abbrev pub after_ok : {A B : Type 0} → Outcome A → (A → Mm → Outcome B) → Outcome B
after_ok (ok a s) f = f a s
after_ok (stop e) f = stop e

abbrev pub check : {A : Type 0} → Bool → Outcome A → Outcome A
check true o = o
check false o = stop Stop.assertion

abbrev pub tell : Sent → Mm → Mm
tell m s = record s { sent = m ∷ s.sent }

abbrev pub put_proc : ℕ → Proc → Mm → Mm
put_proc i p s = record s { table = write s.table i p }

-- `NR_TASKS + NR_NATIVE_PROCS`
abbrev pub first_pid : ℕ
first_pid = nr_tasks + nr_native_procs

abbrev pub procs_base : ℕ
procs_base = 0xA00000

abbrev pub proc_image_size_default : ℕ
proc_image_size_default = 0x100000

-- `a < b` on `int`, of bit patterns
abbrev pub signed_lt : ℕ → ℕ → Bool
signed_lt a b = ltb ((a + 2 ^ 31) % 2 ^ 32) ((b + 2 ^ 31) % 2 ^ 32)

-- `alloc_mem`
unfoldable pub alloc_mem : (pid memsize : ℕ) → Mm → Outcome ℕ
alloc_mem pid memsize s =
    let base : ℕ = procs_base + (pid - first_pid) * proc_image_size_default in
    check (leb first_pid pid) (
      if signed_lt proc_image_size_default memsize
      then stop Stop.panic
      else (if signed_lt ((base + memsize) % 2 ^ 32) s.memory_size
          then ok base s
          else stop Stop.panic))

-- `cleanup`
unfoldable pub cleanup : ℕ → Mm → Mm
cleanup i s =
    let told : Mm = tell (Sent.child_exited (s.table i).p_parent i (s.table i).exit_status) s in
    put_proc i (record (s.table i) { p_flags = free_slot }) told

-- The first of the `n` entries from `i` on that is not used, or the end of the table.
unfoldable pub free_entry : (n i : ℕ) → Table → ℕ
free_entry zero i t = i
free_entry (suc n) i t =
    let rest = free_entry n (i + 1) t in if (t i).p_flags == free_slot then i else rest

-- base, limit and size of a segment
abbrev pub segment_base : Descriptor → ℕ
segment_base d = reassembly d.base_high 24 d.base_mid 16 d.base_low

abbrev pub t_limit : Descriptor → ℕ
t_limit d = reassembly 0 0 (d.limit_high_attr2 % 2 ^ 4) 16 d.limit_low

abbrev pub d_s_limit : Descriptor → ℕ
d_s_limit d = reassembly (d.limit_high_attr2 % 2 ^ 4) 16 0 0 d.limit_low

-- Both sizes are worked out from the limit of the text segment.
abbrev pub segment_size : (limit : ℕ) → Descriptor → ℕ
segment_size limit d = (limit + 1) * (if has_flag d.limit_high_attr2 0x80 then 4096 else 1) % 2 ^ 32

-- The assertion that the caller's segments agree.
unfoldable pub same_segments : Proc → Bool
same_segments p =
    segment_base p.ldt_c == segment_base p.ldt_rw
    && (t_limit p.ldt_c == d_s_limit p.ldt_rw)
    && (segment_size (t_limit p.ldt_c) p.ldt_c == segment_size (t_limit p.ldt_c) p.ldt_rw)

-- `sprintf(p->name, "%s_%d", proc_table[pid].name, child_pid)`
abbrev pub child_name : List ℕ → ℕ → List ℕ
child_name name child =
    sprintf (b'%' ∷ b's' ∷ b'_' ∷ b'%' ∷ b'd' ∷ []) (Arg.text_arg name ∷ Arg.int_arg child ∷ [])

-- The child's entry after "duplicate the process table"
unfoldable pub duplicate : Table → (pid child : ℕ) → Proc
duplicate t pid child = record (t pid) {
  ldt_sel = (t child).ldt_sel;
  p_parent = pid;
  name = child_name (t pid).name child;
}

-- "child's LDT": `PRIVILEGE_USER << 5` shares no bit with the other attributes.
unfoldable pub child_ldt : (base : ℕ) → Proc → Proc
child_ldt base p =
    let limit : ℕ = (proc_image_size_default - 1) / 2 ^ 12 in
    record p {
      ldt_c = init_desc base limit (0x8000 + 0x4000 + 0x98 + 3 * 2 ^ 5);
      ldt_rw = init_desc base limit (0x8000 + 0x4000 + 0x92 + 3 * 2 ^ 5);
    }

-- The child's message goes to its buffer.
unfoldable pub receive_birth : (message : ℕ → ℕ) → (la : ℕ) → (ℕ → ℕ) → ℕ → ℕ
receive_birth message la mem a =
    let o : ℕ = (a + (2 ^ 32 - la)) % 2 ^ 32 in if ltb o message_size then message o else mem a

-- "birth of the child": `send_recv(SEND, child_pid, &m)`, by which the child, a copy of a process that
-- waits for MM, gets its message and may run, with the assertions of `msg_send` on the receiver. MM
-- waits for ever for one that does not receive. `message` gives the bytes of `m`.
unfoldable pub give_birth : (message : ℕ → ℕ) → ℕ → Mm → Outcome (Unit {0})
unfolding receive_birth
give_birth message child s =
    let p : Proc = s.table child in
    let la : ℕ = (ldt_seg_linear p.ldt_rw + p.p_msg) % 2 ^ 32 in
    let told : Mm =
      tell (Sent.born child)
        (put_proc child (received p) (record s { mem = receive_birth message la s.mem })) in
    let idle : Bool =
      not (p.p_msg == 0) && ((received p).p_flags == 0) && (p.p_sendto == no_task) in
    if waits_for p task_mm then check idle (ok tt told) else stop Stop.stuck

-- `do_fork` once it has a free entry.
unfoldable pub fork_into : (message : ℕ → ℕ) → (pid child : ℕ) → Mm → Outcome (ℕ × Option ℕ)
unfolding alloc_mem duplicate child_ldt same_segments give_birth
fork_into message pid child s =
    let parent : Proc = s.table pid in
    let p : Proc = duplicate s.table pid child in
    let size : ℕ = segment_size (t_limit parent.ldt_c) parent.ldt_c in
    check (same_segments parent) (
      after_ok (alloc_mem child size (put_proc child p s)) (λ base s1.
        after_ok
          (give_birth message child (
            tell (Sent.fork_to_fs child) (record s1 {
              mem = copy size base (segment_base parent.ldt_c) s1.mem;
              table = write s1.table child (child_ldt base p);
            })))
          (λ _ s2. ok (0, some child) s2)))

-- `do_fork`: the value is what it returns, with the child's number that it puts into `mm_msg.PID`.
-- -1 is its bit pattern.
unfoldable pub do_fork : (message : ℕ → ℕ) → (pid : ℕ) → Mm → Outcome (ℕ × Option ℕ)
unfolding free_entry fork_into
do_fork message pid s =
    let child : ℕ = free_entry nr_slots 0 s.table in
    check (leb first_pid child)
      (if child == nr_slots then ok (2 ^ 32 - 1, none) s else fork_into message pid child s)

-- `proc_table[i].p_flags &= ~WAITING`
unfoldable pub stop_waiting : ℕ → Mm → Mm
stop_waiting i s =
    put_proc i (record (s.table i) { p_flags = clear_flag (s.table i).p_flags waiting }) s

-- "if INIT is WAITING and B is HANGING"
unfoldable pub reap : ℕ → Mm → Mm
unfolding cleanup stop_waiting
reap i s =
    if has_flag (s.table init).p_flags waiting && has_flag (s.table i).p_flags hanging
    then cleanup i (stop_waiting init s)
    else s

-- A round of the loop of `do_exit`: INIT becomes the parent of a child.
unfoldable pub adopt_one : (i pid : ℕ) → Mm → Mm
unfolding reap
adopt_one i pid s =
    if (s.table i).p_parent == pid
    then reap i (put_proc i (record (s.table i) { p_parent = init }) s)
    else s

-- The loop, over the `n` entries from `i` on.
unfoldable pub adopt : (n i pid : ℕ) → Mm → Mm
unfolding adopt_one
adopt zero i pid s = s
adopt (suc n) i pid s = adopt n (i + 1) pid (adopt_one i pid s)

-- "parent is waiting" and "parent is not waiting"
unfoldable pub part : (pid parent : ℕ) → Mm → Mm
unfolding cleanup stop_waiting
part pid parent s =
    if has_flag (s.table parent).p_flags waiting
    then cleanup pid (stop_waiting parent s)
    else put_proc pid (record (s.table pid) { p_flags = set_flag (s.table pid).p_flags hanging }) s

-- `do_exit` before its loop; `free_mem` does nothing. The parent of a native process is `no_task`, an
-- entry past the end of the table, which the source reads and the model has.
unfoldable pub leave : (pid status : ℕ) → Mm → Mm
unfolding part
leave pid status s =
    part pid (s.table pid).p_parent
      (put_proc pid (record (s.table pid) { exit_status = status }) (tell (Sent.exit_to_fs pid) s))

-- `do_exit`
unfoldable pub do_exit : (pid status : ℕ) → Mm → Mm
unfolding leave adopt
do_exit pid status s = adopt nr_slots 0 pid (leave pid status s)

-- The loop of `do_wait`: the first child that hangs, and whether there is a child before it.
unfoldable pub find_hanging : (n i pid : ℕ) → Table → Bool → Option ℕ × Bool
find_hanging zero i pid t children = (none, children)
find_hanging (suc n) i pid t children =
    let child : Bool = (t i).p_parent == pid in
    let rest = find_hanging n (i + 1) pid t (child || children) in
    if child && has_flag (t i).p_flags hanging then (some i, true) else rest

-- `do_wait`
unfoldable pub do_wait : (pid : ℕ) → Mm → Mm
unfolding find_hanging cleanup
do_wait pid s =
    let found : Option ℕ × Bool = find_hanging nr_slots 0 pid s.table false in
    elim found.0 [
      | some i ↦ cleanup i s
      | none ↦
          if found.1
          then put_proc pid
              (record (s.table pid) { p_flags = set_flag (s.table pid).p_flags waiting }) s
          else tell (Sent.no_child pid) s
    ]

-- The requests that MM knows; `request_pid` is the field PID of the request.
pub data Request : Type 0 where
  fork : (request_pid : ℕ) → Request
  exit : (status : ℕ) → Request
  wait unknown : Request

-- One round of the loop of `task_mm`, for a request of `src`.
unfoldable pub serve_mm : (message : ℕ → ℕ) → (src : ℕ) → Request → Mm → Outcome (Unit {0})
unfolding do_fork do_exit do_wait
serve_mm message src (Request.fork request_pid) s = after_ok (do_fork message src s) (λ r s1.
    ok tt (tell (Sent.reply src r.0 (elim r.1 [ none ↦ request_pid | some child ↦ child ])) s1))
serve_mm message src (Request.exit status) s = ok tt (do_exit src status s)
serve_mm message src Request.wait s = ok tt (do_wait src s)
serve_mm message src Request.unknown s = stop Stop.assertion
