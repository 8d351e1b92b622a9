-- ===== src/Ipc/Send.antt =====
-- kernel/proc.c `msg_send`, with `block` and `unblock`.
pub mod Deliver
pub mod Enqueue
pub mod EnqueueChain
pub mod EnqueueInvariant
pub mod Total
pub mod Bytes
use oscourse_project.Base.{
  ℕ, zero, suc, ◌+◌, Bool, true, false, not, ◌&&◌, ◌||◌, Option, none, some, has_flag, set_flag,
  clear_flag, ◌==◌, if◌then◌else◌,
}
use oscourse_project.Proc.{Proc, Kernel, Table, write, sending, receiving, nr_slots, any, no_task}
use oscourse_project.Run.{Cmd, pure, ◌>>=◌, ◌>>◌, assert, halt, Stop, proc, put, in_table, get}
use oscourse_project.Segment.{va2la, phys_copy}
use oscourse_project.Schedule.{schedule}
use oscourse_project.Ipc.Deadlock.{deadlock}

-- `sizeof(MESSAGE)`: two words, then the largest of the three bodies, `struct mess3`.
abbrev pub message_size : ℕ
message_size = 48

unfoldable pub block : ℕ → Cmd (Unit {0})
block i = do p ← proc i; assert (not (p.p_flags == 0)); schedule

unfoldable pub unblock : ℕ → Cmd (Unit {0})
unblock i = do p ← proc i; assert (p.p_flags == 0)

-- The four assertions that a process takes no part in any message.
unfoldable pub assert_idle : ℕ → Cmd (Unit {0})
assert_idle i = do
  p ← proc i
  assert (p.p_flags == 0)
  assert (p.p_msg == 0)
  assert (p.p_recvfrom == no_task)
  assert (p.p_sendto == no_task)

-- `memcpy` of a whole message from one process's buffer to another's
unfoldable pub copy_message : (to to_va from from_va : ℕ) → Cmd (Unit {0})
copy_message to to_va from from_va = do
  dst ← va2la to to_va
  src ← va2la from from_va
  phys_copy dst src message_size

-- The entry of a receiver once it has its message.
unfoldable pub received : Proc → Proc
received p = record p { p_msg = 0; p_flags = clear_flag p.p_flags receiving; p_recvfrom = no_task }

-- The branch "dest is waiting for the msg".
unfoldable pub deliver : (sender dest m : ℕ) → Cmd (Unit {0})
unfolding received unblock assert_idle
deliver sender dest m = do
  p ← proc dest
  assert (not (p.p_msg == 0))
  assert (not (m == 0))
  copy_message dest p.p_msg sender m
  put dest (received p)
  unblock dest
  assert_idle dest
  assert_idle sender

-- `while (p->next_sending) p = p->next_sending;`
unfoldable pub last_sending : (fuel : ℕ) → Table → ℕ → Option ℕ
last_sending zero t p = none
last_sending (suc n) t p = elim (t p).next_sending [ none ↦ some p | some q ↦ last_sending n t q ]

-- "append to the sending queue"; the walk has one round for each entry of the table.
unfoldable pub append_sender : (sender dest : ℕ) → Cmd (Unit {0})
append_sender sender dest k = elim (k.table dest).q_sending [
  | none ↦ put dest (record (k.table dest) { q_sending = some sender }) k
  | some first ↦ elim (last_sending nr_slots k.table first) [
    | none ↦ halt Stop.out_of_fuel k
    | some p ↦ put p (record (k.table p) { next_sending = some sender }) k
  ]
]

-- The entry of a sender that waits.
unfoldable pub blocked_sender : (dest m : ℕ) → Proc → Proc
blocked_sender dest m p = record p {
  p_flags = set_flag p.p_flags sending;
  p_sendto = dest;
  p_msg = m;
}

-- The branch "dest is not waiting for the msg".
unfoldable pub enqueue : (sender dest m : ℕ) → Cmd (Unit {0})
unfolding blocked_sender block
enqueue sender dest m = do
  p ← proc sender
  put sender (blocked_sender dest m p)
  assert (set_flag p.p_flags sending == sending)
  append_sender sender dest
  s ← proc sender
  put sender (record s { next_sending = none })
  block sender
  q ← proc sender
  assert (q.p_flags == sending)
  assert (not (q.p_msg == 0))
  assert (q.p_recvfrom == no_task)
  assert (q.p_sendto == dest)

-- The test whether `dest` waits for a message of `sender`.
abbrev pub waits_for : Proc → ℕ → Bool
waits_for p sender = has_flag p.p_flags receiving && (p.p_recvfrom == sender || p.p_recvfrom == any)

unfoldable pub msg_send : (current dest m : ℕ) → Cmd ℕ
msg_send current dest m = do
  assert (not (current == dest))
  cycle ← deadlock current dest
  if cycle then halt Stop.panic else pure tt
  p ← proc dest
  if waits_for p current then deliver current dest m else enqueue current dest m
  pure 0
