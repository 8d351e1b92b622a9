-- ===== src/Ipc/Call.antt =====
-- kernel/proc.c `sys_sendrec` and kernel/clock.c `clock_handler`; lib/misc.c `send_recv` calls the
-- first.
use oscourse_project.Base.{ℕ, ◌+◌, ◌-◌, not, ◌||◌, ◌==◌, ltb, leb, if◌then◌else◌}
use oscourse_project.Proc.{nr_slots, any, interrupt, send, receive, task_tty}
use oscourse_project.Run.{Cmd, pure, ok, ◌>>=◌, ◌>>◌, assert, halt, Stop, proc, put, get}
use oscourse_project.Segment.{va2la, store_int}
use oscourse_project.Schedule.{int_ltb, schedule}
use oscourse_project.Ipc.Send.{msg_send}
use oscourse_project.Ipc.Receive.{msg_receive, inform_int}

unfoldable pub sys_sendrec : (function src_dest m p : ℕ) → Cmd ℕ
sys_sendrec function src_dest m p = do
  k ← get
  assert (k.k_reenter == 0)
  assert (ltb src_dest nr_slots || src_dest == any || src_dest == interrupt)
  mla ← va2la p m
  store_int mla p
  assert (not (p == src_dest))
  if function == send
      then msg_send p src_dest m
      else (if function == receive then msg_receive p src_dest m else halt Stop.panic)

abbrev pub max_ticks : ℕ
max_ticks = 0x7fffabcd

-- `clock_handler`
unfoldable pub clock_handler : Cmd (Unit {0})
clock_handler = do
  (λ k. ok tt (record k { clock = if leb max_ticks (k.clock + 1) then 0 else k.clock + 1 }))
  k ← get
  p ← proc k.ready
  if p.ticks == 0 then pure tt else put k.ready (record p { ticks = p.ticks - 1 })
  if k.key_pressed == 0 then pure tt else inform_int task_tty
  q ← proc k.ready
  if not (k.k_reenter == 0) then pure tt else (if int_ltb 0 q.ticks then pure tt else schedule)
