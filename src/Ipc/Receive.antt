-- ===== src/Ipc/Receive.antt =====
-- kernel/proc.c `msg_receive` and `inform_int`.
pub mod Take
pub mod TakeInvariant
pub mod Await
pub mod Interrupt
pub mod Pick
pub mod Total
use oscourse_project.Base.{
  ℕ, zero, suc, ◌+◌, ◌%◌, ◌^◌, Bool, true, false, not, ◌&&◌, ◌||◌, Option, none, some, has_flag,
  set_flag, clear_flag, ◌==◌, ltb, if◌then◌else◌,
}
use oscourse_project.Proc.{
  Proc, Kernel, Table, write, sending, receiving, nr_slots, any, no_task, interrupt, hard_int,
}
use oscourse_project.Run.{Cmd, pure, ok, ◌>>=◌, ◌>>◌, assert, halt, Stop, proc, put, in_table, get}
use oscourse_project.Segment.{va2la, phys_copy, poke, poke_int, store_int}
use oscourse_project.Ipc.Send.{block, unblock, assert_idle, copy_message, message_size}

-- `memset(p, 0, n)`
unfoldable pub zero_bytes : (n a : ℕ) → (ℕ → ℕ) → ℕ → ℕ
zero_bytes zero a mem = mem
zero_bytes (suc n) a mem = zero_bytes n ((a + 1) % 2 ^ 32) (poke mem a 0)

-- Memory with the message that stands for an interrupt at a linear address: `reset_msg`, then the
-- source and the type.
unfoldable pub whole_interrupt_message : (ℕ → ℕ) → ℕ → ℕ → ℕ
whole_interrupt_message mem la =
    poke_int (poke_int (zero_bytes message_size la mem) la interrupt) (la + 4) hard_int

unfoldable pub store_interrupt : ℕ → Cmd (Unit {0})
store_interrupt la k = ok tt (record k { mem = whole_interrupt_message k.mem la })

-- "There is an interrupt [that] needs p_who_wanna_recv's handling"
unfoldable pub receive_interrupt : (who m : ℕ) → Cmd (Unit {0})
receive_interrupt who m = do
  assert (not (m == 0))
  la ← va2la who m
  store_interrupt la
  p ← proc who
  put who (record p { has_int_msg = 0 })
  q ← proc who
  assert (q.p_flags == 0)
  assert (q.p_msg == 0)
  assert (q.p_sendto == no_task)
  assert (q.has_int_msg == 0)

-- The assertions about a receiver and the sender whose message it takes.
unfoldable pub assert_meet : (who from : ℕ) → Cmd (Unit {0})
unfolding assert_idle
assert_meet who from = do
  assert_idle who
  f ← proc from
  assert (f.p_flags == sending)
  assert (not (f.p_msg == 0))
  assert (f.p_recvfrom == no_task)
  assert (f.p_sendto == who)

-- `src == ANY`: the head of the queue, which has no predecessor
unfoldable pub pick_first : ℕ → Cmd (Option (ℕ × Option ℕ))
pick_first who = do
  p ← proc who
  elim p.q_sending [
    | none ↦ pure none
    | some from ↦ (do assert_meet who from; pure (some (from, none)))
  ]

-- `while (p) { … if (proc2pid(p) == src) break; prev = p; p = p->next_sending; }`
unfoldable pub find_prev : (fuel : ℕ) → (src : ℕ) → (p prev : Option ℕ) → Cmd (Option ℕ)
find_prev zero src p prev = halt Stop.out_of_fuel
find_prev (suc n) src none prev = pure prev
find_prev (suc n) src (some p) prev = do
  from ← proc src
  assert (has_flag from.p_flags sending)
  e ← proc p
  let rest = find_prev n src e.next_sending (some p)
  if p == src then pure prev else rest

abbrev pub find_fuel : ℕ
find_fuel = 38

-- `src` is a process: the message is there if that process is sending to `who`.
unfoldable pub pick_from : (who src : ℕ) → Cmd (Option (ℕ × Option ℕ))
pick_from who src = do
  from ← proc src
  p ← proc who
  if has_flag from.p_flags sending && (from.p_sendto == who)
      then (do
        assert (elim p.q_sending [ none ↦ false | some _ ↦ true ])
        prev ← find_prev find_fuel src p.q_sending none
        assert_meet who src
        pure (some (src, prev)))
      else pure none

-- "we should remove it from the queue"
unfoldable pub unqueue : (who from : ℕ) → Option ℕ → Cmd (Unit {0})
unqueue who from prev = do
  p ← proc who
  f ← proc from
  if elim p.q_sending [ none ↦ false | some first ↦ first == from ]
      then (do
        assert (elim prev [ none ↦ true | some _ ↦ false ])
        put who (record p { q_sending = f.next_sending }))
      else (elim prev [
        | none ↦ assert false
        | some b ↦ (do e ← proc b; put b (record e { next_sending = f.next_sending }))
      ])
  g ← proc from
  put from (record g { next_sending = none })

-- The entry of a sender whose message has been taken.
unfoldable pub released : Proc → Proc
released p = record p { p_msg = 0; p_sendto = no_task; p_flags = clear_flag p.p_flags sending }

-- The branch `copyok`.
unfoldable pub take_message : (who from : ℕ) → Option ℕ → (m : ℕ) → Cmd (Unit {0})
unfolding released unblock
take_message who from prev m = do
  unqueue who from prev
  assert (not (m == 0))
  f ← proc from
  assert (not (f.p_msg == 0))
  copy_message who m from f.p_msg
  put from (released f)
  unblock from

-- The entry of a receiver that waits.
unfoldable pub blocked_receiver : (src m : ℕ) → Proc → Proc
blocked_receiver src m p = record p {
  p_flags = set_flag p.p_flags receiving;
  p_msg = m;
  p_recvfrom = src;
}

-- The branch "nobody's sending any msg".
unfoldable pub await : (who src m : ℕ) → Cmd (Unit {0})
unfolding blocked_receiver block
await who src m = do
  p ← proc who
  put who (blocked_receiver src m p)
  block who
  q ← proc who
  assert (q.p_flags == receiving)
  assert (not (q.p_msg == 0))
  assert (not (q.p_recvfrom == no_task))
  assert (q.p_sendto == no_task)
  assert (q.has_int_msg == 0)

-- Where the message comes from, if one is there.
unfoldable pub pick : (who src : ℕ) → Cmd (Option (ℕ × Option ℕ))
pick who src =
    if src == any
    then pick_first who
    else (if ltb src nr_slots then pick_from who src else pure none)

unfoldable pub receive_message : (who src m : ℕ) → Cmd (Unit {0})
receive_message who src m = do
  found ← pick who src
  elim found [ none ↦ await who src m | some (from, prev) ↦ take_message who from prev m ]

unfoldable pub msg_receive : (current src m : ℕ) → Cmd ℕ
msg_receive current src m = do
  assert (not (current == src))
  p ← proc current
  if not (p.has_int_msg == 0) && (src == any || src == interrupt)
      then receive_interrupt current m
      else receive_message current src m
  pure 0

-- The entry of a task that waited for the interrupt.
unfoldable pub informed : Proc → Proc
informed p = record p {
  p_msg = 0;
  has_int_msg = 0;
  p_flags = clear_flag p.p_flags receiving;
  p_recvfrom = no_task;
}

-- `inform_int`. It writes the message through the task's own address, without `va2la`.
unfoldable pub inform_int : ℕ → Cmd (Unit {0})
unfolding informed unblock assert_idle
inform_int task = do
  p ← proc task
  if has_flag p.p_flags receiving && (p.p_recvfrom == interrupt || p.p_recvfrom == any)
      then (do
        store_int p.p_msg interrupt
        store_int (p.p_msg + 4) hard_int
        put task (informed p)
        unblock task
        assert_idle task)
      else put task (record p { has_int_msg = 1 })
