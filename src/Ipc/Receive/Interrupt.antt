-- ===== src/Ipc/Receive/Interrupt.antt =====
-- Interrupts as messages: `inform_int`, and `msg_receive` where one is pending.
use oscourse_project.Base.{
  ℕ, ◌+◌, ◌^◌, ◌<◌, ◌≡◌, ◌≢◌, refl, ◌∙◌, Bool, true, false, ◌&&◌, ◌||◌, arith, ◌⊎◌, inl, inr, ◌==◌,
  Bool-cases, has_flag, clear_flag, List, elem,
}
use oscourse_project.Proc.{Proc, Kernel, write, receiving, nr_slots, any, interrupt, hard_int}
use oscourse_project.Run.{ok, stop, Stop}
use oscourse_project.Segment.{store_int, poke_int, load_int}
use oscourse_project.Segment.Laws.{load_int-poke_int, load_int-poke_int_apart}
use oscourse_project.Schedule.Choice.{Runnable, IsPositive, schedule_picks}
use oscourse_project.Ipc.Receive.{inform_int, informed, msg_receive, receive_message}
use oscourse_project.Ipc.Invariant.{IsIpc, IsReceiving}
use oscourse_project.Ipc.Revise.{revised-IsIpc, informed-IsRevised, pending-IsRevised}
use oscourse_project.Ipc.Receive.Await.{awaiting, await-stops}
use oscourse_project.Ipc.Receive.Pick.{pick_nothing}
use oscourse_project.Ipc.Send.Deliver.{IsIdle}

-- The task waits for an interrupt.
abbrev pub waits_for_interrupt : Proc → Bool
waits_for_interrupt p =
    has_flag p.p_flags receiving && (p.p_recvfrom == interrupt || p.p_recvfrom == any)

-- Memory with the message of an interrupt in the buffer at `a`.
unfoldable pub interrupt_message : (ℕ → ℕ) → ℕ → ℕ → ℕ
interrupt_message mem a = poke_int (poke_int mem a interrupt) (a + 4) hard_int

-- The source and the type of that message.
load-interrupt_message :
    (mem : ℕ → ℕ) (a : ℕ)
    → (load_int (interrupt_message mem a) a ≡ interrupt)
      × (load_int (interrupt_message mem a) (a + 4) ≡ hard_int)
unfolding interrupt_message
load-interrupt_message mem a = (
  load_int-poke_int_apart (poke_int mem a interrupt) (a + 4) a hard_int (inl (omega arith))
      ∙ load_int-poke_int mem a interrupt (omega arith),
  load_int-poke_int (poke_int mem a interrupt) (a + 4) hard_int (omega arith),
)

module _ (k : Kernel) {q : ℕ → List ℕ} (w : IsIpc k.table q) (task : ℕ)
    (task_in : task < nr_slots) where
  -- `inform_int` ends, and keeps the invariant. If the task waits for an interrupt (and for nothing
  -- but messages), its entry is that of a task which has its message, and it may run; otherwise the
  -- interrupt is noted in its entry and nothing else changes.
  pub inform_int_lem :
      (IsReceiving k.table task true → (k.table task).p_flags ≡ receiving)
      → (k' : Kernel) × (inform_int task k ≡ ok tt k')
        × IsIpc k'.table q
        × ((waits_for_interrupt (k.table task) ≡ true)
              × (k' ≡ record k {
                mem = interrupt_message k.mem (k.table task).p_msg;
                table = write k.table task (informed (k.table task));
              })
            ⊎ (waits_for_interrupt (k.table task) ≡ false)
              × (k' ≡ record k {
                table = write k.table task (record (k.table task) { has_int_msg = 1 });
              }))
  unfolding inform_int
  inform_int_lem only = elim (Bool-cases (waits_for_interrupt (k.table task))) [
    | inl met ↦
        let s = w.settled task task_in in
        let (nz, r, to) = s.receiver (ground arith) in
        let f = only (ground arith) in
        (
          record k {
            mem = interrupt_message k.mem (k.table task).p_msg;
            table = write k.table task (informed (k.table task));
          },
          rw met (unfold store_int write informed clear_flag interrupt_message in ground arith),
          revised-IsIpc w task _ (informed-IsRevised (k.table task) f to),
          inl (met, refl),
        )
    | inr unmet ↦ (
      record k { table = write k.table task (record (k.table task) { has_int_msg = 1 }) },
      rw unmet,
      revised-IsIpc w task _ (pending-IsRevised (k.table task) 1 (w.settled task task_in)),
      inr (unmet, refl),
    )
  ]

module _ (k : Kernel) {q : ℕ → List ℕ} (w : IsIpc k.table q) (who src m : ℕ)
    (who_in : who < nr_slots) (other : who ≢ src) (idle : IsIdle k.table who) (nz : m ≢ 0)
    (small : m < 2 ^ 32) (pending : (k.table who).has_int_msg ≢ 0) where
  -- A call of `msg_receive` by a process for which an interrupt is pending, and which asks for a
  -- process that is not sending to it, stops the machine at a failed assertion.
  pub msg_receive_stops :
      (i : ℕ)
      → Runnable k.table i
      → i ≢ who
      → IsPositive (k.table i).priority
      → src < nr_slots
      → elem src (q who) ≡ false
      → msg_receive who src m k ≡ stop Stop.assertion
  unfolding msg_receive receive_message
  msg_receive_stops i run ne pos in_table out =
      let j : Kernel = record k { table = awaiting k.table who src m } in
      let same : awaiting k.table who src m i ≡ k.table i = unfold write in ground arith in
      let (k', e, s) = schedule_picks j i (run.0, rw same run.1) (rw same pos) in
      ground (
        arith,
        pick_nothing k w who who_in idle src (omega arith) out,
        await-stops k who src m idle nz (omega arith) pending e s,
      )
