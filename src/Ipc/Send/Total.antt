-- ===== src/Ipc/Send/Total.antt =====
-- What `msg_send` does, on each branch.
use oscourse_project.Base.{
  ℕ, zero, suc, ◌^◌, ◌<◌, ◌≤◌, ◌≡◌, ◌≢◌, refl, sym, ◌∙◌, subst, ap, true, false, arith, ◌⊎◌, inl,
  inr, ◌==◌, Bool-cases, List, length, length_le_of_Distinct, ne→==, lt→ltb,
}
use oscourse_project.Proc.{Proc, Kernel, receiving, nr_slots}
use oscourse_project.Run.{ok, stop, Stop, in_table}
use oscourse_project.Schedule.Choice.{Switched, Runnable, IsPositive, schedule_picks}
use oscourse_project.Ipc.Deadlock.{deadlock, follow, print_chain, walk_fuel}
use oscourse_project.Ipc.Send.{msg_send, deliver, enqueue, waits_for}
use oscourse_project.Ipc.Walk.{
  Walk, stops, goes, WaitsOn, reaches, follow-reaches, length-Walk, WaitsOn-of_reaches,
  reaches_of_WaitsOn, IsSending,
}
use oscourse_project.Ipc.Invariant.{IsIpc, IsReceiving, IsIpc-Untimed}
use oscourse_project.Ipc.Send.Deliver.{IsIdle, IsAwaiting, delivered, deliver-ok}
use oscourse_project.Ipc.Revise.{revised-IsIpc, received-IsRevised}
use oscourse_project.Ipc.Send.Enqueue.{queued, enqueue-ok}
use oscourse_project.Ipc.Send.EnqueueChain.{push, queued_other}
use oscourse_project.Ipc.Send.EnqueueInvariant.{queued-IsIpc}

-- The receiver has the message and may run; the queues are as they were.
abbrev pub Handed : Kernel → (q : ℕ → List ℕ) → (sender dest m : ℕ) → Kernel → Type 0
Handed k q sender dest m k' =
    (waits_for (k.table dest) sender ≡ true) × (k' ≡ delivered k sender dest m) × IsIpc k'.table q

-- The sender stands behind the others in the receiver's queue, and another process runs.
abbrev pub Queued : Kernel → (q : ℕ → List ℕ) → (sender dest m : ℕ) → Kernel → Type 0
Queued k q sender dest m k' =
    (waits_for (k.table dest) sender ≡ false)
    × Switched (record k { table = queued k.table sender dest m (q dest) }) k'
    × IsIpc k'.table (push q dest sender)

-- A call of `msg_send` by a process that may send: it runs, it names another process and a message,
-- and the receiver waits for nothing but messages.
pub record MaySend (k : Kernel) (sender dest m : ℕ) : Type 0 where
  pub sender_in : sender < nr_slots
  pub dest_in : dest < nr_slots
  pub other : sender ≢ dest
  pub idle : IsIdle k.table sender
  pub message : m ≢ 0
  pub pointer : m < 2 ^ 32
  pub only_messages : IsReceiving k.table dest true → (k.table dest).p_flags ≡ receiving

module _ (k : Kernel) {q : ℕ → List ℕ} (w : IsIpc k.table q) where
  -- The loop of `deadlock` tells whether the receiver waits, in turn, for the sender.
  follow-WaitsOn :
      (src dest : ℕ)
      → dest < nr_slots
      → (WaitsOn k.table src dest × (follow walk_fuel src dest k ≡ ok true k))
        ⊎ (¬ WaitsOn k.table src dest) × (follow walk_fuel src dest k ≡ ok false k)
  follow-WaitsOn src dest h =
      let (xs, v) = w.acyclic dest h in
      let e = follow-reaches walk_fuel src k v (omega (arith, length-Walk v)) in
      elim (Bool-cases (reaches k.table src xs)) [
        | inl hit ↦ inl (WaitsOn-of_reaches src v hit, rw hit at e)
        | inr miss ↦ inr (λ on. absurd (cc (reaches_of_WaitsOn src v refl on)), rw miss at e)
      ]

  length-queue : (i : ℕ) → i < nr_slots → length (q i) ≤ nr_slots
  length-queue i h =
      length_le_of_Distinct nr_slots (q i) (w.distinct i h) (λ a m. (w.sound i a h m).0)

  deadlock-free :
      (src dest : ℕ)
      → dest < nr_slots
      → ¬ WaitsOn k.table src dest
      → deadlock src dest k ≡ ok false k
  unfolding deadlock
  deadlock-free src dest h clear = elim (follow-WaitsOn src dest h) [
    | inl (on, e) ↦ absurd (clear on)
    | inr (off, e) ↦ ground arith
  ]

  module _ (sender dest m : ℕ) (call : MaySend k sender dest m)
      (clear : ¬ WaitsOn k.table sender dest) where
    send_waiting :
        waits_for (k.table dest) sender ≡ true
        → (k' : Kernel) × (deliver sender dest m k ≡ ok tt k') × Handed k q sender dest m k'
    unfolding delivered
    send_waiting met =
        let s = w.settled dest call.dest_in in
        let (nz, r, to) = s.receiver (ground arith) in
        let a : IsAwaiting k.table dest = (call.only_messages (ground arith), nz, to) in
        (
          delivered k sender dest m,
          deliver-ok k sender dest m w.flat call.other call.idle a s.pointer call.message
              call.pointer,
          (met, refl, revised-IsIpc w dest _ (received-IsRevised (k.table dest) a.0 a.2)),
        )

    send_later :
        (i : ℕ)
        → Runnable k.table i
        → i ≢ sender
        → IsPositive (k.table i).priority
        → waits_for (k.table dest) sender ≡ false
        → (k' : Kernel) × (enqueue sender dest m k ≡ ok tt k') × Queued k q sender dest m k'
    send_later i run other pos unmet =
        let j : Kernel = record k { table = queued k.table sender dest m (q dest) } in
        let (xs, v) = w.acyclic dest call.dest_in in
        let same = queued_other k.table sender dest m (q dest) i other in
        let (k', e, s) =
          schedule_picks j i (run.0, ap (λ (p : Proc). p.p_flags) same ∙ run.1)
            (rw (ap (λ (p : Proc). p.priority) same) pos) in
        (
          k',
          enqueue-ok k sender dest m (q dest) call.idle call.message (w.chain dest call.dest_in)
              (length-queue dest call.dest_in) call.other e s,
          (
            unmet,
            s,
            IsIpc-Untimed s.same (
                queued-IsIpc w sender dest m call.sender_in call.dest_in call.idle.0 (ground arith)
                  xs call.idle.2 call.message call.pointer unmet v (free xs v)),
          ),
        )
      where
        free : (xs : List ℕ) → Walk k.table dest xs → reaches k.table sender xs ≡ false
        free xs v = elim (Bool-cases (reaches k.table sender xs)) [
          | inl hit ↦ absurd (clear (WaitsOn-of_reaches sender v hit))
          | inr miss ↦ miss
        ]

    -- A call of `msg_send` whose receiver does not itself wait, in turn, for the sender ends with 0
    -- in one of two ways, and both keep the invariant. If the receiver waits for this sender or for
    -- anybody, it gets the message and may run, and the queues stay. Otherwise the sender stands
    -- last in the receiver's queue and another process is chosen to run; that another one may run
    -- and has a positive priority is assumed.
    pub msg_send_lem :
        (i : ℕ)
        → Runnable k.table i
        → i ≢ sender
        → IsPositive (k.table i).priority
        → (k' : Kernel) × (msg_send sender dest m k ≡ ok 0 k')
          × (Handed k q sender dest m k' ⊎ Queued k q sender dest m k')
    unfolding msg_send
    msg_send_lem i run other pos = elim (Bool-cases (waits_for (k.table dest) sender)) [
      | inl met ↦
          let (k', e, h) = send_waiting met in
          (k', ground (arith, deadlock-free sender dest call.dest_in clear, call.other), inl h)
      | inr unmet ↦
          let (k', e, h) = send_later i run other pos unmet in
          (k', ground (arith, deadlock-free sender dest call.dest_in clear, call.other), inr h)
    ]

-- The loop that prints a circle ends, if every process on the way has a message.
print_chain-ok :
    (n src : ℕ) (k : Kernel) {i : ℕ} {xs : List ℕ}
    → ((j : ℕ)
        → j < nr_slots
        → IsSending k.table j true
        → ((k.table j).p_msg ≢ 0) × ((k.table j).p_sendto < nr_slots))
    → Walk k.table i xs
    → reaches k.table src xs ≡ true
    → length xs < n
    → print_chain n src i k ≡ ok tt k
unfolding print_chain
print_chain-ok zero src k good w r h = absurd (omega arith)
print_chain-ok (suc n) src k good (stops {i} p s) r h = absurd (ground arith)
print_chain-ok (suc n) src k good (goes {i} {j} {xs} p s f w) r h =
    let (nz, inside) = good i p s in
    elim (Bool-cases ((k.table i).p_sendto == src)) [
      | inl hit ↦
          rw (ne→== (k.table i).p_msg 0 nz, hit)
            (rw (lt→ltb (k.table i).p_sendto nr_slots inside, in_table))
      | inr miss ↦
          let rest = print_chain-ok n src k good w (ground arith) (omega arith) in
          ground (
            arith,
            lt→ltb (k.table i).p_sendto nr_slots inside,
            subst (λ (a : ℕ). print_chain n src a k ≡ ok tt k) (sym f) rest,
          )
    ]

module _ (k : Kernel) {q : ℕ → List ℕ} (w : IsIpc k.table q) where
  -- A call of `msg_send` whose receiver waits, in turn, for the sender stops the machine with the
  -- panic for a deadlock.
  pub msg_send_deadlock :
      (sender dest m : ℕ)
      → dest < nr_slots
      → sender ≢ dest
      → WaitsOn k.table sender dest
      → msg_send sender dest m k ≡ stop Stop.panic
  unfolding msg_send deadlock
  msg_send_deadlock sender dest m h ne on =
      let (xs, v) = w.acyclic dest h in
      let r = reaches_of_WaitsOn sender v refl on in
      let f = follow-reaches walk_fuel sender k v (omega (arith, length-Walk v)) in
      ground (
        arith,
        f,
        print_chain-ok walk_fuel sender k
            (λ j l s. (((w.settled j l).sender s).1, ((w.settled j l).sender s).3)) v r
            (omega (arith, length-Walk v)),
      )
