-- ===== src/Ipc/Receive/Total.antt =====
-- What `msg_receive` does when no interrupt is pending, on each branch.
use oscourse_project.Base.{
  ℕ, ◌^◌, ◌<◌, ◌≡◌, ◌≢◌, refl, sym, subst, true, false, arith, ◌⊎◌, inl, inr, Bool-cases, ==-self,
  Option, none, some, List, [], ◌∷◌, elem,
}
use oscourse_project.Proc.{Kernel, write, no_task, nr_slots, any, interrupt}
use oscourse_project.Run.{ok}
use oscourse_project.Schedule.Choice.{Switched, Runnable, IsPositive, schedule_picks}
use oscourse_project.Ipc.Receive.{msg_receive, receive_message, pick}
use oscourse_project.Ipc.Chain.{IsChain, links}
use oscourse_project.Ipc.Invariant.{IsIpc, IsIpc-Untimed}
use oscourse_project.Ipc.Send.Deliver.{IsIdle}
use oscourse_project.Ipc.Receive.Take.{taken, take_message-ok, Found}
use oscourse_project.Ipc.Receive.TakeInvariant.{pull, relieved, relieved-IsIpc}
use oscourse_project.Ipc.Receive.Await.{awaiting, await-ok, awaiting-IsIpc}
use oscourse_project.Ipc.Receive.Pick.{pick-any_empty, pick-any_head, pick_from_queue, pick_nothing}

-- The sender `from` is in the queue, and is the one that `src` asks for: the first of the queue
-- where anybody will do.
abbrev pub Picked : (queue : List ℕ) → (src from : ℕ) → Type 0
Picked queue src from =
    (x : ℕ) × (xs : List ℕ) × (queue ≡ x ∷ xs)
    × (elem from (x ∷ xs) ≡ true)
    × ((src ≡ any) × (from ≡ x) ⊎ (src ≡ from))

-- The message of `from` has been taken: `from` is out of the queue and may run.
abbrev pub Taken : Kernel → (q : ℕ → List ℕ) → (who src m : ℕ) → Kernel → Type 0
Taken k q who src m k' =
    (from : ℕ) × (p : Picked (q who) src from) × (k' ≡ taken k who from p.0 p.1 m)
    × IsIpc k'.table (pull q who from)

-- No sender in the queue is one that `src` asks for, the receiver is blocked, and another runs.
abbrev pub Awaiting : Kernel → (q : ℕ → List ℕ) → (who src m : ℕ) → Kernel → Type 0
Awaiting k q who src m k' =
    ((a : ℕ) → elem a (q who) ≡ true → (src ≢ any) × (src ≢ a))
    × Switched (record k { table = awaiting k.table who src m }) k'
    × IsIpc k'.table q

-- A call of `msg_receive` by a process that may receive.
pub record MayReceive (k : Kernel) (who src m : ℕ) : Type 0 where
  pub who_in : who < nr_slots
  pub other : who ≢ src
  pub idle : IsIdle k.table who
  pub message : m ≢ 0
  pub pointer : m < 2 ^ 32
  pub source : (src < nr_slots) ⊎ (src ≡ any) ⊎ (src ≡ interrupt)
  pub quiet : (k.table who).has_int_msg ≡ 0

module _ (k : Kernel) {q : ℕ → List ℕ} (w : IsIpc k.table q) (who src m : ℕ)
    (call : MayReceive k who src m) where
  take_picked :
      (from x : ℕ) (xs : List ℕ) {prev : Option ℕ}
      → (e : q who ≡ x ∷ xs) → (mem : elem from (x ∷ xs) ≡ true)
      → ((src ≡ any) × (from ≡ x) ⊎ (src ≡ from))
      → pick who src k ≡ ok (some (from, prev)) k
      → Found from x xs prev
      → (k' : Kernel) × (receive_message who src m k ≡ ok tt k') × Taken k q who src m k'
  unfolding receive_message taken relieved
  take_picked from x xs {prev} e mem fits picked found =
      let (l, out, to) = w.sound who from call.who_in (rw e mem) in
      let s = w.settled from l in
      let (f, nz, r, inside) = s.sender out in
      let c =
        subst (λ (b : List ℕ). IsChain (links k.table) (k.table who).q_sending b) e
          (w.chain who call.who_in) in
      let go =
        take_message-ok k who from x m xs w.flat c.0 found f nz s.pointer call.message
          call.pointer in
      (
        taken k who from x xs m,
        ground (arith, picked, go),
        (from, (x, xs, e, mem, fits), refl, relieved-IsIpc w who from x xs call.who_in e mem),
      )

  -- The receiver is blocked, if another process may run.
  await_nobody :
      (i : ℕ)
      → Runnable k.table i
      → i ≢ who
      → IsPositive (k.table i).priority
      → src ≢ no_task
      → ((a : ℕ) → elem a (q who) ≡ true → (src ≢ any) × (src ≢ a))
      → pick who src k ≡ ok none k
      → (k' : Kernel) × (receive_message who src m k ≡ ok tt k') × Awaiting k q who src m k'
  unfolding receive_message
  await_nobody i run ne pos real nobody picked =
      let j : Kernel = record k { table = awaiting k.table who src m } in
      let same : awaiting k.table who src m i ≡ k.table i = unfold write in ground arith in
      let (k', e, s) = schedule_picks j i (run.0, rw same run.1) (rw same pos) in
      (
        k',
        ground (arith, picked, await-ok k who src m call.idle call.message real call.quiet e s),
        (
          nobody,
          s,
          IsIpc-Untimed s.same
              (awaiting-IsIpc w who src m call.idle call.message call.pointer real nobody),
        ),
      )

  module _ (i : ℕ) (run : Runnable k.table i) (ne : i ≢ who)
      (pos : IsPositive (k.table i).priority) where
    Outcome : Type 0
    Outcome =
        (k' : Kernel) × (receive_message who src m k ≡ ok tt k')
        × (Taken k q who src m k' ⊎ Awaiting k q who src m k')

    from_absent : src ≢ any → src ≢ no_task → elem src (q who) ≡ false → Outcome
    unfolding Outcome
    from_absent na real out =
        let (k', e, h) =
          await_nobody i run ne pos real
            (λ a m.
              (na, λ s. absurd (cc (subst (λ (b : ℕ). elem b (q who) ≡ true) (sym s) m, out))))
            (pick_nothing k w who call.who_in call.idle src na out) in
        (k', e, inr h)

    from_process : (xs : List ℕ) → q who ≡ xs → src < nr_slots → Outcome
    unfolding Outcome
    from_process xs e small = elim (Bool-cases (elem src xs)) [
      | inl here ↦ in_queue xs e here
      | inr gone ↦ from_absent (ground arith) (ground arith) (rw e gone)
    ]
      where
        in_queue : (ys : List ℕ) → q who ≡ ys → elem src ys ≡ true → Outcome
        in_queue [] e here = cc
        in_queue (y ∷ ys) e here =
            let (prev, p, f) =
              pick_from_queue k w who call.who_in call.idle src y ys small e here in
            let (k', r, h) = take_picked src y ys e here (inr refl) p f in (k', r, inl h)

    from_anybody : (xs : List ℕ) → q who ≡ xs → src ≡ any → Outcome
    unfolding Outcome
    from_anybody [] e s =
        let (k', r, h) =
          await_nobody i run ne pos (ground arith) (λ a m. absurd (cc (rw e at m)))
            (rw s (pick-any_empty k w who call.who_in call.idle e)) in
        (k', r, inr h)
    from_anybody (x ∷ xs) e s =
        let (k', r, h) =
          take_picked x x xs {prev = none} e (ground arith) (inl (s, refl))
            (rw s (pick-any_head k w who call.who_in call.idle x xs e)) (rw (==-self x)) in
        (k', r, inl h)

    from_hardware : src ≡ interrupt → Outcome
    from_hardware s =
        from_absent (ground arith) (ground arith) (elim (Bool-cases (elem src (q who))) [
          | inl m ↦ absurd (omega (arith, (w.sound who src call.who_in m).0))
          | inr out ↦ out
        ])

    received_from : (src < nr_slots) ⊎ (src ≡ any) ⊎ (src ≡ interrupt) → Outcome
    received_from (inl small) = from_process (q who) refl small
    received_from (inr (inl s)) = from_anybody (q who) refl s
    received_from (inr (inr s)) = from_hardware s

    -- A call of `msg_receive` by a process with no interrupt pending ends with 0 in one of two ways,
    -- and both keep the invariant. If a sender that it asks for stands in its queue, that sender's
    -- message is taken (the first sender's, if anybody will do) and the sender leaves the queue and
    -- may run. Otherwise no sender that it asks for stands there, and it is blocked. That another
    -- process may run and has a positive priority is assumed.
    pub msg_receive_lem :
        (k' : Kernel) × (msg_receive who src m k ≡ ok 0 k')
        × (Taken k q who src m k' ⊎ Awaiting k q who src m k')
    unfolding msg_receive Outcome
    msg_receive_lem =
        let (k', e, h) = received_from call.source in
        (k', ground (arith, call.other, call.quiet, e), h)
