-- ===== src/Ipc/Receive/Await.antt =====
-- `msg_receive` where nobody sends: the receiver is blocked.
use oscourse_project.Base.{
  ℕ, ◌^◌, ◌<◌, ◌≡◌, ◌≢◌, refl, sym, ◌∙◌, ap, fun_ext, true, arith, has_flag, set_flag, List, elem,
}
use oscourse_project.Proc.{Proc, Table, Kernel, write, receiving, sending, no_task, nr_slots, any}
use oscourse_project.Run.{ok, stop, Stop}
use oscourse_project.Schedule.{schedule}
use oscourse_project.Schedule.Choice.{Switched}
use oscourse_project.Ipc.Receive.{await, blocked_receiver}
use oscourse_project.Ipc.Chain.{links}
use oscourse_project.Ipc.Acyclic.{SameWait, Walk-frame}
use oscourse_project.Ipc.Invariant.{IsIpc, IsSettled, write-cases}
use oscourse_project.Ipc.Send.Deliver.{IsIdle}

-- The table with `who` blocked until `src` sends.
abbrev pub awaiting : Table → (who src m : ℕ) → Table
awaiting t who src m = write t who (blocked_receiver src m (t who))

set_from_idle : (p : Proc) → p.p_flags ≡ 0 → (set_flag p.p_flags receiving ≡ receiving)
unfolding set_flag has_flag
set_from_idle p e = ground arith

module _ (k : Kernel) (who src m : ℕ) (idle : IsIdle k.table who) (nz : m ≢ 0)
    (real : src ≢ no_task) (no_int : (k.table who).has_int_msg ≡ 0) where
  -- If the scheduler finds another process to run, the branch ends, in the kernel that it leaves.
  pub await-ok :
      {k' : Kernel}
      → schedule (record k { table = awaiting k.table who src m }) ≡ ok tt k'
      → Switched (record k { table = awaiting k.table who src m }) k'
      → await who src m k ≡ ok tt k'
  unfolding await write
  await-ok {k'} e s = ground (
    arith,
    set_from_idle (k.table who) idle.0,
    ap (λ (p : Proc). p.p_flags) (s.same who),
    ap (λ (p : Proc). p.p_msg) (s.same who),
    ap (λ (p : Proc). p.p_recvfrom) (s.same who),
    ap (λ (p : Proc). p.p_sendto) (s.same who),
    ap (λ (p : Proc). p.has_int_msg) (s.same who),
  )

module _ (k : Kernel) (who src m : ℕ) (idle : IsIdle k.table who) (nz : m ≢ 0)
    (real : src ≢ no_task) (pending : (k.table who).has_int_msg ≢ 0) where
  -- With an interrupt pending, the last assertion of the branch fails.
  pub await-stops :
      {k' : Kernel}
      → schedule (record k { table = awaiting k.table who src m }) ≡ ok tt k'
      → Switched (record k { table = awaiting k.table who src m }) k'
      → await who src m k ≡ stop Stop.assertion
  unfolding await write
  await-stops {k'} e s = ground (
    arith,
    set_from_idle (k.table who) idle.0,
    ap (λ (p : Proc). p.p_flags) (s.same who),
    ap (λ (p : Proc). p.p_msg) (s.same who),
    ap (λ (p : Proc). p.p_recvfrom) (s.same who),
    ap (λ (p : Proc). p.p_sendto) (s.same who),
    ap (λ (p : Proc). p.has_int_msg) (s.same who),
  )

module _ {t : Table} {q : ℕ → List ℕ} (w : IsIpc t q) (who src m : ℕ) (idle : IsIdle t who)
    (nz : m ≢ 0) (small : m < 2 ^ 32) (real : src ≢ no_task)
    (nobody : (a : ℕ) → elem a (q who) ≡ true → (src ≢ any) × (src ≢ a)) where
  blocked-IsSettled : IsSettled (blocked_receiver src m (t who))
  unfolding blocked_receiver
  blocked-IsSettled =
      let e = set_from_idle (t who) idle.0 in
      record {
        idle = λ z. absurd (omega arith);
        sender = λ z. absurd (unfold has_flag in ground arith);
        receiver = λ z. (nz, real, idle.3);
        pointer = small;
      }

  awaiting-SameWait : (i : ℕ) → SameWait t (awaiting t who src m) i
  awaiting-SameWait =
      write-cases
        (λ i p.
          (has_flag p.p_flags sending ≡ has_flag (t i).p_flags sending)
          × (p.p_sendto ≡ (t i).p_sendto))
        t who (blocked_receiver src m (t who))
        (unfold blocked_receiver has_flag set_flag in ground arith) (λ j ne. (refl, refl))

  awaiting-links : links (awaiting t who src m) ≡ links t
  unfolding blocked_receiver
  awaiting-links = fun_ext (
      write-cases (λ i p. p.next_sending ≡ (t i).next_sending) t who
        (blocked_receiver src m (t who)) refl (λ j ne. refl))

  awaiting-head : (i : ℕ) → (awaiting t who src m i).q_sending ≡ (t i).q_sending
  unfolding blocked_receiver
  awaiting-head =
      write-cases (λ i p. p.q_sending ≡ (t i).q_sending) t who (blocked_receiver src m (t who)) refl
        (λ j ne. refl)

  awaiting-segment : (i : ℕ) → (awaiting t who src m i).ldt_rw ≡ (t i).ldt_rw
  unfolding blocked_receiver
  awaiting-segment =
      write-cases (λ i p. p.ldt_rw ≡ (t i).ldt_rw) t who (blocked_receiver src m (t who)) refl
        (λ j ne. refl)

  -- The invariant with the receiver blocked: no sender that it asks for stands in its queue.
  pub awaiting-IsIpc : IsIpc (awaiting t who src m) q
  awaiting-IsIpc = record {
    settled =
        write-cases (λ i p. i < nr_slots → IsSettled p) t who (blocked_receiver src m (t who))
          (λ h. blocked-IsSettled) (λ j ne h. w.settled j h);
    chain = λ i h. rw (awaiting-links, awaiting-head i) (w.chain i h);
    distinct = w.distinct;
    sound = λ i s h e.
        let (l, out, to) = w.sound i s h e in
        (l, (awaiting-SameWait s).0 ∙ out, (awaiting-SameWait s).1 ∙ to);
    complete =
        λ s h e. rw ((awaiting-SameWait s).1) (w.complete s h (sym (awaiting-SameWait s).0 ∙ e));
    unmatched = λ i s h.
        write-cases
          (λ j p.
            j < nr_slots
            → has_flag p.p_flags receiving ≡ true
            → elem s (q j) ≡ true
            → (p.p_recvfrom ≢ any) × (p.p_recvfrom ≢ s))
          t who (blocked_receiver src m (t who)) (λ h r e. unfold blocked_receiver in nobody s e)
          (λ j ne h r e. w.unmatched j s h r e) i h;
    acyclic = λ i h.
        let (xs, v) = w.acyclic i h in
        (xs, Walk-frame (awaiting t who src m) v (λ b e. awaiting-SameWait b));
    flat = λ i h. rw (awaiting-segment i) (w.flat i h);
  }
