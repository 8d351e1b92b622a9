-- ===== src/Ipc/Send/EnqueueInvariant.antt =====
-- A blocked sender keeps the invariant, and stands at the end of its receiver's abstract queue.
use oscourse_project.Base.{
  ℕ, ◌^◌, ◌<◌, ◌≡◌, ◌≢◌, refl, sym, ◌∙◌, subst, ap, true, false, arith, ◌⊎◌, inl, inr, ◌==◌,
  Bool-cases, ==→eq, has_flag, set_flag, List, [], ◌∷◌, elem, Distinct, elem-append, Distinct-snoc,
}
use oscourse_project.Proc.{Proc, Table, write, receiving, sending, no_task, nr_slots, any}
use oscourse_project.Ipc.Send.{blocked_sender, waits_for}
use oscourse_project.Ipc.Chain.{elem_ne}
use oscourse_project.Ipc.Walk.{IsSending, Walk, reaches}
use oscourse_project.Ipc.Acyclic.{SameWait, IsAcyclic-block}
use oscourse_project.Ipc.Invariant.{
  IsIpc, IsSettled, IsReceiving, write-cases, IsSettled-of_Unlinked,
}
use oscourse_project.Ipc.Send.Enqueue.{waiting_table, queued}
use oscourse_project.Ipc.Send.EnqueueChain.{
  push, queued-Unlinked, blocked-IsSettled, not_queued, IsChain-queued,
}

module _ {t : Table} {q : ℕ → List ℕ} (w : IsIpc t q) (s d m : ℕ) (s_in : s < nr_slots)
    (d_in : d < nr_slots) (s_idle : (t s).p_flags ≡ 0) (ne : d ≢ s) where
  out_of_queues : (i : ℕ) → i < nr_slots → elem s (q i) ≡ false
  out_of_queues i h = not_queued w s d m s_in d_in s_idle ne i h

  -- A member of the new queues is an old one, or the sender in its receiver's.
  push_cases : (a i : ℕ) → elem a (push q d s i) ≡ true → (elem a (q i) ≡ true) ⊎ (a ≡ s) × (i ≡ d)
  unfolding push
  push_cases a i mem = ground (arith, elem-append a (q i) (s ∷ []))

  elem-push_old : (a i : ℕ) → elem a (q i) ≡ true → elem a (push q d s i) ≡ true
  unfolding push
  elem-push_old a i mem = ground (arith, elem-append a (q i) (s ∷ []))

  elem-push_new : elem s (push q d s d) ≡ true
  unfolding push
  elem-push_new = ground (arith, elem-append s (q d) (s ∷ []))

  push-Distinct : (i : ℕ) → i < nr_slots → Distinct (push q d s i)
  unfolding push
  push-Distinct i h = elim (Bool-cases (d == i)) [
    | inl hit ↦ rw hit (Distinct-snoc s (q i) (w.distinct i h) (out_of_queues i h))
    | inr miss ↦ rw miss (w.distinct i h)
  ]

  old_ne : (a i : ℕ) → i < nr_slots → elem a (q i) ≡ true → a ≢ s
  old_ne a i h mem = elem_ne a s (q i) mem (out_of_queues i h)

  -- Where the sender's message fields are those of a blocked sender, all others' are as before.
  waits_queued : (xs : List ℕ) (i : ℕ) → i ≢ s → SameWait t (queued t s d m xs) i
  waits_queued xs i other =
      let e = queued-Unlinked t s d m xs i in
      let b : waiting_table t s d m i ≡ t i = unfold write in ground arith in
      (
        ap (λ (p : Proc). has_flag p.p_flags sending) e
            ∙ ap (λ (p : Proc). has_flag p.p_flags sending) b,
        ap (λ (p : Proc). p.p_sendto) e ∙ ap (λ (p : Proc). p.p_sendto) b,
      )

  waits_own :
      (xs : List ℕ) → IsSending (queued t s d m xs) s true × ((queued t s d m xs s).p_sendto ≡ d)
  waits_own xs =
      let e = queued-Unlinked t s d m xs s in
      let b : waiting_table t s d m s ≡ blocked_sender d m (t s) = unfold write in ground arith in
      let f : has_flag (blocked_sender d m (t s)).p_flags sending ≡ true =
        unfold blocked_sender has_flag set_flag in ground arith in
      let g : (blocked_sender d m (t s)).p_sendto ≡ d = unfold blocked_sender in refl in
      (
        ap (λ (p : Proc). has_flag p.p_flags sending) e
            ∙ ap (λ (p : Proc). has_flag p.p_flags sending) b
            ∙ f,
        ap (λ (p : Proc). p.p_sendto) e ∙ ap (λ (p : Proc). p.p_sendto) b ∙ g,
      )

  receives_queued :
      (xs : List ℕ) (i : ℕ)
      → IsReceiving (queued t s d m xs) i true
      → IsReceiving t i true × ((queued t s d m xs i).p_recvfrom ≡ (t i).p_recvfrom)
  receives_queued xs i r =
      let e = queued-Unlinked t s d m xs i in
      let r' : has_flag (waiting_table t s d m i).p_flags receiving ≡ true =
        sym (ap (λ (p : Proc). has_flag p.p_flags receiving) e) ∙ r in
      (
        unfold write blocked_sender has_flag set_flag in ground arith,
        ap (λ (p : Proc). p.p_recvfrom) e ∙ (unfold write blocked_sender in ground arith),
      )

  -- The invariant after a sender has been blocked, with the sender at the end of the queue.
  pub queued-IsIpc :
      (ds : List ℕ)
      → (t s).p_recvfrom ≡ no_task
      → m ≢ 0
      → m < 2 ^ 32
      → waits_for (t d) s ≡ false
      → Walk t d ds
      → reaches t s ds ≡ false
      → IsIpc (queued t s d m (q d)) (push q d s)
  queued-IsIpc ds r nz small unmet walk free = record {
    settled = λ i h. IsSettled-of_Unlinked (queued-Unlinked t s d m (q d) i) (
        write-cases (λ j p. j < nr_slots → IsSettled p) t s (blocked_sender d m (t s))
          (λ h. blocked-IsSettled t s d m s_idle r d_in nz small) (λ j o h. w.settled j h) i h);
    chain = IsChain-queued w s d m s_in d_in s_idle ne (q d) refl;
    distinct = push-Distinct;
    sound = λ i a h mem. sound i a h (push_cases a i mem);
    complete = complete;
    unmatched = λ i a h rec mem. unmatched i a h rec (push_cases a i mem);
    acyclic =
        IsAcyclic-block {t = t} (waits_queued (q d)) s_in (unfold has_flag in ground arith)
          (waits_own (q d)).0 (waits_own (q d)).1 ne walk free w.acyclic;
    flat = λ i h.
        let e = queued-Unlinked t s d m (q d) i in
        let b : (waiting_table t s d m i).ldt_rw ≡ (t i).ldt_rw =
          unfold write blocked_sender in ground arith in
        rw (ap (λ (p : Proc). p.ldt_rw) e, b) (w.flat i h);
  }
    where
      sound :
          (i a : ℕ)
          → i < nr_slots
          → (elem a (q i) ≡ true) ⊎ (a ≡ s) × (i ≡ d)
          → (a < nr_slots)
            × IsSending (queued t s d m (q d)) a true
            × ((queued t s d m (q d) a).p_sendto ≡ i)
      sound i a h (inl old) =
          let (l, u, to) = w.sound i a h old in
          let same = waits_queued (q d) a (old_ne a i h old) in (l, same.0 ∙ u, same.1 ∙ to)
      sound i a h (inr (e, f)) =
          subst
            (λ (b : ℕ).
              (b < nr_slots)
              × IsSending (queued t s d m (q d)) b true
              × ((queued t s d m (q d) b).p_sendto ≡ i))
            (sym e) (s_in, (waits_own (q d)).0, (waits_own (q d)).1 ∙ sym f)

      complete :
          (a : ℕ)
          → a < nr_slots
          → IsSending (queued t s d m (q d)) a true
          → elem a (push q d s (queued t s d m (q d) a).p_sendto) ≡ true
      complete a h e = elim (Bool-cases (a == s)) [
        | inl hit ↦
            subst (λ (b : ℕ). elem b (push q d s (queued t s d m (q d) b).p_sendto) ≡ true)
              (sym (==→eq a s hit)) (rw ((waits_own (q d)).1) elem-push_new)
        | inr miss ↦
            let same = waits_queued (q d) a (ground arith) in
            rw (same.1) (elem-push_old a (t a).p_sendto (w.complete a h (sym same.0 ∙ e)))
      ]

      unmatched :
          (i a : ℕ)
          → i < nr_slots
          → IsReceiving (queued t s d m (q d)) i true
          → (elem a (q i) ≡ true) ⊎ (a ≡ s) × (i ≡ d)
          → ((queued t s d m (q d) i).p_recvfrom ≢ any) × ((queued t s d m (q d) i).p_recvfrom ≢ a)
      unmatched i a h rec (inl old) =
          let (rec', e) = receives_queued (q d) i rec in rw e (w.unmatched i a h rec' old)
      unmatched i a h rec (inr (e, f)) =
          let (rec', g) = receives_queued (q d) i rec in
          let met : IsReceiving t d true = subst (λ (b : ℕ). IsReceiving t b true) f rec' in
          let from : (queued t s d m (q d) i).p_recvfrom ≡ (t d).p_recvfrom =
            g ∙ ap (λ (b : ℕ). (t b).p_recvfrom) f in
          ground arith
