-- ===== src/Ipc/Receive/TakeInvariant.antt =====
-- Taking a message keeps the invariant, and takes the sender out of the receiver's abstract queue.
use oscourse_project.Base.{
  ℕ, ◌<◌, ◌≡◌, ◌≢◌, refl, sym, ◌∙◌, subst, ap, fun_ext, true, false, arith, ◌⊎◌, inl, inr, ◌==◌,
  if◌then◌else◌, Bool-cases, ==→eq, ne→==, ==-self, has_flag, clear_flag, List, ◌∷◌, elem, remove,
  none, Distinct, elem-remove_ne, elem-remove_self, elem_of_elem-remove, Distinct-remove,
}
use oscourse_project.Proc.{Proc, Table, write, receiving, sending, no_task, nr_slots}
use oscourse_project.Ipc.Receive.{released}
use oscourse_project.Ipc.Chain.{
  Links, links, IsChain, before, relink, IsChain-frame, IsChain-unlink, elem_ne, elem-before,
}
use oscourse_project.Ipc.Walk.{IsSending}
use oscourse_project.Ipc.Acyclic.{SameWait, IsAcyclic-release}
use oscourse_project.Ipc.Invariant.{
  IsIpc, IsSettled, IsReceiving, write-cases, Unlinked, IsSettled-of_Unlinked,
}
use oscourse_project.Ipc.Receive.Take.{
  unqueued, unqueued-Unlinked, links-unqueued_head, links-unqueued_rest, head-unqueued_head,
  head-unqueued_rest,
}

-- The abstract queues with `from` out of the one of `who`.
unfoldable pub pull : (ℕ → List ℕ) → (who from : ℕ) → ℕ → List ℕ
pull q who from i = if who == i then remove from (q i) else q i

-- The table once `who` has taken the message of `from`.
unfoldable pub relieved : Table → (who from x : ℕ) → List ℕ → Table
unfolding released
relieved t who from x xs = let u = unqueued t who from x xs in write u from (released (u from))

released-IsSettled :
    (p : Proc) → p.p_flags ≡ sending → p.p_recvfrom ≡ no_task → IsSettled (released p)
unfolding released has_flag clear_flag
released-IsSettled p f r = record {
  idle = λ e. (refl, r, refl);
  sender = λ e. absurd (ground arith);
  receiver = λ e. absurd (ground arith);
  pointer = omega arith;
}

module _ {t : Table} {q : ℕ → List ℕ} (w : IsIpc t q) (who from x : ℕ) (xs : List ℕ)
    (who_in : who < nr_slots) (eq : q who ≡ x ∷ xs) (mem : elem from (x ∷ xs) ≡ true) where
  u : Table
  u = unqueued t who from x xs

  v : Table
  v = relieved t who from x xs

  from_facts : (from < nr_slots) × IsSending t from true × ((t from).p_sendto ≡ who)
  from_facts = w.sound who from who_in (rw eq mem)

  own-IsChain : IsChain (links t) (t who).q_sending (x ∷ xs)
  own-IsChain =
      subst (λ (l : List ℕ). IsChain (links t) (t who).q_sending l) eq (w.chain who who_in)

  own-Distinct : Distinct (x ∷ xs)
  own-Distinct = subst (λ (l : List ℕ). Distinct l) eq (w.distinct who who_in)

  -- An entry of the receiver's queue stands in no other.
  apart : (a i : ℕ) → i < nr_slots → elem a (x ∷ xs) ≡ true → who ≢ i → elem a (q i) ≡ false
  apart a i h m other = elim (Bool-cases (elem a (q i))) [
    | inl m' ↦ absurd (other (sym (w.sound who a who_in (rw eq m)).2 ∙ (w.sound i a h m').2))
    | inr out ↦ out
  ]

  links-relieved : links v ≡ links u
  unfolding u v relieved write
  links-relieved = fun_ext λ i. ground arith

  head-relieved : (i : ℕ) → (v i).q_sending ≡ (u i).q_sending
  unfolding u v relieved write
  head-relieved i = ground arith

  IsChain-other : (i : ℕ) → i < nr_slots → who ≢ i → IsChain (links u) (u i).q_sending (q i)
  unfolding u
  IsChain-other i h other = elim (Bool-cases (x == from)) [
    | inl hit ↦
        let e : x ≡ from = ==→eq x from hit in
        rw
          (
            links-unqueued_head t who from x xs e,
            head-unqueued_head t who from x xs i e,
            ne→== who i other,
          )
          (IsChain-frame (links t) (relink (links t) from none) (t i).q_sending (q i)
            (λ a m. ground (arith, elem_ne a from (q i) m (apart from i h mem other)))
            (w.chain i h))
    | inr miss ↦
        let e : x ≢ from = ground arith in
        let out = apart (before from x xs) i h (elem-before from x xs) other in
        rw (links-unqueued_rest t who from x xs e, head-unqueued_rest t who from x xs i e)
          (IsChain-frame (links t)
            (relink (relink (links t) (before from x xs) (links t from)) from none) (t i).q_sending
            (q i)
            (λ a m. ground (
              arith,
              elem_ne a from (q i) m (apart from i h mem other),
              elem_ne a (before from x xs) (q i) m out,
            ))
            (w.chain i h))
  ]

  IsChain-own : IsChain (links u) (u who).q_sending (remove from (x ∷ xs))
  unfolding u
  IsChain-own = elim (Bool-cases (x == from)) [
    | inl hit ↦
        let e : x ≡ from = ==→eq x from hit in
        rw (hit) (
          subst (λ (l : Links). IsChain l (u who).q_sending xs)
            (sym (links-unqueued_head t who from x xs e))
            (rw (head-unqueued_head t who from x xs who e, ==-self who)
              (IsChain-frame (links t) (relink (links t) from none) (t from).next_sending xs
                (λ a m. ground (arith, elem_ne a x xs m own-Distinct.0))
                (subst (λ (a : ℕ). IsChain (links t) (t a).next_sending xs) e own-IsChain.1))))
    | inr miss ↦
        let e : x ≢ from = ground arith in
        let after : Links = relink (relink (links t) (before from x xs) (links t from)) from none in
        rw (miss) (
          subst (λ (l : Links). IsChain l (u who).q_sending (x ∷ remove from xs))
            (sym (links-unqueued_rest t who from x xs e))
            (
              head-unqueued_rest t who from x xs who e ∙ own-IsChain.0,
              IsChain-unlink (links t) from x xs own-IsChain.1 own-Distinct e (ground arith),
            ))
  ]

  relieved_other : (i : ℕ) → i ≢ from → Unlinked (v i) (t i)
  unfolding v relieved write
  relieved_other i ne = let e = unqueued-Unlinked t who from x xs i in ground arith

  relieved_own : Unlinked (v from) (released (t from))
  unfolding v relieved write
  relieved_own =
      let e = unqueued-Unlinked t who from x xs from in
      rw (==-self from)
        (ap (λ (p : Proc). record (released p) { q_sending = none; next_sending = none }) e)

  relieved_waits : (i : ℕ) → i ≢ from → SameWait t v i
  relieved_waits i ne = (
    ap (λ (p : Proc). has_flag p.p_flags sending) (relieved_other i ne),
    ap (λ (p : Proc). p.p_sendto) (relieved_other i ne),
  )

  relieved_idle : IsSending v from false × IsReceiving v from false
  relieved_idle =
      let f = ((w.settled from from_facts.0).sender from_facts.1).0 in
      let e = ap (λ (p : Proc). p.p_flags) relieved_own in
      (
        rw e (unfold released has_flag clear_flag in ground arith),
        rw e (unfold released has_flag clear_flag in ground arith),
      )

  -- The members of the new queues are the old ones but for the sender.
  pull_old : (a i : ℕ) → elem a (pull q who from i) ≡ true → elem a (q i) ≡ true
  unfolding pull
  pull_old a i m = elim (Bool-cases (who == i)) [
    | inl hit ↦ elem_of_elem-remove a from (q i) (rw hit at m)
    | inr miss ↦ rw miss at m
  ]

  pull_gone : (i : ℕ) → i < nr_slots → elem from (pull q who from i) ≡ false
  unfolding pull
  pull_gone i h = elim (Bool-cases (who == i)) [
    | inl hit ↦ rw hit (elem-remove_self from (q i) (w.distinct i h))
    | inr miss ↦ rw miss (apart from i h mem (ground arith))
  ]

  pull_ne : (a i : ℕ) → i < nr_slots → elem a (pull q who from i) ≡ true → a ≢ from
  pull_ne a i h m = elem_ne a from (pull q who from i) m (pull_gone i h)

  elem-pull : (a i : ℕ) → a ≢ from → elem a (q i) ≡ true → elem a (pull q who from i) ≡ true
  unfolding pull
  elem-pull a i ne m = elim (Bool-cases (who == i)) [
    | inl hit ↦ rw hit (elem-remove_ne a from (q i) ne ∙ m)
    | inr miss ↦ rw miss m
  ]

  pull-Distinct : (i : ℕ) → i < nr_slots → Distinct (pull q who from i)
  unfolding pull
  pull-Distinct i h = elim (Bool-cases (who == i)) [
    | inl hit ↦ rw hit (Distinct-remove from (q i) (w.distinct i h))
    | inr miss ↦ rw miss (w.distinct i h)
  ]

  pull-IsChain : (i : ℕ) → i < nr_slots → IsChain (links v) (v i).q_sending (pull q who from i)
  unfolding pull
  pull-IsChain i h =
      rw (links-relieved, head-relieved i)
        (elim (Bool-cases (who == i)) [
          | inl hit ↦ rw hit (
              subst (λ (a : ℕ). IsChain (links u) (u a).q_sending (remove from (q a)))
                (==→eq who i hit) (rw eq IsChain-own))
          | inr miss ↦ rw miss (IsChain-other i h (ground arith))
        ])

  not_from : (i : ℕ) → IsSending v i true ⊎ IsReceiving v i true → i ≢ from
  not_from i (inl s) e = absurd (cc (subst (λ (a : ℕ). IsSending v a true) e s, relieved_idle.0))
  not_from i (inr r) e = absurd (cc (subst (λ (a : ℕ). IsReceiving v a true) e r, relieved_idle.1))

  relieved-IsSettled : (i : ℕ) → i < nr_slots → IsSettled (v i)
  relieved-IsSettled i h = elim (Bool-cases (i == from)) [
    | inl hit ↦
        let (f, nz, r, to) = (w.settled from from_facts.0).sender from_facts.1 in
        subst (λ (a : ℕ). IsSettled (v a)) (sym (==→eq i from hit))
          (IsSettled-of_Unlinked relieved_own (released-IsSettled (t from) f r))
    | inr miss ↦ IsSettled-of_Unlinked (relieved_other i (ground arith)) (w.settled i h)
  ]

  relieved_segment : (i : ℕ) → (v i).ldt_rw ≡ (t i).ldt_rw
  unfolding v relieved
  relieved_segment i =
      write-cases (λ j p. p.ldt_rw ≡ (t j).ldt_rw) (unqueued t who from x xs) from
        (released (unqueued t who from x xs from))
        (ap (λ (p : Proc). p.ldt_rw) (unqueued-Unlinked t who from x xs from))
        (λ j ne. ap (λ (p : Proc). p.ldt_rw) (unqueued-Unlinked t who from x xs j)) i

  -- The invariant after a message has been taken: its sender has left the queue.
  pub relieved-IsIpc : IsIpc (relieved t who from x xs) (pull q who from)
  unfolding v
  relieved-IsIpc = record {
    settled = relieved-IsSettled;
    chain = pull-IsChain;
    distinct = pull-Distinct;
    sound = λ i a h m.
        let (l, out, to) = w.sound i a h (pull_old a i m) in
        let same = relieved_waits a (pull_ne a i h m) in (l, same.0 ∙ out, same.1 ∙ to);
    complete = λ a h e.
        let ne = not_from a (inl e) in
        let same = relieved_waits a ne in
        rw (same.1) (elem-pull a (t a).p_sendto ne (w.complete a h (sym same.0 ∙ e)));
    unmatched = λ i a h r m.
        let same = relieved_other i (not_from i (inr r)) in
        rw (ap (λ (p : Proc). p.p_recvfrom) same) (
          w.unmatched i a h (sym (ap (λ (p : Proc). has_flag p.p_flags receiving) same) ∙ r)
            (pull_old a i m));
    acyclic = IsAcyclic-release {t = t} relieved_waits from_facts.0 relieved_idle.0 w.acyclic;
    flat = λ i h. rw (relieved_segment i) (w.flat i h);
  }
