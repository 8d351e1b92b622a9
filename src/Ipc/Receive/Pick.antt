-- ===== src/Ipc/Receive/Pick.antt =====
-- Which message `msg_receive` takes.
use oscourse_project.Base.{
  ℕ, ◌<◌, ◌≡◌, ◌≢◌, refl, subst, ap, true, false, ◌&&◌, arith, inl, inr, ◌==◌, ltb, if◌then◌else◌,
  Bool-cases, ==→eq, lt→ltb, ltb→lt, has_flag, List, [], ◌∷◌, elem, Option, none, some, length,
  length_le_of_Distinct,
}
use oscourse_project.Proc.{Kernel, sending, nr_slots, any}
use oscourse_project.Run.{ok}
use oscourse_project.Ipc.Receive.{pick, pick_first, pick_from, assert_meet, find_fuel}
use oscourse_project.Ipc.Chain.{links, IsChain, before}
use oscourse_project.Ipc.Find.{find_prev-before}
use oscourse_project.Ipc.Invariant.{IsIpc}
use oscourse_project.Ipc.Send.Deliver.{IsIdle}
use oscourse_project.Ipc.Receive.Take.{Found}

module _ (k : Kernel) {q : ℕ → List ℕ} (w : IsIpc k.table q) (who : ℕ) (who_in : who < nr_slots)
    (idle : IsIdle k.table who) where
  assert_meet-ok : (from : ℕ) → elem from (q who) ≡ true → assert_meet who from k ≡ ok tt k
  unfolding assert_meet
  assert_meet-ok from e =
      let (l, out, to) = w.sound who from who_in e in
      let (f, nz, r, inside) = (w.settled from l).sender out in ground arith

  own-IsChain : {xs : List ℕ} → q who ≡ xs → IsChain (links k.table) (k.table who).q_sending xs
  own-IsChain e =
      subst (λ (l : List ℕ). IsChain (links k.table) (k.table who).q_sending l) e
        (w.chain who who_in)

  -- From anybody: the first in the queue, if there is one.
  pub pick-any_empty : q who ≡ [] → pick who any k ≡ ok none k
  unfolding pick pick_first
  pick-any_empty e = let c = own-IsChain e in ground arith

  pub pick-any_head :
      (x : ℕ) (xs : List ℕ) → q who ≡ x ∷ xs → pick who any k ≡ ok (some (x, none)) k
  unfolding pick pick_first
  pick-any_head x xs e =
      let c = own-IsChain e in ground (arith, assert_meet-ok x (rw e (ground arith)))

  length-rest : (x : ℕ) (xs : List ℕ) → q who ≡ x ∷ xs → length xs < find_fuel
  length-rest x xs e = omega (
    arith,
    length_le_of_Distinct nr_slots (q who) (w.distinct who who_in)
        (λ a m. (w.sound who a who_in m).0),
    ap length e,
  )

  -- From a process that stands in the queue.
  pub pick_from_queue :
      (src x : ℕ) (xs : List ℕ)
      → src < nr_slots
      → q who ≡ x ∷ xs
      → elem src (x ∷ xs) ≡ true
      → (prev : Option ℕ) × (pick who src k ≡ ok (some (src, prev)) k) × Found src x xs prev
  unfolding pick pick_from
  pick_from_queue src x xs small e m =
      let c = own-IsChain e in
      let (l, out, to) = w.sound who src who_in (rw e m) in
      let meet = assert_meet-ok src (rw e m) in
      let found = find_prev-before find_fuel k src x xs none out c.1 m (length-rest x xs e) in
      let s : ltb src nr_slots ≡ true = lt→ltb src nr_slots small in
      ((if x == src then none else some (before src x xs)), ground (arith, meet, found, s), refl)

  -- From a process that does not stand in the queue, or from the hardware.
  pub pick_nothing : (src : ℕ) → src ≢ any → elem src (q who) ≡ false → pick who src k ≡ ok none k
  unfolding pick pick_from
  pick_nothing src ne out = elim (Bool-cases (ltb src nr_slots)) [
    | inl small ↦
        elim (Bool-cases
          (has_flag (k.table src).p_flags sending && ((k.table src).p_sendto == who))) [
            | inl both ↦
                let there = w.complete src (ltb→lt src nr_slots small) (ground arith) in
                absurd (
                  cc (
                    subst (λ (a : ℕ). elem src (q a) ≡ true)
                        (==→eq (k.table src).p_sendto who (ground arith)) there,
                    out,
                  ))
            | inr other ↦ ground arith
          ]
    | inr big ↦ ground arith
  ]
