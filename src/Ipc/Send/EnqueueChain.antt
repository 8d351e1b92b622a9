-- ===== src/Ipc/Send/EnqueueChain.antt =====
-- The chains of the queues after a sender has been linked behind the others.
use oscourse_project.Base.{
  ℕ, ◌^◌, ◌<◌, ◌≡◌, ◌≢◌, sym, ◌∙◌, subst, ap, fun_ext, true, false, arith, inl, inr, ◌==◌,
  if◌then◌else◌, Bool-cases, ==→eq, has_flag, set_flag, List, [], ◌∷◌, ◌++◌, elem, none, some,
  Distinct, ne→==,
}
use oscourse_project.Proc.{Proc, Table, write, no_task, nr_slots}
use oscourse_project.Ipc.Send.{blocked_sender}
use oscourse_project.Ipc.Chain.{
  Links, links, IsChain, last, relink, IsChain-frame, IsChain-snoc, elem-last, elem_ne,
}
use oscourse_project.Ipc.Invariant.{IsIpc, IsSettled, Unlinked}
use oscourse_project.Ipc.Send.Enqueue.{waiting_table, queued}

-- The abstract queues with `s` behind those that wait for `d`.
unfoldable pub push : (ℕ → List ℕ) → (d s : ℕ) → ℕ → List ℕ
push q d s i = if d == i then q i ++ (s ∷ []) else q i

module _ (t : Table) (s d m : ℕ) where
  pub queued-Unlinked :
      (xs : List ℕ) (i : ℕ) → Unlinked (queued t s d m xs i) (waiting_table t s d m i)
  unfolding queued write
  queued-Unlinked [] i = ground arith
  queued-Unlinked (x ∷ xs) i = ground arith

  pub queued_other : (xs : List ℕ) (i : ℕ) → i ≢ s → Unlinked (queued t s d m xs i) (t i)
  queued_other xs i ne =
      let b : waiting_table t s d m i ≡ t i = unfold write in ground arith in
      queued-Unlinked xs i ∙ ap (λ (p : Proc). record p { q_sending = none; next_sending = none }) b

  links-queued_nil : links (queued t s d m []) ≡ relink (links t) s none
  unfolding queued write blocked_sender
  links-queued_nil = fun_ext λ i. ground arith

  links-queued_cons :
      (x : ℕ) (xs : List ℕ)
      → links (queued t s d m (x ∷ xs)) ≡ relink (relink (links t) (last x xs) (some s)) s none
  unfolding queued write blocked_sender
  links-queued_cons x xs = fun_ext λ i. ground arith

  head-queued_nil :
      (i : ℕ) → (queued t s d m [] i).q_sending ≡ (if d == i then some s else (t i).q_sending)
  unfolding queued write blocked_sender
  head-queued_nil i = ground arith

  head-queued_cons :
      (x : ℕ) (xs : List ℕ) (i : ℕ) → (queued t s d m (x ∷ xs) i).q_sending ≡ (t i).q_sending
  unfolding queued write blocked_sender
  head-queued_cons x xs i = ground arith

  pub blocked-IsSettled :
      (t s).p_flags ≡ 0
      → (t s).p_recvfrom ≡ no_task
      → d < nr_slots
      → m ≢ 0
      → m < 2 ^ 32
      → IsSettled (blocked_sender d m (t s))
  unfolding blocked_sender has_flag set_flag
  blocked-IsSettled f r h nz small = record {
    idle = λ e. absurd (ground arith);
    sender = λ e. (ground arith, nz, r, h);
    receiver = λ e. absurd (ground arith);
    pointer = small;
  }

module _ {t : Table} {q : ℕ → List ℕ} (w : IsIpc t q) (s d m : ℕ) (s_in : s < nr_slots)
    (d_in : d < nr_slots) (s_idle : (t s).p_flags ≡ 0) (ne : d ≢ s) where
  -- A process that runs stands in no queue.
  pub not_queued : (i : ℕ) → i < nr_slots → elem s (q i) ≡ false
  not_queued i h = elim (Bool-cases (elem s (q i))) [
    | inl m ↦ absurd (unfold has_flag in ground (arith, (w.sound i s h m).1))
    | inr out ↦ out
  ]

  -- An entry of one queue stands in no other.
  apart : (a i : ℕ) → i < nr_slots → elem a (q d) ≡ true → d ≢ i → elem a (q i) ≡ false
  apart a i h m other = elim (Bool-cases (elem a (q i))) [
    | inl m' ↦ absurd (other (sym (w.sound d a d_in m).2 ∙ (w.sound i a h m').2))
    | inr out ↦ out
  ]

  IsChain-other_nil :
      (i : ℕ)
      → i < nr_slots
      → d ≢ i
      → IsChain (links (queued t s d m [])) (queued t s d m [] i).q_sending (q i)
  IsChain-other_nil i h other =
      rw (links-queued_nil t s d m, head-queued_nil t s d m i)
        (rw (ne→== d i other) (
          IsChain-frame (links t) (relink (links t) s none) (t i).q_sending (q i)
            (λ a mem. ground (arith, not_queued i h, elem_ne a s (q i) mem)) (w.chain i h)))

  IsChain-other_cons :
      (x : ℕ) (xs : List ℕ)
      → q d ≡ x ∷ xs
      → (i : ℕ) → i < nr_slots
      → d ≢ i
      → IsChain (links (queued t s d m (x ∷ xs))) (queued t s d m (x ∷ xs) i).q_sending (q i)
  IsChain-other_cons x xs e i h other =
      let out = apart (last x xs) i h (rw e (elem-last x xs)) other in
      rw (links-queued_cons t s d m x xs, head-queued_cons t s d m x xs i)
        (IsChain-frame (links t) (relink (relink (links t) (last x xs) (some s)) s none)
          (t i).q_sending (q i)
          (λ a mem.
            ground
              (arith, elem_ne a s (q i) mem (not_queued i h), elem_ne a (last x xs) (q i) mem out))
          (w.chain i h))

  IsChain-own_nil :
      q d ≡ [] → IsChain (links (queued t s d m [])) (queued t s d m [] d).q_sending (s ∷ [])
  IsChain-own_nil e = rw (links-queued_nil t s d m, head-queued_nil t s d m d) (ground arith)

  IsChain-own_cons :
      (x : ℕ) (xs : List ℕ)
      → q d ≡ x ∷ xs
      → IsChain
          (links (queued t s d m (x ∷ xs)))
          (queued t s d m (x ∷ xs) d).q_sending
          ((x ∷ xs) ++ (s ∷ []))
  IsChain-own_cons x xs e =
      let c : IsChain (links t) (t d).q_sending (x ∷ xs) =
        subst (λ (l : List ℕ). IsChain (links t) (t d).q_sending l) e (w.chain d d_in) in
      rw (head-queued_cons t s d m x xs d) (
        subst (λ (l : Links). IsChain l (t d).q_sending ((x ∷ xs) ++ (s ∷ [])))
          (sym (links-queued_cons t s d m x xs))
          (
            c.0,
            IsChain-snoc (links t) s x xs c.1
                (subst (λ (l : List ℕ). Distinct l) e (w.distinct d d_in))
                (rw e at (not_queued d d_in)),
          ))

  pub IsChain-queued :
      (ys : List ℕ)
      → q d ≡ ys
      → (i : ℕ) → i < nr_slots
      → IsChain (links (queued t s d m ys)) (queued t s d m ys i).q_sending (push q d s i)
  unfolding push
  IsChain-queued ys e i h = elim (Bool-cases (d == i)) [
    | inl hit ↦ rw hit (
        subst
          (λ (a : ℕ).
            IsChain (links (queued t s d m ys)) (queued t s d m ys a).q_sending (q a ++ (s ∷ [])))
          (==→eq d i hit) (rw e (own ys e)))
    | inr miss ↦ rw miss (others ys e (ground arith))
  ]
    where
      own :
          (ys : List ℕ)
          → q d ≡ ys
          → IsChain (links (queued t s d m ys)) (queued t s d m ys d).q_sending (ys ++ (s ∷ []))
      own [] e = IsChain-own_nil e
      own (x ∷ xs) e = IsChain-own_cons x xs e

      others :
          (ys : List ℕ)
          → q d ≡ ys
          → d ≢ i
          → IsChain (links (queued t s d m ys)) (queued t s d m ys i).q_sending (q i)
      others [] e o = IsChain-other_nil i h o
      others (x ∷ xs) e o = IsChain-other_cons x xs e i h o
