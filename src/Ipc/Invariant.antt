-- ===== src/Ipc/Invariant.antt =====
-- What holds of the process table between two calls into the message code. `q` is the abstract
-- view: the senders that wait for each process, first come first.
use oscourse_project.Base.{
  ℕ, ◌+◌, ◌^◌, ◌<◌, ◌≡◌, ◌≢◌, refl, sym, subst, fun_ext, Bool, true, none, List, elem, has_flag,
  Distinct, Bool-cases, inl, inr, ==→eq, ◌==◌, arith,
}
use oscourse_project.Proc.{
  Proc, Table, write, sending, receiving, nr_slots, nr_tasks, nr_native_procs, any, no_task,
}
use oscourse_project.Segment.{ldt_seg_linear}
use oscourse_project.Schedule.Choice.{Untimed}
use oscourse_project.Ipc.Chain.{IsChain, links}
use oscourse_project.Ipc.Walk.{IsSending, IsAcyclic}
use oscourse_project.Ipc.Acyclic.{Walk-frame}

abbrev pub IsReceiving : Table → ℕ → Bool → Type 0
IsReceiving t i b = has_flag (t i).p_flags receiving ≡ b

-- The message fields of an entry fit its flags.
pub record IsSettled (p : Proc) : Type 0 where
  pub idle : p.p_flags ≡ 0 → (p.p_msg ≡ 0) × (p.p_recvfrom ≡ no_task) × (p.p_sendto ≡ no_task)
  pub sender :
      has_flag p.p_flags sending ≡ true
      → (p.p_flags ≡ sending) × (p.p_msg ≢ 0) × (p.p_recvfrom ≡ no_task) × (p.p_sendto < nr_slots)
  pub receiver :
      has_flag p.p_flags receiving ≡ true
      → (p.p_msg ≢ 0) × (p.p_recvfrom ≢ no_task) × (p.p_sendto ≡ no_task)
  pub pointer : p.p_msg < 2 ^ 32

pub record IsIpc (t : Table) (q : ℕ → List ℕ) : Type 0 where
  pub settled : (i : ℕ) → i < nr_slots → IsSettled (t i)
  pub chain : (i : ℕ) → i < nr_slots → IsChain (links t) (t i).q_sending (q i)
  pub distinct : (i : ℕ) → i < nr_slots → Distinct (q i)
  pub sound :
      (i s : ℕ)
      → i < nr_slots
      → elem s (q i) ≡ true
      → (s < nr_slots) × IsSending t s true × ((t s).p_sendto ≡ i)
  pub complete : (s : ℕ) → s < nr_slots → IsSending t s true → elem s (q (t s).p_sendto) ≡ true
  pub unmatched :
      (i s : ℕ)
      → i < nr_slots
      → IsReceiving t i true
      → elem s (q i) ≡ true
      → ((t i).p_recvfrom ≢ any) × ((t i).p_recvfrom ≢ s)
  pub acyclic : IsAcyclic t
  pub flat : (i : ℕ) → i < nr_tasks + nr_native_procs → ldt_seg_linear (t i).ldt_rw ≡ 0

-- The table without the `ticks` of its entries.
abbrev pub untimed : Table → Table
untimed t i = record (t i) { ticks = 0 }

module _ {t : Table} {q : ℕ → List ℕ} where
  IsIpc-untimed : IsIpc t q → IsIpc (untimed t) q
  IsIpc-untimed w = record {
    settled = λ i h.
        let s = w.settled i h in
        record { idle = s.idle; sender = s.sender; receiver = s.receiver; pointer = s.pointer };
    chain = w.chain;
    distinct = w.distinct;
    sound = w.sound;
    complete = w.complete;
    unmatched = w.unmatched;
    acyclic =
        λ i h. let (xs, v) = w.acyclic i h in (xs, Walk-frame (untimed t) v (λ a m. (refl, refl)));
    flat = w.flat;
  }

  IsIpc-of_untimed : IsIpc (untimed t) q → IsIpc t q
  IsIpc-of_untimed w = record {
    settled = λ i h.
        let s = w.settled i h in
        record { idle = s.idle; sender = s.sender; receiver = s.receiver; pointer = s.pointer };
    chain = w.chain;
    distinct = w.distinct;
    sound = w.sound;
    complete = w.complete;
    unmatched = w.unmatched;
    acyclic = λ i h. let (xs, v) = w.acyclic i h in (xs, Walk-frame t v (λ a m. (refl, refl)));
    flat = w.flat;
  }

-- `ticks` plays no part.
pub IsIpc-Untimed :
    {t t' : Table} {q : ℕ → List ℕ} → ((j : ℕ) → Untimed (t' j) (t j)) → IsIpc t q → IsIpc t' q
IsIpc-Untimed {t} {t'} {q} same w =
    let e : untimed t ≡ untimed t' = sym (fun_ext same) in
    IsIpc-of_untimed (subst (λ (u : Table). IsIpc u q) e (IsIpc-untimed w))

-- What holds of the entry that is written and of the others holds of each.
pub write-cases :
    (P : ℕ → Proc → Type 0) (t : Table) (i : ℕ) (p : Proc)
    → P i p
    → ((j : ℕ) → j ≢ i → P j (t j))
    → (j : ℕ) → P j (write t i p j)
unfolding write
write-cases P t i p h rest j = elim (Bool-cases (i == j)) [
  | inl hit ↦ rw hit (subst (λ (a : ℕ). P a p) (==→eq i j hit) h)
  | inr miss ↦ rw miss (rest j (ground arith))
]

-- The two entries differ in their queue pointers at most.
abbrev pub Unlinked : Proc → Proc → Type 0
Unlinked p r =
    ◌≡◌ {A = Proc} (record p { q_sending = none; next_sending = none })
      (record r { q_sending = none; next_sending = none })

pub IsSettled-of_Unlinked : {p r : Proc} → Unlinked p r → IsSettled r → IsSettled p
IsSettled-of_Unlinked {p} {r} e s =
    let s' : IsSettled (record r { q_sending = none; next_sending = none }) = record {
      idle = s.idle;
      sender = s.sender;
      receiver = s.receiver;
      pointer = s.pointer;
    } in
    let u = subst (λ (x : Proc). IsSettled x) (sym e) s' in
    record { idle = u.idle; sender = u.sender; receiver = u.receiver; pointer = u.pointer }
