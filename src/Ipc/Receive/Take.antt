-- ===== src/Ipc/Receive/Take.antt =====
-- `msg_receive` where a sender waits: its message is copied and it leaves the queue.
use oscourse_project.Base.{
  ℕ, ◌^◌, ◌<◌, ◌≡◌, ◌≢◌, ◌∙◌, ap, fun_ext, arith, inl, inr, ◌==◌, if◌then◌else◌, Bool-cases,
  clear_flag, List, Option, none, some,
}
use oscourse_project.Proc.{Proc, Table, Kernel, write, sending}
use oscourse_project.Run.{ok}
use oscourse_project.Segment.{copy}
use oscourse_project.Ipc.Send.{message_size}
use oscourse_project.Ipc.Receive.{unqueue, take_message, released}
use oscourse_project.Ipc.Chain.{links, before, relink}
use oscourse_project.Ipc.Invariant.{Unlinked}
use oscourse_project.Ipc.Transfer.{linear, IsFlat, copy_message-ok}

-- The table once `from` is out of the queue of `who`, which was `x ∷ xs`.
unfoldable pub unqueued : Table → (who from x : ℕ) → List ℕ → Table
unqueued t who from x xs =
    let u =
      if x == from
      then write t who (record (t who) { q_sending = (t from).next_sending })
      else write t (before from x xs)
          (record (t (before from x xs)) { next_sending = (t from).next_sending }) in
    write u from (record (u from) { next_sending = none })

-- What the search of the queue found: the entry before `from`, if there is one.
abbrev pub Found : (from x : ℕ) → List ℕ → Option ℕ → Type 0
Found from x xs prev = prev ≡ (if x == from then none else some (before from x xs))

pub unqueue-ok :
    (k : Kernel) (who from x : ℕ) (xs : List ℕ) {prev : Option ℕ}
    → (k.table who).q_sending ≡ some x
    → Found from x xs prev
    → unqueue who from prev k ≡ ok tt (record k { table = unqueued k.table who from x xs })
unfolding unqueue unqueued
unqueue-ok k who from x xs e f = elim (Bool-cases (x == from)) [
  | inl hit ↦ ground arith
  | inr miss ↦ ground arith
]

-- The kernel after the message of `from` has been given to `who` at `m`.
unfoldable pub taken : Kernel → (who from x : ℕ) → List ℕ → (m : ℕ) → Kernel
unfolding released
taken k who from x xs m =
    let u = unqueued k.table who from x xs in
    record k {
      mem =
          copy message_size (linear k.table who m) (linear k.table from (k.table from).p_msg) k.mem;
      table = write u from (released (u from));
    }

module _ (t : Table) (who from x : ℕ) (xs : List ℕ) where
  -- An entry's message fields are not touched when the queue is relinked.
  pub unqueued-Unlinked : (i : ℕ) → Unlinked (unqueued t who from x xs i) (t i)
  unfolding unqueued write
  unqueued-Unlinked i = elim (Bool-cases (x == from)) [
    | inl hit ↦ ground arith
    | inr miss ↦ ground arith
  ]

  pub links-unqueued_head : x ≡ from → links (unqueued t who from x xs) ≡ relink (links t) from none
  unfolding unqueued write
  links-unqueued_head e = fun_ext λ i. ground arith

  pub links-unqueued_rest :
      x ≢ from
      → links (unqueued t who from x xs)
        ≡ relink (relink (links t) (before from x xs) (links t from)) from none
  unfolding unqueued write
  links-unqueued_rest e = fun_ext λ i. ground arith

  pub head-unqueued_head :
      (i : ℕ)
      → x ≡ from
      → (unqueued t who from x xs i).q_sending
        ≡ (if who == i then (t from).next_sending else (t i).q_sending)
  unfolding unqueued write
  head-unqueued_head i e = ground arith

  pub head-unqueued_rest :
      (i : ℕ) → x ≢ from → (unqueued t who from x xs i).q_sending ≡ (t i).q_sending
  unfolding unqueued write
  head-unqueued_rest i e = ground arith

pub take_message-ok :
    (k : Kernel) (who from x m : ℕ) (xs : List ℕ) {prev : Option ℕ}
    → IsFlat k.table
    → (k.table who).q_sending ≡ some x
    → Found from x xs prev
    → (k.table from).p_flags ≡ sending
    → (k.table from).p_msg ≢ 0
    → (k.table from).p_msg < 2 ^ 32
    → m ≢ 0
    → m < 2 ^ 32
    → take_message who from prev m k ≡ ok tt (taken k who from x xs m)
unfolding take_message taken write clear_flag
take_message-ok k who from x m xs {prev} flat e f fl nz small nz' small' =
    let u = unqueued k.table who from x xs in
    let same : (i : ℕ) → Unlinked (u i) (k.table i) = unqueued-Unlinked k.table who from x xs in
    let base : (i : ℕ) → (u i).ldt_rw ≡ (k.table i).ldt_rw =
      λ i. ap (λ (p : Proc). p.ldt_rw) (same i) in
    let flat' : IsFlat u = λ i h. rw (base i) (flat i h) in
    let msg : (u from).p_msg ≡ (k.table from).p_msg = ap (λ (p : Proc). p.p_msg) (same from) in
    let fl' : (u from).p_flags ≡ sending = ap (λ (p : Proc). p.p_flags) (same from) ∙ fl in
    ground (
      arith,
      unqueue-ok k who from x xs e f,
      copy_message-ok (record k { table = u }) flat' who m from (u from).p_msg,
      base who,
      base from,
      msg,
      fl',
    )
