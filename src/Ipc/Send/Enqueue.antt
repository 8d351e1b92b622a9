-- ===== src/Ipc/Send/Enqueue.antt =====
-- `msg_send` where the receiver does not wait: the sender is blocked at the end of the queue.
use oscourse_project.Base.{
  ℕ, ◌≤◌, ◌≡◌, ◌≢◌, ap, fun_ext, true, arith, ◌==◌, has_flag, set_flag, List, [], ◌∷◌, none, some,
  length,
}
use oscourse_project.Proc.{Proc, Table, Kernel, write, sending, no_task, nr_slots}
use oscourse_project.Run.{ok}
use oscourse_project.Schedule.{schedule}
use oscourse_project.Schedule.Choice.{Switched}
use oscourse_project.Ipc.Send.{blocked_sender, append_sender, enqueue}
use oscourse_project.Ipc.Chain.{links, IsChain, last, last_sending-last}
use oscourse_project.Ipc.Send.Deliver.{IsIdle}

-- The sender's entry, with its message at `m`.
abbrev pub waiting_table : Table → (sender dest m : ℕ) → Table
waiting_table t sender dest m = write t sender (blocked_sender dest m (t sender))

-- The head of the empty queue, or the link of its last entry, is set to the sender.
unfoldable pub appended : Table → (sender dest : ℕ) → List ℕ → Table
appended t sender dest [] = write t dest (record (t dest) { q_sending = some sender })
appended t sender dest (x ∷ xs) =
    write t (last x xs) (record (t (last x xs)) { next_sending = some sender })

-- The table once the sender is in the queue, which was `xs`.
unfoldable pub queued : Table → (sender dest m : ℕ) → List ℕ → Table
unfolding appended
queued t sender dest m xs =
    let u = appended (waiting_table t sender dest m) sender dest xs in
    write u sender (record (u sender) { next_sending = none })

append_sender-appended :
    (k : Kernel) (sender dest : ℕ) (xs : List ℕ)
    → IsChain (links k.table) (k.table dest).q_sending xs
    → length xs ≤ nr_slots
    → append_sender sender dest k ≡ ok tt (record k { table = appended k.table sender dest xs })
unfolding append_sender appended
append_sender-appended k sender dest [] c h = ground arith
append_sender-appended k sender dest (x ∷ xs) (e, c) h =
    ground (arith, last_sending-last nr_slots k.table x xs c)

waiting-IsChain :
    (t : Table) (sender dest m : ℕ) (xs : List ℕ)
    → IsChain (links t) (t dest).q_sending xs
    → IsChain
        (links (waiting_table t sender dest m))
        (waiting_table t sender dest m dest).q_sending
        xs
unfolding write blocked_sender
waiting-IsChain t sender dest m xs c =
    let e : links (waiting_table t sender dest m) ≡ links t = fun_ext (λ i. ground arith) in
    let f : (waiting_table t sender dest m dest).q_sending ≡ (t dest).q_sending = ground arith in
    rw (e, f) c

-- The first part of the branch, up to the call of `block`, and what is left of it.
module _ (k : Kernel) (sender dest m : ℕ) (xs : List ℕ) (idle : IsIdle k.table sender) (nz : m ≢ 0)
    (c : IsChain (links k.table) (k.table dest).q_sending xs) (small : length xs ≤ nr_slots)
    (ne : sender ≢ dest) where
  queued_entry :
      ((queued k.table sender dest m xs sender).p_flags ≡ sending)
      × ((queued k.table sender dest m xs sender).p_msg ≡ m)
      × ((queued k.table sender dest m xs sender).p_recvfrom ≡ no_task)
      × ((queued k.table sender dest m xs sender).p_sendto ≡ dest)
  unfolding queued
  queued_entry = go xs
    where
      go :
          (ys : List ℕ)
          → ((queued k.table sender dest m ys sender).p_flags ≡ sending)
            × ((queued k.table sender dest m ys sender).p_msg ≡ m)
            × ((queued k.table sender dest m ys sender).p_recvfrom ≡ no_task)
            × ((queued k.table sender dest m ys sender).p_sendto ≡ dest)
      go [] = unfold write blocked_sender set_flag has_flag in ground arith
      go (y ∷ ys) = unfold write blocked_sender set_flag has_flag in ground arith

  set_once : (set_flag (k.table sender).p_flags sending == sending) ≡ true
  unfolding set_flag has_flag
  set_once = ground arith

  -- If the scheduler finds another process to run, the branch ends, in the kernel that it leaves.
  pub enqueue-ok :
      {k' : Kernel}
      → schedule (record k { table = queued k.table sender dest m xs }) ≡ ok tt k'
      → Switched (record k { table = queued k.table sender dest m xs }) k'
      → enqueue sender dest m k ≡ ok tt k'
  unfolding enqueue queued
  enqueue-ok {k'} e s = ground (
    arith,
    append_sender-appended (record k { table = waiting_table k.table sender dest m }) sender dest xs
        (waiting-IsChain k.table sender dest m xs c) small,
    set_once,
    queued_entry,
    ap (λ (p : Proc). p.p_flags) (s.same sender),
    ap (λ (p : Proc). p.p_msg) (s.same sender),
    ap (λ (p : Proc). p.p_recvfrom) (s.same sender),
    ap (λ (p : Proc). p.p_sendto) (s.same sender),
  )
