-- ===== src/Ipc/Revise.antt =====
-- Writing an entry keeps the invariant if its queue pointers, its segment and what it waits to send
-- stay, and it waits to receive nothing new.
use oscourse_project.Base.{
  ℕ, ◌<◌, ◌≡◌, sym, ◌∙◌, refl, fun_ext, true, arith, has_flag, clear_flag, List,
}
use oscourse_project.Proc.{Proc, Table, write, receiving, sending, no_task, nr_slots}
use oscourse_project.Ipc.Send.{received}
use oscourse_project.Ipc.Receive.{informed}
use oscourse_project.Ipc.Chain.{links}
use oscourse_project.Ipc.Acyclic.{Walk-frame, SameWait}
use oscourse_project.Ipc.Invariant.{IsIpc, IsSettled, IsReceiving, write-cases}

pub record IsRevised (p p' : Proc) : Type 0 where
  pub settled : IsSettled p'
  pub sends :
      (has_flag p'.p_flags sending ≡ has_flag p.p_flags sending) × (p'.p_sendto ≡ p.p_sendto)
  pub receives :
      has_flag p'.p_flags receiving ≡ true
      → (has_flag p.p_flags receiving ≡ true) × (p'.p_recvfrom ≡ p.p_recvfrom)
  pub next : p'.next_sending ≡ p.next_sending
  pub head : p'.q_sending ≡ p.q_sending
  pub segment : p'.ldt_rw ≡ p.ldt_rw

module _ {t : Table} {q : ℕ → List ℕ} (w : IsIpc t q) (i : ℕ) (p' : Proc)
    (r : IsRevised (t i) p') where
  revised-SameWait : (j : ℕ) → SameWait t (write t i p') j
  revised-SameWait =
      write-cases
        (λ j p.
          (has_flag p.p_flags sending ≡ has_flag (t j).p_flags sending)
          × (p.p_sendto ≡ (t j).p_sendto))
        t i p' r.sends (λ j ne. (refl, refl))

  revised-links : links (write t i p') ≡ links t
  revised-links =
      fun_ext
        (write-cases (λ j p. p.next_sending ≡ (t j).next_sending) t i p' r.next (λ j ne. refl))

  revised-head : (j : ℕ) → (write t i p' j).q_sending ≡ (t j).q_sending
  revised-head = write-cases (λ j p. p.q_sending ≡ (t j).q_sending) t i p' r.head (λ j ne. refl)

  revised-segment : (j : ℕ) → (write t i p' j).ldt_rw ≡ (t j).ldt_rw
  revised-segment = write-cases (λ j p. p.ldt_rw ≡ (t j).ldt_rw) t i p' r.segment (λ j ne. refl)

  revised-IsReceiving :
      (j : ℕ)
      → IsReceiving (write t i p') j true
      → IsReceiving t j true × ((write t i p' j).p_recvfrom ≡ (t j).p_recvfrom)
  revised-IsReceiving =
      write-cases
        (λ j p.
          has_flag p.p_flags receiving ≡ true
          → IsReceiving t j true × (p.p_recvfrom ≡ (t j).p_recvfrom))
        t i p' r.receives (λ j ne e. (e, refl))

  pub revised-IsIpc : IsIpc (write t i p') q
  revised-IsIpc = record {
    settled =
        write-cases (λ j p. j < nr_slots → IsSettled p) t i p' (λ h. r.settled)
          (λ j ne h. w.settled j h);
    chain = λ j h. rw (revised-links, revised-head j) (w.chain j h);
    distinct = w.distinct;
    sound = λ j s h m.
        let (small, out, to) = w.sound j s h m in
        (small, (revised-SameWait s).0 ∙ out, (revised-SameWait s).1 ∙ to);
    complete =
        λ s h e. rw ((revised-SameWait s).1) (w.complete s h (sym (revised-SameWait s).0 ∙ e));
    unmatched = λ j s h b m. let (b', e) = revised-IsReceiving j b in rw e (w.unmatched j s h b' m);
    acyclic = λ j h.
        let (xs, v) = w.acyclic j h in
        (xs, Walk-frame (write t i p') v (λ b m. revised-SameWait b));
    flat = λ j h. rw (revised-segment j) (w.flat j h);
  }

-- The entry of a receiver that gets its message.
pub received-IsRevised :
    (p : Proc) → p.p_flags ≡ receiving → p.p_sendto ≡ no_task → IsRevised p (received p)
unfolding received has_flag clear_flag
received-IsRevised p f s = record {
  settled = record {
    idle = λ e. ground arith;
    sender = λ e. absurd (ground arith);
    receiver = λ e. absurd (ground arith);
    pointer = omega arith;
  };
  sends = ground arith;
  receives = λ e. absurd (ground arith);
  next = refl;
  head = refl;
  segment = refl;
}

-- The entry of a task that gets its interrupt.
pub informed-IsRevised :
    (p : Proc) → p.p_flags ≡ receiving → p.p_sendto ≡ no_task → IsRevised p (informed p)
unfolding informed has_flag clear_flag
informed-IsRevised p f s = record {
  settled = record {
    idle = λ e. ground arith;
    sender = λ e. absurd (ground arith);
    receiver = λ e. absurd (ground arith);
    pointer = omega arith;
  };
  sends = ground arith;
  receives = λ e. absurd (ground arith);
  next = refl;
  head = refl;
  segment = refl;
}

-- Whether an interrupt is pending plays no part.
pub pending-IsRevised :
    (p : Proc) (n : ℕ) → IsSettled p → IsRevised p (record p { has_int_msg = n })
pending-IsRevised p n s = record {
  settled = record { idle = s.idle; sender = s.sender; receiver = s.receiver; pointer = s.pointer };
  sends = (refl, refl);
  receives = λ e. (e, refl);
  next = refl;
  head = refl;
  segment = refl;
}
