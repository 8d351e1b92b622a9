-- ===== src/Boot/Start.antt =====
-- The table that `kernel_main` builds satisfies the invariant of the message code.
use oscourse_project.Base.{
  ℕ, ◌+◌, ◌<◌, ◌≡◌, false, arith, inl, inr, none, Bool-cases, lt→ltb, [], ◌∷◌, has_flag,
}
use oscourse_project.Proc.{nr_tasks, nr_native_procs, sending, receiving}
use oscourse_project.Segment.{ldt_seg_linear}
use oscourse_project.Segment.Laws.{ldt_seg_linear-init_desc}
use oscourse_project.Ipc.Walk.{stops}
use oscourse_project.Ipc.Invariant.{IsIpc, IsSettled}
use oscourse_project.Boot.{
  Image, first_entry, segment_rw, kernel_main, same_text, task_name, init_name,
}

module _ (image : Image) where
  flags-first_entry :
      (i : ℕ)
      → (has_flag (first_entry image i).p_flags sending ≡ false)
        × (has_flag (first_entry image i).p_flags receiving ≡ false)
  unfolding first_entry has_flag
  flags-first_entry i = ground arith

  first_entry-IsSettled : (i : ℕ) → IsSettled (first_entry image i)
  first_entry-IsSettled i = record {
    idle = λ e. (unfold first_entry in ground arith);
    sender = λ e. absurd (cc (e, (flags-first_entry i).0));
    receiver = λ e. absurd (cc (e, (flags-first_entry i).1));
    pointer = (unfold first_entry in ground arith);
  }

  links-first_entry :
      (i : ℕ)
      → ((first_entry image i).q_sending ≡ none) × ((first_entry image i).next_sending ≡ none)
  unfolding first_entry
  links-first_entry i = ground arith

  entry-segment :
      (i : ℕ) → i < nr_tasks + nr_native_procs → (first_entry image i).ldt_rw ≡ segment_rw image i
  entry-segment i h = unfold first_entry in rw (lt→ltb i (nr_tasks + nr_native_procs) h)

  segment-first_entry :
      ldt_seg_linear image.flat_rw ≡ 0
      → (i : ℕ) → i < nr_tasks + nr_native_procs
      → ldt_seg_linear (first_entry image i).ldt_rw ≡ 0
  segment-first_entry flat i h =
      rw (entry-segment i h) (elim (Bool-cases (same_text (task_name i) init_name)) [
        | inl hit ↦ unfold segment_rw in rw hit (ldt_seg_linear-init_desc 0 _ _ (omega arith))
        | inr miss ↦ unfold segment_rw ldt_seg_linear in rw miss flat
      ])

  -- The table that `kernel_main` builds satisfies the invariant of the message code, with nobody in
  -- any queue, if the loader's data segment starts at 0.
  pub kernel_main-IsIpc :
      (mem : ℕ → ℕ)
      → ldt_seg_linear image.flat_rw ≡ 0
      → IsIpc (kernel_main image mem).table (λ _. [])
  unfolding kernel_main
  kernel_main-IsIpc mem flat = record {
    settled = λ i h. first_entry-IsSettled i;
    chain = λ i h. (links-first_entry i).0;
    distinct = λ i h. tt;
    sound = λ i s h e. cc;
    complete = λ s h e. absurd (cc (e, (flags-first_entry s).0));
    unmatched = λ i s h r e. cc;
    acyclic = λ i h. (i ∷ [], stops h (flags-first_entry i).0);
    flat = segment-first_entry flat;
  }
