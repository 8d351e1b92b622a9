-- ===== src/Memory/Fork.antt =====
-- mm/forkexit.c `do_fork`.
use oscourse_project.Base.{
  ℕ, zero, suc, ◌+◌, ◌-◌, ◌^◌, ◌<◌, ◌≤◌, ◌≡◌, ◌≢◌, refl, ap, ◌∙◌, Bool, true, false, Option, none,
  some, ◌∷◌, ◌==◌, if◌then◌else◌, arith, leb, Bool-cases, inl, inr, ==→eq, eq→==, ne→==, ◌%◌,
  lt→ltb, le→ltb, then_of_true, else_of_false, has_flag, clear_flag,
}
use oscourse_project.Proc.{Proc, Table, write, nr_slots, free_slot, receiving, task_mm, no_task}
use oscourse_project.Ipc.Send.{received, message_size}
use oscourse_project.Segment.{copy, ldt_seg_linear}
use oscourse_project.Segment.Laws.{ldt_seg_linear-init_desc}
use oscourse_project.Memory.{
  Mm, Sent, Outcome, put_proc, free_entry, duplicate, child_ldt, same_segments, segment_base,
  segment_size, t_limit, fork_into, do_fork, first_pid, proc_image_size_default, check, tell,
  after_ok, receive_birth, give_birth,
}
use oscourse_project.Memory.Exit.{write-own, write-other}
use oscourse_project.Memory.Blocks.{block_of, alloc_mem-ok}

le→leb : (a b : ℕ) → a ≤ b → leb a b ≡ true
le→leb a b h = ground arith

-- The search finds the first unused entry.
free_entry-first :
    (n i child : ℕ) (t : Table)
    → i ≤ child
    → child < i + n
    → (t child).p_flags ≡ free_slot
    → ((j : ℕ) → j < child → (t j).p_flags ≢ free_slot)
    → free_entry n i t ≡ child
unfolding free_entry
free_entry-first zero i child t h h' free used = absurd (omega arith)
free_entry-first (suc n) i child t h h' free used = elim (Bool-cases (i == child)) [
  | inl here ↦
      rw (eq→== (t i).p_flags free_slot (ap (λ (k : ℕ). (t k).p_flags) (==→eq i child here) ∙ free))
        (==→eq i child here)
  | inr later ↦
      rw (ne→== (t i).p_flags free_slot (used i (ground (arith, later))))
        (free_entry-first n (i + 1) child t (ground (arith, later)) (omega arith) free used)
]

-- It finds none where all are used.
free_entry-none :
    (n i : ℕ) (t : Table)
    → ((j : ℕ) → j < i + n → (t j).p_flags ≢ free_slot)
    → free_entry n i t ≡ i + n
unfolding free_entry
free_entry-none zero i t used = omega arith
free_entry-none (suc n) i t used =
    rw (ne→== (t i).p_flags free_slot (used i (omega arith)))
      (free_entry-none n (i + 1) t (λ j h. used j (omega arith)) ∙ omega arith)

-- fork fails with -1 and changes nothing when no entry of the table is free.
pub do_fork_full :
    (message : ℕ → ℕ) (pid : ℕ) (s : Mm)
    → ((j : ℕ) → j < nr_slots → (s.table j).p_flags ≢ free_slot)
    → do_fork message pid s ≡ Outcome.ok (2 ^ 32 - 1, none) s
unfolding do_fork
do_fork_full message pid s used = rw (free_entry-none nr_slots 0 s.table used) refl

abbrev started : (message : ℕ → ℕ) → (pid : ℕ) → Mm → ℕ → Outcome (ℕ × Option ℕ)
started message pid s n =
    check (leb first_pid n)
      (if n == nr_slots then Outcome.ok (2 ^ 32 - 1, none) s else fork_into message pid n s)

guarded :
    {A : Type 0} (b c : Bool) (x y : Outcome A)
    → b ≡ true
    → c ≡ false
    → check b (if c then x else y) ≡ y
guarded b c x y h h' = rw (h, h') refl

-- A byte of the message, and one outside of its buffer.
receive_birth-inside :
    (message : ℕ → ℕ) (la k : ℕ) (mem : ℕ → ℕ)
    → k < message_size
    → receive_birth message (la % 2 ^ 32) mem ((la % 2 ^ 32 + k) % 2 ^ 32) ≡ message k
unfolding receive_birth
receive_birth-inside message la k mem h =
    let o : ℕ = ((la % 2 ^ 32 + k) % 2 ^ 32 + (2 ^ 32 - la % 2 ^ 32)) % 2 ^ 32 in
    let e : o ≡ k = omega (arith, h) in
    then_of_true (message o) _ (lt→ltb o message_size (omega (arith, e, h))) ∙ ap message e

receive_birth-outside :
    (message : ℕ → ℕ) (la a : ℕ) (mem : ℕ → ℕ)
    → message_size ≤ (a + (2 ^ 32 - la)) % 2 ^ 32
    → receive_birth message la mem a ≡ mem a
unfolding receive_birth
receive_birth-outside message la a mem h = else_of_false _ (mem a) (le→ltb _ message_size h)

module _ (message : ℕ → ℕ) (pid child : ℕ) (s : Mm) where
  -- The number of bytes that the caller's segments hold.
  abbrev pub size : ℕ
  size = segment_size (t_limit (s.table pid).ldt_c) (s.table pid).ldt_c

  -- The first free entry of the table is that of `child`, the caller's segments agree, and memory is
  -- large enough.
  pub record CanFork : Type 0 where
    pub forkable : first_pid ≤ child
    pub in_the_table : child < nr_slots
    pub free : (s.table child).p_flags ≡ free_slot
    pub used : (j : ℕ) → j < child → (s.table j).p_flags ≢ free_slot
    pub agree : same_segments (s.table pid) ≡ true
    pub small : size ≤ proc_image_size_default
    pub fits : block_of child + size < s.memory_size
    pub receives : (s.table pid).p_flags ≡ receiving
    pub from_mm : (s.table pid).p_recvfrom ≡ task_mm
    pub buffer : (s.table pid).p_msg ≢ 0
    pub sends_none : (s.table pid).p_sendto ≡ no_task
    pub top : s.memory_size < 2 ^ 31

  -- The child's entry.
  abbrev pub child_proc : Proc
  child_proc = child_ldt (block_of child) (duplicate s.table pid child)

  -- The table before the birth, the caller's memory in the child's block, and the buffer of the
  -- child's message.
  abbrev before_birth : Table
  before_birth = write (write s.table child (duplicate s.table pid child)) child child_proc

  abbrev pub image : ℕ → ℕ
  image = copy size (block_of child) (segment_base (s.table pid).ldt_c) s.mem

  abbrev pub child_buffer : ℕ
  child_buffer = (block_of child + (s.table pid).p_msg) % 2 ^ 32

  unfoldable pub forked : Mm
  forked = record {
    table = write before_birth child (received child_proc);
    mem = receive_birth message child_buffer image;
    memory_size = s.memory_size;
    sent = Sent.born child ∷ Sent.fork_to_fs child ∷ s.sent;
  }

  child_base : CanFork → ldt_seg_linear child_proc.ldt_rw ≡ block_of child
  unfolding child_ldt
  child_base c = ldt_seg_linear-init_desc (block_of child) _ _ (omega (arith, c.fits, c.top))

  -- A child that is such a copy of the caller gets its message.
  give_birth-ok :
      CanFork
      → (s1 : Mm) → s1.table child ≡ child_proc
      → give_birth message child s1
        ≡ Outcome.ok tt (
            tell (Sent.born child) (
              put_proc child
                (received child_proc)
                (record s1 { mem = receive_birth message child_buffer s1.mem })))
  unfolding give_birth child_ldt duplicate received has_flag clear_flag
  give_birth-ok c s1 own =
      rw
        (
          own,
          child_base c,
          c.receives,
          c.from_mm,
          c.sends_none,
          ne→== (s.table pid).p_msg 0 c.buffer,
        )
        refl

  fork_into-ok : CanFork → fork_into message pid child s ≡ Outcome.ok (0, some child) forked
  unfolding fork_into forked
  fork_into-ok c =
      rw
        (
          c.agree,
          alloc_mem-ok child size (put_proc child (duplicate s.table pid child) s) c.forkable
              c.in_the_table c.small c.fits c.top,
        )
        (ap (λ (o : Outcome (Unit {0})). after_ok o (λ _ s2. Outcome.ok (0, some child) s2))
          (give_birth-ok c
            (tell (Sent.fork_to_fs child) (record s { table = before_birth; mem = image }))
            (write-own _ child child_proc)))

  do_fork-ok : CanFork → do_fork message pid s ≡ Outcome.ok (0, some child) forked
  unfolding do_fork
  do_fork-ok c =
      ap (started message pid s)
        (free_entry-first nr_slots 0 child s.table (omega arith) c.in_the_table c.free c.used)
      ∙ guarded (leb first_pid child) (child == nr_slots) (Outcome.ok (2 ^ 32 - 1, none) s)
          (fork_into message pid child s) (le→leb first_pid child c.forkable)
          (ne→== child nr_slots (λ e. (omega (arith, e, c.in_the_table))))
      ∙ fork_into-ok c

  -- fork, where an entry is free, memory is large enough and the caller's segments agree, gives the
  -- first free entry to the child and returns 0. The caller waits for MM, and for nothing else, with a
  -- buffer for its message. The child has the caller as its parent, its own LDT selector, the caller's
  -- registers and a segment that starts at its own block; it waits for nothing any more and may run.
  -- The caller's memory has been copied to the block, and the message of the birth lies in the child's
  -- buffer; all other entries are unchanged, and FS and the child are told.
  pub do_fork_lem :
      CanFork
      → (s' : Mm) × (do_fork message pid s ≡ Outcome.ok (0, some child) s')
        × ((s'.table child).p_parent ≡ pid)
        × ((s'.table child).ldt_sel ≡ (s.table child).ldt_sel)
        × ((s'.table child).regs ≡ (s.table pid).regs)
        × ((s'.table child).p_flags ≡ 0)
        × ((s'.table child).p_recvfrom ≡ no_task)
        × (ldt_seg_linear (s'.table child).ldt_rw ≡ block_of child)
        × ((j : ℕ) → child ≢ j → s'.table j ≡ s.table j)
        × ((k : ℕ) → k < message_size → s'.mem ((child_buffer + k) % 2 ^ 32) ≡ message k)
        × ((a : ℕ)
            → message_size ≤ (a + (2 ^ 32 - child_buffer)) % 2 ^ 32
            → s'.mem a ≡ copy size (block_of child) (segment_base (s.table pid).ldt_c) s.mem a)
        × (s'.sent ≡ Sent.born child ∷ Sent.fork_to_fs child ∷ s.sent)
  unfolding forked duplicate child_ldt received clear_flag
  do_fork_lem c = (
    forked,
    do_fork-ok c,
    ap (λ (p : Proc). p.p_parent) own,
    ap (λ (p : Proc). p.ldt_sel) own,
    ap (λ (p : Proc). p.regs) own,
    ap (λ (p : Proc). p.p_flags) own ∙ ap (λ (n : ℕ). clear_flag n receiving) c.receives,
    ap (λ (p : Proc). p.p_recvfrom) own,
    ap (λ (p : Proc). ldt_seg_linear p.ldt_rw) own ∙ child_base c,
    (λ j h.
        write-other _ child (received child_proc) j h
        ∙ (write-other _ child child_proc j h ∙ write-other s.table child _ j h)),
    (λ k h. receive_birth-inside message (block_of child + (s.table pid).p_msg) k image h),
    (λ a h. receive_birth-outside message child_buffer a image h),
    refl,
  )
    where
      own : forked.table child ≡ received child_proc
      own = write-own _ child (received child_proc)
