-- ===== src/Memory/Exit.antt =====
-- mm/forkexit.c `do_exit`.
use oscourse_project.Base.{
  ℕ, zero, suc, ◌+◌, ◌<◌, ◌≤◌, ◌≡◌, ◌≢◌, refl, sym, ap, ◌∙◌, ◌&&◌, ◌==◌, if◌then◌else◌, arith,
  has_flag, set_flag, Bool-cases, inl, inr, ==→eq, ne→==, ==-self,
}
use oscourse_project.Proc.{Proc, Table, write, nr_slots, free_slot, waiting, hanging, init}
use oscourse_project.Memory.{
  Mm, Sent, put_proc, tell, cleanup, stop_waiting, reap, part, adopt_one, adopt, leave, do_exit,
}

pub write-other : (t : Table) (i : ℕ) (p : Proc) (j : ℕ) → i ≢ j → write t i p j ≡ t j
unfolding write
write-other t i p j h = rw (ne→== i j h) refl

pub write-own : (t : Table) (i : ℕ) (p : Proc) → write t i p i ≡ p
unfolding write
write-own t i p = rw (==-self i) refl

cleanup-own : (i : ℕ) (s : Mm) → (cleanup i s).table i ≡ record (s.table i) { p_flags = free_slot }
unfolding cleanup
cleanup-own i s = write-own s.table i _

cleanup-other : (i : ℕ) (s : Mm) (j : ℕ) → i ≢ j → (cleanup i s).table j ≡ s.table j
unfolding cleanup
cleanup-other i s j h = write-other s.table i _ j h

stop_waiting-other : (i : ℕ) (s : Mm) (j : ℕ) → i ≢ j → (stop_waiting i s).table j ≡ s.table j
unfolding stop_waiting
stop_waiting-other i s j h = write-other s.table i _ j h

reap-other : (i : ℕ) (s : Mm) (j : ℕ) → i ≢ j → init ≢ j → (reap i s).table j ≡ s.table j
unfolding reap
reap-other i s j h h' =
    elim (Bool-cases
      (has_flag (s.table init).p_flags waiting && has_flag (s.table i).p_flags hanging)) [
        | inl met ↦
            rw met (cleanup-other i (stop_waiting init s) j h ∙ stop_waiting-other init s j h')
        | inr unmet ↦ rw unmet refl
      ]

module _ (i pid : ℕ) (s : Mm) where
  adopt_one-p_parent :
      (j : ℕ)
      → ((adopt_one i pid s).table j).p_parent
        ≡ (if (i == j) && ((s.table i).p_parent == pid) then init else (s.table j).p_parent)
  unfolding adopt_one reap cleanup stop_waiting write
  adopt_one-p_parent j = ground arith

  -- The entry of the process that leaves is touched only if it is INIT or its own child.
  adopt_one-own :
      pid ≢ init → (s.table pid).p_parent ≢ pid → (adopt_one i pid s).table pid ≡ s.table pid
  unfolding adopt_one
  adopt_one-own h h' = elim (Bool-cases ((s.table i).p_parent == pid)) [
    | inr miss ↦ rw miss refl
    | inl hit ↦
        (let other : i ≢ pid =
            λ e. h' (ap (λ (k : ℕ). (s.table k).p_parent) (sym e) ∙ ==→eq _ pid hit) in
          rw hit (
            reap-other i (put_proc i (record (s.table i) { p_parent = init }) s) pid other
              (λ e. h (sym e))
            ∙ write-other s.table i (record (s.table i) { p_parent = init }) pid other))
  ]

adopt-before :
    (n i pid : ℕ) (s : Mm) (j : ℕ)
    → j < i
    → ((adopt n i pid s).table j).p_parent ≡ (s.table j).p_parent
unfolding adopt
adopt-before zero i pid s j h = refl
adopt-before (suc n) i pid s j h =
    adopt-before n (i + 1) pid (adopt_one i pid s) j (omega arith)
    ∙ adopt_one-p_parent i pid s j
    ∙ rw (ne→== i j (omega arith)) refl

adopt-orphans :
    (n i pid : ℕ) (s : Mm) (j : ℕ)
    → pid ≢ init
    → i ≤ j
    → j < i + n
    → ((adopt n i pid s).table j).p_parent ≢ pid
unfolding adopt
adopt-orphans zero i pid s j ne h h' = absurd (omega arith)
adopt-orphans (suc n) i pid s j ne h h' = elim (Bool-cases (i == j)) [
  | inl here ↦
      (let before : _ =
          adopt-before n (i + 1) pid (adopt_one i pid s) j (omega (arith, ==→eq i j here)) in
        let one : _ = adopt_one-p_parent i pid s j in λ e. ground (arith, here, before, one, e))
  | inr later ↦
      adopt-orphans n (i + 1) pid (adopt_one i pid s) j ne (ground (arith, later)) (omega arith)
]

adopt-own :
    (n i pid : ℕ) (s : Mm)
    → pid ≢ init
    → (s.table pid).p_parent ≢ pid
    → (adopt n i pid s).table pid ≡ s.table pid
unfolding adopt
adopt-own zero i pid s h h' = refl
adopt-own (suc n) i pid s h h' =
    adopt-own n (i + 1) pid (adopt_one i pid s) h
      (λ e. h' (ap (λ (p : Proc). p.p_parent) (sym (adopt_one-own i pid s h h')) ∙ e))
    ∙ adopt_one-own i pid s h h'

-- The entry of a process that has ended: it is free if its parent waits, and hangs if not.
abbrev pub parted : (parent p : Proc) → Proc
parted parent p =
    if has_flag parent.p_flags waiting
    then record p { p_flags = free_slot }
    else record p { p_flags = set_flag p.p_flags hanging }

part-own :
    (pid parent : ℕ) (s : Mm)
    → parent ≢ pid
    → (part pid parent s).table pid ≡ parted (s.table parent) (s.table pid)
unfolding part
part-own pid parent s h = elim (Bool-cases (has_flag (s.table parent).p_flags waiting)) [
  | inl waits ↦ rw waits (
      cleanup-own pid (stop_waiting parent s)
      ∙ ap (λ (p : Proc). record p { p_flags = free_slot }) (stop_waiting-other parent s pid h))
  | inr not_waits ↦ rw not_waits (write-own s.table pid _)
]

leave-own :
    (pid status : ℕ) (s : Mm)
    → (s.table pid).p_parent ≢ pid
    → (leave pid status s).table pid
      ≡ parted (s.table (s.table pid).p_parent) (record (s.table pid) { exit_status = status })
unfolding leave
leave-own pid status s h =
    let p : Proc = record (s.table pid) { exit_status = status } in
    let s1 : Mm = put_proc pid p (tell (Sent.exit_to_fs pid) s) in
    let parent : ℕ = (s.table pid).p_parent in
    part-own pid parent s1 h
    ∙ ap (λ (q : Proc). parted q (s1.table pid)) (write-other s.table pid p parent (λ e. h (sym e)))
    ∙ ap (λ (q : Proc). parted (s.table parent) q) (write-own s.table pid p)

parted-p_parent : (parent p : Proc) → (parted parent p).p_parent ≡ p.p_parent
parted-p_parent parent p = ground arith

-- After do_exit by a process that is neither INIT nor its own parent, no process has it as its
-- parent; its own entry holds the status and is free if the parent was waiting, and hangs otherwise.
pub do_exit_lem :
    (pid status : ℕ) (s : Mm)
    → pid ≢ init
    → (s.table pid).p_parent ≢ pid
    → ((j : ℕ) → j < nr_slots → ((do_exit pid status s).table j).p_parent ≢ pid)
      × ((do_exit pid status s).table pid ≡ (
          if has_flag (s.table (s.table pid).p_parent).p_flags waiting
          then record (s.table pid) { exit_status = status; p_flags = free_slot }
          else record (s.table pid) {
            exit_status = status;
            p_flags = set_flag (s.table pid).p_flags hanging;
          }))
unfolding do_exit
do_exit_lem pid status s h h' = (
  (λ j small. adopt-orphans nr_slots 0 pid (leave pid status s) j h (omega arith) small),
  adopt-own nr_slots 0 pid (leave pid status s) h not_own ∙ leave-own pid status s h',
)
  where
    not_own : ((leave pid status s).table pid).p_parent ≢ pid
    not_own e = h' (
        sym (
          parted-p_parent (s.table (s.table pid).p_parent)
            (record (s.table pid) { exit_status = status }))
        ∙ ap (λ (p : Proc). p.p_parent) (sym (leave-own pid status s h'))
        ∙ e)
