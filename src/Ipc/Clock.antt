-- ===== src/Ipc/Clock.antt =====
-- kernel/clock.c `clock_handler` when no key has been pressed.
use oscourse_project.Base.{
  ℕ, ◌+◌, ◌-◌, ◌^◌, ◌<◌, ◌≤◌, ◌≡◌, ◌≢◌, ◌&&◌, ◌⊎◌, refl, sym, ap, ◌∙◌, inl, inr, ◌==◌, ltb, leb,
  if◌then◌else◌, arith, Bool-cases,
}
use oscourse_project.Proc.{Proc, Kernel, write}
use oscourse_project.Run.{ok}
use oscourse_project.Schedule.{schedule}
use oscourse_project.Schedule.Choice.{Runnable, IsPositive, IsBest, Untimed, schedule_picks}
use oscourse_project.Ipc.Call.{clock_handler, max_ticks}

-- The kernel after the two counters have moved.
unfoldable ticked : Kernel → Kernel
ticked k = record k {
  clock = if leb max_ticks (k.clock + 1) then 0 else k.clock + 1;
  table =
      if (k.table k.ready).ticks == 0
      then k.table
      else write k.table k.ready (record (k.table k.ready) { ticks = (k.table k.ready).ticks - 1 });
}

module _ (k : Kernel) where
  ticked-Untimed : (j : ℕ) → Untimed ((ticked k).table j) (k.table j)
  unfolding ticked write
  ticked-Untimed j = ground arith

  goes_on :
      k.key_pressed ≡ 0
      → k.k_reenter ≡ 0
      → 1 < (k.table k.ready).ticks
      → (k.table k.ready).ticks < 2 ^ 31
      → clock_handler k ≡ ok tt (ticked k)
  unfolding clock_handler ticked write
  goes_on key free more top = ground arith

  chooses :
      k.key_pressed ≡ 0
      → k.k_reenter ≡ 0
      → ((k.table k.ready).ticks ≤ 1) ⊎ (2 ^ 31 < (k.table k.ready).ticks)
      → clock_handler k ≡ schedule (ticked k)
  unfolding clock_handler ticked write
  chooses key free few = ground arith

  still : {i : ℕ} → Runnable k.table i → Runnable (ticked k).table i
  still {i} (h, run) = (h, ap (λ (p : Proc). p.p_flags) (ticked-Untimed i) ∙ run)

  -- A clock interrupt, with no key pressed and not inside another interrupt, ends and changes no
  -- entry but for its ticks, if some entry may run and its priority is positive. The running process
  -- goes on if it had more than one tick left; if not, an entry that may run is chosen, one that has
  -- the most ticks of those. Ticks and priorities are signed; the ticks of the running process are not
  -- the least `int`, which cannot be counted down.
  pub clock_handler_lem :
      (i : ℕ)
      → k.key_pressed ≡ 0
      → k.k_reenter ≡ 0
      → (k.table k.ready).ticks ≢ 2 ^ 31
      → Runnable k.table i
      → IsPositive (k.table i).priority
      → (k' : Kernel) × (clock_handler k ≡ ok tt k')
        × ((j : ℕ) → Untimed (k'.table j) (k.table j))
        × ((1 < (k.table k.ready).ticks) × ((k.table k.ready).ticks < 2 ^ 31) × (k'.ready ≡ k.ready)
            ⊎ (((k.table k.ready).ticks ≤ 1) ⊎ (2 ^ 31 < (k.table k.ready).ticks))
              × IsBest k'.table k'.ready)
  clock_handler_lem i key free least run pos =
      elim (Bool-cases (ltb 1 (k.table k.ready).ticks && ltb (k.table k.ready).ticks (2 ^ 31))) [
        | inl more ↦
            (let many : 1 < (k.table k.ready).ticks = ground (arith, more) in
              let top : (k.table k.ready).ticks < 2 ^ 31 = ground (arith, more) in
              (
                ticked k,
                goes_on key free many top,
                ticked-Untimed,
                inl (many, top, unfold ticked in refl),
              ))
        | inr few ↦
            (let ends : ((k.table k.ready).ticks ≤ 1) ⊎ (2 ^ 31 < (k.table k.ready).ticks) =
                ground (arith, few, least) in
              let priority : (k.table i).priority ≡ ((ticked k).table i).priority =
                ap (λ (p : Proc). p.priority) (sym (ticked-Untimed i)) in
              let (k', e, s) =
                schedule_picks (ticked k) i (still run)
                  (omega (arith, priority, pos.0), omega (arith, priority, pos.1)) in
              (
                k',
                chooses key free ends ∙ e,
                (λ j. s.same j ∙ ticked-Untimed j),
                inr (ends, s.best),
              ))
      ]
