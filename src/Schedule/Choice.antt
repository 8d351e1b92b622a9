-- ===== src/Schedule/Choice.antt =====
-- What `schedule` chooses, and when its loop ends.
use oscourse_project.Base.{
  ℕ, zero, suc, ◌+◌, ◌≤◌, ◌<◌, ◌^◌, ◌≡◌, ◌≢◌, refl, ◌∙◌, sym, subst, ◌⊎◌, inl, inr, arith, ◌==◌,
  Option, none, some, Bool-cases, leb, some_inj, lt→ltb,
}
use oscourse_project.Proc.{Proc, Table, Kernel, nr_slots}
use oscourse_project.Run.{ok}
use oscourse_project.Schedule.{
  consider, scan, scan_all, refill, choose, sched_rounds, after_choice, schedule,
}

-- Entry `i` may run now.
abbrev pub Runnable : Table → ℕ → Type 0
Runnable t i = (i < nr_slots) × ((t i).p_flags ≡ 0)

-- The bit pattern is that of a positive `int`, or of one that is not.
abbrev pub IsPositive : ℕ → Type 0
IsPositive n = (0 < n) × (n < 2 ^ 31)

abbrev pub NotPositive : ℕ → Type 0
NotPositive n = (n ≡ 0) ⊎ (2 ^ 31 ≤ n)

-- What a scan of `n` entries from `i` that starts at `s` ends with.
pub record Scanned (t : Table) (n i : ℕ) (s out : ℕ × ℕ) : Type 0 where
  pub grows : s.0 ≤ out.0
  pub small : out.0 < 2 ^ 31
  pub most :
      (j : ℕ) → i ≤ j → j < i + n → (t j).p_flags ≡ 0 → (t j).ticks < 2 ^ 31 → (t j).ticks ≤ out.0
  pub origin :
      ((s.0 ≡ out.0) × (s.1 ≡ out.1))
      ⊎ ((s.0 < out.0)
          × (i ≤ out.1)
          × (out.1 < i + n)
          × ((t out.1).p_flags ≡ 0)
          × ((t out.1).ticks ≡ out.0))

-- What one step of a scan does.
abbrev Considered : Proc → ℕ → (s c : ℕ × ℕ) → Type 0
Considered p i s c =
    ((c.0 ≡ s.0) × (c.1 ≡ s.1) × (p.p_flags ≡ 0 → p.ticks < 2 ^ 31 → p.ticks ≤ s.0))
    ⊎ ((c.0 ≡ p.ticks) × (c.1 ≡ i) × (p.p_flags ≡ 0) × (s.0 < p.ticks) × (p.ticks < 2 ^ 31))

consider-Considered :
    (p : Proc) (i : ℕ) (s : ℕ × ℕ) → s.0 < 2 ^ 31 → Considered p i s (consider p i s)
unfolding consider
consider-Considered p i s h = ground arith

consider_small : (p : Proc) (i : ℕ) (s : ℕ × ℕ) → s.0 < 2 ^ 31 → (consider p i s).0 < 2 ^ 31
unfolding consider
consider_small p i s h = ground arith

module _ {t : Table} {n i : ℕ} {s c out : ℕ × ℕ} where
  Scanned-step : Considered (t i) i s c → Scanned t n (i + 1) c out → Scanned t (suc n) i s out
  Scanned-step (inl (e, e', low)) r = record {
    grows = omega (arith, r.grows);
    small = r.small;
    most = λ j h l f g. elim (Bool-cases (i == j)) [
      | inl same ↦ ground (arith, low, r.grows)
      | inr other ↦ r.most j (ground arith) (omega arith) f g
    ];
    origin = ground (arith, r.origin);
  }
  Scanned-step (inr (e, e', free, more, top)) r = record {
    grows = omega (arith, r.grows);
    small = r.small;
    most = λ j h l f g. elim (Bool-cases (i == j)) [
      | inl same ↦ ground (arith, r.grows)
      | inr other ↦ r.most j (ground arith) (omega arith) f g
    ];
    origin = ground (arith, r.origin);
  }

scan-Scanned : (t : Table) (n i : ℕ) (s : ℕ × ℕ) → s.0 < 2 ^ 31 → Scanned t n i s (scan t n i s)
unfolding scan
scan-Scanned t zero i s small = record {
  grows = omega arith;
  small = small;
  most = λ j h l e g. absurd (omega arith);
  origin = inl (refl, refl);
}
scan-Scanned t (suc n) i s small =
    Scanned-step (consider-Considered (t i) i s small)
      (scan-Scanned t n (i + 1) (consider (t i) i s) (consider_small (t i) i s small))

-- The whole table was scanned and entry `r` has the most ticks of those that may run;
-- negative ticks, which are below its own, are left out.
pub record IsBest (t : Table) (r : ℕ) : Type 0 where
  pub runnable : Runnable t r
  pub positive : IsPositive (t r).ticks
  pub most : (j : ℕ) → Runnable t j → (t j).ticks < 2 ^ 31 → (t j).ticks ≤ (t r).ticks

-- A scan of the table finds the best entry, or there is none with ticks and `p_proc_ready` stays.
pub scan_all_cases :
    (t : Table) (r : ℕ)
    → (((scan_all t r).0 ≡ 0)
        × ((scan_all t r).1 ≡ r)
        × ((j : ℕ) → Runnable t j → NotPositive (t j).ticks))
      ⊎ ((scan_all t r).0 ≢ 0) × IsBest t (scan_all t r).1
unfolding scan_all
scan_all_cases t r = go (scan-Scanned t nr_slots 0 (0, r) (omega arith))
  where
    go :
        {out : ℕ × ℕ}
        → Scanned t nr_slots 0 (0, r) out
        → ((out.0 ≡ 0) × (out.1 ≡ r) × ((j : ℕ) → Runnable t j → NotPositive (t j).ticks))
          ⊎ (out.0 ≢ 0) × IsBest t out.1
    go s = elim s.origin [
      | inl (e, e') ↦ inl (
        omega arith,
        sym e',
        λ j run. elim (Bool-cases (leb (2 ^ 31) (t j).ticks)) [
          | inl neg ↦ inr (ground (arith, neg))
          | inr top ↦
              inl (omega (arith, s.most j (omega arith) (omega arith) run.1 (ground (arith, top))))
        ],
      )
      | inr (more, low, high, free, e) ↦ inr (
        omega arith,
        record {
          runnable = (omega arith, free);
          positive = (omega arith, omega (arith, s.small));
          most = λ j run g. omega (arith, s.most j (omega arith) (omega arith) run.1 g);
        },
      )
    ]

-- The two entries differ in their `ticks` at most.
abbrev pub Untimed : Proc → Proc → Type 0
Untimed p q = ◌≡◌ {A = Proc} (record p { ticks = 0 }) (record q { ticks = 0 })

-- What the loop of `schedule` started on `t` has done when it ends.
pub record Chosen (t : Table) (out : Table × ℕ) : Type 0 where
  pub best : IsBest out.0 out.1
  pub same : (j : ℕ) → Untimed (out.0 j) (t j)

refill-Untimed : (t : Table) (j : ℕ) → Untimed (refill t j) (t j)
unfolding refill
refill-Untimed t j = ground arith

choose-Chosen :
    (n : ℕ) (t : Table) (r : ℕ) {out : Table × ℕ} → choose n t r ≡ some out → Chosen t out
unfolding choose
choose-Chosen zero t r e = cc
choose-Chosen (suc n) t r {out} e = elim (scan_all_cases t r) [
  | inl (z, same, no_ticks) ↦
      let c = choose-Chosen n (refill t) (scan_all t r).1 {out = out} (ground arith) in
      record { best = c.best; same = λ j. c.same j ∙ refill-Untimed t j }
  | inr (nz, best) ↦
      let stays : ◌≡◌ {A = Option (Table × ℕ)} (some (t, (scan_all t r).1)) (some out) =
        ground arith in
      subst (λ (p : Table × ℕ). Chosen t p) (some_inj stays)
        (record { best = best; same = λ j. refl })
]

-- A runnable entry with positive ticks is enough for one round, and one with a positive priority for
-- two.
choose_one :
    (n : ℕ) (t : Table) (r i : ℕ)
    → Runnable t i
    → IsPositive (t i).ticks
    → choose (suc n) t r ≡ some (t, (scan_all t r).1)
unfolding choose
choose_one n t r i run pos = elim (scan_all_cases t r) [
  | inl (z, same, no_ticks) ↦ absurd (omega (arith, no_ticks i run))
  | inr (nz, best) ↦ ground arith
]

refill_lem :
    (t : Table) (i : ℕ) → Runnable t i → refill t i ≡ record (t i) { ticks = (t i).priority }
unfolding refill
refill_lem t i run = ground (arith, lt→ltb i nr_slots run.0)

choose_two :
    (t : Table) (r i : ℕ)
    → Runnable t i
    → IsPositive (t i).priority
    → (out : Table × ℕ) × (choose sched_rounds t r ≡ some out)
unfolding choose
choose_two t r i run pos = elim (scan_all_cases t r) [
  | inl (z, same, no_ticks) ↦
      let e = refill_lem t i run in
      (
        (refill t, (scan_all (refill t) (scan_all t r).1).1),
        ground (arith, choose_one 0 (refill t) (scan_all t r).1 i (run.0, rw e run.1) (rw e pos)),
      )
  | inr (nz, best) ↦ ((t, (scan_all t r).1), ground arith)
]

-- With no runnable entry whose ticks or priority are positive, the loop goes on for ever.
abbrev pub NoneCanRun : Table → Type 0
NoneCanRun t = (j : ℕ) → Runnable t j → NotPositive (t j).ticks × NotPositive (t j).priority

refill-NoneCanRun : (t : Table) → NoneCanRun t → NoneCanRun (refill t)
unfolding refill
refill-NoneCanRun t h j run = ground (arith, h j)

choose-none : (n : ℕ) (t : Table) (r : ℕ) → NoneCanRun t → choose n t r ≡ none
unfolding choose
choose-none zero t r h = refl
choose-none (suc n) t r h = elim (scan_all_cases t r) [
  | inl (z, same, no_ticks) ↦
      ground (arith, choose-none n (refill t) (scan_all t r).1 (refill-NoneCanRun t h))
  | inr (nz, best) ↦ absurd (omega (arith, best.positive, h (scan_all t r).1 best.runnable))
]

-- The kernel is `k` but for the `ticks` of its processes and the choice of the next one.
pub record Switched (k k' : Kernel) : Type 0 where
  pub best : IsBest k'.table k'.ready
  pub same : (j : ℕ) → Untimed (k'.table j) (k.table j)
  pub rest : k' ≡ record k { table = k'.table; ready = k'.ready }

-- If some entry may run and its priority is positive, `schedule` ends, and it has set
-- `p_proc_ready` to an entry that may run and has the most ticks of those that may run, more than
-- none, where ticks and priorities are signed; of the rest of the kernel only `ticks` fields have
-- changed.
pub schedule_picks :
    (k : Kernel) (i : ℕ)
    → Runnable k.table i
    → IsPositive (k.table i).priority
    → (k' : Kernel) × (schedule k ≡ ok tt k') × Switched k k'
unfolding schedule after_choice
schedule_picks k i run pos =
    let (out, e) = choose_two k.table k.ready i run pos in
    let c = choose-Chosen sched_rounds k.table k.ready e in
    (
      record k { table = out.0; ready = out.1 },
      rw e,
      record { best = c.best; same = c.same; rest = refl },
    )

-- If no entry that may run has positive ticks or a positive priority, `schedule` does not end: no number of rounds
-- of its loop is enough.
pub schedule_hangs : (k : Kernel) (n : ℕ) → NoneCanRun k.table → choose n k.table k.ready ≡ none
schedule_hangs k n h = choose-none n k.table k.ready h
