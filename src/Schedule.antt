-- ===== src/Schedule.antt =====
-- kernel/proc.c `schedule`: the choice of the process to run.
-- The `while` of `schedule` takes its rounds as fuel; `sched_rounds` of them are enough whenever
-- any number is (Schedule/Choice).
pub mod Choice
use oscourse_project.Base.{
  ℕ, zero, suc, ◌+◌, ◌-◌, ◌^◌, Bool, true, false, ltb, leb, ◌==◌, ◌&&◌, if◌then◌else◌, Option, none,
  some,
}
use oscourse_project.Proc.{Proc, Table, write, Kernel, nr_slots}
use oscourse_project.Run.{Cmd, Run, ok, stop, Stop}

-- `a < b` on `int`, of bit patterns
abbrev pub int_ltb : ℕ → ℕ → Bool
int_ltb a b =
    if leb (2 ^ 31) a
    then (if leb (2 ^ 31) b then ltb a b else true)
    else (if leb (2 ^ 31) b then false else ltb a b)

-- One step of the inner loop of `schedule` at the entry `i`: the greatest ticks seen and
-- `p_proc_ready`.
unfoldable pub consider : Proc → ℕ → ℕ × ℕ → ℕ × ℕ
consider p i (greatest, ready) =
    if p.p_flags == 0 && int_ltb greatest p.ticks then (p.ticks, i) else (greatest, ready)

-- `for (p = &FIRST_PROC; p <= &LAST_PROC; p++)`, of `n` entries from `i` on
unfoldable pub scan : Table → (n i : ℕ) → ℕ × ℕ → ℕ × ℕ
unfolding consider
scan t zero i s = s
scan t (suc n) i s = scan t n (i + 1) (consider (t i) i s)

-- The loop over the whole table, from `greatest_ticks == 0`.
unfoldable pub scan_all : Table → ℕ → ℕ × ℕ
scan_all t ready = scan t nr_slots 0 (0, ready)

-- `if (p->p_flags == 0) p->ticks = p->priority;` over the whole table
unfoldable pub refill : Table → Table
refill t i =
    if ltb i nr_slots && (t i).p_flags == 0 then record (t i) { ticks = (t i).priority } else t i

-- The `while (!greatest_ticks)` loop: the table and the `p_proc_ready` that it leaves.
unfoldable pub choose : (rounds : ℕ) → Table → ℕ → Option (Table × ℕ)
choose zero t ready = none
choose (suc n) t ready =
    let (greatest, ready') = scan_all t ready in
    let rest = choose n (refill t) ready' in if greatest == 0 then rest else some (t, ready')

abbrev pub sched_rounds : ℕ
sched_rounds = 2

unfoldable pub after_choice : Kernel → Option (Table × ℕ) → Run (Unit {0})
after_choice k none = stop Stop.out_of_fuel
after_choice k (some (t, r)) = ok tt (record k { table = t; ready = r })

unfoldable pub schedule : Cmd (Unit {0})
schedule k = after_choice k (choose sched_rounds k.table k.ready)
