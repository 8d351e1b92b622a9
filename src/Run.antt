-- ===== src/Run.antt =====
-- Commands on the kernel's state. A command ends with a value and the new state, or stops the
-- machine: a failed `assert`, a `panic`, a pointer outside `proc_table`, or a loop out of fuel. With
-- `stuck` a task waits for ever, and `too_large` is a number past those that the model has.
use oscourse_project.Base.{ℕ, Bool, true, false, ltb}
use oscourse_project.Proc.{Proc, Kernel, write, nr_slots}

pub data Stop : Type 0 where
  assertion panic wild out_of_fuel stuck too_large : Stop

pub data Run (A : Type 0) : Type 0 where
  ok : A → Kernel → Run A
  stop : Stop → Run A

abbrev pub Cmd : Type 0 → Type 0
Cmd A = Kernel → Run A

abbrev pub pure : {A : Type 0} → A → Cmd A
pure = ok

module _ {A B : Type 0} where
  abbrev pub and_then : Run A → (A → Cmd B) → Run B
  and_then (ok a k) f = f a k
  and_then (stop s) f = stop s

  infixl 5 ◌>>=◌ ◌>>◌
  abbrev pub ◌>>=◌ : Cmd A → (A → Cmd B) → Cmd B
  m >>= f = λ k. and_then (m k) f

  abbrev pub ◌>>◌ : Cmd A → Cmd B → Cmd B
  m >> n = m >>= λ _. n

-- `assert(b)`
abbrev pub assert : Bool → Cmd (Unit {0})
assert true k = ok tt k
assert false k = stop Stop.assertion

abbrev pub halt : {A : Type 0} → Stop → Cmd A
halt s k = stop s

-- `proc_table[i]`
abbrev pub proc : ℕ → Cmd Proc
proc i k = ok (k.table i) k

-- `proc_table[i] = p`
abbrev pub put : ℕ → Proc → Cmd (Unit {0})
put i p k = ok tt (record k { table = write k.table i p })

abbrev pub get : Cmd Kernel
get k = ok k k

-- A pointer computed from `i` points into the table.
abbrev pub in_table : ℕ → Cmd (Unit {0})
in_table i k = elim (ltb i nr_slots) [ true ↦ ok tt k | false ↦ stop Stop.wild ]
