-- ===== src/Ipc/Deadlock.antt =====
-- kernel/proc.c `deadlock`: the walk along the processes that wait to send. Its printing is left
-- out. The loops run on fuel, one round more than there are entries.
use oscourse_project.Base.{ℕ, zero, suc, Bool, true, false, not, has_flag, ◌==◌, if◌then◌else◌}
use oscourse_project.Proc.{sending}
use oscourse_project.Run.{Cmd, pure, ◌>>=◌, ◌>>◌, assert, halt, Stop, proc, in_table}

-- The `while (1)` loop: does the walk from `p` meet a process that sends to `src`?
unfoldable pub follow : (fuel : ℕ) → (src p : ℕ) → Cmd Bool
follow zero src p = halt Stop.out_of_fuel
follow (suc n) src p = do
  in_table p
  e ← proc p
  let rest = follow n src e.p_sendto
  if has_flag e.p_flags sending then (if e.p_sendto == src then pure true else rest) else pure false

-- The `do … while (p != proc_table + src)` loop that prints the chain
unfoldable pub print_chain : (fuel : ℕ) → (src p : ℕ) → Cmd (Unit {0})
print_chain zero src p = halt Stop.out_of_fuel
print_chain (suc n) src p = do
  e ← proc p
  assert (not (e.p_msg == 0))
  in_table e.p_sendto
  let rest = print_chain n src e.p_sendto
  if e.p_sendto == src then pure tt else rest

abbrev pub walk_fuel : ℕ
walk_fuel = 38

unfoldable pub deadlock : (src dest : ℕ) → Cmd Bool
deadlock src dest = do
  found ← follow walk_fuel src dest
  if found then (do print_chain walk_fuel src dest; pure true) else pure false
