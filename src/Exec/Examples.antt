-- ===== src/Exec/Examples.antt =====
-- The arguments "ls" and "x" of a program.
use oscourse_project.Base.{ℕ, ◌+◌, ◌*◌, ◌≡◌, List, [], ◌∷◌, inl, inr, arith}
use oscourse_project.Act.{ok}
use oscourse_project.Exec.{Bytes}
use oscourse_project.Exec.Layout.{Argv, window}
use oscourse_project.Exec.Pack.{pass_args, pass_args_lem, stack_bytes}

abbrev args : List (List ℕ)
args = (b'l' ∷ b's' ∷ []) ∷ (b'x' ∷ []) ∷ []

pass_args_lem_example :
    (mem2 : Bytes) × (pass_args 0x200000 0x8000 0x1000 0xFFC00 args (λ a. 7) ≡ ok 2 mem2)
    × Argv (window mem2 (0x200000 + 0xFFC00)) 0xFFC00 (2 * 4 + 4) (stack_bytes args) 0 args
pass_args_lem_example =
    pass_args_lem 0x200000 0x8000 0x1000 0xFFC00 args (λ a. 7) (omega arith) (omega arith)
      (omega arith) (omega arith) (inl (omega arith)) (inr (omega arith))
