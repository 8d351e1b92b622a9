-- ===== src/Base/Flags.antt =====
-- Flag words: `f & b`, `f | b` and `f & ~b` for a mask `b` of one bit, in the form that the
-- arithmetic tactics read at a numeral `b`.
use Prim.Native.Nat.{ℕ, ◌+◌, ◌-◌, ◌/◌, ◌%◌}
use mathlib.Core.Bool.{Bool}
use oscourse_project.Base.Tests.{◌==◌, if◌then◌else◌}

-- `f & b`, as a truth value
unfoldable pub has_flag : ℕ → ℕ → Bool
has_flag f b = f / b % 2 == 1

-- `f | b`
unfoldable pub set_flag : ℕ → ℕ → ℕ
unfolding has_flag
set_flag f b = if has_flag f b then f else f + b

-- `f & ~b`
unfoldable pub clear_flag : ℕ → ℕ → ℕ
unfolding has_flag
clear_flag f b = if has_flag f b then f - b else f
