-- ===== src/Ipc/Find.antt =====
-- The walk of `msg_receive` to the entry before a given sender.
use oscourse_project.Base.{
  ℕ, zero, suc, ◌<◌, ◌≡◌, true, Option, some, List, [], ◌∷◌, arith, ◌==◌, if◌then◌else◌, length,
  elem, has_flag, Bool-cases, inl, inr,
}
use oscourse_project.Proc.{Kernel, sending}
use oscourse_project.Run.{ok}
use oscourse_project.Ipc.Receive.{find_prev}
use oscourse_project.Ipc.Chain.{IsChain, links, before}

-- The walk ends, within as many rounds as the queue has entries, at the entry before `src`, or
-- with `prev` where `src` is the first.
pub find_prev-before :
    (n : ℕ) (k : Kernel) (src x : ℕ) (xs : List ℕ) (prev : Option ℕ)
    → has_flag (k.table src).p_flags sending ≡ true
    → IsChain (links k.table) (links k.table x) xs
    → elem src (x ∷ xs) ≡ true
    → length xs < n
    → find_prev n src (some x) prev k ≡ ok (if x == src then prev else some (before src x xs)) k
unfolding find_prev
find_prev-before zero k src x xs prev s c m h = absurd (omega arith)
find_prev-before (suc n) k src x [] prev s c m h = ground arith
find_prev-before (suc n) k src x (y ∷ ys) prev s (e, c) m h = elim (Bool-cases (x == src)) [
  | inl hit ↦ ground arith
  | inr miss ↦ ground (arith, find_prev-before n k src y ys (some x) s c (ground arith))
]
