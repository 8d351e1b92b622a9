-- ===== src/Act.antt =====
-- Commands of a task on its own state `S`: a command ends with a value and the new state, or stops
-- the machine.
pub mod Laws
use oscourse_project.Base.{◌≡◌, refl, Bool, true, false, Option, none, some}
use oscourse_project.Run.{Stop}

pub data Result (S A : Type 0) : Type 0 where
  ok : A → S → Result S A
  stop : Stop → Result S A

abbrev pub Act : Type 0 → Type 0 → Type 0
Act S A = S → Result S A

module _ {S A B : Type 0} where
  abbrev pub and_then : Result S A → (A → Act S B) → Result S B
  and_then (ok a s) f = f a s
  and_then (stop e) f = stop e

  infixl 5 ◌>>=◌ ◌>>◌
  abbrev pub ◌>>=◌ : Act S A → (A → Act S B) → Act S B
  m >>= f = λ s. and_then (m s) f

  abbrev pub ◌>>◌ : Act S A → Act S B → Act S B
  m >> n = m >>= λ _. n

module _ {S : Type 0} where
  abbrev pub pure : {A : Type 0} → A → Act S A
  pure = ok

  abbrev pub get : Act S S
  get s = ok s s

  abbrev pub change : (S → S) → Act S (Unit {0})
  change f s = ok tt (f s)

  abbrev pub assert : Bool → Act S (Unit {0})
  assert true s = ok tt s
  assert false s = stop Stop.assertion

  -- What comes after is reached only if the test holds.
  abbrev pub need : Stop → Bool → Act S (Unit {0})
  need e true s = ok tt s
  need e false s = stop e

  abbrev pub halt : {A : Type 0} → Stop → Act S A
  halt e s = stop e

  -- The object that a pointer names; the null pointer names none.
  abbrev pub deref : {A : Type 0} → Option A → Act S A
  deref (some a) s = ok a s
  deref none s = stop Stop.wild
