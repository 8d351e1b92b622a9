-- ===== src/Act/Laws.antt =====
-- How a chain of commands runs, one command after another.
use oscourse_project.Base.{◌≡◌, ap, Bool, true}
use oscourse_project.Run.{Stop}
use oscourse_project.Act.{Act, Result, ok, stop, and_then, assert, need}

-- A command that ends hands its value and state on.
pub and_then-ok :
    {S A B : Type 0} (r : Result S A) (a : A) (s : S) (f : A → Act S B)
    → r ≡ ok a s
    → and_then r f ≡ f a s
and_then-ok r a s f h = ap (λ x. and_then x f) h

-- A command that stops the machine ends the chain.
pub and_then-stop :
    {S A B : Type 0} (r : Result S A) (e : Stop) (f : A → Act S B)
    → r ≡ stop e
    → and_then r f ≡ stop e
and_then-stop r e f h = ap (λ x. and_then x f) h

-- An assertion that holds changes nothing.
pub assert-ok : {S : Type 0} (b : Bool) (s : S) → b ≡ true → assert b s ≡ ok tt s
assert-ok b s h = ap (λ c. assert c s) h

-- A test that holds changes nothing.
pub need-ok : {S : Type 0} (e : Stop) (b : Bool) (s : S) → b ≡ true → need e b s ≡ ok tt s
need-ok e b s h = ap (λ c. need e c s) h
