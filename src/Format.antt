-- ===== src/Format.antt =====
-- lib/vsprintf.c: `i2a`, `vsprintf` and `sprintf`. A string is the list of its bytes before the final
-- zero, and an argument is an `int`, as a bit pattern, or the text that a `char*` points to.
pub mod Digits
pub mod Hex
mod HexExamples
mod Examples
use oscourse_project.Base.{
  ℕ, zero, suc, ◌+◌, ◌-◌, ◌*◌, ◌/◌, ◌%◌, ◌^◌, Bool, true, false, not, ◌&&◌, Option, none, some,
  List, [], ◌∷◌, ◌++◌, length, leb, ltb, ◌==◌, if◌then◌else◌, ◌≡◌, refl,
}

-- Whether a bit pattern is that of a negative `int`, and the absolute value.
abbrev pub is_negative : ℕ → Bool
is_negative m = leb (2 ^ 31) m

abbrev pub magnitude : ℕ → ℕ
magnitude m = if is_negative m then 2 ^ 32 - m else m

-- The character for a digit of a number that is not negative, or is negative: there `%` in C gives a
-- digit that is not positive, which is less than 10.
unfoldable pub digit : Bool → ℕ → ℕ
digit false m = if ltb m 10 then m + b'0' else m - 10 + b'A'
digit true m = b'0' - m

-- `val / base` on `int`, which is towards zero, for a base that is positive
unfoldable pub int_div : (val base : ℕ) → ℕ
int_div val base = if is_negative val then (2 ^ 32 - magnitude val / base) % 2 ^ 32 else val / base

-- `i2a` on an `int`, as its bit pattern; the fuel is enough if it is at least the absolute value.
unfoldable pub i2a : (fuel val base : ℕ) → List ℕ
unfolding digit int_div
i2a zero val base = digit (is_negative val) (magnitude val % base) ∷ []
i2a (suc n) val base =
    let high = i2a n (int_div val base) base in
    (if int_div val base == 0 then [] else high)
    ++ (digit (is_negative val) (magnitude val % base) ∷ [])

pub data Arg : Type 0 where
  int_arg : ℕ → Arg
  text_arg : List ℕ → Arg

-- `while (*fmt >= '0' && *fmt <= '9')`
unfoldable pub width : List ℕ → ℕ → ℕ × List ℕ
width [] align_nr = (align_nr, [])
width (c ∷ cs) align_nr =
    let rest = width cs (align_nr * 10 + (c - b'0')) in
    if leb b'0' c && leb c b'9' then rest else (align_nr, c ∷ cs)

-- `switch (*fmt)`: what is printed, and the arguments that are left. For an argument that is missing
-- or of the other kind the source reads what is on the stack; here nothing is printed.
unfoldable pub convert : (c : ℕ) → List Arg → List ℕ × List Arg
unfolding i2a
convert c [] = ([], [])
convert c (Arg.int_arg m ∷ args) =
    if c == b'c'
    then (m % 2 ^ 8 ∷ [], args)
    else (if c == b'x'
        then (i2a (magnitude m) m 16, args)
        else (if c == b'd'
            then (let v = if is_negative m then (2 ^ 32 - m) % 2 ^ 32 else m in
                ((if is_negative m then b'-' ∷ [] else []) ++ i2a (magnitude v) v 10, args))
            else ([], Arg.int_arg m ∷ args)))
convert c (Arg.text_arg s ∷ args) = if c == b's' then (s, args) else ([], Arg.text_arg s ∷ args)

abbrev pub repeat : ℕ → ℕ → List ℕ
repeat zero c = []
repeat (suc n) c = c ∷ repeat n c

-- The text in a buffer ends before its first zero.
abbrev until_zero : List ℕ → List ℕ
until_zero [] = []
until_zero (c ∷ cs) = if c == 0 then [] else c ∷ until_zero cs

-- Filled up on the left to the width.
unfoldable pub align : (align_nr cs : ℕ) → List ℕ → List ℕ
align align_nr cs inner =
    let text : List ℕ = until_zero inner in repeat (align_nr - length text) cs ++ text

-- The part of a format that follows `%`: what it prints, and the rest of the format and arguments.
unfoldable pub directive : List ℕ → List Arg → List ℕ × List ℕ × List Arg
unfolding width convert align
directive fmt args =
    let zeros : Bool = elim fmt [ [] ↦ false | c ∷ _ ↦ c == b'0' ] in
    let found : ℕ × List ℕ = width fmt 0 in
    elim found.1 [
      | [] ↦ ([], [], args)
      | c ∷ rest ↦
          (let printed : List ℕ × List Arg = convert c args in
            (align found.0 (if zeros then b'0' else b' ') printed.0, rest, printed.1))
    ]

-- `vsprintf`; the fuel is enough if it is at least the length of the format. In a format that ends
-- within a directive the source reads past the end; here the text ends.
unfoldable pub vsprintf : (fuel : ℕ) → List ℕ → List Arg → List ℕ
unfolding directive
vsprintf zero fmt args = []
vsprintf (suc n) [] args = []
vsprintf (suc n) (c ∷ cs) args = if not (c == b'%') then c ∷ vsprintf n cs args else elim cs [
  | [] ↦ []
  | d ∷ ds ↦
      if d == b'%'
      then d ∷ vsprintf n ds args
      else (let printed : List ℕ × List ℕ × List Arg = directive (d ∷ ds) args in
          printed.0 ++ vsprintf n printed.1 printed.2)
]

-- `sprintf`
unfoldable pub sprintf : List ℕ → List Arg → List ℕ
unfolding vsprintf
sprintf fmt args = vsprintf (length fmt) fmt args
