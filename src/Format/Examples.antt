-- ===== src/Format/Examples.antt =====
-- Printed texts.
use oscourse_project.Base.{◌≡◌, refl, inl, arith, [], ◌∷◌}
use oscourse_project.Format.{Arg, sprintf, i2a}
use oscourse_project.Format.Digits.{value_from, value_from-i2a}

hex :
    sprintf (b'0' ∷ b'x' ∷ b'%' ∷ b'0' ∷ b'4' ∷ b'x' ∷ []) (Arg.int_arg 0x2F ∷ [])
    ≡ b'0' ∷ b'x' ∷ b'0' ∷ b'0' ∷ b'2' ∷ b'F' ∷ []
unfolding sprintf
hex = refl

-- The name of the child that takes entry 9.
named :
    sprintf (b'%' ∷ b's' ∷ b'_' ∷ b'%' ∷ b'd' ∷ []) (Arg.text_arg (b'I' ∷ []) ∷ Arg.int_arg 9 ∷ [])
    ≡ b'I' ∷ b'_' ∷ b'9' ∷ []
unfolding sprintf
named = refl

value_from-i2a_example : value_from 10 0 (i2a 1234 1234 10) ≡ 1234
value_from-i2a_example = value_from-i2a 1234 1234 10 (omega arith) (omega arith) (inl refl)

-- The least `int` is printed with characters before the digit 0.
least :
    sprintf (b'%' ∷ b'd' ∷ []) (Arg.int_arg 0x80000000 ∷ [])
    ≡ b'-' ∷ b'.' ∷ b'/' ∷ b',' ∷ b')' ∷ b',' ∷ b'(' ∷ b'-' ∷ b'*' ∷ b',' ∷ b'(' ∷ []
unfolding sprintf
least = refl
