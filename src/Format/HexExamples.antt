-- ===== src/Format/HexExamples.antt =====
-- Runs of `itoa`.
use oscourse_project.Base.{◌≡◌, refl, [], ◌∷◌}
use oscourse_project.Format.Hex.{itoa, hex_digits, hex_char}

itoa_address : itoa 0xB8000 ≡ b'0' ∷ b'x' ∷ b'B' ∷ b'8' ∷ b'0' ∷ b'0' ∷ b'0' ∷ []
unfolding itoa hex_digits hex_char
itoa_address = refl

itoa_zero : itoa 0 ≡ b'0' ∷ b'x' ∷ b'0' ∷ []
unfolding itoa hex_digits hex_char
itoa_zero = refl
