-- ===== src/Text/Examples.antt =====
-- Comparisons of concrete texts.
use oscourse_project.Base.{ℕ, ◌≡◌, ◌↔◌, List, [], ◌∷◌, arith}
use oscourse_project.Text.{strcmp}
use oscourse_project.Text.Compare.{strcmp_lem}

abbrev left_text : List ℕ
left_text = b'O' ∷ b'S' ∷ []

abbrev right_text : List ℕ
right_text = b'O' ∷ b'K' ∷ []

abbrev sevens : ℕ → ℕ
sevens a = 7

strcmp_lem_example : (strcmp left_text right_text ≡ 0) ↔ (left_text ≡ right_text)
strcmp_lem_example =
    strcmp_lem left_text right_text (omega arith, omega arith, (omega arith, omega arith, tt))
      (omega arith, omega arith, (omega arith, omega arith, tt))
