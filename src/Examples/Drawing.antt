-- ===== src/Examples/Drawing.antt =====
-- The theorems on what the cell operations draw, at concrete inputs.
use pitviper.Base.{ℕ, ◌≡◌, refl, none, List, [], ◌∷◌}
use pitviper.Vterm.Params.{num_or0}
use pitviper.Vterm.Csi.Erase.{erase_line}
use pitviper.Vterm.Csi.Display.{erase_line-panics}
use pitviper.Examples.Fixtures.{full_line, full_line-IsValid}

-- A parameter list with one number.
abbrev one : ℕ → List ℕ
one n = n ∷ []

single_num : (n : ℕ) → num_or0 (one n) ≡ n
unfolding num_or0
single_num n = refl

erase_line-panics_example : erase_line full_line (one 1) ≡ none
erase_line-panics_example =
    erase_line-panics full_line full_line-IsValid (one 1) (single_num 1) refl refl
