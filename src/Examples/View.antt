-- ===== src/Examples/View.antt =====
-- The theorem on new screens, at a concrete input.
use pitviper.Base.{◌*◌, ◌≡◌, arith, replicate, Returns}
use pitviper.Vterm.Cell.{zero_cell}
use pitviper.Vterm.Screen.{new_screen}
use pitviper.Vterm.Valid.{IsValid}
use pitviper.Vterm.Valid.Start.{new_screen-zero}

new_screen-zero_example :
    Returns
      (λ s. IsValid s × (s.cols ≡ 80) × (s.rows ≡ 24) × (s.cells ≡ replicate (80 * 24) zero_cell))
      (new_screen 80 24)
new_screen-zero_example =
    new_screen-zero 80 24 (omega arith) (omega arith) (omega arith) (omega arith)
