-- ===== src/Vterm/Csi/Words.antt =====
-- The words that the operations on the cursor's line compute.
use pitviper.Base.{ℕ, ◌+◌, ◌*◌, ◌≤◌, ◌<◌, ◌^◌, ◌≡◌, min, arith, add, mul}
use pitviper.Vterm.Screen.{Screen}
use pitviper.Vterm.Valid.{IsValid}
use pitviper.Vterm.Scroll.Rows.{mul-row, mul-next_row, row_mono, area-le}
use pitviper.Vterm.Params.{min2}

pub min2-small : (a b : ℕ) → a < 2 ^ 63 → b < 2 ^ 63 → min2 a b ≡ min a b
unfolding min2
min2-small a b p q = ground arith

-- The indices of the cursor's row, as the code computes them.
pub record RowWords (s : Screen) : Type 0 where
  pub at : (a : ℕ) → a ≤ s.cols → add (mul s.cur_row s.cols) a ≡ s.cur_row * s.cols + a
  pub next : mul (add s.cur_row 1) s.cols ≡ s.cur_row * s.cols + s.cols
  pub small : s.cur_row * s.cols + s.cols ≤ 2 ^ 60

pub row_words : (s : Screen) → IsValid s → RowWords s
row_words s v =
    let row = mul-row s.rows s.cols v.rows_max v.cols_max s.cur_row (omega (arith, v.row_in)) in
    let area = area-le s.rows s.cols v.rows_max v.cols_max in
    let end = row_mono s.cols s.cur_row s.rows v.row_in in
    record {
      at = λ a h. omega (arith, row, area, end);
      next = mul-next_row s.rows s.cols v.rows_max v.cols_max s.cur_row v.row_in;
      small = omega (arith, area, end);
    }
