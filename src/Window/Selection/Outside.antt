-- ===== src/Window/Selection/Outside.antt =====
-- Selections that end outside of the grid.
use pitviper.Base.{
  suc, ◌+◌, ◌==◌, ◌&&◌, ◌||◌, true, sub, ◌-◌, ◌≤◌, ◌<◌, ◌^◌, ◌≡◌, refl, arith, none, slt, sle, add,
  rounds, false,
}
use pitviper.Vterm.View.{Snapshot}
use pitviper.Window.Selection.{Range, in_order, selected_row, selected_rows, selected_text}

module _ (view : Snapshot) (x : Range) (cols_small : view.cols < 2 ^ 31)
    (rows_small : view.rows < 2 ^ 31) (col_small : x.c1 < 2 ^ 31) (down : x.r1 < x.r2)
    (inside : x.r2 < view.rows) (outside : view.cols < x.c1) (cols_pos : 1 ≤ view.cols) where
  first_row : selected_row view x x.r1 ≡ none
  unfolding selected_row
  first_row = ground arith

  as_ordered : in_order x ≡ x
  unfolding in_order
  as_ordered = ground arith

  rows_of : rounds x.r1 (add x.r2 1) ≡ suc (x.r2 - x.r1)
  rows_of = ground arith

  stepped : selected_rows view x x.r1 (suc (x.r2 - x.r1)) ≡ none
  unfolding selected_rows
  stepped = rw first_row refl

  -- On a grid of less than 2 ^ 31 rows and columns, a selection that begins right of column `cols`
  -- and ends on a lower row of the grid panics: `make` gets a negative capacity.
  selected_text-panics : selected_text view x ≡ none
  unfolding selected_text
  selected_text-panics =
      let top : slt x.r1 0 ≡ false = ground arith in
      let bottom : sle view.rows x.r2 ≡ false = ground arith in
      let order : slt x.r2 x.r1 ≡ false = ground arith in
      rw as_ordered (rw (top, bottom) (rw (order, rows_of) stepped))

-- On a grid of less than 2 ^ 31 rows and columns, a selection from its last row to a row below the
-- grid, more than one column to the left, panics: the lower end is cut to the last row after the
-- ends were put in order.
pub selected_text-panics_below :
    (view : Snapshot) (x : Range)
    → view.cols < 2 ^ 31
    → view.rows < 2 ^ 31
    → x.c1 < 2 ^ 31
    → x.r2 < 2 ^ 31
    → x.r1 + 1 ≡ view.rows
    → view.rows ≤ x.r2
    → x.c2 + 1 < x.c1
    → selected_text view x ≡ none
unfolding selected_text selected_rows selected_row in_order
selected_text-panics_below view x cols_small rows_small col_small row_small at below left =
    let top : slt x.r1 0 ≡ false = ground arith in
    let bottom : sle view.rows x.r2 ≡ true = ground arith in
    let kept : (slt x.r2 x.r1 || (x.r1 == x.r2 && slt x.c2 x.c1)) ≡ false = ground arith in
    let last : sub view.rows 1 ≡ x.r1 = omega arith in
    let order : slt x.r1 x.r1 ≡ false = ground arith in
    let times : rounds x.r1 (add x.r1 1) ≡ suc 0 = ground arith in
    rw kept (rw (top, bottom) (rw last (rw (order, times) (ground arith))))
