-- ===== src/Vterm/View/Live.antt =====
-- `Snapshot` of the live view.
use pitviper.Base.{
  ℕ, ◌*◌, ◌≡◌, refl, sym, ◌∙◌, arith, true, false, ◌==◌, if◌then◌else◌, some, List, length,
  replicate, length-replicate, slt,
}
use pitviper.Slice.{copy_into}
use pitviper.Slice.Laws.{copy_all}
use pitviper.Vterm.Cell.{Cell, zero_cell}
use pitviper.Vterm.Screen.{Screen, make_cells}
use pitviper.Vterm.Valid.{IsValid}
use pitviper.Vterm.Valid.Clear.{mul-area'}
use pitviper.Vterm.Scroll.Rows.{area-le}
use pitviper.Vterm.View.{minus_one, snapshot}

-- `Snapshot` of a valid screen that is not scrolled back returns the cells and the cursor, and the
-- position -1, -1 where the cursor is hidden.
pub snapshot-live :
    (s : Screen)
    → IsValid s
    → s.scroll_top ≡ 0
    → snapshot s
      ≡ some (record {
        cells = s.cells;
        cols = s.cols;
        rows = s.rows;
        cur_row = if s.cursor_hidden then minus_one else s.cur_row;
        cur_col = if s.cursor_hidden then minus_one else s.cur_col;
      })
unfolding snapshot make_cells
snapshot-live s v live =
    let n : ℕ = s.rows * s.cols in
    let fresh : List Cell = replicate n zero_cell in
    let area = area-le s.rows s.cols v.rows_max v.cols_max in
    let fits : slt n 0 ≡ false = ground (arith, area) in
    let copied : copy_into fresh 0 (length fresh) s.cells ≡ some s.cells =
      copy_all fresh s.cells (v.size ∙ sym (length-replicate n zero_cell)) in
    let now : (s.scroll_top == 0) ≡ true = ground (arith, live) in
    rw (mul-area' s v.grid) (rw (fits, now) (rw copied refl))
