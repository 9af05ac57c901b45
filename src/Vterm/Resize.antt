-- ===== src/Vterm/Resize.antt =====
-- internal/vterm/vterm.go: `Resize`.
pub mod Copied
pub mod Shrunk
use pitviper.Base.{
  ℕ, zero, suc, ◌&&◌, ◌==◌, if◌then◌else◌, Option, some, ◌>>=◌, List, slt, sle, add, sub, mul,
  rounds,
}
use pitviper.Slice.{load, store}
use pitviper.Vterm.Cell.{Cell, blank}
use pitviper.Vterm.Screen.{Screen, make_cells}

-- The inner loop: columns `c`, `c + 1`, ..., `n` of them, of row `r`.
unfoldable pub copy_columns : List Cell → List Cell → ℕ → ℕ → ℕ → ℕ → ℕ → Option (List Cell)
copy_columns new old cols old_cols r c zero = some new
copy_columns new old cols old_cols r c (suc n) = do
  cell ← load old (add (mul r old_cols) c)
  out ← store new (add (mul r cols) c) cell
  copy_columns out old cols old_cols r (add c 1) n

-- The outer loop: rows `r`, `r + 1`, ..., `n` of them.
unfoldable pub copy_grid : List Cell → List Cell → ℕ → ℕ → ℕ → ℕ → ℕ → Option (List Cell)
copy_grid new old cols old_cols copy_cols r zero = some new
copy_grid new old cols old_cols copy_cols r (suc n) = do
  out ← copy_columns new old cols old_cols r 0 (rounds 0 copy_cols)
  copy_grid out old cols old_cols copy_cols (add r 1) n

unfoldable pub resize : Screen → ℕ → ℕ → Option Screen
resize s cols rows = if cols == s.cols && rows == s.rows then some s else (do
  fresh ← make_cells (mul cols rows) blank
  let copy_rows : ℕ = if slt rows s.rows then rows else s.rows
  let copy_cols : ℕ = if slt cols s.cols then cols else s.cols
  cells ← copy_grid fresh s.cells cols s.cols copy_cols 0 (rounds 0 copy_rows)
  some (record s {
    cells = cells;
    cols = cols;
    rows = rows;
    cur_col = if sle cols s.cur_col then sub cols 1 else s.cur_col;
    cur_row = if sle rows s.cur_row then sub rows 1 else s.cur_row;
  }))
