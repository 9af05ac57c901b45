-- ===== src/Vterm/View.antt =====
-- internal/vterm/vterm.go: `Snapshot`, and the methods that scroll the view.
pub mod Rows
pub mod History
pub mod Live
use pitviper.Base.{
  ℕ, zero, suc, ◌&&◌, ◌==◌, if◌then◌else◌, min, Option, some, ◌>>=◌, List, length, slt, sle, add,
  sub, mul, rounds,
}
use pitviper.Slice.{fill, slice, copy_into}
use pitviper.Scrollback.{line, len}
use pitviper.Vterm.Cell.{Cell, blank, zero_cell}
use pitviper.Vterm.Screen.{Screen, make_cells}

-- The results of `Snapshot`; a hidden cursor is at -1, -1.
pub record Snapshot : Type 0 where
  pub cells : List Cell
  pub cols : ℕ
  pub rows : ℕ
  pub cur_row : ℕ
  pub cur_col : ℕ

abbrev pub minus_one : ℕ
minus_one = sub 0 1

-- One row of the composite view.
unfoldable pub compose_row : Screen → List Cell → ℕ → Option (List Cell)
compose_row s out row =
    let sb_len : ℕ = len s.sb in
    let sb_idx : ℕ = add (sub sb_len s.scroll_top) row in
    let start : ℕ = mul row s.cols in
    let stop : ℕ = add start s.cols in
    if sle 0 sb_idx && slt sb_idx sb_len
    then (do
      src ← line s.sb sb_idx
      copied ← copy_into out start stop src
      let from : ℕ = add start (min s.cols (length src))
      fill copied from (rounds from stop) blank)
    else if sle sb_len sb_idx
    then (let live : ℕ = sub sb_idx sb_len in
        if slt live s.rows
        then (do
          src ← slice s.cells (mul live s.cols) (mul (add live 1) s.cols)
          copy_into out start stop src)
        else some out)
    else fill out start (rounds start stop) blank

unfoldable pub compose_rows : Screen → List Cell → ℕ → ℕ → Option (List Cell)
compose_rows s out row zero = some out
compose_rows s out row (suc n) = compose_row s out row >>= λ next. compose_rows s next (add row 1) n

unfoldable pub snapshot : Screen → Option Snapshot
snapshot s = do
  out ← make_cells (mul s.rows s.cols) zero_cell
  let live = copy_into out 0 (length out) s.cells >>= λ cells. some (record {
    cells = cells;
    cols = s.cols;
    rows = s.rows;
    cur_row = if s.cursor_hidden then minus_one else s.cur_row;
    cur_col = if s.cursor_hidden then minus_one else s.cur_col;
  })
  let history = compose_rows s out 0 (rounds 0 s.rows) >>= λ cells. some (record {
    cells = cells;
    cols = s.cols;
    rows = s.rows;
    cur_row = minus_one;
    cur_col = minus_one;
  })
  if s.scroll_top == 0 then live else history

-- `ScrollBy`; `n` is a word.
unfoldable pub scroll_by : Screen → ℕ → Screen
scroll_by s n =
    let moved : ℕ = add s.scroll_top n in
    let top : ℕ = if slt moved 0 then 0 else moved in
    record s { scroll_top = if slt (len s.sb) top then len s.sb else top }

-- `ScrollReset`
unfoldable pub scroll_reset : Screen → Screen
scroll_reset s = record s { scroll_top = 0 }
