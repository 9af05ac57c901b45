-- ===== src/Vterm/Scroll.antt =====
-- internal/vterm/vterm.go: `scrollUp` and `scrollDown`, with their loops over rows.
pub mod Rows
pub mod Laws
pub mod Saved
use pitviper.Base.{
  ℕ, zero, suc, Bool, ◌&&◌, ◌==◌, Option, none, some, ◌>>=◌, List, length, slt, sle, add, sub, mul,
  rounds, if◌then◌else◌,
}
use pitviper.Slice.{load, store, fill, slice, copy_within}
use pitviper.Scrollback.{Scrollback, push}
use pitviper.Vterm.Cell.{Cell, blank}
use pitviper.Vterm.Screen.{Screen, clear}

-- `copy(cells[dst*cols:(dst+1)*cols], cells[src*cols:(src+1)*cols])`
unfoldable pub copy_row : List Cell → ℕ → ℕ → ℕ → Option (List Cell)
copy_row cells cols dst src =
    copy_within cells (mul dst cols) (mul (add dst 1) cols) (mul src cols) (mul (add src 1) cols)

-- `for c := 0; c < cols; c++ { cells[r*cols+c] = blank }`
unfoldable pub blank_row : List Cell → ℕ → ℕ → Option (List Cell)
blank_row cells cols r = fill cells (mul r cols) (rounds 0 cols) blank

-- `blank_row` at `n` rows from `r` on.
unfoldable pub blank_rows : List Cell → ℕ → ℕ → ℕ → Option (List Cell)
blank_rows cells cols r zero = some cells
blank_rows cells cols r (suc n) = blank_row cells cols r >>= λ out. blank_rows out cols (add r 1) n

-- Row `r` becomes row `r + by`, for `n` rows from `r` up.
unfoldable pub rows_up : List Cell → ℕ → ℕ → ℕ → ℕ → Option (List Cell)
rows_up cells cols by r zero = some cells
rows_up cells cols by r (suc n) =
    copy_row cells cols r (add r by) >>= λ out. rows_up out cols by (add r 1) n

-- Row `r` becomes row `r - by`, for `n` rows from `r` down.
unfoldable pub rows_down : List Cell → ℕ → ℕ → ℕ → ℕ → Option (List Cell)
rows_down cells cols by r zero = some cells
rows_down cells cols by r (suc n) =
    copy_row cells cols r (sub r by) >>= λ out. rows_down out cols by (sub r 1) n

-- `for ; n > 0; n-- { sb.push(cells[r*cols:(r+1)*cols]); r++ }`
unfoldable pub push_rows : Scrollback Cell → List Cell → ℕ → ℕ → ℕ → Option (Scrollback Cell)
push_rows sb cells cols r zero = some sb
push_rows sb cells cols r (suc n) = do
  row ← slice cells (mul r cols) (mul (add r 1) cols)
  out ← push sb row
  push_rows out cells cols (add r 1) n

-- The branch of `scrollUp` for the whole screen, which saves the lines that leave it.
unfoldable pub scroll_up_full : Screen → ℕ → Option Screen
scroll_up_full s n =
    if sle s.rows n
    then (do
      sb ← push_rows s.sb s.cells s.cols 0 (rounds 0 s.rows)
      clear (record s { sb = sb }) 0 (mul s.cols s.rows) (mul s.cols s.rows))
    else (do
      sb ← push_rows s.sb s.cells s.cols 0 (rounds 0 n)
      moved ← copy_within s.cells 0 (length s.cells) (mul n s.cols) (length s.cells)
      let start : ℕ = mul (sub s.rows n) s.cols
      cells ← fill moved start (rounds start (mul s.rows s.cols)) blank
      some (record s { sb = sb; cells = cells }))

-- The branch for a region, which saves nothing.
unfoldable pub scroll_up_region : Screen → ℕ → Option Screen
scroll_up_region s n =
    let top : ℕ = s.scroll_reg_top in
    let bot : ℕ = s.scroll_reg_bot in
    if sle (add (sub bot top) 1) n
    then (do
      cells ← blank_rows s.cells s.cols top (rounds top (add bot 1))
      some (record s { cells = cells }))
    else (do
      moved ← rows_up s.cells s.cols n top (rounds top (add (sub bot n) 1))
      let start : ℕ = add (sub bot n) 1
      cells ← blank_rows moved s.cols start (rounds start (add bot 1))
      some (record s { cells = cells }))

unfoldable pub scroll_up : Screen → ℕ → Option Screen
scroll_up s n =
    if s.scroll_reg_top == 0 && s.scroll_reg_bot == sub s.rows 1
    then scroll_up_full s n
    else scroll_up_region s n

unfoldable pub scroll_down : Screen → ℕ → Option Screen
scroll_down s n =
    let top : ℕ = s.scroll_reg_top in
    let bot : ℕ = s.scroll_reg_bot in
    if sle (add (sub bot top) 1) n
    then (do
      cells ← blank_rows s.cells s.cols top (rounds top (add bot 1))
      some (record s { cells = cells }))
    else (do
      moved ← rows_down s.cells s.cols n bot (rounds (add top n) (add bot 1))
      cells ← blank_rows moved s.cols top (rounds top (add top n))
      some (record s { cells = cells }))
