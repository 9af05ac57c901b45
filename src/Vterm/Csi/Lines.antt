-- ===== src/Vterm/Csi/Lines.antt =====
-- internal/vterm/vterm.go, `handleCSI`: the cases that insert and delete lines.
use pitviper.Base.{ℕ, zero, suc, Option, some, ◌>>=◌, List, sle, add, sub, rounds, if◌then◌else◌}
use pitviper.Vterm.Cell.{Cell}
use pitviper.Vterm.Screen.{Screen}
use pitviper.Vterm.Params.{pos_or1, min2}
use pitviper.Vterm.Scroll.{rows_up, rows_down, blank_row}

-- The outer loop of `L`, with `n` rounds to go: all rows from `bot` down to `top + 1` take the row
-- above them, and row `top` is blanked.
unfoldable pub insert_loop : List Cell → ℕ → ℕ → ℕ → ℕ → Option (List Cell)
insert_loop cells cols top bot zero = some cells
insert_loop cells cols top bot (suc n) = do
  moved ← rows_down cells cols 1 bot (rounds top bot)
  out ← blank_row moved cols top
  insert_loop out cols top bot n

-- `L`
unfoldable pub insert_lines : Screen → List ℕ → Option Screen
insert_lines s nums =
    let top : ℕ = s.cur_row in
    let bot : ℕ = s.scroll_reg_bot in
    let shifts : ℕ = min2 (pos_or1 nums) (add (sub bot top) 1) in
    if sle top bot
    then (do
      cells ← insert_loop s.cells s.cols top bot (rounds 0 shifts)
      some (record s { cells = cells }))
    else some s

-- The outer loop of `M`: the rows from `top` up to `bot - 1` take the row below them, and row `bot`
-- is blanked.
unfoldable pub delete_loop : List Cell → ℕ → ℕ → ℕ → ℕ → Option (List Cell)
delete_loop cells cols top bot zero = some cells
delete_loop cells cols top bot (suc n) = do
  moved ← rows_up cells cols 1 top (rounds top bot)
  out ← blank_row moved cols bot
  delete_loop out cols top bot n

-- `M`
unfoldable pub delete_lines : Screen → List ℕ → Option Screen
delete_lines s nums =
    let top : ℕ = s.cur_row in
    let bot : ℕ = s.scroll_reg_bot in
    let shifts : ℕ = min2 (pos_or1 nums) (add (sub bot top) 1) in
    if sle top bot
    then (do
      cells ← delete_loop s.cells s.cols top bot (rounds 0 shifts)
      some (record s { cells = cells }))
    else some s
