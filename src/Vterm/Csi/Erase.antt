-- ===== src/Vterm/Csi/Erase.antt =====
-- internal/vterm/vterm.go, `handleCSI`: the cases that erase, or shift the rest of a line.
use pitviper.Base.{
  ℕ, ◌==◌, ◌||◌, Option, some, ◌>>=◌, List, slt, add, sub, mul, rounds, if◌then◌else◌,
}
use pitviper.Slice.{fill, copy_within}
use pitviper.Vterm.Cell.{blank, blank_in}
use pitviper.Vterm.Screen.{Screen, clear}
use pitviper.Vterm.Params.{num_or0, num_or1, pos_or1, min2, max2}

-- `X`
unfoldable pub erase_chars : Screen → List ℕ → Option Screen
erase_chars s nums = do
  let start : ℕ = add (mul s.cur_row s.cols) s.cur_col
  let stop : ℕ = min2 (add start (num_or1 nums)) (mul (add s.cur_row 1) s.cols)
  cells ← fill s.cells start (rounds start stop) blank
  some (record s { cells = cells })

-- `J`
unfoldable pub erase_display : Screen → List ℕ → Option Screen
erase_display s nums =
    let n : ℕ = num_or0 nums in
    let size : ℕ = mul s.rows s.cols in
    let at : ℕ = add (mul s.cur_row s.cols) s.cur_col in
    if n == 0
    then clear s at size size
    else if n == 1
    then clear s 0 (add at 1) size
    else if n == 2 || n == 3
    then (do t ← clear s 0 size size; some (record t { cur_row = 0; cur_col = 0 }))
    else some s

-- The loops of `K`: columns `c` up to `stop` of the cursor's row.
unfoldable pub erase_columns : Screen → ℕ → ℕ → Option Screen
erase_columns s c stop = do
  cells ← fill s.cells (add (mul s.cur_row s.cols) c) (rounds c stop) (blank_in s.fg s.bg)
  some (record s { cells = cells })

-- `K`
unfoldable pub erase_line : Screen → List ℕ → Option Screen
erase_line s nums =
    let n : ℕ = num_or0 nums in
    if n == 0
    then erase_columns s s.cur_col s.cols
    else if n == 1
    then erase_columns s 0 (add s.cur_col 1)
    else if n == 2
    then erase_columns s 0 s.cols
    else some s

-- `P`
unfoldable pub delete_chars : Screen → List ℕ → Option Screen
delete_chars s nums = do
  let n : ℕ = pos_or1 nums
  let row : ℕ = mul s.cur_row s.cols
  let col : ℕ = s.cur_col
  let end : ℕ = s.cols
  moved ←
      (if slt (add col n) end
        then copy_within s.cells (add row col) (sub (add row end) n) (add (add row col) n)
            (add row end)
        else some s.cells)
  let from : ℕ = max2 col (sub end n)
  cells ← fill moved (add row from) (rounds from end) blank
  some (record s { cells = cells })

-- `@`
unfoldable pub insert_chars : Screen → List ℕ → Option Screen
insert_chars s nums = do
  let n : ℕ = pos_or1 nums
  let row : ℕ = mul s.cur_row s.cols
  let col : ℕ = s.cur_col
  let end : ℕ = s.cols
  moved ←
      (if slt (add col n) end
        then copy_within s.cells (add (add row col) n) (add row end) (add row col)
            (sub (add row end) n)
        else some s.cells)
  cells ← fill moved (add row col) (rounds col (min2 (add col n) end)) blank
  some (record s { cells = cells })
