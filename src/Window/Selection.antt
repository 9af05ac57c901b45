-- ===== src/Window/Selection.antt =====
-- cmd/pitviper/main.go: `pixelToCell`, `selectedText`, and the selection that the mouse draws.
pub mod Outside
pub mod Inside
use pitviper.Base.{
  ℕ, zero, suc, ◌+◌, Bool, true, false, ◌&&◌, ◌||◌, not, ltb, ◌==◌, if◌then◌else◌, Option, none,
  some, ◌>>=◌, List, [], ◌∷◌, ◌++◌, slt, sle, add, sub, mul, quot, rounds,
}
use pitviper.Slice.{load}
use pitviper.Vterm.View.{Snapshot}
use pitviper.Font.{glyph_w, glyph_h}

-- `pixelToCell`: the column and the row.
unfoldable pub pixel_to_cell : ℕ → ℕ → ℕ × ℕ
pixel_to_cell x y =
    let col : ℕ = quot x glyph_w in
    let row : ℕ = quot y glyph_h in ((if slt col 0 then 0 else col), (if slt row 0 then 0 else row))

-- The range from `r1`, `c1` to `r2`, `c2`, in reading order.
pub record Range : Type 0 where
  pub r1 : ℕ
  pub c1 : ℕ
  pub r2 : ℕ
  pub c2 : ℕ

unfoldable pub in_order : Range → Range
in_order x =
    if slt x.r2 x.r1 || (x.r1 == x.r2 && slt x.c2 x.c1)
    then record { r1 = x.r2; c1 = x.c2; r2 = x.r1; c2 = x.c1 }
    else x

-- The runes of row `row`, columns `col`, `col + 1`, ..., `n` of them; a zero cell is a space.
unfoldable pub read_row : Snapshot → ℕ → ℕ → ℕ → Option (List ℕ)
read_row view row col zero = some []
read_row view row col (suc n) = do
  cell ← load view.cells (add (mul row view.cols) col)
  rest ← read_row view row (add col 1) n
  some ((if cell.ch == 0 then b' ' else cell.ch) ∷ rest)

-- `strings.TrimRight(line, " ")`
unfoldable pub trim_right : List ℕ → List ℕ
trim_right [] = []
trim_right (c ∷ cs) =
    let rest : List ℕ = trim_right cs in
    elim rest [ [] ↦ if c == b' ' then [] else c ∷ [] | d ∷ ds ↦ c ∷ d ∷ ds ]

-- One row of the selection; `make` panics at a negative capacity.
unfoldable pub selected_row : Snapshot → Range → ℕ → Option (List ℕ)
selected_row view x row =
    let first : ℕ = if row == x.r1 then x.c1 else 0 in
    let last : ℕ = if row == x.r2 then x.c2 else sub view.cols 1 in
    let start : ℕ = if slt first 0 then 0 else first in
    let end : ℕ = if sle view.cols last then sub view.cols 1 else last in
    if slt (add (sub end start) 1) 0 then none else (do
      line ← read_row view row start (rounds start (add end 1))
      some (trim_right line ++ (if row == x.r2 then [] else b'\n' ∷ [])))

-- The rows `row`, `row + 1`, ..., `n` of them.
unfoldable pub selected_rows : Snapshot → Range → ℕ → ℕ → Option (List ℕ)
selected_rows view x row zero = some []
selected_rows view x row (suc n) = do
  line ← selected_row view x row
  rest ← selected_rows view x (add row 1) n
  some (line ++ rest)

-- `selectedText`, over the snapshot that it takes; the text is its runes.
unfoldable pub selected_text : Snapshot → Range → Option (List ℕ)
selected_text view range =
    let x : Range = in_order range in
    let r1 : ℕ = if slt x.r1 0 then 0 else x.r1 in
    let r2 : ℕ = if sle view.rows x.r2 then sub view.rows 1 else x.r2 in
    if slt r2 r1
    then some []
    else selected_rows view (record { r1 = r1; c1 = x.c1; r2 = r2; c2 = x.c2 }) r1
        (rounds r1 (add r2 1))

-- The `selection` variable.
pub record MouseSelection : Type 0 where
  pub active : Bool
  pub start_row : ℕ
  pub start_col : ℕ
  pub end_row : ℕ
  pub end_col : ℕ
  pub have_selection : Bool

-- The left button is pressed at a cell.
unfoldable pub press : MouseSelection → ℕ → ℕ → MouseSelection
press m row col = record {
  active = true;
  start_row = row;
  start_col = col;
  end_row = row;
  end_col = col;
  have_selection = false;
}

-- The mouse moves to a cell.
unfoldable pub drag : MouseSelection → ℕ → ℕ → MouseSelection
drag m row col =
    if m.active && (not (row == m.end_row) || not (col == m.end_col))
    then record m {
      end_row = row;
      end_col = col;
      have_selection =
          if not (row == m.start_row) || not (col == m.start_col) then true else m.have_selection;
    }
    else m

-- The left button is released: the selection, and the range whose text is copied, if one is.
unfoldable pub release : MouseSelection → MouseSelection × Option Range
release m =
    if m.active
    then (
      record m { active = false },
      (if m.have_selection
          then some (record { r1 = m.start_row; c1 = m.start_col; r2 = m.end_row; c2 = m.end_col })
          else none),
    )
    else (m, none)
