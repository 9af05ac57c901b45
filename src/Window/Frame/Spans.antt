-- ===== src/Window/Frame/Spans.antt =====
-- The text of a selection against what is highlighted.
use pitviper.Base.{
  ℕ, zero, suc, ◌+◌, ◌-◌, ◌*◌, ◌≤◌, ◌<◌, min, Bool, false, ◌==◌, if◌then◌else◌, Option, some, ◌>>=◌,
  List, [], ◌∷◌, ◌++◌, slt, sle, add, sub, rounds, ◌≡◌, refl, arith,
}
use pitviper.Vterm.View.{Snapshot}
use pitviper.Font.{glyph_w, glyph_h}
use pitviper.Window.Selection.{
  Range, in_order, read_row, trim_right, selected_row, selected_rows, selected_text,
}
use pitviper.Window.Selection.Inside.{IsNear, in_order-IsNear, in_order_lem}
use pitviper.Window.Frame.{Draw, int32, highlight_row, highlight_rows, highlight_range}
use pitviper.Window.Frame.Inside.{IsShown}

-- The first selected column of a row, and how many there are.
abbrev pub first_column : Range → ℕ → ℕ
first_column x row = if row == x.r1 then x.c1 else 0

abbrev pub columns : ℕ → Range → ℕ → ℕ
columns cols x row = (if row == x.r2 then min (x.c2 + 1) cols else cols) - first_column x row

-- The text of `n` rows from `row` on: the characters of the selected columns, less the spaces at
-- the end, with a line feed behind each row but the last.
abbrev pub spans_text : Snapshot → Range → ℕ → ℕ → Option (List ℕ)
spans_text view x row zero = some []
spans_text view x row (suc n) =
    (read_row view row (first_column x row) (columns view.cols x row) >>= λ line.
    some (trim_right line ++ (if row == x.r2 then [] else b'\n' ∷ [])))
    >>= λ line. spans_text view x (row + 1) n >>= λ rest. some (line ++ rest)

-- The rectangles over `n` rows from `row` on: the pixels of the selected columns.
abbrev pub spans_drawn : ℕ → Range → ℕ → ℕ → List Draw
spans_drawn cols x row zero = []
spans_drawn cols x row (suc n) =
    (if columns cols x row == 0
      then []
      else Draw.highlight (record {
        x = first_column x row * glyph_w;
        y = row * glyph_h;
        w = columns cols x row * glyph_w;
        h = glyph_h;
      })
        ∷ [])
    ++ spans_drawn cols x (row + 1) n

module _ (view : Snapshot) (shown : IsShown view) (x : Range) (near : IsNear view x)
    (forth : x.r1 ≡ x.r2 → x.c1 ≤ x.c2) where
  row_text :
      (row : ℕ)
      → row < view.rows
      → selected_row view x row ≡ (
          read_row view row (first_column x row) (columns view.cols x row) >>= λ line.
          some (trim_right line ++ (if row == x.r2 then [] else b'\n' ∷ [])))
  unfolding selected_row
  row_text row p =
      let last : ℕ = if row == x.r2 then x.c2 else sub view.cols 1 in
      let end : ℕ = if sle view.cols last then sub view.cols 1 else last in
      let first : ℕ = first_column x row in
      let from : (if slt first 0 then 0 else first) ≡ first = ground (arith, shown.narrow, near) in
      let fits : slt (add (sub end first) 1) 0 ≡ false =
        ground (arith, shown.narrow, shown.valid.cols_pos, near) in
      let times : rounds first (add end 1) ≡ columns view.cols x row =
        ground (arith, shown.narrow, shown.valid.cols_pos, near) in
      rw from (rw fits (rw times refl))

  row_drawn :
      (row : ℕ)
      → row < view.rows
      → highlight_row view.cols x row ≡ (
          if columns view.cols x row == 0
          then []
          else Draw.highlight (record {
            x = first_column x row * glyph_w;
            y = row * glyph_h;
            w = columns view.cols x row * glyph_w;
            h = glyph_h;
          })
            ∷ [])
  unfolding highlight_row int32
  row_drawn row p = ground (arith, shown.narrow, shown.low, shown.valid.cols_pos, near)

  rows_text :
      (row n : ℕ) → row + n ≤ view.rows → selected_rows view x row n ≡ spans_text view x row n
  unfolding selected_rows
  rows_text row zero p = refl
  rows_text row (suc n) p =
      let next : add row 1 ≡ row + 1 = omega (arith, shown.low) in
      let last : ℕ → Bool = λ r. r == x.r2 in
      rw next (rw (row_text row (omega arith)) (rw (rows_text (row + 1) n (omega arith)) refl))

  rows_drawn :
      (row n : ℕ)
      → row + n ≤ view.rows
      → highlight_rows view.cols x row n ≡ spans_drawn view.cols x row n
  unfolding highlight_rows
  rows_drawn row zero p = refl
  rows_drawn row (suc n) p =
      let next : add row 1 ≡ row + 1 = omega (arith, shown.low) in
      rw next (rw (row_drawn row (omega arith)) (rw (rows_drawn (row + 1) n (omega arith)) refl))

-- On a view of at most 2 ^ 27 rows and columns, with both ends of a selection on rows of the grid
-- and on columns of the grid or on the one right of it, the text that `selectedText` copies is
-- that of the columns that `renderFrame` highlights: both are read off the same columns, row by
-- row.
pub selection_spans :
    (view : Snapshot) (range : Range)
    → IsShown view
    → IsNear view range
    → (selected_text view range
        ≡ spans_text view
            (in_order range)
            (in_order range).r1
            ((in_order range).r2 + 1 - (in_order range).r1))
      × (highlight_range view.cols view.rows range
          ≡ spans_drawn view.cols
              (in_order range)
              (in_order range).r1
              ((in_order range).r2 + 1 - (in_order range).r1))
unfolding selected_text highlight_range
selection_spans view range shown near =
    let x : Range = in_order range in
    let n = in_order-IsNear view range near in
    let (down, forth) = in_order_lem view range shown.valid near in
    let small = shown.low in
    let top : (if slt x.r1 0 then 0 else x.r1) ≡ x.r1 = ground (arith, n) in
    let bottom : (if sle view.rows x.r2 then sub view.rows 1 else x.r2) ≡ x.r2 =
      ground (arith, n) in
    let order : slt x.r2 x.r1 ≡ false = ground (arith, n, down) in
    let times : rounds x.r1 (add x.r2 1) ≡ x.r2 + 1 - x.r1 = ground (arith, n) in
    let stop : (if sle view.rows x.r2 then view.rows else add x.r2 1) ≡ add x.r2 1 =
      ground (arith, n) in
    let inside : x.r1 + (x.r2 + 1 - x.r1) ≤ view.rows = omega (arith, n.r2_in, down) in
    (
      rw (top, bottom)
          (rw (order, times) (rows_text view shown x n forth x.r1 (x.r2 + 1 - x.r1) inside)),
      rw stop (rw times (rows_drawn view shown x n forth x.r1 (x.r2 + 1 - x.r1) inside)),
    )
