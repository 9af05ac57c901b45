-- ===== src/Window/Selection/Inside.antt =====
-- A selection whose ends lie on the grid or on its right border is read without a panic, whichever
-- way the mouse was drawn.
use pitviper.Base.{
  ℕ, zero, suc, ◌+◌, ◌-◌, ◌*◌, ◌≤◌, ◌<◌, ◌≡◌, refl, ap, arith, false, ◌==◌, if◌then◌else◌, none,
  some, List, [], ◌∷◌, ◌++◌, length, get_elem?-some, ◌>>=◌, add, sub, mul, slt, sle, rounds,
  Returns, Returns->>=,
}
use pitviper.Slice.{load}
use pitviper.Vterm.View.{Snapshot}
use pitviper.Vterm.Scroll.Rows.{max_side, row_mono, area-le, mul-row}
use pitviper.Window.Selection.{
  Range, in_order, read_row, trim_right, selected_row, selected_rows, selected_text,
}

-- A view as `Snapshot` returns it.
pub record IsView (view : Snapshot) : Type 0 where
  pub rows_pos : 1 ≤ view.rows
  pub rows_max : view.rows ≤ max_side
  pub cols_pos : 1 ≤ view.cols
  pub cols_max : view.cols ≤ max_side
  pub size : length view.cells ≡ view.rows * view.cols

-- The ends of a selection: on rows of the grid, and on columns of the grid or the one right of it.
pub record IsNear (view : Snapshot) (x : Range) : Type 0 where
  pub r1_in : x.r1 < view.rows
  pub r2_in : x.r2 < view.rows
  pub c1_near : x.c1 ≤ view.cols
  pub c2_near : x.c2 ≤ view.cols

pub in_order-IsNear : (view : Snapshot) (x : Range) → IsNear view x → IsNear view (in_order x)
unfolding in_order
in_order-IsNear view x h = ground arith

-- In order, the first row is above the last, or the same with the first column on the left.
pub in_order_lem :
    (view : Snapshot) (x : Range)
    → IsView view
    → IsNear view x
    → ((in_order x).r1 ≤ (in_order x).r2)
      × ((in_order x).r1 ≡ (in_order x).r2 → (in_order x).c1 ≤ (in_order x).c2)
unfolding in_order
in_order_lem view x w h = ground arith

module _ (view : Snapshot) (w : IsView view) where
  read_row-length :
      (row col n : ℕ)
      → row < view.rows
      → col + n ≤ view.cols
      → Returns (λ l. length l ≡ n) (read_row view row col n)
  unfolding read_row load
  read_row-length row col zero h k = refl
  read_row-length row col (suc n) h k =
      let area = area-le view.rows view.cols w.rows_max w.cols_max in
      let end = row_mono view.cols row view.rows h in
      let start = mul-row view.rows view.cols w.rows_max w.cols_max row (omega arith) in
      let at : add (mul row view.cols) col ≡ row * view.cols + col = omega arith in
      let next : add col 1 ≡ col + 1 = omega (arith, w.cols_max) in
      let (cell, e) = get_elem?-some view.cells (row * view.cols + col) (omega (arith, w.size)) in
      rw next (
        rw at (
          rw e (
            Returns->>= (λ l. length l ≡ n) (λ l. length l ≡ suc n) (read_row view row (col + 1) n)
              (λ rest. some ((if cell.ch == 0 then b' ' else cell.ch) ∷ rest))
              (read_row-length row (col + 1) n h (omega arith)) (λ l p. ap suc p))))

  -- The part of a row from `start` up to and with `end`, perhaps empty.
  part-Returns :
      (row start end : ℕ) (tail : List ℕ)
      → row < view.rows
      → start ≤ end + 1
      → end < view.cols
      → Returns
          (λ l. Unit {0})
          (if slt (add (sub end start) 1) 0
            then none
            else (read_row view row start (rounds start (add end 1)) >>= λ line.
                some (trim_right line ++ tail)))
  part-Returns row start end tail h p q =
      let small = w.cols_max in
      let fits : slt (add (sub end start) 1) 0 ≡ false = ground arith in
      let times : rounds start (add end 1) ≡ end + 1 - start = ground arith in
      rw fits (
        rw times (
          Returns->>= (λ l. length l ≡ end + 1 - start) (λ l. Unit {0})
            (read_row view row start (end + 1 - start)) (λ line. some (trim_right line ++ tail))
            (read_row-length row start (end + 1 - start) h (omega arith)) (λ l p. tt)))

  module _ (x : Range) (near : IsNear view x) (forth : x.r1 ≡ x.r2 → x.c1 ≤ x.c2)
      (inside : x.r2 < view.rows) where
    abbrev first : ℕ → ℕ
    first row = if row == x.r1 then x.c1 else 0

    abbrev last : ℕ → ℕ
    last row = if row == x.r2 then x.c2 else sub view.cols 1

    abbrev start : ℕ → ℕ
    start row = if slt (first row) 0 then 0 else first row

    abbrev end : ℕ → ℕ
    end row = if sle view.cols (last row) then sub view.cols 1 else last row

    end-lt : (row : ℕ) → end row < view.cols
    end-lt row = ground (arith, w.cols_max, w.cols_pos, near)

    start-le : (row : ℕ) → start row ≤ end row + 1
    start-le row = ground (arith, w.cols_max, w.cols_pos, near)

    selected_row-Returns :
        (row : ℕ) → row < view.rows → Returns (λ l. Unit {0}) (selected_row view x row)
    unfolding selected_row
    selected_row-Returns row h =
        part-Returns row (start row) (end row) (if row == x.r2 then [] else b'\n' ∷ []) h
          (start-le row) (end-lt row)

    selected_rows-Returns :
        (row n : ℕ) → row + n ≤ view.rows → Returns (λ l. Unit {0}) (selected_rows view x row n)
    unfolding selected_rows
    selected_rows-Returns row zero h = tt
    selected_rows-Returns row (suc n) h =
        let small = w.rows_max in
        let next : add row 1 ≡ row + 1 = omega arith in
        rw next (
          Returns->>= (λ l. Unit {0}) (λ l. Unit {0}) (selected_row view x row)
            (λ line. selected_rows view x (row + 1) n >>= λ rest. some (line ++ rest))
            (selected_row-Returns row (omega arith))
            (λ line k.
              Returns->>= (λ l. Unit {0}) (λ l. Unit {0}) (selected_rows view x (row + 1) n)
                (λ rest. some (line ++ rest)) (selected_rows-Returns (row + 1) n (omega arith))
                (λ rest k. tt)))

-- The text of a selection on a view of 1 to 2 ^ 30 rows and columns, with both ends on rows of
-- the grid and on columns of the grid or on the one right of it, is read without a panic, whichever
-- end comes first.
pub selected_text-Returns :
    (view : Snapshot) (x : Range)
    → IsView view
    → IsNear view x
    → Returns (λ l. Unit {0}) (selected_text view x)
unfolding selected_text
selected_text-Returns view x w near =
    let y : Range = in_order x in
    let n = in_order-IsNear view x near in
    let (down, forth) = in_order_lem view x w near in
    let top : (if slt y.r1 0 then 0 else y.r1) ≡ y.r1 = ground (arith, n) in
    let bottom : (if sle view.rows y.r2 then sub view.rows 1 else y.r2) ≡ y.r2 =
      ground (arith, n, w.rows_max) in
    let order : slt y.r2 y.r1 ≡ false = ground (arith, n, w.rows_max, down) in
    let times : rounds y.r1 (add y.r2 1) ≡ y.r2 + 1 - y.r1 = ground (arith, n, w.rows_max) in
    rw (top, bottom)
      (rw (order, times)
        (selected_rows-Returns view w y n forth n.r2_in y.r1 (y.r2 + 1 - y.r1)
          (omega (arith, n.r2_in))))
