-- ===== src/Vterm/View/History.antt =====
-- `Snapshot` of a view that is scrolled back: saved lines above, and the top of the live screen
-- below them.
use pitviper.Base.{
  ℕ, zero, suc, ◌+◌, ◌*◌, ◌≤◌, ◌<◌, ◌≡◌, refl, sym, ◌∙◌, ap, arith, true, false, Bool-cases, inl,
  inr, ◌==◌, if◌then◌else◌, Option, some, List, length, replicate, length-replicate, ◌>>=◌, add,
  mul, slt, rounds, rounds-small,
}
use pitviper.Slice.Laws.{within}
use pitviper.Vterm.Cell.{Cell, zero_cell}
use pitviper.Vterm.Screen.{Screen, make_cells}
use pitviper.Vterm.Valid.{IsValid}
use pitviper.Vterm.Scroll.Rows.{cell_at, Draws, area-le}
use pitviper.Vterm.View.{Snapshot, minus_one, compose_rows, snapshot}
use pitviper.Vterm.View.Rows.{view_cell, compose_row-Draws}

module _ (s : Screen) (v : IsValid s) (back : 1 ≤ s.scroll_top) where
  open s use {rows, cols}

  view_at : (k r c : ℕ) → k ≡ r → view_cell s r c ≡ view_cell s k c
  view_at k r c e = ap (λ i. view_cell s i c) (sym e)

  compose_rows-Draws :
      (out : List Cell) (row n : ℕ)
      → length out ≡ rows * cols
      → row + n ≤ rows
      → Draws rows cols
          (λ k c. if within row (row + n) k then view_cell s k c else cell_at cols out k c)
          (compose_rows s out row n)
  unfolding compose_rows
  compose_rows-Draws out row zero size h = record {
    out = out;
    returns = refl;
    size = size;
    elems = λ k c hk hc. elim (Bool-cases (within row (row + 0) k)) [
      | inl e ↦ absurd (ground arith)
      | inr e ↦ rw e refl
    ];
  }
  compose_rows-Draws out row (suc n) size h =
      let first = compose_row-Draws s v back out row size (omega arith) in
      let rest = compose_rows-Draws first.out (row + 1) n first.size (omega arith) in
      let small = v.rows_max in
      let next : add row 1 ≡ row + 1 = omega arith in
      record {
        out = rest.out;
        returns =
            ap (λ (o : Option (List Cell)). o >>= λ t. compose_rows s t (add row 1) n) first.returns
            ∙ ap (λ i. compose_rows s first.out i n) next
            ∙ rest.returns;
        size = rest.size;
        elems = λ k c hk hc.
            joined row n k (cell_at cols rest.out k c) (cell_at cols first.out k c)
              (cell_at cols out k c) (view_cell s k c) (view_cell s row c) (rest.elems k c hk hc)
              (first.elems k c hk hc) (view_at k row c);
      }
    where
      joined :
          (row n k : ℕ) (x y o here first : Option Cell)
          → x ≡ (if within (row + 1) (row + 1 + n) k then here else y)
          → y ≡ (if k == row then first else o)
          → (k ≡ row → first ≡ here)
          → x ≡ (if within row (row + suc n) k then here else o)
      joined row n k x y o here first p q at = ground arith

-- The view shows `f k c` in row `k` and column `c`, and no cursor.
pub record ShowsBack (s : Screen) (f : ℕ → ℕ → Option Cell) (r : Option Snapshot) : Type 0 where
  pub out : List Cell
  pub returns :
      r
      ≡ some (record {
        cells = out;
        cols = s.cols;
        rows = s.rows;
        cur_row = minus_one;
        cur_col = minus_one;
      })
  pub size : length out ≡ s.rows * s.cols
  pub elems : (k c : ℕ) → k < s.rows → c < s.cols → cell_at s.cols out k c ≡ f k c

-- `Snapshot` of a valid screen that is scrolled back by `n` lines returns. Its first `n` rows show
-- the last `n` saved lines in order, cut to the width of the screen or filled up with blanks; below
-- them stand the first rows of the live screen; and the cursor is hidden.
pub snapshot-ShowsBack :
    (s : Screen) → IsValid s → 1 ≤ s.scroll_top → ShowsBack s (view_cell s) (snapshot s)
unfolding snapshot make_cells
snapshot-ShowsBack s v back =
    let n : ℕ = s.rows * s.cols in
    let fresh : List Cell = replicate n zero_cell in
    let area = area-le s.rows s.cols v.rows_max v.cols_max in
    let size : mul s.rows s.cols ≡ n = omega arith in
    let fits : slt n 0 ≡ false = ground arith in
    let scrolled : (s.scroll_top == 0) ≡ false = ground arith in
    let times : rounds 0 s.rows ≡ s.rows =
      rounds-small 0 s.rows (omega arith) (omega (arith, v.rows_max)) ∙ omega arith in
    let d =
      compose_rows-Draws s v back fresh 0 s.rows (length-replicate n zero_cell) (omega arith) in
    let finish : List Cell → Option Snapshot = λ cells. some (record {
      cells = cells;
      cols = s.cols;
      rows = s.rows;
      cur_row = minus_one;
      cur_col = minus_one;
    }) in
    record {
      out = d.out;
      returns = rw size (
          rw (fits, scrolled)
            (ap (λ m. compose_rows s fresh 0 m >>= finish) times
              ∙ ap (λ (o : Option (List Cell)). o >>= finish) d.returns));
      size = d.size;
      elems = λ k c hk hc. d.elems k c hk hc ∙ all k c hk;
    }
  where
    all :
        (k c : ℕ)
        → k < s.rows
        → (if within 0 (0 + s.rows) k
            then view_cell s k c
            else cell_at s.cols (replicate (s.rows * s.cols) zero_cell) k c)
          ≡ view_cell s k c
    all k c h = let inside : within 0 (0 + s.rows) k ≡ true = ground arith in rw inside refl
