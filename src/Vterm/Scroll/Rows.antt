-- ===== src/Vterm/Scroll/Rows.antt =====
-- What the loops over rows yield, cell by cell of the grid, for rows inside it.
use pitviper.Base.{
  ℕ, zero, suc, ◌+◌, ◌-◌, ◌*◌, ◌≤◌, ◌<◌, ◌^◌, ◌≡◌, refl, ◌∙◌, ap, arith, ◌==◌, if◌then◌else◌,
  Option, some, List, length, get_elem?, add, sub, mul, rounds, ap₂, ◌>>=◌,
}
use pitviper.Slice.{fill}
use pitviper.Slice.Laws.{within, fill-Yields, copy_within-Yields}
use pitviper.Vterm.Cell.{Cell, blank}
use pitviper.Vterm.Scroll.{copy_row, blank_row, blank_rows, rows_up, rows_down}

-- The cell of row `k` and column `c`.
abbrev pub cell_at : ℕ → List Cell → ℕ → ℕ → Option Cell
cell_at cols cells k c = get_elem? cells (k * cols + c)

-- No side of a screen is longer.
abbrev pub max_side : ℕ
max_side = 2 ^ 30

-- The computation returns the cells of a grid, `f k c` in row `k` and column `c`.
pub record Draws (rows cols : ℕ) (f : ℕ → ℕ → Option Cell) (r : Option (List Cell)) : Type 0 where
  pub out : List Cell
  pub returns : r ≡ some out
  pub size : length out ≡ rows * cols
  pub elems : (k c : ℕ) → k < rows → c < cols → cell_at cols out k c ≡ f k c

pub row_mono : (cols k d : ℕ) → k < d → k * cols + cols ≤ d * cols
row_mono cols k d h = grind arith

pub area-le : (rows cols : ℕ) → rows ≤ max_side → cols ≤ max_side → rows * cols ≤ 2 ^ 60
area-le rows cols p q = grind arith

pub same_row :
    (cols d k c : ℕ) → c < cols → within (d * cols) (d * cols + cols) (k * cols + c) ≡ (k == d)
same_row cols d k c h = ground (arith, row_mono cols k d, row_mono cols d k)

shift_row : (cols d e c : ℕ) → e * cols + (d * cols + c - d * cols) ≡ e * cols + c
shift_row cols d e c = omega arith

pub suc_row : (cols d : ℕ) → (d + 1) * cols ≡ d * cols + cols
suc_row cols d = omega arith

module _ (rows cols : ℕ) (rows_max : rows ≤ max_side) (cols_max : cols ≤ max_side) where
  pub mul-row : (r : ℕ) → r ≤ rows → mul r cols ≡ r * cols
  mul-row r h = omega (arith, area-le r cols (omega arith) cols_max)

  pub mul-next_row : (r : ℕ) → r < rows → mul (add r 1) cols ≡ r * cols + cols
  mul-next_row r h =
      let small : add r 1 ≡ r + 1 = omega arith in
      ap (λ k. mul k cols) small ∙ mul-row (r + 1) (omega arith) ∙ suc_row cols r

  next_row_word : (r : ℕ) → r < rows → add r 1 ≡ r + 1
  next_row_word r h = omega arith

  rounds-cols : rounds 0 cols ≡ cols
  rounds-cols = ground arith

  pub blank_row-Draws :
      (cells : List Cell) (r : ℕ)
      → length cells ≡ rows * cols
      → r < rows
      → Draws rows cols
          (λ k c. if k == r then some blank else cell_at cols cells k c)
          (blank_row cells cols r)
  unfolding blank_row
  blank_row-Draws cells r size h =
      let y = fill-Yields cells (r * cols) cols blank (omega (arith, row_mono cols r rows h)) in
      record {
        out = y.out;
        returns =
            ap₂ (λ i n. fill cells i n blank) (mul-row r (omega arith)) rounds-cols ∙ y.returns;
        size = y.size ∙ size;
        elems = λ k c hk hc. y.elems (k * cols + c) ∙ rw (same_row cols r k c hc);
      }

  pub copy_row-Draws :
      (cells : List Cell) (dst src : ℕ)
      → length cells ≡ rows * cols
      → dst < rows
      → src < rows
      → Draws rows cols
          (λ k c. if k == dst then cell_at cols cells src c else cell_at cols cells k c)
          (copy_row cells cols dst src)
  unfolding copy_row
  copy_row-Draws cells dst src size h i =
      let y =
        copy_within-Yields cells (dst * cols) (src * cols) cols
          (omega (arith, row_mono cols dst rows h)) (omega (arith, row_mono cols src rows i)) in
      record {
        out = y.out;
        returns =
            rw (mul-row dst (omega arith), mul-next_row dst h)
              (rw (mul-row src (omega arith), mul-next_row src i) y.returns);
        size = y.size ∙ size;
        elems = λ k c hk hc. ground (
          arith,
          y.elems (k * cols + c),
          same_row cols dst k c hc,
          ap (get_elem? cells) (shift_row cols dst src c),
        );
      }

  pub blank_rows-Draws :
      (cells : List Cell) (r n : ℕ)
      → length cells ≡ rows * cols
      → r + n ≤ rows
      → Draws rows cols
          (λ k c. if within r (r + n) k then some blank else cell_at cols cells k c)
          (blank_rows cells cols r n)
  unfolding blank_rows
  blank_rows-Draws cells r zero size h = record {
    out = cells;
    returns = refl;
    size = size;
    elems = λ k c hk hc. ground arith;
  }
  blank_rows-Draws cells r (suc n) size h =
      let first = blank_row-Draws cells r size (omega arith) in
      let rest = blank_rows-Draws first.out (r + 1) n first.size (omega arith) in
      record {
        out = rest.out;
        returns =
            ap (λ i. blank_row cells cols r >>= λ t. blank_rows t cols i n)
              (next_row_word r (omega arith))
            ∙ ap (λ o. o >>= λ t. blank_rows t cols (r + 1) n) first.returns
            ∙ rest.returns;
        size = rest.size;
        elems = λ k c hk hc. ground (arith, rest.elems k c hk hc, first.elems k c hk hc);
      }

  pub rows_up-Draws :
      (cells : List Cell) (by r n : ℕ)
      → length cells ≡ rows * cols
      → r + n + by ≤ rows
      → Draws rows cols
          (λ k c.
            if within r (r + n) k then cell_at cols cells (k + by) c else cell_at cols cells k c)
          (rows_up cells cols by r n)
  unfolding rows_up
  rows_up-Draws cells by r zero size h = record {
    out = cells;
    returns = refl;
    size = size;
    elems = λ k c hk hc. ground arith;
  }
  rows_up-Draws cells by r (suc n) size h =
      let first = copy_row-Draws cells r (r + by) size (omega arith) (omega arith) in
      let rest = rows_up-Draws first.out by (r + 1) n first.size (omega arith) in
      let from : add r by ≡ r + by = omega arith in
      record {
        out = rest.out;
        returns =
            ap₂ (λ j i. copy_row cells cols r j >>= λ t. rows_up t cols by i n) from
              (next_row_word r (omega arith))
            ∙ ap (λ o. o >>= λ t. rows_up t cols by (r + 1) n) first.returns
            ∙ rest.returns;
        size = rest.size;
        elems = λ k c hk hc.
            ground (arith, rest.elems k c hk hc, first.elems k c hk hc, first.elems (k + by) c);
      }

  -- Downwards the loop ends above row `r + 1 - n`, and reads no row that it has written.
  pub rows_down-Draws :
      (cells : List Cell) (by r n : ℕ)
      → length cells ≡ rows * cols
      → r < rows
      → n + by ≤ r + 1
      → Draws rows cols
          (λ k c.
            if within (r + 1 - n) (r + 1) k
            then cell_at cols cells (k - by) c
            else cell_at cols cells k c)
          (rows_down cells cols by r n)
  unfolding rows_down
  rows_down-Draws cells by r zero size h i = record {
    out = cells;
    returns = refl;
    size = size;
    elems = λ k c hk hc. ground arith;
  }
  rows_down-Draws cells by r (suc zero) size h i =
      let first = copy_row-Draws cells r (r - by) size h (omega arith) in
      let from : sub r by ≡ r - by = omega arith in
      record {
        out = first.out;
        returns =
            ap (λ j. copy_row cells cols r j >>= λ t. some t) from
            ∙ ap (λ o. o >>= λ t. some t) first.returns;
        size = first.size;
        elems = λ k c hk hc. ground (arith, first.elems k c hk hc);
      }
  rows_down-Draws cells by r (suc (suc n)) size h i =
      let first = copy_row-Draws cells r (r - by) size h (omega arith) in
      let rest =
        rows_down-Draws first.out by (r - 1) (suc n) first.size (omega arith) (omega arith) in
      let from : sub r by ≡ r - by = omega arith in
      let next : sub r 1 ≡ r - 1 = omega arith in
      record {
        out = rest.out;
        returns =
            ap₂ (λ j i. copy_row cells cols r j >>= λ t. rows_down t cols by i (suc n)) from next
            ∙ ap (λ o. o >>= λ t. rows_down t cols by (r - 1) (suc n)) first.returns
            ∙ rest.returns;
        size = rest.size;
        elems = λ k c hk hc.
            ground (arith, rest.elems k c hk hc, first.elems k c hk hc, first.elems (k - by) c);
      }
