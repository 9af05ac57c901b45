-- ===== src/Vterm/Csi/Columns.antt =====
-- Filling and shifting columns of one row of a grid.
use pitviper.Base.{
  ℕ, ◌+◌, ◌-◌, ◌*◌, ◌≤◌, ◌<◌, ◌≡◌, ◌∙◌, ap, arith, ◌==◌, ◌&&◌, if◌then◌else◌, some, List, length,
  get_elem?,
}
use pitviper.Slice.{fill, copy_within}
use pitviper.Slice.Laws.{within, fill-Yields, copy_within-Yields}
use pitviper.Vterm.Cell.{Cell}
use pitviper.Vterm.Scroll.Rows.{cell_at, Draws, row_mono}

module _ (rows cols row : ℕ) (row_in : row < rows) where
  in_row :
      (a b k c : ℕ)
      → b ≤ cols
      → c < cols
      → within (row * cols + a) (row * cols + b) (k * cols + c) ≡ (k == row && within a b c)
  in_row a b k c p q = ground (arith, row_mono cols k row, row_mono cols row k)

  pub fill_columns-Draws :
      (cells : List Cell) (a n : ℕ) (x : Cell)
      → length cells ≡ rows * cols
      → a + n ≤ cols
      → Draws rows cols
          (λ k c. if k == row && within a (a + n) c then some x else cell_at cols cells k c)
          (fill cells (row * cols + a) n x)
  fill_columns-Draws cells a n x size h =
      let end = row_mono cols row rows row_in in
      let d = fill-Yields cells (row * cols + a) n x (omega (arith, size, end)) in
      record {
        out = d.out;
        returns = d.returns;
        size = d.size ∙ size;
        elems = λ k c hk hc. ground (arith, d.elems (k * cols + c), in_row a (a + n) k c h hc);
      }

  shifted :
      (a b k c : ℕ)
      → k ≡ row
      → a ≤ c
      → row * cols + b + (k * cols + c - (row * cols + a)) ≡ k * cols + (c - a + b)
  shifted a b k c e h = omega (arith, ap (λ i. i * cols) e)

  -- Columns `b` to `b + n` are copied over columns `a` to `a + n`.
  pub shift_columns-Draws :
      (cells : List Cell) (a b n : ℕ)
      → length cells ≡ rows * cols
      → a + n ≤ cols
      → b + n ≤ cols
      → Draws rows cols
          (λ k c.
            if k == row && within a (a + n) c
            then cell_at cols cells k (c - a + b)
            else cell_at cols cells k c)
          (copy_within cells
            (row * cols + a)
            (row * cols + a + n)
            (row * cols + b)
            (row * cols + b + n))
  shift_columns-Draws cells a b n size p q =
      let end = row_mono cols row rows row_in in
      let d =
        copy_within-Yields cells (row * cols + a) (row * cols + b) n (omega (arith, size, end))
          (omega (arith, size, end)) in
      record {
        out = d.out;
        returns = d.returns;
        size = d.size ∙ size;
        elems = λ k c hk hc. ground (
          arith,
          d.elems (k * cols + c),
          in_row a (a + n) k c p hc,
          λ (e : k ≡ row) (le : a ≤ c). ap (get_elem? cells) (shifted a b k c e le),
        );
      }
