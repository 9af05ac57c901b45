-- ===== src/Vterm/Resize/Copied.antt =====
-- What `Resize` copies, cell by cell.
use pitviper.Base.{
  ℕ, zero, suc, ◌+◌, ◌-◌, ◌*◌, ◌≤◌, ◌<◌, ◌≡◌, refl, sym, ◌∙◌, ap, ap₂, arith, false, ltb, ◌==◌,
  ◌&&◌, if◌then◌else◌, Option, some, List, length, replicate, length-replicate, get_elem?-some,
  get_elem?-replicate, ◌>>=◌, >>=-assoc, add, sub, mul, slt, sle, rounds, rounds-small, min,
}
use pitviper.Slice.{load, store}
use pitviper.Slice.Laws.{within, store-Yields}
use pitviper.Vterm.Cell.{Cell, blank}
use pitviper.Vterm.Screen.{Screen, make_cells}
use pitviper.Vterm.Valid.{IsValid, screen_at}
use pitviper.Vterm.Scroll.Rows.{cell_at, max_side, Draws, row_mono, area-le, mul-row}
use pitviper.Vterm.Resize.{copy_columns, copy_grid, resize}

module _ (rows cols old_rows old_cols : ℕ) (rows_max : rows ≤ max_side) (cols_max : cols ≤ max_side)
    (old_rows_max : old_rows ≤ max_side) (old_cols_max : old_cols ≤ max_side) (old : List Cell)
    (old_size : length old ≡ old_rows * old_cols) where
  -- One cell.
  cell-Draws :
      (new : List Cell) (r c : ℕ)
      → length new ≡ rows * cols
      → r < rows
      → r < old_rows
      → c < cols
      → c < old_cols
      → Draws rows cols
          (λ k d. if k == r && d == c then cell_at old_cols old r c else cell_at cols new k d)
          (load old (add (mul r old_cols) c) >>= λ cell. store new (add (mul r cols) c) cell)
  unfolding load
  cell-Draws new r c size hr hr' hc hc' =
      let area = area-le rows cols rows_max cols_max in
      let old_area = area-le old_rows old_cols old_rows_max old_cols_max in
      let from : add (mul r old_cols) c ≡ r * old_cols + c = omega (
        arith,
        mul-row old_rows old_cols old_rows_max old_cols_max r (omega arith),
        row_mono old_cols r old_rows hr',
      ) in
      let to : add (mul r cols) c ≡ r * cols + c =
        omega
          (arith, mul-row rows cols rows_max cols_max r (omega arith), row_mono cols r rows hr) in
      let (cell, e) =
        get_elem?-some old (r * old_cols + c) (omega (arith, row_mono old_cols r old_rows hr')) in
      let d = store-Yields new (r * cols + c) cell (omega (arith, row_mono cols r rows hr)) in
      record {
        out = d.out;
        returns =
            ap₂ (λ i j. load old i >>= λ x. store new j x) from to
            ∙ ap (λ (o : Option Cell). o >>= λ x. store new (r * cols + c) x) e
            ∙ d.returns;
        size = d.size ∙ size;
        elems = λ k x hk hx.
            ground (arith, d.elems (k * cols + x), e, row_mono cols k r, row_mono cols r k);
      }

  copy_columns-Draws :
      (new : List Cell) (r c n : ℕ)
      → length new ≡ rows * cols
      → r < rows
      → r < old_rows
      → c + n ≤ cols
      → c + n ≤ old_cols
      → Draws rows cols
          (λ k d.
            if k == r && within c (c + n) d then cell_at old_cols old r d else cell_at cols new k d)
          (copy_columns new old cols old_cols r c n)
  unfolding copy_columns
  copy_columns-Draws new r c zero size hr hr' p q = record {
    out = new;
    returns = refl;
    size = size;
    elems = λ k x hk hx. ground arith;
  }
  copy_columns-Draws new r c (suc n) size hr hr' p q =
      let first = cell-Draws new r c size hr hr' (omega arith) (omega arith) in
      let rest =
        copy_columns-Draws first.out r (c + 1) n first.size hr hr' (omega arith) (omega arith) in
      let next : add c 1 ≡ c + 1 = omega arith in
      let go : List Cell → Option (List Cell) =
        λ out. copy_columns out old cols old_cols r (add c 1) n in
      record {
        out = rest.out;
        returns =
            sym (
              >>=-assoc (load old (add (mul r old_cols) c))
                (λ cell. store new (add (mul r cols) c) cell) go)
            ∙ ap (λ (o : Option (List Cell)). o >>= go) first.returns
            ∙ ap (λ i. copy_columns first.out old cols old_cols r i n) next
            ∙ rest.returns;
        size = rest.size;
        elems = λ k x hk hx.
            ground
              (arith, rest.elems k x hk hx, first.elems k x hk hx, ap (cell_at old_cols old r));
      }

  copy_grid-Draws :
      (new : List Cell) (wide r n : ℕ)
      → length new ≡ rows * cols
      → wide ≤ cols
      → wide ≤ old_cols
      → r + n ≤ rows
      → r + n ≤ old_rows
      → Draws rows cols
          (λ k d.
            if within r (r + n) k && ltb d wide
            then cell_at old_cols old k d
            else cell_at cols new k d)
          (copy_grid new old cols old_cols wide r n)
  unfolding copy_grid
  copy_grid-Draws new wide r zero size p q hr hr' = record {
    out = new;
    returns = refl;
    size = size;
    elems = λ k x hk hx. ground arith;
  }
  copy_grid-Draws new wide r (suc n) size p q hr hr' =
      let first =
        copy_columns-Draws new r 0 wide size (omega arith) (omega arith) (omega arith)
          (omega arith) in
      let rest =
        copy_grid-Draws first.out wide (r + 1) n first.size p q (omega arith) (omega arith) in
      let next : add r 1 ≡ r + 1 = omega arith in
      let times : rounds 0 wide ≡ wide =
        rounds-small 0 wide (omega arith) (omega arith) ∙ omega arith in
      let go : List Cell → Option (List Cell) =
        λ out. copy_grid out old cols old_cols wide (add r 1) n in
      record {
        out = rest.out;
        returns =
            ap (λ m. copy_columns new old cols old_cols r 0 m >>= go) times
            ∙ ap (λ (o : Option (List Cell)). o >>= go) first.returns
            ∙ ap (λ i. copy_grid first.out old cols old_cols wide i n) next
            ∙ rest.returns;
        size = rest.size;
        elems = λ k x hk hx. ground (
          arith,
          rest.elems k x hk hx,
          first.elems k x hk hx,
          ap (λ j. cell_at old_cols old j x),
        );
      }

-- The screen has the new size: `f k c` is the cell in row `k` and column `c`, the cursor is cut to
-- the screen, and nothing else has changed.
pub record Resizes (s : Screen) (cols rows : ℕ) (f : ℕ → ℕ → Option Cell) (r : Option Screen)
    : Type 0 where
  pub out : List Cell
  pub returns :
      r
      ≡ some (record s {
        cells = out;
        cols = cols;
        rows = rows;
        cur_col = min s.cur_col (cols - 1);
        cur_row = min s.cur_row (rows - 1);
      })
  pub size : length out ≡ rows * cols
  pub elems : (k c : ℕ) → k < rows → c < cols → cell_at cols out k c ≡ f k c

module _ (s : Screen) (v : IsValid s) (cols rows : ℕ) (cols_pos : 1 ≤ cols)
    (cols_max : cols ≤ max_side) (rows_pos : 1 ≤ rows) (rows_max : rows ≤ max_side) where
  fresh : List Cell
  fresh = replicate (rows * cols) blank

  fresh-size : length fresh ≡ rows * cols
  unfolding fresh
  fresh-size = length-replicate (rows * cols) blank

  fresh-blank : (k c : ℕ) → k < rows → c < cols → cell_at cols fresh k c ≡ some blank
  unfolding fresh
  fresh-blank k c hk hc =
      get_elem?-replicate (rows * cols) blank (k * cols + c)
        (omega (arith, row_mono cols k rows hk))

  made : make_cells (mul cols rows) blank ≡ some fresh
  unfolding fresh make_cells
  made =
      let area = area-le rows cols rows_max cols_max in
      let size : mul cols rows ≡ rows * cols = omega arith in ground (arith, size, area)

  copied :
      Draws rows cols
        (λ k c. if ltb k s.rows && ltb c s.cols then screen_at s k c else some blank)
        (copy_grid fresh s.cells cols s.cols (min cols s.cols) 0 (min rows s.rows))
  copied =
      let d =
        copy_grid-Draws rows cols s.rows s.cols rows_max cols_max v.rows_max v.cols_max s.cells
          v.size fresh (min cols s.cols) 0 (min rows s.rows) fresh-size (omega arith) (omega arith)
          (omega arith) (omega arith) in
      record {
        out = d.out;
        returns = d.returns;
        size = d.size;
        elems = λ k c hk hc. ground (arith, d.elems k c hk hc, fresh-blank k c hk hc);
      }

  smaller : (a b : ℕ) → a ≤ max_side → b ≤ max_side → (if slt a b then a else b) ≡ min a b
  smaller a b p q = ground arith

  cut :
      (n a : ℕ)
      → 1 ≤ n
      → n ≤ max_side
      → a ≤ max_side
      → (if sle n a then sub n 1 else a) ≡ min a (n - 1)
  cut n a p q h = ground arith

  -- `Resize` of a valid screen to another size, of 1 to 2 ^ 30 rows and columns, returns. A cell
  -- that lies on both screens is kept, every other one is blank, and the cursor is cut to the new
  -- screen; nothing else changes, neither the scroll region nor the saved cursors.
  pub resize-Resizes :
      (cols == s.cols && rows == s.rows) ≡ false
      → Resizes s cols rows
          (λ k c. if ltb k s.rows && ltb c s.cols then screen_at s k c else some blank)
          (resize s cols rows)
  unfolding resize
  resize-Resizes other =
      let d = copied in
      let times : rounds 0 (min rows s.rows) ≡ min rows s.rows =
        rounds-small 0 (min rows s.rows) (omega arith) (omega arith) ∙ omega arith in
      let high = smaller rows s.rows rows_max v.rows_max in
      let wide = smaller cols s.cols cols_max v.cols_max in
      let col = cut cols s.cur_col cols_pos cols_max (omega (arith, v.col_in, v.cols_max)) in
      let row = cut rows s.cur_row rows_pos rows_max (omega (arith, v.row_in, v.rows_max)) in
      record {
        out = d.out;
        returns =
            rw other (rw made (rw (high, wide) (rw times (rw d.returns (rw (col, row) refl)))));
        size = d.size;
        elems = d.elems;
      }
