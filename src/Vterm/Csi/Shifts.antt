-- ===== src/Vterm/Csi/Shifts.antt =====
-- `IL` and `DL` of `handleCSI`: repeated shifts by one row are one shift by their number.
use pitviper.Base.{
  ℕ, zero, suc, ◌+◌, ◌-◌, ◌*◌, ◌≤◌, ◌<◌, ◌≡◌, min, refl, ◌∙◌, ap, arith, Bool-cases, inl, inr, ltb,
  leb, if◌then◌else◌, some, List, length, add, sub, sle, rounds, ◌>>=◌, rounds-small, true, false,
  sle-small,
}
use pitviper.Slice.Laws.{within}
use pitviper.Vterm.Cell.{Cell, blank}
use pitviper.Vterm.Screen.{Screen}
use pitviper.Vterm.Valid.{IsValid, Redraws, Redraws-ext, screen_at}
use pitviper.Vterm.Scroll.{rows_up, rows_down, blank_row}
use pitviper.Vterm.Scroll.Rows.{
  max_side, cell_at, Draws, rows_up-Draws, rows_down-Draws, blank_row-Draws,
}
use pitviper.Vterm.Params.{pos_or1, min2}
use pitviper.Vterm.Csi.Bounds.{AllSmall, pos_or1-IsSmall}
use pitviper.Vterm.Csi.Lines.{insert_loop, insert_lines, delete_loop, delete_lines}

module _ (rows cols : ℕ) (rows_max : rows ≤ max_side) (cols_max : cols ≤ max_side) (top bot : ℕ)
    (le : top ≤ bot) (bot_in : bot < rows) where
  times : rounds top bot ≡ bot - top
  times = rounds-small top bot (omega arith) (omega arith)

  insert_loop-Draws :
      (cells : List Cell) (n : ℕ)
      → length cells ≡ rows * cols
      → Draws rows cols
          (λ k c.
            if within top (bot + 1) k
            then (if ltb k (top + n) then some blank else cell_at cols cells (k - n) c)
            else cell_at cols cells k c)
          (insert_loop cells cols top bot n)
  unfolding insert_loop
  insert_loop-Draws cells zero size = record {
    out = cells;
    returns = refl;
    size = size;
    elems = λ k c hk hc. ground (arith, ap (λ j. cell_at cols cells j c) (same k));
  }
    where
      same : (k : ℕ) → k - 0 ≡ k
      same k = omega arith
  insert_loop-Draws cells (suc n) size =
      let moved =
        rows_down-Draws rows cols rows_max cols_max cells 1 bot (bot - top) size bot_in
          (omega arith) in
      let first =
        blank_row-Draws rows cols rows_max cols_max moved.out top moved.size (omega arith) in
      let rest = insert_loop-Draws first.out n first.size in
      let step = ap (rows_down cells cols 1 bot) times ∙ moved.returns in
      record {
        out = rest.out;
        returns =
            ap (λ o. o >>= λ m. blank_row m cols top >>= λ t. insert_loop t cols top bot n) step
            ∙ ap (λ o. o >>= λ t. insert_loop t cols top bot n) first.returns
            ∙ rest.returns;
        size = rest.size;
        elems = λ k c hk hc. ground (
          arith,
          rest.elems k c hk hc,
          first.elems k c hk hc,
          first.elems (k - n) c,
          moved.elems k c hk hc,
          moved.elems (k - n) c,
          ap (λ j. cell_at cols cells j c) (twice k n),
        );
      }
    where
      twice : (k n : ℕ) → k - n - 1 ≡ k - suc n
      twice k n = omega arith

  delete_loop-Draws :
      (cells : List Cell) (n : ℕ)
      → length cells ≡ rows * cols
      → Draws rows cols
          (λ k c.
            if within top (bot + 1) k
            then (if ltb bot (k + n) then some blank else cell_at cols cells (k + n) c)
            else cell_at cols cells k c)
          (delete_loop cells cols top bot n)
  unfolding delete_loop
  delete_loop-Draws cells zero size = record {
    out = cells;
    returns = refl;
    size = size;
    elems = λ k c hk hc. ground (arith, ap (λ j. cell_at cols cells j c) (same k));
  }
    where
      same : (k : ℕ) → k + 0 ≡ k
      same k = omega arith
  delete_loop-Draws cells (suc n) size =
      let moved =
        rows_up-Draws rows cols rows_max cols_max cells 1 top (bot - top) size (omega arith) in
      let first =
        blank_row-Draws rows cols rows_max cols_max moved.out bot moved.size (omega arith) in
      let rest = delete_loop-Draws first.out n first.size in
      let step = ap (rows_up cells cols 1 top) times ∙ moved.returns in
      record {
        out = rest.out;
        returns =
            ap (λ o. o >>= λ m. blank_row m cols bot >>= λ t. delete_loop t cols top bot n) step
            ∙ ap (λ o. o >>= λ t. delete_loop t cols top bot n) first.returns
            ∙ rest.returns;
        size = rest.size;
        elems = λ k c hk hc. ground (
          arith,
          rest.elems k c hk hc,
          first.elems k c hk hc,
          first.elems (k + n) c,
          moved.elems k c hk hc,
          moved.elems (k + n) c,
          ap (λ j. cell_at cols cells j c) (twice k n),
        );
      }
    where
      twice : (k n : ℕ) → k + n + 1 ≡ k + suc n
      twice k n = omega arith

module _ (s : Screen) (nums : List ℕ) (v : IsValid s) (h : AllSmall nums) where
  open s use {rows, cols, cells, cur_row, scroll_reg_bot as bot}

  as_is : Redraws s (λ k c. screen_at s k c) (some s)
  as_is = record { out = cells; returns = refl; size = v.size; elems = λ k c hk hc. refl }

  shifts_word :
      cur_row ≤ bot
      → rounds 0 (min2 (pos_or1 nums) (add (sub bot cur_row) 1))
        ≡ min (pos_or1 nums) (bot + 1 - cur_row)
  unfolding min2
  shifts_word le = ground (arith, pos_or1-IsSmall nums h, v.rows_max, v.region_in)

  -- `IL` with `n` lines on a valid screen returns, with parameters below 2 ^ 62. From the cursor's
  -- row to the bottom of the scroll region each row takes the row `n` above it, and the first `n`
  -- of them are blank. Below the region it does nothing.
  pub insert_lines-Redraws :
      Redraws s
        (λ k c.
          if within cur_row (bot + 1) k
          then (if ltb k (cur_row + pos_or1 nums)
              then some blank
              else screen_at s (k - pos_or1 nums) c)
          else screen_at s k c)
        (insert_lines s nums)
  unfolding insert_lines
  insert_lines-Redraws = elim (Bool-cases (leb cur_row bot)) [
    | inl above ↦
        let le : cur_row ≤ bot = ground arith in
        let n : ℕ = min (pos_or1 nums) (bot + 1 - cur_row) in
        let d =
          insert_loop-Draws rows cols v.rows_max v.cols_max cur_row bot le v.region_in cells n
            v.size in
        let test : sle cur_row bot ≡ true =
          sle-small cur_row bot (omega (arith, v.rows_max, v.row_in))
            (omega (arith, v.rows_max, v.region_in))
          ∙ above in
        let run = ap (insert_loop cells cols cur_row bot) (shifts_word le) ∙ d.returns in
        record {
          out = d.out;
          returns = rw test (rw run);
          size = d.size;
          elems = λ k c hk hc. d.elems k c hk hc ∙ ground arith;
        }
    | inr below ↦
        let test : sle cur_row bot ≡ false =
          sle-small cur_row bot (omega (arith, v.rows_max, v.row_in))
            (omega (arith, v.rows_max, v.region_in))
          ∙ below in
        rw test (Redraws-ext as_is (λ k c hk hc. ground arith))
  ]

  -- `DL` with `n` lines on a valid screen returns, with parameters below 2 ^ 62. From the cursor's
  -- row to the bottom of the scroll region each row takes the row `n` below it, and the last `n` of
  -- them are blank. Below the region it does nothing.
  pub delete_lines-Redraws :
      Redraws s
        (λ k c.
          if within cur_row (bot + 1) k
          then (if ltb bot (k + pos_or1 nums) then some blank else screen_at s (k + pos_or1 nums) c)
          else screen_at s k c)
        (delete_lines s nums)
  unfolding delete_lines
  delete_lines-Redraws = elim (Bool-cases (leb cur_row bot)) [
    | inl above ↦
        let le : cur_row ≤ bot = ground arith in
        let n : ℕ = min (pos_or1 nums) (bot + 1 - cur_row) in
        let d =
          delete_loop-Draws rows cols v.rows_max v.cols_max cur_row bot le v.region_in cells n
            v.size in
        let test : sle cur_row bot ≡ true =
          sle-small cur_row bot (omega (arith, v.rows_max, v.row_in))
            (omega (arith, v.rows_max, v.region_in))
          ∙ above in
        let run = ap (delete_loop cells cols cur_row bot) (shifts_word le) ∙ d.returns in
        record {
          out = d.out;
          returns = rw test (rw run);
          size = d.size;
          elems = λ k c hk hc. d.elems k c hk hc ∙ ground arith;
        }
    | inr below ↦
        let test : sle cur_row bot ≡ false =
          sle-small cur_row bot (omega (arith, v.rows_max, v.row_in))
            (omega (arith, v.rows_max, v.region_in))
          ∙ below in
        rw test (Redraws-ext as_is (λ k c hk hc. ground arith))
  ]
