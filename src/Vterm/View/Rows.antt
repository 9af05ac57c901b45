-- ===== src/Vterm/View/Rows.antt =====
-- One row of a view that is scrolled back: a saved line, or a row of the live screen.
use pitviper.Base.{
  ℕ, ◌+◌, ◌-◌, ◌*◌, ◌≤◌, ◌<◌, ◌^◌, ◌≡◌, refl, ◌∙◌, ap, arith, true, false, Bool-cases, inl, inr,
  ltb, ◌==◌, ◌&&◌, if◌then◌else◌, Option, none, some, List, length, take, drop, get_elem?,
  get_elem?-take, get_elem?-drop, length-take, length-drop, min, ◌>>=◌, add, sub, mul, slt, sle,
  rounds, ltb→lt, ltb→ge, ltb→lt, rounds-small,
}
use pitviper.Slice.{fill, slice, copy_into}
use pitviper.Slice.Laws.{fill-Yields, slice-Yields, copy_into_cut-Yields}
use pitviper.Scrollback.{line, len}
use pitviper.Scrollback.Valid.{line-Returns}
use pitviper.Vterm.Cell.{Cell, blank}
use pitviper.Vterm.Screen.{Screen}
use pitviper.Vterm.Valid.{IsValid, screen_at}
use pitviper.Vterm.Scroll.Rows.{cell_at, Draws, row_mono, area-le, mul-row, mul-next_row}
use pitviper.Vterm.View.{compose_row}

-- Column `c` of a saved line, blank behind its end.
abbrev pub padded : Option (List Cell) → ℕ → Option Cell
padded none c = none
padded (some l) c = if ltb c (length l) then get_elem? l c else some blank

-- What the view shows in row `k` and column `c`.
abbrev pub view_cell : Screen → ℕ → ℕ → Option Cell
view_cell s k c =
    if ltb k s.scroll_top
    then padded (line s.sb (s.sb.count - s.scroll_top + k)) c
    else screen_at s (k - s.scroll_top) c

row_column : (cols k c r : ℕ) → k ≡ r → k * cols + c - r * cols ≡ c
row_column cols k c r e = let p : k * cols ≡ r * cols = ap (λ i. i * cols) e in omega arith

row_elem :
    (src : List Cell) (cols k c r : ℕ)
    → k ≡ r
    → get_elem? src (k * cols + c - r * cols) ≡ get_elem? src c
row_elem src cols k c r e = ap (get_elem? src) (row_column cols k c r e)

module _ (s : Screen) (v : IsValid s) (back : 1 ≤ s.scroll_top) where
  open s use {rows, cols, cells, scroll_top}

  -- A line over a row of the view.
  saved-Draws :
      (out : List Cell) (row : ℕ) (src : List Cell)
      → length out ≡ rows * cols
      → row < rows
      → Draws rows cols
          (λ k c. if k == row then padded (some src) c else cell_at cols out k c)
          (copy_into out (row * cols) (row * cols + cols) src >>= λ copied.
            fill copied (row * cols + min cols (length src)) (cols - min cols (length src)) blank)
  saved-Draws out row src size h =
      let end = row_mono cols row rows h in
      let d =
        copy_into_cut-Yields out (row * cols) (row * cols + cols) src (omega arith)
          (omega (arith, size)) in
      let m : ℕ = min cols (length src) in
      let f = fill-Yields d.out (row * cols + m) (cols - m) blank (omega (arith, d.size, size)) in
      record {
        out = f.out;
        returns =
            ap
              (λ (o : Option (List Cell)).
                o >>= λ copied. fill copied (row * cols + m) (cols - m) blank)
              d.returns
            ∙ f.returns;
        size = f.size ∙ d.size ∙ size;
        elems = λ k c hk hc. ground (
          arith,
          f.elems (k * cols + c),
          d.elems (k * cols + c),
          row_mono cols k row,
          row_mono cols row k,
          row_elem src cols k c row,
        );
      }

  -- A row of the live screen over a row of the view.
  live-Draws :
      (out : List Cell) (row live : ℕ)
      → length out ≡ rows * cols
      → row < rows
      → live < rows
      → Draws rows cols
          (λ k c. if k == row then screen_at s live c else cell_at cols out k c)
          (slice cells (live * cols) (live * cols + cols) >>= λ src.
            copy_into out (row * cols) (row * cols + cols) src)
  live-Draws out row live size h hl =
      let end = row_mono cols row rows h in
      let last = row_mono cols live rows hl in
      let src : List Cell = take (live * cols + cols - live * cols) (drop (live * cols) cells) in
      let long : length src ≡ cols = omega (
        arith,
        length-take (live * cols + cols - live * cols) (drop (live * cols) cells),
        length-drop (live * cols) cells,
        v.size,
      ) in
      let d =
        copy_into_cut-Yields out (row * cols) (row * cols + cols) src (omega arith)
          (omega (arith, size)) in
      record {
        out = d.out;
        returns =
            ap
              (λ (o : Option (List Cell)).
                o >>= λ src. copy_into out (row * cols) (row * cols + cols) src)
              (slice-Yields cells (live * cols) (live * cols + cols) (omega arith)
                (omega (arith, last, v.size)))
            ∙ d.returns;
        size = d.size ∙ size;
        elems = λ k c hk hc. ground (
          arith,
          d.elems (k * cols + c),
          long,
          row_mono cols k row,
          row_mono cols row k,
          row_elem src cols k c row,
          get_elem?-take (live * cols + cols - live * cols) (drop (live * cols) cells) c,
          get_elem?-drop (live * cols) cells c,
        );
      }

  -- The words that the code computes.
  start_word : (row : ℕ) → row < rows → mul row cols ≡ row * cols
  start_word row h = mul-row rows cols v.rows_max v.cols_max row (omega arith)

  index_word :
      (row : ℕ) → row < rows → add (sub s.sb.count scroll_top) row ≡ s.sb.count - scroll_top + row
  index_word row h = omega (arith, v.view_in, v.sb_valid, v.rows_max)

  in_row : (row : ℕ) → row < rows → row * cols + cols ≤ 2 ^ 60
  in_row row h = omega (arith, area-le rows cols v.rows_max v.cols_max, row_mono cols row rows h)

  rest_word :
      (row m : ℕ) → row < rows → m ≤ cols → rounds (row * cols + m) (row * cols + cols) ≡ cols - m
  rest_word row m h k =
      let area = in_row row h in
      rounds-small (row * cols + m) (row * cols + cols) (omega arith) (omega arith) ∙ omega arith

  saved_code :
      (out : List Cell) (row : ℕ) (src : List Cell)
      → row < rows
      → row < scroll_top
      → line s.sb (s.sb.count - scroll_top + row) ≡ some src
      → compose_row s out row ≡ (
          copy_into out (row * cols) (row * cols + cols) src >>= λ copied.
          fill copied (row * cols + min cols (length src)) (cols - min cols (length src)) blank)
  unfolding compose_row len
  saved_code out row src h above e =
      let i : ℕ = s.sb.count - scroll_top + row in
      let area = in_row row h in
      let m : ℕ = min cols (length src) in
      let inside : (sle 0 i && slt i s.sb.count) ≡ true = ground (arith, v.view_in, v.sb_valid) in
      let stop : add (row * cols) cols ≡ row * cols + cols = omega arith in
      let from : add (row * cols) m ≡ row * cols + m = omega arith in
      rw (index_word row h, start_word row h)
        (rw (inside, stop) (rw e (rw from (rw (rest_word row m h (omega arith)) refl))))

  live_code :
      (out : List Cell) (row : ℕ)
      → row < rows
      → scroll_top ≤ row
      → compose_row s out row ≡ (
          slice cells ((row - scroll_top) * cols) ((row - scroll_top) * cols + cols) >>= λ src.
          copy_into out (row * cols) (row * cols + cols) src)
  unfolding compose_row len
  live_code out row h below =
      let i : ℕ = s.sb.count - scroll_top + row in
      let live : ℕ = row - scroll_top in
      let area = in_row row h in
      let small = v.rows_max in
      let outside : (sle 0 i && slt i s.sb.count) ≡ false = ground (arith, v.view_in, v.sb_valid) in
      let past : sle s.sb.count i ≡ true = ground (arith, v.view_in, v.sb_valid) in
      let at : sub i s.sb.count ≡ live = omega (arith, v.view_in, v.sb_valid) in
      let on : slt live rows ≡ true = ground arith in
      let stop : add (row * cols) cols ≡ row * cols + cols = omega arith in
      rw (index_word row h, start_word row h)
        (rw (outside, past)
          (rw (at, on)
            (rw
              (
                start_word live (omega arith),
                mul-next_row rows cols v.rows_max v.cols_max live (omega arith),
              )
              (rw stop refl))))

  pub compose_row-Draws :
      (out : List Cell) (row : ℕ)
      → length out ≡ rows * cols
      → row < rows
      → Draws rows cols
          (λ k c. if k == row then view_cell s row c else cell_at cols out k c)
          (compose_row s out row)
  compose_row-Draws out row size h = elim (Bool-cases (ltb row scroll_top)) [
    | inl above ↦
        let before = ltb→lt row scroll_top above in
        let (src, e) =
          line-Returns (s.sb.count - scroll_top + row) v.sb_valid (omega (arith, v.view_in)) in
        let d = saved-Draws out row src size h in
        record {
          out = d.out;
          returns = saved_code out row src h before e ∙ d.returns;
          size = d.size;
          elems = λ k c hk hc. ground (arith, d.elems k c hk hc, e);
        }
    | inr below ↦
        let after = ltb→ge row scroll_top below in
        let d = live-Draws out row (row - scroll_top) size h (omega arith) in
        record {
          out = d.out;
          returns = live_code out row h after ∙ d.returns;
          size = d.size;
          elems = λ k c hk hc. ground (arith, d.elems k c hk hc);
        }
  ]
