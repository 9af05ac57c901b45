-- ===== src/Window/Frame/Inside.antt =====
-- What `renderFrame` draws lies on the grid.
use pitviper.Base.{
  ℕ, zero, suc, ◌+◌, ◌-◌, ◌*◌, ◌%◌, ◌/◌, ◌^◌, ◌≤◌, ◌<◌, Bool, Bool-cases, ◌&&◌, ◌||◌, ◌==◌, leb,
  if◌then◌else◌, some, ◌>>=◌, List, [], ◌∷◌, ◌++◌, get_elem?-some, sle, add, mul, rounds,
  rounds-small, ◌≡◌, ◌∙◌, arith, inl, inr, All, All-append, Returns, Returns->>=,
}
use pitviper.Slice.{load}
use pitviper.Vterm.Cell.{Cell}
use pitviper.Vterm.View.{Snapshot}
use pitviper.Vterm.Scroll.Rows.{row_mono, area-le, mul-row}
use pitviper.Font.{glyph_w, glyph_h, glyph_bits}
use pitviper.Font.Sizes.{IsGlyph, glyph_bits-IsGlyph}
use pitviper.Window.Colors.{SdlColor, default_bg, cell_colors}
use pitviper.Window.Selection.{Range, in_order, MouseSelection}
use pitviper.Window.Selection.Inside.{IsView}
use pitviper.Window.Frame.{
  Rect, Draw, Fonts, int32, cell_rect, draw_points, draw_glyph, draw_cell, draw_cells, draw_rows,
  highlight_row, highlight_rows, highlight_range, render_frame,
}

-- A view whose pixels are far below 2 ^ 31.
pub record IsShown (view : Snapshot) : Type 0 where
  pub valid : IsView view
  pub narrow : view.cols ≤ 2 ^ 27
  pub low : view.rows ≤ 2 ^ 27

abbrev InRect : Snapshot → Rect → Type 0
InRect view r = (r.x + r.w ≤ view.cols * glyph_w) × (r.y + r.h ≤ view.rows * glyph_h)

-- On the pixels of the grid.
abbrev pub InGrid : Snapshot → Draw → Type 0
InGrid view (Draw.clear_window c) = Unit {0}
InGrid view (Draw.fill_rect c r) = InRect view r
InGrid view (Draw.copy_emoji ch r) = InRect view r
InGrid view (Draw.copy_shiny ch c r) = InRect view r
InGrid view (Draw.copy_glyph slot c r) = InRect view r
InGrid view (Draw.point c x y) = (x < view.cols * glyph_w) × (y < view.rows * glyph_h)
InGrid view (Draw.highlight r) = InRect view r

module _ (f : Fonts) (ascii : (i : ℕ) → IsGlyph (f.ascii i)) (view : Snapshot)
    (shown : IsShown view) where
  cell_rect_lem :
      (row col : ℕ)
      → row < view.rows
      → col < view.cols
      → cell_rect row col ≡ record { x = col * 8; y = row * 13; w = 8; h = 13 }
  unfolding cell_rect int32
  cell_rect_lem row col p q = ground (arith, shown.narrow, shown.low)

  draw_points-InGrid :
      (bits : List ℕ) (fg : SdlColor) (row col i n : ℕ)
      → row < view.rows
      → col < view.cols
      → IsGlyph bits
      → i + n ≤ glyph_h * glyph_w
      → Returns
          (All (InGrid view))
          (draw_points bits fg (record { x = col * 8; y = row * 13; w = 8; h = 13 }) i n)
  unfolding draw_points load int32
  draw_points-InGrid bits fg row col i zero p q size h = tt
  draw_points-InGrid bits fg row col i (suc n) p q size h =
      let (bit, e) = get_elem?-some bits i (omega (arith, size)) in
      let r : Rect = record { x = col * 8; y = row * 13; w = 8; h = 13 } in
      rw e (
        Returns->>= (All (InGrid view)) (All (InGrid view)) (draw_points bits fg r (i + 1) n)
          (λ rest. some (
            if bit == 0
            then rest
            else Draw.point fg (int32 (r.x + i % glyph_w)) (int32 (r.y + i / glyph_w)) ∷ rest))
          (draw_points-InGrid bits fg row col (i + 1) n p q size (omega arith))
          (λ rest k. ground (arith, k, shown.narrow, shown.low)))

  draw_glyph-InGrid :
      (ch : ℕ) (fg : SdlColor) (row col : ℕ)
      → row < view.rows
      → col < view.cols
      → Returns
          (All (InGrid view))
          (draw_glyph f ch fg (record { x = col * 8; y = row * 13; w = 8; h = 13 }))
  unfolding draw_glyph
  draw_glyph-InGrid ch fg row col p q =
      let r : Rect = record { x = col * 8; y = row * 13; w = 8; h = 13 } in
      let wide : col * 8 + 8 ≤ view.cols * 8 = omega arith in
      let high : row * 13 + 13 ≤ view.rows * 13 = omega arith in
      let pixels : Returns (All (InGrid view))
          (glyph_bits f.ascii ch >>= λ bits. draw_points bits fg r 0 (glyph_h * glyph_w)) =
        Returns->>= IsGlyph (All (InGrid view)) (glyph_bits f.ascii ch)
          (λ bits. draw_points bits fg r 0 (glyph_h * glyph_w))
          (glyph_bits-IsGlyph f.ascii ch ascii)
          (λ bits k.
            draw_points-InGrid bits fg row col 0 (glyph_h * glyph_w) p q k (omega arith)) in
      ground (arith, pixels)

  draw_cell-InGrid :
      (row col : ℕ) (cell : Cell)
      → row < view.rows
      → col < view.cols
      → Returns (All (InGrid view)) (draw_cell f view row col cell)
  unfolding draw_cell
  draw_cell-InGrid row col cell p q =
      let r : Rect = record { x = col * 8; y = row * 13; w = 8; h = 13 } in
      let under : Bool = row == view.cur_row && col == view.cur_col in
      let fg : SdlColor = (cell_colors cell under).0 in
      let ch : ℕ = if cell.ch == 0 then b' ' else cell.ch in
      rw (cell_rect_lem row col p q) (
        Returns->>= (All (InGrid view)) (All (InGrid view)) (draw_glyph f ch fg r)
          (λ glyph. some (Draw.fill_rect (cell_colors cell under).1 r ∷ glyph))
          (draw_glyph-InGrid ch fg row col p q) (λ glyph k. ((omega arith, omega arith), k)))

  draw_cells-InGrid :
      (row col n : ℕ)
      → row < view.rows
      → col + n ≤ view.cols
      → Returns (All (InGrid view)) (draw_cells f view row col n)
  unfolding draw_cells load
  draw_cells-InGrid row col zero p q = tt
  draw_cells-InGrid row col (suc n) p q =
      let w = shown.valid in
      let area = area-le view.rows view.cols w.rows_max w.cols_max in
      let end = row_mono view.cols row view.rows p in
      let start = mul-row view.rows view.cols w.rows_max w.cols_max row (omega arith) in
      let at : add (mul row view.cols) col ≡ row * view.cols + col = omega arith in
      let next : add col 1 ≡ col + 1 = omega (arith, w.cols_max) in
      let (cell, e) = get_elem?-some view.cells (row * view.cols + col) (omega (arith, w.size)) in
      rw next (
        rw at (
          rw e (
            Returns->>= (All (InGrid view)) (All (InGrid view)) (draw_cell f view row col cell)
              (λ here. draw_cells f view row (col + 1) n >>= λ rest. some (here ++ rest))
              (draw_cell-InGrid row col cell p (omega arith))
              (λ here k.
                Returns->>= (All (InGrid view)) (All (InGrid view))
                  (draw_cells f view row (col + 1) n) (λ rest. some (here ++ rest))
                  (draw_cells-InGrid row (col + 1) n p (omega arith))
                  (λ rest l. All-append (InGrid view) here rest k l)))))

  draw_rows-InGrid :
      (row n : ℕ) → row + n ≤ view.rows → Returns (All (InGrid view)) (draw_rows f view row n)
  unfolding draw_rows
  draw_rows-InGrid row zero p = tt
  draw_rows-InGrid row (suc n) p =
      let w = shown.valid in
      let next : add row 1 ≡ row + 1 = omega (arith, w.rows_max) in
      let times : rounds 0 view.cols ≡ view.cols =
        rounds-small 0 view.cols (omega arith) (omega (arith, w.cols_max)) ∙ omega arith in
      rw (next, times)
        (Returns->>= (All (InGrid view)) (All (InGrid view)) (draw_cells f view row 0 view.cols)
          (λ here. draw_rows f view (row + 1) n >>= λ rest. some (here ++ rest))
          (draw_cells-InGrid row 0 view.cols (omega arith) (omega arith))
          (λ here k.
            Returns->>= (All (InGrid view)) (All (InGrid view)) (draw_rows f view (row + 1) n)
              (λ rest. some (here ++ rest)) (draw_rows-InGrid (row + 1) n (omega arith))
              (λ rest l. All-append (InGrid view) here rest k l)))

  highlight_row-InGrid :
      (x : Range) (row : ℕ)
      → row < view.rows
      → x.c1 < 2 ^ 31
      → x.c2 < 2 ^ 31
      → All (InGrid view) (highlight_row view.cols x row)
  unfolding highlight_row int32
  highlight_row-InGrid x row p c1 c2 = ground (arith, shown.narrow, shown.low, shown.valid.cols_pos)

  highlight_rows-InGrid :
      (x : Range) (row n : ℕ)
      → row + n ≤ view.rows
      → x.c1 < 2 ^ 31
      → x.c2 < 2 ^ 31
      → All (InGrid view) (highlight_rows view.cols x row n)
  unfolding highlight_rows
  highlight_rows-InGrid x row zero p c1 c2 = tt
  highlight_rows-InGrid x row (suc n) p c1 c2 =
      let next : add row 1 ≡ row + 1 = omega (arith, shown.low) in
      rw next (
        All-append (InGrid view) (highlight_row view.cols x row)
          (highlight_rows view.cols x (row + 1) n) (highlight_row-InGrid x row (omega arith) c1 c2)
          (highlight_rows-InGrid x (row + 1) n (omega arith) c1 c2))

  highlight_range-InGrid :
      (range : Range)
      → range.r1 < 2 ^ 31
      → range.r2 < 2 ^ 31
      → range.c1 < 2 ^ 31
      → range.c2 < 2 ^ 31
      → All (InGrid view) (highlight_range view.cols view.rows range)
  unfolding highlight_range highlight_rows in_order
  highlight_range-InGrid range r1 r2 c1 c2 =
      let x : Range = in_order range in
      let stop : ℕ = if sle view.rows x.r2 then view.rows else add x.r2 1 in
      let top : x.r1 < 2 ^ 31 = ground arith in
      let bottom : x.r2 < 2 ^ 31 = ground arith in
      let left : x.c1 < 2 ^ 31 = ground arith in
      let right : x.c2 < 2 ^ 31 = ground arith in
      let end : stop ≤ view.rows = ground (arith, shown.low) in
      let times : rounds x.r1 stop ≡ stop - x.r1 =
        rounds-small x.r1 stop (omega arith) (omega (arith, shown.low)) in
      elim (Bool-cases (leb x.r1 stop)) [
        | inl e ↦
            let before : x.r1 ≤ stop = ground arith in
            rw times (highlight_rows-InGrid x x.r1 (stop - x.r1) (omega arith) left right)
        | inr e ↦ let none_left : rounds x.r1 stop ≡ 0 = ground arith in rw none_left tt
      ]

  -- `renderFrame` of a view of at most 2 ^ 27 rows and columns, with ASCII bitmaps of the right
  -- size and a selection below 2 ^ 31, returns, and every rectangle and pixel that it draws lies
  -- on the grid, whichever fonts are loaded and wherever the selection ends.
  pub render_frame-InGrid :
      (m : MouseSelection)
      → m.start_row < 2 ^ 31
      → m.start_col < 2 ^ 31
      → m.end_row < 2 ^ 31
      → m.end_col < 2 ^ 31
      → Returns (All (InGrid view)) (render_frame f view m)
  unfolding render_frame
  render_frame-InGrid m r1 c1 r2 c2 =
      let range : Range = record {
        r1 = m.start_row;
        c1 = m.start_col;
        r2 = m.end_row;
        c2 = m.end_col;
      } in
      let over : List Draw =
        if m.active || m.have_selection then highlight_range view.cols view.rows range else [] in
      let inside : All (InGrid view) over =
        ground (arith, highlight_range-InGrid range r1 r2 c1 c2) in
      let times : rounds 0 view.rows ≡ view.rows =
        rounds-small 0 view.rows (omega arith) (omega (arith, shown.low)) ∙ omega arith in
      rw times (
        Returns->>= (All (InGrid view)) (All (InGrid view)) (draw_rows f view 0 view.rows)
          (λ cells. some (Draw.clear_window default_bg ∷ (cells ++ over)))
          (draw_rows-InGrid 0 view.rows (omega arith))
          (λ cells k. (tt, All-append (InGrid view) cells over k inside)))
