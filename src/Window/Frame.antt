-- ===== src/Window/Frame.antt =====
-- cmd/pitviper/main.go: `renderFrame`, as the list of what it draws. The fonts are parameters:
-- which runes have a texture, and where the glyphs stand in the atlas.
pub mod Inside
pub mod Spans
use pitviper.Base.{
  ℕ, zero, suc, ◌+◌, ◌*◌, ◌%◌, ◌/◌, ◌^◌, Bool, true, false, ◌&&◌, ◌||◌, ◌==◌, if◌then◌else◌, Option,
  none, some, ◌>>=◌, List, [], ◌∷◌, ◌++◌, slt, sle, add, sub, mul, rounds,
}
use pitviper.Slice.{load}
use pitviper.Vterm.Cell.{Cell}
use pitviper.Vterm.View.{Snapshot}
use pitviper.Font.{glyph_w, glyph_h, glyph_bits, is_emoji}
use pitviper.Window.Colors.{SdlColor, default_bg, cell_colors, should_try_shiny_fallback}
use pitviper.Window.Selection.{Range, in_order, MouseSelection}

-- `sdl.Rect`
pub record Rect : Type 0 where
  pub x : ℕ
  pub y : ℕ
  pub w : ℕ
  pub h : ℕ

-- The calls of the renderer, with the colour that is set for them: the whole window, a rectangle,
-- an emoji, a glyph of the TTF font, the glyph at a place of the atlas, a pixel, and the
-- highlight.
pub data Draw : Type 0 where
  clear_window : SdlColor → Draw
  fill_rect : SdlColor → Rect → Draw
  copy_emoji : ℕ → Rect → Draw
  copy_shiny : ℕ → SdlColor → Rect → Draw
  copy_glyph : ℕ → SdlColor → Rect → Draw
  point : SdlColor → ℕ → ℕ → Draw
  highlight : Rect → Draw

-- Which runes have an emoji texture and a TTF texture; `useShinyFont`; whether the atlas was built,
-- and its slots; and the ASCII bitmaps.
pub record Fonts : Type 0 where
  pub has_emoji : ℕ → Bool
  pub has_shiny : ℕ → Bool
  pub use_shiny : Bool
  pub atlas_built : Bool
  pub slots : ℕ → Option ℕ
  pub ascii : ℕ → List ℕ

-- `int32(n)`, as its 32 bits
unfoldable pub int32 : ℕ → ℕ
int32 n = n % 2 ^ 32

-- The rectangle of a cell.
unfoldable pub cell_rect : ℕ → ℕ → Rect
cell_rect row col = record {
  x = int32 (mul col glyph_w);
  y = int32 (mul row glyph_h);
  w = glyph_w;
  h = glyph_h;
}

-- The two loops over the pixels of a bitmap, at the index `i = y*GlyphW+x`, `n` pixels from the
-- end.
unfoldable pub draw_points : List ℕ → SdlColor → Rect → ℕ → ℕ → Option (List Draw)
draw_points bits fg r i zero = some []
draw_points bits fg r i (suc n) = do
  bit ← load bits i
  rest ← draw_points bits fg r (i + 1) n
  some (
      if bit == 0
      then rest
      else Draw.point fg (int32 (r.x + i % glyph_w)) (int32 (r.y + i / glyph_w)) ∷ rest)

abbrev is_some : Option ℕ → Bool
is_some none = false
is_some (some n) = true

-- `glyphAtlasSlot['?']` for a rune that has no slot; a missing key reads as 0.
unfoldable pub slot_of : Fonts → ℕ → ℕ
slot_of f ch = elim (f.slots ch) [
  | some slot ↦ slot
  | none ↦ elim (f.slots b'?') [ some slot ↦ slot | none ↦ 0 ]
]

-- The glyph of a cell: an emoji, or else the TTF glyph, or else the atlas or its bitmap.
unfoldable pub draw_glyph : Fonts → ℕ → SdlColor → Rect → Option (List Draw)
draw_glyph f ch fg r =
    if is_emoji ch && f.has_emoji ch
    then some (Draw.copy_emoji ch r ∷ [])
    else if should_try_shiny_fallback f.use_shiny (is_some (f.slots ch)) && f.has_shiny ch
    then some (Draw.copy_shiny ch fg r ∷ [])
    else if f.atlas_built
    then some (Draw.copy_glyph (slot_of f ch) fg r ∷ [])
    else (do bits ← glyph_bits f.ascii ch; draw_points bits fg r 0 (glyph_h * glyph_w))

-- One cell: its background, and its glyph; a zero cell is a space.
unfoldable pub draw_cell : Fonts → Snapshot → ℕ → ℕ → Cell → Option (List Draw)
draw_cell f view row col cell = do
  let (fg, bg) = cell_colors cell (row == view.cur_row && col == view.cur_col)
  let r : Rect = cell_rect row col
  glyph ← draw_glyph f (if cell.ch == 0 then b' ' else cell.ch) fg r
  some (Draw.fill_rect bg r ∷ glyph)

-- The columns `col`, `col + 1`, ..., `n` of them.
unfoldable pub draw_cells : Fonts → Snapshot → ℕ → ℕ → ℕ → Option (List Draw)
draw_cells f view row col zero = some []
draw_cells f view row col (suc n) = do
  cell ← load view.cells (add (mul row view.cols) col)
  here ← draw_cell f view row col cell
  rest ← draw_cells f view row (add col 1) n
  some (here ++ rest)

-- The rows `row`, `row + 1`, ..., `n` of them.
unfoldable pub draw_rows : Fonts → Snapshot → ℕ → ℕ → Option (List Draw)
draw_rows f view row zero = some []
draw_rows f view row (suc n) = do
  here ← draw_cells f view row 0 (rounds 0 view.cols)
  rest ← draw_rows f view (add row 1) n
  some (here ++ rest)

-- The highlight in one row of a selection.
unfoldable pub highlight_row : ℕ → Range → ℕ → List Draw
highlight_row cols x row =
    let first : ℕ = if row == x.r1 then x.c1 else 0 in
    let last : ℕ = if row == x.r2 then x.c2 else sub cols 1 in
    let end : ℕ = if sle cols last then sub cols 1 else last in
    if slt end first
    then []
    else Draw.highlight (record {
      x = int32 (mul first glyph_w);
      y = int32 (mul row glyph_h);
      w = int32 (mul (add (sub end first) 1) glyph_w);
      h = glyph_h;
    })
      ∷ []

-- The rows `row`, `row + 1`, ..., `n` of them.
unfoldable pub highlight_rows : ℕ → Range → ℕ → ℕ → List Draw
highlight_rows cols x row zero = []
highlight_rows cols x row (suc n) = highlight_row cols x row ++ highlight_rows cols x (add row 1) n

-- The highlight of a range: up to its last row or the last row of the grid.
unfoldable pub highlight_range : ℕ → ℕ → Range → List Draw
highlight_range cols rows range =
    let x : Range = in_order range in
    let stop : ℕ = if sle rows x.r2 then rows else add x.r2 1 in
    highlight_rows cols x x.r1 (rounds x.r1 stop)

-- `renderFrame`, over the snapshot that it takes.
unfoldable pub render_frame : Fonts → Snapshot → MouseSelection → Option (List Draw)
render_frame f view m = do
  cells ← draw_rows f view 0 (rounds 0 view.rows)
  let range : Range = record { r1 = m.start_row; c1 = m.start_col; r2 = m.end_row; c2 = m.end_col }
  let over : List Draw =
      if m.active || m.have_selection then highlight_range view.cols view.rows range else []
  some (Draw.clear_window default_bg ∷ (cells ++ over))
