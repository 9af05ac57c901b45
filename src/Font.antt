-- ===== src/Font.antt =====
-- internal/font: the bitmaps of the box-drawing and Braille characters (font.go), and which runes
-- are emoji (emoji.go). The ASCII bitmaps come from golang.org/x/image/font and are a parameter.
pub mod Box
pub mod Sizes
pub mod Surfaces
use pitviper.Base.{
  ℕ, zero, suc, ◌+◌, ◌-◌, ◌*◌, ◌/◌, ◌%◌, ◌^◌, Bool, true, false, ◌&&◌, ◌||◌, ◌==◌, leb,
  if◌then◌else◌, Option, none, some, ◌>>=◌, List, [], replicate,
}
use pitviper.Slice.{store, fill}

-- `GlyphW`, `GlyphH` and the centre of a glyph
abbrev pub glyph_w : ℕ
glyph_w = 8

abbrev pub glyph_h : ℕ
glyph_h = 13

abbrev pub box_center_col : ℕ
box_center_col = glyph_w / 2

abbrev pub box_center_row : ℕ
box_center_row = glyph_h / 2

pub record BoxArms : Type 0 where
  pub up : Bool
  pub down : Bool
  pub left : Bool
  pub right : Bool

abbrev arms : Bool → Bool → Bool → Bool → Option BoxArms
arms u d l r = some (record { up = u; down = d; left = l; right = r })

-- `boxDrawingChars`
unfoldable pub box_drawing_chars : ℕ → Option BoxArms
box_drawing_chars ch =
    if ch == 0x2500
    then arms false false true true
    else if ch == 0x2502
    then arms true true false false
    else if ch == 0x250C
    then arms false true false true
    else if ch == 0x2510
    then arms false true true false
    else if ch == 0x2514
    then arms true false false true
    else if ch == 0x2518
    then arms true false true false
    else if ch == 0x251C
    then arms true true false true
    else if ch == 0x2524
    then arms true true true false
    else if ch == 0x252C
    then arms false true true true
    else if ch == 0x2534
    then arms true false true true
    else if ch == 0x253C
    then arms true true true true
    else none

-- A loop over rows `y`, `y + 1`, ..., `n` of them, that sets the pixel in the centre column.
unfoldable pub draw_column : List ℕ → ℕ → ℕ → Option (List ℕ)
draw_column bits y zero = some bits
draw_column bits y (suc n) =
    store bits (y * glyph_w + box_center_col) 1 >>= λ next. draw_column next (y + 1) n

unfoldable pub draw_box_char : BoxArms → Option (List ℕ)
draw_box_char a = do
  let empty : List ℕ = replicate (glyph_h * glyph_w) 0
  up ← (if a.up then draw_column empty 0 (box_center_row + 1) else some empty)
  down ← (if a.down then draw_column up box_center_row (glyph_h - box_center_row) else some up)
  left ← (if a.left then fill down (box_center_row * glyph_w) (box_center_col + 1) 1 else some down)
  (if a.right
      then fill left (box_center_row * glyph_w + box_center_col) (glyph_w - box_center_col) 1
      else some left)

-- `brailleDotPositions`: the column and the row of dot `bit + 1`.
unfoldable pub braille_dot_positions : ℕ → ℕ × ℕ
braille_dot_positions bit =
    if bit == 6 then (0, 3) else if bit == 7 then (1, 3) else (bit / 3, bit % 3)

-- The loops over a dot of 2 by 2 pixels; every dot lies inside the glyph.
unfoldable pub draw_dot : List ℕ → ℕ → Option (List ℕ)
draw_dot bits bit = do
  let (col, row) = braille_dot_positions bit
  let x : ℕ = if col == 1 then 5 else 2
  let y : ℕ = 1 + row * ((glyph_h - 2) / 4)
  top ← fill bits (y * glyph_w + x) 2 1
  fill top ((y + 1) * glyph_w + x) 2 1

-- The loop over the bits `bit`, `bit + 1`, ..., `n` of them.
unfoldable pub draw_dots : List ℕ → ℕ → ℕ → ℕ → Option (List ℕ)
draw_dots bits dots bit zero = some bits
draw_dots bits dots bit (suc n) =
    (if (dots / 2 ^ bit) % 2 == 0 then some bits else draw_dot bits bit) >>= λ next.
    draw_dots next dots (bit + 1) n

unfoldable pub draw_braille_char : ℕ → Option (List ℕ)
draw_braille_char dots = draw_dots (replicate (glyph_h * glyph_w) 0) dots 0 8

-- `GlyphBits`; `atlas` gives the bitmap of the rune `0x20 + i` at `i`.
unfoldable pub glyph_bits : (ℕ → List ℕ) → ℕ → Option (List ℕ)
glyph_bits atlas ch =
    if leb 0x20 ch && leb ch 0x7e then some (atlas (ch - 0x20)) else elim (box_drawing_chars ch) [
      | some a ↦ draw_box_char a
      | none ↦
          if leb 0x2800 ch && leb ch 0x28FF
          then draw_braille_char (ch - 0x2800)
          else some (atlas (b'?' - 0x20))
    ]

-- `IsEmoji`
unfoldable pub is_emoji : ℕ → Bool
is_emoji ch =
    (leb 0x1F300 ch && leb ch 0x1FAFF)
    || (leb 0x2600 ch && leb ch 0x27BF)
    || (leb 0x1F1E6 ch && leb ch 0x1F1FF)
