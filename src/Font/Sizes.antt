-- ===== src/Font/Sizes.antt =====
-- Every bitmap has one pixel for each place of a glyph.
use pitviper.Base.{
  ℕ, zero, suc, ◌+◌, ◌-◌, ◌*◌, ◌/◌, ◌%◌, ◌^◌, ◌≤◌, ◌<◌, Bool-cases, ◌&&◌, ◌==◌, leb, if◌then◌else◌,
  Option, none, some, List, replicate, length, length-replicate, ◌≡◌, refl, arith, Returns,
  Returns->>=, Returns-some, inl, inr,
}
use pitviper.Slice.{fill}
use pitviper.Slice.Laws.{fill-Yields}
use pitviper.Font.{
  glyph_w, glyph_h, BoxArms, box_drawing_chars, draw_box_char, braille_dot_positions, draw_dot,
  draw_dots, draw_braille_char, glyph_bits,
}
use pitviper.Font.Box.{draw_box_char-box_bitmap}

-- A bitmap of the right size.
abbrev pub IsGlyph : List ℕ → Type 0
IsGlyph bits = length bits ≡ glyph_h * glyph_w

fill-IsGlyph :
    (bits : List ℕ) (i n : ℕ)
    → IsGlyph bits
    → i + n ≤ glyph_h * glyph_w
    → Returns IsGlyph (fill bits i n 1)
fill-IsGlyph bits i n h p =
    let d = fill-Yields bits i n 1 (omega (arith, h)) in
    Returns-some IsGlyph d.out d.returns (omega (arith, d.size, h))

dot_row-le : (bit : ℕ) → bit < 8 → (braille_dot_positions bit).1 ≤ 3
unfolding braille_dot_positions
dot_row-le bit h = ground arith

draw_dot-IsGlyph :
    (bits : List ℕ) (bit : ℕ) → bit < 8 → IsGlyph bits → Returns IsGlyph (draw_dot bits bit)
unfolding draw_dot
draw_dot-IsGlyph bits bit h k =
    let x : ℕ = if (braille_dot_positions bit).0 == 1 then 5 else 2 in
    let y : ℕ = 1 + (braille_dot_positions bit).1 * 2 in
    let narrow : x ≤ 5 = ground arith in
    let low : y ≤ 7 = omega (arith, dot_row-le bit h) in
    Returns->>= IsGlyph IsGlyph (fill bits (y * glyph_w + x) 2 1)
      (λ top. fill top ((y + 1) * glyph_w + x) 2 1)
      (fill-IsGlyph bits (y * glyph_w + x) 2 k (omega arith))
      (λ top l. fill-IsGlyph top ((y + 1) * glyph_w + x) 2 l (omega arith))

draw_dots-IsGlyph :
    (bits : List ℕ) (dots bit n : ℕ)
    → bit + n ≤ 8
    → IsGlyph bits
    → Returns IsGlyph (draw_dots bits dots bit n)
unfolding draw_dots
draw_dots-IsGlyph bits dots bit zero h k = k
draw_dots-IsGlyph bits dots bit (suc n) h k =
    Returns->>= IsGlyph IsGlyph (if (dots / 2 ^ bit) % 2 == 0 then some bits else draw_dot bits bit)
      (λ next. draw_dots next dots (bit + 1) n) (ground (arith, draw_dot-IsGlyph bits bit, k))
      (λ next l. draw_dots-IsGlyph next dots (bit + 1) n (omega arith) l)

-- For bitmaps of ASCII of the right size, `GlyphBits` of any rune returns a bitmap of 13 rows of 8
-- pixels, drawn or not, without a panic.
pub glyph_bits-IsGlyph :
    (ascii : ℕ → List ℕ) (ch : ℕ)
    → ((i : ℕ) → IsGlyph (ascii i))
    → Returns IsGlyph (glyph_bits ascii ch)
unfolding glyph_bits draw_braille_char
glyph_bits-IsGlyph ascii ch h = elim (Bool-cases (leb 0x20 ch && leb ch 0x7e)) [
  | inl e ↦ rw e (h (ch - 0x20))
  | inr e ↦ rw e (extended (box_drawing_chars ch))
]
  where
    blank-IsGlyph : IsGlyph (replicate (glyph_h * glyph_w) 0)
    blank-IsGlyph = let z : ℕ = 0 in length-replicate (glyph_h * glyph_w) z

    extended :
        (o : Option BoxArms)
        → Returns IsGlyph (elim o [
          | some a ↦ draw_box_char a
          | none ↦
              if leb 0x2800 ch && leb ch 0x28FF
              then draw_dots (replicate (glyph_h * glyph_w) 0) (ch - 0x2800) 0 8
              else some (ascii (b'?' - 0x20))
        ])
    extended (some a) = rw (draw_box_char-box_bitmap a) refl
    extended none = elim (Bool-cases (leb 0x2800 ch && leb ch 0x28FF)) [
      | inl e ↦ rw e (
          draw_dots-IsGlyph (replicate (glyph_h * glyph_w) 0) (ch - 0x2800) 0 8 (omega arith)
            blank-IsGlyph)
      | inr e ↦ rw e (h (b'?' - 0x20))
    ]
