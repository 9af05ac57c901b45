-- ===== src/Window/Atlas.antt =====
-- cmd/pitviper/main.go: `buildGlyphAtlas`, with internal/font's `KnownGlyphs`. Which of SDL's calls
-- succeed is an argument, and so is the order in which Go visits the keys of a map.
pub mod Slots
use pitviper.Base.{
  ℕ, zero, suc, ◌+◌, ◌*◌, ◌/◌, ◌%◌, ◌^◌, Bool, true, false, not, ◌==◌, if◌then◌else◌, Option, none,
  some, ◌>>=◌, List, [], ◌∷◌, ◌++◌, length, mul,
}
use pitviper.Slice.{load}
use pitviper.Font.{glyph_w, glyph_h, glyph_bits}
use pitviper.Window.Frame.{int32}

-- The runes `ch`, `ch + 1`, ..., `n` of them.
unfoldable pub runes_from : ℕ → ℕ → List ℕ
runes_from ch zero = []
runes_from ch (suc n) = ch ∷ runes_from (ch + 1) n

-- `KnownGlyphs`: the printable ASCII characters, and the keys of `extended` in some order.
unfoldable pub known_glyphs : List ℕ → List ℕ
known_glyphs extended = runes_from 0x20 95 ++ extended

-- What the atlas has: its width, the slots, the newest first, and the pixels that are set.
pub record GlyphAtlas : Type 0 where
  pub width : ℕ
  pub slots : List (ℕ × ℕ)
  pub pixels : List (ℕ × ℕ)

-- The two loops over the pixels of a bitmap, at the index `i`, `n` pixels from the end.
unfoldable pub atlas_pixels : List ℕ → ℕ → ℕ → ℕ → Option (List (ℕ × ℕ))
atlas_pixels bits slot i zero = some []
atlas_pixels bits slot i (suc n) = do
  bit ← load bits i
  rest ← atlas_pixels bits slot (i + 1) n
  some (if bit == 0 then rest else (int32 (slot + i % glyph_w), i / glyph_w) ∷ rest)

-- The loop over the glyphs, from the `i`-th on.
unfoldable pub add_glyphs : (ℕ → List ℕ) → List ℕ → ℕ → GlyphAtlas → Option GlyphAtlas
add_glyphs ascii [] i atlas = some atlas
add_glyphs ascii (ch ∷ chs) i atlas = do
  bits ← glyph_bits ascii ch
  pixels ← atlas_pixels bits (int32 (mul i glyph_w)) 0 (glyph_h * glyph_w)
  add_glyphs ascii chs (i + 1) (record atlas {
    slots = (ch, int32 (mul i glyph_w)) ∷ atlas.slots;
    pixels = atlas.pixels ++ pixels;
  })

-- Which calls succeed.
pub record AtlasCalls : Type 0 where
  pub texture_made : Bool
  pub blend_set : Bool
  pub target_set : Bool

-- `buildGlyphAtlas`: the atlas, none inside if an error leaves the texture nil.
unfoldable pub build_glyph_atlas : (ℕ → List ℕ) → List ℕ → AtlasCalls → Option (Option GlyphAtlas)
build_glyph_atlas ascii extended w =
    let glyphs : List ℕ = known_glyphs extended in
    if not w.texture_made
    then some none
    else if not w.blend_set
    then some none
    else if not w.target_set
    then some none
    else (do
      atlas ←
          add_glyphs ascii glyphs 0
            (record { width = int32 (mul (length glyphs) glyph_w); slots = []; pixels = [] })
      some (some atlas))

-- `glyphAtlasSlot[ch]`
abbrev pub slot_at : List (ℕ × ℕ) → ℕ → Option ℕ
slot_at [] ch = none
slot_at ((k, slot) ∷ slots) ch = if k == ch then some slot else slot_at slots ch
