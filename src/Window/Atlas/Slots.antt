-- ===== src/Window/Atlas/Slots.antt =====
-- The slots of the atlas: every glyph has one of its own.
use pitviper.Base.{
  ℕ, zero, suc, ◌+◌, ◌*◌, ◌/◌, ◌%◌, ◌^◌, ◌≤◌, ◌<◌, true, false, ◌==◌, ==_refl, if◌then◌else◌,
  Option, none, some, ◌>>=◌, List, [], ◌∷◌, ◌++◌, length, mul, get_elem?, get_elem?-some, ◌≡◌, refl,
  sym, ap, ◌∙◌, arith, All, All-append, Returns, Returns->>=, Returns-map,
}
use mathlib.Core.Path.{subst}
use pitviper.Slice.{load}
use pitviper.Font.{glyph_w, glyph_h, glyph_bits}
use pitviper.Font.Sizes.{IsGlyph, glyph_bits-IsGlyph}
use pitviper.Window.Frame.{int32}
use pitviper.Window.Atlas.{
  known_glyphs, GlyphAtlas, atlas_pixels, add_glyphs, AtlasCalls, build_glyph_atlas, slot_at,
}

-- The rune is none of these.
abbrev pub Lacks : ℕ → List ℕ → Type 0
Lacks ch chs = All (λ c. (c == ch) ≡ false) chs

-- No rune stands twice.
abbrev pub AllDistinct : List ℕ → Type 0
AllDistinct [] = Unit {0}
AllDistinct (ch ∷ chs) = Lacks ch chs × AllDistinct chs

-- The pixels are those of the places from `left` up to `right`, below the height of a glyph.
abbrev InSlots : ℕ → List (ℕ × ℕ) → Type 0
InSlots width = All (λ p. (p.0 < width) × (p.1 < glyph_h))

atlas_pixels-InSlots :
    (bits : List ℕ) (width slot i n : ℕ)
    → IsGlyph bits
    → i + n ≤ glyph_h * glyph_w
    → slot + glyph_w ≤ width
    → width < 2 ^ 31
    → Returns (InSlots width) (atlas_pixels bits slot i n)
unfolding atlas_pixels load int32
atlas_pixels-InSlots bits width slot i zero size h fits small = tt
atlas_pixels-InSlots bits width slot i (suc n) size h fits small =
    let (bit, e) = get_elem?-some bits i (omega (arith, size)) in
    rw e (
      Returns->>= (InSlots width) (InSlots width) (atlas_pixels bits slot (i + 1) n)
        (λ rest. some (if bit == 0 then rest else (int32 (slot + i % glyph_w), i / glyph_w) ∷ rest))
        (atlas_pixels-InSlots bits width slot (i + 1) n size (omega arith) fits small)
        (λ rest k. ground (arith, k)))

-- The atlas after the glyphs from the `i`-th on: each has the slot of its index, another rune has
-- the slot that it had, and the pixels lie inside.
pub record Places (chs : List ℕ) (i : ℕ) (before after : GlyphAtlas) : Type 0 where
  pub width : after.width ≡ before.width
  pub placed :
      (j ch : ℕ) → get_elem? chs j ≡ some ch → slot_at after.slots ch ≡ some ((i + j) * glyph_w)
  pub others : (ch : ℕ) → Lacks ch chs → slot_at after.slots ch ≡ slot_at before.slots ch
  pub inside : InSlots before.width before.pixels → InSlots before.width after.pixels

slot_word :
    (i width : ℕ)
    → i * glyph_w + glyph_w ≤ width
    → width < 2 ^ 31
    → int32 (mul i glyph_w) ≡ i * glyph_w
unfolding int32
slot_word i width h k = omega arith

-- The atlas with one more glyph.
abbrev with_glyph : ℕ → ℕ → List (ℕ × ℕ) → GlyphAtlas → GlyphAtlas
with_glyph ch i pixels atlas = record atlas {
  slots = (ch, i * glyph_w) ∷ atlas.slots;
  pixels = atlas.pixels ++ pixels;
}

one_more :
    (ch : ℕ) (chs : List ℕ) (i : ℕ) (pixels : List (ℕ × ℕ)) (atlas after : GlyphAtlas)
    → Lacks ch chs
    → InSlots atlas.width pixels
    → Places chs (i + 1) (with_glyph ch i pixels atlas) after
    → Places (ch ∷ chs) i atlas after
one_more ch chs i pixels atlas after lacks new rest = record {
  width = rest.width;
  placed = placed;
  others = λ c h. rest.others c h.1 ∙ rw h.0 refl;
  inside = λ h.
      rest.inside
        (All-append (λ p. (p.0 < atlas.width) × (p.1 < glyph_h)) atlas.pixels pixels h new);
}
  where
    placed :
        (j c : ℕ)
        → get_elem? (ch ∷ chs) j ≡ some c
        → slot_at after.slots c ≡ some ((i + j) * glyph_w)
    placed zero c e =
        let same : ch ≡ c = cc e in
        rw (sym same) (rest.others ch lacks ∙ rw (==_refl ch) (ap some (omega arith)))
    placed (suc j) c e = rest.placed j c e ∙ ap some (omega arith)

module _ (ascii : ℕ → List ℕ) (sizes : (i : ℕ) → IsGlyph (ascii i)) where
  add_glyphs-Places :
      (chs : List ℕ) (i : ℕ) (atlas : GlyphAtlas)
      → AllDistinct chs
      → (i + length chs) * glyph_w ≤ atlas.width
      → atlas.width < 2 ^ 31
      → Returns (Places chs i atlas) (add_glyphs ascii chs i atlas)
  unfolding add_glyphs
  add_glyphs-Places [] i atlas d fits small = record {
    width = refl;
    placed = λ j ch e. absurd (cc e);
    others = λ ch h. refl;
    inside = λ h. h;
  }
  add_glyphs-Places (ch ∷ chs) i atlas d fits small =
      rw (slot_word i atlas.width (omega arith) small) (
        Returns->>= IsGlyph (Places (ch ∷ chs) i atlas) (glyph_bits ascii ch)
          (λ bits. atlas_pixels bits (i * glyph_w) 0 (glyph_h * glyph_w) >>= λ pixels.
            add_glyphs ascii chs (i + 1) (with_glyph ch i pixels atlas))
          (glyph_bits-IsGlyph ascii ch sizes)
          (λ bits size.
            Returns->>= (InSlots atlas.width) (Places (ch ∷ chs) i atlas)
              (atlas_pixels bits (i * glyph_w) 0 (glyph_h * glyph_w))
              (λ pixels. add_glyphs ascii chs (i + 1) (with_glyph ch i pixels atlas))
              (atlas_pixels-InSlots bits atlas.width (i * glyph_w) 0 (glyph_h * glyph_w) size
                (omega arith) (omega arith) small)
              (λ pixels inside.
                Returns-map (Places chs (i + 1) (with_glyph ch i pixels atlas))
                  (Places (ch ∷ chs) i atlas)
                  (add_glyphs ascii chs (i + 1) (with_glyph ch i pixels atlas))
                  (add_glyphs-Places chs (i + 1) (with_glyph ch i pixels atlas) d.1 (omega arith)
                    small)
                  (λ after k. one_more ch chs i pixels atlas after d.0 inside k))))

-- The atlas of the glyphs: wide enough for all of them, each in the slot of its index, with no
-- pixel outside.
pub record IsAtlas (glyphs : List ℕ) (atlas : GlyphAtlas) : Type 0 where
  pub width : atlas.width ≡ length glyphs * glyph_w
  pub placed :
      (j ch : ℕ) → get_elem? glyphs j ≡ some ch → slot_at atlas.slots ch ≡ some (j * glyph_w)
  pub inside : InSlots atlas.width atlas.pixels

abbrev pub WithAtlas : List ℕ → Option GlyphAtlas → Type 0
WithAtlas glyphs none = ⊥
WithAtlas glyphs (some atlas) = IsAtlas glyphs atlas

-- Calls that all succeed.
abbrev pub all_calls : AtlasCalls
all_calls = record { texture_made = true; blend_set = true; target_set = true }

-- With calls that succeed, ASCII bitmaps of the right size and at most 2 ^ 20 known glyphs, of
-- which none stands twice, the extended ones in any order: `buildGlyphAtlas` makes an atlas with
-- the width of all glyphs, in which each has the slot of its index, and nothing is drawn outside.
pub build_glyph_atlas-IsAtlas :
    (ascii : ℕ → List ℕ) (extended : List ℕ)
    → ((i : ℕ) → IsGlyph (ascii i))
    → AllDistinct (known_glyphs extended)
    → length (known_glyphs extended) ≤ 2 ^ 20
    → Returns (WithAtlas (known_glyphs extended)) (build_glyph_atlas ascii extended all_calls)
unfolding build_glyph_atlas int32
build_glyph_atlas-IsAtlas ascii extended sizes distinct few =
    let glyphs : List ℕ = known_glyphs extended in
    let width : int32 (mul (length glyphs) glyph_w) ≡ length glyphs * glyph_w = omega arith in
    let empty : GlyphAtlas = record { width = length glyphs * glyph_w; slots = []; pixels = [] } in
    rw width (
      Returns->>= (Places glyphs 0 empty) (WithAtlas glyphs) (add_glyphs ascii glyphs 0 empty)
        (λ atlas. some (some atlas))
        (add_glyphs-Places ascii sizes glyphs 0 empty distinct (omega arith) (omega arith))
        (λ atlas k. record {
          width = k.width;
          placed = λ j ch e. k.placed j ch e ∙ ap some (omega arith);
          inside = subst (λ w. InSlots w atlas.pixels) (sym k.width) (k.inside tt);
        }))
