-- ===== src/Examples/Painting.antt =====
-- The theorems on what is drawn, at concrete inputs.
use pitviper.Base.{
  ℕ, ◌+◌, ◌-◌, ◌*◌, Bool, true, false, not, ◌&&◌, ◌==◌, if◌then◌else◌, ◌≡◌, refl, arith, Option,
  none, some, List, [], ◌∷◌, map, length, replicate, length-replicate, All, Returns,
}
use pitviper.Font.{glyph_w, glyph_h}
use pitviper.Font.Sizes.{IsGlyph}
use pitviper.Font.Surfaces.{TtfFont}
use pitviper.Window.Selection.{MouseSelection, selected_text, in_order}
use pitviper.Window.Frame.{Fonts, render_frame, highlight_range}
use pitviper.Window.Frame.Inside.{IsShown, InGrid, render_frame-InGrid}
use pitviper.Window.Frame.Spans.{spans_text, spans_drawn, selection_spans}
use pitviper.Window.Textures.{emoji_texture, shiny_texture, texture_all}
use pitviper.Window.Textures.Memo.{AgreesAll, texture_of, no_glyphs, textures-memo}
use pitviper.Window.Atlas.{runes_from, known_glyphs, build_glyph_atlas}
use pitviper.Window.Atlas.Slots.{
  Lacks, AllDistinct, WithAtlas, all_calls, build_glyph_atlas-IsAtlas,
}
use pitviper.Examples.Frames.{tiny_view, tiny_view-IsView, upwards, upwards-IsNear}

abbrev full_glyph : ℕ → List ℕ
full_glyph i = replicate (glyph_h * glyph_w) 1

full_glyph-IsGlyph : (i : ℕ) → IsGlyph (full_glyph i)
full_glyph-IsGlyph i = let one : ℕ = 1 in length-replicate (glyph_h * glyph_w) one

tiny_view-IsShown : IsShown tiny_view
tiny_view-IsShown = record { valid = tiny_view-IsView; narrow = omega arith; low = omega arith }

-- No textures and no atlas.
abbrev bitmaps : Fonts
bitmaps = record {
  has_emoji = λ ch. false;
  has_shiny = λ ch. false;
  use_shiny = false;
  atlas_built = false;
  slots = λ ch. none;
  ascii = full_glyph;
}

-- A finished selection, drawn upwards.
abbrev finished : MouseSelection
finished = record {
  active = false;
  start_row = 1;
  start_col = 3;
  end_row = 0;
  end_col = 1;
  have_selection = true;
}

render_frame-InGrid_example :
    Returns (All (InGrid tiny_view)) (render_frame bitmaps tiny_view finished)
render_frame-InGrid_example =
    render_frame-InGrid bitmaps full_glyph-IsGlyph tiny_view tiny_view-IsShown finished
      (omega arith) (omega arith) (omega arith) (omega arith)

selection_spans_example :
    (selected_text tiny_view upwards
      ≡ spans_text tiny_view
          (in_order upwards)
          (in_order upwards).r1
          ((in_order upwards).r2 + 1 - (in_order upwards).r1))
    × (highlight_range 3 2 upwards
        ≡ spans_drawn 3
            (in_order upwards)
            (in_order upwards).r1
            ((in_order upwards).r2 + 1 - (in_order upwards).r1))
selection_spans_example = selection_spans tiny_view upwards tiny_view-IsShown upwards-IsNear

-- A font that has no glyph for 0; a surface is its rune, and becomes a texture if it is below 5.
abbrev font : TtfFont ℕ
font = record { loaded = true; render = λ ch. if ch == 0 then none else some ch }

abbrev create : ℕ → Option ℕ
create surf = if surf == 5 then none else some (surf + 100)

abbrev runes : List ℕ
runes = 7 ∷ 0 ∷ 7 ∷ 5 ∷ 0 ∷ []

textures-memo_example :
    ((texture_all font create (emoji_texture font create) (no_glyphs font create) runes).1
      ≡ map (texture_of font create) runes)
    × AgreesAll font create
        (texture_all font create (emoji_texture font create) (no_glyphs font create) runes).0
    × ((texture_all font create (shiny_texture font create) (no_glyphs font create) runes).1
        ≡ map (texture_of font create) runes)
    × AgreesAll font create
        (texture_all font create (shiny_texture font create) (no_glyphs font create) runes).0
textures-memo_example = textures-memo font create runes

-- The test of `AllDistinct`.
abbrev lacks : ℕ → List ℕ → Bool
lacks ch [] = true
lacks ch (c ∷ cs) = not (c == ch) && lacks ch cs

abbrev is_distinct : List ℕ → Bool
is_distinct [] = true
is_distinct (ch ∷ chs) = lacks ch chs && is_distinct chs

lacks_lem : (ch : ℕ) (chs : List ℕ) → lacks ch chs ≡ true → Lacks ch chs
lacks_lem ch [] e = tt
lacks_lem ch (c ∷ cs) e = (ground (arith, e), lacks_lem ch cs (ground (arith, e)))

is_distinct_lem : (chs : List ℕ) → is_distinct chs ≡ true → AllDistinct chs
is_distinct_lem [] e = tt
is_distinct_lem (ch ∷ chs) e =
    (lacks_lem ch chs (ground (arith, e)), is_distinct_lem chs (ground (arith, e)))

-- Two box-drawing characters.
abbrev lines : List ℕ
lines = 0x2502 ∷ 0x2500 ∷ []

lines-AllDistinct : AllDistinct (known_glyphs lines)
unfolding known_glyphs runes_from
lines-AllDistinct = is_distinct_lem (known_glyphs lines) refl

length-known : length (known_glyphs lines) ≡ 97
unfolding known_glyphs runes_from
length-known = refl

build_glyph_atlas-IsAtlas_example :
    Returns (WithAtlas (known_glyphs lines)) (build_glyph_atlas full_glyph lines all_calls)
build_glyph_atlas-IsAtlas_example =
    build_glyph_atlas-IsAtlas full_glyph lines full_glyph-IsGlyph lines-AllDistinct
      (omega (arith, length-known))
