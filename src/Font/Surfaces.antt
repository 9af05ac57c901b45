-- ===== src/Font/Surfaces.antt =====
-- internal/font/emoji.go and internal/font/shiny.go: the fonts of SDL2_ttf and the caches of the
-- surfaces that they render. SDL's calls are parameters.
use pitviper.Base.{ℕ, Bool, false, ◌==◌, not, if◌then◌else◌, Option, none, some, List, [], ◌∷◌}

-- A font: whether it is loaded, and what `RenderUTF8Blended` gives for a rune, a surface or an
-- error.
pub record TtfFont (Surface : Type 0) : Type 0 where
  pub loaded : Bool
  pub render : ℕ → Option Surface

-- A Go map from runes to pointers, which may be nil; the newest entry first.
abbrev pub Cache : Type 0 → Type 0
Cache A = List (ℕ × Option A)

-- `pointer, ok := cache[ch]`
abbrev pub lookup : {A : Type 0} → Cache A → ℕ → Option (Option A)
lookup [] ch = none
lookup ((k, v) ∷ c) ch = if k == ch then some v else lookup c ch

-- `InitEmoji`: whether the font is loaded, from what `ttf.Init` and `ttf.OpenFont` answer.
unfoldable pub init_emoji : Bool → Bool → Bool
init_emoji inits opens = if not inits then false else opens

-- `InitShinyFont`: `ttf.Init` is called only if `ttf.WasInit` says no.
unfoldable pub init_shiny_font : Bool → Bool → Bool → Bool
init_shiny_font was_init inits opens =
    if not was_init then (if not inits then false else opens) else opens

module _ {Surface : Type 0} (font : TtfFont Surface) where
  -- A surface that is not in the cache; an error is kept as nil.
  unfoldable pub add_surface : Cache Surface → ℕ → Cache Surface × Option Surface
  add_surface cache ch = ((ch, font.render ch) ∷ cache, font.render ch)

  -- `EmojiSurface`
  unfoldable pub emoji_surface : Cache Surface → ℕ → Cache Surface × Option Surface
  emoji_surface cache ch =
      if not font.loaded
      then (cache, none)
      else elim (lookup cache ch) [ some surf ↦ (cache, surf) | none ↦ add_surface cache ch ]

  -- `ShinyGlyphSurface`
  unfoldable pub shiny_glyph_surface : Cache Surface → ℕ → Cache Surface × Option Surface
  shiny_glyph_surface cache ch =
      if not font.loaded
      then (cache, none)
      else elim (lookup cache ch) [ some surf ↦ (cache, surf) | none ↦ add_surface cache ch ]
