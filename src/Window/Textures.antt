-- ===== src/Window/Textures.antt =====
-- cmd/pitviper/main.go: `emojiTexture` and `shinyTexture`, which keep a texture for each rune.
pub mod Memo
use pitviper.Base.{
  ℕ, Bool, true, false, ◌==◌, if◌then◌else◌, Option, none, some, ◌>>=◌, List, [], ◌∷◌,
}
use pitviper.Font.Surfaces.{TtfFont, Cache, lookup, emoji_surface, shiny_glyph_surface}

-- The textures of the window and the surfaces of the font.
pub record Glyphs (Surface Texture : Type 0) : Type 0 where
  pub textures : Cache Texture
  pub surfaces : Cache Surface

module _ {Surface Texture : Type 0} (font : TtfFont Surface)
    (create : Surface → Option Texture) where
  -- A texture that is not in the cache, from the surface; an error is kept as nil.
  unfoldable pub add_texture :
      Cache Texture → ℕ → Cache Surface × Option Surface → Glyphs Surface Texture × Option Texture
  add_texture textures ch (surfaces, surf) = (
    record { textures = (ch, (surf >>= create)) ∷ textures; surfaces = surfaces },
    (surf >>= create),
  )

  -- The texture that the cache has, or a new one from what the font gives.
  unfoldable pub found_texture :
      Glyphs Surface Texture
      → ℕ
      → Cache Surface × Option Surface
      → Option (Option Texture)
      → Glyphs Surface Texture × Option Texture
  found_texture g ch rendered (some tex) = (g, tex)
  found_texture g ch rendered none = add_texture g.textures ch rendered

  -- `emojiTexture`
  unfoldable pub emoji_texture :
      Glyphs Surface Texture → ℕ → Glyphs Surface Texture × Option Texture
  emoji_texture g ch = found_texture g ch (emoji_surface font g.surfaces ch) (lookup g.textures ch)

  -- `shinyTexture`
  unfoldable pub shiny_texture :
      Glyphs Surface Texture → ℕ → Glyphs Surface Texture × Option Texture
  shiny_texture g ch =
      found_texture g ch (shiny_glyph_surface font g.surfaces ch) (lookup g.textures ch)

  -- The textures of some runes, one after another.
  abbrev pub texture_all :
      (Glyphs Surface Texture → ℕ → Glyphs Surface Texture × Option Texture)
      → Glyphs Surface Texture
      → List ℕ
      → Glyphs Surface Texture × List (Option Texture)
  texture_all get g [] = (g, [])
  texture_all get g (ch ∷ chs) =
      let (h, tex) : Glyphs Surface Texture × Option Texture = get g ch in
      let (last, rest) : Glyphs Surface Texture × List (Option Texture) = texture_all get h chs in
      (last, tex ∷ rest)
