-- ===== src/Window/Textures/Memo.antt =====
-- The caches against rendering each time.
use pitviper.Base.{
  ℕ, Bool-cases, ◌==◌, if◌then◌else◌, Option, Option-cases, none, some, ◌>>=◌, List, [], ◌∷◌, map,
  ◌≡◌, refl, ap, ap₂, arith, inl, inr,
}
use pitviper.Font.Surfaces.{TtfFont, Cache, lookup, add_surface, emoji_surface, shiny_glyph_surface}
use pitviper.Window.Textures.{
  Glyphs, add_texture, found_texture, emoji_texture, shiny_texture, texture_all,
}

-- Every entry is what `spec` gives for its rune, and no rune has two entries.
abbrev Agrees : {A : Type 0} → (ℕ → Option A) → Cache A → Type 0
Agrees spec [] = Unit {0}
Agrees spec ((k, v) ∷ c) = (v ≡ spec k) × (lookup c k ≡ none) × Agrees spec c

lookup-Agrees :
    {A : Type 0} (spec : ℕ → Option A) (c : Cache A) (ch : ℕ) (v : Option A)
    → Agrees spec c
    → lookup c ch ≡ some v
    → v ≡ spec ch
lookup-Agrees spec [] ch v h e = absurd (cc e)
lookup-Agrees spec ((k, w) ∷ c) ch v h e = elim (Bool-cases (k == ch)) [
  | inl p ↦ ground (arith, h.0, e, p, ap spec)
  | inr p ↦ lookup-Agrees spec c ch v h.2 (ground (arith, e, p))
]

module _ {Surface Texture : Type 0} (font : TtfFont Surface)
    (create : Surface → Option Texture) where
  -- The surface and the texture of a rune, without a cache.
  abbrev surface_of : ℕ → Option Surface
  surface_of ch = if font.loaded then font.render ch else none

  abbrev pub texture_of : ℕ → Option Texture
  texture_of ch = surface_of ch >>= create

  -- Both caches agree with that.
  abbrev pub AgreesAll : Glyphs Surface Texture → Type 0
  AgreesAll g = Agrees texture_of g.textures × Agrees font.render g.surfaces

  abbrev IsSurface : ℕ → Cache Surface × Option Surface → Type 0
  IsSurface ch r = (r.1 ≡ surface_of ch) × Agrees font.render r.0

  emoji_surface_lem :
      (c : Cache Surface) (ch : ℕ) → Agrees font.render c → IsSurface ch (emoji_surface font c ch)
  unfolding emoji_surface add_surface
  emoji_surface_lem c ch h = elim (Bool-cases font.loaded) [
    | inl p ↦ elim (Option-cases (lookup c ch)) [
      | inl e ↦ rw p (rw e (refl, (refl, e, h)))
      | inr (v, e) ↦ rw p (rw e (lookup-Agrees font.render c ch v h e, h))
    ]
    | inr p ↦ rw p (refl, h)
  ]

  shiny_glyph_surface_lem :
      (c : Cache Surface) (ch : ℕ)
      → Agrees font.render c
      → IsSurface ch (shiny_glyph_surface font c ch)
  unfolding shiny_glyph_surface add_surface
  shiny_glyph_surface_lem c ch h = elim (Bool-cases font.loaded) [
    | inl p ↦ elim (Option-cases (lookup c ch)) [
      | inl e ↦ rw p (rw e (refl, (refl, e, h)))
      | inr (v, e) ↦ rw p (rw e (lookup-Agrees font.render c ch v h e, h))
    ]
    | inr p ↦ rw p (refl, h)
  ]

  -- A texture on the way from a surface.
  abbrev IsTexture : ℕ → Glyphs Surface Texture × Option Texture → Type 0
  IsTexture ch r = (r.1 ≡ texture_of ch) × AgreesAll r.0

  add_texture_lem :
      (textures : Cache Texture) (ch : ℕ) (r : Cache Surface × Option Surface)
      → Agrees texture_of textures
      → lookup textures ch ≡ none
      → IsSurface ch r
      → IsTexture ch (add_texture font create textures ch r)
  unfolding add_texture
  add_texture_lem textures ch (surfaces, surf) h e (k, l) =
      let same : (surf >>= create) ≡ texture_of ch = ap (λ (s : Option Surface). s >>= create) k in
      (same, ((same, e, h), l))

  found_texture_lem :
      (g : Glyphs Surface Texture) (ch : ℕ) (r : Cache Surface × Option Surface)
      (o : Option (Option Texture))
      → AgreesAll g
      → lookup g.textures ch ≡ o
      → IsSurface ch r
      → IsTexture ch (found_texture font create g ch r o)
  unfolding found_texture
  found_texture_lem g ch r none h e k = add_texture_lem g.textures ch r h.0 e k
  found_texture_lem g ch r (some v) h e k = (lookup-Agrees texture_of g.textures ch v h.0 e, h)

  emoji_texture_lem :
      (g : Glyphs Surface Texture) (ch : ℕ)
      → AgreesAll g
      → IsTexture ch (emoji_texture font create g ch)
  unfolding emoji_texture
  emoji_texture_lem g ch h =
      found_texture_lem g ch (emoji_surface font g.surfaces ch) (lookup g.textures ch) h refl
        (emoji_surface_lem g.surfaces ch h.1)

  shiny_texture_lem :
      (g : Glyphs Surface Texture) (ch : ℕ)
      → AgreesAll g
      → IsTexture ch (shiny_texture font create g ch)
  unfolding shiny_texture
  shiny_texture_lem g ch h =
      found_texture_lem g ch (shiny_glyph_surface font g.surfaces ch) (lookup g.textures ch) h refl
        (shiny_glyph_surface_lem g.surfaces ch h.1)

  texture_all_lem :
      (get : Glyphs Surface Texture → ℕ → Glyphs Surface Texture × Option Texture)
      → ((g : Glyphs Surface Texture) (ch : ℕ) → AgreesAll g → IsTexture ch (get g ch))
      → (g : Glyphs Surface Texture) (chs : List ℕ) → AgreesAll g
      → ((texture_all font create get g chs).1 ≡ map texture_of chs)
        × AgreesAll (texture_all font create get g chs).0
  texture_all_lem get right g [] h = (refl, h)
  texture_all_lem get right g (ch ∷ chs) h =
      let here = right g ch h in
      let rest = texture_all_lem get right (get g ch).0 chs here.1 in
      (ap₂ (λ x xs. x ∷ xs) here.0 rest.0, rest.1)

  -- No caches yet.
  abbrev pub no_glyphs : Glyphs Surface Texture
  no_glyphs = record { textures = []; surfaces = [] }

  -- For any runes, in any order and with any repetitions, the two caches of emoji, and those of the
  -- TTF font, give the textures that rendering each rune anew gives, where the calls of SDL always
  -- answer a rune alike; and each cache then has at most one entry for a rune, which is that.
  pub textures-memo :
      (chs : List ℕ)
      → ((texture_all font create (emoji_texture font create) no_glyphs chs).1 ≡ map texture_of chs)
        × AgreesAll (texture_all font create (emoji_texture font create) no_glyphs chs).0
        × ((texture_all font create (shiny_texture font create) no_glyphs chs).1
            ≡ map texture_of chs)
        × AgreesAll (texture_all font create (shiny_texture font create) no_glyphs chs).0
  textures-memo chs =
      let emoji =
        texture_all_lem (emoji_texture font create) emoji_texture_lem no_glyphs chs (tt, tt) in
      let shiny =
        texture_all_lem (shiny_texture font create) shiny_texture_lem no_glyphs chs (tt, tt) in
      (emoji.0, emoji.1, shiny.0, shiny.1)
