-- ===== src/Window/Colors.antt =====
-- cmd/pitviper/main.go: `sdlColor`, from the colours of a cell to red, green and blue.
pub mod Cube
use pitviper.Base.{
  ℕ, ◌+◌, ◌-◌, ◌*◌, ◌/◌, ◌%◌, Bool, true, false, ◌&&◌, ◌||◌, not, ltb, ◌==◌, if◌then◌else◌, Option,
  some, List, [], ◌∷◌, get_or,
}
use pitviper.Vterm.Cell.{Cell, color_default}

-- `sdl.Color`
pub record SdlColor : Type 0 where
  pub r : ℕ
  pub g : ℕ
  pub b : ℕ
  pub a : ℕ

abbrev pub rgb : ℕ → ℕ → ℕ → SdlColor
rgb r g b = record { r = r; g = g; b = b; a = 0xff }

-- `baseColors`
unfoldable pub base_colors : List SdlColor
base_colors =
    rgb 0x00 0x00 0x00
    ∷ rgb 0xcc 0x00 0x00
    ∷ rgb 0x4e 0x9a 0x06
    ∷ rgb 0xc4 0xa0 0x00
    ∷ rgb 0x34 0x65 0xa4
    ∷ rgb 0x75 0x50 0x7b
    ∷ rgb 0x06 0x98 0x9a
    ∷ rgb 0xd3 0xd7 0xcf
    ∷ rgb 0x55 0x57 0x53
    ∷ rgb 0xef 0x29 0x29
    ∷ rgb 0x8a 0xe2 0x34
    ∷ rgb 0xfc 0xe9 0x4f
    ∷ rgb 0x72 0x9f 0xcf
    ∷ rgb 0xad 0x7f 0xa8
    ∷ rgb 0x34 0xe2 0xe2
    ∷ rgb 0xee 0xee 0xec
    ∷ []

abbrev pub default_fg : SdlColor
default_fg = rgb 0xdd 0xdd 0xdd

abbrev pub default_bg : SdlColor
default_bg = rgb 0x00 0x00 0x00

-- `baseColors[i]`, at an index below 16
abbrev pub base_color : ℕ → SdlColor
base_color i = get_or base_colors i default_bg

-- `toV`, a `uint8`
unfoldable pub cube_level : ℕ → ℕ
cube_level i = if i == 0 then 0 else (55 + i * 40) % 256

-- `sdlColor`; a colour is a `uint16`.
unfoldable pub sdl_color : ℕ → Bool → Bool → SdlColor
sdl_color c is_bold is_background =
    let n : ℕ = c - 16 in
    let v : ℕ = (8 + (c - 232) * 10) % 256 in
    if c == color_default
    then (if is_background then default_bg else if is_bold then base_color 15 else default_fg)
    else if ltb c 16
    then (if is_bold && not is_background && ltb c 8 then base_color (c + 8) else base_color c)
    else if ltb c 232
    then rgb (cube_level (n / 36)) (cube_level ((n / 6) % 6)) (cube_level (n % 6))
    else rgb v v v

-- The foreground and background of a cell in `renderFrame`, swapped under the cursor.
unfoldable pub cell_colors : Cell → Bool → SdlColor × SdlColor
cell_colors cell under_cursor =
    let fg : SdlColor = sdl_color cell.fg cell.bold false in
    let bg : SdlColor = sdl_color cell.bg cell.bold true in
    if under_cursor then (bg, fg) else (fg, bg)

-- `shouldTryShinyFallback`
unfoldable pub should_try_shiny_fallback : Bool → Bool → Bool
should_try_shiny_fallback use_shiny in_atlas = use_shiny || not in_atlas
