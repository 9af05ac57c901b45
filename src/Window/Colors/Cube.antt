-- ===== src/Window/Colors/Cube.antt =====
-- The colours from 16 on against the 6 by 6 by 6 cube and the 24 greys.
use pitviper.Base.{ℕ, ◌+◌, ◌-◌, ◌*◌, ◌/◌, ◌%◌, ◌<◌, ◌≡◌, arith, Bool, ◌==◌, if◌then◌else◌}
use pitviper.Window.Colors.{rgb, sdl_color, cube_level}

-- The brightness of step `i` of the cube: 0, 95, 135, 175, 215, 255.
abbrev pub step : ℕ → ℕ
step i = if i == 0 then 0 else 55 + i * 40

cube_level-step : (i : ℕ) → i < 6 → cube_level i ≡ step i
unfolding cube_level
cube_level-step i h = ground arith

-- Colour 16 + 36 r + 6 g + b, with r, g and b below 6, has the steps r, g and b of red, green and
-- blue, bold or not, in front or behind.
sdl_color-cube :
    (r g b : ℕ) (is_bold is_background : Bool)
    → r < 6
    → g < 6
    → b < 6
    → sdl_color (16 + 36 * r + 6 * g + b) is_bold is_background ≡ rgb (step r) (step g) (step b)
unfolding sdl_color
sdl_color-cube r g b is_bold is_background hr hg hb =
    let c : ℕ = 16 + 36 * r + 6 * g + b in
    let red : (c - 16) / 36 ≡ r = omega arith in
    let green : ((c - 16) / 6) % 6 ≡ g = omega arith in
    let blue : (c - 16) % 6 ≡ b = omega arith in
    ground
      (arith, red, green, blue, cube_level-step r hr, cube_level-step g hg, cube_level-step b hb)

-- The colours 232 to 255 are greys, from 8 in steps of 10.
sdl_color-grey :
    (i : ℕ) (is_bold is_background : Bool)
    → i < 24
    → sdl_color (232 + i) is_bold is_background ≡ rgb (8 + 10 * i) (8 + 10 * i) (8 + 10 * i)
unfolding sdl_color
sdl_color-grey i is_bold is_background h = ground arith
