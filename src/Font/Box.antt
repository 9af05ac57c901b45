-- ===== src/Font/Box.antt =====
-- The drawn box characters against the pixels that their arms mean.
use pitviper.Base.{
  ℕ, zero, suc, ◌+◌, ◌≡◌, refl, Bool, true, false, ◌&&◌, ◌||◌, ◌==◌, leb, if◌then◌else◌, some, List,
  [], ◌∷◌,
}
use pitviper.Slice.{store, fill}
use pitviper.Font.{BoxArms, draw_box_char, draw_column}

-- The pixel in row `y` and column `x`: each arm reaches from the centre to its edge.
abbrev box_pixel : BoxArms → ℕ → ℕ → Bool
box_pixel a y x =
    (x == 4 && ((a.up && leb y 6) || (a.down && leb 6 y)))
    || (y == 6 && ((a.left && leb x 4) || (a.right && leb 4 x)))

abbrev box_row : BoxArms → ℕ → ℕ → ℕ → List ℕ → List ℕ
box_row a y x zero rest = rest
box_row a y x (suc n) rest = (if box_pixel a y x then 1 else 0) ∷ box_row a y (x + 1) n rest

abbrev box_rows : BoxArms → ℕ → ℕ → List ℕ
box_rows a y zero = []
box_rows a y (suc n) = box_row a y 0 8 (box_rows a (y + 1) n)

-- The 13 rows of 8 pixels, each 1 where its pixel is on an arm and else 0.
abbrev box_bitmap : BoxArms → List ℕ
box_bitmap a = box_rows a 0 13

-- `drawBoxChar` returns, for every choice of arms, the bitmap of the pixels on them.
pub draw_box_char-box_bitmap : (a : BoxArms) → draw_box_char a ≡ some (box_bitmap a)
unfolding draw_box_char draw_column fill store
draw_box_char-box_bitmap a = go a.up a.down a.left a.right
  where
    go :
        (u d l r : Bool)
        → draw_box_char (record { up = u; down = d; left = l; right = r })
          ≡ some (box_bitmap (record { up = u; down = d; left = l; right = r }))
    go false false false false = refl
    go false false false true = refl
    go false false true false = refl
    go false false true true = refl
    go false true false false = refl
    go false true false true = refl
    go false true true false = refl
    go false true true true = refl
    go true false false false = refl
    go true false false true = refl
    go true false true false = refl
    go true false true true = refl
    go true true false false = refl
    go true true false true = refl
    go true true true false = refl
    go true true true true = refl
