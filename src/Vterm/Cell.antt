-- ===== src/Vterm/Cell.antt =====
-- internal/vterm/vterm.go: `Color` and `Cell`. A colour is a `uint16`, a `rune` a number.
use pitviper.Base.{ℕ, Bool, false}

-- `ColorDefault`
abbrev pub color_default : ℕ
color_default = 256

pub record Cell : Type 0 where
  pub ch : ℕ
  pub fg : ℕ
  pub bg : ℕ
  pub bold : Bool

-- The zero value of the struct, with which `make` fills a slice.
abbrev pub zero_cell : Cell
zero_cell = record { ch = 0; fg = 0; bg = 0; bold = false }

-- `Cell{Ch: ' ', FG: fg, BG: bg}`
abbrev pub blank_in : ℕ → ℕ → Cell
blank_in fg bg = record { ch = b' '; fg = fg; bg = bg; bold = false }

-- `Cell{Ch: ' ', FG: ColorDefault, BG: ColorDefault}`
abbrev pub blank : Cell
blank = blank_in color_default color_default
