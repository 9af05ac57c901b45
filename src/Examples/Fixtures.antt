-- ===== src/Examples/Fixtures.antt =====
-- A screen of two rows of three columns with a scrollback of two lines, and that it is valid.
use pitviper.Base.{ℕ, refl, arith, false, [], ◌∷◌}
use pitviper.Scrollback.{Scrollback}
use pitviper.Scrollback.Valid as Ring
use pitviper.Vterm.Cell.{Cell, color_default}
use pitviper.Vterm.Screen.{Screen}
use pitviper.Vterm.Valid.{Grid, IsValid}

abbrev pub letter : ℕ → Cell
letter c = record { ch = c; fg = color_default; bg = color_default; bold = false }

-- A ring of capacity 2 with one line.
abbrev pub ring : Scrollback Cell
ring = record { lines = (letter b'p' ∷ []) ∷ [] ∷ []; head = 0; count = 1 }

-- The rows `abc` and `def`; the cursor is on `e`, in red.
abbrev pub tiny : Screen
tiny = record {
  cols = 3;
  rows = 2;
  cells = letter b'a' ∷ letter b'b' ∷ letter b'c' ∷ letter b'd' ∷ letter b'e' ∷ letter b'f' ∷ [];
  cur_row = 1;
  cur_col = 1;
  saved_row = 0;
  saved_col = 2;
  fg = 1;
  bg = color_default;
  bold = false;
  scroll_reg_top = 0;
  scroll_reg_bot = 1;
  esc = [];
  utf8_buf = 0 ∷ 0 ∷ 0 ∷ 0 ∷ [];
  utf8_len = 0;
  sb = ring;
  scroll_top = 0;
  title = [];
  cursor_hidden = false;
  alt_active = false;
  alt_cells = [];
  alt_cur_row = 0;
  alt_cur_col = 0;
  alt_saved_row = 0;
  alt_saved_col = 0;
  alt_fg = 0;
  alt_bg = 0;
  alt_bold = false;
  alt_scroll_reg_top = 0;
  alt_scroll_reg_bot = 0;
}

-- The cursor behind the last column of the last row: the next character wraps.
abbrev pub full_line : Screen
full_line = record tiny { cur_col = 3 }

pub ring-IsValid : Ring.IsValid ring
ring-IsValid = record { small = omega arith; head_in = omega arith; count_in = omega arith }

tiny-Grid : Grid tiny
tiny-Grid = record {
  rows_pos = omega arith;
  rows_max = omega arith;
  cols_pos = omega arith;
  cols_max = omega arith;
  size = refl;
  region = omega arith;
  region_in = omega arith;
  sb_valid = ring-IsValid;
}

pub tiny-IsValid : IsValid tiny
tiny-IsValid = record {
  grid = tiny-Grid;
  row_in = omega arith;
  col_in = omega arith;
  saved_row_in = omega arith;
  saved_col_in = omega arith;
  utf8_size = refl;
  utf8_in = omega arith;
  view_in = omega arith;
  alt_size = λ e. ground arith;
  alt_row_in = omega arith;
  alt_col_in = omega arith;
  alt_saved_row_in = omega arith;
  alt_saved_col_in = omega arith;
  alt_region = omega arith;
  alt_region_in = omega arith;
}

pub full_line-IsValid : IsValid full_line
full_line-IsValid = ground (arith, tiny-IsValid)
