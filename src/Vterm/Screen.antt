-- ===== src/Vterm/Screen.antt =====
-- internal/vterm/vterm.go: the `Screen` struct, `New`, `clear` and the plain getters.
-- The mutex has no counterpart: every exported method holds it from start to end, so a use of a
-- screen is a sequence of whole method calls. An `int` is a word (Base/Word).
use pitviper.Base.{
  ℕ, Bool, false, Option, none, some, ◌>>=◌, List, [], ◌∷◌, replicate, slt, sub, mul, rounds,
  if◌then◌else◌,
}
use pitviper.Slice.{fill}
use pitviper.Scrollback.{Scrollback, new_scrollback, max_scrollback}
use pitviper.Vterm.Cell.{Cell, zero_cell, blank_in, color_default}

pub record Screen : Type 0 where
  pub cols : ℕ
  pub rows : ℕ
  pub cells : List Cell
  pub cur_row : ℕ
  pub cur_col : ℕ
  pub saved_row : ℕ
  pub saved_col : ℕ
  pub fg : ℕ
  pub bg : ℕ
  pub bold : Bool
  pub scroll_reg_top : ℕ
  pub scroll_reg_bot : ℕ
  pub esc : List ℕ
  pub utf8_buf : List ℕ
  pub utf8_len : ℕ
  pub sb : Scrollback Cell
  pub scroll_top : ℕ
  pub title : List ℕ
  pub cursor_hidden : Bool
  pub alt_active : Bool
  pub alt_cells : List Cell
  pub alt_cur_row : ℕ
  pub alt_cur_col : ℕ
  pub alt_saved_row : ℕ
  pub alt_saved_col : ℕ
  pub alt_fg : ℕ
  pub alt_bg : ℕ
  pub alt_bold : Bool
  pub alt_scroll_reg_top : ℕ
  pub alt_scroll_reg_bot : ℕ

-- `make([]Cell, n)`
unfoldable pub make_cells : ℕ → Cell → Option (List Cell)
make_cells n c = if slt n 0 then none else some (replicate n c)

-- The loop of `clear(start, end, n)`, over the cells: `end` is cut to `n`.
unfoldable pub clear : Screen → ℕ → ℕ → ℕ → Option Screen
clear s start end n = do
  let stop : ℕ = if slt n end then n else end
  cells ← fill s.cells start (rounds start stop) (blank_in s.fg s.bg)
  some (record s { cells = cells })

-- The struct that `New` fills in, before it calls `clear`.
unfoldable pub zero_screen : ℕ → ℕ → Scrollback Cell → List Cell → Screen
zero_screen cols rows sb cells = record {
  cols = cols;
  rows = rows;
  cells = cells;
  cur_row = 0;
  cur_col = 0;
  saved_row = 0;
  saved_col = 0;
  fg = color_default;
  bg = color_default;
  bold = false;
  scroll_reg_top = 0;
  scroll_reg_bot = sub rows 1;
  esc = [];
  utf8_buf = 0 ∷ 0 ∷ 0 ∷ 0 ∷ [];
  utf8_len = 0;
  sb = sb;
  scroll_top = 0;
  title = [];
  cursor_hidden = false;
  alt_active = false;
  alt_cells = [];
  alt_cur_row = 0;
  alt_cur_col = 0;
  alt_saved_row = 0;
  alt_saved_col = 0;
  alt_fg = 0;
  alt_bg = 0;
  alt_bold = false;
  alt_scroll_reg_top = 0;
  alt_scroll_reg_bot = 0;
}

-- `New`; the last line of the Go function passes `0, 0, cols*rows` to `clear`.
unfoldable pub new_screen : ℕ → ℕ → Option Screen
new_screen cols rows = do
  cells ← make_cells (mul cols rows) zero_cell
  clear (zero_screen cols rows (new_scrollback max_scrollback) cells) 0 0 (mul cols rows)
