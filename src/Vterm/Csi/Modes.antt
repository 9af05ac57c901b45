-- ===== src/Vterm/Csi/Modes.antt =====
-- internal/vterm/vterm.go, `handleCSI`: DEC private modes, the hidden cursor and the alternate
-- screen.
use pitviper.Base.{
  ℕ, true, false, not, ◌&&◌, ◌==◌, Option, some, ◌>>=◌, List, [], length, sub, if◌then◌else◌,
  bytes_eq, codes,
}
use pitviper.Slice.{copy_into}
use pitviper.Vterm.Cell.{Cell, color_default, zero_cell}
use pitviper.Vterm.Screen.{Screen, clear, make_cells}

-- The assignments of `h` with `?1049`, once the cells are copied.
unfoldable pub save_primary : Screen → List Cell → Screen
save_primary s saved = record s {
  alt_cells = saved;
  alt_cur_row = s.cur_row;
  alt_cur_col = s.cur_col;
  alt_saved_row = s.saved_row;
  alt_saved_col = s.saved_col;
  alt_fg = s.fg;
  alt_bg = s.bg;
  alt_bold = s.bold;
  alt_scroll_reg_top = s.scroll_reg_top;
  alt_scroll_reg_bot = s.scroll_reg_bot;
  alt_active = true;
  cur_row = 0;
  cur_col = 0;
  saved_row = 0;
  saved_col = 0;
  fg = color_default;
  bg = color_default;
  bold = false;
  scroll_reg_top = 0;
  scroll_reg_bot = sub s.rows 1;
}

-- `h` with `?1049`: the primary screen and its state are saved.
unfoldable pub enter_alt : Screen → Option Screen
enter_alt s = do
  fresh ← make_cells (length s.cells) zero_cell
  saved ← copy_into fresh 0 (length fresh) s.cells
  clear (save_primary s saved) 0 (length s.cells) (length s.cells)

-- The assignments of `l` with `?1049`.
unfoldable pub restore_primary : Screen → List Cell → Screen
restore_primary s cells = record s {
  cells = cells;
  cur_row = s.alt_cur_row;
  cur_col = s.alt_cur_col;
  saved_row = s.alt_saved_row;
  saved_col = s.alt_saved_col;
  fg = s.alt_fg;
  bg = s.alt_bg;
  bold = s.alt_bold;
  scroll_reg_top = s.alt_scroll_reg_top;
  scroll_reg_bot = s.alt_scroll_reg_bot;
  alt_active = false;
  alt_cells = [];
}

-- `l` with `?1049`: they come back.
unfoldable pub leave_alt : Screen → Option Screen
leave_alt s = do
  cells ← copy_into s.cells 0 (length s.cells) s.alt_cells
  some (restore_primary s cells)

-- `h` and `l`
unfoldable pub set_mode : Screen → ℕ → List ℕ → Option Screen
set_mode s final params =
    if bytes_eq params (codes "?25")
    then some (record s { cursor_hidden = final == b'l' })
    else if bytes_eq params (codes "?1049")
    then (if final == b'h' && not s.alt_active
        then enter_alt s
        else if final == b'l' && s.alt_active
        then leave_alt s
        else some s)
    else some s
