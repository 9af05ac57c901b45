-- ===== src/Vterm/Csi.antt =====
-- internal/vterm/vterm.go: `handleCSI`, the dispatch on the final byte.
pub mod Frame
pub mod Cursor
pub mod Bounds
pub mod Columns
pub mod Words
pub mod Erased
pub mod Drawn
pub mod Display
pub mod Shifts
pub mod Primary
pub mod Safe
pub mod Erase
pub mod Lines
pub mod Modes
use pitviper.Base.{ℕ, ◌==◌, ◌||◌, Option, some, List, if◌then◌else◌}
use pitviper.Vterm.Screen.{Screen}
use pitviper.Vterm.Params.{parse_nums, pos_or1}
use pitviper.Vterm.Scroll.{scroll_up, scroll_down}
use pitviper.Vterm.Sgr.{handle_sgr}
use Cursor.{
  cursor_up, cursor_down, cursor_right, cursor_left, next_line, previous_line, to_column, to_row,
  to_position, save_cursor, restore_cursor, set_region,
}
use Erase.{erase_chars, erase_display, erase_line, delete_chars, insert_chars}
use Lines.{insert_lines, delete_lines}
use Modes.{set_mode}

-- The cases that only move the cursor or change the state of later output.
unfoldable pub csi_state : Screen → ℕ → List ℕ → Option Screen
csi_state s final nums =
    if final == b'A'
    then some (cursor_up s nums)
    else if final == b'B'
    then some (cursor_down s nums)
    else if final == b'C'
    then some (cursor_right s nums)
    else if final == b'D'
    then some (cursor_left s nums)
    else if final == b'E'
    then some (next_line s nums)
    else if final == b'F'
    then some (previous_line s nums)
    else if final == b'G'
    then some (to_column s nums)
    else if final == b'd'
    then some (to_row s nums)
    else if final == b'H' || final == b'f'
    then some (to_position s nums)
    else if final == b'm'
    then some (handle_sgr s nums)
    else if final == b's'
    then some (save_cursor s)
    else if final == b'u'
    then some (restore_cursor s)
    else if final == b'r'
    then some (set_region s nums)
    else some s

-- The cases that change cells.
unfoldable pub csi_cells : Screen → ℕ → List ℕ → Option Screen
csi_cells s final nums =
    if final == b'X'
    then erase_chars s nums
    else if final == b'J'
    then erase_display s nums
    else if final == b'K'
    then erase_line s nums
    else if final == b'L'
    then insert_lines s nums
    else if final == b'M'
    then delete_lines s nums
    else if final == b'S'
    then scroll_up s (pos_or1 nums)
    else if final == b'T'
    then scroll_down s (pos_or1 nums)
    else if final == b'P'
    then delete_chars s nums
    else if final == b'@'
    then insert_chars s nums
    else csi_state s final nums

-- The cases are disjoint, so their order does not matter; an unknown final byte does nothing.
unfoldable pub handle_csi : Screen → ℕ → List ℕ → Option Screen
handle_csi s final params =
    if final == b'h' || final == b'l'
    then set_mode s final params
    else csi_cells s final (parse_nums params)
