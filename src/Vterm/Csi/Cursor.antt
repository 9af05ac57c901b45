-- ===== src/Vterm/Csi/Cursor.antt =====
-- internal/vterm/vterm.go, `handleCSI`: the cases that move, save or restore the cursor, and
-- DECSTBM, which moves it home.
use pitviper.Base.{ℕ, slt, sle, add, sub, List, if◌then◌else◌}
use pitviper.Vterm.Screen.{Screen}
use pitviper.Vterm.Params.{num_or1, clamp, coord, bound_or}

-- `A`
unfoldable pub cursor_up : Screen → List ℕ → Screen
cursor_up s nums =
    let row : ℕ = sub s.cur_row (num_or1 nums) in
    record s { cur_row = if slt row 0 then 0 else row }

-- `B`
unfoldable pub cursor_down : Screen → List ℕ → Screen
cursor_down s nums =
    let row : ℕ = add s.cur_row (num_or1 nums) in
    record s { cur_row = if sle s.rows row then sub s.rows 1 else row }

-- `C`
unfoldable pub cursor_right : Screen → List ℕ → Screen
cursor_right s nums =
    let col : ℕ = add s.cur_col (num_or1 nums) in
    record s { cur_col = if sle s.cols col then sub s.cols 1 else col }

-- `D`
unfoldable pub cursor_left : Screen → List ℕ → Screen
cursor_left s nums =
    let col : ℕ = sub s.cur_col (num_or1 nums) in
    record s { cur_col = if slt col 0 then 0 else col }

-- `E`
unfoldable pub next_line : Screen → List ℕ → Screen
next_line s nums = record s {
  cur_row = clamp (add s.cur_row (num_or1 nums)) 0 (sub s.rows 1);
  cur_col = 0;
}

-- `F`
unfoldable pub previous_line : Screen → List ℕ → Screen
previous_line s nums = record s {
  cur_row = clamp (sub s.cur_row (num_or1 nums)) 0 (sub s.rows 1);
  cur_col = 0;
}

-- `G`
unfoldable pub to_column : Screen → List ℕ → Screen
to_column s nums = record s { cur_col = clamp (coord nums 0) 0 (sub s.cols 1) }

-- `d`
unfoldable pub to_row : Screen → List ℕ → Screen
to_row s nums = record s { cur_row = clamp (coord nums 0) 0 (sub s.rows 1) }

-- `H` and `f`
unfoldable pub to_position : Screen → List ℕ → Screen
to_position s nums = record s {
  cur_row = clamp (coord nums 0) 0 (sub s.rows 1);
  cur_col = clamp (coord nums 1) 0 (sub s.cols 1);
}

-- `s`, and ESC 7
unfoldable pub save_cursor : Screen → Screen
save_cursor s = record s { saved_row = s.cur_row; saved_col = s.cur_col }

-- `u`, and ESC 8
unfoldable pub restore_cursor : Screen → Screen
restore_cursor s = record s { cur_row = s.saved_row; cur_col = s.saved_col }

-- `r`
unfoldable pub set_region : Screen → List ℕ → Screen
set_region s nums =
    let t : ℕ = clamp (sub (bound_or nums 0 1) 1) 0 (sub s.rows 1) in
    let b : ℕ = clamp (sub (bound_or nums 1 s.rows) 1) 0 (sub s.rows 1) in
    if slt t b
    then record s { scroll_reg_top = t; scroll_reg_bot = b; cur_row = 0; cur_col = 0 }
    else s
