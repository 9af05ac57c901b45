-- ===== src/Vterm/Csi/Bounds.antt =====
-- The cursor cases of `handleCSI` at parameters below 2 ^ 62: where the cursor lands.
use pitviper.Base.{
  ℕ, ◌+◌, ◌-◌, ◌≤◌, ◌<◌, ◌≡◌, ◌^◌, min, arith, List, [], ◌∷◌, sub, add, get_or, IsSmall, zero, suc,
}
use pitviper.Vterm.Screen.{Screen}
use pitviper.Vterm.Valid.{IsValid}
use pitviper.Vterm.Params.{num_or1, pos_or1, coord, bound_or, clamp}
use pitviper.Vterm.Csi.Cursor.{
  cursor_up, cursor_down, cursor_right, cursor_left, next_line, previous_line, to_column, to_row,
  to_position, save_cursor, restore_cursor, set_region,
}

-- Every parameter is far from overflow.
abbrev pub AllSmall : List ℕ → Type 0
AllSmall [] = Unit {0}
AllSmall (n ∷ ns) = IsSmall n × AllSmall ns

pub num_or1-IsSmall : (nums : List ℕ) → AllSmall nums → IsSmall (num_or1 nums) × (1 ≤ num_or1 nums)
unfolding num_or1
num_or1-IsSmall [] h = omega arith
num_or1-IsSmall (n ∷ ns) h = ground arith

pub pos_or1-IsSmall : (nums : List ℕ) → AllSmall nums → IsSmall (pos_or1 nums) × (1 ≤ pos_or1 nums)
unfolding pos_or1
pos_or1-IsSmall [] h = omega arith
pos_or1-IsSmall (n ∷ ns) h = ground arith

get_or-IsSmall : (nums : List ℕ) (i : ℕ) → AllSmall nums → IsSmall (get_or nums i 0)
get_or-IsSmall [] i h = omega arith
get_or-IsSmall (n ∷ ns) zero h = h.0
get_or-IsSmall (n ∷ ns) (suc i) h = get_or-IsSmall ns i h.1

coord-lt : (nums : List ℕ) (i : ℕ) → coord nums i < 2 ^ 64
unfolding coord
coord-lt nums i = ground arith

-- A coordinate counts from 1, and 0 or no parameter is the first.
coord-small : (nums : List ℕ) (i : ℕ) → AllSmall nums → coord nums i ≡ get_or nums i 0 - 1
unfolding coord
coord-small nums i h = ground (arith, get_or-IsSmall nums i h)

clamp-small : (v hi : ℕ) → v < 2 ^ 63 → IsSmall hi → clamp v 0 hi ≡ min v hi
unfolding clamp
clamp-small v hi p q = ground arith

module _ (s : Screen) (nums : List ℕ) (v : IsValid s) (h : AllSmall nums) where
  open s use {rows, cols, cur_row, cur_col}

  -- On a valid screen, with parameters below 2 ^ 62, the relative moves stop at the edges of the
  -- screen; 0 or no parameter counts as 1. `E` and `F` also return to the first column.
  relative_moves :
      ((cursor_up s nums).cur_row ≡ cur_row - num_or1 nums)
      × ((cursor_down s nums).cur_row ≡ min (cur_row + num_or1 nums) (rows - 1))
      × ((cursor_right s nums).cur_col ≡ min (cur_col + num_or1 nums) (cols - 1))
      × ((cursor_left s nums).cur_col ≡ cur_col - num_or1 nums)
      × ((next_line s nums).cur_row ≡ min (cur_row + num_or1 nums) (rows - 1))
      × ((next_line s nums).cur_col ≡ 0)
  unfolding cursor_up cursor_down cursor_right cursor_left next_line
  relative_moves =
      let k = num_or1-IsSmall nums h in
      let to : add cur_row (num_or1 nums) ≡ cur_row + num_or1 nums = omega arith in
      let last : sub rows 1 ≡ rows - 1 = omega arith in
      (
        ground (arith, k),
        ground (arith, k),
        ground (arith, k),
        ground (arith, k),
        ground (arith, k, to, last, clamp-small (add cur_row (num_or1 nums)) (sub rows 1)),
        ground arith,
      )

  -- The absolute moves, on a valid screen and with parameters below 2 ^ 62: coordinates count from
  -- 1 and are cut to the screen.
  absolute_moves :
      ((to_column s nums).cur_col ≡ min (get_or nums 0 0 - 1) (cols - 1))
      × ((to_row s nums).cur_row ≡ min (get_or nums 0 0 - 1) (rows - 1))
      × ((to_position s nums).cur_row ≡ min (get_or nums 0 0 - 1) (rows - 1))
      × ((to_position s nums).cur_col ≡ min (get_or nums 1 0 - 1) (cols - 1))
  unfolding to_column to_row to_position
  absolute_moves =
      let last_row : sub rows 1 ≡ rows - 1 = omega arith in
      let last_col : sub cols 1 ≡ cols - 1 = omega arith in
      let first = get_or-IsSmall nums 0 h in
      let second = get_or-IsSmall nums 1 h in
      let x = coord-small nums 0 h in
      let y = coord-small nums 1 h in
      let to_r = clamp-small (coord nums 0) (sub rows 1) (omega arith) (omega arith) in
      let to_c = clamp-small (coord nums 0) (sub cols 1) (omega arith) (omega arith) in
      let to_c1 = clamp-small (coord nums 1) (sub cols 1) (omega arith) (omega arith) in
      (omega arith, omega arith, omega arith, omega arith)

module _ (s : Screen) (nums : List ℕ) (v : IsValid s) where
  open s use {rows, cols}

  clamp_row : (x : ℕ) → x < 2 ^ 64 → clamp x 0 (sub rows 1) < rows
  unfolding clamp
  clamp_row x h = ground arith

  clamp_col : (x : ℕ) → x < 2 ^ 64 → clamp x 0 (sub cols 1) < cols
  unfolding clamp
  clamp_col x h = ground arith

  -- The moves that end in `clamp`, and saving and restoring the cursor, keep the invariant of a
  -- valid screen at every parameter, whatever its size.
  pub clamped-IsValid :
      IsValid (next_line s nums)
      × IsValid (previous_line s nums)
      × IsValid (to_column s nums)
      × IsValid (to_row s nums)
      × IsValid (to_position s nums)
      × IsValid (save_cursor s)
      × IsValid (restore_cursor s)
  unfolding next_line previous_line to_column to_row to_position save_cursor restore_cursor
  clamped-IsValid = (
    ground (arith, clamp_row (add s.cur_row (num_or1 nums))),
    ground (arith, clamp_row (sub s.cur_row (num_or1 nums))),
    ground (arith, clamp_col (coord nums 0) (coord-lt nums 0)),
    ground (arith, clamp_row (coord nums 0) (coord-lt nums 0)),
    ground (
      arith,
      clamp_row (coord nums 0) (coord-lt nums 0),
      clamp_col (coord nums 1) (coord-lt nums 1),
    ),
    ground arith,
    ground arith,
  )

  -- DECSTBM on a valid screen leaves a valid screen at any parameters: the scroll region it sets
  -- lies on the screen.
  pub set_region-IsValid : IsValid (set_region s nums)
  unfolding set_region
  set_region-IsValid =
      ground
        (arith, clamp_row (sub (bound_or nums 0 1) 1), clamp_row (sub (bound_or nums 1 rows) 1))

-- The four unclamped moves keep the invariant at parameters below 2 ^ 62.
pub moves-IsValid :
    (s : Screen) (nums : List ℕ)
    → IsValid s
    → AllSmall nums
    → IsValid (cursor_up s nums)
      × IsValid (cursor_down s nums)
      × IsValid (cursor_right s nums)
      × IsValid (cursor_left s nums)
unfolding cursor_up cursor_down cursor_right cursor_left
moves-IsValid s nums v h =
    let k = num_or1-IsSmall nums h in
    (ground (arith, k), ground (arith, k), ground (arith, k), ground (arith, k))
