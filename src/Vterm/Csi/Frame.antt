-- ===== src/Vterm/Csi/Frame.antt =====
-- What no control sequence touches, whether or not the screen is valid.
use pitviper.Base.{
  ℕ, ◌≡◌, arith, Bool-cases, inl, inr, ◌==◌, ◌||◌, ◌&&◌, Option, none, some, List, [], ◌∷◌, ◌>>=◌,
}
use pitviper.Vterm.Screen.{Screen, clear}
use pitviper.Vterm.Params.{parse_nums, pos_or1}
use pitviper.Vterm.Scroll.{scroll_up, scroll_down, scroll_up_full, scroll_up_region}
use pitviper.Vterm.Sgr.{handle_sgr, sgr_loop, sgr_one, sgr_extended, reset_sgr}
use pitviper.Vterm.Csi.{handle_csi, csi_cells, csi_state}
use pitviper.Vterm.Csi.Cursor.{
  cursor_up, cursor_down, cursor_right, cursor_left, next_line, previous_line, to_column, to_row,
  to_position, save_cursor, restore_cursor, set_region,
}
use pitviper.Vterm.Csi.Erase.{
  erase_chars, erase_display, erase_line, erase_columns, delete_chars, insert_chars,
}
use pitviper.Vterm.Csi.Lines.{insert_lines, delete_lines}
use pitviper.Vterm.Csi.Modes.{set_mode, enter_alt, leave_alt, restore_primary, save_primary}

-- The fields that are the same: the size, the input that is gathered, the title and the view.
pub record Same (s t : Screen) : Type 0 where
  pub cols : t.cols ≡ s.cols
  pub rows : t.rows ≡ s.rows
  pub esc : t.esc ≡ s.esc
  pub utf8_buf : t.utf8_buf ≡ s.utf8_buf
  pub utf8_len : t.utf8_len ≡ s.utf8_len
  pub title : t.title ≡ s.title
  pub scroll_top : t.scroll_top ≡ s.scroll_top

-- What the computation returns, if it does, has those fields as `s` has them.
abbrev pub Leaves : Screen → Option Screen → Type 0
Leaves s none = Unit {0}
Leaves s (some t) = Same s t

Leaves->>= :
    {A : Type 0} (s : Screen) (r : Option A) (f : A → Option Screen)
    → ((a : A) → Leaves s (f a))
    → Leaves s (r >>= f)
Leaves->>= s none f h = tt
Leaves->>= s (some a) f h = h a

pub clear-Leaves : (s : Screen) (a b n : ℕ) → Leaves s (clear s a b n)
unfolding clear
clear-Leaves s a b n = ground arith

module _ (s : Screen) (n : ℕ) where
  pub scroll_down-Leaves : Leaves s (scroll_down s n)
  unfolding scroll_down
  scroll_down-Leaves = ground arith

  scroll_up_full-Leaves : Leaves s (scroll_up_full s n)
  unfolding scroll_up_full clear
  scroll_up_full-Leaves = ground arith

  scroll_up_region-Leaves : Leaves s (scroll_up_region s n)
  unfolding scroll_up_region
  scroll_up_region-Leaves = ground arith

  pub scroll_up-Leaves : Leaves s (scroll_up s n)
  unfolding scroll_up
  scroll_up-Leaves = ground (arith, scroll_up_full-Leaves, scroll_up_region-Leaves)

module _ (s : Screen) (nums : List ℕ) where
  erase_chars-Leaves : Leaves s (erase_chars s nums)
  unfolding erase_chars
  erase_chars-Leaves = ground arith

  erase_display-Leaves : Leaves s (erase_display s nums)
  unfolding erase_display clear
  erase_display-Leaves = ground arith

  erase_line-Leaves : Leaves s (erase_line s nums)
  unfolding erase_line erase_columns
  erase_line-Leaves = ground arith

  delete_chars-Leaves : Leaves s (delete_chars s nums)
  unfolding delete_chars
  delete_chars-Leaves = ground arith

  insert_chars-Leaves : Leaves s (insert_chars s nums)
  unfolding insert_chars
  insert_chars-Leaves = ground arith

  insert_lines-Leaves : Leaves s (insert_lines s nums)
  unfolding insert_lines
  insert_lines-Leaves = ground arith

  delete_lines-Leaves : Leaves s (delete_lines s nums)
  unfolding delete_lines
  delete_lines-Leaves = ground arith

  moves-Same :
      Same s (cursor_up s nums)
      × Same s (cursor_down s nums)
      × Same s (cursor_right s nums)
      × Same s (cursor_left s nums)
      × Same s (next_line s nums)
      × Same s (previous_line s nums)
      × Same s (to_column s nums)
      × Same s (to_row s nums)
      × Same s (to_position s nums)
      × Same s (set_region s nums)
      × Same s (save_cursor s)
      × Same s (restore_cursor s)
  unfolding cursor_up cursor_down cursor_right cursor_left next_line previous_line to_column to_row
      to_position set_region save_cursor restore_cursor
  moves-Same = ground arith

sgr_one-Same : (s : Screen) (n : ℕ) → Same s (sgr_one s n)
unfolding sgr_one reset_sgr
sgr_one-Same s n = ground arith

sgr_extended-Same : (s : Screen) (n c : ℕ) → Same s (sgr_extended s n c)
unfolding sgr_extended
sgr_extended-Same s n c = ground arith

Same-trans : {s t u : Screen} → Same s t → Same t u → Same s u
Same-trans p q = ground arith

sgr_loop-Same : (s : Screen) (nums : List ℕ) → Same s (sgr_loop s nums)
unfolding sgr_loop
sgr_loop-Same s [] = ground arith
sgr_loop-Same s (n ∷ []) = sgr_one-Same s n
sgr_loop-Same s (n ∷ m ∷ []) = Same-trans (sgr_one-Same s n) (sgr_one-Same (sgr_one s n) m)
sgr_loop-Same s (n ∷ m ∷ c ∷ ns) = elim (Bool-cases ((n == 38 || n == 48) && m == 5)) [
  | inl e ↦ rw e (Same-trans (sgr_extended-Same s n c) (sgr_loop-Same (sgr_extended s n c) ns))
  | inr e ↦ rw e (Same-trans (sgr_one-Same s n) (sgr_loop-Same (sgr_one s n) (m ∷ c ∷ ns)))
]

handle_sgr-Same : (s : Screen) (nums : List ℕ) → Same s (handle_sgr s nums)
unfolding handle_sgr reset_sgr
handle_sgr-Same s [] = ground arith
handle_sgr-Same s (n ∷ ns) = sgr_loop-Same s (n ∷ ns)

set_mode-Leaves : (s : Screen) (final : ℕ) (params : List ℕ) → Leaves s (set_mode s final params)
unfolding set_mode enter_alt leave_alt save_primary restore_primary clear
set_mode-Leaves s final params = ground arith

module _ (s : Screen) (final : ℕ) (nums : List ℕ) where
  csi_state-Leaves : Leaves s (csi_state s final nums)
  unfolding csi_state
  csi_state-Leaves = ground (arith, moves-Same s nums, handle_sgr-Same s nums)

  csi_cells-Leaves : Leaves s (csi_cells s final nums)
  unfolding csi_cells
  csi_cells-Leaves = ground (
    arith,
    csi_state-Leaves,
    erase_chars-Leaves s nums,
    erase_display-Leaves s nums,
    erase_line-Leaves s nums,
    delete_chars-Leaves s nums,
    insert_chars-Leaves s nums,
    insert_lines-Leaves s nums,
    delete_lines-Leaves s nums,
    scroll_up-Leaves s (pos_or1 nums),
    scroll_down-Leaves s (pos_or1 nums),
  )

-- A control sequence on any screen, valid or not, leaves the size, the gathered escape and UTF-8
-- bytes, the title and the view offset as they are, if it returns.
pub handle_csi-Leaves :
    (s : Screen) (final : ℕ) (params : List ℕ) → Leaves s (handle_csi s final params)
unfolding handle_csi
handle_csi-Leaves s final params =
    ground (arith, set_mode-Leaves s final params, csi_cells-Leaves s final (parse_nums params))
