-- ===== src/Vterm/Csi/Primary.antt =====
-- The alternate screen: what `?1049h` saves, and that `?1049l` brings it back.
use pitviper.Base.{
  ℕ, ◌+◌, ◌<◌, ◌≡◌, refl, sym, ◌∙◌, ap, arith, Bool, Option, not, if◌then◌else◌, true, false,
  Bool-cases, ◌⊎◌, inl, inr, codes, some, List, [], length, replicate, length-replicate, Returns,
  Returns-some,
}
use mathlib.Core.Path.{subst}
use pitviper.Slice.{copy_into}
use pitviper.Slice.Laws.{copy_all}
use pitviper.Vterm.Cell.{Cell, blank, zero_cell}
use pitviper.Vterm.Screen.{Screen, make_cells}
use pitviper.Vterm.Valid.{IsValid, Keeps-IsValid, cells-Keeps}
use pitviper.Vterm.Valid.Clear.{full_clear-Redraws}
use pitviper.Vterm.Scroll.Rows.{cell_at, area-le}
use pitviper.Vterm.Csi.{handle_csi}
use pitviper.Vterm.Csi.Modes.{save_primary, restore_primary, enter_alt, leave_alt, set_mode}

-- `u` shows the alternate screen and keeps the primary screen of `s`.
pub record Stores (s u : Screen) : Type 0 where
  pub active : u.alt_active ≡ true
  pub cells_kept : u.alt_cells ≡ s.cells
  pub row_kept : u.alt_cur_row ≡ s.cur_row
  pub col_kept : u.alt_cur_col ≡ s.cur_col
  pub saved_row_kept : u.alt_saved_row ≡ s.saved_row
  pub saved_col_kept : u.alt_saved_col ≡ s.saved_col
  pub fg_kept : u.alt_fg ≡ s.fg
  pub bg_kept : u.alt_bg ≡ s.bg
  pub bold_kept : u.alt_bold ≡ s.bold
  pub top_kept : u.alt_scroll_reg_top ≡ s.scroll_reg_top
  pub bot_kept : u.alt_scroll_reg_bot ≡ s.scroll_reg_bot

-- A blank screen with the cursor home and the whole screen as scroll region.
pub record IsFresh (u : Screen) : Type 0 where
  pub at_row : u.cur_row ≡ 0
  pub at_col : u.cur_col ≡ 0
  pub region_top : u.scroll_reg_top ≡ 0
  pub region_bot : u.scroll_reg_bot + 1 ≡ u.rows
  pub blanks : (k c : ℕ) → k < u.rows → c < u.cols → cell_at u.cols u.cells k c ≡ some blank

save_primary-IsValid : (s : Screen) → IsValid s → IsValid (save_primary s s.cells)
unfolding save_primary
save_primary-IsValid s v = ground arith

save_primary-Stores :
    (s : Screen) (out : List Cell) → Stores s (record (save_primary s s.cells) { cells = out })
unfolding save_primary
save_primary-Stores s out = ground arith

make_lem :
    (s : Screen) (c : Cell)
    → IsValid s
    → make_cells (length s.cells) c ≡ some (replicate (length s.cells) c)
unfolding make_cells
make_lem s c v = ground (arith, v.size, area-le s.rows s.cols v.rows_max v.cols_max)

-- The branch that enters the alternate screen.
pub enter_alt-Stores :
    (s : Screen) → IsValid s → Returns (λ u. Stores s u × IsFresh u × IsValid u) (enter_alt s)
unfolding enter_alt save_primary
enter_alt-Stores s v =
    let P = λ (u : Screen). Stores s u × IsFresh u × IsValid u in
    let t : Screen = save_primary s s.cells in
    let n : ℕ = length s.cells in
    let w = save_primary-IsValid s v in
    let d = full_clear-Redraws t n w.grid v.size in
    let made = make_lem s zero_cell v in
    let copied = copy_all (replicate n zero_cell) s.cells (sym (length-replicate n zero_cell)) in
    let fresh : IsFresh (record t { cells = d.out }) = record {
      at_row = refl;
      at_col = refl;
      region_top = refl;
      region_bot = omega (arith, v.rows_pos, v.rows_max);
      blanks = d.elems;
    } in
    rw made (
      rw copied (
        Returns-some P (record t { cells = d.out }) d.returns
          (
            save_primary-Stores s d.out,
            fresh,
            Keeps-IsValid t (record t { cells = d.out }) w (cells-Keeps t d.out w.grid d.size),
          )))

abbrev branch : Screen → Bool → Option Screen
branch s active = if not active then enter_alt s else some s

mode_1049 : (s : Screen) → handle_csi s b'h' (codes "?1049") ≡ branch s s.alt_active
unfolding handle_csi set_mode
mode_1049 s = ground arith

-- `CSI ?1049h` on a valid screen that is not the alternate one returns a valid, blank screen that
-- keeps the old one; on the alternate screen it changes nothing.
pub handle_csi-Stores :
    (s : Screen)
    → IsValid s
    → ((s.alt_active ≡ false)
        × Returns (λ u. Stores s u × IsFresh u × IsValid u) (handle_csi s b'h' (codes "?1049")))
      ⊎ ((s.alt_active ≡ true) × (handle_csi s b'h' (codes "?1049") ≡ some s))
handle_csi-Stores s v = elim (Bool-cases s.alt_active) [
  | inl e ↦ inr (e, mode_1049 s ∙ ap (branch s) e)
  | inr e ↦ inl (
    e,
    subst (Returns (λ u. Stores s u × IsFresh u × IsValid u)) (sym (mode_1049 s ∙ ap (branch s) e))
        (enter_alt-Stores s v),
  )
]

-- Leaving an alternate screen that still keeps the saved fields of a screen, with as many
-- cells, brings back that screen's cells, cursor, saved cursor, colours and scroll region,
-- whatever was drawn in between.
pub leave_alt-Stores :
    (s u : Screen)
    → Stores s u
    → length u.cells ≡ length s.cells
    → leave_alt u
      ≡ some (record u {
        cells = s.cells;
        cur_row = s.cur_row;
        cur_col = s.cur_col;
        saved_row = s.saved_row;
        saved_col = s.saved_col;
        fg = s.fg;
        bg = s.bg;
        bold = s.bold;
        scroll_reg_top = s.scroll_reg_top;
        scroll_reg_bot = s.scroll_reg_bot;
        alt_active = false;
        alt_cells = [];
      })
unfolding leave_alt restore_primary
leave_alt-Stores s u k e =
    let restore : copy_into u.cells 0 (length u.cells) u.alt_cells ≡ some s.cells =
      copy_all u.cells u.alt_cells (ap length k.cells_kept ∙ sym e) ∙ ap some k.cells_kept in
    ground (arith, restore, k)
