-- ===== src/Examples/Control.antt =====
-- The theorems on control sequences, at concrete inputs.
use pitviper.Base.{◌≡◌, ◌⊎◌, refl, arith, true, false, some, [], ◌∷◌, Returns, codes}
use pitviper.Vterm.Screen.{Screen}
use pitviper.Vterm.Valid.{IsValid}
use pitviper.Vterm.Params.{parse_nums, parse_from, is_digit}
use pitviper.Vterm.Csi.{handle_csi}
use pitviper.Vterm.Csi.Bounds.{AllSmall}
use pitviper.Vterm.Csi.Modes.{leave_alt}
use pitviper.Vterm.Csi.Primary.{Stores, IsFresh, handle_csi-Stores, leave_alt-Stores}
use pitviper.Vterm.Csi.Safe.{IsBenign, handle_csi-IsValid}
use pitviper.Examples.Fixtures.{letter, tiny, tiny-IsValid}

handle_csi-Stores_example :
    ((tiny.alt_active ≡ false)
      × Returns (λ u. Stores tiny u × IsFresh u × IsValid u) (handle_csi tiny b'h' (codes "?1049")))
    ⊎ ((tiny.alt_active ≡ true) × (handle_csi tiny b'h' (codes "?1049") ≡ some tiny))
handle_csi-Stores_example = handle_csi-Stores tiny tiny-IsValid

-- The alternate screen over `tiny`, with other cells, colours and a smaller scroll region.
abbrev over_tiny : Screen
over_tiny = record tiny {
  cells = letter b'x' ∷ letter b'x' ∷ letter b'x' ∷ letter b'x' ∷ letter b'x' ∷ letter b'x' ∷ [];
  cur_row = 0;
  fg = 4;
  scroll_reg_bot = 0;
  alt_active = true;
  alt_cells = tiny.cells;
  alt_cur_row = 1;
  alt_cur_col = 1;
  alt_saved_row = 0;
  alt_saved_col = 2;
  alt_fg = 1;
  alt_bg = 256;
  alt_bold = false;
  alt_scroll_reg_top = 0;
  alt_scroll_reg_bot = 1;
}

over_tiny-Stores : Stores tiny over_tiny
over_tiny-Stores = record {
  active = refl;
  cells_kept = refl;
  row_kept = refl;
  col_kept = refl;
  saved_row_kept = refl;
  saved_col_kept = refl;
  fg_kept = refl;
  bg_kept = refl;
  bold_kept = refl;
  top_kept = refl;
  bot_kept = refl;
}

leave_alt-Stores_example :
    leave_alt over_tiny
    ≡ some (record over_tiny {
      cells = tiny.cells;
      cur_row = 1;
      cur_col = 1;
      saved_row = 0;
      saved_col = 2;
      fg = 1;
      bg = 256;
      bold = false;
      scroll_reg_top = 0;
      scroll_reg_bot = 1;
      alt_active = false;
      alt_cells = [];
    })
leave_alt-Stores_example = leave_alt-Stores tiny over_tiny over_tiny-Stores refl

-- `\x1b[1;3H`
parsed-AllSmall : AllSmall (parse_nums (codes "1;3"))
unfolding parse_nums parse_from is_digit
parsed-AllSmall = (omega arith, (omega arith, tt))

final-IsBenign : IsBenign tiny b'H' (parse_nums (codes "1;3"))
final-IsBenign = λ e h. omega arith

handle_csi-IsValid_example : Returns IsValid (handle_csi tiny b'H' (codes "1;3"))
handle_csi-IsValid_example =
    handle_csi-IsValid tiny b'H' (codes "1;3") tiny-IsValid parsed-AllSmall final-IsBenign
