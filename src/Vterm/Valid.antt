-- ===== src/Vterm/Valid.antt =====
-- The invariant of a screen (internal/vterm/vterm.go, `Screen`), and how a step that only changes
-- cells is described.
pub mod Clear
pub mod Start
use pitviper.Base.{
  ℕ, ◌+◌, ◌*◌, ◌≤◌, ◌<◌, ◌≡◌, arith, true, Option, some, List, length, Returns, Returns-some,
  Returns-map, refl, sym, ◌∙◌,
}
use mathlib.Core.Path.{subst}
use pitviper.Scrollback.{Scrollback}
use pitviper.Scrollback.Valid
use pitviper.Vterm.Cell.{Cell}
use pitviper.Vterm.Screen.{Screen}
use pitviper.Vterm.Scroll.Rows.{max_side, cell_at, Draws}

-- What the operations on cells need: the sizes, the scroll region and the ring.
pub record Grid (s : Screen) : Type 0 where
  pub rows_pos : 1 ≤ s.rows
  pub rows_max : s.rows ≤ max_side
  pub cols_pos : 1 ≤ s.cols
  pub cols_max : s.cols ≤ max_side
  pub size : length s.cells ≡ s.rows * s.cols
  pub region : s.scroll_reg_top ≤ s.scroll_reg_bot
  pub region_in : s.scroll_reg_bot < s.rows
  pub sb_valid : Valid.IsValid s.sb

-- The cursor may stand one column behind its line: the next character wraps first.
pub record IsValid (s : Screen) : Type 0 where
  pub grid : Grid s
  pub open grid use *
  pub row_in : s.cur_row < s.rows
  pub col_in : s.cur_col ≤ s.cols
  pub saved_row_in : s.saved_row < s.rows
  pub saved_col_in : s.saved_col ≤ s.cols
  pub utf8_size : length s.utf8_buf ≡ 4
  pub utf8_in : s.utf8_len ≤ 4
  pub view_in : s.scroll_top ≤ s.sb.count
  pub alt_size : s.alt_active ≡ true → length s.alt_cells ≡ s.rows * s.cols
  pub alt_row_in : s.alt_cur_row < s.rows
  pub alt_col_in : s.alt_cur_col ≤ s.cols
  pub alt_saved_row_in : s.alt_saved_row < s.rows
  pub alt_saved_col_in : s.alt_saved_col ≤ s.cols
  pub alt_region : s.alt_scroll_reg_top ≤ s.alt_scroll_reg_bot
  pub alt_region_in : s.alt_scroll_reg_bot < s.rows

-- The computation returns the screen with its cells redrawn, `f k c` in row `k` and column `c`, and
-- nothing else changed.
pub record Redraws (s : Screen) (f : ℕ → ℕ → Option Cell) (r : Option Screen) : Type 0 where
  pub out : List Cell
  pub returns : r ≡ some (record s { cells = out })
  pub size : length out ≡ s.rows * s.cols
  pub elems : (k c : ℕ) → k < s.rows → c < s.cols → cell_at s.cols out k c ≡ f k c

-- The cell of a screen at row `k` and column `c`.
abbrev pub screen_at : Screen → ℕ → ℕ → Option Cell
screen_at s k c = cell_at s.cols s.cells k c

pub Redraws-ext :
    {s : Screen} {f g : ℕ → ℕ → Option Cell} {r : Option Screen}
    → Redraws s f r
    → ((k c : ℕ) → k < s.rows → c < s.cols → f k c ≡ g k c)
    → Redraws s g r
Redraws-ext d h = record {
  out = d.out;
  returns = d.returns;
  size = d.size;
  elems = λ k c hk hc. d.elems k c hk hc ∙ h k c hk hc;
}

-- `t` is `s` but for its cells and its ring, which are well-formed, and no shorter.
pub record Keeps (s t : Screen) : Type 0 where
  pub grid : Grid t
  pub grows : s.sb.count ≤ t.sb.count
  pub frame : t ≡ record s { cells = t.cells; sb = t.sb }

Keeps-record :
    (s : Screen) (out : List Cell) (sb : Scrollback Cell)
    → IsValid s
    → Grid (record s { cells = out; sb = sb })
    → s.sb.count ≤ sb.count
    → IsValid (record s { cells = out; sb = sb })
Keeps-record s out sb v g h = ground arith

pub Keeps-IsValid : (s t : Screen) → IsValid s → Keeps s t → IsValid t
Keeps-IsValid s t v k =
    subst IsValid (sym k.frame) (Keeps-record s t.cells t.sb v (subst Grid k.frame k.grid) k.grows)

pub sb-Grid :
    (s : Screen) (sb : Scrollback Cell) → Grid s → Valid.IsValid sb → Grid (record s { sb = sb })
sb-Grid s sb g w = ground arith

pub cells-Keeps :
    (s : Screen) (out : List Cell)
    → Grid s
    → length out ≡ s.rows * s.cols
    → Keeps s (record s { cells = out })
cells-Keeps s out g h = record { grid = ground arith; grows = omega arith; frame = refl }

pub Redraws-Keeps :
    {s : Screen} {f : ℕ → ℕ → Option Cell} {r : Option Screen}
    → Grid s
    → Redraws s f r
    → Returns (Keeps s) r
Redraws-Keeps {s} g d =
    Returns-some (Keeps s) (record s { cells = d.out }) d.returns (cells-Keeps s d.out g d.size)

pub Returns-IsValid :
    (s : Screen) (r : Option Screen) → IsValid s → Returns (Keeps s) r → Returns IsValid r
Returns-IsValid s r v k = Returns-map (Keeps s) IsValid r k (λ t. Keeps-IsValid s t v)
