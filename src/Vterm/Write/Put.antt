-- ===== src/Vterm/Write/Put.antt =====
-- `putChar` and the bytes outside every sequence, on a valid screen.
use pitviper.Base.{
  ℕ, ◌+◌, ◌*◌, ◌≤◌, ◌<◌, ◌≡◌, refl, sym, ◌∙◌, ap, arith, Bool-cases, inl, inr, ◌==◌, ◌&&◌,
  if◌then◌else◌, Option, some, List, [], ◌∷◌, length, add, mul, sle, slt, Returns, Returns-some,
  Returns->>=, Returns-map,
}
use mathlib.Core.Path.{subst, subst₂}
use pitviper.Scrollback.{Scrollback}
use pitviper.Slice.{store}
use pitviper.Slice.Laws.{store-Yields}
use pitviper.Vterm.Cell.{Cell}
use pitviper.Vterm.Screen.{Screen}
use pitviper.Vterm.Valid.{Grid, IsValid, Keeps, screen_at}
use pitviper.Vterm.Scroll.{scroll_up}
use pitviper.Vterm.Scroll.Rows.{cell_at, mul-row, row_mono, area-le}
use pitviper.Vterm.Scroll.Saved.{scroll_up-Keeps}
use pitviper.Vterm.Write.{next_row, put_cell, put_char, tab, plain_byte}

-- The cell that `putChar` writes.
abbrev pub cell_of : Screen → ℕ → Cell
cell_of s ch = record { ch = ch; fg = s.fg; bg = s.bg; bold = s.bold }

-- The computation returns the screen with the character in the cell under the cursor, every other
-- cell as it was, and the cursor one column further.
pub record Puts (s : Screen) (ch : ℕ) (r : Option Screen) : Type 0 where
  pub out : List Cell
  pub returns : r ≡ some (record s { cells = out; cur_col = s.cur_col + 1 })
  pub size : length out ≡ s.rows * s.cols
  pub elems :
      (k c : ℕ)
      → k < s.rows
      → c < s.cols
      → cell_at s.cols out k c
        ≡ (if k == s.cur_row && c == s.cur_col then some (cell_of s ch) else screen_at s k c)

-- With the cursor on a column of a valid screen, the character goes to the cell under the cursor in
-- the current colours, every other cell stays, and the cursor moves one column on.
pub put_cell-Puts :
    (s : Screen) (ch : ℕ) → IsValid s → s.cur_col < s.cols → Puts s ch (put_cell s ch)
unfolding put_cell
put_cell-Puts s ch v h =
    let area = area-le s.rows s.cols v.rows_max v.cols_max in
    let end = row_mono s.cols s.cur_row s.rows v.row_in in
    let row = mul-row s.rows s.cols v.rows_max v.cols_max s.cur_row (omega arith) in
    let at : ℕ = s.cur_row * s.cols + s.cur_col in
    let d = store-Yields s.cells at (cell_of s ch) (omega (arith, v.size)) in
    let place : add (mul s.cur_row s.cols) s.cur_col ≡ at = omega arith in
    let next : add s.cur_col 1 ≡ s.cur_col + 1 = omega arith in
    record {
      out = d.out;
      returns = ground (arith, ap (λ i. store s.cells i (cell_of s ch)) place, d.returns, next);
      size = d.size ∙ v.size;
      elems = λ k c hk hc. ground (
        arith,
        d.elems (k * s.cols + c),
        row_mono s.cols k s.cur_row,
        row_mono s.cols s.cur_row k,
      );
    }

-- A valid screen with the given escape buffer and number of gathered UTF-8 bytes.
abbrev pub Reads : List ℕ → ℕ → Screen → Type 0
Reads esc len t = IsValid t × (t.esc ≡ esc) × (t.utf8_len ≡ len)

Puts-Reads :
    (s : Screen) (ch : ℕ) (r : Option Screen)
    → IsValid s
    → s.cur_col < s.cols
    → Puts s ch r
    → Returns (Reads s.esc s.utf8_len) r
Puts-Reads s ch r v h p =
    Returns-some (Reads s.esc s.utf8_len) (record s { cells = p.out; cur_col = s.cur_col + 1 })
      p.returns (valid, refl, refl)
  where
    valid : IsValid (record s { cells = p.out; cur_col = s.cur_col + 1 })
    valid = ground (arith, p.size)

-- The cursor of a valid screen one row down, perhaps below the last row.
row_down-Grid : (s : Screen) (r : ℕ) → IsValid s → Grid (record s { cur_row = r })
row_down-Grid s r v = ground arith

-- The screen after a scroll, with the cursor on the last row of the region.
landed-IsValid :
    (s t : Screen) (r : ℕ)
    → IsValid s
    → Keeps (record s { cur_row = r }) t
    → IsValid (record t { cur_row = t.scroll_reg_bot })
landed-IsValid s t r v k =
    subst (λ (u : Screen). IsValid (record u { cur_row = u.scroll_reg_bot })) (sym k.frame)
      (go t.cells t.sb (subst Grid k.frame k.grid) k.grows)
  where
    go :
        (out : List Cell) (sb : Scrollback Cell)
        → Grid (record s { cur_row = r; cells = out; sb = sb })
        → s.sb.count ≤ sb.count
        → IsValid (record s { cur_row = s.scroll_reg_bot; cells = out; sb = sb })
    go out sb g h = ground arith

-- A line feed on a valid screen returns, and keeps the invariant and the column.
next_row-IsValid :
    (s : Screen)
    → IsValid s
    → Returns
        (λ t. IsValid t × (t.cur_col ≡ s.cur_col) × (t.esc ≡ s.esc) × (t.utf8_len ≡ s.utf8_len))
        (next_row s)
unfolding next_row
next_row-IsValid s v =
    let r : ℕ = add s.cur_row 1 in
    let t : Screen = record s { cur_row = r } in
    let P = λ (u : Screen).
      IsValid u × (u.cur_col ≡ s.cur_col) × (u.esc ≡ s.esc) × (u.utf8_len ≡ s.utf8_len) in
    elim (Bool-cases (slt s.scroll_reg_bot r)) [
      | inl over ↦ rw over (
          Returns->>= (Keeps t) P (scroll_up t 1)
            (λ u. some (record u { cur_row = u.scroll_reg_bot }))
            (scroll_up-Keeps t 1 (row_down-Grid s r v) (omega arith) (omega arith))
            (λ u k. (
              landed-IsValid s u r v k,
              ap (λ (w : Screen). w.cur_col) k.frame,
              ap (λ (w : Screen). w.esc) k.frame,
              ap (λ (w : Screen). w.utf8_len) k.frame,
            )))
      | inr inside ↦ rw inside (ground arith)
    ]

-- `putChar` on a valid screen returns and keeps the invariant, with a wrap and a scroll where the
-- line is full.
pub put_char-Reads :
    (s : Screen) (ch : ℕ) → IsValid s → Returns (Reads s.esc s.utf8_len) (put_char s ch)
unfolding put_char
put_char-Reads s ch v =
    let P =
      λ (u : Screen). IsValid u × (u.cur_col ≡ 0) × (u.esc ≡ s.esc) × (u.utf8_len ≡ s.utf8_len) in
    elim (Bool-cases (sle s.cols s.cur_col)) [
      | inl full ↦ rw full (
          Returns->>= P (Reads s.esc s.utf8_len) (next_row (record s { cur_col = 0 }))
            (λ t. put_cell t ch) (next_row-IsValid (record s { cur_col = 0 }) (ground arith))
            (λ t k.
              let room : t.cur_col < t.cols = omega (arith, k.0.cols_pos) in
              subst₂ (λ e n. Returns (Reads e n) (put_cell t ch)) k.2 k.3
                (Puts-Reads t ch (put_cell t ch) k.0 room (put_cell-Puts t ch k.0 room))))
      | inr room ↦
          rw room
            (Puts-Reads s ch (put_cell s ch) v (ground arith) (put_cell-Puts s ch v (ground arith)))
    ]

line_feed-Reads : (s : Screen) → IsValid s → Returns (Reads s.esc s.utf8_len) (next_row s)
line_feed-Reads s v =
    Returns-map
      (λ t. IsValid t × (t.cur_col ≡ s.cur_col) × (t.esc ≡ s.esc) × (t.utf8_len ≡ s.utf8_len))
      (Reads s.esc s.utf8_len) (next_row s) (next_row-IsValid s v) (λ t k. (k.0, k.2, k.3))

tab-Reads : (s : Screen) → IsValid s → Reads s.esc s.utf8_len (tab s)
unfolding tab
tab-Reads s v = (ground arith, refl, refl)

-- A byte outside every sequence, on a valid screen: the step returns and keeps the invariant; only
-- ESC fills the escape buffer.
pub plain_byte-Reads :
    (s : Screen) (b : ℕ)
    → IsValid s
    → Returns (Reads (if b == 0x1b then 0x1b ∷ [] else s.esc) s.utf8_len) (plain_byte s b)
unfolding plain_byte
plain_byte-Reads s b v = ground (arith, line_feed-Reads s v, put_char-Reads s b v, tab-Reads s v)
