-- ===== src/Vterm/Valid/Start.antt =====
-- What `New` returns.
use pitviper.Base.{
  ℕ, ◌*◌, ◌≤◌, ◌^◌, ◌≡◌, refl, ◌∙◌, arith, false, List, length, replicate, length-replicate, slt,
  mul, Returns,
}
use pitviper.Slice.{fill}
use pitviper.Scrollback.{Scrollback, new_scrollback, max_scrollback}
use pitviper.Scrollback.Valid as Ring
use pitviper.Scrollback.Valid.{new_scrollback-IsValid}
use pitviper.Vterm.Cell.{Cell, zero_cell}
use pitviper.Vterm.Screen.{make_cells, clear, zero_screen, new_screen}
use pitviper.Vterm.Valid.{IsValid}
use pitviper.Vterm.Scroll.Rows.{max_side, area-le}

module _ (cols rows : ℕ) (cols_pos : 1 ≤ cols) (cols_max : cols ≤ max_side) (rows_pos : 1 ≤ rows)
    (rows_max : rows ≤ max_side) where
  ring-IsValid : Ring.IsValid (new_scrollback {A = Cell} max_scrollback)
  unfolding max_scrollback
  ring-IsValid = new_scrollback-IsValid max_scrollback (omega arith) (omega arith)

  swapped : length (replicate (cols * rows) zero_cell) ≡ rows * cols
  swapped = length-replicate (cols * rows) zero_cell ∙ omega arith

  zero_screen-IsValid :
      (sb : Scrollback Cell) (cells : List Cell)
      → Ring.IsValid sb
      → length cells ≡ rows * cols
      → IsValid (zero_screen cols rows sb cells)
  unfolding zero_screen
  zero_screen-IsValid sb cells v e = ground arith

  -- `New` returns a valid screen of the given size. No cell is blank: each is the zero value of
  -- `Cell`, in black on black, since the range that `New` clears is empty.
  pub new_screen-zero :
      Returns
        (λ s.
          IsValid s
          × (s.cols ≡ cols)
          × (s.rows ≡ rows)
          × (s.cells ≡ replicate (cols * rows) zero_cell))
        (new_screen cols rows)
  unfolding new_screen make_cells clear zero_screen fill
  new_screen-zero =
      let area : rows * cols ≤ 2 ^ 60 = area-le rows cols rows_max cols_max in
      let size : mul cols rows ≡ cols * rows = omega arith in
      let fits : slt (cols * rows) 0 ≡ false = ground arith in
      rw size (
        rw fits (
          zero_screen-IsValid (new_scrollback max_scrollback) (replicate (cols * rows) zero_cell)
              ring-IsValid swapped,
          refl,
          refl,
          refl,
        ))
