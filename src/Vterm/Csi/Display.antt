-- ===== src/Vterm/Csi/Display.antt =====
-- `ED` of `handleCSI` on a valid screen, and `EL` where it panics.
use pitviper.Base.{
  ℕ, ◌+◌, ◌*◌, ◌≤◌, ◌<◌, ◌^◌, ◌≡◌, refl, ◌∙◌, ap, arith, Bool-cases, inl, inr, leb, ltb, ◌==◌, ◌||◌,
  if◌then◌else◌, none, some, List, add, mul, slt, rounds, true, false,
}
use pitviper.Slice.{fill}
use pitviper.Slice.Laws.{fill-panics}
use pitviper.Vterm.Cell.{blank_in}
use pitviper.Vterm.Screen.{Screen, clear}
use pitviper.Vterm.Valid.{IsValid, Redraws, Redraws-ext, screen_at}
use pitviper.Vterm.Valid.Clear.{clear-Redraws, full_clear-Redraws, mul-area'}
use pitviper.Vterm.Scroll.Rows.{mul-row, row_mono, area-le}
use pitviper.Vterm.Params.{num_or0}
use pitviper.Vterm.Csi.Erase.{erase_display, erase_columns, erase_line}

-- An end behind the last cell is cut.
clear_cut :
    (s : Screen) (start end n : ℕ)
    → n < end
    → end < 2 ^ 63
    → clear s start end n ≡ clear s start n n
unfolding clear
clear_cut s start end n h k =
    let p : slt n end ≡ true = ground arith in let q : slt n n ≡ false = ground arith in rw (p, q)

module _ (s : Screen) (v : IsValid s) where
  open s use {rows, cols, cells, cur_row, cur_col}

  -- The index of the cursor.
  abbrev pub cursor_index : ℕ
  cursor_index = cur_row * cols + cur_col

  record Indices : Type 0 where
    at : add (mul cur_row cols) cur_col ≡ cursor_index
    next : add (add (mul cur_row cols) cur_col) 1 ≡ cursor_index + 1
    whole : mul rows cols ≡ rows * cols
    inside : cursor_index ≤ rows * cols
    small : rows * cols ≤ 2 ^ 60

  indices : Indices
  indices =
      let row = mul-row rows cols v.rows_max v.cols_max cur_row (omega (arith, v.row_in)) in
      let area = area-le rows cols v.rows_max v.cols_max in
      let end = row_mono cols cur_row rows v.row_in in
      let at : add (mul cur_row cols) cur_col ≡ cursor_index =
        omega (arith, row, area, end, v.col_in) in
      record {
        at = at;
        next = omega (arith, at, area, end, v.col_in);
        whole = mul-area' s v.grid;
        inside = omega (arith, end, v.col_in);
        small = area;
      }

  -- `ED` with 0 or no parameter, on a valid screen, blanks, in the current colours, the cells from
  -- the cursor on.
  pub erase_display-to_end :
      (nums : List ℕ)
      → num_or0 nums ≡ 0
      → Redraws s
          (λ k c.
            if leb cursor_index (k * cols + c) then some (blank_in s.fg s.bg) else screen_at s k c)
          (erase_display s nums)
  unfolding erase_display
  erase_display-to_end nums e =
      let i = indices in
      let d =
        clear-Redraws s cursor_index (rows * cols) (rows * cols) v.grid i.inside (omega arith)
          refl in
      rw (e, i.at, i.whole) (Redraws-ext d (λ k c hk hc. ground (arith, row_mono cols k rows hk)))

  -- `ED` with 1, on a valid screen, blanks, in the current colours, the cells up to and with the
  -- cursor.
  pub erase_display-to_cursor :
      (nums : List ℕ)
      → num_or0 nums ≡ 1
      → Redraws s
          (λ k c.
            if leb (k * cols + c) cursor_index then some (blank_in s.fg s.bg) else screen_at s k c)
          (erase_display s nums)
  unfolding erase_display
  erase_display-to_cursor nums e =
      let i = indices in
      elim (Bool-cases (ltb (rows * cols) (cursor_index + 1))) [
        | inl over ↦
            let cut =
              clear_cut s 0 (cursor_index + 1) (rows * cols) (ground arith)
                (omega (arith, i.small, i.inside)) in
            let d =
              clear-Redraws s 0 (rows * cols) (rows * cols) v.grid (omega arith) (omega arith)
                refl in
            rw (e, i.next, i.whole)
              (rw cut (Redraws-ext d (λ k c hk hc. ground (arith, row_mono cols k rows hk))))
        | inr inside ↦
            let d =
              clear-Redraws s 0 (cursor_index + 1) (rows * cols) v.grid (omega arith) (ground arith)
                refl in
            rw (e, i.next, i.whole) (Redraws-ext d (λ k c hk hc. ground arith))
      ]

  -- `ED` with 2 or 3, on a valid screen, blanks every cell, in the current colours, and sends the
  -- cursor home.
  pub erase_display-all :
      (nums : List ℕ)
      → (num_or0 nums == 2 || num_or0 nums == 3) ≡ true
      → Redraws
          (record s { cur_row = 0; cur_col = 0 })
          (λ k c. some (blank_in s.fg s.bg))
          (erase_display s nums)
  unfolding erase_display
  erase_display-all nums e =
      let d = full_clear-Redraws s (rows * cols) v.grid refl in
      let not0 : (num_or0 nums == 0) ≡ false = ground arith in
      let not1 : (num_or0 nums == 1) ≡ false = ground arith in
      record {
        out = d.out;
        returns = rw (not0, not1, e) (rw indices.whole (rw d.returns));
        size = d.size;
        elems = d.elems;
      }

  -- On a valid screen with the cursor behind the last column of the last row, `EL` with 1 panics:
  -- its loop goes up to and with the cursor's column, which is not in the grid.
  pub erase_line-panics :
      (nums : List ℕ)
      → num_or0 nums ≡ 1
      → cur_col ≡ cols
      → cur_row + 1 ≡ rows
      → erase_line s nums ≡ none
  unfolding erase_line erase_columns
  erase_line-panics nums e last_col last_row =
      let i = indices in
      let p = mul-row rows cols v.rows_max v.cols_max cur_row (omega (arith, v.row_in)) in
      let area : (cur_row + 1) * cols ≡ rows * cols = ap (λ k. k * cols) last_row in
      let from : add (mul cur_row cols) 0 ≡ cur_row * cols = omega (arith, p, area, i.small) in
      let times : rounds 0 (add cur_col 1) ≡ cols + 1 = ground (arith, v.cols_max) in
      let out =
        fill-panics cells (cur_row * cols) (cols + 1) (blank_in s.fg s.bg) (omega arith)
          (omega (arith, v.size, area)) in
      rw (e) (rw ((λ j. fill cells (from j) (times j) (blank_in s.fg s.bg)) ∙ out))
