-- ===== src/Vterm/Resize/Shrunk.antt =====
-- A screen that `Resize` made lower keeps its scroll region, and output then leaves the grid.
use pitviper.Base.{
  ℕ, ◌+◌, ◌-◌, ◌*◌, ◌≤◌, ◌<◌, ◌≡◌, refl, ◌∙◌, ap, arith, false, ltb, Option, none, some, [], ◌∷◌,
  length, ◌>>=◌, min,
}
use pitviper.Slice.{store}
use pitviper.Vterm.Screen.{Screen}
use pitviper.Vterm.Valid.{IsValid}
use pitviper.Vterm.Scroll.Rows.{max_side, area-le, mul-row}
use pitviper.Vterm.Write.{
  next_row, put_cell, put_char, plain_byte, flush_utf8, take_byte, write_byte, write,
}
use pitviper.Vterm.Resize.{resize}
use pitviper.Vterm.Resize.Copied.{resize-Resizes}

module _ (s : Screen) (idle : s.utf8_len ≡ 0) (esc : s.esc ≡ []) where
  closed : ltb 0 (length s.esc) ≡ false
  closed = ap (λ e. ltb 0 (length e)) esc

  -- A plain byte goes through the accumulator and the escape buffer untouched.
  pub plain-write_byte : (b : ℕ) → b < 0x80 → write_byte s b ≡ plain_byte s b
  unfolding write_byte flush_utf8 take_byte
  plain-write_byte b h = ground (arith, closed)

line_feed : (s : Screen) → plain_byte s b'\n' ≡ next_row s
unfolding plain_byte
line_feed s = refl

printable : (s : Screen) (b : ℕ) → 0x20 ≤ b → plain_byte s b ≡ put_char s b
unfolding plain_byte
printable s b h = ground arith

inside_region :
    (s : Screen)
    → s.cur_row < s.scroll_reg_bot
    → s.scroll_reg_bot ≤ max_side
    → next_row s ≡ some (record s { cur_row = s.cur_row + 1 })
unfolding next_row
inside_region s h k = ground arith

below-panics :
    (s : Screen) (ch : ℕ)
    → s.cur_row ≡ s.rows
    → s.rows ≤ max_side
    → s.cols ≤ max_side
    → s.cur_col < s.cols
    → length s.cells ≡ s.rows * s.cols
    → put_char s ch ≡ none
unfolding put_char put_cell store
below-panics s ch at rows_max cols_max room size =
    let area = area-le s.rows s.cols rows_max cols_max in
    let row = mul-row s.rows s.cols rows_max cols_max s.cur_row (omega arith) in
    let place : s.cur_row * s.cols ≡ s.rows * s.cols = ap (λ r. r * s.cols) at in
    ground (arith, area, row, place, size)

-- On a valid screen whose scroll region reaches its last row, with nothing gathered and the cursor
-- on a column, `Resize` to fewer rows that leaves the cursor on the last one, then a line feed and
-- a printable character: the program panics. The region still ends below the screen, so the cursor
-- goes there too.
pub resize-panics :
    (s : Screen) (rows b : ℕ)
    → IsValid s
    → s.esc ≡ []
    → s.utf8_len ≡ 0
    → s.scroll_reg_bot + 1 ≡ s.rows
    → s.cur_col < s.cols
    → 1 ≤ rows
    → rows < s.rows
    → rows ≤ s.cur_row + 1
    → 0x20 ≤ b
    → b < 0x80
    → (resize s s.cols rows >>= λ t. write t (b'\n' ∷ b ∷ [])) ≡ none
unfolding write
resize-panics s rows b v esc idle whole room pos low near printing ascii =
    let d =
      resize-Resizes s v s.cols rows v.cols_pos v.cols_max pos (omega (arith, v.rows_max))
        (ground arith) in
    let t : Screen = record s {
      cells = d.out;
      rows = rows;
      cur_col = min s.cur_col (s.cols - 1);
      cur_row = min s.cur_row (rows - 1);
    } in
    let u : Screen = record t { cur_row = t.cur_row + 1 } in
    let fed : write_byte t b'\n' ≡ some u =
      plain-write_byte t idle esc b'\n' (omega arith)
      ∙ line_feed t
      ∙ inside_region t (omega arith) (omega (arith, v.rows_max)) in
    let lost : write_byte u b ≡ none =
      plain-write_byte u idle esc b ascii
      ∙ printable u b printing
      ∙ below-panics u b (omega arith) (omega (arith, v.rows_max)) v.cols_max (omega arith)
          d.size in
    let go : Screen → Option Screen = λ t. write_byte t b >>= λ u. some u in
    ap (λ (o : Option Screen). o >>= λ t. write t (b'\n' ∷ b ∷ [])) d.returns
    ∙ ap (λ (o : Option Screen). o >>= go) fed
    ∙ ap (λ (o : Option Screen). o >>= λ u. some u) lost
