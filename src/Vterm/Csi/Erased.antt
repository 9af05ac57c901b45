-- ===== src/Vterm/Csi/Erased.antt =====
-- What `ECH` and `EL` erase in the cursor's line, cell by cell.
use pitviper.Base.{
  ℕ, Bool, ◌+◌, ◌-◌, ◌*◌, ◌≤◌, ◌<◌, ◌≡◌, min, ◌∙◌, ap, arith, Bool-cases, inl, inr, leb, ◌==◌, ◌&&◌,
  if◌then◌else◌, some, List, add, mul, rounds, rounds-small, refl,
}
use pitviper.Slice.{fill}
use pitviper.Slice.Laws.{within}
use pitviper.Vterm.Cell.{blank, blank_in}
use pitviper.Vterm.Screen.{Screen}
use pitviper.Vterm.Valid.{IsValid, Redraws, Redraws-ext, screen_at}
use pitviper.Vterm.Params.{num_or1, num_or0, min2}
use pitviper.Vterm.Csi.Bounds.{AllSmall, num_or1-IsSmall}
use pitviper.Vterm.Csi.Columns.{fill_columns-Draws}
use pitviper.Vterm.Csi.Erase.{erase_chars, erase_columns, erase_line}
use pitviper.Vterm.Csi.Words.{row_words}

module _ (s : Screen) (v : IsValid s) where
  open s use {rows, cols, cells, cur_row, cur_col}

  -- The loops of `K` over columns `a` up to `b` blank those columns of the cursor's row, in the
  -- current colours.
  erase_columns-Redraws :
      (a b : ℕ)
      → a ≤ b
      → b ≤ cols
      → Redraws s
          (λ k c.
            if k == cur_row && within a b c then some (blank_in s.fg s.bg) else screen_at s k c)
          (erase_columns s a b)
  unfolding erase_columns
  erase_columns-Redraws a b p q =
      let from : ℕ = cur_row * cols + a in
      let d =
        fill_columns-Draws rows cols cur_row v.row_in cells a (b - a) (blank_in s.fg s.bg) v.size
          (omega arith) in
      let place : add (mul cur_row cols) a ≡ from = (row_words s v).at a (omega arith) in
      let times : rounds a b ≡ b - a =
        rounds-small a b (omega (arith, v.cols_max)) (omega (arith, v.cols_max)) in
      record {
        out = d.out;
        returns = ground (
          arith,
          ap (λ i. fill cells i (rounds a b) (blank_in s.fg s.bg)) place,
          ap (λ n. fill cells from n (blank_in s.fg s.bg)) times,
          d.returns,
        );
        size = d.size;
        elems = λ k c hk hc. ground (arith, d.elems k c hk hc);
      }

  -- `ECH` with `n` characters, on a valid screen and with parameters below 2 ^ 62, blanks the
  -- columns from the cursor on, `n` of them or up to the end of the line, and moves nothing.
  pub erase_chars-Redraws :
      (nums : List ℕ)
      → AllSmall nums
      → Redraws s
          (λ k c.
            if k == cur_row && within cur_col (cur_col + num_or1 nums) c
            then some blank
            else screen_at s k c)
          (erase_chars s nums)
  unfolding erase_chars min2
  erase_chars-Redraws nums h =
      let n : ℕ = num_or1 nums in
      let small = num_or1-IsSmall nums h in
      let w = row_words s v in
      let from : ℕ = cur_row * cols + cur_col in
      let end : ℕ = cur_row * cols + cols in
      let count : ℕ = min n (cols - cur_col) in
      let d =
        fill_columns-Draws rows cols cur_row v.row_in cells cur_col count blank v.size
          (omega (arith, v.col_in)) in
      let place : add (mul cur_row cols) cur_col ≡ from = w.at cur_col v.col_in in
      let stop : min2 (add from n) (mul (add cur_row 1) cols) ≡ min (from + n) end =
        ap (min2 (add from n)) w.next ∙ ground (arith, small, w.small, v.col_in) in
      let times : rounds from (min2 (add from n) (mul (add cur_row 1) cols)) ≡ count =
        ap (rounds from) stop
        ∙ rounds-small from (min (from + n) end) (omega (arith, w.small, v.col_in))
            (omega (arith, w.small))
        ∙ omega (arith, v.col_in) in
      record {
        out = d.out;
        returns = ground (
          arith,
          ap (λ i. fill cells i (rounds i (min2 (add i n) (mul (add cur_row 1) cols))) blank) place,
          ap (λ m. fill cells from m blank) times,
          d.returns,
        );
        size = d.size;
        elems = λ k c hk hc. ground (arith, d.elems k c hk hc, v.col_in);
      }

  -- What `EL` erases in the cursor's row, by its parameter.
  abbrev pub line_part : ℕ → ℕ → Bool
  line_part n c = if n == 0 then leb cur_col c else if n == 1 then leb c cur_col else n == 2

  -- `EL` on a valid screen blanks, in the current colours, the cursor's row from the cursor on (0
  -- or no parameter), up to and with the cursor (1), or whole (2); any other parameter does
  -- nothing. The second case needs the cursor on a column of the line.
  pub erase_line-Redraws :
      (nums : List ℕ)
      → (num_or0 nums ≡ 1 → cur_col < cols)
      → Redraws s
          (λ k c.
            if k == cur_row && line_part (num_or0 nums) c
            then some (blank_in s.fg s.bg)
            else screen_at s k c)
          (erase_line s nums)
  unfolding erase_line
  erase_line-Redraws nums on = go (num_or0 nums) on
    where
      as_is : Redraws s (λ k c. screen_at s k c) (some s)
      as_is = record { out = cells; returns = refl; size = v.size; elems = λ k c hk hc. refl }

      go :
          (n : ℕ)
          → (n ≡ 1 → cur_col < cols)
          → Redraws s
              (λ k c.
                if k == cur_row && line_part n c
                then some (blank_in s.fg s.bg)
                else screen_at s k c)
              (if n == 0
                then erase_columns s cur_col cols
                else if n == 1
                then erase_columns s 0 (add cur_col 1)
                else if n == 2
                then erase_columns s 0 cols
                else some s)
      go n h = elim (Bool-cases (n == 0)) [
        | inl zero_ ↦ rw zero_ (
            Redraws-ext (erase_columns-Redraws cur_col cols v.col_in (omega arith))
              (λ k c hk hc. ground arith))
        | inr nz ↦ elim (Bool-cases (n == 1)) [
          | inl one_ ↦
              let on_line : cur_col < cols = h (ground arith) in
              let to : add cur_col 1 ≡ cur_col + 1 = omega (arith, v.cols_max) in
              rw (nz, one_, to)
                (Redraws-ext (erase_columns-Redraws 0 (cur_col + 1) (omega arith) (omega arith))
                  (λ k c hk hc. ground arith))
          | inr no_ ↦ elim (Bool-cases (n == 2)) [
            | inl two_ ↦
                rw (nz, no_, two_)
                  (Redraws-ext (erase_columns-Redraws 0 cols (omega arith) (omega arith))
                    (λ k c hk hc. ground arith))
            | inr none_ ↦ rw (nz, no_, none_) (Redraws-ext as_is (λ k c hk hc. ground arith))
          ]
        ]
      ]
