-- ===== src/Vterm/Csi/Drawn.antt =====
-- What `DCH` and `ICH` shift in the cursor's line, cell by cell.
use pitviper.Base.{
  ℕ, ◌+◌, ◌-◌, ◌*◌, ◌≤◌, ◌<◌, ◌^◌, ◌≡◌, ◌∙◌, ap, arith, Bool-cases, inl, inr, ltb, leb, ◌==◌, ◌&&◌,
  if◌then◌else◌, some, List, add, sub, mul, slt, rounds, rounds-small, ltb→lt, ltb→ge, true, false,
}
use pitviper.Slice.{fill, copy_within}
use pitviper.Vterm.Cell.{blank}
use pitviper.Vterm.Screen.{Screen}
use pitviper.Vterm.Valid.{IsValid, Redraws, screen_at}
use pitviper.Vterm.Params.{pos_or1, min2, max2}
use pitviper.Vterm.Csi.Bounds.{AllSmall, pos_or1-IsSmall}
use pitviper.Vterm.Csi.Columns.{fill_columns-Draws, shift_columns-Draws}
use pitviper.Vterm.Csi.Erase.{delete_chars, insert_chars}
use pitviper.Vterm.Csi.Words.{row_words, min2-small}

shift_index : (a n c : ℕ) → a ≤ c → c - a + (a + n) ≡ c + n
shift_index a n c h = omega arith

unshift_index : (a n c : ℕ) → a + n ≤ c → c - (a + n) + a ≡ c - n
unshift_index a n c h = omega arith

module _ (s : Screen) (v : IsValid s) where
  open s use {rows, cols, cells, cur_row, cur_col}

  module _ (n : ℕ) (small : n < 2 ^ 62) (pos : 1 ≤ n) where
    ends : (a : ℕ) → a ≤ cols → n ≤ a → sub (add (mul cur_row cols) a) n ≡ cur_row * cols + (a - n)
    ends a h p = let w = row_words s v in omega (arith, w.at a h, w.small)

    starts :
        cur_col + n ≤ cols → add (add (mul cur_row cols) cur_col) n ≡ cur_row * cols + (cur_col + n)
    starts h = let w = row_words s v in omega (arith, w.at cur_col v.col_in, w.small)

  -- `DCH` with `n` characters, on a valid screen and with parameters below 2 ^ 62, returns:
  -- from the cursor on, each column of the line takes the character `n`
  -- columns to its right, and what has none is blank.
  pub delete_chars-Redraws :
      (nums : List ℕ)
      → AllSmall nums
      → Redraws s
          (λ k c.
            if k == cur_row && leb cur_col c
            then (if ltb (c + pos_or1 nums) cols
                then screen_at s k (c + pos_or1 nums)
                else some blank)
            else screen_at s k c)
          (delete_chars s nums)
  unfolding delete_chars max2
  delete_chars-Redraws nums h =
      let n : ℕ = pos_or1 nums in
      let (small, pos) = pos_or1-IsSmall nums h in
      let w = row_words s v in
      let gap : ℕ = max2 cur_col (sub cols n) in
      elim (Bool-cases (ltb (cur_col + n) cols)) [
        | inl part ↦
            let lt : cur_col + n < cols = ltb→lt (cur_col + n) cols part in
            let keep : ℕ = cols - cur_col - n in
            let moved =
              shift_columns-Draws rows cols cur_row v.row_in cells cur_col (cur_col + n) keep v.size
                (omega arith) (omega arith) in
            let d =
              fill_columns-Draws rows cols cur_row v.row_in moved.out (cols - n) n blank moved.size
                (omega arith) in
            let test : slt (add cur_col n) cols ≡ true = ground (arith, v.cols_max) in
            let p1 = w.at cur_col v.col_in in
            let p2 : sub (add (mul cur_row cols) cols) n ≡ cur_row * cols + cur_col + keep =
              ends n small pos cols (omega arith) (omega arith) ∙ omega arith in
            let p3 = starts n small pos (omega arith) in
            let p4 : add (mul cur_row cols) cols ≡ cur_row * cols + (cur_col + n) + keep =
              w.at cols (omega arith) ∙ omega arith in
            let from : gap ≡ cols - n = ground (arith, v.cols_max) in
            let p5 : add (mul cur_row cols) gap ≡ cur_row * cols + (cols - n) =
              ap (add (mul cur_row cols)) from ∙ w.at (cols - n) (omega arith) in
            let p6 : rounds gap cols ≡ n =
              ap (λ a. rounds a cols) from
              ∙ rounds-small (cols - n) cols (omega (arith, v.cols_max)) (omega (arith, v.cols_max))
              ∙ omega arith in
            let copied = (λ i. copy_within cells (p1 i) (p2 i) (p3 i) (p4 i)) ∙ moved.returns in
            let filled = (λ i. fill moved.out (p5 i) (p6 i) blank) ∙ d.returns in
            record {
              out = d.out;
              returns = rw test (rw copied (rw filled));
              size = d.size;
              elems = λ k c hk hc. ground (
                arith,
                d.elems k c hk hc,
                moved.elems k c hk hc,
                λ (le : cur_col ≤ c). ap (screen_at s k) (shift_index cur_col n c le),
              );
            }
        | inr all ↦
            let ge : cols ≤ cur_col + n = ltb→ge (cur_col + n) cols all in
            let d =
              fill_columns-Draws rows cols cur_row v.row_in cells cur_col (cols - cur_col) blank
                v.size (omega (arith, v.col_in)) in
            let test : slt (add cur_col n) cols ≡ false = ground (arith, v.cols_max) in
            let from : gap ≡ cur_col = ground (arith, v.cols_max, v.col_in) in
            let p5 : add (mul cur_row cols) gap ≡ cur_row * cols + cur_col =
              ap (add (mul cur_row cols)) from ∙ w.at cur_col v.col_in in
            let p6 : rounds gap cols ≡ cols - cur_col =
              ap (λ a. rounds a cols) from
              ∙ rounds-small cur_col cols (omega (arith, v.cols_max, v.col_in))
                  (omega (arith, v.cols_max)) in
            let filled = (λ i. fill cells (p5 i) (p6 i) blank) ∙ d.returns in
            record {
              out = d.out;
              returns = rw test (rw filled);
              size = d.size;
              elems = λ k c hk hc. ground (arith, d.elems k c hk hc, v.col_in);
            }
      ]

  -- `ICH` with `n` characters, on a valid screen and with parameters below 2 ^ 62, returns: the
  -- cursor's column and the `n - 1` behind it are blank, and each later column takes the character
  -- `n` columns to its left.
  pub insert_chars-Redraws :
      (nums : List ℕ)
      → AllSmall nums
      → Redraws s
          (λ k c.
            if k == cur_row && leb cur_col c
            then (if ltb c (cur_col + pos_or1 nums)
                then some blank
                else screen_at s k (c - pos_or1 nums))
            else screen_at s k c)
          (insert_chars s nums)
  unfolding insert_chars
  insert_chars-Redraws nums h =
      let n : ℕ = pos_or1 nums in
      let (small, pos) = pos_or1-IsSmall nums h in
      let w = row_words s v in
      let p1 = w.at cur_col v.col_in in
      let stop : ℕ = min2 (add cur_col n) cols in
      elim (Bool-cases (ltb (cur_col + n) cols)) [
        | inl part ↦
            let lt : cur_col + n < cols = ltb→lt (cur_col + n) cols part in
            let keep : ℕ = cols - cur_col - n in
            let moved =
              shift_columns-Draws rows cols cur_row v.row_in cells (cur_col + n) cur_col keep v.size
                (omega arith) (omega arith) in
            let d =
              fill_columns-Draws rows cols cur_row v.row_in moved.out cur_col n blank moved.size
                (omega arith) in
            let test : slt (add cur_col n) cols ≡ true = ground (arith, v.cols_max) in
            let p2 = starts n small pos (omega arith) in
            let p3 : add (mul cur_row cols) cols ≡ cur_row * cols + (cur_col + n) + keep =
              w.at cols (omega arith) ∙ omega arith in
            let p4 : sub (add (mul cur_row cols) cols) n ≡ cur_row * cols + cur_col + keep =
              ends n small pos cols (omega arith) (omega arith) ∙ omega arith in
            let fits : add cur_col n ≡ cur_col + n = omega (arith, v.cols_max) in
            let to : stop ≡ cur_col + n =
              ap (λ m. min2 m cols) fits
              ∙ min2-small (cur_col + n) cols (omega (arith, v.cols_max))
                  (omega (arith, v.cols_max))
              ∙ omega arith in
            let p6 : rounds cur_col stop ≡ n =
              ap (rounds cur_col) to
              ∙ rounds-small cur_col (cur_col + n) (omega (arith, v.cols_max))
                  (omega (arith, v.cols_max))
              ∙ omega arith in
            let copied = (λ i. copy_within cells (p2 i) (p3 i) (p1 i) (p4 i)) ∙ moved.returns in
            let filled = (λ i. fill moved.out (p1 i) (p6 i) blank) ∙ d.returns in
            record {
              out = d.out;
              returns = rw test (rw copied (rw filled));
              size = d.size;
              elems = λ k c hk hc. ground (
                arith,
                d.elems k c hk hc,
                moved.elems k c hk hc,
                λ (le : cur_col + n ≤ c). ap (screen_at s k) (unshift_index cur_col n c le),
              );
            }
        | inr all ↦
            let ge : cols ≤ cur_col + n = ltb→ge (cur_col + n) cols all in
            let d =
              fill_columns-Draws rows cols cur_row v.row_in cells cur_col (cols - cur_col) blank
                v.size (omega (arith, v.col_in)) in
            let test : slt (add cur_col n) cols ≡ false = ground (arith, v.cols_max) in
            let fits : add cur_col n ≡ cur_col + n = omega (arith, v.cols_max, v.col_in) in
            let to : stop ≡ cols =
              ap (λ m. min2 m cols) fits
              ∙ min2-small (cur_col + n) cols (omega (arith, v.cols_max, v.col_in))
                  (omega (arith, v.cols_max))
              ∙ omega arith in
            let p6 : rounds cur_col stop ≡ cols - cur_col =
              ap (rounds cur_col) to
              ∙ rounds-small cur_col cols (omega (arith, v.cols_max, v.col_in))
                  (omega (arith, v.cols_max)) in
            let filled = (λ i. fill cells (p1 i) (p6 i) blank) ∙ d.returns in
            record {
              out = d.out;
              returns = rw test (rw filled);
              size = d.size;
              elems = λ k c hk hc. ground (arith, d.elems k c hk hc, v.col_in);
            }
      ]
