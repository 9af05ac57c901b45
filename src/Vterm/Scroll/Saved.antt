-- ===== src/Vterm/Scroll/Saved.antt =====
-- What `scrollUp` saves: the rows that leave the whole screen go to the scrollback, in order.
use pitviper.Base.{
  ℕ, zero, suc, ◌+◌, ◌-◌, ◌*◌, ◌≤◌, ◌<◌, ◌^◌, ◌≡◌, refl, ◌∙◌, ap, ap₂, arith, Bool-cases, inl, inr,
  ltb, if◌then◌else◌, Option, none, some, List, length, take, drop, add, sub, mul, rounds, ◌>>=◌,
  sub-small, rounds-small, get_elem?, Returns, Returns-some, ◌==◌, ◌&&◌, ltb→lt, ltb→ge,
}
use pitviper.Slice.{fill, slice, copy_within}
use pitviper.Slice.Laws.{slice-Yields, fill-Yields, copy_within_short-Yields}
use pitviper.Scrollback.{Scrollback, push}
use pitviper.Scrollback.Valid as Ring
use pitviper.Scrollback.Valid.{push-IsValid}
use pitviper.Scrollback.History.{history, remember, history-push}
use pitviper.Vterm.Cell.{Cell, blank, blank_in}
use pitviper.Vterm.Screen.{Screen}
use pitviper.Vterm.Valid.{Grid, Keeps, Redraws-Keeps, screen_at, sb-Grid}
use pitviper.Vterm.Valid.Clear.{full_clear-Redraws, mul-area}
use pitviper.Vterm.Scroll.Laws.{scroll_up_region-Redraws}
use pitviper.Vterm.Scroll.{push_rows, scroll_up, scroll_up_full}
use pitviper.Vterm.Scroll.Rows.{max_side, cell_at, mul-row, mul-next_row, row_mono, area-le}

-- Row `k`, as a line.
abbrev pub row_of : ℕ → List Cell → ℕ → List Cell
row_of cols cells k = take (k * cols + cols - k * cols) (drop (k * cols) cells)

-- A history after the rows `r`, `r + 1`, ..., `n` of them.
abbrev pub remember_rows : ℕ → List (List Cell) → ℕ → List Cell → ℕ → ℕ → List (List Cell)
remember_rows cap past cols cells r zero = past
remember_rows cap past cols cells r (suc n) =
    remember_rows cap (remember cap past (row_of cols cells r)) cols cells (r + 1) n

-- The ring `t` is valid, no smaller than `sb`, and holds the given history.
pub record Saves (sb : Scrollback Cell) (past : List (List Cell)) (r : Option (Scrollback Cell))
    : Type 0 where
  pub out : Scrollback Cell
  pub returns : r ≡ some out
  pub valid : Ring.IsValid out
  pub capacity : length out.lines ≡ length sb.lines
  pub grows : sb.count ≤ out.count
  pub past_is : history out ≡ past

-- `push` on a valid ring returns a valid ring of the same capacity that has no fewer lines and
-- holds the history with the new line at its end, less the oldest line where it was full.
pub push-Saves :
    (sb : Scrollback Cell) (l : List Cell)
    → Ring.IsValid sb
    → Saves sb (remember (length sb.lines) (history sb) l) (push sb l)
push-Saves sb l v = go (push sb l) refl (push-IsValid l v)
  where
    go :
        (o : Option (Scrollback Cell))
        → push sb l ≡ o
        → Returns
            (λ t. Ring.IsValid t × (length t.lines ≡ length sb.lines) × (sb.count ≤ t.count))
            o
        → Saves sb (remember (length sb.lines) (history sb) l) o
    go none e h = elim h [ ]
    go (some t) e h = record {
      out = t;
      returns = refl;
      valid = h.0;
      capacity = h.1;
      grows = h.2;
      past_is = history-push sb t l v e;
    }

module _ (rows cols : ℕ) (rows_max : rows ≤ max_side) (cols_max : cols ≤ max_side)
    (cells : List Cell) (size : length cells ≡ rows * cols) where
  slice-row :
      (r : ℕ)
      → r < rows
      → slice cells (mul r cols) (mul (add r 1) cols) ≡ some (row_of cols cells r)
  slice-row r h =
      ap₂ (slice cells) (mul-row rows cols rows_max cols_max r (omega arith))
        (mul-next_row rows cols rows_max cols_max r h)
      ∙ slice-Yields cells (r * cols) (r * cols + cols) (omega arith)
          (omega (arith, row_mono cols r rows h))

  pub push_rows-Saves :
      (sb : Scrollback Cell) (r n : ℕ)
      → Ring.IsValid sb
      → r + n ≤ rows
      → Saves sb
          (remember_rows (length sb.lines) (history sb) cols cells r n)
          (push_rows sb cells cols r n)
  unfolding push_rows
  push_rows-Saves sb r zero v h = record {
    out = sb;
    returns = refl;
    valid = v;
    capacity = refl;
    grows = omega arith;
    past_is = refl;
  }
  push_rows-Saves sb r (suc n) v h =
      let first = push-Saves sb (row_of cols cells r) v in
      let rest = push_rows-Saves first.out (r + 1) n first.valid (omega arith) in
      let next : add r 1 ≡ r + 1 = omega arith in
      record {
        out = rest.out;
        returns =
            ap (λ o. o >>= λ row. push sb row >>= λ t. push_rows t cells cols (add r 1) n)
              (slice-row r (omega arith))
            ∙ ap (λ o. o >>= λ t. push_rows t cells cols (add r 1) n) first.returns
            ∙ ap (λ i. push_rows first.out cells cols i n) next
            ∙ rest.returns;
        valid = rest.valid;
        capacity = rest.capacity ∙ first.capacity;
        grows = omega (arith, first.grows, rest.grows);
        past_is =
            rest.past_is
            ∙ ap₂ (λ cap past. remember_rows cap past cols cells (r + 1) n) first.capacity
                first.past_is;
      }

-- The screen after `scrollUp` on the whole screen: the ring holds the given history, the cells are
-- redrawn, and nothing else has changed.
pub record ScrollsFull (s : Screen) (past : List (List Cell)) (f : ℕ → ℕ → Option Cell)
    (r : Option Screen) : Type 0 where
  pub saved : Scrollback Cell
  pub out : List Cell
  pub returns : r ≡ some (record s { sb = saved; cells = out })
  pub size : length out ≡ s.rows * s.cols
  pub elems : (k c : ℕ) → k < s.rows → c < s.cols → cell_at s.cols out k c ≡ f k c
  pub valid : Ring.IsValid saved
  pub grows : s.sb.count ≤ saved.count
  pub past_is : history saved ≡ past

row_le : (cols k d : ℕ) → k ≤ d → k * cols ≤ d * cols
row_le cols k d h = grind arith

shifted_index : (cols n k c : ℕ) → n * cols + (k * cols + c - 0) ≡ (k + n) * cols + c
shifted_index cols n k c = omega arith

split_rows : (rows cols n : ℕ) → n ≤ rows → n * cols + (rows - n) * cols ≡ rows * cols
split_rows rows cols n h =
    let e : n + (rows - n) ≡ rows = omega arith in omega (arith, ap (λ k. k * cols) e)

module _ (s : Screen) (n : ℕ) (v : Grid s) (n_pos : 1 ≤ n) (n_max : n < 2 ^ 62) where
  open s use {rows, cols, cells, sb}

  -- The whole-screen branch of `scrollUp(n)` on a valid grid, for `n` from 1 and less than the
  -- height of the screen, returns. The first `n` rows go to the
  -- scrollback in order, each other row moves up by `n`, and the last `n` rows are blank.
  pub scroll_up_full-part :
      n < rows
      → ScrollsFull s
          (remember_rows (length sb.lines) (history sb) cols cells 0 n)
          (λ k c. if ltb (k + n) rows then screen_at s (k + n) c else some blank)
          (scroll_up_full s n)
  unfolding scroll_up_full
  scroll_up_full-part h =
      let saved =
        push_rows-Saves rows cols v.rows_max v.cols_max cells v.size sb 0 n v.sb_valid
          (omega arith) in
      let area : rows * cols ≤ 2 ^ 60 = area-le rows cols v.rows_max v.cols_max in
      let left : ℕ = (rows - n) * cols in
      let parts : n * cols + left ≡ rows * cols = split_rows rows cols n (omega arith) in
      let moved =
        copy_within_short-Yields cells 0 (length cells) (n * cols) left (omega (arith, v.size))
          (omega arith) (omega (arith, v.size)) in
      let d = fill-Yields moved.out left (n * cols) blank (omega (arith, moved.size, v.size)) in
      let pushed : rounds 0 n ≡ n = ground arith in
      let from : mul n cols ≡ n * cols = mul-row rows cols v.rows_max v.cols_max n (omega arith) in
      let whole : n * cols + left ≡ length cells = omega (arith, v.size) in
      let start : mul (sub rows n) cols ≡ left =
        ap (λ k. mul k cols) (sub-small rows n (omega arith) (omega arith))
        ∙ mul-row rows cols v.rows_max v.cols_max (rows - n) (omega arith) in
      let blanks : rounds left (mul rows cols) ≡ n * cols =
        ap (rounds left) (mul-row rows cols v.rows_max v.cols_max rows (omega arith))
        ∙ rounds-small left (rows * cols) (omega arith) (omega arith)
        ∙ omega arith in
      record {
        saved = saved.out;
        out = d.out;
        returns = ground (
          arith,
          ap (push_rows sb cells cols 0) pushed,
          saved.returns,
          ap (λ a. copy_within cells 0 (length cells) a (length cells)) from,
          ap (copy_within cells 0 (length cells) (n * cols)) whole,
          moved.returns,
          ap (λ a. fill moved.out a (rounds a (mul rows cols)) blank) start,
          ap (λ m. fill moved.out left m blank) blanks,
          d.returns,
        );
        size = d.size ∙ moved.size ∙ v.size;
        elems = λ k c hk hc. ground (
          arith,
          d.elems (k * cols + c),
          moved.elems (k * cols + c),
          row_mono cols k rows,
          row_mono cols k (rows - n),
          row_le cols (rows - n) k,
          ap (get_elem? cells) (shifted_index cols n k c),
        );
        valid = saved.valid;
        grows = saved.grows;
        past_is = saved.past_is;
      }

  -- The whole-screen branch of `scrollUp(n)` on a valid grid, by the height of the screen or
  -- more and below 2 ^ 62, returns. Every row goes to the
  -- scrollback in order, and every cell is blank, in the current colours.
  pub scroll_up_full-whole :
      rows ≤ n
      → ScrollsFull s
          (remember_rows (length sb.lines) (history sb) cols cells 0 rows)
          (λ k c. some (blank_in s.fg s.bg))
          (scroll_up_full s n)
  unfolding scroll_up_full
  scroll_up_full-whole h =
      let saved =
        push_rows-Saves rows cols v.rows_max v.cols_max cells v.size sb 0 rows v.sb_valid
          (omega arith) in
      let t : Screen = record s { sb = saved.out } in
      let d =
        full_clear-Redraws t (mul cols rows) (sb-Grid s saved.out v saved.valid) (mul-area s v) in
      let pushed : rounds 0 rows ≡ rows = ground arith in
      record {
        saved = saved.out;
        out = d.out;
        returns = ground (arith, ap (push_rows sb cells cols 0) pushed, saved.returns, d.returns);
        size = d.size;
        elems = d.elems;
        valid = saved.valid;
        grows = saved.grows;
        past_is = saved.past_is;
      }

  ScrollsFull-Keeps :
      {past : List (List Cell)} {f : ℕ → ℕ → Option Cell} {r : Option Screen}
      → ScrollsFull s past f r
      → Returns (Keeps s) r
  ScrollsFull-Keeps d =
      Returns-some (Keeps s) (record s { sb = d.saved; cells = d.out }) d.returns
        (record { grid = ground (arith, d.valid, d.size); grows = d.grows; frame = refl })

  -- `scrollUp(n)` on a valid grid, for `n` from 1 and below 2 ^ 62, returns, on every branch, and
  -- changes nothing but cells and the scrollback, which stay well-formed.
  pub scroll_up-Keeps : Returns (Keeps s) (scroll_up s n)
  unfolding scroll_up
  scroll_up-Keeps = elim (Bool-cases (s.scroll_reg_top == 0 && s.scroll_reg_bot == sub rows 1)) [
    | inl full ↦ elim (Bool-cases (ltb n rows)) [
      | inl part ↦ rw full (ScrollsFull-Keeps (scroll_up_full-part (ltb→lt n rows part)))
      | inr whole ↦ rw full (ScrollsFull-Keeps (scroll_up_full-whole (ltb→ge n rows whole)))
    ]
    | inr region ↦ rw region (Redraws-Keeps v (scroll_up_region-Redraws s n v n_pos n_max))
  ]
