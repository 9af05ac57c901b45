-- ===== src/Vterm/Scroll/Laws.antt =====
-- What `scrollDown` and the region branch of `scrollUp` do to the cells of a valid screen.
use pitviper.Base.{
  ℕ, ◌+◌, ◌-◌, ◌≤◌, ◌<◌, ◌^◌, ◌≡◌, ap, arith, Bool-cases, inl, inr, ltb, leb, if◌then◌else◌, some,
  add, sub, rounds,
}
use pitviper.Slice.Laws.{within}
use pitviper.Vterm.Cell.{blank}
use pitviper.Vterm.Screen.{Screen}
use pitviper.Vterm.Valid.{Grid, Redraws, screen_at}
use pitviper.Vterm.Scroll.{scroll_down, scroll_up_region, blank_rows, rows_up, rows_down}
use pitviper.Vterm.Scroll.Rows.{blank_rows-Draws, rows_up-Draws, rows_down-Draws}

module _ (s : Screen) (n : ℕ) (v : Grid s) (n_pos : 1 ≤ n) (n_max : n < 2 ^ 62) where
  open s use {rows, cols, cells, scroll_reg_top as top, scroll_reg_bot as bot}

  bot_rounds : rounds top (add bot 1) ≡ bot + 1 - top
  bot_rounds = ground arith

  -- `scrollDown(n)` on a valid grid returns, for `n` from 1 and below 2 ^ 62. Inside the scroll
  -- region each row takes the row `n` above it, the first `n` rows are blank, and no cell outside
  -- the region and no other field changes; a scroll by the height of the region or more blanks it.
  pub scroll_down-Redraws :
      Redraws s
        (λ k c.
          if within top (bot + 1) k
          then (if ltb k (top + n) then some blank else screen_at s (k - n) c)
          else screen_at s k c)
        (scroll_down s n)
  unfolding scroll_down
  scroll_down-Redraws = elim (Bool-cases (leb (bot - top + 1) n)) [
    | inl all ↦
        let d =
          blank_rows-Draws rows cols v.rows_max v.cols_max cells top (bot + 1 - top) v.size
            (omega arith) in
        record {
          out = d.out;
          returns = ground (arith, d.returns, ap (blank_rows cells cols top) bot_rounds);
          size = d.size;
          elems = λ k c hk hc. ground (arith, d.elems k c hk hc);
        }
    | inr part ↦
        let moved =
          rows_down-Draws rows cols v.rows_max v.cols_max cells n bot (bot + 1 - (top + n)) v.size
            (omega arith) (ground arith) in
        let d =
          blank_rows-Draws rows cols v.rows_max v.cols_max moved.out top n moved.size
            (ground arith) in
        let first : rounds (add top n) (add bot 1) ≡ bot + 1 - (top + n) = ground arith in
        let second : rounds top (add top n) ≡ n = ground arith in
        record {
          out = d.out;
          returns = ground (
            arith,
            moved.returns,
            d.returns,
            ap (rows_down cells cols n bot) first,
            ap (blank_rows moved.out cols top) second,
          );
          size = d.size;
          elems = λ k c hk hc. ground (arith, d.elems k c hk hc, moved.elems k c hk hc);
        }
  ]

  -- The region branch of `scrollUp(n)` on a valid grid returns, for `n` from 1 and below 2 ^
  -- 62. Inside the scroll region each row
  -- takes the row `n` below it, the last `n` rows are blank, and no cell outside the region and no
  -- other field changes.
  pub scroll_up_region-Redraws :
      Redraws s
        (λ k c.
          if within top (bot + 1) k
          then (if ltb bot (k + n) then some blank else screen_at s (k + n) c)
          else screen_at s k c)
        (scroll_up_region s n)
  unfolding scroll_up_region
  scroll_up_region-Redraws = elim (Bool-cases (leb (bot - top + 1) n)) [
    | inl all ↦
        let d =
          blank_rows-Draws rows cols v.rows_max v.cols_max cells top (bot + 1 - top) v.size
            (omega arith) in
        record {
          out = d.out;
          returns = ground (arith, d.returns, ap (blank_rows cells cols top) bot_rounds);
          size = d.size;
          elems = λ k c hk hc. ground (arith, d.elems k c hk hc);
        }
    | inr part ↦
        let moved =
          rows_up-Draws rows cols v.rows_max v.cols_max cells n top (bot + 1 - n - top) v.size
            (ground arith) in
        let start : ℕ = bot + 1 - n in
        let d =
          blank_rows-Draws rows cols v.rows_max v.cols_max moved.out start n moved.size
            (ground arith) in
        let first : rounds top (add (sub bot n) 1) ≡ bot + 1 - n - top = ground arith in
        let from : add (sub bot n) 1 ≡ start = ground arith in
        let second : rounds start (add bot 1) ≡ n = ground arith in
        record {
          out = d.out;
          returns = ground (
            arith,
            moved.returns,
            d.returns,
            ap (rows_up cells cols n top) first,
            ap (λ a. blank_rows moved.out cols a (rounds a (add bot 1))) from,
            ap (blank_rows moved.out cols start) second,
          );
          size = d.size;
          elems = λ k c hk hc. ground (arith, d.elems k c hk hc, moved.elems k c hk hc);
        }
  ]
