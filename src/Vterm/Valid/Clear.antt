-- ===== src/Vterm/Valid/Clear.antt =====
-- What `clear` draws: the cells from one index up to another become blanks in the current colours.
use pitviper.Base.{ℕ, ◌+◌, ◌-◌, ◌*◌, ◌≤◌, ◌≡◌, ◌∙◌, ap, arith, if◌then◌else◌, some, rounds, mul}
use pitviper.Slice.{fill}
use pitviper.Slice.Laws.{within, fill-Yields}
use pitviper.Vterm.Cell.{blank_in}
use pitviper.Vterm.Screen.{Screen, clear}
use pitviper.Vterm.Scroll.Rows.{area-le, row_mono}
use pitviper.Vterm.Valid.{Grid, Redraws, screen_at}

pub clear-Redraws :
    (s : Screen) (start stop n : ℕ)
    → Grid s
    → start ≤ stop
    → stop ≤ n
    → n ≡ s.rows * s.cols
    → Redraws s
        (λ k c.
          if within start stop (k * s.cols + c) then some (blank_in s.fg s.bg) else screen_at s k c)
        (clear s start stop n)
unfolding clear
clear-Redraws s start stop n v p q e =
    let area = area-le s.rows s.cols v.rows_max v.cols_max in
    let d = fill-Yields s.cells start (stop - start) (blank_in s.fg s.bg) (omega (arith, v.size)) in
    let times : rounds start stop ≡ stop - start = ground arith in
    record {
      out = d.out;
      returns =
          ground (arith, ap (λ m. fill s.cells start m (blank_in s.fg s.bg)) times, d.returns);
      size = d.size ∙ v.size;
      elems = λ k c hk hc. ground (arith, d.elems (k * s.cols + c));
    }

pub mul-area : (s : Screen) → Grid s → mul s.cols s.rows ≡ s.rows * s.cols
mul-area s v = omega (arith, area-le s.rows s.cols v.rows_max v.cols_max)

pub mul-area' : (s : Screen) → Grid s → mul s.rows s.cols ≡ s.rows * s.cols
mul-area' s v = omega (arith, area-le s.rows s.cols v.rows_max v.cols_max)

-- A clear of all cells.
pub full_clear-Redraws :
    (s : Screen) (n : ℕ)
    → Grid s
    → n ≡ s.rows * s.cols
    → Redraws s (λ k c. some (blank_in s.fg s.bg)) (clear s 0 n n)
full_clear-Redraws s n v e =
    let d = clear-Redraws s 0 n n v (omega arith) (omega arith) e in
    record {
      out = d.out;
      returns = d.returns;
      size = d.size;
      elems = λ k c hk hc. ground (arith, d.elems k c hk hc, row_mono s.cols k s.rows hk);
    }
