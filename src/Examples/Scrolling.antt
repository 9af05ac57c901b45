-- ===== src/Examples/Scrolling.antt =====
-- The theorems on the scrollback and on scrolling, at concrete inputs.
use pitviper.Base.{◌+◌, ◌-◌, arith, ltb, if◌then◌else◌, some, [], ◌∷◌, Returns}
use pitviper.Slice.Laws.{within}
use pitviper.Scrollback.{Scrollback, push}
use pitviper.Scrollback.Valid as Ring
use pitviper.Scrollback.History.{history, remember}
use pitviper.Vterm.Cell.{Cell, blank}
use pitviper.Vterm.Valid.{Keeps, Redraws, screen_at}
use pitviper.Vterm.Scroll.{scroll_up, scroll_down, scroll_up_full}
use pitviper.Vterm.Scroll.Laws.{scroll_down-Redraws}
use pitviper.Vterm.Scroll.Saved.{
  Saves, ScrollsFull, remember_rows, push-Saves, scroll_up_full-part, scroll_up-Keeps,
}
use pitviper.Examples.Fixtures.{letter, ring, tiny, tiny-IsValid}

-- A full ring of capacity 2, whose oldest line is its second.
abbrev full_ring : Scrollback Cell
full_ring = record { lines = (letter b'q' ∷ []) ∷ (letter b'p' ∷ []) ∷ []; head = 1; count = 2 }

full_ring-IsValid : Ring.IsValid full_ring
full_ring-IsValid = record { small = omega arith; head_in = omega arith; count_in = omega arith }

push-Saves_example :
    Saves full_ring
      (remember 2 (history full_ring) (letter b'r' ∷ []))
      (push full_ring (letter b'r' ∷ []))
push-Saves_example = push-Saves full_ring (letter b'r' ∷ []) full_ring-IsValid

scroll_up_full-part_example :
    ScrollsFull tiny
      (remember_rows 2 (history ring) 3 tiny.cells 0 1)
      (λ k c. if ltb (k + 1) 2 then screen_at tiny (k + 1) c else some blank)
      (scroll_up_full tiny 1)
scroll_up_full-part_example =
    scroll_up_full-part tiny 1 tiny-IsValid.grid (omega arith) (omega arith) (omega arith)

scroll_up-Keeps_example : Returns (Keeps tiny) (scroll_up tiny 1)
scroll_up-Keeps_example = scroll_up-Keeps tiny 1 tiny-IsValid.grid (omega arith) (omega arith)

scroll_down-Redraws_example :
    Redraws tiny
      (λ k c.
        if within 0 2 k
        then (if ltb k (0 + 1) then some blank else screen_at tiny (k - 1) c)
        else screen_at tiny k c)
      (scroll_down tiny 1)
scroll_down-Redraws_example =
    scroll_down-Redraws tiny 1 tiny-IsValid.grid (omega arith) (omega arith)
