-- ===== src/Scrollback.antt =====
-- internal/vterm/scrollback.go: the ring of saved lines. `head + count` stays below twice the
-- capacity, so the sums here are plain.
pub mod Valid
pub mod History
use pitviper.Base.{
  ℕ, ◌+◌, ◌%◌, ltb, slt, sle, ◌==◌, ◌||◌, if◌then◌else◌, Option, none, some, ◌>>=◌, List, [],
  length, replicate,
}
use pitviper.Slice.{load, store}

-- `MaxScrollback`
unfoldable pub max_scrollback : ℕ
max_scrollback = 10_000

pub record Scrollback (A : Type 0) : Type 0 where
  pub lines : List (List A)
  pub head : ℕ
  pub count : ℕ

module _ {A : Type 0} where
  -- A line that was never written is `nil`.
  unfoldable pub new_scrollback : ℕ → Scrollback A
  new_scrollback cap = record { lines = replicate cap []; head = 0; count = 0 }

  -- Go's `%` panics at a divisor of 0.
  unfoldable pub push : Scrollback A → List A → Option (Scrollback A)
  push sb line =
      if cap == 0
      then none
      else if ltb sb.count cap
      then (do
        lines ← store sb.lines ((sb.head + sb.count) % cap) line
        some (record sb { lines = lines; count = sb.count + 1 }))
      else (do
        lines ← store sb.lines sb.head line
        some (record sb { lines = lines; head = (sb.head + 1) % cap }))
    where
      cap : ℕ
      cap = length sb.lines

  -- `line(i)`; `i` is a word.
  unfoldable pub line : Scrollback A → ℕ → Option (List A)
  line sb i =
      if slt i 0 || sle sb.count i
      then some []
      else if length sb.lines == 0
      then none
      else load sb.lines ((sb.head + i) % length sb.lines)

  -- `Len`
  unfoldable pub len : Scrollback A → ℕ
  len sb = sb.count
