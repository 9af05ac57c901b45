-- ===== src/Window/Keys/Scrolling.antt =====
-- The keys that scroll the view keep it inside the scrollback.
use pitviper.Base.{
  ℕ, ◌+◌, ◌≤◌, ◌<◌, ◌≡◌, ◌^◌, arith, Bool, true, false, ◌&&◌, ◌||◌, ◌==◌, IsSmall, sub, min, ◌-◌,
}
use pitviper.Scrollback.{len, max_scrollback}
use pitviper.Vterm.Screen.{Screen}
use pitviper.Vterm.Valid.{IsValid}
use pitviper.Vterm.View.{scroll_by, scroll_reset}
use pitviper.Window.Keys.{KeyCodes, KeyEvent, handle_scroll_key}

-- The view of a screen at another offset into its scrollback.
viewed-IsValid :
    (s : Screen) (top : ℕ) → IsValid s → top ≤ s.sb.count → IsValid (record s { scroll_top = top })
viewed-IsValid s top v h = ground arith

-- `ScrollBy(n)` on a valid screen, at any word `n`, leaves a valid screen: the view stays inside
-- the scrollback. Up by `n` below 2 ^ 62 it stops at the oldest line, and down by `n` at the live
-- view.
pub scroll_by-IsValid :
    (s : Screen) (n : ℕ)
    → IsValid s
    → n < 2 ^ 64
    → IsValid (scroll_by s n)
      × (IsSmall n → (scroll_by s n).scroll_top ≡ min (s.scroll_top + n) s.sb.count)
      × (IsSmall n → (scroll_by s (sub 0 n)).scroll_top ≡ s.scroll_top - n)
unfolding scroll_by len
scroll_by-IsValid s n v h = (
  ground (arith, v.sb_valid),
  λ small. ground (arith, v.sb_valid),
  λ small. ground (arith, v.sb_valid),
)

pub scroll_reset-IsValid : (s : Screen) → IsValid s → IsValid (scroll_reset s)
unfolding scroll_reset
scroll_reset-IsValid s v = viewed-IsValid s 0 v (omega arith)

-- The keys that `handleScrollKey` consumes.
abbrev pub is_scroll_key : KeyCodes → KeyEvent → Bool
is_scroll_key k e =
    e.shift && (e.sym == k.page_up || e.sym == k.page_down || e.sym == k.home || e.sym == k.end)

-- A key on a valid screen leaves a valid screen; it is consumed where Shift is held with page up,
-- page down, home or end. Any other key with Shift brings back the live view.
pub handle_scroll_key-IsValid :
    (k : KeyCodes) (s : Screen) (e : KeyEvent)
    → IsValid s
    → IsValid (handle_scroll_key k s e).0
      × ((handle_scroll_key k s e).1 ≡ is_scroll_key k e)
      × (e.shift ≡ true → is_scroll_key k e ≡ false → (handle_scroll_key k s e).0.scroll_top ≡ 0)
unfolding handle_scroll_key scroll_reset max_scrollback
handle_scroll_key-IsValid k s e v =
    let up = scroll_by-IsValid s 25 v (omega arith) in
    let down = scroll_by-IsValid s (sub 0 25) v (omega arith) in
    let top = scroll_by-IsValid s max_scrollback v max_scrollback-word in
    let live = scroll_reset-IsValid s v in
    (
      ground (arith, v, up.0, down.0, top.0, live),
      ground arith,
      ground (arith, v.view_in, v.sb_valid),
    )
  where
    max_scrollback-word : max_scrollback < 2 ^ 64
    max_scrollback-word = omega arith
