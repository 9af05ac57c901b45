-- ===== src/Window/Keys.antt =====
-- cmd/pitviper/main.go: `handleScrollKey`, `writeKey` and `pasteText`. The codes of the keys are
-- SDL's and a parameter.
pub mod Scrolling
use pitviper.Base.{
  ℕ, ◌+◌, ◌-◌, Bool, true, false, ◌&&◌, ◌||◌, leb, ◌==◌, if◌then◌else◌, List, [], ◌∷◌, map, slt,
  sub,
}
use pitviper.Scrollback.{max_scrollback}
use pitviper.Vterm.Screen.{Screen}
use pitviper.Vterm.View.{scroll_by, scroll_reset}

-- The `sdl.K_...` constants that the code names.
pub record KeyCodes : Type 0 where
  pub enter : ℕ
  pub kp_enter : ℕ
  pub backspace : ℕ
  pub tab_key : ℕ
  pub escape : ℕ
  pub up : ℕ
  pub down : ℕ
  pub right : ℕ
  pub left : ℕ
  pub home : ℕ
  pub end : ℕ
  pub page_up : ℕ
  pub page_down : ℕ
  pub delete : ℕ
  pub equals : ℕ
  pub kp_plus : ℕ
  pub minus : ℕ
  pub kp_minus : ℕ
  pub f11 : ℕ
  pub digit_0 : ℕ
  pub letter_a : ℕ
  pub letter_z : ℕ

-- `e.Keysym`: the key, and which of the modifiers are set in `Mod`.
pub record KeyEvent : Type 0 where
  pub sym : ℕ
  pub ctrl : Bool
  pub shift : Bool
  pub alt : Bool

-- `defaultRows`
abbrev pub default_rows : ℕ
default_rows = 50

module _ (k : KeyCodes) where
  -- `handleScrollKey`: the screen, and whether the key is consumed.
  unfoldable pub handle_scroll_key : Screen → KeyEvent → Screen × Bool
  handle_scroll_key s e =
      if e.shift
      then (if e.sym == k.page_up
          then (scroll_by s 25, true)
          else if e.sym == k.page_down
          then (scroll_by s (sub 0 25), true)
          else if e.sym == k.home
          then (scroll_by s max_scrollback, true)
          else if e.sym == k.end
          then (scroll_reset s, true)
          else (if slt 0 s.scroll_top then scroll_reset s else s, false))
      else (s, false)

  -- `writeKey`: the bytes that are sent.
  unfoldable pub write_key : KeyEvent → List ℕ
  write_key e =
      if e.sym == k.enter || e.sym == k.kp_enter
      then b'\r' ∷ []
      else if e.sym == k.backspace
      then 0x7f ∷ []
      else if e.sym == k.tab_key
      then b'\t' ∷ []
      else if e.sym == k.escape
      then 0x1b ∷ []
      else if e.sym == k.up
      then 0x1b ∷ b'[' ∷ b'A' ∷ []
      else if e.sym == k.down
      then 0x1b ∷ b'[' ∷ b'B' ∷ []
      else if e.sym == k.right
      then 0x1b ∷ b'[' ∷ b'C' ∷ []
      else if e.sym == k.left
      then 0x1b ∷ b'[' ∷ b'D' ∷ []
      else if e.sym == k.home
      then 0x1b ∷ b'[' ∷ b'H' ∷ []
      else if e.sym == k.end
      then 0x1b ∷ b'[' ∷ b'F' ∷ []
      else if e.sym == k.page_up
      then 0x1b ∷ b'[' ∷ b'5' ∷ b'~' ∷ []
      else if e.sym == k.page_down
      then 0x1b ∷ b'[' ∷ b'6' ∷ b'~' ∷ []
      else if e.sym == k.delete
      then 0x1b ∷ b'[' ∷ b'3' ∷ b'~' ∷ []
      else if e.ctrl && leb k.letter_a e.sym && leb e.sym k.letter_z
      then (e.sym - k.letter_a + 1) ∷ []
      else []

-- `pasteText`: the bytes that are sent.
unfoldable pub paste_text : List ℕ → List ℕ
paste_text text = map (λ b. if b == b'\n' then b'\r' else b) text
