-- ===== src/Window/Events.antt =====
-- cmd/pitviper/main.go: what the event loop does on a new window size, a key and the wheel.
use pitviper.Base.{ℕ, Bool, not, ◌&&◌, ◌||◌, ◌==◌, if◌then◌else◌, Option, slt, quot, mul}
use pitviper.Vterm.Screen.{Screen}
use pitviper.Vterm.Resize.{resize}
use pitviper.Vterm.View.{scroll_reset}
use pitviper.Font.{glyph_w, glyph_h}
use pitviper.Window.Keys.{KeyCodes, KeyEvent}

-- The columns and rows that fit a window of the given size, one at least.
unfoldable pub grid_size : ℕ → ℕ → ℕ × ℕ
grid_size w h =
    let cols : ℕ = quot w glyph_w in
    let rows : ℕ = quot h glyph_h in
    ((if slt cols 1 then 1 else cols), (if slt rows 1 then 1 else rows))

-- `WINDOWEVENT_RESIZED`
unfoldable pub window_resized : Screen → ℕ → ℕ → Option Screen
window_resized s w h = let (cols, rows) = grid_size w h in resize s cols rows

-- What a key event does.
pub data KeyAction : Type 0 where
  toggle_district_pane : KeyAction
  zoom_in : KeyAction
  zoom_out : KeyAction
  zoom_reset : KeyAction
  toggle_shiny_font : KeyAction
  open_ssh : KeyAction
  copy_selection : KeyAction
  paste_clipboard : KeyAction
  terminal_key : KeyAction

-- The chain of tests on `KEYDOWN`; the last case goes on with `handleScrollKey` and `writeKey`.
module _ (k : KeyCodes) (key_c key_d key_i key_v : ℕ) where
  unfoldable pub key_action : Bool → KeyEvent → KeyAction
  key_action gfd_mode e =
      if gfd_mode && e.sym == key_d && e.ctrl
      then toggle_district_pane
      else if e.ctrl && (e.sym == k.equals || e.sym == k.kp_plus)
      then zoom_in
      else if e.ctrl && (e.sym == k.minus || e.sym == k.kp_minus)
      then zoom_out
      else if e.ctrl && e.sym == k.digit_0
      then zoom_reset
      else if e.sym == k.f11
      then toggle_shiny_font
      else if not gfd_mode && e.sym == key_i && e.ctrl && e.alt
      then open_ssh
      else if e.ctrl && e.shift && e.sym == key_c
      then copy_selection
      else if e.ctrl && e.shift && e.sym == key_v
      then paste_clipboard
      else terminal_key

-- What the wheel does, `y` ticks.
pub data WheelAction : Type 0 where
  wheel_zoom_in : WheelAction
  wheel_zoom_out : WheelAction
  wheel_scroll : ℕ → WheelAction
  wheel_nothing : WheelAction

unfoldable pub wheel_action : Bool → Bool → ℕ → WheelAction
wheel_action ctrl mod_scroll y =
    if ctrl
    then (if slt 0 y then wheel_zoom_in else if slt y 0 then wheel_zoom_out else wheel_nothing)
    else if mod_scroll && not (y == 0)
    then wheel_scroll (mul y 3)
    else wheel_nothing

-- `TextInputEvent`: typing brings back the live view.
unfoldable pub text_input : Screen → Screen
text_input s = if slt 0 s.scroll_top then scroll_reset s else s
