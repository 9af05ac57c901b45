-- ===== src/Window/App.antt =====
-- cmd/pitviper/main.go: the event loop of `main`, one event at a time, on the variables that it
-- changes. The zoom is a float and its steps are parameters.
pub mod Steady
use pitviper.Base.{
  ℕ, Bool, true, false, not, ◌&&◌, ◌||◌, ◌==◌, if◌then◌else◌, Option, none, some, ◌>>=◌, List, [],
  ◌∷◌, ◌++◌, bytes_eq, codes,
}
use pitviper.Vterm.Screen.{Screen}
use pitviper.Vterm.Write.{write}
use pitviper.Vterm.Resize.{resize}
use pitviper.Vterm.View.{snapshot, scroll_by}
use pitviper.Window.Keys.{KeyCodes, KeyEvent, handle_scroll_key, write_key, paste_text}
use pitviper.Window.Selection.{
  Range, MouseSelection, press, drag, release, pixel_to_cell, selected_text,
}
use pitviper.Window.Events.{KeyAction, key_action, WheelAction, wheel_action, text_input, grid_size}

-- What the loop does not change: the key codes, the flags, whether SDL takes a text for the
-- clipboard, whether the TTF font is there, the steps of the zoom, and the number of lines for
-- which the compiled mod calls `pitviper_host_scroll`, if it does.
pub record Host (Zoom : Type 0) : Type 0 where
  pub keys : KeyCodes
  pub key_c : ℕ
  pub key_d : ℕ
  pub key_i : ℕ
  pub key_v : ℕ
  pub gfd_mode : Bool
  pub mod_scroll : Bool
  pub clipboard_takes : Bool
  pub shiny_available : Bool
  pub zoom_in : Zoom → Zoom
  pub zoom_out : Zoom → Zoom
  pub zoom_one : Zoom
  pub on_wheel_scroll : ℕ → Option ℕ

-- The variables; `clipboard` is the text that SDL has, if it gives one, and `sent` what was written
-- to the connection, in order.
pub record App (Zoom : Type 0) : Type 0 where
  pub running : Bool
  pub screen : Screen
  pub cols : ℕ
  pub rows : ℕ
  pub mouse : MouseSelection
  pub last_selected : List ℕ
  pub clipboard : Option (List ℕ)
  pub zoom : Zoom
  pub use_shiny : Bool
  pub district_pane : Bool
  pub sent : List (List ℕ)

-- The events that the loop reads, and the bytes that the other goroutine writes to the screen. The
-- wheel comes with whether Ctrl is held.
pub data Input : Type 0 where
  quit : Input
  resized : ℕ → ℕ → Input
  key_down : KeyEvent → Input
  left_pressed : ℕ → ℕ → Input
  left_released : Input
  middle_pressed : Input
  wheel : Bool → ℕ → Input
  motion : ℕ → ℕ → Input
  typed : List ℕ → Input
  shows : List ℕ → Input

module _ {Zoom : Type 0} (host : Host Zoom) where
  unfoldable pub send : App Zoom → List ℕ → App Zoom
  send a bytes = record a { sent = a.sent ++ bytes ∷ [] }

  -- `sdl.SetClipboardText`, whose error is ignored.
  unfoldable pub set_clipboard : App Zoom → List ℕ → App Zoom
  set_clipboard a text = if host.clipboard_takes then record a { clipboard = some text } else a

  -- A copy of a text, unless it is empty.
  unfoldable pub copy_text : App Zoom → List ℕ → App Zoom
  copy_text a text = if bytes_eq text [] then a else set_clipboard a text

  -- The text of the clipboard, or else another one, pasted unless it is empty.
  unfoldable pub paste_or : App Zoom → List ℕ → App Zoom
  paste_or a other = elim a.clipboard [
    | none ↦ if bytes_eq other [] then a else send a (paste_text other)
    | some text ↦
        if not (bytes_eq text [])
        then send a (paste_text text)
        else if bytes_eq other []
        then a
        else send a (paste_text other)
  ]

  -- A new size of the window, if it is one of the grid.
  unfoldable pub window_size : App Zoom → ℕ → ℕ → Option (App Zoom)
  window_size a w h =
      let (cols, rows) : ℕ × ℕ = grid_size w h in
      if not (cols == a.cols) || not (rows == a.rows)
      then (do
        t ← resize a.screen cols rows
        some (record a { cols = cols; rows = rows; screen = t }))
      else some a

  -- A key that is no command of the window: it scrolls the view, or is sent if it has bytes.
  unfoldable pub type_key : App Zoom → KeyEvent → App Zoom
  type_key a e =
      let (t, handled) : Screen × Bool = handle_scroll_key host.keys a.screen e in
      let b : App Zoom = record a { screen = t } in
      let bytes : List ℕ = write_key host.keys e in
      if handled then b else if bytes_eq bytes [] then b else send b bytes

  unfoldable pub do_key : App Zoom → KeyEvent → KeyAction → App Zoom
  do_key a e KeyAction.toggle_district_pane = record a { district_pane = not a.district_pane }
  do_key a e KeyAction.zoom_in = record a { zoom = host.zoom_in a.zoom }
  do_key a e KeyAction.zoom_out = record a { zoom = host.zoom_out a.zoom }
  do_key a e KeyAction.zoom_reset = record a { zoom = host.zoom_one }
  do_key a e KeyAction.toggle_shiny_font =
      if host.shiny_available then record a { use_shiny = not a.use_shiny } else a
  do_key a e KeyAction.open_ssh = send a (codes "ssh iduna.farthq.com\r\n")
  do_key a e KeyAction.copy_selection = copy_text a a.last_selected
  do_key a e KeyAction.paste_clipboard = paste_or a []
  do_key a e KeyAction.terminal_key = type_key a e

  -- The end of a drag: the selected text is kept and copied.
  unfoldable pub select_text : App Zoom → Option Range → Option (App Zoom)
  select_text a none = some a
  select_text a (some range) = do
    view ← snapshot a.screen
    text ← selected_text view range
    some (copy_text (record a { last_selected = text }) text)

  -- `pitviper_host_scroll` of internal/scrollmod, if the compiled mod has called it: the callback
  -- is `ScrollBy`.
  unfoldable pub host_scroll : App Zoom → Option ℕ → App Zoom
  host_scroll a none = a
  host_scroll a (some n) = record a { screen = scroll_by a.screen n }

  unfoldable pub do_wheel : App Zoom → WheelAction → App Zoom
  do_wheel a WheelAction.wheel_zoom_in = record a { zoom = host.zoom_in a.zoom }
  do_wheel a WheelAction.wheel_zoom_out = record a { zoom = host.zoom_out a.zoom }
  do_wheel a (WheelAction.wheel_scroll delta) = host_scroll a (host.on_wheel_scroll delta)
  do_wheel a WheelAction.wheel_nothing = a

  -- One event, or one write of the other goroutine.
  unfoldable pub handle_input : App Zoom → Input → Option (App Zoom)
  handle_input a Input.quit = some (record a { running = false })
  handle_input a (Input.resized w h) = window_size a w h
  handle_input a (Input.key_down e) = some (
      do_key a e (key_action host.keys host.key_c host.key_d host.key_i host.key_v host.gfd_mode e))
  handle_input a (Input.left_pressed x y) =
      let (col, row) : ℕ × ℕ = pixel_to_cell x y in
      some (record a { mouse = press a.mouse row col })
  handle_input a Input.left_released =
      let (m, range) : MouseSelection × Option Range = release a.mouse in
      select_text (record a { mouse = m }) range
  handle_input a Input.middle_pressed = some (paste_or a a.last_selected)
  handle_input a (Input.wheel ctrl y) = some (do_wheel a (wheel_action ctrl host.mod_scroll y))
  handle_input a (Input.motion x y) =
      let (col, row) : ℕ × ℕ = pixel_to_cell x y in some (record a { mouse = drag a.mouse row col })
  handle_input a (Input.typed text) = some (send (record a { screen = text_input a.screen }) text)
  handle_input a (Input.shows bytes) = do t ← write a.screen bytes; some (record a { screen = t })

  unfoldable pub run_inputs : App Zoom → List Input → Option (App Zoom)
  run_inputs a [] = some a
  run_inputs a (i ∷ is) = handle_input a i >>= λ b. run_inputs b is
