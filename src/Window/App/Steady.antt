-- ===== src/Window/App/Steady.antt =====
-- The event loop and the reader keep the screen steady.
use pitviper.Base.{
  ℕ, ◌≤◌, ◌<◌, ◌^◌, Bool-cases, ◌==◌, Option, none, some, ◌>>=◌, List, [], ◌∷◌, inl, inr, slt, ◌≡◌,
  refl, sym, ap, arith, Returns, Returns->>=, Returns-self, if_cases, if◌then◌else◌, bytes_eq,
}
use mathlib.Core.Path.{subst}
use pitviper.Vterm.Screen.{Screen}
use pitviper.Vterm.Valid.{IsValid}
use pitviper.Vterm.Write.{write}
use pitviper.Vterm.Write.Escapes.{IsSteady, IsCalm, write-IsSteady}
use pitviper.Vterm.View.{Snapshot, snapshot, scroll_by, scroll_reset}
use pitviper.Vterm.View.Live.{snapshot-live}
use pitviper.Vterm.View.History.{snapshot-ShowsBack}
use pitviper.Window.Keys.{KeyCodes, KeyEvent, handle_scroll_key, write_key}
use pitviper.Window.Keys.Scrolling.{
  scroll_by-IsValid, scroll_reset-IsValid, handle_scroll_key-IsValid,
}
use pitviper.Window.Selection.{Range, release, selected_text}
use pitviper.Window.Selection.Inside.{IsView, IsNear, selected_text-Returns}
use pitviper.Window.Events.{KeyAction, key_action, WheelAction, wheel_action, text_input, grid_size}
use pitviper.Window.App.{
  Host, App, Input, send, set_clipboard, copy_text, paste_or, window_size, type_key, do_key,
  select_text, host_scroll, do_wheel, handle_input, run_inputs,
}

-- A range on the rows of a screen and on its columns or the one right of them.
pub record OnScreen (s : Screen) (x : Range) : Type 0 where
  pub r1_in : x.r1 < s.rows
  pub r2_in : x.r2 < s.rows
  pub c1_near : x.c1 ≤ s.cols
  pub c2_near : x.c2 ≤ s.cols

-- A view of a screen has its size.
abbrev Views : Screen → Snapshot → Type 0
Views s v = IsView v × (v.rows ≡ s.rows) × (v.cols ≡ s.cols)

snapshot-Views : (s : Screen) → IsValid s → Returns (Views s) (snapshot s)
snapshot-Views s v = elim (Bool-cases (s.scroll_top == 0)) [
  | inl e ↦ rw (snapshot-live s v (ground arith)) (ground (arith, v), refl, refl)
  | inr e ↦
      let d = snapshot-ShowsBack s v (ground arith) in
      rw d.returns (ground (arith, v, d.size), refl, refl)
]

-- Another view of a steady screen.
viewed-IsSteady :
    (s t : Screen) → IsSteady s → IsValid t → t.esc ≡ s.esc → t.utf8_len ≡ s.utf8_len → IsSteady t
viewed-IsSteady s t (v, low, apart) w e u = (w, omega (arith, u), ground (arith, e, u))

scroll_by-IsSteady : (s : Screen) (n : ℕ) → n < 2 ^ 64 → IsSteady s → IsSteady (scroll_by s n)
unfolding scroll_by
scroll_by-IsSteady s n h r =
    viewed-IsSteady s (scroll_by s n) r (scroll_by-IsValid s n r.0 h).0 refl refl

text_input-IsSteady : (s : Screen) → IsSteady s → IsSteady (text_input s)
unfolding text_input scroll_reset
text_input-IsSteady s r =
    let reset : IsSteady (scroll_reset s) =
      viewed-IsSteady s (scroll_reset s) r (scroll_reset-IsValid s r.0) refl refl in
    elim (Bool-cases (slt 0 s.scroll_top)) [ inl e ↦ rw e reset | inr e ↦ rw e r ]

scroll_key-IsSteady :
    (k : KeyCodes) (s : Screen) (e : KeyEvent) → IsSteady s → IsSteady (handle_scroll_key k s e).0
unfolding handle_scroll_key scroll_by scroll_reset
scroll_key-IsSteady k s e r =
    viewed-IsSteady s (handle_scroll_key k s e).0 r (handle_scroll_key-IsValid k s e r.0).0
      (ground arith) (ground arith)

module _ {Zoom : Type 0} (host : Host Zoom) where
  -- What an input must be: a window size that leaves the grid as it is, the end of a drag on the
  -- screen, and bytes whose control sequences end well; any other input may be anything.
  abbrev pub IsFit : App Zoom → Input → Type 0
  IsFit a (Input.resized w h) = grid_size w h ≡ (a.cols, a.rows)
  IsFit a Input.left_released = (x : Range) → (release a.mouse).1 ≡ some x → OnScreen a.screen x
  IsFit a (Input.shows bytes) = IsCalm a.screen bytes
  IsFit a Input.quit = Unit {0}
  IsFit a (Input.key_down e) = Unit {0}
  IsFit a (Input.left_pressed x y) = Unit {0}
  IsFit a Input.middle_pressed = Unit {0}
  IsFit a (Input.wheel ctrl y) = Unit {0}
  IsFit a (Input.motion x y) = Unit {0}
  IsFit a (Input.typed text) = Unit {0}

  -- Each input is fit for the state that it meets.
  abbrev pub AllFit : App Zoom → List Input → Type 0
  AllFit a [] = Unit {0}
  AllFit a (i ∷ is) = IsFit a i × ((b : App Zoom) → handle_input host a i ≡ some b → AllFit b is)

module _ {Zoom : Type 0} (host : Host Zoom)
    (word : (d n : ℕ) → host.on_wheel_scroll d ≡ some n → n < 2 ^ 64) where
  abbrev IsSound : App Zoom → Type 0
  IsSound a = IsSteady a.screen

  copied : (a : App Zoom) (text : List ℕ) → (copy_text host a text).screen ≡ a.screen
  unfolding copy_text set_clipboard
  copied a text = ground arith

  pasted : (a : App Zoom) (other : List ℕ) → (paste_or host a other).screen ≡ a.screen
  unfolding paste_or send
  pasted a other = ground arith

  type_key-IsSound : (a : App Zoom) (e : KeyEvent) → IsSound a → IsSound (type_key host a e)
  unfolding type_key send
  type_key-IsSound a e r =
      let b : App Zoom = record a { screen = (handle_scroll_key host.keys a.screen e).0 } in
      let bytes : List ℕ = write_key host.keys e in
      let sound : IsSound b = scroll_key-IsSteady host.keys a.screen e r in
      if_cases IsSound (handle_scroll_key host.keys a.screen e).1 b
        (if bytes_eq bytes [] then b else send host b bytes) sound
        (if_cases IsSound (bytes_eq bytes []) b (send host b bytes) sound sound)

  do_key-IsSound :
      (a : App Zoom) (e : KeyEvent) (k : KeyAction) → IsSound a → IsSound (do_key host a e k)
  unfolding do_key send
  do_key-IsSound a e KeyAction.toggle_district_pane r = r
  do_key-IsSound a e KeyAction.zoom_in r = r
  do_key-IsSound a e KeyAction.zoom_out r = r
  do_key-IsSound a e KeyAction.zoom_reset r = r
  do_key-IsSound a e KeyAction.toggle_shiny_font r = elim (Bool-cases host.shiny_available) [
    | inl h ↦ rw h r
    | inr h ↦ rw h r
  ]
  do_key-IsSound a e KeyAction.open_ssh r = r
  do_key-IsSound a e KeyAction.copy_selection r = subst IsSteady (sym (copied a a.last_selected)) r
  do_key-IsSound a e KeyAction.paste_clipboard r = subst IsSteady (sym (pasted a [])) r
  do_key-IsSound a e KeyAction.terminal_key r = type_key-IsSound a e r

  host_scroll-IsSound :
      (a : App Zoom) (o : Option ℕ)
      → IsSound a
      → ((n : ℕ) → o ≡ some n → n < 2 ^ 64)
      → IsSound (host_scroll host a o)
  unfolding host_scroll
  host_scroll-IsSound a none r h = r
  host_scroll-IsSound a (some n) r h = scroll_by-IsSteady a.screen n (h n refl) r

  do_wheel-IsSound : (a : App Zoom) (w : WheelAction) → IsSound a → IsSound (do_wheel host a w)
  unfolding do_wheel
  do_wheel-IsSound a WheelAction.wheel_zoom_in r = r
  do_wheel-IsSound a WheelAction.wheel_zoom_out r = r
  do_wheel-IsSound a (WheelAction.wheel_scroll d) r =
      host_scroll-IsSound a (host.on_wheel_scroll d) r (λ n. word d n)
  do_wheel-IsSound a WheelAction.wheel_nothing r = r

  select_text-IsSound :
      (a : App Zoom) (range : Option Range)
      → IsSound a
      → ((x : Range) → range ≡ some x → OnScreen a.screen x)
      → Returns IsSound (select_text host a range)
  unfolding select_text
  select_text-IsSound a none r on = r
  select_text-IsSound a (some x) r on =
      Returns->>= (Views a.screen) IsSound (snapshot a.screen)
        (λ view. selected_text view x >>= λ text.
          some (copy_text host (record a { last_selected = text }) text))
        (snapshot-Views a.screen r.0)
        (λ view k.
          Returns->>= (λ t. Unit {0}) IsSound (selected_text view x)
            (λ text. some (copy_text host (record a { last_selected = text }) text))
            (selected_text-Returns view x k.0 (near view k (on x refl)))
            (λ text u. subst IsSteady (sym (copied (record a { last_selected = text }) text)) r))
    where
      near : (view : Snapshot) → Views a.screen view → OnScreen a.screen x → IsNear view x
      near view k o = record {
        r1_in = omega (arith, k.1, o.r1_in);
        r2_in = omega (arith, k.1, o.r2_in);
        c1_near = omega (arith, k.2, o.c1_near);
        c2_near = omega (arith, k.2, o.c2_near);
      }

  same_size :
      (a : App Zoom) (w h : ℕ) → grid_size w h ≡ (a.cols, a.rows) → window_size host a w h ≡ some a
  unfolding window_size
  same_size a w h e =
      let cols : (grid_size w h).0 ≡ a.cols = ap (λ (p : ℕ × ℕ). p.0) e in
      let rows : (grid_size w h).1 ≡ a.rows = ap (λ (p : ℕ × ℕ). p.1) e in
      ground (arith, cols, rows)

  handle_input-IsSound :
      (a : App Zoom) (i : Input)
      → IsSound a
      → IsFit host a i
      → Returns IsSound (handle_input host a i)
  unfolding handle_input send
  handle_input-IsSound a Input.quit r fit = r
  handle_input-IsSound a (Input.resized w h) r fit = rw (same_size a w h fit) r
  handle_input-IsSound a (Input.key_down e) r fit =
      do_key-IsSound a e
        (key_action host.keys host.key_c host.key_d host.key_i host.key_v host.gfd_mode e) r
  handle_input-IsSound a (Input.left_pressed x y) r fit = r
  handle_input-IsSound a Input.left_released r fit =
      select_text-IsSound (record a { mouse = (release a.mouse).0 }) (release a.mouse).1 r fit
  handle_input-IsSound a Input.middle_pressed r fit =
      subst IsSteady (sym (pasted a a.last_selected)) r
  handle_input-IsSound a (Input.wheel ctrl y) r fit =
      do_wheel-IsSound a (wheel_action ctrl host.mod_scroll y) r
  handle_input-IsSound a (Input.motion x y) r fit = r
  handle_input-IsSound a (Input.typed text) r fit = text_input-IsSteady a.screen r
  handle_input-IsSound a (Input.shows bytes) r fit =
      Returns->>= IsSteady IsSound (write a.screen bytes) (λ t. some (record a { screen = t }))
        (write-IsSteady a.screen bytes r fit) (λ t k. k)

  -- The event loop and the goroutine that writes to the screen, in any order of their events and
  -- writes, from a steady screen: nothing panics, and the screen is steady again. The conditions,
  -- each on the state that an event meets, are that a new size of the window is the one that the
  -- grid has, that a drag ends on rows of the grid and on its columns or the one right of them,
  -- that the control sequences of the output end well, and that the mod asks for a number of lines
  -- that is a word.
  pub run_inputs-IsSteady :
      (a : App Zoom) (is : List Input)
      → IsSteady a.screen
      → AllFit host a is
      → Returns (λ b. IsSteady b.screen) (run_inputs host a is)
  unfolding run_inputs
  run_inputs-IsSteady a [] r fit = r
  run_inputs-IsSteady a (i ∷ is) r fit =
      Returns->>= (λ b. IsSound b × (handle_input host a i ≡ some b)) IsSound
        (handle_input host a i) (λ b. run_inputs host b is)
        (Returns-self (handle_input host a i) IsSound (handle_input-IsSound a i r fit.0))
        (λ b k. run_inputs-IsSteady b is k.0 (fit.1 b k.1))
