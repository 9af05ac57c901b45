-- ===== src/Examples/Session.antt =====
-- The theorem on the event loop, at a concrete run.
use pitviper.Base.{
  ℕ, ◌+◌, ◌<◌, ◌^◌, true, false, ◌≡◌, refl, arith, none, some, List, [], ◌∷◌, Returns, codes, sym,
  ◌∙◌,
}
use pitviper.Vterm.Write.Escapes.{IsSteady}
use pitviper.Window.Keys.{KeyCodes}
use pitviper.Window.Selection.{
  Range, pixel_to_cell, press, drag, release, in_order, read_row, trim_right, selected_row,
  selected_rows, selected_text,
}
use pitviper.Vterm.View.{snapshot}
use pitviper.Slice.{load, slice, copy_into, overwrite}
use pitviper.Vterm.Screen.{make_cells}
use mathlib.Core.Path.{subst}
use pitviper.Window.Events.{grid_size}
use pitviper.Window.App.{
  Host, App, Input, set_clipboard, copy_text, window_size, select_text, handle_input, run_inputs,
}
use pitviper.Window.App.Steady.{OnScreen, IsFit, AllFit, run_inputs-IsSteady}
use pitviper.Examples.Fixtures.{tiny}
use pitviper.Examples.Text.{tiny-IsSteady, escape, escape-IsCalm}

abbrev codes_1_to_22 : KeyCodes
codes_1_to_22 = record {
  enter = 1;
  kp_enter = 2;
  backspace = 3;
  tab_key = 4;
  escape = 5;
  up = 6;
  down = 7;
  right = 8;
  left = 9;
  home = 10;
  end = 11;
  page_up = 12;
  page_down = 13;
  delete = 14;
  equals = 15;
  kp_plus = 16;
  minus = 17;
  kp_minus = 18;
  f11 = 19;
  digit_0 = 20;
  letter_a = 21;
  letter_z = 22;
}

-- The zoom counts tenths, and the mod scrolls one line.
abbrev host : Host ℕ
host = record {
  keys = codes_1_to_22;
  key_c = 23;
  key_d = 24;
  key_i = 25;
  key_v = 26;
  gfd_mode = false;
  mod_scroll = true;
  clipboard_takes = true;
  shiny_available = false;
  zoom_in = λ z. z + 1;
  zoom_out = λ z. z;
  zoom_one = 10;
  on_wheel_scroll = λ d. some 1;
}

one_line-word : (d n : ℕ) → host.on_wheel_scroll d ≡ some n → n < 2 ^ 64
one_line-word d n e = ground (arith, e)

abbrev app : App ℕ
app = record {
  running = true;
  screen = tiny;
  cols = 3;
  rows = 2;
  mouse = record {
    active = false;
    start_row = 0;
    start_col = 0;
    end_row = 0;
    end_col = 0;
    have_selection = false;
  };
  last_selected = [];
  clipboard = none;
  zoom = 10;
  use_shiny = false;
  district_pane = false;
  sent = [];
}

-- The end of a drag, a window of the same grid, and output.
abbrev at_end : List Input
at_end = Input.left_released ∷ Input.resized 30 27 ∷ Input.shows escape ∷ []

-- A drag over the first row before that.
abbrev inputs : List Input
inputs = Input.left_pressed 0 0 ∷ Input.motion 9 0 ∷ at_end

abbrev pressed : App ℕ
pressed = record app { mouse = record app.mouse { active = true } }

abbrev dragged : App ℕ
dragged = record app {
  mouse = record app.mouse { active = true; end_col = 1; have_selection = true };
}

abbrev copied : App ℕ
copied = record app {
  mouse = record app.mouse { end_col = 1; have_selection = true };
  last_selected = codes "ab";
  clipboard = some (codes "ab");
}

AllFit-step :
    (a b : App ℕ) (i : Input) (is : List Input)
    → IsFit host a i
    → handle_input host a i ≡ some b
    → AllFit host b is
    → AllFit host a (i ∷ is)
AllFit-step a b i is fit e rest =
    (fit, λ t k. subst (λ x. AllFit host x is) (got t (sym e ∙ k)) rest)
  where
    got : (t : App ℕ) → some b ≡ some t → b ≡ t
    got t h = cc

row_range : (x : Range) → (release dragged.mouse).1 ≡ some x → OnScreen tiny x
unfolding release
row_range x e = ground (arith, e)

let_go : handle_input host dragged Input.left_released ≡ some copied
unfolding handle_input load release select_text copy_text set_clipboard selected_text selected_rows
    selected_row in_order read_row trim_right snapshot make_cells copy_into slice overwrite
let_go = refl

inputs-AllFit : AllFit host app inputs
unfolding handle_input press drag window_size grid_size pixel_to_cell
inputs-AllFit =
    AllFit-step app pressed (Input.left_pressed 0 0) (Input.motion 9 0 ∷ at_end) tt refl (
      AllFit-step pressed dragged (Input.motion 9 0) at_end tt refl (
        AllFit-step dragged copied Input.left_released
          (Input.resized 30 27 ∷ Input.shows escape ∷ []) row_range let_go
          (AllFit-step copied copied (Input.resized 30 27) (Input.shows escape ∷ []) refl refl
            (escape-IsCalm, λ b e. tt))))

run_inputs-IsSteady_example : Returns (λ b. IsSteady b.screen) (run_inputs host app inputs)
run_inputs-IsSteady_example =
    run_inputs-IsSteady host one_line-word app inputs tiny-IsSteady inputs-AllFit
