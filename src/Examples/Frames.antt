-- ===== src/Examples/Frames.antt =====
-- The theorems on views and on resizing, at concrete inputs.
use pitviper.Base.{◌≡◌, refl, arith, none, some, [], ◌∷◌, ltb, ◌&&◌, if◌then◌else◌, ◌>>=◌, Returns}
use pitviper.Vterm.Cell.{blank}
use pitviper.Vterm.Screen.{Screen}
use pitviper.Vterm.Valid.{IsValid, screen_at}
use pitviper.Vterm.View.{Snapshot, snapshot}
use pitviper.Vterm.View.Rows.{view_cell}
use pitviper.Vterm.View.History.{ShowsBack, snapshot-ShowsBack}
use pitviper.Vterm.Write.{write}
use pitviper.Vterm.Resize.{resize}
use pitviper.Vterm.Resize.Copied.{Resizes, resize-Resizes}
use pitviper.Vterm.Resize.Shrunk.{resize-panics}
use pitviper.Window.Selection.{Range, selected_text}
use pitviper.Window.Selection.Inside.{IsView, IsNear, selected_text-Returns}
use pitviper.Window.Selection.Outside.{selected_text-panics_below}
use pitviper.Examples.Fixtures.{tiny, tiny-IsValid}

-- `tiny`, scrolled back by its one saved line.
abbrev back_one : Screen
back_one = record tiny { scroll_top = 1 }

back_one-IsValid : IsValid back_one
back_one-IsValid = ground (arith, tiny-IsValid)

snapshot-ShowsBack_example : ShowsBack back_one (view_cell back_one) (snapshot back_one)
snapshot-ShowsBack_example = snapshot-ShowsBack back_one back_one-IsValid (omega arith)

resize-Resizes_example :
    Resizes tiny 2 5
      (λ k c. if ltb k 2 && ltb c 3 then screen_at tiny k c else some blank)
      (resize tiny 2 5)
resize-Resizes_example =
    resize-Resizes tiny tiny-IsValid 2 5 (omega arith) (omega arith) (omega arith) (omega arith)
      refl

resize-panics_example : (resize tiny 3 1 >>= λ t. write t (b'\n' ∷ b'x' ∷ [])) ≡ none
resize-panics_example =
    resize-panics tiny 1 b'x' tiny-IsValid refl refl refl (omega arith) (omega arith) (omega arith)
      (omega arith) (omega arith) (omega arith)

abbrev pub tiny_view : Snapshot
tiny_view = record { cells = tiny.cells; cols = 3; rows = 2; cur_row = 1; cur_col = 1 }

pub tiny_view-IsView : IsView tiny_view
tiny_view-IsView = record {
  rows_pos = omega arith;
  rows_max = omega arith;
  cols_pos = omega arith;
  cols_max = omega arith;
  size = refl;
}

-- Drawn upwards, from the right border.
abbrev pub upwards : Range
upwards = record { r1 = 1; c1 = 3; r2 = 0; c2 = 1 }

pub upwards-IsNear : IsNear tiny_view upwards
upwards-IsNear = record {
  r1_in = omega arith;
  r2_in = omega arith;
  c1_near = omega arith;
  c2_near = omega arith;
}

selected_text-Returns_example : Returns (λ l. Unit {0}) (selected_text tiny_view upwards)
selected_text-Returns_example =
    selected_text-Returns tiny_view upwards tiny_view-IsView upwards-IsNear

-- From the last column of the last row to the left, below the grid.
abbrev below_range : Range
below_range = record { r1 = 1; c1 = 2; r2 = 2; c2 = 0 }

selected_text-panics_below_example : selected_text tiny_view below_range ≡ none
selected_text-panics_below_example =
    selected_text-panics_below tiny_view below_range (omega arith) (omega arith) (omega arith)
      (omega arith) refl (omega arith) (omega arith)
