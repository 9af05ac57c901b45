-- ===== src/Vterm/Sgr.antt =====
-- internal/vterm/vterm.go: `handleSGR`, the colours and the weight of later characters.
use pitviper.Base.{
  ℕ, ◌+◌, ◌-◌, ◌%◌, ◌^◌, Bool, true, false, ◌&&◌, ◌||◌, leb, ◌==◌, if◌then◌else◌, List, [], ◌∷◌,
}
use pitviper.Vterm.Cell.{color_default}
use pitviper.Vterm.Screen.{Screen}

unfoldable pub reset_sgr : Screen → Screen
reset_sgr s = record s { fg = color_default; bg = color_default; bold = false }

-- `Color(n)`, a conversion to `uint16`.
abbrev pub to_color : ℕ → ℕ
to_color n = n % 2 ^ 16

abbrev in_range : ℕ → ℕ → ℕ → Bool
in_range lo hi n = leb lo n && leb n hi

-- One round of the loop at a parameter that takes no others. 38 and 48 do nothing here.
unfoldable pub sgr_one : Screen → ℕ → Screen
sgr_one s n =
    if n == 0
    then reset_sgr s
    else if n == 1
    then record s { bold = true }
    else if n == 22
    then record s { bold = false }
    else if in_range 30 37 n
    then record s { fg = n - 30 }
    else if n == 39
    then record s { fg = color_default }
    else if in_range 40 47 n
    then record s { bg = n - 40 }
    else if n == 49
    then record s { bg = color_default }
    else if in_range 90 97 n
    then record s { fg = n - 90 + 8 }
    else if in_range 100 107 n
    then record s { bg = n - 100 + 8 }
    else s

-- `38;5;c` and `48;5;c`
unfoldable pub sgr_extended : Screen → ℕ → ℕ → Screen
sgr_extended s n c = if n == 38 then record s { fg = to_color c } else record s { bg = to_color c }

unfoldable pub sgr_loop : Screen → List ℕ → Screen
sgr_loop s [] = s
sgr_loop s (n ∷ []) = sgr_one s n
sgr_loop s (n ∷ m ∷ []) = sgr_one (sgr_one s n) m
sgr_loop s (n ∷ m ∷ c ∷ ns) =
    let extended = sgr_loop (sgr_extended s n c) ns in
    let plain = sgr_loop (sgr_one s n) (m ∷ c ∷ ns) in
    if (n == 38 || n == 48) && m == 5 then extended else plain

unfoldable pub handle_sgr : Screen → List ℕ → Screen
handle_sgr s [] = reset_sgr s
handle_sgr s (n ∷ ns) = sgr_loop s (n ∷ ns)
