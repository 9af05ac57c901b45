-- ===== src/Examples/Text.antt =====
-- The theorems on written text and control sequences, at concrete inputs.
use pitviper.Base.{ℕ, ◌≡◌, refl, sym, ◌∙◌, arith, inl, some, List, [], ◌∷◌, ◌++◌, Returns, All}
use mathlib.Core.Path.{subst}
use pitviper.Slice.{slice}
use pitviper.Vterm.Screen.{Screen}
use pitviper.Vterm.Params.{parse_nums, parse_from, is_digit, num_or1}
use pitviper.Vterm.Csi.{handle_csi, csi_cells, csi_state}
use pitviper.Vterm.Csi.Cursor.{cursor_right}
use pitviper.Vterm.Escape.{end_esc, esc_osc, esc_csi, esc_dispatch, handle_esc}
use pitviper.Vterm.Escape.Safe.{EndsWell}
use pitviper.Vterm.Write.{plain_byte, flush_utf8, take_byte, write_byte, write}
use pitviper.Vterm.Write.Escapes.{IsSteady, IsCalm, write-IsSteady}
use pitviper.Vterm.Write.Shown.{IsPrintable, TakesText, Prints}
use pitviper.Vterm.Write.Text.{encode_all, write-Prints}
use pitviper.Examples.Fixtures.{tiny, tiny-IsValid}

tiny-TakesText : TakesText tiny
tiny-TakesText = (tiny-IsValid, refl, refl)

-- A letter and an accented letter, up to the end of the line.
two_runes-IsPrintable : All IsPrintable (b'x' ∷ 0xE9 ∷ [])
two_runes-IsPrintable = ((inl (omega arith), omega arith), ((inl (omega arith), omega arith), tt))

write-Prints_example : Prints tiny (b'x' ∷ 0xE9 ∷ []) (write tiny (encode_all (b'x' ∷ 0xE9 ∷ [])))
write-Prints_example =
    write-Prints tiny (b'x' ∷ 0xE9 ∷ []) tiny-TakesText (omega arith) two_runes-IsPrintable

pub tiny-IsSteady : IsSteady tiny
tiny-IsSteady = (tiny-IsValid, omega arith, inl refl)

-- One byte whose result is known.
IsCalm-step :
    (s u : Screen) (b : ℕ) (bs : List ℕ)
    → EndsWell s (s.esc ++ b ∷ [])
    → write_byte s b ≡ some u
    → IsCalm u bs
    → IsCalm s (b ∷ bs)
IsCalm-step s u b bs ok e rest = (ok, λ t k. subst (λ x. IsCalm x bs) (got t (sym e ∙ k)) rest)
  where
    got : (t : Screen) → some u ≡ some t → u ≡ t
    got t h = cc

-- ESC [ C
abbrev pub escape : List ℕ
escape = 0x1b ∷ b'[' ∷ b'C' ∷ []

abbrev after_esc : Screen
after_esc = record tiny { esc = 0x1b ∷ [] }

abbrev after_bracket : Screen
after_bracket = record tiny { esc = 0x1b ∷ b'[' ∷ [] }

pub escape-IsCalm : IsCalm tiny escape
unfolding write_byte flush_utf8 take_byte plain_byte handle_esc esc_dispatch esc_osc esc_csi end_esc
    handle_csi csi_cells csi_state cursor_right num_or1 parse_nums parse_from is_digit slice
escape-IsCalm =
    IsCalm-step tiny after_esc 0x1b (b'[' ∷ b'C' ∷ []) (λ e f. absurd (omega (arith, e))) refl
      (IsCalm-step after_esc after_bracket b'[' (b'C' ∷ [])
        (λ e f. (tt, λ k h. absurd (omega (arith, k)))) refl
        (IsCalm-step after_bracket (record tiny { cur_col = 2 }) b'C' []
          (λ e f. (tt, λ k h. absurd (omega (arith, k)))) refl tt))

write-IsSteady_example : Returns IsSteady (write tiny escape)
write-IsSteady_example = write-IsSteady tiny escape tiny-IsSteady escape-IsCalm
