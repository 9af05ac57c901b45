-- ===== src/Examples/Writing.antt =====
-- The theorems on written bytes and on parameter strings, at concrete inputs.
use pitviper.Base.{◌≡◌, ◌≢◌, refl, arith, some, [], ◌∷◌, codes, All}
use pitviper.Vterm.Params.{parse_nums, is_digit}
use pitviper.Vterm.Params.Decimal.{IsNumber, join, parse_nums-join}
use pitviper.Vterm.Write.{write}
use pitviper.Vterm.Write.Stuck.{IsIntermediate, gathered, write-stuck}
use pitviper.Examples.Fixtures.{tiny}

paren-IsIntermediate : IsIntermediate b'('
paren-IsIntermediate = (omega arith, omega arith, omega arith)

write-stuck_example :
    write tiny (0x1b ∷ b'(' ∷ codes "Bxyz") ≡ some (gathered tiny (0x1b ∷ b'(' ∷ codes "Bxyz"))
write-stuck_example = write-stuck b'(' paren-IsIntermediate tiny refl refl (codes "Bxyz")

first-IsNumber : IsNumber (codes "12")
unfolding is_digit
first-IsNumber = ((refl, (refl, tt)), omega arith)

rest-IsNumber : All IsNumber (codes "" ∷ codes "345" ∷ [])
unfolding is_digit
rest-IsNumber = ((tt, omega arith), (((refl, (refl, (refl, tt))), omega arith), tt))

fields-ne_nil : join (codes "12") (codes "" ∷ codes "345" ∷ []) ≢ []
fields-ne_nil = λ e. cc

parse_nums-join_example :
    parse_nums (join (codes "12") (codes "" ∷ codes "345" ∷ [])) ≡ 12 ∷ 0 ∷ 345 ∷ []
parse_nums-join_example =
    parse_nums-join (codes "12") (codes "" ∷ codes "345" ∷ []) fields-ne_nil first-IsNumber
      rest-IsNumber
