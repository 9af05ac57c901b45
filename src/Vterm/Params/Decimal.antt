-- ===== src/Vterm/Params/Decimal.antt =====
-- `parseNums` against the decimal reading of its fields, and the size of what it reads.
use pitviper.Base.{
  ℕ, ◌+◌, ◌-◌, ◌*◌, ◌≤◌, ◌<◌, ◌^◌, ◌≡◌, refl, sym, ◌∙◌, ap, arith, true, List, [], ◌∷◌, ◌++◌, All,
  append-nil, ◌≢◌, add, mul,
}
use pitviper.Vterm.Params.{is_digit, parse_from, parse_nums}

-- The number that digits stand for, behind the digits of `acc`.
abbrev pub value_from : ℕ → List ℕ → ℕ
value_from acc [] = acc
value_from acc (d ∷ ds) = value_from (acc * 10 + (d - b'0')) ds

abbrev pub value : List ℕ → ℕ
value = value_from 0

abbrev pub IsNumber : List ℕ → Type 0
IsNumber ds = All (λ d. is_digit d ≡ true) ds × (value ds < 2 ^ 63)

-- The fields of a parameter string, with `;` between them.
abbrev pub join : List ℕ → List (List ℕ) → List ℕ
join f [] = f
join f (g ∷ fs) = f ++ (b';' ∷ join g fs)

abbrev pub values : List ℕ → List (List ℕ) → List ℕ
values f [] = value f ∷ []
values f (g ∷ fs) = value f ∷ values g fs

value_from-ge : (acc : ℕ) (ds : List ℕ) → acc ≤ value_from acc ds
value_from-ge acc [] = omega arith
value_from-ge acc (d ∷ ds) = omega (arith, value_from-ge (acc * 10 + (d - b'0')) ds)

no_wrap :
    (acc d : ℕ) (ds : List ℕ)
    → value_from acc (d ∷ ds) < 2 ^ 64
    → add (mul acc 10) (d - b'0') ≡ acc * 10 + (d - b'0')
no_wrap acc d ds h = omega (arith, value_from-ge (acc * 10 + (d - b'0')) ds)

parse_from-digits :
    (acc : ℕ) (ds rest : List ℕ)
    → All (λ d. is_digit d ≡ true) ds
    → value_from acc ds < 2 ^ 64
    → parse_from acc (ds ++ rest) ≡ parse_from (value_from acc ds) rest
unfolding parse_from
parse_from-digits acc [] rest h k = refl
parse_from-digits acc (d ∷ ds) rest h k = rw h.0 (
    ap (λ n. parse_from n (ds ++ rest)) (no_wrap acc d ds k)
    ∙ parse_from-digits (acc * 10 + (d - b'0')) ds rest h.1 k)

parse_from-join :
    (f : List ℕ) (fs : List (List ℕ))
    → IsNumber f
    → All IsNumber fs
    → parse_from 0 (join f fs) ≡ values f fs
unfolding parse_from is_digit
parse_from-join f [] n h =
    ap (parse_from 0) (sym (append-nil f)) ∙ parse_from-digits 0 f [] n.0 (omega (arith, n.1))
parse_from-join f (g ∷ fs) n h =
    parse_from-digits 0 f (b';' ∷ join g fs) n.0 (omega (arith, n.1))
    ∙ ap (λ r. value f ∷ r) (parse_from-join g fs h.0 h.1)

parse_nums-ne_nil : (cs : List ℕ) → cs ≢ [] → parse_nums cs ≡ parse_from 0 cs
unfolding parse_nums
parse_nums-ne_nil [] h = absurd (h refl)
parse_nums-ne_nil (c ∷ cs) h = refl

-- A parameter string that is not empty, of fields of decimal digits with `;` between them, each
-- below 2 ^ 63, so that it fits a Go `int`, is read as the numbers of its fields, in order; an
-- empty field is 0.
pub parse_nums-join :
    (f : List ℕ) (fs : List (List ℕ))
    → join f fs ≢ []
    → IsNumber f
    → All IsNumber fs
    → parse_nums (join f fs) ≡ values f fs
parse_nums-join f fs ne n h = parse_nums-ne_nil (join f fs) ne ∙ parse_from-join f fs n h
