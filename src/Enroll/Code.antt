-- ===== src/Enroll/Code.antt =====
-- `randomCode`.
use pitviper.Base.{
  ℕ, ◌+◌, ◌*◌, ◌/◌, ◌%◌, ◌^◌, ◌<◌, ◌≡◌, refl, arith, true, Option, none, some, List, [], ◌∷◌,
  length, All, Returns, ◌-◌,
}
use pitviper.Vterm.Params.{is_digit}

-- `fmt.Sprintf("%06d", n)` of a number below 10 ^ 6.
unfoldable pub six_digits : ℕ → List ℕ
six_digits n =
    (b'0' + n / 100000)
    ∷ (b'0' + n / 10000 % 10)
    ∷ (b'0' + n / 1000 % 10)
    ∷ (b'0' + n / 100 % 10)
    ∷ (b'0' + n / 10 % 10)
    ∷ (b'0' + n % 10)
    ∷ []

-- With the answer of `rand.Int`, a number below 10 ^ 6 or an error.
unfoldable pub random_code : Option ℕ → Option (List ℕ)
random_code none = none
random_code (some n) = some (six_digits n)

-- The number that decimal digits stand for.
abbrev pub value : ℕ → List ℕ → ℕ
value n [] = n
value n (d ∷ ds) = value (n * 10 + d - b'0') ds

-- The code of a number below 10 ^ 6 has six characters, all of them digits, which spell the number.
pub random_code-digits :
    (n : ℕ)
    → n < 10 ^ 6
    → Returns
        (λ t. (length t ≡ 6) × All (λ d. is_digit d ≡ true) t × (value 0 t ≡ n))
        (random_code (some n))
unfolding random_code six_digits is_digit
random_code-digits n h = (
  refl,
  (
    ground arith,
    (ground arith, (ground arith, (ground arith, (ground arith, (ground arith, tt))))),
  ),
  omega arith,
)
