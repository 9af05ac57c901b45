-- ===== src/Enroll/Text.antt =====
-- The functions of Go's package strings that the enrolment tool calls, on lists of runes.
use pitviper.Base.{
  ℕ, Bool, false, ◌==◌, ◌||◌, ◌&&◌, leb, if◌then◌else◌, List, [], ◌∷◌, ◌++◌, ◌≡◌, refl, ap, ◌∙◌,
  Bool-cases, inl, inr, All,
}

-- `unicode.IsSpace`
unfoldable pub is_space : ℕ → Bool
is_space r =
    leb 9 r && leb r 13
    || r == b' '
    || r == 0x85
    || r == 0xA0
    || r == 0x1680
    || leb 0x2000 r && leb r 0x200A
    || r == 0x2028
    || r == 0x2029
    || r == 0x202F
    || r == 0x205F
    || r == 0x3000

unfoldable pub trim_left : List ℕ → List ℕ
trim_left [] = []
trim_left (r ∷ rs) = if is_space r then trim_left rs else r ∷ rs

-- A rune before a text that is already cut on the right.
unfoldable pub before : ℕ → List ℕ → List ℕ
before r [] = if is_space r then [] else r ∷ []
before r (x ∷ xs) = r ∷ x ∷ xs

unfoldable pub trim_end : List ℕ → List ℕ
trim_end [] = []
trim_end (r ∷ rs) = before r (trim_end rs)

-- `strings.TrimSpace`
unfoldable pub trim_space : List ℕ → List ℕ
trim_space text = trim_end (trim_left text)

-- A rune before the first of the lines.
unfoldable pub onto_first : ℕ → List (List ℕ) → List (List ℕ)
onto_first r [] = (r ∷ []) ∷ []
onto_first r (l ∷ ls) = (r ∷ l) ∷ ls

-- `strings.Split(text, "\n")`
unfoldable pub split_lines : List ℕ → List (List ℕ)
split_lines [] = [] ∷ []
split_lines (r ∷ rs) =
    let rest : List (List ℕ) = split_lines rs in if r == b'\n' then [] ∷ rest else onto_first r rest

-- There is at least one line.
split_lines-cons : (xs : List ℕ) → (l : List ℕ) × (ls : List (List ℕ)) × (split_lines xs ≡ l ∷ ls)
unfolding split_lines onto_first
split_lines-cons [] = ([], [], refl)
split_lines-cons (r ∷ rs) = elim (Bool-cases (r == b'\n')) [
  | inl p ↦ ([], split_lines rs, rw p refl)
  | inr p ↦ let (l, ls, e) = split_lines-cons rs in (r ∷ l, ls, rw p (rw e refl))
]

-- Lines on both sides of a line feed.
pub split_lines-append :
    (xs ys : List ℕ) → split_lines (xs ++ b'\n' ∷ ys) ≡ split_lines xs ++ split_lines ys
unfolding split_lines onto_first
split_lines-append [] ys = refl
split_lines-append (r ∷ rs) ys =
    let (l, ls, e) = split_lines-cons rs in
    elim (Bool-cases (r == b'\n')) [
      | inl p ↦ rw p (rw (split_lines-append rs ys) refl)
      | inr p ↦ rw p (rw (split_lines-append rs ys) (rw e refl))
    ]

-- A text without a line feed is one line.
pub split_lines-line : (xs : List ℕ) → All (λ r. (r == b'\n') ≡ false) xs → split_lines xs ≡ xs ∷ []
unfolding split_lines onto_first
split_lines-line [] h = refl
split_lines-line (r ∷ rs) h = rw h.0 (rw (split_lines-line rs h.1) refl)

trim_end_twice : (xs : List ℕ) → trim_end (trim_end xs) ≡ trim_end xs
unfolding trim_end before
trim_end_twice [] = refl
trim_end_twice (r ∷ rs) = before_twice r (trim_end rs) (trim_end_twice rs)
  where
    before_twice : (r : ℕ) (xs : List ℕ) → trim_end xs ≡ xs → trim_end (before r xs) ≡ before r xs
    before_twice r [] e = elim (Bool-cases (is_space r)) [
      | inl p ↦ rw p refl
      | inr p ↦ rw p (rw p refl)
    ]
    before_twice r (x ∷ xs) e = ap (before r) e

trim_left-trim_end : (xs : List ℕ) → trim_left (trim_end (trim_left xs)) ≡ trim_end (trim_left xs)
unfolding trim_left trim_end before
trim_left-trim_end [] = refl
trim_left-trim_end (r ∷ rs) = elim (Bool-cases (is_space r)) [
  | inl p ↦ rw p (trim_left-trim_end rs)
  | inr p ↦ rw p (starts (trim_end rs) p)
]
  where
    starts : (xs : List ℕ) → is_space r ≡ false → trim_left (before r xs) ≡ before r xs
    starts [] p = rw p (rw p refl)
    starts (x ∷ xs) p = rw p refl

-- What is trimmed has no space at its ends.
pub trim_space_twice : (xs : List ℕ) → trim_space (trim_space xs) ≡ trim_space xs
unfolding trim_space
trim_space_twice xs = ap trim_end (trim_left-trim_end xs) ∙ trim_end_twice (trim_left xs)
