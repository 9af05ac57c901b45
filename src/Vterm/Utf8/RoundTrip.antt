-- ===== src/Vterm/Utf8/RoundTrip.antt =====
-- The decoder against the UTF-8 encoding.
use pitviper.Base.{
  ℕ, ◌+◌, ◌-◌, ◌*◌, ◌/◌, ◌%◌, ◌≤◌, ◌<◌, ◌≡◌, refl, arith, Bool-cases, ltb, if◌then◌else◌, List, [],
  ◌∷◌, ◌⊎◌, inl, inr, ltb→lt, ltb→ge,
}
use pitviper.Vterm.Utf8.{decode_rune, decode2, decode3, decode4}

-- A Unicode scalar value: no surrogate, and at most U+10FFFF.
abbrev pub IsScalar : ℕ → Type 0
IsScalar r = (r < 0xD800) ⊎ ((0xE000 ≤ r) × (r ≤ 0x10FFFF))

-- A continuation byte.
abbrev pub tail : ℕ → ℕ
tail n = 0x80 + n % 64

-- The UTF-8 encoding of a scalar value.
abbrev pub encode : ℕ → List ℕ
encode r =
    if ltb r 0x80
    then r ∷ []
    else if ltb r 0x800
    then (0xC0 + r / 64) ∷ (tail r) ∷ []
    else if ltb r 0x10000
    then (0xE0 + r / 4096) ∷ (tail (r / 64)) ∷ (tail r) ∷ []
    else (0xF0 + r / 262144) ∷ (tail (r / 4096)) ∷ (tail (r / 64)) ∷ (tail r) ∷ []

two_bytes : (r : ℕ) → 0x80 ≤ r → r < 0x800 → decode_rune ((0xC0 + r / 64) ∷ (tail r) ∷ []) ≡ r
unfolding decode_rune decode2
two_bytes r h k = ground arith

sum3 : (r : ℕ) → r / 4096 * 4096 + (r / 64) % 64 * 64 + r % 64 ≡ r
sum3 r = omega arith

sum4 : (r : ℕ) → r / 262144 * 262144 + (r / 4096) % 64 * 4096 + (r / 64) % 64 * 64 + r % 64 ≡ r
sum4 r = omega arith

value3 :
    (r : ℕ) → (0xE0 + r / 4096 - 0xE0) * 4096 + (tail (r / 64) - 0x80) * 64 + (tail r - 0x80) ≡ r
value3 r = omega (arith, sum3 r)

three_bytes :
    (r : ℕ)
    → IsScalar r
    → 0x800 ≤ r
    → r < 0x10000
    → decode_rune ((0xE0 + r / 4096) ∷ (tail (r / 64)) ∷ (tail r) ∷ []) ≡ r
unfolding decode_rune decode3
three_bytes r s h k = ground (arith, value3 r)

value4 :
    (r : ℕ)
    → (0xF0 + r / 262144 - 0xF0) * 262144
        + (tail (r / 4096) - 0x80) * 4096
        + (tail (r / 64) - 0x80) * 64
        + (tail r - 0x80)
      ≡ r
value4 r = omega (arith, sum4 r)

four_bytes :
    (r : ℕ)
    → 0x10000 ≤ r
    → r ≤ 0x10FFFF
    → decode_rune ((0xF0 + r / 262144) ∷ (tail (r / 4096)) ∷ (tail (r / 64)) ∷ (tail r) ∷ []) ≡ r
unfolding decode_rune decode4
four_bytes r h k = ground (arith, value4 r)

-- Decoding the UTF-8 encoding of a scalar value gives the value.
pub decode_rune-encode : (r : ℕ) → IsScalar r → decode_rune (encode r) ≡ r
unfolding decode_rune
decode_rune-encode r s = elim (Bool-cases (ltb r 0x80)) [
  | inl a ↦ rw a (rw a refl)
  | inr a ↦ elim (Bool-cases (ltb r 0x800)) [
    | inl b ↦ rw (a, b) (two_bytes r (ltb→ge r 0x80 a) (ltb→lt r 0x800 b))
    | inr b ↦ elim (Bool-cases (ltb r 0x10000)) [
      | inl c ↦ rw (a, b, c) (three_bytes r s (ltb→ge r 0x800 b) (ltb→lt r 0x10000 c))
      | inr c ↦ rw (a, b, c) (four_bytes r (ltb→ge r 0x10000 c) (omega arith))
    ]
  ]
]
