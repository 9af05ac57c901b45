-- ===== src/Vterm/Utf8.antt =====
-- internal/vterm/vterm.go: `utf8SeqLen`, and `utf8.DecodeRune` of Go's standard library, which the
-- program calls on the two to four bytes that it has gathered.
pub mod RoundTrip
use pitviper.Base.{ℕ, ◌+◌, ◌-◌, ◌*◌, Bool, ◌&&◌, ◌||◌, ltb, leb, if◌then◌else◌, List, [], ◌∷◌}

unfoldable pub utf8_seq_len : ℕ → ℕ
utf8_seq_len b = if ltb b 0x80 then 1 else if ltb b 0xE0 then 2 else if ltb b 0xF0 then 3 else 4

-- `utf8.RuneError`, U+FFFD
abbrev pub rune_error : ℕ
rune_error = 0xFFFD

abbrev is_cont : ℕ → Bool
is_cont b = leb 0x80 b && leb b 0xBF

-- Two bytes: U+0080 to U+07FF.
unfoldable pub decode2 : ℕ → ℕ → ℕ
decode2 a b =
    if leb 0xC2 a && leb a 0xDF && is_cont b then (a - 0xC0) * 64 + (b - 0x80) else rune_error

-- Three bytes: U+0800 to U+FFFF, the surrogates excluded.
unfoldable pub decode3 : ℕ → ℕ → ℕ → ℕ
decode3 a b c =
    let r : ℕ = (a - 0xE0) * 4096 + (b - 0x80) * 64 + (c - 0x80) in
    if leb 0xE0 a && leb a 0xEF && is_cont b && is_cont c
    then (if ltb r 0x800 || (leb 0xD800 r && leb r 0xDFFF) then rune_error else r)
    else rune_error

-- Four bytes: U+10000 to U+10FFFF.
unfoldable pub decode4 : ℕ → ℕ → ℕ → ℕ → ℕ
decode4 a b c d =
    let r : ℕ = (a - 0xF0) * 262144 + (b - 0x80) * 4096 + (c - 0x80) * 64 + (d - 0x80) in
    if leb 0xF0 a && leb a 0xF7 && is_cont b && is_cont c && is_cont d
    then (if ltb r 0x10000 || ltb 0x10FFFF r then rune_error else r)
    else rune_error

-- The first rune of the bytes. An ASCII byte stands for itself, and what is no encoding gives
-- `RuneError`; so does a sequence that its bytes do not complete.
unfoldable pub decode_rune : List ℕ → ℕ
decode_rune [] = rune_error
decode_rune (a ∷ []) = if ltb a 0x80 then a else rune_error
decode_rune (a ∷ b ∷ []) = if ltb a 0x80 then a else decode2 a b
decode_rune (a ∷ b ∷ c ∷ []) =
    if ltb a 0x80 then a else if ltb a 0xE0 then decode2 a b else decode3 a b c
decode_rune (a ∷ b ∷ c ∷ d ∷ bs) =
    if ltb a 0x80
    then a
    else if ltb a 0xE0
    then decode2 a b
    else if ltb a 0xF0
    then decode3 a b c
    else decode4 a b c d
