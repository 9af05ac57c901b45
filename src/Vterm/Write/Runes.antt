-- ===== src/Vterm/Write/Runes.antt =====
-- `Write` over the UTF-8 encoding of a rune: the bytes are gathered, and the rune is shown once.
use pitviper.Base.{
  ℕ, ◌≤◌, ◌<◌, ◌≡◌, refl, ap, arith, true, false, ltb, leb, if◌then◌else◌, Option, none, some, List,
  [], ◌∷◌, length, ◌>>=◌,
}
use pitviper.Slice.{store}
use pitviper.Vterm.Screen.{Screen}
use pitviper.Vterm.Utf8.{utf8_seq_len, decode_rune}
use pitviper.Vterm.Write.{
  put_char, plain_byte, flush_utf8, continue_utf8, start_utf8, take_byte, write_byte, write,
}

-- The screen with the given bytes gathered.
abbrev pub held : Screen → List ℕ → ℕ → Screen
held s buf n = record s { utf8_buf = buf; utf8_len = n }

-- The screen once a gathered rune is shown.
abbrev pub shown : Screen → List ℕ → ℕ → ℕ → Option Screen
shown s buf n r = put_char (held s buf n) r >>= λ u. some (record u { utf8_len = 0 })

-- A byte that continues a sequence.
abbrev pub IsTail : ℕ → Type 0
IsTail b = (0x80 ≤ b) × (b < 0xC0)

module _ (s : Screen) (esc : s.esc ≡ []) (w x y z : ℕ) where
  closed : ltb 0 (length s.esc) ≡ false
  closed = ap (λ e. ltb 0 (length e)) esc

  lead :
      (a : ℕ)
      → 0xC0 ≤ a
      → write_byte (held s (w ∷ x ∷ y ∷ z ∷ []) 0) a ≡ some (held s (a ∷ x ∷ y ∷ z ∷ []) 1)
  unfolding write_byte flush_utf8 take_byte start_utf8 store
  lead a h = ground (arith, closed)

  tail_1 :
      (b : ℕ)
      → IsTail b
      → write_byte (held s (w ∷ x ∷ y ∷ z ∷ []) 1) b ≡ (
          if leb (utf8_seq_len w) 2
          then shown s (w ∷ b ∷ y ∷ z ∷ []) 2 (decode_rune (w ∷ b ∷ []))
          else some (held s (w ∷ b ∷ y ∷ z ∷ []) 2))
  unfolding write_byte flush_utf8 take_byte continue_utf8 store
  tail_1 b h = ground arith

  tail_2 :
      (b : ℕ)
      → IsTail b
      → write_byte (held s (w ∷ x ∷ y ∷ z ∷ []) 2) b ≡ (
          if leb (utf8_seq_len w) 3
          then shown s (w ∷ x ∷ b ∷ z ∷ []) 3 (decode_rune (w ∷ x ∷ b ∷ []))
          else some (held s (w ∷ x ∷ b ∷ z ∷ []) 3))
  unfolding write_byte flush_utf8 take_byte continue_utf8 store
  tail_2 b h = ground arith

  tail_3 :
      (b : ℕ)
      → IsTail b
      → write_byte (held s (w ∷ x ∷ y ∷ z ∷ []) 3) b ≡ (
          if leb (utf8_seq_len w) 4
          then shown s (w ∷ x ∷ y ∷ b ∷ []) 4 (decode_rune (w ∷ x ∷ y ∷ b ∷ []))
          else some (held s (w ∷ x ∷ y ∷ b ∷ []) 4))
  unfolding write_byte flush_utf8 take_byte continue_utf8 store
  tail_3 b h = ground arith

  plain :
      (r : ℕ)
      → 0x20 ≤ r
      → r < 0x80
      → write_byte (held s (w ∷ x ∷ y ∷ z ∷ []) 0) r ≡ put_char (held s (w ∷ x ∷ y ∷ z ∷ []) 0) r
  unfolding write_byte flush_utf8 take_byte plain_byte
  plain r h k = ground (arith, closed)

>>=-some : (r : Option Screen) → (r >>= λ t. some t) ≡ r
>>=-some none = refl
>>=-some (some t) = refl

seq_len_lem :
    (a : ℕ) → 0xC0 ≤ a → utf8_seq_len a ≡ (if ltb a 0xE0 then 2 else if ltb a 0xF0 then 3 else 4)
unfolding utf8_seq_len
seq_len_lem a h = ground arith

-- The bytes of a rune, on an accumulator with nothing in it.
module _ (s : Screen) (esc : s.esc ≡ []) (w x y z r : ℕ) where
  abbrev pub base : Screen
  base = held s (w ∷ x ∷ y ∷ z ∷ []) 0

  pub two_bytes :
      (a b : ℕ)
      → 0xC0 ≤ a
      → a < 0xE0
      → IsTail b
      → decode_rune (a ∷ b ∷ []) ≡ r
      → write base (a ∷ b ∷ []) ≡ shown s (a ∷ b ∷ y ∷ z ∷ []) 2 r
  unfolding write
  two_bytes a b p q h e =
      let done : leb (utf8_seq_len a) 2 ≡ true = ground (arith, seq_len_lem a p) in
      rw (lead s esc w x y z a p)
        (rw (tail_1 s esc a x y z b h) (rw (done, e) (>>=-some (shown s (a ∷ b ∷ y ∷ z ∷ []) 2 r))))

  pub three_bytes :
      (a b c : ℕ)
      → 0xE0 ≤ a
      → a < 0xF0
      → IsTail b
      → IsTail c
      → decode_rune (a ∷ b ∷ c ∷ []) ≡ r
      → write base (a ∷ b ∷ c ∷ []) ≡ shown s (a ∷ b ∷ c ∷ z ∷ []) 3 r
  unfolding write
  three_bytes a b c p q h k e =
      let more : leb (utf8_seq_len a) 2 ≡ false = ground (arith, seq_len_lem a) in
      let done : leb (utf8_seq_len a) 3 ≡ true = ground (arith, seq_len_lem a) in
      rw (lead s esc w x y z a (omega arith)) (
        rw (tail_1 s esc a x y z b h) (
          rw more (
            rw (tail_2 s esc a b y z c k)
              (rw (done, e) (>>=-some (shown s (a ∷ b ∷ c ∷ z ∷ []) 3 r))))))

  pub four_bytes :
      (a b c d : ℕ)
      → 0xF0 ≤ a
      → IsTail b
      → IsTail c
      → IsTail d
      → decode_rune (a ∷ b ∷ c ∷ d ∷ []) ≡ r
      → write base (a ∷ b ∷ c ∷ d ∷ []) ≡ shown s (a ∷ b ∷ c ∷ d ∷ []) 4 r
  unfolding write
  four_bytes a b c d p h k l e =
      let more : leb (utf8_seq_len a) 2 ≡ false = ground (arith, seq_len_lem a) in
      let again : leb (utf8_seq_len a) 3 ≡ false = ground (arith, seq_len_lem a) in
      let done : leb (utf8_seq_len a) 4 ≡ true = ground (arith, seq_len_lem a) in
      rw (lead s esc w x y z a (omega arith)) (
        rw (tail_1 s esc a x y z b h) (
          rw more (
            rw (tail_2 s esc a b y z c k) (
              rw again (
                rw (tail_3 s esc a b c z d l)
                  (rw (done, e) (>>=-some (shown s (a ∷ b ∷ c ∷ d ∷ []) 4 r))))))))

pub plain_shown :
    (s : Screen) (esc : s.esc ≡ []) (w x y z r : ℕ)
    → 0x20 ≤ r
    → r < 0x80
    → write (held s (w ∷ x ∷ y ∷ z ∷ []) 0) (r ∷ []) ≡ put_char (held s (w ∷ x ∷ y ∷ z ∷ []) 0) r
unfolding write
plain_shown s esc w x y z r h k =
    rw (plain s esc w x y z r h k) (>>=-some (put_char (held s (w ∷ x ∷ y ∷ z ∷ []) 0) r))
