-- ===== src/Vterm/Write/Shown.antt =====
-- One character written as UTF-8: it stands in the cell of the cursor.
use pitviper.Base.{
  ℕ, ◌+◌, ◌-◌, ◌*◌, ◌/◌, ◌≤◌, ◌<◌, ◌≡◌, refl, sym, ◌∙◌, ap, arith, Bool-cases, inl, inr, ltb, ◌==◌,
  ◌&&◌, if◌then◌else◌, Option, none, some, List, [], ◌∷◌, length, get_elem?, ◌>>=◌, ltb→lt,
}
use mathlib.Core.Path.{subst}
use pitviper.Slice.Laws.{within}
use pitviper.Vterm.Cell.{Cell}
use pitviper.Vterm.Screen.{Screen}
use pitviper.Vterm.Valid.{IsValid, screen_at}
use pitviper.Vterm.Scroll.Rows.{cell_at}
use pitviper.Vterm.Utf8.{decode_rune}
use pitviper.Vterm.Utf8.RoundTrip.{IsScalar, encode, tail, decode_rune-encode}
use pitviper.Vterm.Write.{put_char, put_cell, write}
use pitviper.Vterm.Write.Put.{Puts, cell_of, put_cell-Puts}
use pitviper.Vterm.Write.Runes.{held, shown, two_bytes, three_bytes, four_bytes, plain_shown}

-- A scalar value that is no control character.
abbrev pub IsPrintable : ℕ → Type 0
IsPrintable r = IsScalar r × (0x20 ≤ r)

-- The cell of a character, if there is one.
abbrev pub glyph : Screen → Option ℕ → Option Cell
glyph s none = none
glyph s (some r) = some (cell_of s r)

-- The characters `rs` stand in the cells from the cursor on, in the current colours, every other
-- cell is as it was, the cursor is behind them, and nothing else has changed but the accumulator.
pub record Prints (s : Screen) (rs : List ℕ) (result : Option Screen) : Type 0 where
  pub out : List Cell
  pub buf : List ℕ
  pub returns :
      result
      ≡ some
          (record s { cells = out; cur_col = s.cur_col + length rs; utf8_buf = buf; utf8_len = 0 })
  pub buf_size : length buf ≡ 4
  pub size : length out ≡ s.rows * s.cols
  pub elems :
      (k c : ℕ)
      → k < s.rows
      → c < s.cols
      → cell_at s.cols out k c ≡ (
          if k == s.cur_row && within s.cur_col (s.cur_col + length rs) c
          then glyph s (get_elem? rs (c - s.cur_col))
          else screen_at s k c)

held-IsValid :
    (s : Screen) (buf : List ℕ) (n : ℕ)
    → IsValid s
    → length buf ≡ 4
    → n ≤ 4
    → IsValid (held s buf n)
held-IsValid s buf n v size h = ground arith

put_char_room : (s : Screen) (r : ℕ) → IsValid s → s.cur_col < s.cols → put_char s r ≡ put_cell s r
unfolding put_char
put_char_room s r v room = ground arith

first_column : (c d : ℕ) → (within d (d + 1) c) ≡ (c == d)
first_column c d = ground arith

glyph_first :
    (s : Screen) (r c : ℕ)
    → c ≡ s.cur_col
    → glyph s (get_elem? (r ∷ []) (c - s.cur_col)) ≡ some (cell_of s r)
glyph_first s r c e = let z : c - s.cur_col ≡ 0 = omega arith in rw z refl

-- One character, from an accumulator of four bytes.
module _ (s : Screen) (r : ℕ) (v : IsValid s) (room : s.cur_col < s.cols) (buf : List ℕ) (n : ℕ)
    (size : length buf ≡ 4) (n_max : n ≤ 4) where
  one : Puts (held s buf n) r (put_char (held s buf n) r)
  one =
      let t : Screen = held s buf n in
      let w = held-IsValid s buf n v size n_max in
      let d = put_cell-Puts t r w room in
      record {
        out = d.out;
        returns = put_char_room t r w room ∙ d.returns;
        size = d.size;
        elems = d.elems;
      }

  one-elems :
      (k c : ℕ)
      → k < s.rows
      → c < s.cols
      → cell_at s.cols one.out k c ≡ (
          if k == s.cur_row && within s.cur_col (s.cur_col + 1) c
          then glyph s (get_elem? (r ∷ []) (c - s.cur_col))
          else screen_at s k c)
  one-elems k c hk hc =
      ground (arith, one.elems k c hk hc, first_column c s.cur_col, glyph_first s r c)

  reset : Screen → Option Screen
  reset u = some (record u { utf8_len = 0 })

  shown-Prints : Prints s (r ∷ []) (shown s buf n r)
  unfolding reset
  shown-Prints = record {
    out = one.out;
    buf = buf;
    returns = ap (λ (o : Option Screen). o >>= reset) one.returns;
    buf_size = size;
    size = one.size;
    elems = one-elems;
  }

  plain-Prints : n ≡ 0 → Prints s (r ∷ []) (put_char (held s buf n) r)
  plain-Prints z = record {
    out = one.out;
    buf = buf;
    returns =
        one.returns
        ∙ ap
            (λ m.
              some (record s {
                cells = one.out;
                cur_col = s.cur_col + 1;
                utf8_buf = buf;
                utf8_len = m;
              }))
            z;
    buf_size = size;
    size = one.size;
    elems = one-elems;
  }

four :
    (xs : List ℕ)
    → length xs ≡ 4
    → (w : ℕ) × (x : ℕ) × (y : ℕ) × (z : ℕ) × (xs ≡ w ∷ x ∷ y ∷ z ∷ [])
four [] h = absurd (omega arith)
four (w ∷ []) h = absurd (omega arith)
four (w ∷ x ∷ []) h = absurd (omega arith)
four (w ∷ x ∷ y ∷ []) h = absurd (omega arith)
four (w ∷ x ∷ y ∷ z ∷ []) h = (w, x, y, z, refl)
four (w ∷ x ∷ y ∷ z ∷ u ∷ us) h = absurd (omega arith)

-- From an accumulator that is written out.
base-Prints :
    (s : Screen) (r w x y z : ℕ)
    → IsValid s
    → s.esc ≡ []
    → s.cur_col < s.cols
    → IsPrintable r
    → Prints s (r ∷ []) (write (held s (w ∷ x ∷ y ∷ z ∷ []) 0) (encode r))
base-Prints s r w x y z v esc room (scalar, low) =
    let done = decode_rune-encode r scalar in
    elim (Bool-cases (ltb r 0x80)) [
      | inl a ↦ rw a (
          subst (Prints s (r ∷ [])) (sym (plain_shown s esc w x y z r low (ltb→lt r 0x80 a)))
            (plain-Prints s r v room (w ∷ x ∷ y ∷ z ∷ []) 0 refl (omega arith) refl))
      | inr a ↦ elim (Bool-cases (ltb r 0x800)) [
        | inl b ↦
            let p = (0xC0 + r / 64) in
            let e : encode r ≡ p ∷ tail r ∷ [] = rw (a, b) refl in
            let short = ltb→lt r 0x800 b in
            let shows =
              two_bytes s esc w x y z r p (tail r) (omega arith) (omega arith)
                (omega arith, omega arith) (ap decode_rune (sym e) ∙ done) in
            rw e (
              subst (Prints s (r ∷ [])) (sym shows)
                (shown-Prints s r v room (p ∷ tail r ∷ y ∷ z ∷ []) 2 refl (omega arith)))
        | inr b ↦ elim (Bool-cases (ltb r 0x10000)) [
          | inl c ↦
              let p = (0xE0 + r / 4096) in
              let e : encode r ≡ p ∷ tail (r / 64) ∷ tail r ∷ [] = rw (a, b, c) refl in
              let short = ltb→lt r 0x10000 c in
              let shows =
                three_bytes s esc w x y z r p (tail (r / 64)) (tail r) (omega arith) (omega arith)
                  (omega arith, omega arith) (omega arith, omega arith)
                  (ap decode_rune (sym e) ∙ done) in
              rw e (
                subst (Prints s (r ∷ [])) (sym shows) (
                  shown-Prints s r v room (p ∷ tail (r / 64) ∷ tail r ∷ z ∷ []) 3 refl
                    (omega arith)))
          | inr c ↦
              let p = (0xF0 + r / 262144) in
              let e : encode r ≡ p ∷ tail (r / 4096) ∷ tail (r / 64) ∷ tail r ∷ [] =
                rw (a, b, c) refl in
              let shows =
                four_bytes s esc w x y z r p (tail (r / 4096)) (tail (r / 64)) (tail r)
                  (omega arith) (omega arith, omega arith) (omega arith, omega arith)
                  (omega arith, omega arith) (ap decode_rune (sym e) ∙ done) in
              rw e (
                subst (Prints s (r ∷ [])) (sym shows) (
                  shown-Prints s r v room (p ∷ tail (r / 4096) ∷ tail (r / 64) ∷ tail r ∷ []) 4 refl
                    (omega arith)))
        ]
      ]
    ]

-- A screen that takes text: valid, with nothing gathered.
abbrev pub TakesText : Screen → Type 0
TakesText s = IsValid s × (s.esc ≡ []) × (s.utf8_len ≡ 0)

pub rune-Prints :
    (s : Screen) (r : ℕ)
    → TakesText s
    → s.cur_col < s.cols
    → IsPrintable r
    → Prints s (r ∷ []) (write s (encode r))
rune-Prints s r (v, esc, z) room p =
    let (b0, b1, b2, b3, e) = four s.utf8_buf v.utf8_size in
    let same : s ≡ held s (b0 ∷ b1 ∷ b2 ∷ b3 ∷ []) 0 = ground (arith, e, z) in
    subst (λ t. Prints s (r ∷ []) (write t (encode r))) (sym same)
      (base-Prints s r b0 b1 b2 b3 v esc room p)
