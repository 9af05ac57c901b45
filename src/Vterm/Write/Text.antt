-- ===== src/Vterm/Write/Text.antt =====
-- Text that fits the rest of a line, written as UTF-8: the characters stand in the cells from the
-- cursor on.
use pitviper.Base.{
  ℕ, suc, ◌+◌, ◌-◌, ◌*◌, ◌≤◌, ◌<◌, ◌≡◌, refl, sym, ◌∙◌, ap, arith, Bool, ◌==◌, ◌&&◌, if◌then◌else◌,
  Option, some, List, [], ◌∷◌, ◌++◌, length, get_elem?, ◌>>=◌, All, >>=-assoc, >>=-cong,
}
use pitviper.Slice.Laws.{within}
use pitviper.Vterm.Cell.{Cell}
use pitviper.Vterm.Screen.{Screen}
use pitviper.Vterm.Valid.{IsValid, screen_at}
use pitviper.Vterm.Scroll.Rows.{cell_at}
use pitviper.Vterm.Utf8.RoundTrip.{encode}
use pitviper.Vterm.Write.{write_byte, write}
use pitviper.Vterm.Write.Shown.{IsPrintable, TakesText, Prints, glyph, rune-Prints}

-- The UTF-8 encoding of a text.
abbrev pub encode_all : List ℕ → List ℕ
encode_all [] = []
encode_all (r ∷ rs) = encode r ++ encode_all rs

pub write-append :
    (s : Screen) (xs ys : List ℕ) → write s (xs ++ ys) ≡ (write s xs >>= λ t. write t ys)
unfolding write
write-append s [] ys = refl
write-append s (x ∷ xs) ys =
    >>=-cong (write_byte s x) (λ t. write t (xs ++ ys)) (λ t. write t xs >>= λ u. write u ys)
      (λ t. write-append t xs ys)
    ∙ sym (>>=-assoc (write_byte s x) (λ t. write t xs) (λ t. write t ys))

next_glyph :
    (r : ℕ) (rs : List ℕ) (a c : ℕ)
    → a < c
    → get_elem? (r ∷ rs) (c - a) ≡ get_elem? rs (c - (a + 1))
next_glyph r rs a c h = let e : c - a ≡ suc (c - (a + 1)) = omega arith in rw e refl

-- The screen behind a printed character.
abbrev behind : Screen → List Cell → List ℕ → Screen
behind s out buf = record s { cells = out; cur_col = s.cur_col + 1; utf8_buf = buf; utf8_len = 0 }

behind-IsValid :
    (s : Screen) (out : List Cell) (buf : List ℕ)
    → IsValid s
    → s.cur_col < s.cols
    → length out ≡ s.rows * s.cols
    → length buf ≡ 4
    → IsValid (behind s out buf)
behind-IsValid s out buf v room p q = ground arith

-- One cell behind a character and then the rest of the text.
join_if :
    (same : Bool) (a n c : ℕ) (x y o first rest all : Option Cell)
    → x ≡ (if same && within (a + 1) (a + 1 + n) c then rest else y)
    → y ≡ (if same && within a (a + 1) c then first else o)
    → (a < c → all ≡ rest)
    → (c ≡ a → all ≡ first)
    → x ≡ (if same && within a (a + suc n) c then all else o)
join_if same a n c x y o first rest all p q behind at = ground arith

glyph_at :
    (s : Screen) (r : ℕ) (rs : List ℕ) (c : ℕ)
    → c ≡ s.cur_col
    → glyph s (get_elem? (r ∷ rs) (c - s.cur_col)) ≡ glyph s (get_elem? (r ∷ []) (c - s.cur_col))
glyph_at s r rs c e = let z : c - s.cur_col ≡ 0 = omega arith in rw z refl

-- Text of printable characters that fits the rest of the line, written in UTF-8 on a valid screen
-- with nothing gathered, stands in the cells from the cursor on, one character to a cell and in the
-- current colours; the cursor is behind it, and no other cell and no other field changes but the
-- UTF-8 accumulator.
pub write-Prints :
    (s : Screen) (rs : List ℕ)
    → TakesText s
    → s.cur_col + length rs ≤ s.cols
    → All IsPrintable rs
    → Prints s rs (write s (encode_all rs))
unfolding write
write-Prints s [] (v, esc, z) fits h = record {
  out = s.cells;
  buf = s.utf8_buf;
  returns = ground (arith, z);
  buf_size = v.utf8_size;
  size = v.size;
  elems = λ k c hk hc. ground arith;
}
write-Prints s (r ∷ rs) (v, esc, z) fits h =
    let first = rune-Prints s r (v, esc, z) (omega arith) h.0 in
    let t : Screen = behind s first.out first.buf in
    let w = behind-IsValid s first.out first.buf v (omega arith) first.size first.buf_size in
    let rest = write-Prints t rs (w, esc, refl) (omega arith) h.1 in
    let far : s.cur_col + 1 + length rs ≡ s.cur_col + suc (length rs) = omega arith in
    record {
      out = rest.out;
      buf = rest.buf;
      returns =
          write-append s (encode r) (encode_all rs)
          ∙ ap (λ (o : Option Screen). o >>= λ t. write t (encode_all rs)) first.returns
          ∙ rest.returns
          ∙ ap
              (λ (n : ℕ).
                some
                  (record s { cells = rest.out; cur_col = n; utf8_buf = rest.buf; utf8_len = 0 }))
              far;
      buf_size = rest.buf_size;
      size = rest.size;
      elems = λ k c hk hc.
          join_if (k == s.cur_row) s.cur_col (length rs) c (cell_at s.cols rest.out k c)
            (cell_at s.cols first.out k c) (screen_at s k c)
            (glyph s (get_elem? (r ∷ []) (c - s.cur_col)))
            (glyph s (get_elem? rs (c - (s.cur_col + 1))))
            (glyph s (get_elem? (r ∷ rs) (c - s.cur_col))) (rest.elems k c hk hc)
            (first.elems k c hk hc) (λ h. ap (glyph s) (next_glyph r rs s.cur_col c h))
            (glyph_at s r rs c);
    }
