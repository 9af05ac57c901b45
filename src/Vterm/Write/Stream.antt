-- ===== src/Vterm/Write/Stream.antt =====
-- `Write` over whole byte sequences: text without ESC never panics, and the screen stays valid.
use pitviper.Base.{
  ℕ, ◌+◌, ◌≤◌, ◌<◌, ◌≡◌, ◌≢◌, refl, ◌∙◌, ap, arith, true, false, Bool-cases, inl, inr, ltb, leb,
  ◌==◌, ◌||◌, ◌&&◌, if◌then◌else◌, Option, some, List, [], ◌∷◌, length, length-set, set, take,
  get_or, slt, ◌>>=◌, All, Returns, Returns->>=, Returns-map,
}
use mathlib.Core.Path.{subst}
use pitviper.Slice.{store}
use pitviper.Vterm.Screen.{Screen}
use pitviper.Vterm.Valid.{IsValid}
use pitviper.Vterm.Utf8.{utf8_seq_len, decode_rune, rune_error}
use pitviper.Vterm.Write.{
  put_char, plain_byte, flush_utf8, continue_utf8, start_utf8, take_byte, write_byte, write,
}
use pitviper.Vterm.Write.Put.{Reads, put_char-Reads, plain_byte-Reads}

utf8_seq_len-le : (b : ℕ) → utf8_seq_len b ≤ 4
unfolding utf8_seq_len
utf8_seq_len-le b = ground arith

-- What holds between the bytes: the screen is valid, and a gathered sequence is not complete.
abbrev pub IsReady : List ℕ → Screen → Type 0
IsReady esc t = IsValid t × (t.esc ≡ esc) × (t.utf8_len < 4)

-- The accumulator holds other bytes.
buffer-IsValid :
    (s : Screen) (buf : List ℕ) (n : ℕ)
    → IsValid s
    → length buf ≡ 4
    → n ≤ 4
    → IsValid (record s { utf8_buf = buf; utf8_len = n })
buffer-IsValid s buf n v size h = ground arith

reset-IsReady :
    {esc : List ℕ} {n : ℕ} (s : Screen) → Reads esc n s → IsReady esc (record s { utf8_len = 0 })
reset-IsReady s (v, e, _) =
    (buffer-IsValid s s.utf8_buf 0 v v.utf8_size (omega arith), e, omega arith)

-- The character of a complete sequence is shown, and the accumulator is empty again.
show-IsReady :
    (s : Screen) (ch : ℕ)
    → IsValid s
    → Returns (IsReady s.esc) (put_char s ch >>= λ t. some (record t { utf8_len = 0 }))
show-IsReady s ch v =
    Returns->>= (Reads s.esc s.utf8_len) (IsReady s.esc) (put_char s ch)
      (λ t. some (record t { utf8_len = 0 })) (put_char-Reads s ch v) reset-IsReady

flush_utf8-IsReady :
    (s : Screen) (b : ℕ) → IsReady s.esc s → Returns (IsReady s.esc) (flush_utf8 s b)
unfolding flush_utf8
flush_utf8-IsReady s b (v, e, h) =
    elim (Bool-cases (slt 0 s.utf8_len && (ltb b 0x80 || leb 0xC0 b))) [
      | inl p ↦ rw p (show-IsReady s rune_error v)
      | inr p ↦ rw p (v, e, h)
    ]

start_utf8-IsReady : (s : Screen) (b : ℕ) → IsValid s → Returns (IsReady s.esc) (start_utf8 s b)
unfolding start_utf8 store
start_utf8-IsReady s b v =
    let w =
      buffer-IsValid s (set s.utf8_buf 0 b) 1 v (length-set s.utf8_buf 0 b ∙ v.utf8_size)
        (omega arith) in
    ground (arith, v.utf8_size, w)

continue_utf8-IsReady :
    (s : Screen) (b : ℕ) → IsReady s.esc s → Returns (IsReady s.esc) (continue_utf8 s b)
unfolding continue_utf8 store
continue_utf8-IsReady s b (v, _, h) =
    let buf : List ℕ = set s.utf8_buf s.utf8_len b in
    let n : ℕ = s.utf8_len + 1 in
    let t : Screen = record s { utf8_buf = buf; utf8_len = n } in
    let w : IsValid t =
      buffer-IsValid s buf n v (length-set s.utf8_buf s.utf8_len b ∙ v.utf8_size) (omega arith) in
    let stored : ltb s.utf8_len (length s.utf8_buf) ≡ true = ground (arith, v.utf8_size) in
    elim (Bool-cases (leb (utf8_seq_len (get_or buf 0 0)) n)) [
      | inl done ↦ rw stored (rw done (show-IsReady t (decode_rune (take n buf)) w))
      | inr more ↦ rw stored (rw more (w, refl, ground (arith, utf8_seq_len-le (get_or buf 0 0))))
    ]

plain_byte-IsReady :
    (s : Screen) (b : ℕ) → IsReady [] s → b ≢ 0x1b → Returns (IsReady []) (plain_byte s b)
plain_byte-IsReady s b (v, e, h) ne =
    Returns-map (Reads (if b == 0x1b then 0x1b ∷ [] else s.esc) s.utf8_len) (IsReady [])
      (plain_byte s b) (plain_byte-Reads s b v)
      (λ t k. (k.0, ground (arith, k.1), omega (arith, k.2)))

take_byte-IsReady :
    (s : Screen) (b : ℕ) → IsReady [] s → b ≢ 0x1b → Returns (IsReady []) (take_byte s b)
unfolding take_byte
take_byte-IsReady s b (v, e, h) ne =
    let closed : ltb 0 (length s.esc) ≡ false = ap (λ x. ltb 0 (length x)) e in
    let retitle : (r : Option Screen) → Returns (IsReady s.esc) r → Returns (IsReady []) r =
      λ r q. subst (λ x. Returns (IsReady x) r) e q in
    elim (Bool-cases (slt 0 s.utf8_len && leb 0x80 b && ltb b 0xC0)) [
      | inl more ↦ rw more (retitle (continue_utf8 s b) (continue_utf8-IsReady s b (v, refl, h)))
      | inr other ↦ elim (Bool-cases (leb 0xC0 b)) [
        | inl lead ↦
            rw (other, closed) (rw lead (retitle (start_utf8 s b) (start_utf8-IsReady s b v)))
        | inr plain ↦ rw (other, closed) (rw plain (plain_byte-IsReady s b (v, e, h) ne))
      ]
    ]

-- One byte other than ESC, where no escape sequence is open.
pub write_byte-IsReady :
    (s : Screen) (b : ℕ) → IsReady [] s → b ≢ 0x1b → Returns (IsReady []) (write_byte s b)
unfolding write_byte
write_byte-IsReady s b (v, e, h) ne =
    Returns->>= (IsReady []) (IsReady []) (flush_utf8 s b) (λ t. take_byte t b)
      (subst (λ x. Returns (IsReady x) (flush_utf8 s b)) e (flush_utf8-IsReady s b (v, refl, h)))
      (λ t k. take_byte-IsReady t b k ne)

-- Text without ESC, of any bytes, on a valid screen with no escape sequence open: `Write` does not
-- panic, and the screen stays valid.
write_text-IsReady :
    (s : Screen) (text : List ℕ)
    → IsReady [] s
    → All (λ b. b ≢ 0x1b) text
    → Returns (IsReady []) (write s text)
unfolding write
write_text-IsReady s [] r h = r
write_text-IsReady s (b ∷ bs) r h =
    Returns->>= (IsReady []) (IsReady []) (write_byte s b) (λ t. write t bs)
      (write_byte-IsReady s b r h.0) (λ t k. write_text-IsReady t bs k h.1)
