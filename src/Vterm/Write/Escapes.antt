-- ===== src/Vterm/Write/Escapes.antt =====
-- `Write` over any bytes, escape sequences included.
use pitviper.Base.{
  ℕ, ◌≤◌, ◌<◌, ◌≡◌, refl, ◌∙◌, ap, arith, true, false, Bool-cases, inl, inr, ◌⊎◌, ltb, ◌==◌, ==→≡,
  ==→≢, some, List, [], ◌∷◌, ◌++◌, length, slt, Returns, Returns->>=, Returns-self, Returns-map,
}
use pitviper.Vterm.Screen.{Screen}
use pitviper.Vterm.Valid.{IsValid}
use pitviper.Vterm.Utf8.{rune_error}
use pitviper.Vterm.Escape.{handle_esc}
use pitviper.Vterm.Escape.Safe.{EndsWell, IsIdle, handle_esc-IsIdle}
use pitviper.Vterm.Write.{put_char, plain_byte, flush_utf8, take_byte, write_byte, write}
use pitviper.Vterm.Write.Put.{Reads, put_char-Reads, plain_byte-Reads}
use pitviper.Vterm.Write.Stream.{IsReady, write_byte-IsReady}

-- What holds between the bytes: the screen is valid, and no UTF-8 sequence is pending inside an
-- escape sequence, nor complete.
abbrev pub IsSteady : Screen → Type 0
IsSteady t = IsValid t × (t.utf8_len < 4) × ((t.esc ≡ []) ⊎ (t.utf8_len ≡ 0))

-- Each control sequence that the bytes complete ends well on the screen that it meets.
abbrev pub IsCalm : Screen → List ℕ → Type 0
IsCalm s [] = Unit {0}
IsCalm s (b ∷ bs) =
    EndsWell s (s.esc ++ b ∷ []) × ((t : Screen) → write_byte s b ≡ some t → IsCalm t bs)

idle-IsSteady : (t : Screen) → IsIdle t → IsSteady t
idle-IsSteady t (v, z) = (v, omega arith, inr z)

ready-IsSteady : (t : Screen) → IsReady [] t → IsSteady t
ready-IsSteady t (v, e, h) = (v, h, inl e)

reset-IsIdle : (s : Screen) → IsValid s → IsIdle (record s { utf8_len = 0 })
reset-IsIdle s v = (ground arith, refl)

-- ESC ends a pending UTF-8 sequence, and opens an escape sequence.
flush_esc-IsIdle :
    (s : Screen) → IsValid s → Returns (λ t. IsIdle t × (t.esc ≡ s.esc)) (flush_utf8 s 0x1b)
unfolding flush_utf8
flush_esc-IsIdle s v = elim (Bool-cases (slt 0 s.utf8_len)) [
  | inl p ↦ rw p (
      Returns->>= (Reads s.esc s.utf8_len) (λ t. IsIdle t × (t.esc ≡ s.esc)) (put_char s rune_error)
        (λ t. some (record t { utf8_len = 0 })) (put_char-Reads s rune_error v)
        (λ t k. (reset-IsIdle t k.0, k.1)))
  | inr p ↦ rw p ((v, ground (arith, v.utf8_in)), refl)
]

plain_esc-IsIdle : (s : Screen) → IsIdle s → Returns IsIdle (plain_byte s 0x1b)
plain_esc-IsIdle s (v, z) =
    Returns-map (Reads (0x1b ∷ []) s.utf8_len) IsIdle (plain_byte s 0x1b)
      (plain_byte-Reads s 0x1b v) (λ t k. (k.0, k.2 ∙ z))

gather-IsIdle :
    (s : Screen) (b : ℕ)
    → IsIdle s
    → EndsWell s (s.esc ++ b ∷ [])
    → Returns IsIdle (handle_esc (record s { esc = s.esc ++ b ∷ [] }))
gather-IsIdle s b (v, z) ok =
    let e : List ℕ = s.esc ++ b ∷ [] in handle_esc-IsIdle (record s { esc = e }) (ground arith) z ok

-- One byte inside an escape sequence.
inside-IsIdle :
    (s : Screen) (b : ℕ)
    → IsIdle s
    → 1 ≤ length s.esc
    → EndsWell s (s.esc ++ b ∷ [])
    → Returns IsIdle (write_byte s b)
unfolding write_byte flush_utf8 take_byte
inside-IsIdle s b (v, z) opened ok =
    let none_pending : slt 0 s.utf8_len ≡ false = ap (slt 0) z in
    let gathering : ltb 0 (length s.esc) ≡ true = ground arith in
    rw none_pending (rw (none_pending, gathering) (gather-IsIdle s b (v, z) ok))

starts-IsIdle : (s : Screen) → IsIdle s → s.esc ≡ [] → Returns IsIdle (take_byte s 0x1b)
unfolding take_byte
starts-IsIdle s (v, z) e =
    let none_pending : slt 0 s.utf8_len ≡ false = ap (slt 0) z in
    let closed : ltb 0 (length s.esc) ≡ false = ap (λ x. ltb 0 (length x)) e in
    rw (none_pending, closed) (plain_esc-IsIdle s (v, z))

open_esc-IsIdle : (s : Screen) → IsValid s → s.esc ≡ [] → Returns IsIdle (write_byte s 0x1b)
unfolding write_byte
open_esc-IsIdle s v e =
    Returns->>= (λ t. IsIdle t × (t.esc ≡ s.esc)) IsIdle (flush_utf8 s 0x1b) (λ t. take_byte t 0x1b)
      (flush_esc-IsIdle s v) (λ t k. starts-IsIdle t k.0 (k.1 ∙ e))

empty_or_long : (xs : List ℕ) → (xs ≡ []) ⊎ (1 ≤ length xs)
empty_or_long [] = inl refl
empty_or_long (x ∷ xs) = inr (omega arith)

-- One byte, on a screen that is steady.
write_byte-IsSteady :
    (s : Screen) (b : ℕ)
    → IsSteady s
    → EndsWell s (s.esc ++ b ∷ [])
    → Returns IsSteady (write_byte s b)
write_byte-IsSteady s b (v, h, apart) ok = elim (empty_or_long s.esc) [
  | inl e ↦ elim (Bool-cases (b == 0x1b)) [
    | inl esc ↦
        rw (==→≡ b 0x1b esc)
          (Returns-map IsIdle IsSteady (write_byte s 0x1b) (open_esc-IsIdle s v e) idle-IsSteady)
    | inr other ↦
        Returns-map (IsReady []) IsSteady (write_byte s b)
          (write_byte-IsReady s b (v, e, h) (==→≢ b 0x1b other)) ready-IsSteady
  ]
  | inr long ↦
      let z : s.utf8_len ≡ 0 = elim apart [
        | inl e ↦ absurd (omega (arith, ap length e))
        | inr z ↦ z
      ] in
      Returns-map IsIdle IsSteady (write_byte s b) (inside-IsIdle s b (v, z) long ok) idle-IsSteady
]

-- Any bytes on a steady screen, with control sequences that end well: `Write` does not panic, and
-- the screen is steady again.
pub write-IsSteady :
    (s : Screen) (text : List ℕ) → IsSteady s → IsCalm s text → Returns IsSteady (write s text)
unfolding write
write-IsSteady s [] r calm = r
write-IsSteady s (b ∷ bs) r calm =
    Returns->>= (λ t. IsSteady t × (write_byte s b ≡ some t)) IsSteady (write_byte s b)
      (λ t. write t bs) (Returns-self (write_byte s b) IsSteady (write_byte-IsSteady s b r calm.0))
      (λ t k. write-IsSteady t bs k.0 (calm.1 t k.1))
