-- ===== src/Vterm/Write/Stuck.antt =====
-- An escape sequence that never ends: ESC followed by a byte outside `@` to `~` that the handler
-- does not know, such as `ESC ( B` or `ESC =`.
use pitviper.Base.{
  ℕ, ◌<◌, ◌≡◌, ◌≢◌, ◌∙◌, ap, arith, ltb, false, some, List, [], ◌∷◌, ◌++◌, length, slt,
  append_assoc, append-nil, sym,
}
use pitviper.Vterm.Screen.{Screen}
use pitviper.Vterm.Escape.{handle_esc, esc_dispatch}
use pitviper.Vterm.Write.{plain_byte, flush_utf8, take_byte, write_byte, write}

-- A byte below `@` that is no digit 7 or 8: the sequences of this kind that programs send select a
-- character set or a keypad mode.
abbrev pub IsIntermediate : ℕ → Type 0
IsIntermediate b = (b < 0x40) × (b ≢ b'7') × (b ≢ b'8')

-- The screen with the given escape buffer.
abbrev pub gathered : Screen → List ℕ → Screen
gathered s e = record s { esc = e }

module _ (b : ℕ) (inter : IsIntermediate b) where
  dispatch_ignores : (s : Screen) (e : List ℕ) → esc_dispatch s e b ≡ some s
  unfolding esc_dispatch
  dispatch_ignores s e = ground arith

  module _ (s : Screen) (idle : s.utf8_len ≡ 0) where
    none_pending : slt 0 s.utf8_len ≡ false
    none_pending = ap (slt 0) idle

    gather_one :
        (rest : List ℕ) (c : ℕ)
        → write_byte (gathered s (0x1b ∷ b ∷ rest)) c
          ≡ some (gathered s (0x1b ∷ b ∷ (rest ++ c ∷ [])))
    unfolding write_byte flush_utf8 take_byte handle_esc
    gather_one rest c =
        let e : List ℕ = 0x1b ∷ b ∷ (rest ++ c ∷ []) in
        ground (arith, idle, dispatch_ignores (gathered s e) e)

    gather_all :
        (rest text : List ℕ)
        → write (gathered s (0x1b ∷ b ∷ rest)) text ≡ some (gathered s (0x1b ∷ b ∷ (rest ++ text)))
    unfolding write
    gather_all rest [] = ap (λ r. some (gathered s (0x1b ∷ b ∷ r))) (sym (append-nil rest))
    gather_all rest (c ∷ cs) = rw (gather_one rest c) (
        gather_all (rest ++ c ∷ []) cs
        ∙ ap (λ r. some (gathered s (0x1b ∷ b ∷ r))) (append_assoc rest (c ∷ []) cs))

    open_esc : s.esc ≡ [] → write_byte s 0x1b ≡ some (gathered s (0x1b ∷ []))
    unfolding write_byte flush_utf8 take_byte plain_byte
    open_esc e =
        let closed : ltb 0 (length s.esc) ≡ false = ap (λ x. ltb 0 (length x)) e in
        ground (arith, idle, closed)

    open_sequence : write_byte (gathered s (0x1b ∷ [])) b ≡ some (gathered s (0x1b ∷ b ∷ []))
    unfolding write_byte flush_utf8 take_byte handle_esc
    open_sequence =
        let e : List ℕ = 0x1b ∷ b ∷ [] in ground (arith, idle, dispatch_ignores (gathered s e) e)

    -- Where no escape sequence is open and no UTF-8 sequence is pending, ESC and a byte below `@`
    -- that is no digit 7 or 8 swallow all that follows: every later byte goes to the escape buffer
    -- and nothing else of the screen changes, however much is written.
    pub write-stuck :
        s.esc ≡ []
        → (text : List ℕ) → write s (0x1b ∷ b ∷ text) ≡ some (gathered s (0x1b ∷ b ∷ text))
    unfolding write
    write-stuck e text = rw (open_esc e) (rw open_sequence (gather_all [] text))
