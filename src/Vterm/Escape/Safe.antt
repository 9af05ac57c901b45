-- ===== src/Vterm/Escape/Safe.antt =====
-- `handleEsc` on a valid screen: every branch returns and keeps the invariant, at control sequences
-- that are themselves safe.
use pitviper.Base.{
  ℕ, ◌-◌, ◌≤◌, ◌≡◌, ◌∙◌, arith, Bool, true, false, Bool-cases, inl, inr, leb, ◌&&◌, if◌then◌else◌,
  Option, none, some, List, length, take, drop, ◌>>=◌, Returns, Returns->>=, mul,
}
use pitviper.Slice.{slice}
use pitviper.Slice.Laws.{slice-Yields}
use pitviper.Vterm.Cell.{color_default}
use pitviper.Vterm.Screen.{Screen, clear}
use pitviper.Vterm.Valid.{IsValid, Redraws-Keeps, Returns-IsValid}
use pitviper.Vterm.Valid.Clear.{full_clear-Redraws, mul-area}
use pitviper.Vterm.Params.{parse_nums}
use pitviper.Vterm.Scroll.{scroll_down}
use pitviper.Vterm.Scroll.Laws.{scroll_down-Redraws}
use pitviper.Vterm.Csi.{handle_csi}
use pitviper.Vterm.Csi.Cursor.{save_cursor, restore_cursor}
use pitviper.Vterm.Csi.Bounds.{AllSmall}
use pitviper.Vterm.Csi.Safe.{IsBenign, handle_csi-IsValid}
use pitviper.Vterm.Csi.Frame.{Leaves, handle_csi-Leaves, scroll_down-Leaves, clear-Leaves}
use pitviper.Vterm.Escape.{
  handle_osc, split_semi, is_title_command, end_esc, byte_at, esc_osc, reverse_index, full_reset,
  esc_csi, esc_dispatch, handle_esc,
}

-- The bytes between `ESC [` and the last byte.
abbrev pub params_of : List ℕ → List ℕ
params_of e = take (length e - 1 - 2) (drop 2 e)

abbrev pub is_final : ℕ → Bool
is_final b = leb 0x40 b && leb b 0x7e

-- If the gathered bytes end a control sequence, its parameters are below 2 ^ 62, and it is not `EL`
-- with 1 behind the last column.
abbrev pub EndsWell : Screen → List ℕ → Type 0
EndsWell s e =
    byte_at e 1 ≡ b'['
    → is_final (byte_at e (length e - 1)) ≡ true
    → AllSmall (parse_nums (params_of e))
      × IsBenign s (byte_at e (length e - 1)) (parse_nums (params_of e))

-- A valid screen with no UTF-8 sequence pending.
abbrev pub IsIdle : Screen → Type 0
IsIdle t = IsValid t × (t.utf8_len ≡ 0)

with_frame :
    (s : Screen) (r : Option Screen)
    → s.utf8_len ≡ 0
    → Returns IsValid r
    → Leaves s r
    → Returns IsIdle r
with_frame s none z v f = v
with_frame s (some t) z v f = (v, f.utf8_len ∙ z)

end_esc-IsIdle : (s : Screen) → IsIdle s → IsIdle (end_esc s)
unfolding end_esc
end_esc-IsIdle s (v, z) = (ground arith, z)

handle_osc-IsIdle : (s : Screen) (payload : List ℕ) → IsIdle s → IsIdle (handle_osc s payload)
unfolding handle_osc
handle_osc-IsIdle s payload (v, z) = go (split_semi payload)
  where
    titled : (text : List ℕ) → IsValid (record s { title = text })
    titled text = ground arith

    go :
        (o : Option (List ℕ × List ℕ))
        → IsIdle (elim o [
          | none ↦ s
          | some (cmd, text) ↦ if is_title_command cmd then record s { title = text } else s
        ])
    go none = (v, z)
    go (some (cmd, text)) = elim (Bool-cases (is_title_command cmd)) [
      | inl e ↦ rw e (titled text, z)
      | inr e ↦ rw e (v, z)
    ]

module _ (s : Screen) (v : IsValid s) (z : s.utf8_len ≡ 0) where
  ended : (r : Option Screen) → Returns IsIdle r → Returns IsIdle (r >>= λ t. some (end_esc t))
  ended r h = Returns->>= IsIdle IsIdle r (λ t. some (end_esc t)) h end_esc-IsIdle

  titled-IsIdle :
      (e : List ℕ) (m : ℕ)
      → 2 ≤ m
      → m ≤ length e
      → Returns IsIdle (slice e 2 m >>= λ payload. some (end_esc (handle_osc s payload)))
  titled-IsIdle e m p q = rw (slice-Yields e 2 m p q) (
      end_esc-IsIdle (handle_osc s (take (m - 2) (drop 2 e)))
        (handle_osc-IsIdle s (take (m - 2) (drop 2 e)) (v, z)))

  esc_osc-IsIdle : (e : List ℕ) → 2 ≤ length e → byte_at e 1 ≡ b']' → Returns IsIdle (esc_osc s e)
  unfolding esc_osc
  esc_osc-IsIdle e p opened =
      let idle = end_esc-IsIdle s (v, z) in
      ground (arith, titled-IsIdle e (length e - 1), titled-IsIdle e (length e - 2), idle, v, z)

  scrolled : Returns IsIdle (scroll_down s 1)
  scrolled =
      let d = scroll_down-Redraws s 1 v.grid (omega arith) (omega arith) in
      with_frame s (scroll_down s 1) z
        (Returns-IsValid s (scroll_down s 1) v (Redraws-Keeps v.grid d)) (scroll_down-Leaves s 1)

  reverse_index-IsIdle : Returns IsIdle (reverse_index s)
  unfolding reverse_index
  reverse_index-IsIdle = ground (arith, scrolled, v, z)

  full_reset-IsIdle : Returns IsIdle (full_reset s)
  unfolding full_reset
  full_reset-IsIdle =
      let t : Screen = record s {
        cur_row = 0;
        cur_col = 0;
        fg = color_default;
        bg = color_default;
        bold = false;
      } in
      let w : IsValid t = ground arith in
      let size = mul-area t w.grid in
      let r : Option Screen = clear t 0 (mul t.cols t.rows) (mul t.cols t.rows) in
      with_frame t r z
        (Returns-IsValid t r w
          (Redraws-Keeps w.grid (full_clear-Redraws t (mul t.cols t.rows) w.grid size)))
        (clear-Leaves t 0 (mul t.cols t.rows) (mul t.cols t.rows))

  csi-IsIdle :
      (e : List ℕ)
      → EndsWell s e
      → byte_at e 1 ≡ b'['
      → is_final (byte_at e (length e - 1)) ≡ true
      → 3 ≤ length e
      → Returns IsIdle (
          slice e 2 (length e - 1) >>= λ params.
          handle_csi s (byte_at e (length e - 1)) params >>= λ t. some (end_esc t))
  csi-IsIdle e ok opened final long =
      let (small, benign) = ok opened final in
      let last : ℕ = byte_at e (length e - 1) in
      let r : Option Screen = handle_csi s last (params_of e) in
      rw (slice-Yields e 2 (length e - 1) (omega arith) (omega arith)) (
        ended r (
          with_frame s r z (handle_csi-IsValid s last (params_of e) v small benign)
            (handle_csi-Leaves s last (params_of e))))

  esc_csi-IsIdle : (e : List ℕ) → EndsWell s e → byte_at e 1 ≡ b'[' → Returns IsIdle (esc_csi s e)
  unfolding esc_csi
  esc_csi-IsIdle e ok opened =
      let idle = end_esc-IsIdle s (v, z) in ground (arith, csi-IsIdle e ok opened, idle, v, z)

  saved : IsIdle (end_esc (save_cursor s))
  unfolding save_cursor end_esc
  saved = (ground arith, z)

  restored : IsIdle (end_esc (restore_cursor s))
  unfolding restore_cursor end_esc
  restored = (ground arith, z)

  -- `handleEsc` on a valid screen, with a control sequence that ends well, returns a valid screen
  -- with no UTF-8 sequence pending.
  pub handle_esc-IsIdle : EndsWell s s.esc → Returns IsIdle (handle_esc s)
  unfolding handle_esc esc_dispatch
  handle_esc-IsIdle ok = ground (
    arith,
    esc_osc-IsIdle s.esc,
    esc_csi-IsIdle s.esc ok,
    saved,
    restored,
    ended (full_reset s) full_reset-IsIdle,
    ended (reverse_index s) reverse_index-IsIdle,
    end_esc-IsIdle s (v, z),
    v,
    z,
  )
