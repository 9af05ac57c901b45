-- ===== src/Vterm/Csi/Safe.antt =====
-- Every control sequence returns and keeps the invariant, at parameters below 2 ^ 62, but for `EL`
-- with 1 behind the last column.
use pitviper.Base.{
  ℕ, ◌<◌, ◌≡◌, arith, Bool, true, Bool-cases, inl, inr, ◌==◌, ◌||◌, ◌&&◌, not, Option, List,
  Returns, bytes_eq, codes, sym, ◌∙◌, Returns-map, [], ◌∷◌, ==→≡,
}
use pitviper.Slice.Laws.{copy_all}
use pitviper.Vterm.Cell.{Cell}
use pitviper.Vterm.Screen.{Screen}
use pitviper.Vterm.Valid.{IsValid, Redraws, Redraws-Keeps, Returns-IsValid}
use pitviper.Vterm.Params.{num_or0, parse_nums, pos_or1}
use pitviper.Vterm.Scroll.{scroll_up, scroll_down}
use pitviper.Vterm.Scroll.Laws.{scroll_down-Redraws}
use pitviper.Vterm.Scroll.Saved.{scroll_up-Keeps}
use pitviper.Vterm.Sgr.{handle_sgr, sgr_loop, sgr_one, sgr_extended, reset_sgr}
use pitviper.Vterm.Csi.{handle_csi, csi_cells, csi_state}
use pitviper.Vterm.Csi.Bounds.{
  AllSmall, pos_or1-IsSmall, clamped-IsValid, set_region-IsValid, moves-IsValid,
}
use pitviper.Vterm.Csi.Erase.{erase_chars, erase_display, erase_line, delete_chars, insert_chars}
use pitviper.Vterm.Csi.Lines.{insert_lines, delete_lines}
use pitviper.Vterm.Csi.Drawn.{delete_chars-Redraws, insert_chars-Redraws}
use pitviper.Vterm.Csi.Erased.{erase_chars-Redraws, erase_line-Redraws}
use pitviper.Vterm.Csi.Display.{erase_display-to_end, erase_display-to_cursor, erase_display-all}
use pitviper.Vterm.Csi.Shifts.{insert_lines-Redraws, delete_lines-Redraws}
use pitviper.Vterm.Csi.Modes.{set_mode, enter_alt, leave_alt, restore_primary}
use pitviper.Vterm.Csi.Primary.{Stores, IsFresh, enter_alt-Stores}

-- The sequences that the theorems are about: `EL` with 1 only on a column of the line.
abbrev pub IsBenign : Screen → ℕ → List ℕ → Type 0
IsBenign s final nums = final ≡ b'K' → num_or0 nums ≡ 1 → s.cur_col < s.cols

drawn-IsValid :
    {s : Screen} {f : ℕ → ℕ → Option Cell} (r : Option Screen)
    → IsValid s
    → Redraws s f r
    → Returns IsValid r
drawn-IsValid {s} r v d = Returns-IsValid s r v (Redraws-Keeps v.grid d)

colours-IsValid :
    (s : Screen) (fg bg : ℕ) (bold : Bool)
    → IsValid s
    → IsValid (record s { fg = fg; bg = bg; bold = bold })
colours-IsValid s fg bg bold v = ground arith

sgr_one-IsValid : (s : Screen) (n : ℕ) → IsValid s → IsValid (sgr_one s n)
unfolding sgr_one reset_sgr
sgr_one-IsValid s n v = ground arith

sgr_extended-IsValid : (s : Screen) (n c : ℕ) → IsValid s → IsValid (sgr_extended s n c)
unfolding sgr_extended
sgr_extended-IsValid s n c v = ground arith

sgr_loop-IsValid : (s : Screen) (nums : List ℕ) → IsValid s → IsValid (sgr_loop s nums)
unfolding sgr_loop
sgr_loop-IsValid s [] v = v
sgr_loop-IsValid s (n ∷ []) v = sgr_one-IsValid s n v
sgr_loop-IsValid s (n ∷ m ∷ []) v = sgr_one-IsValid (sgr_one s n) m (sgr_one-IsValid s n v)
sgr_loop-IsValid s (n ∷ m ∷ c ∷ ns) v = elim (Bool-cases ((n == 38 || n == 48) && m == 5)) [
  | inl e ↦ rw e (sgr_loop-IsValid (sgr_extended s n c) ns (sgr_extended-IsValid s n c v))
  | inr e ↦ rw e (sgr_loop-IsValid (sgr_one s n) (m ∷ c ∷ ns) (sgr_one-IsValid s n v))
]

handle_sgr-IsValid : (s : Screen) (nums : List ℕ) → IsValid s → IsValid (handle_sgr s nums)
unfolding handle_sgr reset_sgr
handle_sgr-IsValid s [] v = ground arith
handle_sgr-IsValid s (n ∷ ns) v = sgr_loop-IsValid s (n ∷ ns) v

home-IsValid :
    (s : Screen) (r : Option Screen) {f : ℕ → ℕ → Option Cell}
    → IsValid s
    → Redraws (record s { cur_row = 0; cur_col = 0 }) f r
    → Returns IsValid r
home-IsValid s r v d = drawn-IsValid r (homed s v) d
  where
    homed : (s : Screen) → IsValid s → IsValid (record s { cur_row = 0; cur_col = 0 })
    homed s v = ground arith

erase_display-IsValid :
    (s : Screen) (nums : List ℕ) → IsValid s → Returns IsValid (erase_display s nums)
unfolding erase_display
erase_display-IsValid s nums v = elim (Bool-cases (num_or0 nums == 0)) [
  | inl e ↦ drawn-IsValid (erase_display s nums) v (erase_display-to_end s v nums (==→≡ _ 0 e))
  | inr e ↦ elim (Bool-cases (num_or0 nums == 1)) [
    | inl f ↦ drawn-IsValid (erase_display s nums) v (erase_display-to_cursor s v nums (==→≡ _ 1 f))
    | inr f ↦ elim (Bool-cases (num_or0 nums == 2 || num_or0 nums == 3)) [
      | inl g ↦ home-IsValid s (erase_display s nums) v (erase_display-all s v nums g)
      | inr g ↦ rw (e, f, g) v
    ]
  ]
]

restore_primary-IsValid :
    (s : Screen) → IsValid s → s.alt_active ≡ true → IsValid (restore_primary s s.alt_cells)
unfolding restore_primary
restore_primary-IsValid s v h = ground (arith, v.alt_size h)

leave_alt-IsValid : (s : Screen) → IsValid s → s.alt_active ≡ true → Returns IsValid (leave_alt s)
unfolding leave_alt
leave_alt-IsValid s v h =
    rw (copy_all s.cells s.alt_cells (v.alt_size h ∙ sym v.size)) (restore_primary-IsValid s v h)

hidden-IsValid : (s : Screen) (b : Bool) → IsValid s → IsValid (record s { cursor_hidden = b })
hidden-IsValid s b v = ground arith

-- Setting and resetting a private mode of a valid screen returns and keeps the invariant.
set_mode-IsValid :
    (s : Screen) (final : ℕ) (params : List ℕ)
    → IsValid s
    → Returns IsValid (set_mode s final params)
unfolding set_mode
set_mode-IsValid s final params v = elim (Bool-cases (bytes_eq params (codes "?25"))) [
  | inl e ↦ rw e (hidden-IsValid s (final == b'l') v)
  | inr e ↦ elim (Bool-cases (bytes_eq params (codes "?1049"))) [
    | inr f ↦ rw (e, f) v
    | inl f ↦ elim (Bool-cases (final == b'h' && not s.alt_active)) [
      | inl g ↦
          rw (e, f)
            (rw g (
              Returns-map (λ u. Stores s u × IsFresh u × IsValid u) IsValid (enter_alt s)
                (enter_alt-Stores s v) (λ u k. k.2)))
      | inr g ↦ elim (Bool-cases (final == b'l' && s.alt_active)) [
        | inl k ↦ rw (e, f) (rw (g, k) (leave_alt-IsValid s v (ground arith)))
        | inr k ↦ rw (e, f) (rw (g, k) v)
      ]
    ]
  ]
]

module _ (s : Screen) (final : ℕ) (nums : List ℕ) (v : IsValid s) (small : AllSmall nums) where
  csi_state-IsValid : Returns IsValid (csi_state s final nums)
  unfolding csi_state
  csi_state-IsValid = ground (
    arith,
    moves-IsValid s nums v small,
    clamped-IsValid s nums v,
    set_region-IsValid s nums v,
    handle_sgr-IsValid s nums v,
  )

  scrolled_up : Returns IsValid (scroll_up s (pos_or1 nums))
  scrolled_up =
      let k = pos_or1-IsSmall nums small in
      Returns-IsValid s (scroll_up s (pos_or1 nums)) v
        (scroll_up-Keeps s (pos_or1 nums) v.grid k.1 k.0)

  scrolled_down : Returns IsValid (scroll_down s (pos_or1 nums))
  scrolled_down =
      let k = pos_or1-IsSmall nums small in
      drawn-IsValid (scroll_down s (pos_or1 nums)) v
        (scroll_down-Redraws s (pos_or1 nums) v.grid k.1 k.0)

  erased_line : final ≡ b'K' → IsBenign s final nums → Returns IsValid (erase_line s nums)
  erased_line e ok = drawn-IsValid (erase_line s nums) v (erase_line-Redraws s v nums (ok e))

  csi_cells-IsValid : IsBenign s final nums → Returns IsValid (csi_cells s final nums)
  unfolding csi_cells
  csi_cells-IsValid ok = ground (
    arith,
    erased_line,
    drawn-IsValid (erase_chars s nums) v (erase_chars-Redraws s v nums small),
    drawn-IsValid (delete_chars s nums) v (delete_chars-Redraws s v nums small),
    drawn-IsValid (insert_chars s nums) v (insert_chars-Redraws s v nums small),
    drawn-IsValid (insert_lines s nums) v (insert_lines-Redraws s nums v small),
    drawn-IsValid (delete_lines s nums) v (delete_lines-Redraws s nums v small),
    erase_display-IsValid s nums v,
    scrolled_up,
    scrolled_down,
    csi_state-IsValid,
  )

-- A control sequence on a valid screen, with parameters below 2 ^ 62, does not panic and leaves a
-- valid screen, whatever its final byte; `EL` with 1 wants the cursor on a column of the line.
pub handle_csi-IsValid :
    (s : Screen) (final : ℕ) (params : List ℕ)
    → IsValid s
    → AllSmall (parse_nums params)
    → IsBenign s final (parse_nums params)
    → Returns IsValid (handle_csi s final params)
unfolding handle_csi
handle_csi-IsValid s final params v small ok = elim (Bool-cases (final == b'h' || final == b'l')) [
  | inl e ↦ rw e (set_mode-IsValid s final params v)
  | inr e ↦ rw e (csi_cells-IsValid s final (parse_nums params) v small ok)
]
