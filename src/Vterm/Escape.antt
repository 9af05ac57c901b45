-- ===== src/Vterm/Escape.antt =====
-- internal/vterm/vterm.go: `handleOSC` and `handleEsc`.
pub mod Safe
use pitviper.Base.{
  ℕ, ◌-◌, Bool, false, ◌&&◌, ◌||◌, ltb, leb, ◌==◌, if◌then◌else◌, Option, none, some, ◌>>=◌, List,
  [], ◌∷◌, length, get_or, bytes_eq, codes, mul, sub, slt,
}
use pitviper.Slice.{slice}
use pitviper.Vterm.Cell.{color_default}
use pitviper.Vterm.Screen.{Screen, clear}
use pitviper.Vterm.Scroll.{scroll_down}
use pitviper.Vterm.Csi.{handle_csi}
use pitviper.Vterm.Csi.Cursor.{save_cursor, restore_cursor}

-- The payload cut at its first `;`, if it has one.
unfoldable pub split_semi : List ℕ → Option (List ℕ × List ℕ)
split_semi [] = none
split_semi (b ∷ bs) =
    let rest = split_semi bs >>= λ p. some (b ∷ p.0, p.1) in
    if b == b';' then some ([], bs) else rest

unfoldable pub is_title_command : List ℕ → Bool
is_title_command cmd =
    bytes_eq cmd (codes "0") || bytes_eq cmd (codes "1") || bytes_eq cmd (codes "2")

unfoldable pub handle_osc : Screen → List ℕ → Screen
handle_osc s payload = elim (split_semi payload) [
  | none ↦ s
  | some (cmd, text) ↦ if is_title_command cmd then record s { title = text } else s
]

-- `s.esc = nil`
unfoldable pub end_esc : Screen → Screen
end_esc s = record s { esc = [] }

-- `e[i]`; every use stands behind a test of `len(e)`.
abbrev pub byte_at : List ℕ → ℕ → ℕ
byte_at e i = get_or e i 0

-- `ESC ]`: the bytes gather until BEL or ESC \.
unfoldable pub esc_osc : Screen → List ℕ → Option Screen
esc_osc s e =
    let n : ℕ = length e in
    let last : ℕ = byte_at e (n - 1) in
    if last == 0x07
    then (do payload ← slice e 2 (n - 1); some (end_esc (handle_osc s payload)))
    else if leb 3 n && byte_at e (n - 2) == 0x1b && last == b'\\'
    then (do payload ← slice e 2 (n - 2); some (end_esc (handle_osc s payload)))
    else some (if ltb 256 n then end_esc s else s)

-- `ESC M`
unfoldable pub reverse_index : Screen → Option Screen
reverse_index s =
    if s.cur_row == s.scroll_reg_top
    then scroll_down s 1
    else some (if slt 0 s.cur_row then record s { cur_row = sub s.cur_row 1 } else s)

-- `ESC c`
unfoldable pub full_reset : Screen → Option Screen
full_reset s =
    let t : Screen = record s {
      cur_row = 0;
      cur_col = 0;
      fg = color_default;
      bg = color_default;
      bold = false;
    } in
    clear t 0 (mul t.cols t.rows) (mul t.cols t.rows)

-- `ESC [`: the bytes gather until a final byte.
unfoldable pub esc_csi : Screen → List ℕ → Option Screen
esc_csi s e =
    let n : ℕ = length e in
    let last : ℕ = byte_at e (n - 1) in
    if ltb n 3
    then some s
    else if ltb last 0x40 || ltb 0x7e last
    then some (if ltb 64 n then end_esc s else s)
    else (do params ← slice e 2 (n - 1); t ← handle_csi s last params; some (end_esc t))

-- The byte after ESC decides, `e[1]`.
unfoldable pub esc_dispatch : Screen → List ℕ → ℕ → Option Screen
esc_dispatch s e b =
    if b == b']'
    then esc_osc s e
    else if b == b'['
    then esc_csi s e
    else if b == b'7'
    then some (end_esc (save_cursor s))
    else if b == b'8'
    then some (end_esc (restore_cursor s))
    else if b == b'c'
    then (do t ← full_reset s; some (end_esc t))
    else if b == b'M'
    then (do t ← reverse_index s; some (end_esc t))
    else some (if leb 0x40 b && leb b 0x7e then end_esc s else s)

unfoldable pub handle_esc : Screen → Option Screen
handle_esc s = if ltb (length s.esc) 2 then some s else esc_dispatch s s.esc (byte_at s.esc 1)
