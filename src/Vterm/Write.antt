-- ===== src/Vterm/Write.antt =====
-- internal/vterm/vterm.go: `putChar` and `Write`, which takes one byte in each round of its loop.
pub mod Put
pub mod Stream
pub mod Stuck
pub mod Escapes
pub mod Runes
pub mod Shown
pub mod Text
use pitviper.Base.{
  ℕ, ◌+◌, Bool, ◌&&◌, ◌||◌, ltb, leb, ◌==◌, if◌then◌else◌, Option, some, ◌>>=◌, List, [], ◌∷◌, ◌++◌,
  length, get_or, take, slt, sle, add, sub, mul, quot,
}
use pitviper.Slice.{store}
use pitviper.Vterm.Screen.{Screen}
use pitviper.Vterm.Scroll.{scroll_up}
use pitviper.Vterm.Escape.{handle_esc}
use pitviper.Vterm.Utf8.{utf8_seq_len, decode_rune, rune_error}

-- `s.curRow++`, and a scroll if that leaves the region.
unfoldable pub next_row : Screen → Option Screen
next_row s =
    let t : Screen = record s { cur_row = add s.cur_row 1 } in
    if slt t.scroll_reg_bot t.cur_row
    then (do u ← scroll_up t 1; some (record u { cur_row = u.scroll_reg_bot }))
    else some t

-- The rest of `putChar`: the cell under the cursor is written, and the cursor moves on.
unfoldable pub put_cell : Screen → ℕ → Option Screen
put_cell s ch = do
  cells ←
      store s.cells (add (mul s.cur_row s.cols) s.cur_col)
        (record { ch = ch; fg = s.fg; bg = s.bg; bold = s.bold })
  some (record s { cells = cells; cur_col = add s.cur_col 1 })

unfoldable pub put_char : Screen → ℕ → Option Screen
put_char s ch =
    if sle s.cols s.cur_col
    then (do t ← next_row (record s { cur_col = 0 }); put_cell t ch)
    else put_cell s ch

-- `\t`
unfoldable pub tab : Screen → Screen
tab s =
    let next : ℕ = mul (add (quot s.cur_col 8) 1) 8 in
    record s { cur_col = if sle s.cols next then sub s.cols 1 else next }

-- The `switch` of `Write`, at a byte that is in no sequence.
unfoldable pub plain_byte : Screen → ℕ → Option Screen
plain_byte s b =
    if b == 0x1b
    then some (record s { esc = 0x1b ∷ [] })
    else if b == b'\r'
    then some (record s { cur_col = 0 })
    else if b == b'\n'
    then next_row s
    else if b == 0x08
    then some (record s { cur_col = if slt 0 s.cur_col then sub s.cur_col 1 else s.cur_col })
    else if b == b'\t'
    then some (tab s)
    else if leb 0x20 b
    then put_char s b
    else some s

-- A byte that ends an unfinished UTF-8 sequence shows it as `RuneError`.
unfoldable pub flush_utf8 : Screen → ℕ → Option Screen
flush_utf8 s b =
    if slt 0 s.utf8_len && (ltb b 0x80 || leb 0xC0 b)
    then (do t ← put_char s rune_error; some (record t { utf8_len = 0 }))
    else some s

-- A continuation byte of the sequence that is being read.
unfoldable pub continue_utf8 : Screen → ℕ → Option Screen
continue_utf8 s b = do
  buf ← store s.utf8_buf s.utf8_len b
  let t : Screen = record s { utf8_buf = buf; utf8_len = s.utf8_len + 1 }
  let show = put_char t (decode_rune (take t.utf8_len t.utf8_buf)) >>= λ u.
      some (record u { utf8_len = 0 })
  if leb (utf8_seq_len (get_or t.utf8_buf 0 0)) t.utf8_len then show else some t

unfoldable pub start_utf8 : Screen → ℕ → Option Screen
start_utf8 s b = do buf ← store s.utf8_buf 0 b; some (record s { utf8_buf = buf; utf8_len = 1 })

-- One round of the loop, behind the flush.
unfoldable pub take_byte : Screen → ℕ → Option Screen
take_byte s b =
    if slt 0 s.utf8_len && leb 0x80 b && ltb b 0xC0
    then continue_utf8 s b
    else if ltb 0 (length s.esc)
    then handle_esc (record s { esc = s.esc ++ b ∷ [] })
    else if leb 0xC0 b
    then start_utf8 s b
    else plain_byte s b

unfoldable pub write_byte : Screen → ℕ → Option Screen
write_byte s b = flush_utf8 s b >>= λ t. take_byte t b

-- `Write`
unfoldable pub write : Screen → List ℕ → Option Screen
write s [] = some s
write s (b ∷ bs) = write_byte s b >>= λ t. write t bs
