-- ===== src/Enroll/Keys.antt =====
-- `appendAuthorizedKey`, with the file as its content, if it exists, and the answers of the system
-- calls as `Faults`.
pub mod Added
pub mod Feeds
use pitviper.Base.{
  ℕ, Bool, true, false, ◌==◌, ◌||◌, if◌then◌else◌, Option, none, some, List, [], ◌∷◌, ◌++◌, take,
  bytes_eq,
}
use pitviper.Enroll.Text.{trim_space, split_lines}

-- How the calls fail: `ReadFile` for another reason than a missing file, `MkdirAll`, `OpenFile`,
-- and a `WriteString` with the number of bytes that it wrote before it failed, for the line feed
-- and for the key.
pub record Faults : Type 0 where
  pub unreadable : Bool
  pub no_dir : Bool
  pub no_open : Bool
  pub short_newline : Option ℕ
  pub short_line : Option ℕ

-- `f.WriteString(text)` at the end of the file: the new content, and whether there was no error.
unfoldable pub write_string : Option ℕ → List ℕ → List ℕ → List ℕ × Bool
write_string none file text = (file ++ text, true)
write_string (some n) file text = (file ++ take n text, false)

-- Some line is the key.
unfoldable pub has_line : List (List ℕ) → List ℕ → Bool
has_line [] key = false
has_line (l ∷ ls) key = bytes_eq (trim_space l) key || has_line ls key

-- `len(existing) > 0 && existing[len(existing)-1] != '\n'`
unfoldable pub is_open_ended : List ℕ → Bool
is_open_ended [] = false
is_open_ended (r ∷ []) = if r == b'\n' then false else true
is_open_ended (r ∷ x ∷ xs) = is_open_ended (x ∷ xs)

-- The content that `ReadFile` returns: nothing of a missing file.
unfoldable pub contents : Option (List ℕ) → List ℕ
contents none = []
contents (some text) = text

-- The writes, after `OpenFile`.
unfoldable pub append_line : Faults → List ℕ → List ℕ → List ℕ × Bool
append_line f existing key =
    let (closed, ok) : List ℕ × Bool =
      if is_open_ended existing
      then write_string f.short_newline existing (b'\n' ∷ [])
      else (existing, true) in
    if ok then write_string f.short_line closed (key ++ b'\n' ∷ []) else (closed, false)

-- `appendAuthorizedKey`: the file, and whether the error is nil.
unfoldable pub append_authorized_key : Faults → Option (List ℕ) → List ℕ → Option (List ℕ) × Bool
append_authorized_key f file key =
    let existing : List ℕ = contents file in
    if f.unreadable
    then (file, false)
    else if has_line (split_lines existing) key
    then (file, true)
    else if f.no_dir
    then (file, false)
    else if f.no_open
    then (file, false)
    else let (out, ok) : List ℕ × Bool = append_line f existing key in (some out, ok)
