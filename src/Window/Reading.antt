-- ===== src/Window/Reading.antt =====
-- cmd/pitviper/main.go: the goroutine that reads the connection, with the automatic login to a MUD.
pub mod Split
pub mod Login
use pitviper.Base.{
  ℕ, Bool, true, false, not, ltb, ◌&&◌, ◌||◌, if◌then◌else◌, Option, none, some, List, [], ◌∷◌,
  ◌++◌, length, bytes_eq, ◌>>=◌, contains, codes,
}
use pitviper.Vterm.Screen.{Screen}
use pitviper.Vterm.Write.{write}

-- `gfdMode`, `GFD_USER` and `GFD_PASS`.
pub record Account : Type 0 where
  pub gfd_mode : Bool
  pub user : List ℕ
  pub pass : List ℕ

-- What one `Read` returns: `buf[:n]`, and whether there is an error, the end of the stream
-- included.
pub record Chunk : Type 0 where
  pub bytes : List ℕ
  pub err : Bool

-- The screen, `loginState`, and what was written to the connection, in order.
pub record Reader : Type 0 where
  pub screen : Screen
  pub name_sent : Bool
  pub pass_sent : Bool
  pub sent : List (List ℕ)

-- The loop goes on, or it ended with an error of `Read` and `running` is false, or it ended with a
-- panic that was recovered, and `running` is false.
pub data Loop : Type 0 where
  reading : Reader → Loop
  ended : Reader → Loop
  recovered : Loop

-- The login, after a chunk was shown.
unfoldable pub auto_login : Account → List ℕ → Reader → Reader
auto_login a chunk r =
    if a.gfd_mode && not (bytes_eq a.user []) && not (bytes_eq a.pass [])
    then (if not r.name_sent && contains chunk (codes "Enter your name:")
        then record r { sent = r.sent ++ (a.user ++ b'\r' ∷ b'\n' ∷ []) ∷ []; name_sent = true }
        else if r.name_sent
            && not r.pass_sent
            && (contains chunk (codes "assword:") || contains chunk (codes "Enter your password:"))
        then record r { sent = r.sent ++ (a.pass ++ b'\r' ∷ b'\n' ∷ []) ∷ []; pass_sent = true }
        else r)
    else r

-- The bytes of a chunk, if there are any.
unfoldable pub take_chunk : Account → List ℕ → Reader → Option Reader
take_chunk a [] r = some r
take_chunk a (b ∷ bs) r = do
  screen ← write r.screen (b ∷ bs)
  some (auto_login a (b ∷ bs) (record r { screen = screen }))

-- The end of a turn, with whether `Read` gave an error.
unfoldable pub settle : Bool → Option Reader → Loop
settle err none = Loop.recovered
settle err (some r) = if err then Loop.ended r else Loop.reading r

-- One turn of the loop.
unfoldable pub read_once : Account → Chunk → Reader → Loop
read_once a c r = settle c.err (take_chunk a c.bytes r)

-- The loop over what the calls of `Read` return.
unfoldable pub read_loop : Account → List Chunk → Loop → Loop
read_loop a [] l = l
read_loop a (c ∷ cs) (Loop.reading r) = read_loop a cs (read_once a c r)
read_loop a (c ∷ cs) (Loop.ended r) = Loop.ended r
read_loop a (c ∷ cs) Loop.recovered = Loop.recovered
