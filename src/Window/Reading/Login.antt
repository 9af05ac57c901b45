-- ===== src/Window/Reading/Login.antt =====
-- What the automatic login sends.
use pitviper.Base.{
  ℕ, Bool, true, false, Option, none, some, List, [], ◌∷◌, ◌++◌, ◌>>=◌, ◌≡◌, arith, if◌then◌else◌,
  bytes_eq,
}
use pitviper.Vterm.Screen.{Screen}
use pitviper.Vterm.Write.{write}
use pitviper.Window.Reading.{
  Account, Chunk, Reader, Loop, auto_login, take_chunk, settle, read_once, read_loop,
}

-- What was sent is what the flags say: the name first, then the password, each at most once, and
-- only if both are set in GFD mode.
pub record IsOrderly (a : Account) (r : Reader) : Type 0 where
  pub order : r.pass_sent ≡ true → r.name_sent ≡ true
  pub allowed :
      r.name_sent ≡ true
      → (a.gfd_mode ≡ true) × (bytes_eq a.user [] ≡ false) × (bytes_eq a.pass [] ≡ false)
  pub sent :
      r.sent
      ≡ (if r.name_sent then (a.user ++ b'\r' ∷ b'\n' ∷ []) ∷ [] else [])
        ++ (if r.pass_sent then (a.pass ++ b'\r' ∷ b'\n' ∷ []) ∷ [] else [])

auto_login-IsOrderly :
    (a : Account) (chunk : List ℕ) (r : Reader) → IsOrderly a r → IsOrderly a (auto_login a chunk r)
unfolding auto_login
auto_login-IsOrderly a chunk r h = ground (arith, h)

-- Of every reader that the loop ends or goes on with.
abbrev pub Orderly : Account → Loop → Type 0
Orderly a (Loop.reading r) = IsOrderly a r
Orderly a (Loop.ended r) = IsOrderly a r
Orderly a Loop.recovered = Unit {0}

module _ (a : Account) where
  same-IsOrderly : (r : Reader) (t : Screen) → IsOrderly a r → IsOrderly a (record r { screen = t })
  same-IsOrderly r t h = record { order = h.order; allowed = h.allowed; sent = h.sent }

  settle-Orderly : (err : Bool) (r : Reader) → IsOrderly a r → Orderly a (settle err (some r))
  unfolding settle
  settle-Orderly true r h = h
  settle-Orderly false r h = h

  shown-Orderly :
      (err : Bool) (bytes : List ℕ) (r : Reader) (o : Option Screen)
      → IsOrderly a r
      → Orderly a (settle err (o >>= λ t. some (auto_login a bytes (record r { screen = t }))))
  unfolding settle
  shown-Orderly err bytes r none h = tt
  shown-Orderly err bytes r (some t) h =
      let u : Reader = record r { screen = t } in
      settle-Orderly err (auto_login a bytes u)
        (auto_login-IsOrderly a bytes u (same-IsOrderly r t h))

  chunk-Orderly :
      (err : Bool) (bytes : List ℕ) (r : Reader)
      → IsOrderly a r
      → Orderly a (settle err (take_chunk a bytes r))
  unfolding take_chunk
  chunk-Orderly err [] r h = settle-Orderly err r h
  chunk-Orderly err (b ∷ bs) r h = shown-Orderly err (b ∷ bs) r (write r.screen (b ∷ bs)) h

  -- Whatever is read, the loop sends the name and the password of the account at most once each,
  -- the password only after the name, and nothing else; and only in GFD mode with both set.
  pub read_loop-Orderly : (cs : List Chunk) (l : Loop) → Orderly a l → Orderly a (read_loop a cs l)
  unfolding read_loop read_once
  read_loop-Orderly [] l h = h
  read_loop-Orderly (c ∷ cs) (Loop.reading r) h =
      read_loop-Orderly cs (read_once a c r) (chunk-Orderly c.err c.bytes r h)
  read_loop-Orderly (c ∷ cs) (Loop.ended r) h = h
  read_loop-Orderly (c ∷ cs) Loop.recovered h = tt
