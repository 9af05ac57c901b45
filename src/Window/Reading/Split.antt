-- ===== src/Window/Reading/Split.antt =====
-- The screen does not depend on how the stream is split over the reads.
use pitviper.Base.{
  ℕ, false, Option, none, some, List, [], ◌∷◌, ◌++◌, ◌>>=◌, ◌≡◌, refl, sym, ap, ◌∙◌, arith, All,
  >>=-cong, >>=-assoc, Returns,
}
use pitviper.Vterm.Screen.{Screen}
use pitviper.Vterm.Write.{write}
use pitviper.Vterm.Write.Escapes.{IsSteady, IsCalm, write-IsSteady}
use pitviper.Vterm.Write.Text.{write-append}
use pitviper.Window.Reading.{
  Account, Chunk, Reader, Loop, auto_login, take_chunk, settle, read_once, read_loop,
}

-- All the bytes that were read.
abbrev pub stream : List Chunk → List ℕ
stream [] = []
stream (c ∷ cs) = c.bytes ++ stream cs

-- The screen of a loop that goes on or ended with an error of `Read`.
abbrev pub screen_of : Loop → Option Screen
screen_of (Loop.reading r) = some r.screen
screen_of (Loop.ended r) = some r.screen
screen_of Loop.recovered = none

login-screen :
    (a : Account) (chunk : List ℕ) (r : Reader) → (auto_login a chunk r).screen ≡ r.screen
unfolding auto_login
login-screen a chunk r = ground arith

recovered_stays : (a : Account) (cs : List Chunk) → read_loop a cs Loop.recovered ≡ Loop.recovered
unfolding read_loop
recovered_stays a [] = refl
recovered_stays a (c ∷ cs) = refl

module _ (a : Account) where
  -- A chunk, and then the others.
  after_chunk :
      (bytes : List ℕ) (r : Reader) (next : Reader → Option Screen) (rest : List ℕ)
      → ((s : Reader) → next s ≡ write s.screen rest)
      → (take_chunk a bytes r >>= next) ≡ write r.screen (bytes ++ rest)
  unfolding take_chunk
  after_chunk [] r next rest h = h r
  after_chunk (b ∷ bs) r next rest h =
      >>=-assoc (write r.screen (b ∷ bs))
        (λ t. some (auto_login a (b ∷ bs) (record r { screen = t }))) next
      ∙ >>=-cong (write r.screen (b ∷ bs))
          (λ t. next (auto_login a (b ∷ bs) (record r { screen = t }))) (λ t. write t rest)
          (shown h)
      ∙ sym (write-append r.screen (b ∷ bs) rest)
    where
      shown :
          ((s : Reader) → next s ≡ write s.screen rest)
          → (t : Screen) → next (auto_login a (b ∷ bs) (record r { screen = t })) ≡ write t rest
      shown h t =
          h (auto_login a (b ∷ bs) (record r { screen = t }))
          ∙ ap (λ u. write u rest) (login-screen a (b ∷ bs) (record r { screen = t }))

  abbrev screen_after : List Chunk → Reader → Option Screen
  screen_after cs r = screen_of (read_loop a cs (Loop.reading r))

  settled :
      (cs : List Chunk) (o : Option Reader)
      → screen_of (read_loop a cs (settle false o)) ≡ (o >>= screen_after cs)
  unfolding settle
  settled cs none = ap screen_of (recovered_stays a cs)
  settled cs (some r) = refl

  one_turn :
      (c : Chunk) (cs : List Chunk) (r : Reader)
      → c.err ≡ false
      → screen_of (read_loop a cs (read_once a c r)) ≡ (take_chunk a c.bytes r >>= screen_after cs)
  unfolding read_once
  one_turn c cs r fine =
      ap (λ e. screen_of (read_loop a cs (settle e (take_chunk a c.bytes r)))) fine
      ∙ settled cs (take_chunk a c.bytes r)

  -- Reads without an error: the screen of the loop is what `Write` makes of all the bytes at once,
  -- however they are split over the reads, and there is none exactly if that panics.
  read_loop-stream :
      (cs : List Chunk) (r : Reader)
      → All (λ c. c.err ≡ false) cs
      → screen_of (read_loop a cs (Loop.reading r)) ≡ write r.screen (stream cs)
  unfolding read_loop write
  read_loop-stream [] r h = refl
  read_loop-stream (c ∷ cs) r h =
      one_turn c cs r h.0
      ∙ after_chunk c.bytes r (screen_after cs) (stream cs) (λ s. read_loop-stream cs s h.1)

  -- Reads without an error from a steady screen, of a stream whose control sequences end well: the
  -- loop goes on or ends without a panic, and the screen is steady again.
  pub read_loop-IsSteady :
      (cs : List Chunk) (r : Reader)
      → All (λ c. c.err ≡ false) cs
      → IsSteady r.screen
      → IsCalm r.screen (stream cs)
      → Returns IsSteady (screen_of (read_loop a cs (Loop.reading r)))
  read_loop-IsSteady cs r fine steady calm =
      rw (read_loop-stream cs r fine) (write-IsSteady r.screen (stream cs) steady calm)
