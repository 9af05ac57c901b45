-- ===== src/Gfdapi/Discreet.antt =====
-- Where the token goes.
use pitviper.Base.{
  ℕ, List, [], ◌∷◌, ◌++◌, codes, bytes_eq, Bool, true, false, Bool-cases, not, none, some, ◌≡◌,
  refl, ◌⊎◌, inl, inr, if◌then◌else◌, All, All-append,
}
use pitviper.Gfdapi.{
  Config, GfdState, Request, Net, Signal, tick, stopped, get, get_with_token, fetch_emily_gear,
  fetch_latest_apple, fetch_user_tier, fetch_field_offices, poll, poll_ticks, poll_loop,
}

-- A request without a header, or one to an address below IDUNA's with the token, if there is one.
abbrev pub IsDiscreet : Config → Request → Type 0
IsDiscreet cfg r =
    (r.authorization ≡ none)
    ⊎ ((bytes_eq cfg.token [] ≡ false)
        × (r.authorization ≡ some (codes "Bearer " ++ cfg.token))
        × ((path : List ℕ) × (r.url ≡ cfg.iduna_base ++ path)))

get_with_token-IsDiscreet :
    (cfg : Config) (path : List ℕ) → IsDiscreet cfg (get_with_token cfg (cfg.iduna_base ++ path))
unfolding get_with_token
get_with_token-IsDiscreet cfg path = elim (Bool-cases (bytes_eq cfg.token [])) [
  | inl e ↦ rw e (inl refl)
  | inr e ↦ rw e (inr (refl, refl, (path, refl)))
]

All-if :
    (P : Request → Type 0) (r1 r2 r3 r4 : Request) (b : Bool)
    → P r1
    → P r2
    → P r3
    → P r4
    → All P (r1 ∷ r2 ∷ (if b then r3 ∷ r4 ∷ [] else r4 ∷ []))
All-if P r1 r2 r3 r4 true h1 h2 h3 h4 = (h1, (h2, (h3, (h4, tt))))
All-if P r1 r2 r3 r4 false h1 h2 h3 h4 = (h1, (h2, (h4, tt)))

module _ {D : Type 0} (cfg : Config) where
  poll-IsDiscreet : (net : Net D) (s : GfdState D) → All (IsDiscreet cfg) (poll net cfg s).0
  unfolding poll fetch_emily_gear fetch_latest_apple fetch_user_tier fetch_field_offices get
  poll-IsDiscreet net s =
      All-if (IsDiscreet cfg) _ _ _ _ (not (bytes_eq cfg.token [])) (inl refl)
        (get_with_token-IsDiscreet cfg _) (get_with_token-IsDiscreet cfg _)
        (get_with_token-IsDiscreet cfg _)

  poll_ticks-IsDiscreet :
      (signals : List (Signal D)) (s : GfdState D)
      → All (IsDiscreet cfg) (poll_ticks cfg signals s).0
  unfolding poll_ticks
  poll_ticks-IsDiscreet [] s = tt
  poll_ticks-IsDiscreet (stopped ∷ more) s = tt
  poll_ticks-IsDiscreet (tick net ∷ more) s =
      All-append (IsDiscreet cfg) (poll net cfg s).0 _ (poll-IsDiscreet net s)
        (poll_ticks-IsDiscreet more (poll net cfg s).1)

  -- Whatever the network answers, every request of the loop either carries no token or goes to an
  -- address that begins with IDUNA's, with the token, which is not empty then.
  pub poll_loop-IsDiscreet :
      (first : Net D) (signals : List (Signal D)) (s : GfdState D)
      → All (IsDiscreet cfg) (poll_loop cfg first signals s).0
  unfolding poll_loop
  poll_loop-IsDiscreet first signals s =
      All-append (IsDiscreet cfg) (poll first cfg s).0 _ (poll-IsDiscreet first s)
        (poll_ticks-IsDiscreet signals (poll first cfg s).1)
