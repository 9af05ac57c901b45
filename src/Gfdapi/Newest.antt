-- ===== src/Gfdapi/Newest.antt =====
-- What the loop shows: the newest of the answers.
use pitviper.Base.{
  ℕ, List, [], ◌∷◌, codes, bytes_eq, Bool-cases, Option, none, some, ◌≡◌, refl, inl, inr,
  if◌then◌else◌, ◌∙◌, arith,
}
use pitviper.Gfdapi.{
  Config, GfdState, Net, Signal, tick, stopped, fetch_emily_gear, fetch_latest_apple,
  fetch_user_tier, fetch_field_offices, or_keep, poll, poll_ticks, poll_loop,
}

-- The polls that are made: those before the stop.
abbrev pub polled : {D : Type 0} → List (Signal D) → List (Net D)
polled [] = []
polled (stopped ∷ more) = []
polled (tick net ∷ more) = net ∷ polled more

-- The last answer that is one.
abbrev pub newest : {A B : Type 0} → (A → Option B) → List A → Option B
newest ask [] = none
newest ask (x ∷ xs) = elim (newest ask xs) [ some y ↦ some y | none ↦ ask x ]

-- The last of a list that is not empty.
abbrev last_of : {A : Type 0} → A → List A → A
last_of x [] = x
last_of x (y ∷ ys) = last_of y ys

module _ {D : Type 0} (cfg : Config) where
  abbrev gear : Net D → Option (List ℕ)
  gear net = (fetch_emily_gear net).1

  abbrev apple : Net D → Option (List ℕ)
  apple net = (fetch_latest_apple net cfg).1

  abbrev tier : Net D → Option (List ℕ)
  tier net = (fetch_user_tier net cfg).1

  abbrev offices : Net D → Option (List D)
  offices net = (fetch_field_offices net cfg).1

  -- What the polls leave of a state.
  abbrev pub shown : List (Net D) → GfdState D → GfdState D
  shown [] s = s
  shown (net ∷ nets) s = record s {
    emily_gear = or_keep (gear (last_of net nets)) (codes "UNKNOWN");
    latest_apple = or_keep (newest apple (net ∷ nets)) s.latest_apple;
    tier_name =
        if bytes_eq cfg.token []
        then s.tier_name
        else or_keep (newest tier (net ∷ nets)) s.tier_name;
    districts = or_keep (newest offices (net ∷ nets)) s.districts;
  }

  or_keep-newest :
      {B : Type 0} (ask : Net D → Option B) (net : Net D) (nets : List (Net D)) (old : B)
      → or_keep (newest ask nets) (or_keep (ask net) old) ≡ or_keep (newest ask (net ∷ nets)) old
  unfolding or_keep
  or_keep-newest ask net nets old = ground arith

  poll-shown :
      (net : Net D) (nets : List (Net D)) (s : GfdState D)
      → shown nets (poll net cfg s).1 ≡ shown (net ∷ nets) s
  unfolding poll
  poll-shown net [] s = ground arith
  poll-shown net (n ∷ nets) s =
      let apples = or_keep-newest apple net (n ∷ nets) s.latest_apple in
      let tiers = or_keep-newest tier net (n ∷ nets) s.tier_name in
      let places = or_keep-newest offices net (n ∷ nets) s.districts in
      elim (Bool-cases (bytes_eq cfg.token [])) [
        | inl e ↦ rw (e, apples, places) refl
        | inr e ↦ rw (e, apples, tiers, places) refl
      ]

  poll_ticks-shown :
      (signals : List (Signal D)) (s : GfdState D)
      → (poll_ticks cfg signals s).1 ≡ shown (polled signals) s
  unfolding poll_ticks
  poll_ticks-shown [] s = refl
  poll_ticks-shown (stopped ∷ more) s = refl
  poll_ticks-shown (tick net ∷ more) s =
      poll_ticks-shown more (poll net cfg s).1 ∙ poll-shown net (polled more) s

  -- After the first poll and those of the ticks before the stop, the gear is that of the last poll,
  -- UNKNOWN if it failed, and the apple, the tier, if there is a token, and the districts are those
  -- of the newest request that did not fail, or else as they were at the start.
  pub poll_loop-shown :
      (first : Net D) (signals : List (Signal D)) (s : GfdState D)
      → (poll_loop cfg first signals s).1 ≡ shown (first ∷ polled signals) s
  unfolding poll_loop
  poll_loop-shown first signals s =
      poll_ticks-shown signals (poll first cfg s).1 ∙ poll-shown first (polled signals) s
