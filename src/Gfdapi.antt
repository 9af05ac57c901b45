-- ===== src/Gfdapi.antt =====
-- internal/gfdapi/gfdapi.go: the requests of a poll, what it keeps of their answers, and the loop
-- that polls until it is stopped.
pub mod Discreet
pub mod Newest
use pitviper.Base.{
  ℕ, Bool, true, false, not, ◌&&◌, ◌||◌, ◌==◌, if◌then◌else◌, Option, none, some, ◌>>=◌, List, [],
  ◌∷◌, ◌++◌, length, codes, bytes_eq,
}

-- `Config`, less the MUD's address, which this package does not use
pub record Config : Type 0 where
  pub iduna_base : List ℕ
  pub token : List ℕ

-- The state that the client keeps, less the time of the poll; `D` is a district.
pub record GfdState (D : Type 0) : Type 0 where
  pub emily_gear : List ℕ
  pub online_count : ℕ
  pub latest_apple : List ℕ
  pub tier_name : List ℕ
  pub districts : List D

-- A GET, with the value of its `Authorization` header.
pub record Request : Type 0 where
  pub url : List ℕ
  pub authorization : Option (List ℕ)

-- The network during a poll: the body that a request brings, none if it fails. And `json.Unmarshal`
-- of a body: to a map of strings, to the titles of the apples, to the text under `gfd_tier` of a
-- map, if it is a text, and to the field offices.
pub record Net (D : Type 0) : Type 0 where
  pub answer : Request → Option (List ℕ)
  pub strings : List ℕ → Option (List ℕ → Option (List ℕ))
  pub titles : List ℕ → Option (List (List ℕ))
  pub tier : List ℕ → Option (Option (List ℕ))
  pub offices : List ℕ → Option (List D)

-- The request of `get`
unfoldable pub get : List ℕ → Request
get url = record { url = url; authorization = none }

-- The request of `getWithToken`
unfoldable pub get_with_token : Config → List ℕ → Request
get_with_token cfg url = record {
  url = url;
  authorization = if bytes_eq cfg.token [] then none else some (codes "Bearer " ++ cfg.token);
}

-- The gear of a decoded body
unfoldable pub gear_of : List ℕ → (List ℕ → Option (List ℕ)) → Option (List ℕ)
gear_of body m = elim (m (codes "gear")) [
  | some gear ↦ some gear
  | none ↦
      if bytes_eq (elim (m (codes "ok")) [ some v ↦ v | none ↦ [] ]) (codes "true")
        || not (bytes_eq body [])
      then some (codes "ACTIVE")
      else none
]

-- The title of the first apple, if any
unfoldable pub first_title : List (List ℕ) → List ℕ
first_title [] = []
first_title (t ∷ ts) = t

-- The answer, or else what is there.
unfoldable pub or_keep : {A : Type 0} → Option A → A → A
or_keep (some x) old = x
or_keep none old = old

module _ {D : Type 0} (net : Net D) where
  unfoldable pub fetch_emily_gear : Request × Option (List ℕ)
  fetch_emily_gear =
      let r : Request = get (codes "http://localhost:8086/health") in
      (r, do body ← net.answer r; m ← net.strings body; gear_of body m)

  unfoldable pub fetch_latest_apple : Config → Request × Option (List ℕ)
  fetch_latest_apple cfg =
      let r : Request = get_with_token cfg (cfg.iduna_base ++ codes "/api/v1/apples?limit=1") in
      (r, do body ← net.answer r; ts ← net.titles body; some (first_title ts))

  unfoldable pub fetch_user_tier : Config → Request × Option (List ℕ)
  fetch_user_tier cfg =
      let r : Request = get_with_token cfg (cfg.iduna_base ++ codes "/api/v1/subscriptions/me") in
      (
        r,
        do
          body ← net.answer r
          t ← net.tier body
          some (elim t [ some name ↦ name | none ↦ codes "free_trial" ]),
      )

  unfoldable pub fetch_field_offices : Config → Request × Option (List D)
  fetch_field_offices cfg =
      let r : Request = get_with_token cfg (cfg.iduna_base ++ codes "/api/v1/fieldoffices") in
      (r, do body ← net.answer r; net.offices body)

  -- `poll`: the requests that it makes, and the new state
  unfoldable pub poll : Config → GfdState D → List Request × GfdState D
  poll cfg s =
      let (r1, gear) = fetch_emily_gear in
      let (r2, apple) = fetch_latest_apple cfg in
      let (r3, tier) = fetch_user_tier cfg in
      let (r4, districts) = fetch_field_offices cfg in
      let has_token : Bool = not (bytes_eq cfg.token []) in
      (
        r1 ∷ r2 ∷ (if has_token then r3 ∷ r4 ∷ [] else r4 ∷ []),
        record s {
          emily_gear = or_keep gear (codes "UNKNOWN");
          latest_apple = or_keep apple s.latest_apple;
          tier_name = if has_token then or_keep tier s.tier_name else s.tier_name;
          districts = or_keep districts s.districts;
        },
      )

-- What `select` in `pollLoop` sees: the ticker, and the network of the poll that follows; or that
-- `stopCh` is closed.
pub data Signal (D : Type 0) : Type 0 where
  tick : Net D → Signal D
  stopped : Signal D

-- The `for` of `pollLoop`; it ends when it sees the stop, and waits when there is no signal left.
unfoldable pub poll_ticks :
    {D : Type 0} → Config → List (Signal D) → GfdState D → List Request × GfdState D
poll_ticks cfg [] s = ([], s)
poll_ticks cfg (stopped ∷ more) s = ([], s)
poll_ticks cfg (tick net ∷ more) s =
    let (asked, s') = poll net cfg s in
    let (rest, last) = poll_ticks cfg more s' in (asked ++ rest, last)

unfoldable pub poll_loop :
    {D : Type 0} → Config → Net D → List (Signal D) → GfdState D → List Request × GfdState D
poll_loop cfg first signals s =
    let (asked, s') = poll first cfg s in
    let (rest, last) = poll_ticks cfg signals s' in (asked ++ rest, last)

-- `Stop` closes `stopCh`, which is a panic, none, if it is closed already.
unfoldable pub stop : Bool → Option Bool
stop closed = if closed then none else some true
