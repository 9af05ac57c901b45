-- ===== src/Sshconn/Trust.antt =====
-- Whom `Dial` trusts, and with what it authenticates.
use pitviper.Base.{
  ℕ, true, false, Bool-cases, Option, none, some, ◌⊎◌, inl, inr, List, [], ◌∷◌, ◌++◌, bytes_eq,
  codes, ◌≡◌, ◌≢◌, refl, ap, arith, Option-cases, All, All-append,
}
use pitviper.Sshconn.{
  Config, World, Client, Event, DialError, AuthMethod, HostKeyCheck, has_colon, with_port,
  key_methods, agent_used, password_methods, host_key_callback, give_up, start_shell, emit,
  open_client, check_host, authenticate, add_methods, dial,
}

-- A check of the host key that the settings allow: none only if they say so, and otherwise a
-- `known_hosts` file that exists and parses.
abbrev pub IsAllowed : Config → World → HostKeyCheck → Type 0
IsAllowed cfg w HostKeyCheck.ignore_host_key = cfg.insecure_host_key ≡ true
IsAllowed cfg w HostKeyCheck.known_hosts =
    (w.home_known ≡ true) × (w.known_hosts_exists ≡ true) × (w.known_hosts_parses ≡ true)

-- A method that the settings provide.
abbrev pub IsProvided : Config → World → AuthMethod → Type 0
IsProvided cfg w (AuthMethod.public_key key) =
    (cfg.key_path ≢ []) × (w.read_file cfg.key_path ≡ some key) × (w.key_parses key ≡ true)
IsProvided cfg w AuthMethod.agent_keys = agent_used w ≡ true
IsProvided cfg w (AuthMethod.with_password p) = (p ≡ cfg.password) × (p ≢ [])

-- The address of the settings if it has a colon, and otherwise with `:22` at its end.
abbrev pub IsTarget : Config → List ℕ → Type 0
IsTarget cfg addr =
    ((has_colon cfg.addr ≡ true) × (addr ≡ cfg.addr))
    ⊎ ((has_colon cfg.addr ≡ false) × (addr ≡ cfg.addr ++ codes ":22"))

-- An event that the settings allow: a client is opened at the address of the settings, for their
-- user, with at least one method.
abbrev pub IsFaithful : Config → World → Event → Type 0
IsFaithful cfg w (Event.client_opened c) =
    IsTarget cfg c.addr
    × (c.user ≡ cfg.user)
    × (c.auth ≢ [])
    × All (IsProvided cfg w) c.auth
    × IsAllowed cfg w c.check
IsFaithful cfg w Event.agent_opened = agent_used w ≡ true
IsFaithful cfg w Event.session_opened = Unit {0}
IsFaithful cfg w Event.session_closed = Unit {0}
IsFaithful cfg w Event.client_closed = Unit {0}

with_port-IsTarget : (cfg : Config) → IsTarget cfg (with_port cfg.addr)
unfolding with_port
with_port-IsTarget cfg = elim (Bool-cases (has_colon cfg.addr)) [
  | inl p ↦ rw p (inl (refl, refl))
  | inr p ↦ rw p (inr (refl, refl))
]

module _ (cfg : Config) (w : World) where
  open_client-IsFaithful :
      (c : Client)
      → IsFaithful cfg w (Event.client_opened c)
      → All (IsFaithful cfg w) (open_client c w).0
  unfolding open_client emit start_shell give_up
  open_client-IsFaithful c h = ground (arith, h)

  callback-IsAllowed :
      (check : HostKeyCheck)
      → host_key_callback cfg.insecure_host_key w ≡ some check
      → IsAllowed cfg w check
  unfolding host_key_callback
  callback-IsAllowed HostKeyCheck.ignore_host_key e = ground (arith, e)
  callback-IsAllowed HostKeyCheck.known_hosts e = ground (arith, e)

  authenticate-IsFaithful :
      (methods : List AuthMethod)
      → All (IsProvided cfg w) methods
      → All (IsFaithful cfg w) (authenticate cfg methods w).0
  unfolding authenticate check_host
  authenticate-IsFaithful [] h = tt
  authenticate-IsFaithful (m ∷ ms) h =
      checked (host_key_callback cfg.insecure_host_key w) (λ check. callback-IsAllowed check)
    where
      checked :
          (o : Option HostKeyCheck)
          → ((check : HostKeyCheck) → o ≡ some check → IsAllowed cfg w check)
          → All (IsFaithful cfg w) (check_host cfg (m ∷ ms) w o).0
      checked none allowed = tt
      checked (some check) allowed =
          open_client-IsFaithful
            (record { addr = with_port cfg.addr; user = cfg.user; auth = m ∷ ms; check = check })
            (with_port-IsTarget cfg, refl, (λ e. cc e), h, allowed check refl)

  password-IsProvided : All (IsProvided cfg w) (password_methods cfg)
  unfolding password_methods
  password-IsProvided = elim (Bool-cases (bytes_eq cfg.password [])) [
    | inl p ↦ rw p tt
    | inr p ↦ rw p ((refl, λ e. absurd (cc (p, ap (λ t. bytes_eq t []) e))), tt)
  ]

  abbrev AllProvided : DialError ⊎ List AuthMethod → Type 0
  AllProvided (inl e) = Unit {0}
  AllProvided (inr keys) = All (IsProvided cfg w) keys

  key-IsProvided : AllProvided (key_methods cfg w)
  unfolding key_methods
  key-IsProvided = elim (Bool-cases (bytes_eq cfg.key_path [])) [
    | inl p ↦ rw p tt
    | inr p ↦ elim (Option-cases (w.read_file cfg.key_path)) [
      | inl e ↦ rw p (rw e tt)
      | inr (key, e) ↦ elim (Bool-cases (w.key_parses key)) [
        | inl q ↦ rw p (rw e (rw q ((named p, e, q), tt)))
        | inr q ↦ rw p (rw e (rw q tt))
      ]
    ]
  ]
    where
      named : bytes_eq cfg.key_path [] ≡ false → cfg.key_path ≢ []
      named p e = absurd (cc (p, ap (λ t. bytes_eq t []) e))

  add_methods-IsFaithful :
      (o : DialError ⊎ List AuthMethod)
      → AllProvided o
      → All (IsFaithful cfg w) (add_methods cfg w o).0
  unfolding add_methods emit
  add_methods-IsFaithful (inl e) h = tt
  add_methods-IsFaithful (inr keys) h = elim (Bool-cases (agent_used w)) [
    | inl p ↦ rw p (
      p,
      authenticate-IsFaithful (keys ++ (AuthMethod.agent_keys ∷ []) ++ password_methods cfg) (
          All-append (IsProvided cfg w) (keys ++ AuthMethod.agent_keys ∷ []) (password_methods cfg)
            (All-append (IsProvided cfg w) keys (AuthMethod.agent_keys ∷ []) h (p, tt))
            password-IsProvided),
    )
    | inr p ↦ rw p (
        authenticate-IsFaithful (keys ++ password_methods cfg)
          (All-append (IsProvided cfg w) keys (password_methods cfg) h password-IsProvided))
  ]

  -- Whatever the calls answer, every client that `Dial` opens is for the user of the settings, at
  -- their address, with `:22` added if it has no colon, with at least one method, each of which is
  -- the key of the settings' file, the agent that took the connection, or their password; its host
  -- key goes unchecked only if the settings say so, and otherwise the `known_hosts` file was found
  -- and parsed.
  pub dial-IsFaithful : All (IsFaithful cfg w) (dial cfg w).0
  unfolding dial
  dial-IsFaithful = add_methods-IsFaithful (key_methods cfg w) key-IsProvided
