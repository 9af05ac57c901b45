-- ===== src/Sshconn/Held.antt =====
-- What is open after `Dial` and `Close`.
use pitviper.Base.{
  Bool, true, false, Bool-cases, Option, none, some, ◌⊎◌, inl, inr, List, [], ◌∷◌, ◌++◌, ◌≡◌, refl,
  ap, ◌∙◌, arith,
}
use pitviper.Sshconn.{
  Config, World, Client, Event, Result, DialError, AuthMethod, key_methods, agent_used,
  password_methods, host_key_callback, give_up, start_shell, emit, open_client, authenticate, dial,
  close, check_host, add_methods, with_port, HostKeyCheck,
}

-- Which of the three are open.
pub record Held : Type 0 where
  pub agent : Bool
  pub client : Bool
  pub session : Bool

-- After one event.
abbrev after : Held → Event → Held
after h Event.agent_opened = record h { agent = true }
after h (Event.client_opened c) = record h { client = true }
after h Event.session_opened = record h { session = true }
after h Event.session_closed = record h { session = false }
after h Event.client_closed = record h { client = false }

abbrev pub held : Held → List Event → Held
held h [] = h
held h (e ∷ es) = held (after h e) es

abbrev pub nothing : Held
nothing = record { agent = false; client = false; session = false }

-- The events of `Close`, if there is a connection to close.
abbrev pub closing : Result → List Event
closing (Result.connected c) = close
closing (Result.failed e) = []

-- What is open at the result: the client and the session if `Dial` succeeded, and no others but the
-- agent.
abbrev pub opened : Bool → Result → Held
opened agent (Result.connected c) = record { agent = agent; client = true; session = true }
opened agent (Result.failed e) = record { agent = agent; client = false; session = false }

start_shell-held :
    (a : Bool) (c : Client) (w : World)
    → held (record { agent = a; client = true; session = true }) (start_shell c w).0
      ≡ opened a (start_shell c w).1
unfolding start_shell give_up
start_shell-held a c w = ground arith

open_client-held :
    (a : Bool) (c : Client) (w : World)
    → held (record { agent = a; client = false; session = false }) (open_client c w).0
      ≡ opened a (open_client c w).1
unfolding open_client emit
open_client-held a c w = ground (arith, start_shell-held a c w)

check_host-held :
    (a : Bool) (cfg : Config) (methods : List AuthMethod) (w : World) (o : Option HostKeyCheck)
    → held (record { agent = a; client = false; session = false }) (check_host cfg methods w o).0
      ≡ opened a (check_host cfg methods w o).1
unfolding check_host
check_host-held a cfg methods w none = refl
check_host-held a cfg methods w (some check) =
    open_client-held a
      (record { addr = with_port cfg.addr; user = cfg.user; auth = methods; check = check }) w

authenticate-held :
    (a : Bool) (cfg : Config) (methods : List AuthMethod) (w : World)
    → held (record { agent = a; client = false; session = false }) (authenticate cfg methods w).0
      ≡ opened a (authenticate cfg methods w).1
unfolding authenticate
authenticate-held a cfg [] w = refl
authenticate-held a cfg (m ∷ ms) w =
    check_host-held a cfg (m ∷ ms) w (host_key_callback cfg.insecure_host_key w)

-- Whether the code gets to the agent, and it answers.
abbrev pub reaches_agent : World → DialError ⊎ List AuthMethod → Bool
reaches_agent w (inl e) = false
reaches_agent w (inr keys) = agent_used w

add_methods-held :
    (cfg : Config) (w : World) (o : DialError ⊎ List AuthMethod)
    → held nothing (add_methods cfg w o).0 ≡ opened (reaches_agent w o) (add_methods cfg w o).1
unfolding add_methods emit
add_methods-held cfg w (inl e) = refl
add_methods-held cfg w (inr keys) = elim (Bool-cases (agent_used w)) [
  | inl p ↦
      rw p (
        authenticate-held true cfg (keys ++ (AuthMethod.agent_keys ∷ []) ++ password_methods cfg) w)
  | inr p ↦ rw p (authenticate-held false cfg (keys ++ password_methods cfg) w)
]

held-append : (h : Held) (xs ys : List Event) → held h (xs ++ ys) ≡ held (held h xs) ys
held-append h [] ys = refl
held-append h (e ∷ es) ys = held-append (after h e) es ys

closed : (a : Bool) (r : Result) → held (opened a r) (closing r) ≡ record nothing { agent = a }
unfolding close
closed a (Result.connected c) = refl
closed a (Result.failed e) = refl

-- Whatever the calls answer, `Dial` leaves a client and a session open exactly if it returns a
-- connection, and both are closed once `Close` was called on it. A connection to the agent that
-- `Dial` opened stays open.
pub dial-closes :
    (cfg : Config) (w : World)
    → (held nothing (dial cfg w).0 ≡ opened (reaches_agent w (key_methods cfg w)) (dial cfg w).1)
      × (held nothing ((dial cfg w).0 ++ closing (dial cfg w).1)
          ≡ record nothing { agent = reaches_agent w (key_methods cfg w) })
unfolding dial
dial-closes cfg w =
    let first = add_methods-held cfg w (key_methods cfg w) in
    let d : List Event × Result = add_methods cfg w (key_methods cfg w) in
    (
      first,
      held-append nothing d.0 (closing d.1)
          ∙ ap (λ h. held h (closing d.1)) first
          ∙ closed (reaches_agent w (key_methods cfg w)) d.1,
    )
