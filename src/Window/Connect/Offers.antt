-- ===== src/Window/Connect/Offers.antt =====
-- The device's own key is the one that is announced and offered.
use pitviper.Base.{
  ℕ, Bool, true, false, Bool-cases, not, if◌then◌else◌, if_cases, Option-cases, some, ◌⊎◌, inl, inr,
  List, [], ◌∷◌, bytes_eq, bytes_eq_refl, ◌≡◌, refl, sym, ap, arith,
}
use pitviper.Sshkey.{Ssh, Loaded, authorized_keys_line, load_or_generate}
use pitviper.Sshkey.Outcomes.{load_or_generate-cases}
use pitviper.Sshkey.Again.{IsKeyLibrary}
use pitviper.Sshconn.{
  Config, World, Client, Event, DialError, Result, AuthMethod, with_port, key_methods, agent_used,
  host_key_callback, give_up, start_shell, emit, open_client, check_host, authenticate, add_methods,
  dial,
}
use pitviper.Window.Connect.{
  Flags, Answers, ExitError, Link, Outcome, cut_at, notice, dialled, parses, read_path, dial_with,
  dial_own, connect_ssh, connect,
}

-- An error for want of a key.
abbrev pub wants_key : DialError → Bool
wants_key DialError.read_key = true
wants_key DialError.parse_key = true
wants_key DialError.no_method = true
wants_key _ = false

-- A connection of this user to this host that offers this key first, or an error that is not for
-- want of a key.
abbrev pub OffersKey : List ℕ → List ℕ → List ℕ → ExitError ⊎ Link → Type 0
OffersKey user host text (inr (Link.to_host c)) =
    (c.user ≡ user)
    × (c.addr ≡ with_port host)
    × ((rest : List AuthMethod) × (c.auth ≡ AuthMethod.public_key text ∷ rest))
OffersKey user host text (inl (ExitError.no_ssh e)) = wants_key e ≡ false
OffersKey user host text _ = true ≡ false

-- An error of `Dial`, or a client of this user and host with a key first.
abbrev Offers : List ℕ → List ℕ → List ℕ → Result → Type 0
Offers user host text r = OffersKey user host text (dialled r)

open_client-Offers :
    (user host text : List ℕ) (c : Client) (w : World)
    → Offers user host text (Result.connected c)
    → Offers user host text (open_client c w).1
unfolding open_client start_shell give_up emit dialled
open_client-Offers user host text c w h = step (not w.dials) _ _ refl (
    step (not w.session_opens) _ _ refl (
      step (not w.pty_granted) _ _ refl (
        step (not w.stdin_opens) _ _ refl (
          step (not w.stdout_opens) _ _ refl
            (step (not w.stderr_opens) _ _ refl (step (not w.shell_starts) _ _ refl h))))))
  where
    step :
        (b : Bool) (x y : List Event × Result)
        → Offers user host text x.1
        → Offers user host text y.1
        → Offers user host text (if b then x else y).1
    step = if_cases (λ (r : List Event × Result). Offers user host text r.1)

authenticate-Offers :
    (cfg : Config) (text : List ℕ) (rest : List AuthMethod) (w : World)
    → Offers cfg.user cfg.addr text (authenticate cfg (AuthMethod.public_key text ∷ rest) w).1
unfolding authenticate check_host dialled
authenticate-Offers cfg text rest w =
    elim (Option-cases (host_key_callback cfg.insecure_host_key w)) [
      | inl e ↦ rw e refl
      | inr (check, e) ↦
          rw e (open_client-Offers cfg.user cfg.addr text _ w (refl, refl, (rest, refl)))
    ]

one_key :
    (cfg : Config) (w : World) (key : List ℕ)
    → bytes_eq cfg.key_path [] ≡ false
    → w.read_file cfg.key_path ≡ some key
    → w.key_parses key ≡ true
    → key_methods cfg w ≡ inr (AuthMethod.public_key key ∷ [])
unfolding key_methods
one_key cfg w key named file parsed = ground (arith, named, file, parsed)

dial-Offers :
    (cfg : Config) (w : World) (key : List ℕ)
    → bytes_eq cfg.key_path [] ≡ false
    → w.read_file cfg.key_path ≡ some key
    → w.key_parses key ≡ true
    → Offers cfg.user cfg.addr key (dial cfg w).1
unfolding dial add_methods emit
dial-Offers cfg w key named file parsed =
    rw (one_key cfg w key named file parsed) (elim (Bool-cases (agent_used w)) [
      | inl e ↦ rw e (authenticate-Offers cfg key _ w)
      | inr e ↦ rw e (authenticate-Offers cfg key _ w)
    ])

cut_at-filled : (s : List ℕ) (p : List ℕ × List ℕ) → cut_at s ≡ some p → bytes_eq s [] ≡ false
unfolding cut_at
cut_at-filled [] p e = absurd (cc e)
cut_at-filled (b ∷ bs) p e = refl

module _ (ssh : Ssh) (flags : Flags) (user host : List ℕ) where
  -- The outcome with a loaded or a new key: what is shown, and what is offered of the key file.
  abbrev pub OffersOwn : Loaded ssh → Outcome → Type 0
  OffersOwn (file, inl e) o = (o.shown ≡ []) × (o.link ≡ inl (ExitError.no_key e))
  OffersOwn (file, inr (line, generated)) o =
      (o.shown ≡ (if generated then notice flags.ssh line else []))
      × ((text : List ℕ) × (key : ssh.Private) × (file ≡ some text)
          × (ssh.parse text ≡ some key)
          × (line ≡ authorized_keys_line ssh (ssh.public_key key))
          × OffersKey user host text o.link)

module _ (ssh : Ssh) (lib : IsKeyLibrary ssh) (flags : Flags) (a : Answers ssh) (user host : List ℕ)
    (named : bytes_eq a.own_path [] ≡ false) (readable : a.unreadable a.own_path ≡ false) where
  abbrev Own : Loaded ssh → Type 0
  Own l = OffersOwn ssh flags user host l (dial_own ssh flags a (user, host) l)

  key-Own :
      (text : List ℕ) (key : ssh.Private) (line : List ℕ) (generated : Bool)
      → ssh.parse text ≡ some key
      → line ≡ authorized_keys_line ssh (ssh.public_key key)
      → Own (some text, inr (line, generated))
  unfolding dial_own dial_with parses read_path
  key-Own text key line generated e same =
      let cfg : Config = record {
        addr = host;
        user = user;
        password = flags.ssh_password;
        key_path = a.own_path;
        insecure_host_key = flags.ssh_insecure;
      } in
      let w : World = record a.world {
        read_file =
            read_path ssh a (λ path. if bytes_eq path a.own_path then some text else a.files path);
        key_parses = parses ssh;
      } in
      let found : w.read_file a.own_path ≡ some text =
        rw (readable, bytes_eq_refl a.own_path) refl in
      (refl, (text, key, refl, e, same, dial-Offers cfg w text named found (rw (e, parses) refl)))

  load_or_generate-Own : Own (load_or_generate ssh a.key_faults (a.files a.own_path))
  unfolding dial_own
  load_or_generate-Own =
      load_or_generate-cases ssh Own (λ file e. (refl, refl))
        (λ text key e. key-Own text key _ false e refl)
        (λ key block p w e.
          key-Own block key _ true (lib.read_back key block w)
            (ap (authorized_keys_line ssh) (sym (lib.same_public key p e))))
        a.key_faults (a.files a.own_path)

  -- With `-ssh user@host` and neither a key file, nor a password, nor `-gfd`, for key functions
  -- that read back what they write, if `Dial` can read the device's own key file: if the key can
  -- neither be loaded nor made, the program ends with that error. Otherwise the file that is then
  -- there holds a key whose public line is the one returned, which is announced on the screen
  -- exactly if it is new; and the result is an error of `Dial` that is not for want of a key, or a
  -- connection of that user to that host, with `:22` added if it has no colon, which offers this
  -- key first.
  pub connect-OffersOwn :
      flags.gfd ≡ []
      → cut_at flags.ssh ≡ some (user, host)
      → flags.ssh_key ≡ []
      → flags.ssh_password ≡ []
      → OffersOwn ssh flags user host
          (load_or_generate ssh a.key_faults (a.files a.own_path))
          (connect ssh flags a)
  unfolding connect connect_ssh
  connect-OffersOwn no_gfd target no_key no_password =
      let empty : (l : List ℕ) → l ≡ [] → bytes_eq l [] ≡ true = λ l e. ap (λ x. bytes_eq x []) e in
      let filled : bytes_eq flags.ssh [] ≡ false = cut_at-filled flags.ssh (user, host) target in
      rw (empty flags.gfd no_gfd, filled, target, empty flags.ssh_key no_key)
        (rw (empty flags.ssh_password no_password) load_or_generate-Own)
