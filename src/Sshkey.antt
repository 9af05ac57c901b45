-- ===== src/Sshkey.antt =====
-- internal/sshkey/sshkey.go: `LoadOrGenerate`, and cmd/pitviper/main.go: `runSSHEnroll`. The key
-- functions of golang.org/x/crypto/ssh are the interface `Ssh`; what the system calls answer stands
-- in `KeyFaults`; the key file is its content, if it exists.
pub mod Outcomes
pub mod Again
pub mod Device
use pitviper.Base.{
  ℕ, Bool, true, false, not, ◌==◌, if◌then◌else◌, Option, none, some, ◌⊎◌, inl, inr, List, [], ◌∷◌,
  take, bytes_eq,
}
use pitviper.Enroll.Service.{EnrollRequest}

-- `ParsePrivateKey` of a file, the public key of a signer, `MarshalPrivateKey` as PEM,
-- `NewPublicKey` of the public half, and `MarshalAuthorizedKey`.
pub record Ssh : Type 1 where
  pub Private : Type 0
  pub Public : Type 0
  pub parse : List ℕ → Option Private
  pub public_key : Private → Public
  pub encode : Private → Option (List ℕ)
  pub new_public_key : Private → Option Public
  pub authorized_key : Public → List ℕ

-- `Stat` or `ReadFile` fails on a file that exists; the key that `GenerateKey` makes, if it does;
-- `MkdirAll` fails; `WriteFile` fails after it wrote some bytes.
pub record KeyFaults (ssh : Ssh) : Type 0 where
  pub no_stat : Bool
  pub unreadable : Bool
  pub fresh : Option ssh.Private
  pub no_dir : Bool
  pub short_write : Option ℕ

pub data KeyError : Type 0 where
  not_read : KeyError
  not_parsed : KeyError
  not_generated : KeyError
  not_encoded : KeyError
  no_key_dir : KeyError
  not_written : KeyError
  not_derived : KeyError

-- `line[:n-1]`, if the last byte is a line feed.
unfoldable pub cut_feed : List ℕ → List ℕ
cut_feed [] = []
cut_feed (b ∷ []) = if b == b'\n' then [] else b ∷ []
cut_feed (b ∷ c ∷ cs) = b ∷ cut_feed (c ∷ cs)

-- The end of `runSSHEnroll`, after the POST: whether the status is 200.
unfoldable pub check_status : {State : Type 0} → State × Option ℕ → State × Bool
check_status (s, none) = (s, false)
check_status (s, some status) = (s, status == 200)

module _ (ssh : Ssh) where
  -- The file, and the error, or the line and whether the key is new.
  abbrev pub Loaded : Type 0
  Loaded = Option (List ℕ) × (KeyError ⊎ (List ℕ × Bool))

  unfoldable pub authorized_keys_line : ssh.Public → List ℕ
  authorized_keys_line key = cut_feed (ssh.authorized_key key)

  -- The line of the key that was parsed, if it was.
  unfoldable pub loaded_line : List ℕ → Option ssh.Private → Loaded
  loaded_line text none = (some text, inl KeyError.not_parsed)
  loaded_line text (some signer) =
      (some text, inr (authorized_keys_line (ssh.public_key signer), false))

  -- The key of a file that exists.
  unfoldable pub load_key : Bool → List ℕ → Loaded
  load_key unreadable text =
      if unreadable then (some text, inl KeyError.not_read) else loaded_line text (ssh.parse text)

  -- The line of the key that was written.
  unfoldable pub new_line : List ℕ → Option ssh.Public → Loaded
  new_line block none = (some block, inl KeyError.not_derived)
  new_line block (some public) = (some block, inr (authorized_keys_line public, true))

  -- From `WriteFile` on; a write that fails leaves what it wrote.
  unfoldable pub save_key : Option ℕ → ssh.Private → List ℕ → Loaded
  save_key none key block = new_line block (ssh.new_public_key key)
  save_key (some n) key block = (some (take n block), inl KeyError.not_written)

  -- From `MarshalPrivateKey` on.
  unfoldable pub store_key :
      KeyFaults ssh → Option (List ℕ) → ssh.Private → Option (List ℕ) → Loaded
  store_key f file key none = (file, inl KeyError.not_encoded)
  store_key f file key (some block) =
      if f.no_dir then (file, inl KeyError.no_key_dir) else save_key f.short_write key block

  -- A new key, if `GenerateKey` makes one.
  unfoldable pub make_key : KeyFaults ssh → Option (List ℕ) → Option ssh.Private → Loaded
  make_key f file none = (file, inl KeyError.not_generated)
  make_key f file (some key) = store_key f file key (ssh.encode key)

  -- `LoadOrGenerate`
  unfoldable pub load_or_generate : KeyFaults ssh → Option (List ℕ) → Loaded
  load_or_generate f none = make_key f none f.fresh
  load_or_generate f (some text) =
      if f.no_stat then make_key f (some text) f.fresh else load_key f.unreadable text

  -- `runSSHEnroll`, with the POST, which changes the state of what listens there and brings a
  -- status or an error: that state, and whether there is no error.
  unfoldable pub run_ssh_enroll :
      {State : Type 0}
      → List ℕ
      → KeyFaults ssh
      → Option (List ℕ)
      → (EnrollRequest → State → State × Option ℕ)
      → State
      → State × Bool
  run_ssh_enroll code f file post s =
      if bytes_eq code [] then (s, false) else elim (load_or_generate f file).1 [
        | inl e ↦ (s, false)
        | inr (line, generated) ↦ check_status (post (record { code = code; pubkey = line }) s)
      ]
