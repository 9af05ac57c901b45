-- ===== src/Window/Connect.antt =====
-- cmd/pitviper/main.go: the choice of the connection, by the flags, and the key of the device.
-- What the network and the system answer is an argument.
pub mod Offers
use pitviper.Base.{
  ℕ, Bool, true, false, not, ◌==◌, ◌&&◌, if◌then◌else◌, Option, none, some, ◌>>=◌, ◌⊎◌, inl, inr,
  List, [], ◌∷◌, ◌++◌, bytes_eq, codes,
}
use pitviper.Sshkey.{Ssh, KeyFaults, KeyError, Loaded, load_or_generate}
use pitviper.Sshconn.{Config, World, Client, DialError, Result, has_colon, dial}
use pitviper.Pty.Linux as Linux
use pitviper.Mudconn.{MudConn, dial_mud}
use pitviper.Window.Keys.{default_rows}

-- The flags; an unset one is empty.
pub record Flags : Type 0 where
  pub gfd : List ℕ
  pub ssh : List ℕ
  pub ssh_key : List ℕ
  pub ssh_password : List ℕ
  pub ssh_insecure : Bool
  pub shell : List ℕ

-- `strings.Cut(s, "@")`, if it is found
unfoldable pub cut_at : List ℕ → Option (List ℕ × List ℕ)
cut_at [] = none
cut_at (b ∷ bs) =
    let rest : Option (List ℕ × List ℕ) = cut_at bs in
    if b == b'@' then some ([], bs) else (rest >>= λ p. some (b ∷ p.0, p.1))

-- The address of the MUD, with the port 2323 if it has none.
unfoldable pub with_mud_port : List ℕ → List ℕ
with_mud_port addr = if not (has_colon addr) then addr ++ codes ":2323" else addr

-- `defaultCols`
abbrev pub default_cols : ℕ
default_cols = 220

-- What `os.Exit(1)` follows.
pub data ExitError : Type 0 where
  no_mud : ExitError
  not_user_host : ExitError
  no_key : KeyError → ExitError
  no_ssh : DialError → ExitError
  no_pty : Linux.PtyError → ExitError

-- The connection that `ioReader` and `ioWriter` are.
pub data Link : Type 0 where
  to_mud : MudConn → Link
  to_host : Client → Link
  to_shell : Linux.Child → Link

-- What is written to the screen, and the connection or the error.
pub record Outcome : Type 0 where
  pub shown : List ℕ
  pub link : ExitError ⊎ Link

-- The path of the device's own key; the files, at the start, and whether `Dial` fails to read one
-- that exists; and the answers of the MUD's host, of the other calls of `sshconn.Dial` and of the
-- system.
pub record Answers (ssh : Ssh) : Type 0 where
  pub mud_dials : Bool
  pub own_path : List ℕ
  pub files : List ℕ → Option (List ℕ)
  pub unreadable : List ℕ → Bool
  pub key_faults : KeyFaults ssh
  pub world : World
  pub pty : Linux.World

-- The notice of a new key.
unfoldable pub notice : List ℕ → List ℕ → List ℕ
notice target line =
    codes "\r\nNo SSH key found -- generated a new one.\r\nAdd this PUBLIC key to "
    ++ (target
        ++ (codes "'s ~/.ssh/authorized_keys, then reconnect:\r\n\r\n  "
            ++ (line ++ codes "\r\n\r\n")))

-- A connection over SSH, or its error.
unfoldable pub dialled : Result → ExitError ⊎ Link
dialled (Result.connected c) = inr (Link.to_host c)
dialled (Result.failed e) = inl (ExitError.no_ssh e)

module _ (ssh : Ssh) where
  -- `ParsePrivateKey` takes the file.
  unfoldable pub parses : List ℕ → Bool
  parses text = elim (ssh.parse text) [ some key ↦ true | none ↦ false ]

  -- `os.ReadFile`, when the files are these.
  unfoldable pub read_path : Answers ssh → (List ℕ → Option (List ℕ)) → List ℕ → Option (List ℕ)
  read_path a files path = if a.unreadable path then none else files path

  -- `sshconn.Dial` with the key file at this path, when the files are these; the first `Resize`,
  -- whose error is only printed, is left out.
  unfoldable pub dial_with :
      Flags → Answers ssh → List ℕ × List ℕ → List ℕ → (List ℕ → Option (List ℕ)) → ExitError ⊎ Link
  dial_with flags a (user, host) path files =
      dialled
        (dial
          (record {
            addr = host;
            user = user;
            password = flags.ssh_password;
            key_path = path;
            insecure_host_key = flags.ssh_insecure;
          })
          (record a.world { read_file = read_path a files; key_parses = parses })).1

  -- The device's own key was loaded, or made and announced, or neither; its file is now this one.
  unfoldable pub dial_own : Flags → Answers ssh → List ℕ × List ℕ → Loaded ssh → Outcome
  dial_own flags a target (file, inl e) = record { shown = []; link = inl (ExitError.no_key e) }
  dial_own flags a target (file, inr (line, generated)) = record {
    shown = if generated then notice flags.ssh line else [];
    link =
        dial_with flags a target a.own_path
          (λ path. if bytes_eq path a.own_path then file else a.files path);
  }

  -- The branch of `-ssh`.
  unfoldable pub connect_ssh : Flags → Answers ssh → Option (List ℕ × List ℕ) → Outcome
  connect_ssh flags a none = record { shown = []; link = inl ExitError.not_user_host }
  connect_ssh flags a (some target) =
      if bytes_eq flags.ssh_key [] && bytes_eq flags.ssh_password []
      then dial_own flags a target (load_or_generate ssh a.key_faults (a.files a.own_path))
      else record { shown = []; link = dial_with flags a target flags.ssh_key a.files }

  -- The branch without a connection to another host.
  unfoldable pub connect_shell : Linux.Result → Outcome
  connect_shell (Linux.Result.started c) = record { shown = []; link = inr (Link.to_shell c) }
  connect_shell (Linux.Result.failed e) = record { shown = []; link = inl (ExitError.no_pty e) }

  -- The three branches.
  unfoldable pub connect : Flags → Answers ssh → Outcome
  connect flags a =
      if not (bytes_eq flags.gfd [])
      then record {
        shown = [];
        link = elim (dial_mud a.mud_dials (with_mud_port flags.gfd)) [
          | some c ↦ inr (Link.to_mud c)
          | none ↦ inl ExitError.no_mud
        ];
      }
      else if not (bytes_eq flags.ssh [])
      then connect_ssh flags a (cut_at flags.ssh)
      else connect_shell (Linux.open_shell flags.shell default_cols default_rows a.pty).1
