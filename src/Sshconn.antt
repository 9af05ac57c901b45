-- ===== src/Sshconn.antt =====
-- internal/sshconn/sshconn.go: `Dial`, which sets up an SSH session, and `Close`. What the calls of
-- golang.org/x/crypto/ssh, of the network and of the system answer stands in `World`; what `Dial`
-- opens and closes is a list of events.
pub mod Held
pub mod Trust
use pitviper.Base.{
  ℕ, Bool, true, false, not, ◌||◌, ◌&&◌, ◌==◌, if◌then◌else◌, Option, none, some, ◌⊎◌, inl, inr,
  List, [], ◌∷◌, ◌++◌, bytes_eq, codes,
}

-- `Config`
pub record Config : Type 0 where
  pub addr : List ℕ
  pub user : List ℕ
  pub password : List ℕ
  pub key_path : List ℕ
  pub insecure_host_key : Bool

-- The answers of the calls, in the order of the code: the content of a file, if it can be read,
-- and whether `ParsePrivateKey` takes a content; `SSH_AUTH_SOCK` and whether the agent takes the
-- connection; whether the home directory is known, `known_hosts` exists and parses; and whether
-- the calls on the connection and on the session succeed.
pub record World : Type 0 where
  pub read_file : List ℕ → Option (List ℕ)
  pub key_parses : List ℕ → Bool
  pub auth_sock : List ℕ
  pub agent_answers : Bool
  pub home_known : Bool
  pub known_hosts_exists : Bool
  pub known_hosts_parses : Bool
  pub dials : Bool
  pub session_opens : Bool
  pub pty_granted : Bool
  pub stdin_opens : Bool
  pub stdout_opens : Bool
  pub stderr_opens : Bool
  pub shell_starts : Bool

-- The entries of `methods`; a key by the content of its file.
pub data AuthMethod : Type 0 where
  public_key : List ℕ → AuthMethod
  agent_keys : AuthMethod
  with_password : List ℕ → AuthMethod

-- `ssh.InsecureIgnoreHostKey()`, or the callback of `knownhosts.New`.
pub data HostKeyCheck : Type 0 where
  ignore_host_key : HostKeyCheck
  known_hosts : HostKeyCheck

pub data DialError : Type 0 where
  read_key : DialError
  parse_key : DialError
  no_method : DialError
  no_known_hosts : DialError
  not_dialled : DialError
  no_session : DialError
  no_pty : DialError
  no_stdin : DialError
  no_stdout : DialError
  no_stderr : DialError
  no_shell : DialError

-- `ssh.ClientConfig`, with the address.
pub record Client : Type 0 where
  pub addr : List ℕ
  pub user : List ℕ
  pub auth : List AuthMethod
  pub check : HostKeyCheck

pub data Event : Type 0 where
  agent_opened : Event
  client_opened : Client → Event
  session_opened : Event
  session_closed : Event
  client_closed : Event

-- `Conn` is returned, or an error.
pub data Result : Type 0 where
  connected : Client → Result
  failed : DialError → Result

-- `strings.Contains(addr, ":")`
unfoldable pub has_colon : List ℕ → Bool
has_colon [] = false
has_colon (b ∷ bs) = b == b':' || has_colon bs

-- The address, with the port 22 if it has none.
unfoldable pub with_port : List ℕ → List ℕ
with_port addr = if not (has_colon addr) then addr ++ codes ":22" else addr

-- The method of `KeyPath`.
unfoldable pub key_methods : Config → World → DialError ⊎ List AuthMethod
key_methods cfg w = if bytes_eq cfg.key_path [] then inr [] else elim (w.read_file cfg.key_path) [
  | none ↦ inl DialError.read_key
  | some key ↦
      if not (w.key_parses key)
      then inl DialError.parse_key
      else inr (AuthMethod.public_key key ∷ [])
]

-- The agent takes the connection.
unfoldable pub agent_used : World → Bool
agent_used w = not (bytes_eq w.auth_sock []) && w.agent_answers

unfoldable pub password_methods : Config → List AuthMethod
password_methods cfg =
    if bytes_eq cfg.password [] then [] else AuthMethod.with_password cfg.password ∷ []

-- `hostKeyCallback`
unfoldable pub host_key_callback : Bool → World → Option HostKeyCheck
host_key_callback insecure w =
    if insecure
    then some HostKeyCheck.ignore_host_key
    else if not w.home_known
    then none
    else if not w.known_hosts_exists
    then none
    else if not w.known_hosts_parses
    then none
    else some HostKeyCheck.known_hosts

-- A step on the open session failed: both are closed.
unfoldable pub give_up : DialError → List Event × Result
give_up e = (Event.session_closed ∷ Event.client_closed ∷ [], Result.failed e)

-- The steps on the session.
unfoldable pub start_shell : Client → World → List Event × Result
start_shell c w =
    if not w.pty_granted
    then give_up DialError.no_pty
    else if not w.stdin_opens
    then give_up DialError.no_stdin
    else if not w.stdout_opens
    then give_up DialError.no_stdout
    else if not w.stderr_opens
    then give_up DialError.no_stderr
    else if not w.shell_starts
    then give_up DialError.no_shell
    else ([], Result.connected c)

-- An event before what follows.
unfoldable pub emit : Event → List Event × Result → List Event × Result
emit e (events, r) = (e ∷ events, r)

-- From `ssh.Dial` on.
unfoldable pub open_client : Client → World → List Event × Result
open_client c w =
    if not w.dials
    then ([], Result.failed DialError.not_dialled)
    else emit (Event.client_opened c) (
        if not w.session_opens
        then (Event.client_closed ∷ [], Result.failed DialError.no_session)
        else emit Event.session_opened (start_shell c w))

-- From the answer of `hostKeyCallback` on.
unfoldable pub check_host :
    Config → List AuthMethod → World → Option HostKeyCheck → List Event × Result
check_host cfg methods w none = ([], Result.failed DialError.no_known_hosts)
check_host cfg methods w (some check) =
    open_client
      (record { addr = with_port cfg.addr; user = cfg.user; auth = methods; check = check }) w

-- From the check of `len(methods)` on.
unfoldable pub authenticate : Config → List AuthMethod → World → List Event × Result
authenticate cfg [] w = ([], Result.failed DialError.no_method)
authenticate cfg (m ∷ ms) w = check_host cfg (m ∷ ms) w (host_key_callback cfg.insecure_host_key w)

-- From the agent on.
unfoldable pub add_methods : Config → World → DialError ⊎ List AuthMethod → List Event × Result
add_methods cfg w (inl e) = ([], Result.failed e)
add_methods cfg w (inr keys) =
    if agent_used w
    then emit Event.agent_opened
        (authenticate cfg (keys ++ (AuthMethod.agent_keys ∷ []) ++ password_methods cfg) w)
    else authenticate cfg (keys ++ password_methods cfg) w

-- `Dial`
unfoldable pub dial : Config → World → List Event × Result
dial cfg w = add_methods cfg w (key_methods cfg w)

-- `Close`
unfoldable pub close : List Event
close = Event.session_closed ∷ Event.client_closed ∷ []
