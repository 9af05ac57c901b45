-- ===== src/Examples/Connection.antt =====
-- The theorems on the read loop and on `Dial`, at concrete inputs.
use pitviper.Base.{true, false, ◌≡◌, refl, none, List, [], ◌∷◌, ◌++◌, All, Returns, codes}
use pitviper.Vterm.Write.Escapes.{IsSteady}
use pitviper.Window.Reading.{Account, Chunk, Reader, Loop, read_loop}
use pitviper.Window.Reading.Split.{screen_of, read_loop-IsSteady}
use pitviper.Window.Reading.Login.{IsOrderly, Orderly, read_loop-Orderly}
use pitviper.Sshconn.{Config, World, key_methods, dial}
use pitviper.Sshconn.Held.{held, nothing, opened, closing, reaches_agent, dial-closes}
use pitviper.Sshconn.Trust.{IsFaithful, dial-IsFaithful}
use pitviper.Examples.Fixtures.{tiny}
use pitviper.Examples.Text.{tiny-IsSteady, escape-IsCalm}

abbrev account : Account
account = record { gfd_mode = true; user = codes "ann"; pass = codes "pw" }

abbrev reader : Reader
reader = record { screen = tiny; name_sent = false; pass_sent = false; sent = [] }

-- The bytes of `escape`, in two reads.
abbrev two_reads : List Chunk
two_reads =
    record { bytes = 0x1b ∷ b'[' ∷ []; err = false }
    ∷ record { bytes = b'C' ∷ []; err = false }
    ∷ []

read_loop-IsSteady_example :
    Returns IsSteady (screen_of (read_loop account two_reads (Loop.reading reader)))
read_loop-IsSteady_example =
    read_loop-IsSteady account two_reads reader (refl, (refl, tt)) tiny-IsSteady escape-IsCalm

reader-IsOrderly : IsOrderly account reader
reader-IsOrderly = record { order = λ e. absurd (cc e); allowed = λ e. absurd (cc e); sent = refl }

-- Both prompts of the MUD.
abbrev prompts : List Chunk
prompts =
    record { bytes = codes "Enter your name:"; err = false }
    ∷ record { bytes = codes "Password:"; err = true }
    ∷ []

read_loop-Orderly_example : Orderly account (read_loop account prompts (Loop.reading reader))
read_loop-Orderly_example = read_loop-Orderly account prompts (Loop.reading reader) reader-IsOrderly

abbrev config : Config
config = record {
  addr = codes "host";
  user = codes "ann";
  password = codes "pw";
  key_path = [];
  insecure_host_key = false;
}

-- The agent and the host answer, and the shell does not start.
abbrev pub no_shell_world : World
no_shell_world = record {
  read_file = λ path. none;
  key_parses = λ key. false;
  auth_sock = codes "/agent";
  agent_answers = true;
  home_known = true;
  known_hosts_exists = true;
  known_hosts_parses = true;
  dials = true;
  session_opens = true;
  pty_granted = true;
  stdin_opens = true;
  stdout_opens = true;
  stderr_opens = true;
  shell_starts = false;
}

dial-closes_example :
    (held nothing (dial config no_shell_world).0
      ≡ opened
          (reaches_agent no_shell_world (key_methods config no_shell_world))
          (dial config no_shell_world).1)
    × (held nothing ((dial config no_shell_world).0 ++ closing (dial config no_shell_world).1)
        ≡ record nothing {
          agent = reaches_agent no_shell_world (key_methods config no_shell_world);
        })
dial-closes_example = dial-closes config no_shell_world

dial-IsFaithful_example : All (IsFaithful config no_shell_world) (dial config no_shell_world).0
dial-IsFaithful_example = dial-IsFaithful config no_shell_world
