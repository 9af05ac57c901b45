-- ===== src/Examples/Terminals.antt =====
-- The theorems on the terminals and on the GFD client, at concrete inputs.
use pitviper.Base.{
  ℕ, true, false, ◌≡◌, ◌≢◌, refl, none, some, List, [], ◌∷◌, ◌++◌, All, codes, ledger, bytes_eq,
}
use pitviper.Pty.Linux as Linux
use pitviper.Pty.Linux.Handles as LinuxHandles
use pitviper.Pty.Windows.{
  Places, Calls, Child, Result, open_console, make_pipes, then_uses, make_console, start_process,
  int16, close_console, choose_shell, is_wsl_stub, find_git_bash, first_existing, git_candidates,
  below_root, join_path,
}
use pitviper.Pty.Windows.Handles.{held, closing, open_console-held, close_console-twice}
use pitviper.Pty.Windows.Shell.{choose_shell-real}
use pitviper.Gfdapi.{Config, GfdState, Net, Signal, tick, stopped, poll_loop}
use pitviper.Gfdapi.Discreet.{IsDiscreet, poll_loop-IsDiscreet}
use pitviper.Gfdapi.Newest.{shown, polled, poll_loop-shown}

-- The size cannot be set.
abbrev pub no_size : Linux.World
no_size = record {
  shell_env = codes "/bin/zsh";
  ptmx_opens = true;
  unlocks = true;
  named = true;
  slave_opens = true;
  size_set = false;
  starts = true;
}

open_shell-held_example :
    (ledger [] (Linux.open_shell [] 80 24 no_size).0
      ≡ some (LinuxHandles.held (Linux.open_shell [] 80 24 no_size).1))
    × (ledger
          (LinuxHandles.held (Linux.open_shell [] 80 24 no_size).1)
          (LinuxHandles.closing (Linux.open_shell [] 80 24 no_size).1)
        ≡ some [])
open_shell-held_example = LinuxHandles.open_shell-held [] 80 24 no_size

-- Only the stub is on the path, and Git is installed for the user.
abbrev places : Places
places = record {
  shell_env = [];
  program_files = codes "C:\\PF";
  program_files_x86 = [];
  local_app_data = codes "C:\\L";
  look_path = λ name. some (codes "C:\\Windows\\System32\\bash.exe");
  exists = λ path. bytes_eq path (codes "C:\\L\\Programs\\Git\\bin\\bash.exe");
}

no_stub : is_wsl_stub (find_git_bash places) ≡ false
unfolding is_wsl_stub find_git_bash first_existing git_candidates below_root join_path
no_stub = refl

choose_shell-real_example :
    (choose_shell [] places ≢ []) × (is_wsl_stub (choose_shell [] places) ≡ false)
choose_shell-real_example = choose_shell-real places refl no_stub

-- The shell's own command line fails.
abbrev no_process : Calls
no_process = record {
  in_pipe = true;
  out_pipe = true;
  console_made = true;
  list_made = true;
  list_updated = true;
  command_line = true;
  process_made = false;
}

abbrev all_made : Calls
all_made = record no_process { process_made = true }

open_console-held_example :
    (ledger [] (open_console [] 80 24 places no_process).0
      ≡ some (held (open_console [] 80 24 places no_process).1))
    × (ledger
          (held (open_console [] 80 24 places no_process).1)
          (closing (open_console [] 80 24 places no_process).1)
        ≡ some [])
open_console-held_example = open_console-held [] 80 24 places no_process

abbrev cmd : Child
cmd = record { shell = codes "cmd.exe"; x = 80; y = 24 }

cmd-started : (open_console (codes "cmd.exe") 80 24 places all_made).1 ≡ Result.started cmd
unfolding open_console make_pipes then_uses make_console start_process choose_shell int16
cmd-started = refl

close_console-twice_example :
    ledger []
      ((open_console (codes "cmd.exe") 80 24 places all_made).0 ++ (close_console ++ close_console))
    ≡ none
close_console-twice_example =
    close_console-twice (codes "cmd.exe") 80 24 places all_made cmd cmd-started

abbrev gfd_config : Config
gfd_config = record { iduna_base = codes "http://h"; token = codes "jwt" }

-- A network that answers each request with a body of one byte, and one that is down.
abbrev net_up : Net ℕ
net_up = record {
  answer = λ r. some (1 ∷ []);
  strings = λ body. some (λ key. none);
  titles = λ body. some (codes "apple" ∷ []);
  tier = λ body. some none;
  offices = λ body. some (7 ∷ []);
}

abbrev net_down : Net ℕ
net_down = record net_up { answer = λ r. none }

abbrev signals : List (Signal ℕ)
signals = tick net_down ∷ stopped ∷ tick net_up ∷ []

abbrev blank_state : GfdState ℕ
blank_state = record {
  emily_gear = [];
  online_count = 0;
  latest_apple = [];
  tier_name = [];
  districts = [];
}

poll_loop-IsDiscreet_example :
    All (IsDiscreet gfd_config) (poll_loop gfd_config net_up signals blank_state).0
poll_loop-IsDiscreet_example = poll_loop-IsDiscreet gfd_config net_up signals blank_state

poll_loop-shown_example :
    (poll_loop gfd_config net_up signals blank_state).1
    ≡ shown gfd_config (net_up ∷ polled signals) blank_state
poll_loop-shown_example = poll_loop-shown gfd_config net_up signals blank_state
