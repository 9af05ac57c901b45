-- ===== src/Pty/Linux/Handles.antt =====
-- What `Open` and `Close` leave open.
use pitviper.Base.{
  ℕ, ◌^◌, ◌<◌, true, if◌then◌else◌, some, List, [], ◌∷◌, bytes_eq, codes, Use, ledger, ◌≡◌, arith,
}
use pitviper.Pty.Linux.{
  World, Result, winsize_of, shell_of, then_use, close_both, start, close_master, open_pty,
  open_shell, close_pty, master, child,
}

-- The handles of the result: the master and the process, or nothing.
abbrev pub held : Result → List ℕ
held (Result.started c) = child ∷ master ∷ []
held (Result.failed e) = []

-- The uses of `Close`, if there is a terminal.
abbrev pub closing : Result → List Use
closing (Result.started c) = close_pty
closing (Result.failed e) = []

-- Whatever the system answers, `Open` closes no handle that is not open, and leaves the master and
-- the process if it returns a terminal and nothing if it fails; `Close` then closes both.
pub open_shell-held :
    (arg : List ℕ) (cols rows : ℕ) (w : World)
    → (ledger [] (open_shell arg cols rows w).0 ≡ some (held (open_shell arg cols rows w).1))
      × (ledger (held (open_shell arg cols rows w).1) (closing (open_shell arg cols rows w).1)
          ≡ some [])
unfolding open_shell open_pty start then_use close_both close_master close_pty
open_shell-held arg cols rows w = ground arith

-- With calls that succeed, and a size below 2 ^ 16, `Open` starts the shell of the argument, or
-- else `$SHELL`, in a terminal of that size.
open_shell-started :
    (arg : List ℕ) (cols rows : ℕ) (env : List ℕ)
    → cols < 2 ^ 16
    → rows < 2 ^ 16
    → (open_shell arg cols rows (record {
      shell_env = env;
      ptmx_opens = true;
      unlocks = true;
      named = true;
      slave_opens = true;
      size_set = true;
      starts = true;
    })).1
      ≡ Result.started (record {
        shell =
            if bytes_eq arg [] then (if bytes_eq env [] then codes "/bin/bash" else env) else arg;
        size = record { row = rows; col = cols };
      })
unfolding open_shell open_pty start then_use shell_of winsize_of
open_shell-started arg cols rows env wide high = ground arith
