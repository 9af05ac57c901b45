-- ===== src/Pty/Linux.antt =====
-- internal/pty/pty_linux.go: `Open`, `Resize` and `Close`.
pub mod Handles
use pitviper.Base.{
  ℕ, ◌%◌, ◌^◌, Bool, true, false, not, if◌then◌else◌, Option, none, some, List, [], ◌∷◌, ◌++◌,
  bytes_eq, codes, Use, opens, closes,
}

-- The two ends, and the process until `Wait` has returned.
abbrev pub master : ℕ
master = 0

abbrev pub slave : ℕ
slave = 1

abbrev pub child : ℕ
child = 2

-- The answers of the system: `$SHELL`; opening `/dev/ptmx`; the `ioctl` that unlocks the slave, the
-- one that gives its name, and opening it; the `ioctl` that sets the size; and `cmd.Start`.
pub record World : Type 0 where
  pub shell_env : List ℕ
  pub ptmx_opens : Bool
  pub unlocks : Bool
  pub named : Bool
  pub slave_opens : Bool
  pub size_set : Bool
  pub starts : Bool

pub data PtyError : Type 0 where
  no_ptmx : PtyError
  not_unlocked : PtyError
  no_name : PtyError
  no_slave : PtyError
  size_not_set : PtyError
  not_started : PtyError

-- `winsize`, less the pixels, which are 0
pub record Winsize : Type 0 where
  pub row : ℕ
  pub col : ℕ

-- The struct that `setWinsize` passes on, with its fields cut to 16 bits.
unfoldable pub winsize_of : ℕ → ℕ → Winsize
winsize_of cols rows = record { row = rows % 2 ^ 16; col = cols % 2 ^ 16 }

-- The shell that is started, less its environment, in a terminal of this size.
pub record Child : Type 0 where
  pub shell : List ℕ
  pub size : Winsize

pub data Result : Type 0 where
  started : Child → Result
  failed : PtyError → Result

-- The shell: the argument, or `$SHELL`, or bash.
unfoldable pub shell_of : List ℕ → World → List ℕ
shell_of arg w =
    let first : List ℕ = if bytes_eq arg [] then w.shell_env else arg in
    if bytes_eq first [] then codes "/bin/bash" else first

-- A use before what follows.
unfoldable pub then_use : Use → List Use × Result → List Use × Result
then_use u (us, r) = (u ∷ us, r)

-- `Open` fails with both ends open: they are closed.
unfoldable pub close_both : PtyError → List Use × Result
close_both e = (closes master ∷ closes slave ∷ [], Result.failed e)

-- `Open`, from `setWinsize` on.
unfoldable pub start : List ℕ → ℕ → ℕ → World → List Use × Result
start shell cols rows w =
    if not w.size_set
    then close_both PtyError.size_not_set
    else if not w.starts
    then close_both PtyError.not_started
    else (
      opens child ∷ closes slave ∷ [],
      Result.started (record { shell = shell; size = winsize_of cols rows }),
    )

-- `openPTY` fails with the master open: it is closed.
unfoldable pub close_master : PtyError → List Use × Result
close_master e = (closes master ∷ [], Result.failed e)

-- `openPTY`, and what `Open` does with its ends.
unfoldable pub open_pty : (List Use × Result) → World → List Use × Result
open_pty next w =
    if not w.ptmx_opens
    then ([], Result.failed PtyError.no_ptmx)
    else then_use (opens master) (
        if not w.unlocks
        then close_master PtyError.not_unlocked
        else if not w.named
        then close_master PtyError.no_name
        else if not w.slave_opens
        then close_master PtyError.no_slave
        else then_use (opens slave) next)

-- `Open`
unfoldable pub open_shell : List ℕ → ℕ → ℕ → World → List Use × Result
open_shell arg cols rows w = open_pty (start (shell_of arg w) cols rows w) w

-- `Close`: the process is killed and waited for, and the master is closed.
unfoldable pub close_pty : List Use
close_pty = closes child ∷ closes master ∷ []
