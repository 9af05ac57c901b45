-- ===== src/Pty/Windows.antt =====
-- internal/pty/pty_windows.go: the choice of the shell, `Open`, `Resize` and `Close`.
pub mod Handles
pub mod Shell
use pitviper.Base.{
  ℕ, ◌+◌, ◌%◌, ◌^◌, Bool, true, false, not, leb, ◌&&◌, if◌then◌else◌, Option, none, some, List, [],
  ◌∷◌, ◌++◌, map, bytes_eq, contains, codes, Use, opens, closes,
}

-- What the environment and the file system answer: variables that are not set are empty,
-- `look_path` is `exec.LookPath`, and `exists` is whether `os.Stat` has no error.
pub record Places : Type 0 where
  pub shell_env : List ℕ
  pub program_files : List ℕ
  pub program_files_x86 : List ℕ
  pub local_app_data : List ℕ
  pub look_path : List ℕ → Option (List ℕ)
  pub exists : List ℕ → Bool

-- `strings.ToLower` on the letters of ASCII, which are all that the stub's path has.
abbrev pub to_lower : List ℕ → List ℕ
to_lower path = map (λ b. if leb b'A' b && leb b b'Z' then b + 32 else b) path

unfoldable pub is_wsl_stub : List ℕ → Bool
is_wsl_stub path = contains (to_lower path) (codes "\\system32\\bash.exe")

-- `filepath.Join` of a path and a relative one, of paths that are clean.
unfoldable pub join_path : List ℕ → List ℕ → List ℕ
join_path root sub = if bytes_eq root [] then sub else root ++ (b'\\' ∷ sub)

-- The first of some paths that exists.
unfoldable pub first_existing : Places → List (List ℕ) → List ℕ
first_existing p [] = []
first_existing p (c ∷ cs) = if p.exists c then c else first_existing p cs

-- The candidates below a root, none if it is empty.
unfoldable pub below_root : List ℕ → List (List ℕ)
below_root root =
    if bytes_eq root []
    then []
    else join_path root (codes "Git\\bin\\bash.exe")
      ∷ join_path root (codes "Git\\usr\\bin\\bash.exe")
      ∷ []

-- The candidates of the loops of `findGitBash`, in order.
unfoldable pub git_candidates : Places → List (List ℕ)
git_candidates p =
    below_root p.program_files
    ++ (below_root p.program_files_x86
        ++ below_root (join_path p.local_app_data (codes "Programs")))

unfoldable pub find_git_bash : Places → List ℕ
find_git_bash p = first_existing p (git_candidates p)

-- `exec.LookPath`, if it finds a shell that is no stub.
unfoldable pub look_real : Places → List ℕ → List ℕ
look_real p name = elim (p.look_path name) [
  | none ↦ []
  | some path ↦ if is_wsl_stub path then [] else path
]

-- `if shell == "" { shell = next }`
abbrev pub or_else : List ℕ → List ℕ → List ℕ
or_else shell next = if bytes_eq shell [] then next else shell

-- The shell that `Open` starts.
unfoldable pub choose_shell : List ℕ → Places → List ℕ
choose_shell arg p =
    or_else
      (or_else
        (or_else (or_else (or_else arg p.shell_env) (look_real p (codes "bash.exe")))
          (look_real p (codes "bash")))
        (find_git_bash p))
      (codes "cmd.exe")

-- The handles of `Open`, in the order in which it makes them.
abbrev pub in_read : ℕ
in_read = 0

abbrev pub in_write : ℕ
in_write = 1

abbrev pub out_read : ℕ
out_read = 2

abbrev pub out_write : ℕ
out_write = 3

abbrev pub console : ℕ
console = 4

abbrev pub attr_list : ℕ
attr_list = 5

abbrev pub process : ℕ
process = 6

abbrev pub thread : ℕ
thread = 7

-- Which calls succeed.
pub record Calls : Type 0 where
  pub in_pipe : Bool
  pub out_pipe : Bool
  pub console_made : Bool
  pub list_made : Bool
  pub list_updated : Bool
  pub command_line : Bool
  pub process_made : Bool

pub data PtyError : Type 0 where
  no_in_pipe : PtyError
  no_out_pipe : PtyError
  no_console : PtyError
  no_list : PtyError
  not_updated : PtyError
  no_command_line : PtyError
  no_process : PtyError

-- The shell that is started, in a console of this size.
pub record Child : Type 0 where
  pub shell : List ℕ
  pub x : ℕ
  pub y : ℕ

pub data Result : Type 0 where
  started : Child → Result
  failed : PtyError → Result

-- `int16(n)`, as its 16 bits
unfoldable pub int16 : ℕ → ℕ
int16 n = n % 2 ^ 16

-- Uses before what follows.
unfoldable pub then_uses : List Use → List Use × Result → List Use × Result
then_uses us (vs, r) = (us ++ vs, r)

-- A failure, with the handles that it closes.
unfoldable pub give_up : PtyError → List Use → List Use × Result
give_up e us = (us, Result.failed e)

-- What every failure after the console was made closes.
abbrev pub close_ends : List Use
close_ends = closes console ∷ closes in_write ∷ closes out_read ∷ []

-- `Open`, from the attribute list on.
unfoldable pub start_process : Child → Calls → List Use × Result
start_process c w =
    if not w.list_made
    then give_up PtyError.no_list close_ends
    else then_uses (opens attr_list ∷ []) (
        if not w.list_updated
        then give_up PtyError.not_updated (closes attr_list ∷ close_ends)
        else if not w.command_line
        then give_up PtyError.no_command_line (closes attr_list ∷ close_ends)
        else if not w.process_made
        then give_up PtyError.no_process (closes attr_list ∷ close_ends)
        else (opens process ∷ opens thread ∷ closes thread ∷ [], Result.started c))

-- `Open`, from `CreatePseudoConsole` on; the console then owns the inner ends of the pipes, and
-- ours are closed.
unfoldable pub make_console : Child → Calls → List Use × Result
make_console c w =
    if not w.console_made
    then give_up PtyError.no_console
        (closes in_read ∷ closes in_write ∷ closes out_read ∷ closes out_write ∷ [])
    else then_uses (opens console ∷ closes in_read ∷ closes out_write ∷ []) (start_process c w)

-- `Open`, from the pipes on.
unfoldable pub make_pipes : Child → Calls → List Use × Result
make_pipes c w =
    if not w.in_pipe
    then give_up PtyError.no_in_pipe []
    else then_uses (opens in_read ∷ opens in_write ∷ []) (
        if not w.out_pipe
        then give_up PtyError.no_out_pipe (closes in_read ∷ closes in_write ∷ [])
        else then_uses (opens out_read ∷ opens out_write ∷ []) (make_console c w))

-- `Open`
unfoldable pub open_console : List ℕ → ℕ → ℕ → Places → Calls → List Use × Result
open_console arg cols rows p w =
    make_pipes (record { shell = choose_shell arg p; x = int16 cols; y = int16 rows }) w

-- `Close`, of a terminal that `Open` returned; none of its fields is reset.
unfoldable pub close_console : List Use
close_console =
    closes process ∷ closes attr_list ∷ closes console ∷ closes out_read ∷ closes in_write ∷ []
