-- ===== src/Pty/Windows/Shell.antt =====
-- Which shell is started.
use pitviper.Base.{
  ℕ, false, Bool-cases, if◌then◌else◌, Option, none, some, List, [], ◌∷◌, bytes_eq, codes, ◌≡◌, ◌≢◌,
  refl, inl, inr,
}
use pitviper.Pty.Windows.{Places, is_wsl_stub, find_git_bash, look_real, or_else, choose_shell}

-- A shell that is none, or no stub.
abbrev IsReal : List ℕ → Type 0
IsReal shell = is_wsl_stub shell ≡ false

nil-IsReal : IsReal []
unfolding is_wsl_stub
nil-IsReal = refl

cmd-IsReal : IsReal (codes "cmd.exe")
unfolding is_wsl_stub
cmd-IsReal = refl

or_else-IsReal : (a b : List ℕ) → IsReal a → IsReal b → IsReal (or_else a b)
or_else-IsReal a b p q = elim (Bool-cases (bytes_eq a [])) [ inl e ↦ rw e q | inr e ↦ rw e p ]

look_real-IsReal : (p : Places) (name : List ℕ) → IsReal (look_real p name)
unfolding look_real
look_real-IsReal p name = found (p.look_path name)
  where
    kept : (path : List ℕ) → IsReal (if is_wsl_stub path then [] else path)
    kept path = elim (Bool-cases (is_wsl_stub path)) [ inl e ↦ rw e nil-IsReal | inr e ↦ rw e e ]

    found :
        (o : Option (List ℕ))
        → IsReal (elim o [ none ↦ [] | some path ↦ if is_wsl_stub path then [] else path ])
    found none = nil-IsReal
    found (some path) = kept path

or_else-filled : (a b : List ℕ) → b ≢ [] → or_else a b ≢ []
or_else-filled [] b h = h
or_else-filled (x ∷ xs) b h = λ e. cc e

-- Without an argument and without `$SHELL`, and with no stub among Git's own locations, the shell
-- is not empty and not the stub of System32, whatever the path lookups find.
pub choose_shell-real :
    (p : Places)
    → p.shell_env ≡ []
    → is_wsl_stub (find_git_bash p) ≡ false
    → (choose_shell [] p ≢ []) × (is_wsl_stub (choose_shell [] p) ≡ false)
unfolding choose_shell
choose_shell-real p e git =
    let a : List ℕ = or_else p.shell_env (look_real p (codes "bash.exe")) in
    let b : List ℕ = or_else a (look_real p (codes "bash")) in
    let c : List ℕ = or_else b (find_git_bash p) in
    let none_set : IsReal p.shell_env = rw e nil-IsReal in
    let first : IsReal a =
      or_else-IsReal p.shell_env (look_real p (codes "bash.exe")) none_set
        (look_real-IsReal p (codes "bash.exe")) in
    let second : IsReal b =
      or_else-IsReal a (look_real p (codes "bash")) first (look_real-IsReal p (codes "bash")) in
    let third : IsReal c = or_else-IsReal b (find_git_bash p) second git in
    (
      or_else-filled c (codes "cmd.exe") (λ h. cc h),
      or_else-IsReal c (codes "cmd.exe") third cmd-IsReal,
    )
