-- ===== src/Base/Handles.antt =====
-- Handles that a program opens and closes, as a list of events that a ledger checks.
use Prim.Native.Nat.{ℕ}
use pitviper.Base.Tests.{◌==◌, if◌then◌else◌}
use pitviper.Base.Bind.{◌>>=◌}
use mathlib.Core.List.{List, [], ◌∷◌}
use mathlib.Core.Option.{Option, none, some}

pub data Use : Type 0 where
  opens : ℕ → Use
  closes : ℕ → Use

-- The open handles without one of them; none if it is not open.
abbrev pub release : ℕ → List ℕ → Option (List ℕ)
release h [] = none
release h (x ∷ xs) = if h == x then some xs else (release h xs >>= λ rest. some (x ∷ rest))

-- The handles that are open afterwards; none if a handle is closed that is not open.
abbrev pub ledger : List ℕ → List Use → Option (List ℕ)
ledger held [] = some held
ledger held (opens h ∷ us) = ledger (h ∷ held) us
ledger held (closes h ∷ us) = release h held >>= λ rest. ledger rest us
