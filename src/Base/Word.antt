-- ===== src/Base/Word.antt =====
-- Go's `int`: a 64-bit two's complement word, kept as its bit pattern below 2 ^ 64.
use Prim.Native.Nat.{ℕ, ◌+◌, ◌-◌, ◌*◌, ◌%◌, ◌/◌, ◌^◌, ◌<◌, ◌≤◌}
use mathlib.Core.Path.{◌≡◌}
use mathlib.Core.Bool.{Bool, not}
use native.Mathlib.Omega.{arith}
use pitviper.Base.Tests.{ltb, leb, if◌then◌else◌}

abbrev pub add : ℕ → ℕ → ℕ
add a b = (a + b) % 2 ^ 64

abbrev pub sub : ℕ → ℕ → ℕ
sub a b = (a + 2 ^ 64 - b) % 2 ^ 64

abbrev pub mul : ℕ → ℕ → ℕ
mul a b = a * b % 2 ^ 64

-- The signed order is that of the patterns with the sign bit flipped.
abbrev flip_sign : ℕ → ℕ
flip_sign a = (a + 2 ^ 63) % 2 ^ 64

abbrev pub slt : ℕ → ℕ → Bool
slt a b = ltb (flip_sign a) (flip_sign b)

abbrev pub sle : ℕ → ℕ → Bool
sle a b = not (slt b a)

-- `a / k` for a positive `k`, towards zero.
abbrev pub quot : ℕ → ℕ → ℕ
quot a k = if ltb a (2 ^ 63) then a / k else sub 0 ((2 ^ 64 - a) / k)

-- How often `for i := lo; i < hi; i++` runs.
abbrev pub rounds : ℕ → ℕ → ℕ
rounds lo hi = if slt lo hi then sub hi lo else 0

-- A word that stands for a number far from the ends, as the sizes and positions of a screen do.
abbrev pub IsSmall : ℕ → Type 0
IsSmall a = a < 2 ^ 62

pub rounds-small : (lo hi : ℕ) → IsSmall lo → IsSmall hi → rounds lo hi ≡ hi - lo
rounds-small lo hi p q = ground arith

add-small : (a b : ℕ) → IsSmall a → IsSmall b → add a b ≡ a + b
add-small a b p q = omega arith

pub sub-small : (a b : ℕ) → b ≤ a → IsSmall a → sub a b ≡ a - b
sub-small a b h p = omega arith

pub sle-small : (a b : ℕ) → IsSmall a → IsSmall b → sle a b ≡ leb a b
sle-small a b p q = ground arith

slt-small : (a b : ℕ) → IsSmall a → IsSmall b → slt a b ≡ ltb a b
slt-small a b p q = ground arith
