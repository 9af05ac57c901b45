-- ===== src/Slice.antt =====
-- Go's slices as lists of cells, as internal/vterm uses them: indexing, `make`, slicing, the
-- built-in `copy`, and the loop that assigns one value to a range of indices.
-- Indices are words (Base/Word), so a negative index is a pattern of at least 2 ^ 63 and out of
-- range of every slice.
pub mod Laws
use pitviper.Base.{
  ℕ, zero, suc, ◌+◌, ◌-◌, min, Bool, ◌&&◌, ltb, leb, if◌then◌else◌, Option, none, some, ◌>>=◌, List,
  [], ◌∷◌, ◌++◌, length, get_elem?, set, take, drop,
}

module _ {ℓ} {A : Type ℓ} where
  -- `xs[i]`
  unfoldable pub load : List A → ℕ → Option A
  load xs i = get_elem? xs i

  -- `xs[i] = v`
  unfoldable pub store : List A → ℕ → A → Option (List A)
  store xs i v = if ltb i (length xs) then some (set xs i v) else none

  -- `for ; n > 0; n-- { xs[i] = v; i++ }`
  unfoldable pub fill : List A → ℕ → ℕ → A → Option (List A)
  fill xs i zero v = some xs
  fill xs i (suc n) v = store xs i v >>= λ ys. fill ys (i + 1) n v

  -- `xs[a:b]`; the capacity of a slice that `make` returned is its length.
  unfoldable pub slice : List A → ℕ → ℕ → Option (List A)
  slice xs a b = if leb a b && leb b (length xs) then some (take (b - a) (drop a xs)) else none

  -- The values of `ys` over those of `xs` from index `a` on, as many as `n`.
  unfoldable pub overwrite : List A → ℕ → ℕ → List A → List A
  overwrite xs a n ys = take a xs ++ (take n ys ++ drop (a + n) xs)

  -- `copy(xs[a:b], ys)`, which copies as many elements as both hold. `copy` reads all of its source
  -- first, so an overlap does no harm.
  unfoldable pub copy_into : List A → ℕ → ℕ → List A → Option (List A)
  copy_into xs a b ys = do
    dst ← slice xs a b
    some (overwrite xs a (min (length dst) (length ys)) ys)

  -- `copy(xs[a:b], xs[c:d])`
  unfoldable pub copy_within : List A → ℕ → ℕ → ℕ → ℕ → Option (List A)
  copy_within xs a b c d = do src ← slice xs c d; copy_into xs a b src
