-- ===== src/Enroll/Keys/Feeds.antt =====
-- A key with a line feed inside is no line of any file.
use pitviper.Base.{
  ℕ, Bool, true, false, Bool-cases, ◌==◌, ◌||◌, Option, some, List, [], ◌∷◌, ◌++◌, bytes_eq, ◌≡◌,
  ◌≢◌, refl, sym, ap, ◌∙◌, arith, inl, inr, All, bytes_eq→≡,
}
use pitviper.Enroll.Text.{trim_space, trim_left, trim_end, before, split_lines, onto_first}
use pitviper.Enroll.Keys.{has_line, contents, append_authorized_key}
use pitviper.Enroll.Keys.Added.{no_faults, closed, append_authorized_key-new}

abbrev has_feed : List ℕ → Bool
has_feed [] = false
has_feed (r ∷ rs) = r == b'\n' || has_feed rs

before-has_feed : (r : ℕ) (xs : List ℕ) → has_feed (r ∷ xs) ≡ false → has_feed (before r xs) ≡ false
unfolding before
before-has_feed r [] h = ground (arith, h)
before-has_feed r (x ∷ xs) h = h

trim_end-has_feed : (xs : List ℕ) → has_feed xs ≡ false → has_feed (trim_end xs) ≡ false
unfolding trim_end
trim_end-has_feed [] h = refl
trim_end-has_feed (r ∷ rs) h =
    before-has_feed r (trim_end rs) (ground (arith, trim_end-has_feed rs))

trim_left-has_feed : (xs : List ℕ) → has_feed xs ≡ false → has_feed (trim_left xs) ≡ false
unfolding trim_left
trim_left-has_feed [] h = refl
trim_left-has_feed (r ∷ rs) h = ground (arith, trim_left-has_feed rs)

-- No line has a line feed.
split_lines-has_feed : (xs : List ℕ) → All (λ l. has_feed l ≡ false) (split_lines xs)
unfolding split_lines onto_first
split_lines-has_feed [] = (refl, tt)
split_lines-has_feed (r ∷ rs) = elim (Bool-cases (r == b'\n')) [
  | inl p ↦ rw p (refl, split_lines-has_feed rs)
  | inr p ↦ rw p (first (split_lines rs) p (split_lines-has_feed rs))
]
  where
    first :
        (ls : List (List ℕ))
        → (r == b'\n') ≡ false
        → All (λ l. has_feed l ≡ false) ls
        → All (λ l. has_feed l ≡ false) (onto_first r ls)
    first [] p h = (ground (arith, p), tt)
    first (l ∷ ls) p h = (ground (arith, p, h.0), h.1)

has_line-has_feed :
    (ls : List (List ℕ)) (key : List ℕ)
    → All (λ l. has_feed l ≡ false) ls
    → has_feed key ≡ true
    → has_line ls key ≡ false
unfolding has_line trim_space
has_line-has_feed [] key h k = refl
has_line-has_feed (l ∷ ls) key h k = elim (Bool-cases (bytes_eq (trim_space l) key)) [
  | inl e ↦
      let f = trim_end-has_feed (trim_left l) (trim_left-has_feed l h.0) in
      absurd (apart (sym f ∙ ap has_feed (bytes_eq→≡ (trim_space l) key e) ∙ k))
  | inr e ↦ rw e (has_line-has_feed ls key h.1 k)
]
  where
    apart : false ≢ true
    apart e = cc e

-- `appendAuthorizedKey`, with calls that succeed, appends a key with a line feed inside to any
-- file, also to one that it was appended to before.
append_authorized_key-feed :
    (file : Option (List ℕ)) (key : List ℕ)
    → has_feed key ≡ true
    → append_authorized_key no_faults file key
      ≡ (some (closed (contents file) ++ (key ++ b'\n' ∷ [])), true)
append_authorized_key-feed file key h =
    append_authorized_key-new file key
      (has_line-has_feed (split_lines (contents file)) key (split_lines-has_feed (contents file)) h)
