-- ===== src/Enroll/Keys/Added.antt =====
-- `appendAuthorizedKey` adds one key to the keys of the file.
use pitviper.Base.{
  ℕ, Bool, true, false, Bool-cases, ◌==◌, ◌||◌, if◌then◌else◌, Option, none, some, List, [], ◌∷◌,
  ◌++◌, append_assoc, bytes_eq, bytes_eq→≡, ◌≡◌, ◌≢◌, refl, sym, ap, ◌∙◌, arith, ◌⊎◌, inl, inr, All,
}
use pitviper.Enroll.Text.{
  trim_space, trim_left, trim_end, split_lines, split_lines-append, split_lines-line,
}
use pitviper.Enroll.Keys.{
  Faults, write_string, has_line, is_open_ended, contents, append_line, append_authorized_key,
}

-- Every call succeeds.
abbrev pub no_faults : Faults
no_faults = record {
  unreadable = false;
  no_dir = false;
  no_open = false;
  short_newline = none;
  short_line = none;
}

-- The file lists the key.
abbrev pub lists_key : Option (List ℕ) → List ℕ → Bool
lists_key file key = has_line (split_lines (contents file)) key

-- A key as the handler passes it on: not empty, without a space at its ends, on one line.
pub record IsKey (key : List ℕ) : Type 0 where
  pub trimmed : trim_space key ≡ key
  pub one_line : All (λ r. (r == b'\n') ≡ false) key

-- The content, with a line feed behind its last line.
abbrev pub closed : List ℕ → List ℕ
closed text = if is_open_ended text then text ++ b'\n' ∷ [] else text

has_line-append :
    (xs ys : List (List ℕ)) (k : List ℕ) → has_line (xs ++ ys) k ≡ (has_line xs k || has_line ys k)
unfolding has_line
has_line-append [] ys k = refl
has_line-append (x ∷ xs) ys k =
    rw (has_line-append xs ys k)
      (or_assoc (bytes_eq (trim_space x) k) (has_line xs k) (has_line ys k))
  where
    or_assoc : (a b c : Bool) → (a || (b || c)) ≡ ((a || b) || c)
    or_assoc true b c = refl
    or_assoc false b c = refl

or_false : (b : Bool) → (b || false) ≡ b
or_false true = refl
or_false false = refl

-- A text that ends with a line feed has the lines before it, and an empty one.
ended :
    (text : List ℕ)
    → text ≢ []
    → is_open_ended text ≡ false
    → (start : List ℕ) × (text ≡ start ++ b'\n' ∷ [])
unfolding is_open_ended
ended [] n e = absurd (n refl)
ended (r ∷ []) n e = elim (Bool-cases (r == b'\n')) [
  | inl p ↦ ([], ground (arith, p))
  | inr p ↦ absurd (ground (arith, p))
]
ended (r ∷ x ∷ xs) n e =
    let (start, h) = ended (x ∷ xs) (λ q. cc q) e in (r ∷ start, ap (λ l. r ∷ l) h)

empty_line : (k : List ℕ) → k ≢ [] → has_line ([] ∷ []) k ≡ false
unfolding has_line trim_space trim_left trim_end
empty_line [] n = absurd (n refl)
empty_line (r ∷ rs) n = refl

module _ (k : List ℕ) (some_key : k ≢ []) where
  -- Lines behind a line feed.
  after_feed :
      (start rest : List ℕ)
      → has_line (split_lines ((start ++ b'\n' ∷ []) ++ rest)) k
        ≡ (has_line (split_lines start) k || has_line (split_lines rest) k)
  after_feed start rest =
      ap (λ l. has_line (split_lines l) k) (append_assoc start (b'\n' ∷ []) rest)
      ∙ ap (λ ls. has_line ls k) (split_lines-append start rest)
      ∙ has_line-append (split_lines start) (split_lines rest) k

  ended_start :
      (start : List ℕ)
      → has_line (split_lines (start ++ b'\n' ∷ [])) k ≡ has_line (split_lines start) k
  unfolding split_lines
  ended_start start =
      ap (λ ls. has_line ls k) (split_lines-append start [])
      ∙ has_line-append (split_lines start) ([] ∷ []) k
      ∙ ap (λ b. has_line (split_lines start) k || b) (empty_line k some_key)
      ∙ or_false (has_line (split_lines start) k)

  -- What is written behind the last line feed adds its lines.
  pub closed_lines :
      (text rest : List ℕ)
      → has_line (split_lines (closed text ++ rest)) k
        ≡ (has_line (split_lines text) k || has_line (split_lines rest) k)
  unfolding split_lines
  closed_lines text rest = elim (Bool-cases (is_open_ended text)) [
    | inl p ↦ rw p (after_feed text rest)
    | inr p ↦ rw p (whole text p)
  ]
    where
      whole :
          (text : List ℕ)
          → is_open_ended text ≡ false
          → has_line (split_lines (text ++ rest)) k
            ≡ (has_line (split_lines text) k || has_line (split_lines rest) k)
      whole [] p = sym (ap (λ b. b || has_line (split_lines rest) k) (empty_line k some_key))
      whole (r ∷ rs) p =
          let (start, e) = ended (r ∷ rs) (λ q. absurd (cc q)) p in
          ap (λ l. has_line (split_lines (l ++ rest)) k) e
          ∙ after_feed start rest
          ∙ ap (λ b. b || has_line (split_lines rest) k)
              (sym (ended_start start) ∙ ap (λ l. has_line (split_lines l) k) (sym e))

  key_line :
      (key : List ℕ) → IsKey key → has_line (split_lines (key ++ b'\n' ∷ [])) k ≡ bytes_eq key k
  unfolding has_line split_lines
  key_line key ok = rw (split_lines-append key []) (
      rw (split_lines-line key ok.one_line) (
        rw ok.trimmed
          (ap (λ b. bytes_eq key k || b) (empty_line k some_key) ∙ or_false (bytes_eq key k))))

  -- The keys of the file after the append.
  closed_keys :
      (text key : List ℕ)
      → IsKey key
      → has_line (split_lines (closed text ++ (key ++ b'\n' ∷ []))) k
        ≡ (has_line (split_lines text) k || bytes_eq key k)
  closed_keys text key ok =
      closed_lines text (key ++ b'\n' ∷ [])
      ∙ ap (λ b. has_line (split_lines text) k || b) (key_line key ok)

written :
    (text key : List ℕ)
    → append_line no_faults text key ≡ (closed text ++ (key ++ b'\n' ∷ []), true)
unfolding append_line write_string
written text key = elim (Bool-cases (is_open_ended text)) [ inl p ↦ rw p refl | inr p ↦ rw p refl ]

-- A key that the file does not list is appended on a line of its own.
pub append_authorized_key-new :
    (file : Option (List ℕ)) (key : List ℕ)
    → lists_key file key ≡ false
    → append_authorized_key no_faults file key
      ≡ (some (closed (contents file) ++ (key ++ b'\n' ∷ [])), true)
unfolding append_authorized_key
append_authorized_key-new file key absent = rw absent (rw (written (contents file) key) refl)

-- With calls that succeed, `appendAuthorizedKey` of a key that is trimmed and on one line returns
-- no error, and then the file lists a text that is not empty exactly if it listed it before, or it
-- is this key.
pub append_authorized_key-Adds :
    (file : Option (List ℕ)) (key k : List ℕ)
    → IsKey key
    → k ≢ []
    → ((append_authorized_key no_faults file key).1 ≡ true)
      × (lists_key (append_authorized_key no_faults file key).0 k
          ≡ (lists_key file k || bytes_eq key k))
unfolding contents append_authorized_key
append_authorized_key-Adds file key k ok n = elim (Bool-cases (lists_key file key)) [
  | inl here ↦
      let same : append_authorized_key no_faults file key ≡ (file, true) = kept here in
      rw same (refl, present (Bool-cases (bytes_eq key k)) here)
  | inr absent ↦
      rw (append_authorized_key-new file key absent) (refl, closed_keys k n (contents file) key ok)
]
  where
    kept : lists_key file key ≡ true → append_authorized_key no_faults file key ≡ (file, true)
    kept h = rw h refl

    present :
        (bytes_eq key k ≡ true) ⊎ (bytes_eq key k ≡ false)
        → lists_key file key ≡ true
        → lists_key file k ≡ (lists_key file k || bytes_eq key k)
    present (inl e) h = rw (sym (bytes_eq→≡ key k e)) (rw h refl)
    present (inr e) h = rw e (sym (or_false (lists_key file k)))
