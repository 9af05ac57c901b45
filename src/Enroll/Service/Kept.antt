-- ===== src/Enroll/Service/Kept.antt =====
-- No request takes a key from the file, whichever calls fail.
use pitviper.Base.{
  ℕ, zero, suc, true, false, Bool-cases, ◌||◌, if◌then◌else◌, Option, none, some, List, [], ◌∷◌,
  ◌++◌, take, append-nil, Option-cases, ◌≡◌, ◌≢◌, refl, sym, ap, ◌∙◌, arith, inl, inr,
}
use mathlib.Core.Path.{subst}
use pitviper.Enroll.Text.{trim_space, split_lines}
use pitviper.Enroll.Keys.{
  Faults, write_string, has_line, is_open_ended, contents, append_line, append_authorized_key,
}
use pitviper.Enroll.Keys.Added.{closed, lists_key, closed_lines}
use pitviper.Enroll.Service.{Request, Service, enroll, handle, serve}

module _ (k : List ℕ) (some_key : k ≢ []) where
  abbrev Lists : List ℕ → Type 0
  Lists text = has_line (split_lines text) k ≡ true

  extended : (text rest : List ℕ) → Lists text → Lists (closed text ++ rest)
  extended text rest h =
      closed_lines k some_key text rest ∙ ap (λ b. b || has_line (split_lines rest) k) h

  written-Lists :
      (o : Option ℕ) (text rest : List ℕ)
      → ((rest : List ℕ) → Lists (text ++ rest))
      → Lists (write_string o text rest).0
  unfolding write_string
  written-Lists none text rest h = h rest
  written-Lists (some n) text rest h = h (take n rest)

  -- Writing nothing, a part or all of it.
  append_line-Lists :
      (f : Faults) (text key : List ℕ) → Lists text → Lists (append_line f text key).0
  unfolding append_line write_string
  append_line-Lists f text key h = elim (Bool-cases (is_open_ended text)) [
    | inl p ↦ rw p (fed f.short_newline p)
    | inr p ↦ rw p (
        written-Lists f.short_line text (key ++ b'\n' ∷ [])
          (λ rest. subst (λ t. Lists (t ++ rest)) (whole p) (extended text rest h)))
  ]
    where
      whole : is_open_ended text ≡ false → closed text ≡ text
      whole p = rw p refl

      feed : is_open_ended text ≡ true → closed text ≡ text ++ b'\n' ∷ []
      feed p = rw p refl

      line_end : is_open_ended text ≡ true → Lists (text ++ b'\n' ∷ [])
      line_end p =
          subst Lists (append-nil (text ++ b'\n' ∷ []))
            (subst (λ t. Lists (t ++ [])) (feed p) (extended text [] h))

      fed :
          (o : Option ℕ)
          → is_open_ended text ≡ true
          → Lists
              (if (write_string o text (b'\n' ∷ [])).1
                then write_string f.short_line
                    (write_string o text (b'\n' ∷ [])).0
                    (key ++ b'\n' ∷ [])
                else ((write_string o text (b'\n' ∷ [])).0, false)).0
      fed none p =
          written-Lists f.short_line (text ++ b'\n' ∷ []) (key ++ b'\n' ∷ [])
            (λ rest. subst (λ t. Lists (t ++ rest)) (feed p) (extended text rest h))
      fed (some zero) p = subst Lists (sym (append-nil text)) h
      fed (some (suc zero)) p = line_end p
      fed (some (suc (suc n))) p = line_end p

  append_authorized_key-lists :
      (f : Faults) (file : Option (List ℕ)) (key : List ℕ)
      → lists_key file k ≡ true
      → lists_key (append_authorized_key f file key).0 k ≡ true
  unfolding append_authorized_key contents
  append_authorized_key-lists f file key h =
      ground (arith, append_line-Lists f (contents file) key h)

  enroll-lists :
      (f : Faults) (text : List ℕ) (s : Service)
      → lists_key s.file k ≡ true
      → lists_key (enroll f text s).0.file k ≡ true
  unfolding enroll
  enroll-lists f text s h = ground (arith, append_authorized_key-lists f s.file (trim_space text) h)

  handle-lists :
      (code : List ℕ) (f : Faults) (r : Request) (s : Service)
      → lists_key s.file k ≡ true
      → lists_key (handle code f r s).0.file k ≡ true
  unfolding handle
  handle-lists code f r s h = elim (Option-cases r.body) [
    | inl e ↦ rw e (ground (arith, h))
    | inr (req, e) ↦ rw e (ground (arith, h, enroll-lists f req.pubkey s h))
  ]

  -- A key that the file lists, whose text is not empty, is listed after any requests, with any
  -- codes and whichever system calls fail, a write that ends halfway included.
  pub serve-lists :
      (code : List ℕ) (calls : List (Faults × Request)) (s : Service)
      → lists_key s.file k ≡ true
      → lists_key (serve code calls s).file k ≡ true
  unfolding serve
  serve-lists code [] s h = h
  serve-lists code ((f, r) ∷ calls) s h =
      serve-lists code calls (handle code f r s).0 (handle-lists code f r s h)
