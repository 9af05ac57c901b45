-- ===== src/Enroll/Service/Gate.antt =====
-- Who may add a key: only a request with the code.
use pitviper.Base.{
  ℕ, true, false, Bool-cases, ◌||◌, ◌==◌, some, List, [], ◌∷◌, bytes_eq, has_prefix, bytes_eq_refl,
  Option-cases, codes, ◌≡◌, ◌≢◌, refl, ap, ◌∙◌, inl, inr, All,
}
use pitviper.Enroll.Text.{trim_space, trim_space_twice}
use pitviper.Enroll.Keys.{Faults}
use pitviper.Enroll.Keys.Added.{no_faults, lists_key, append_authorized_key-Adds}
use pitviper.Enroll.Service.{EnrollRequest, Request, Reply, Service, enroll, handle, serve}

-- A request without the code.
abbrev pub IsStranger : List ℕ → Faults × Request → Type 0
IsStranger code (f, r) = (req : EnrollRequest) → r.body ≡ some req → bytes_eq req.code code ≡ false

handle-stranger :
    (code : List ℕ) (f : Faults) (r : Request) (s : Service)
    → IsStranger code (f, r)
    → (handle code f r s).0 ≡ s
unfolding handle
handle-stranger code f r s h = elim (Bool-cases r.is_post) [
  | inl p ↦ elim (Option-cases r.body) [
    | inl e ↦ rw p (rw e refl)
    | inr (req, e) ↦ rw p (rw e (rw (h req e) refl))
  ]
  | inr p ↦ rw p refl
]

-- Requests without the code, of any method and with any body, change neither the file nor `done`.
pub serve-strangers :
    (code : List ℕ) (calls : List (Faults × Request)) (s : Service)
    → All (IsStranger code) calls
    → serve code calls s ≡ s
unfolding serve
serve-strangers code [] s h = refl
serve-strangers code ((f, r) ∷ calls) s h =
    ap (serve code calls) (handle-stranger code f r s h.0) ∙ serve-strangers code calls s h.1

starts : (text : List ℕ) → has_prefix text (codes "ssh-") ≡ true → bytes_eq text [] ≡ false
starts [] h = absurd (cc h)
starts (r ∷ rs) h = refl

-- A POST with the code and a public key that begins with `ssh-` and, once trimmed, has no line feed
-- inside, with system calls that succeed, is answered with success; `done` is set, and the file
-- lists a text that is not empty exactly if it listed it before, or it is the trimmed key.
pub handle-Enrolls :
    (code text : List ℕ) (s : Service) (k : List ℕ)
    → has_prefix (trim_space text) (codes "ssh-") ≡ true
    → All (λ r. (r == b'\n') ≡ false) (trim_space text)
    → k ≢ []
    → let after : Service × Reply =
        handle code no_faults
          (record { is_post = true; body = some (record { code = code; pubkey = text }) })
          s in
      (after.1 ≡ Reply.enrolled)
      × (after.0.done ≡ true)
      × (lists_key after.0.file k ≡ (lists_key s.file k || bytes_eq (trim_space text) k))
unfolding handle enroll
handle-Enrolls code text s k ssh one_line filled =
    let key : List ℕ = trim_space text in
    let added =
      append_authorized_key-Adds s.file key k
        (record { trimmed = trim_space_twice text; one_line = one_line }) filled in
    rw (bytes_eq_refl code) (rw (starts key ssh, ssh) (rw added.0 (refl, refl, added.1)))
