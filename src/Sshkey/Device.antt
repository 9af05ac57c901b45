-- ===== src/Sshkey/Device.antt =====
-- A device enrols its key with the listener of the enrolment tool.
use pitviper.Base.{
  ℕ, Bool, true, false, Option, some, inl, inr, List, [], ◌∷◌, ◌++◌, ◌≡◌, ◌≢◌, refl, sym, ap, ◌∙◌,
  ◌==◌, ◌||◌, All, has_prefix, bytes_eq, bytes_eq_refl, codes,
}
use mathlib.Core.Path.{subst}
use pitviper.Enroll.Text.{trim_space}
use pitviper.Enroll.Keys.Added.{no_faults, lists_key}
use pitviper.Enroll.Service.{EnrollRequest, Reply, Service, handle, status}
use pitviper.Enroll.Service.Gate.{handle-Enrolls}
use pitviper.Sshkey.{
  Ssh, KeyFaults, Loaded, cut_feed, authorized_keys_line, load_or_generate, check_status,
  run_ssh_enroll,
}
use pitviper.Sshkey.Outcomes.{load_or_generate-cases}

-- One line for `authorized_keys`.
pub record IsKeyLine (line : List ℕ) : Type 0 where
  pub one_line : All (λ r. (r == b'\n') ≡ false) line
  pub trimmed : trim_space line ≡ line

-- `MarshalAuthorizedKey` gives a line and a line feed.
abbrev pub IsMarshal : Ssh → Type 0
IsMarshal ssh =
    (p : ssh.Public)
    → (line : List ℕ) × (ssh.authorized_key p ≡ line ++ b'\n' ∷ []) × IsKeyLine line

cut_feed-line : (line : List ℕ) → cut_feed (line ++ b'\n' ∷ []) ≡ line
unfolding cut_feed
cut_feed-line [] = refl
cut_feed-line (b ∷ []) = refl
cut_feed-line (b ∷ c ∷ cs) = ap (λ l. b ∷ l) (cut_feed-line (c ∷ cs))

-- The listener's answer to a POST, with system calls that succeed there: its new state, and the
-- status.
abbrev pub listener : List ℕ → EnrollRequest → Service → Service × Option ℕ
listener code req s =
    let r : Service × Reply =
      handle code no_faults (record { is_post = true; body = some req }) s in
    (r.0, some (status r.1))

module _ (ssh : Ssh) (marshal : IsMarshal ssh) where
  line-IsKeyLine : (p : ssh.Public) → IsKeyLine (authorized_keys_line ssh p)
  unfolding authorized_keys_line
  line-IsKeyLine p =
      let (line, e, ok) = marshal p in subst IsKeyLine (sym (ap cut_feed e ∙ cut_feed-line line)) ok

  -- If a line was returned, it is one for `authorized_keys`.
  abbrev Shows : Loaded ssh → Type 0
  Shows (file, inl e) = Unit {0}
  Shows (file, inr (line, generated)) = IsKeyLine line

  load_or_generate-Shows :
      (f : KeyFaults ssh) (file : Option (List ℕ)) → Shows (load_or_generate ssh f file)
  load_or_generate-Shows f file =
      load_or_generate-cases ssh Shows (λ file e. tt)
        (λ text key e. line-IsKeyLine (ssh.public_key key)) (λ key block p w e. line-IsKeyLine p) f
        file

  shown :
      (l : Loaded ssh) (line : List ℕ) (generated : Bool)
      → Shows l
      → l.1 ≡ inr (line, generated)
      → IsKeyLine line
  shown (file, inl x) line generated h e = absurd (cc e)
  shown (file, inr (other, g)) line generated h e =
      let same : other ≡ line = cc e in subst IsKeyLine same h

  or_true : (b : Bool) → (b || true) ≡ true
  or_true true = refl
  or_true false = refl

  -- With a code that is not empty, a listener that made the same code and system calls that succeed
  -- there: if the device has a key, whose line begins with `ssh-`, `runSSHEnroll` succeeds, and it
  -- leaves the listener done and with a file that lists the line of the key. That holds if
  -- `MarshalAuthorizedKey` gives one line without spaces around it, and a line feed.
  pub run_ssh_enroll-enrolled :
      (code : List ℕ) (f : KeyFaults ssh) (file : Option (List ℕ)) (s : Service) (line : List ℕ)
      (generated : Bool)
      → bytes_eq code [] ≡ false
      → (load_or_generate ssh f file).1 ≡ inr (line, generated)
      → has_prefix line (codes "ssh-") ≡ true
      → ((run_ssh_enroll ssh code f file (listener code) s).1 ≡ true)
        × ((run_ssh_enroll ssh code f file (listener code) s).0.done ≡ true)
        × (lists_key (run_ssh_enroll ssh code f file (listener code) s).0.file line ≡ true)
  unfolding run_ssh_enroll check_status status
  run_ssh_enroll-enrolled code f file s line generated some_code e prefix =
      let ok =
        shown (load_or_generate ssh f file) line generated (load_or_generate-Shows f file) e in
      let filled : line ≢ [] = λ h. absurd (cc (h, prefix)) in
      let d =
        handle-Enrolls code line s line
          (subst (λ t. has_prefix t (codes "ssh-") ≡ true) (sym ok.trimmed) prefix)
          (subst (All (λ r. (r == b'\n') ≡ false)) (sym ok.trimmed) ok.one_line) filled in
      let listed : bytes_eq (trim_space line) line ≡ true = rw ok.trimmed (bytes_eq_refl line) in
      rw some_code (
        rw e (
          rw d.0 refl,
          d.1,
          d.2 ∙ ap (λ b. lists_key s.file line || b) listed ∙ or_true (lists_key s.file line),
        ))
