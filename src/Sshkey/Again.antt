-- ===== src/Sshkey/Again.antt =====
-- The key that `LoadOrGenerate` returned is loaded again by the next call.
use pitviper.Base.{ℕ, true, false, Option, none, some, inl, inr, List, ◌≡◌, refl}
use pitviper.Sshkey.{
  Ssh, KeyFaults, Loaded, authorized_keys_line, loaded_line, load_key, load_or_generate,
}
use pitviper.Sshkey.Outcomes.{load_or_generate-cases}

-- A written key is read back, and `NewPublicKey` gives the public key of its signer.
pub record IsKeyLibrary (ssh : Ssh) : Type 0 where
  pub read_back :
      (key : ssh.Private) (block : List ℕ)
      → ssh.encode key ≡ some block
      → ssh.parse block ≡ some key
  pub same_public :
      (key : ssh.Private) (p : ssh.Public)
      → ssh.new_public_key key ≡ some p
      → ssh.public_key key ≡ p

module _ (ssh : Ssh) (lib : IsKeyLibrary ssh) where
  -- The file can be read.
  abbrev pub readable : KeyFaults ssh
  readable = record {
    no_stat = false;
    unreadable = false;
    fresh = none;
    no_dir = false;
    short_write = none;
  }

  -- If a line was returned, a call on the file that is now there returns it, as an old key's.
  abbrev pub Reloads : Loaded ssh → Type 0
  Reloads (file, inl e) = Unit {0}
  Reloads (file, inr (line, generated)) =
      load_or_generate ssh readable file ≡ (file, inr (line, false))

  old-Reloads :
      (text : List ℕ) (key : ssh.Private)
      → ssh.parse text ≡ some key
      → Reloads (some text, inr (authorized_keys_line ssh (ssh.public_key key), false))
  unfolding load_or_generate load_key loaded_line
  old-Reloads text key e = rw e refl

  new-Reloads :
      (key : ssh.Private) (block : List ℕ) (p : ssh.Public)
      → ssh.encode key ≡ some block
      → ssh.new_public_key key ≡ some p
      → Reloads (some block, inr (authorized_keys_line ssh p, true))
  unfolding load_or_generate load_key loaded_line
  new-Reloads key block p w e = rw (lib.read_back key block w) (rw (lib.same_public key p e) refl)

  -- Whatever the calls answer, a line that `LoadOrGenerate` returned, of an old key or of a new
  -- one, is returned again by a call that can read the file, and then not as a new key's. That
  -- holds for key functions that read back what they write.
  pub load_or_generate-Reloads :
      (f : KeyFaults ssh) (file : Option (List ℕ)) → Reloads (load_or_generate ssh f file)
  load_or_generate-Reloads f file =
      load_or_generate-cases ssh Reloads (λ file e. tt) old-Reloads new-Reloads f file
