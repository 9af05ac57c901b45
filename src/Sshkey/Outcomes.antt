-- ===== src/Sshkey/Outcomes.antt =====
-- The outcomes of `LoadOrGenerate`: an error, the line of the key that the file holds, or the line
-- of the key that was written to it.
use pitviper.Base.{
  ℕ, Bool, true, false, Option, none, some, inl, inr, List, ◌≡◌, refl, take, if_cases,
}
use pitviper.Sshkey.{
  Ssh, KeyFaults, KeyError, Loaded, authorized_keys_line, loaded_line, load_key, new_line, save_key,
  store_key, make_key, load_or_generate,
}

module _ (ssh : Ssh) (P : Loaded ssh → Type 0)
    (error : (file : Option (List ℕ)) (e : KeyError) → P (file, inl e))
    (old : (text : List ℕ) (key : ssh.Private)
      → ssh.parse text ≡ some key
      → P (some text, inr (authorized_keys_line ssh (ssh.public_key key), false)))
    (new : (key : ssh.Private) (block : List ℕ) (p : ssh.Public)
      → ssh.encode key ≡ some block
      → ssh.new_public_key key ≡ some p
      → P (some block, inr (authorized_keys_line ssh p, true))) where
  loaded_line-cases :
      (text : List ℕ) (o : Option ssh.Private) → ssh.parse text ≡ o → P (loaded_line ssh text o)
  unfolding loaded_line
  loaded_line-cases text none e = error (some text) KeyError.not_parsed
  loaded_line-cases text (some key) e = old text key e

  load_key-cases : (unreadable : Bool) (text : List ℕ) → P (load_key ssh unreadable text)
  unfolding load_key
  load_key-cases unreadable text =
      if_cases P unreadable (some text, inl KeyError.not_read)
        (loaded_line ssh text (ssh.parse text)) (error (some text) KeyError.not_read)
        (loaded_line-cases text (ssh.parse text) refl)

  module _ (key : ssh.Private) where
    new_line-cases :
        (block : List ℕ) (o : Option ssh.Public)
        → ssh.encode key ≡ some block
        → ssh.new_public_key key ≡ o
        → P (new_line ssh block o)
    unfolding new_line
    new_line-cases block none w e = error (some block) KeyError.not_derived
    new_line-cases block (some p) w e = new key block p w e

    save_key-cases :
        (short : Option ℕ) (block : List ℕ)
        → ssh.encode key ≡ some block
        → P (save_key ssh short key block)
    unfolding save_key
    save_key-cases none block w = new_line-cases block (ssh.new_public_key key) w refl
    save_key-cases (some n) block w = error (some (take n block)) KeyError.not_written

    store_key-cases :
        (f : KeyFaults ssh) (file o : Option (List ℕ))
        → ssh.encode key ≡ o
        → P (store_key ssh f file key o)
    unfolding store_key
    store_key-cases f file none w = error file KeyError.not_encoded
    store_key-cases f file (some block) w =
        if_cases P f.no_dir (file, inl KeyError.no_key_dir) (save_key ssh f.short_write key block)
          (error file KeyError.no_key_dir) (save_key-cases f.short_write block w)

  make_key-cases :
      (f : KeyFaults ssh) (file : Option (List ℕ)) (o : Option ssh.Private)
      → P (make_key ssh f file o)
  unfolding make_key
  make_key-cases f file none = error file KeyError.not_generated
  make_key-cases f file (some key) = store_key-cases key f file (ssh.encode key) refl

  pub load_or_generate-cases :
      (f : KeyFaults ssh) (file : Option (List ℕ)) → P (load_or_generate ssh f file)
  unfolding load_or_generate
  load_or_generate-cases f none = make_key-cases f none f.fresh
  load_or_generate-cases f (some text) =
      if_cases P f.no_stat (make_key ssh f (some text) f.fresh) (load_key ssh f.unreadable text)
        (make_key-cases f (some text) f.fresh) (load_key-cases f.unreadable text)
