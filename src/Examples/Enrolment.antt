-- ===== src/Examples/Enrolment.antt =====
-- The theorems on enrolment and on keys, at concrete inputs.
use pitviper.Base.{
  Bool, inr, ℕ, true, false, ◌≡◌, ◌≢◌, refl, sym, ap, ◌==◌, ◌||◌, none, some, List, [], ◌∷◌, All,
  codes, bytes_eq, has_prefix,
}
use pitviper.Enroll.Text.{
  trim_space, trim_left, trim_end, before, is_space, split_lines, onto_first,
}
use pitviper.Enroll.Keys.{Faults, has_line, append_authorized_key, contents}
use pitviper.Enroll.Keys.Added.{no_faults, lists_key, IsKey, append_authorized_key-Adds}
use pitviper.Enroll.Service.{Request, Reply, Service, handle, serve}
use pitviper.Enroll.Service.Kept.{serve-lists}
use pitviper.Enroll.Service.Gate.{IsStranger, serve-strangers, handle-Enrolls}
use pitviper.Sshkey.{
  Ssh, KeyFaults, run_ssh_enroll, load_or_generate, make_key, store_key, save_key, new_line,
  authorized_keys_line, cut_feed,
}
use pitviper.Sshkey.Again.{IsKeyLibrary, Reloads, load_or_generate-Reloads}
use pitviper.Sshkey.Device.{IsMarshal, listener, run_ssh_enroll-enrolled}

-- A file with one key and no line feed at its end, and another key.
abbrev old_key : List ℕ
old_key = codes "ssh-rsa A"

abbrev new_key : List ℕ
new_key = codes "ssh-rsa B"

new_key-one_line : All (λ r. (r == b'\n') ≡ false) new_key
new_key-one_line = (refl, (refl, (refl, (refl, (refl, (refl, (refl, (refl, (refl, tt)))))))))

new_key-trimmed : trim_space new_key ≡ new_key
unfolding trim_space trim_left trim_end before is_space
new_key-trimmed = refl

new_key-IsKey : IsKey new_key
new_key-IsKey = record { trimmed = new_key-trimmed; one_line = new_key-one_line }

old_key-filled : old_key ≢ []
old_key-filled e = cc e

append_authorized_key-Adds_example :
    ((append_authorized_key no_faults (some old_key) new_key).1 ≡ true)
    × (lists_key (append_authorized_key no_faults (some old_key) new_key).0 old_key
        ≡ (lists_key (some old_key) old_key || bytes_eq new_key old_key))
append_authorized_key-Adds_example =
    append_authorized_key-Adds (some old_key) new_key old_key new_key-IsKey old_key-filled

abbrev waiting : Service
waiting = record { file = some old_key; done = false }

abbrev wrong_code : Request
wrong_code = record {
  is_post = true;
  body = some (record { code = codes "000000"; pubkey = new_key });
}

abbrev right_code : Request
right_code = record {
  is_post = true;
  body = some (record { code = codes "123456"; pubkey = new_key });
}

wrong_code-IsStranger : IsStranger (codes "123456") (no_faults, wrong_code)
wrong_code-IsStranger req e = let same : codes "000000" ≡ req.code = cc e in rw (sym same) refl

serve-strangers_example : serve (codes "123456") ((no_faults, wrong_code) ∷ []) waiting ≡ waiting
serve-strangers_example =
    serve-strangers (codes "123456") ((no_faults, wrong_code) ∷ []) waiting
      (wrong_code-IsStranger, tt)

-- A disk that takes three bytes of the key's line.
abbrev full_disk : Faults
full_disk = record no_faults { short_line = some 3 }

old_key-listed : lists_key (some old_key) old_key ≡ true
unfolding has_line split_lines onto_first contents trim_space trim_left trim_end before is_space
old_key-listed = refl

serve-lists_example :
    lists_key (serve (codes "123456") ((full_disk, right_code) ∷ []) waiting).file old_key ≡ true
serve-lists_example =
    serve-lists old_key old_key-filled (codes "123456") ((full_disk, right_code) ∷ []) waiting
      old_key-listed

new_key-ssh : has_prefix (trim_space new_key) (codes "ssh-") ≡ true
new_key-ssh = rw new_key-trimmed refl

new_key-one_trimmed : All (λ r. (r == b'\n') ≡ false) (trim_space new_key)
new_key-one_trimmed = rw new_key-trimmed new_key-one_line

handle-Enrolls_example :
    let after : Service × Reply = handle (codes "123456") no_faults right_code waiting in
    (after.1 ≡ Reply.enrolled)
    × (after.0.done ≡ true)
    × (lists_key after.0.file old_key
        ≡ (lists_key waiting.file old_key || bytes_eq (trim_space new_key) old_key))
handle-Enrolls_example =
    handle-Enrolls (codes "123456") new_key waiting old_key new_key-ssh new_key-one_trimmed
      old_key-filled

-- Keys that are their own files and lines.
abbrev pub plain_ssh : Ssh
plain_ssh = record {
  Private = List ℕ;
  Public = List ℕ;
  parse = λ text. some text;
  public_key = λ key. codes "ssh-rsa B";
  encode = λ key. some key;
  new_public_key = λ key. some (codes "ssh-rsa B");
  authorized_key = λ key. codes "ssh-rsa B\n";
}

pub plain_ssh-IsKeyLibrary : IsKeyLibrary plain_ssh
plain_ssh-IsKeyLibrary = record {
  read_back = λ key block e. ap some (got key block e);
  same_public = λ key p e. line key p e;
}
  where
    got : (key block : List ℕ) → some key ≡ some block → block ≡ key
    got key block e = cc e

    line : (key p : List ℕ) → some (codes "ssh-rsa B") ≡ some p → codes "ssh-rsa B" ≡ p
    line key p e = cc e

-- `GenerateKey` makes a key.
abbrev pub first_run : KeyFaults plain_ssh
first_run = record {
  no_stat = false;
  unreadable = false;
  fresh = some (codes "secret");
  no_dir = false;
  short_write = none;
}

load_or_generate-Reloads_example :
    Reloads plain_ssh plain_ssh-IsKeyLibrary (load_or_generate plain_ssh first_run none)
load_or_generate-Reloads_example =
    load_or_generate-Reloads plain_ssh plain_ssh-IsKeyLibrary first_run none

plain_ssh-IsMarshal : IsMarshal plain_ssh
plain_ssh-IsMarshal p =
    (new_key, refl, record { one_line = new_key-one_line; trimmed = new_key-trimmed })

first_line : (load_or_generate plain_ssh first_run none).1 ≡ inr (new_key, true)
unfolding load_or_generate make_key store_key save_key new_line authorized_keys_line cut_feed
first_line = refl

run_ssh_enroll-enrolled_example :
    let after : Service × Bool =
      run_ssh_enroll plain_ssh
        (codes "123456")
        first_run
        none
        (listener (codes "123456"))
        waiting in
    (after.1 ≡ true) × (after.0.done ≡ true) × (lists_key after.0.file new_key ≡ true)
run_ssh_enroll-enrolled_example =
    run_ssh_enroll-enrolled plain_ssh plain_ssh-IsMarshal (codes "123456") first_run none waiting
      new_key true refl first_line refl
