-- ===== src/Examples/Choice.antt =====
-- The theorem on the choice of the connection, at a concrete input.
use pitviper.Base.{false, ◌≡◌, refl, none, some, [], codes}
use pitviper.Sshkey.{load_or_generate}
use pitviper.Window.Connect.{Flags, Answers, cut_at, connect}
use pitviper.Window.Connect.Offers.{OffersOwn, connect-OffersOwn}
use pitviper.Examples.Enrolment.{plain_ssh, plain_ssh-IsKeyLibrary, first_run}
use pitviper.Examples.Connection.{no_shell_world}
use pitviper.Examples.Terminals.{no_size}

abbrev flags : Flags
flags = record {
  gfd = [];
  ssh = codes "ann@host";
  ssh_key = [];
  ssh_password = [];
  ssh_insecure = false;
  shell = [];
}

-- There is no key file yet.
abbrev answers : Answers plain_ssh
answers = record {
  mud_dials = false;
  own_path = codes "/c/pitviper/id_ed25519";
  files = λ path. none;
  unreadable = λ path. false;
  key_faults = first_run;
  world = no_shell_world;
  pty = no_size;
}

flags-target : cut_at flags.ssh ≡ some (codes "ann", codes "host")
unfolding cut_at
flags-target = refl

connect-OffersOwn_example :
    OffersOwn plain_ssh flags
      (codes "ann")
      (codes "host")
      (load_or_generate plain_ssh first_run none)
      (connect plain_ssh flags answers)
connect-OffersOwn_example =
    connect-OffersOwn plain_ssh plain_ssh-IsKeyLibrary flags answers (codes "ann") (codes "host")
      refl refl refl flags-target refl refl
