-- ===== src/Tests/Connect.antt =====
-- A run of `lanmon connect` on the store with one host.
use lanmon.Prelude.{
  ok, ◌≡◌, refl, true, false, ◌++◌, Text, codes, Option, none, some, get_elem?, text_eq,
}
use lanmon.Go.Int.{pos}
use lanmon.Go.Strings.{trim_space, has_suffix, trim_suffix}
use lanmon.Go.Strconv.{atoi}
use lanmon.Config.Settings.{ConnectConfig}
use lanmon.Store.Record.{HostRecord}
use lanmon.Store.Ops.{first_record}
use lanmon.Push.HostKeys.{
  missing, get_host_key_callback, wrap_callback, first_use, tofu_callback, append_line,
}
use lanmon.Connect.Run.{Terminal, Surroundings}
use lanmon.Push.Run.{
  Site, push_key, verify_pub_key_auth, dial, push_session, verify_session_of, push_command,
}
use lanmon.Connect.Ssh.{Files, write_file, KeyPair, SshKeygen, keygen_args}
use lanmon.Connect.Keys.{Sends, generated, key_at, generated_key-Sends}
use lanmon.Tests.Store.{t0, host1}
use lanmon.Tests.Push.{disk, site, known_one}

abbrev terminal : Terminal
terminal = record {
  index_line = codes " 1\n";
  user_line = codes "\n";
  answer_line = codes "y\n";
  password = some (codes "pw");
}

abbrev around : Surroundings
around = record {
  dials = true;
  lists = true;
  reads = true;
  mark_reaches = true;
  writes = true;
  now = t0;
  key_exists = true;
  makes_dir = true;
  generates = true;
  passwordless = false;
  disk = disk;
  site = λ ip. site;
  exits_fine = true;
}

abbrev settings : ConnectConfig
settings = record {
  rpc_socket = codes "/run/lanmon/server.sock";
  server_pub_key = codes "/root/.ssh/id_rsa.pub";
  known_hosts = codes "/etc/lanmon/known_hosts";
}

abbrev record_one : HostRecord
record_one = first_record host1 t0

number : atoi (trim_space (codes " 1\n")) ≡ some (pos 1)
unfolding atoi trim_space
number = refl

abbrev pair : KeyPair
pair = record { private_key = codes "PRIVATE\n"; public_key = codes "ssh-rsa BBBB\n" }

-- Writes where the argument behind `-f` says.
abbrev made_at : Option Text → Files → Files
made_at none files = files
made_at (some path) files =
    write_file (path ++ codes ".pub") pair.public_key (write_file path pair.private_key files)

abbrev keygen : SshKeygen
keygen = record {
  made = λ args. made_at (get_elem? args 6);
  pair = pair;
  writes = λ path files p. refl;
}

-- A path for the public key that does not end in `.pub`.
abbrev key_path : Text
key_path = codes "/root/.ssh/lan_key"

abbrev no_files : Files
no_files p = none

abbrev made_site : Site
made_site = record site { read_file = generated keygen key_path no_files }

made_push :
    (push_key known_one disk
      (codes "10.0.0.5:22")
      (codes "root")
      key_path
      (codes "/etc/lanmon/known_hosts")
      made_site
      missing).1
    ≡ ok tt
unfolding push_key verify_pub_key_auth dial push_session verify_session_of get_host_key_callback
    wrap_callback trim_space text_eq push_command has_suffix keygen_args trim_suffix first_use
    tofu_callback append_line
made_push = refl

generated_key-Sends_example : Sends keygen key_path no_files (codes "root") made_site
generated_key-Sends_example =
    generated_key-Sends keygen key_path no_files known_one disk (codes "10.0.0.5:22") (codes "root")
      (codes "/etc/lanmon/known_hosts") made_site missing (λ p. refl) made_push

private_sent : key_at pair key_path ≡ codes "PRIVATE\n"
unfolding has_suffix text_eq
private_sent = refl
