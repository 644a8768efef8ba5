-- ===== src/Tests/Push.antt =====
-- Pushes to a host, with a database of one known key.
use lanmon.Prelude.{
  ◌≡◌, ◌≢◌, refl, true, false, [], ◌∷◌, ◌++◌, Bytes, Text, codes, some, ok, if◌then◌else◌, text_eq,
}
use lanmon.Go.Strings.{trim_space, trim_suffix, has_suffix}
use lanmon.Push.HostKeys.{
  Knownhosts, Checked, known, key_error, Disk, appended, missing, file, get_host_key_callback,
  wrap_callback, tofu_callback, append_line, first_use,
}
use lanmon.Push.Run.{
  Connection, Site, push_key, push_command, push_session, verify_session_of, verify_pub_key_auth,
  dial,
}
use lanmon.Push.Exact.{IsPushed, push_key_iff}
use lanmon.Push.Trust.{IsTrusted, push_key-IsTrusted}
use lanmon.Push.FirstUse.{IsNoFile, none_yet, push_key_other_name, showing, first_push_any_key}

abbrev host_key : Bytes
host_key = codes "ssh-ed25519 AAAA"

abbrev check_one : Text → Text → Bytes → Checked
check_one host remote key =
    if text_eq host (codes "10.0.0.5:22")
    then if text_eq key host_key then known else key_error (host_key ∷ [])
    else key_error []

abbrev one_known : Knownhosts
one_known = record {
  Db = Text;
  load = λ s. some s;
  check = λ db. check_one;
  line = λ remote key. remote ++ (b' ' ∷ key);
}

abbrev pub disk : Disk
disk = record { makes_dir = true; creates = true; appends = appended }

abbrev pub says : Text → Connection
says output = record {
  reached = some (codes "10.0.0.5:22", host_key);
  lets_in = true;
  session = true;
  combined_output = λ command. some output;
}

abbrev pub site : Site
site = record {
  read_file = λ path. some (codes "ssh-rsa BBBB\n");
  parses = λ key. true;
  pushing = says (codes "KEY_ADDED\n");
  verifying = says (codes "OK\n");
}

abbrev pub known_one : Knownhosts
known_one = one_known

abbrev addr : Text
addr = codes "10.0.0.5:22"

abbrev key_path : Text
key_path = codes "/root/.ssh/id_rsa.pub"

abbrev path : Text
path = codes "/etc/lanmon/known_hosts"

abbrev tail_path : Text
tail_path = codes "etc/lanmon/known_hosts"

abbrev before : Text
before = codes "10.0.0.5 ssh-ed25519 AAAA\n"

pushed_one :
    (push_key one_known disk addr (codes "root") key_path path site (file before)).1 ≡ ok tt
unfolding push_key verify_pub_key_auth dial push_session verify_session_of get_host_key_callback
    wrap_callback trim_space text_eq push_command
pushed_one = refl

push_key_iff_example : IsPushed one_known disk addr (codes "root") key_path path site (file before)
push_key_iff_example =
    (push_key_iff one_known disk addr (codes "root") key_path path site (file before)).0 pushed_one

push_key-IsTrusted_example :
    IsTrusted one_known disk before addr site.pushing
    × IsTrusted one_known disk before addr site.verifying
push_key-IsTrusted_example =
    push_key-IsTrusted one_known disk before addr (codes "root") key_path tail_path before b'/' site
      refl pushed_one

other_name : has_suffix (codes "/etc/lanmon/hosts") (codes "/known_hosts") ≡ false
unfolding has_suffix text_eq
other_name = refl

push_key_other_name_example :
    ((push_key one_known disk addr
        (codes "root")
        key_path
        (codes "/etc/lanmon/hosts")
        site
        missing).1
      ≢ ok tt)
    × IsNoFile
        (push_key one_known disk addr
          (codes "root")
          key_path
          (codes "/etc/lanmon/hosts")
          site
          missing).0
push_key_other_name_example =
    push_key_other_name one_known disk addr (codes "root") key_path (codes "etc/lanmon/hosts") b'/'
      site missing other_name none_yet

first_push_any_key_example :
    (push_key one_known disk addr
      (codes "root")
      key_path
      path
      (showing addr (codes "ssh-ed25519 AAAA") site)
      missing).1
    ≡ (push_key one_known disk addr
        (codes "root")
        key_path
        path
        (showing addr (codes "ssh-ed25519 EVIL") site)
        missing).1
first_push_any_key_example =
    first_push_any_key one_known disk addr addr key_path (codes "ssh-ed25519 AAAA")
      (codes "ssh-ed25519 EVIL") site (codes "root") path

-- The push itself succeeds with the other key.
first_push_other_key :
    (push_key one_known disk addr
      (codes "root")
      key_path
      path
      (showing addr (codes "ssh-ed25519 EVIL") site)
      missing).1
    ≡ ok tt
unfolding push_key verify_pub_key_auth dial push_session verify_session_of get_host_key_callback
    tofu_callback append_line first_use trim_space trim_suffix text_eq push_command
first_push_other_key = refl
