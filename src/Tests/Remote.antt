-- ===== src/Tests/Remote.antt =====
-- A push to a host whose authorized_keys file has one key and no line break at its end.
use lanmon.Prelude.{
  ◌≡◌, refl, true, none, some, [], ◌∷◌, ◌++◌, Text, codes, text_eq, if◌then◌else◌, ok, err,
}
use lanmon.Go.Strings.{trim_space, unlines}
use lanmon.Push.Run.{Connection, auth_keys, push_session, key_exists}
use lanmon.Push.Remote.{Host, Files, meaning, key_command, has_infix}
use lanmon.Push.Authorized.{answer}
use lanmon.Push.Once.{Runs, Pushes, push_session-Pushes, second_push_exists, appended_line}

abbrev host : Host
host = record {
  makes_dir = λ dir. true;
  sets_mode = λ mode path. true;
  sets_owner = λ user path. true;
  appends = λ path. true;
}

abbrev user : Text
user = codes "bob"

abbrev key : Text
key = codes "ssh-ed25519 BBBB lanmon"

abbrev files : Files
files p = if text_eq p (auth_keys user) then some (codes "ssh-rsa AAAA\nssh-rsa CCCC") else none

abbrev left : Files
left = (meaning host (key_command user key) files).0

abbrev runs_on : Files → Connection
runs_on fs = record {
  reached = none;
  lets_in = true;
  session = true;
  combined_output = λ command. answer (meaning host (key_command user key) fs);
}

Runs-first : Runs host files user key (runs_on files)
Runs-first = (refl, refl)

added_first : push_session user key (runs_on files) ≡ ok tt
unfolding push_session meaning key_command text_eq trim_space has_infix
added_first = refl

push_session-Pushes_example :
    Pushes host user key files (push_session user key (runs_on files)) left
push_session-Pushes_example = push_session-Pushes host user key files (runs_on files) Runs-first

second_push_exists_example : push_session user key (runs_on left) ≡ err key_exists
second_push_exists_example =
    second_push_exists host host user key files (runs_on files) (runs_on left) Runs-first
      added_first (record { makes_dir = refl; sets_mode = refl }) (refl, refl)

appended_line_example :
    left (auth_keys user)
    ≡ some (unlines ((codes "ssh-rsa AAAA" ∷ []) ++ (codes "ssh-rsa CCCC" ++ key) ∷ []))
unfolding text_eq unlines
appended_line_example =
    appended_line host user key (codes "ssh-rsa CCCC") (codes "ssh-rsa AAAA" ∷ []) files
      (runs_on files) refl Runs-first added_first
