-- ===== src/Push/Run.antt =====
-- internal/sshpush/sshpush.go: `PushKey` and `verifyPubKeyAuth`, over what the host, the network and
-- the files answer.
use lanmon.Prelude.{
  Bool, ◌++◌, if◌then◌else◌, Bytes, Text, codes, text_eq, Option, none, some, Result, ok, err,
}
use lanmon.Go.Strings.{trim_suffix, trim_space}
use lanmon.Push.HostKeys.{
  Knownhosts, Disk, KnownFile, HostKeyError, Callback, get_host_key_callback,
}

-- One connection: the remote address and the key that the host shows, if it is reached, whether it
-- lets the user in, whether a session begins, and the output of a command, if it exits with 0.
pub record Connection : Type 0 where
  pub reached : Option (Text × Bytes)
  pub lets_in : Bool
  pub session : Bool
  pub combined_output : Text → Option Text

-- What `os.ReadFile` gives, whether a private key parses, and the two connections.
pub record Site : Type 0 where
  pub read_file : Text → Option Bytes
  pub parses : Bytes → Bool
  pub pushing : Connection
  pub verifying : Connection

pub data DialError : Type 0 where
  unreachable denied : DialError
  host_key : HostKeyError → DialError

pub data PushError : Type 0 where
  reading_key creating_session remote_command key_exists : PushError
  host_keys : HostKeyError → PushError
  dialing : DialError → PushError
  unexpected : Text → PushError
  reading_private parsing_private verify_session verify_command : PushError
  verify_dial : DialError → PushError
  verify_output : Text → PushError

abbrev pub home_of : Text → Text
home_of user = if text_eq user (codes "root") then codes "/root" else codes "/home/" ++ user

abbrev pub ssh_dir : Text → Text
ssh_dir user = home_of user ++ codes "/.ssh"

abbrev pub auth_keys : Text → Text
auth_keys user = ssh_dir user ++ codes "/authorized_keys"

-- The remote command: it adds the key unless the file has it.
unfoldable pub push_command : Text → Text → Text
push_command user key =
    codes "mkdir -p "
    ++ ssh_dir user
    ++ codes " && chmod 700 "
    ++ ssh_dir user
    ++ codes " && (grep -qF '"
    ++ key
    ++ codes "' "
    ++ auth_keys user
    ++ codes " 2>/dev/null && echo 'KEY_EXISTS' || (echo '"
    ++ key
    ++ codes "' >> "
    ++ auth_keys user
    ++ codes " && chmod 600 "
    ++ auth_keys user
    ++ codes " && chown -R "
    ++ user
    ++ codes ":"
    ++ user
    ++ codes " "
    ++ ssh_dir user
    ++ codes " && echo 'KEY_ADDED'))"

abbrev pub after_auth : Bool → Result HostKeyError (Unit {0}) → Result DialError (Unit {0})
after_auth lets_in (err e) = err (host_key e)
after_auth lets_in (ok _) = if lets_in then ok tt else err denied

-- `ssh.Dial`: the host key is checked before the user is let in.
unfoldable pub dial :
    Callback → Text → Connection → KnownFile → KnownFile × Result DialError (Unit {0})
dial callback addr c f = elim c.reached [
  | none ↦ (f, err unreachable)
  | some shown ↦
      let checked = callback addr shown.0 shown.1 f in (checked.0, after_auth c.lets_in checked.1)
]

abbrev pub pushed_output : Text → Result PushError (Unit {0})
pushed_output result =
    if text_eq result (codes "KEY_EXISTS")
    then err key_exists
    else if text_eq result (codes "KEY_ADDED")
    then ok tt
    else err (unexpected result)

abbrev pub from_output :
    PushError → (Text → Result PushError (Unit {0})) → Option Text → Result PushError (Unit {0})
from_output e judge none = err e
from_output e judge (some output) = judge output

-- The session that adds the key, and the judgement of its output.
unfoldable pub push_session : Text → Text → Connection → Result PushError (Unit {0})
push_session user key c =
    if c.session
    then from_output remote_command (λ output. pushed_output (trim_space output))
        (c.combined_output (push_command user key))
    else err creating_session

abbrev pub verified_output : Text → Result PushError (Unit {0})
verified_output output =
    if text_eq (trim_space output) (codes "OK") then ok tt else err (verify_output output)

unfoldable pub verify_session_of : Connection → Result PushError (Unit {0})
verify_session_of c =
    if c.session
    then from_output verify_command verified_output (c.combined_output (codes "echo OK"))
    else err verify_session

abbrev pub after_dial :
    (DialError → PushError)
    → Result PushError (Unit {0})
    → KnownFile × Result DialError (Unit {0})
    → KnownFile × Result PushError (Unit {0})
after_dial wrap then_do (f, err e) = (f, err (wrap e))
after_dial wrap then_do (f, ok _) = (f, then_do)

-- The path of the private key.
abbrev pub private_path : Text → Text
private_path pub_path = trim_suffix pub_path (codes ".pub")

-- `verifyPubKeyAuth`
unfoldable pub verify_pub_key_auth :
    Callback → Text → Text → Site → KnownFile → KnownFile × Result PushError (Unit {0})
verify_pub_key_auth callback addr pub_path site f = elim (site.read_file (private_path pub_path)) [
  | none ↦ (f, err reading_private)
  | some key ↦
      if site.parses key
      then after_dial verify_dial (verify_session_of site.verifying)
          (dial callback addr site.verifying f)
      else (f, err parsing_private)
]

-- The verification follows a push that succeeded.
abbrev pub then_verify :
    (KnownFile → KnownFile × Result PushError (Unit {0}))
    → KnownFile × Result PushError (Unit {0})
    → KnownFile × Result PushError (Unit {0})
then_verify verify (f, err e) = (f, err e)
then_verify verify (f, ok _) = verify f

abbrev pub with_callback :
    Text
    → Text
    → Text
    → Text
    → Site
    → KnownFile × Result HostKeyError Callback
    → KnownFile × Result PushError (Unit {0})
with_callback addr user pub_path key site (f, err e) = (f, err (host_keys e))
with_callback addr user pub_path key site (f, ok callback) =
    then_verify (verify_pub_key_auth callback addr pub_path site)
      (after_dial dialing (push_session user key site.pushing) (dial callback addr site.pushing f))

-- `PushKey`: `addr` is host and port, `known_path` the path of the known_hosts file.
unfoldable pub push_key :
    Knownhosts
    → Disk
    → Text
    → Text
    → Text
    → Text
    → Site
    → KnownFile
    → KnownFile × Result PushError (Unit {0})
push_key kh disk addr user pub_path known_path site f = elim (site.read_file pub_path) [
  | none ↦ (f, err reading_key)
  | some key ↦
      with_callback addr user pub_path (trim_space key) site
        (get_host_key_callback kh disk known_path f)
]
