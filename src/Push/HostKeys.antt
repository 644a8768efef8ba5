-- ===== src/Push/HostKeys.antt =====
-- internal/sshpush/sshpush.go: `getHostKeyCallback` and the callbacks it returns, on the known_hosts
-- file as state.
use lanmon.Prelude.{
  Bool, List, [], ◌∷◌, ◌++◌, if◌then◌else◌, Bytes, Text, codes, text_eq, Option, none, some, Result,
  ok, err,
}
use lanmon.Go.Strings.{trim_suffix}

-- What `knownhosts` answers to a key: a `KeyError` lists the keys that it has for the host.
pub data Checked : Type 0 where
  known : Checked
  key_error : List Bytes → Checked
  other_error : Checked

-- golang.org/x/crypto/ssh/knownhosts: `New` on the text of a file, the callback that it returns, on
-- host name, remote address and key, and `Line` behind `Normalize`.
pub record Knownhosts : Type 1 where
  pub Db : Type 0
  pub load : Text → Option Db
  pub check : Db → Text → Text → Bytes → Checked
  pub line : Text → Bytes → Text

-- What stands at the path of the known_hosts file.
pub data KnownFile : Type 0 where
  missing directory : KnownFile
  file : Text → KnownFile

-- How the system answers an append: the file does not open, only a part is written, or all is.
pub data Appending : Type 0 where
  not_opened appended : Appending
  torn : Text → Appending

-- Whether `MkdirAll` and `Create` work, and how appends end.
pub record Disk : Type 0 where
  pub makes_dir : Bool
  pub creates : Bool
  pub appends : Appending

pub data HostKeyError : Type 0 where
  making_dir creating loading opening writing refused : HostKeyError
  mismatch : List Bytes → HostKeyError

abbrev pub Callback : Type 0
Callback = Text → Text → Bytes → KnownFile → KnownFile × Result HostKeyError (Unit {0})

-- `Fprintln` on a file opened with O_APPEND and O_CREATE.
unfoldable pub append_line :
    Appending → Text → KnownFile → KnownFile × Result HostKeyError (Unit {0})
append_line not_opened line f = (f, err opening)
append_line a line directory = (directory, err opening)
append_line appended line missing = (file (line ++ codes "\n"), ok tt)
append_line appended line (file s) = (file (s ++ (line ++ codes "\n")), ok tt)
append_line (torn part) line missing = (file part, err writing)
append_line (torn part) line (file s) = (file (s ++ part), err writing)

abbrev pub known_dir : Text → Text
known_dir path = trim_suffix path (codes "/known_hosts")

module _ (kh : Knownhosts) (disk : Disk) where
  -- `ssh.InsecureIgnoreHostKey`
  abbrev pub insecure_callback : Callback
  insecure_callback host remote key f = (f, ok tt)

  unfoldable pub tofu_callback : Callback
  tofu_callback host remote key f = append_line disk.appends (kh.line remote key) f

  abbrev pub wrapped :
      Checked → Text → Bytes → KnownFile → KnownFile × Result HostKeyError (Unit {0})
  wrapped known remote key f = (f, ok tt)
  wrapped (key_error []) remote key f = append_line disk.appends (kh.line remote key) f
  wrapped (key_error (k ∷ want)) remote key f = (f, err (mismatch (k ∷ want)))
  wrapped other_error remote key f = (f, err refused)

  -- `wrapKnownHostsCallback`: the database is the one that was loaded, whatever is appended later.
  unfoldable pub wrap_callback : kh.Db → Callback
  wrap_callback db host remote key f = wrapped (kh.check db host remote key) remote key f

  abbrev pub loaded : Option kh.Db → Result HostKeyError Callback
  loaded none = err loading
  loaded (some db) = ok (wrap_callback db)

  -- The directory that `MkdirAll` makes is named by the path without `/known_hosts`; where that is
  -- the path itself, a directory then stands where `Create` would put the file.
  unfoldable pub first_use : Text → KnownFile × Result HostKeyError Callback
  first_use path =
      if disk.makes_dir
      then if text_eq (known_dir path) path
        then (directory, err creating)
        else if disk.creates
        then (file [], ok tofu_callback)
        else (missing, err creating)
      else (missing, err making_dir)

  abbrev pub host_key_setup : Text → KnownFile → KnownFile × Result HostKeyError Callback
  host_key_setup path missing = first_use path
  host_key_setup path directory = (directory, err loading)
  host_key_setup path (file s) = (file s, loaded (kh.load s))

  unfoldable pub get_host_key_callback : Text → KnownFile → KnownFile × Result HostKeyError Callback
  get_host_key_callback [] f = (f, ok insecure_callback)
  get_host_key_callback (c ∷ path) f = host_key_setup (c ∷ path) f
