-- ===== src/Connect/Run.antt =====
-- cmd/connect/connect.go: `Run` and `generateSSHKey`, behind the loading of the configuration.
use lanmon.Prelude.{
  true, false, ℕ, ◌+◌, Bool, not, ◌&&◌, List, [], ◌∷◌, ◌++◌, if◌then◌else◌, Text, codes, text_eq,
  Option, none, some, Result, ok, err, map, leb,
}
use lanmon.Go.Strings.{trim_space}
use lanmon.Config.Settings.{ConnectConfig}
use lanmon.Store.Record.{HostRecord}
use lanmon.Store.Bolt.{Bolt}
use lanmon.Rpc.{RpcError, list_active_hosts, call_mark}
use lanmon.Push.HostKeys.{Knownhosts, Disk, KnownFile}
use lanmon.Push.Run.{Site, PushError, push_key}
use lanmon.Connect.Choose.{choose_host}

-- What the user types; there is no password where it cannot be read.
pub record Terminal : Type 0 where
  pub index_line : Text
  pub user_line : Text
  pub answer_line : Text
  pub password : Option Text

-- What the machine answers: whether the node's socket is reached, the list call and the mark call
-- arrive, BoltDB works at each; what stands at the key's path; how key generation and the probe end;
-- the disk and the host for the push, and whether `execSSH` at the end returns no error, as it never
-- does where ssh takes the place of the process.
pub record Surroundings : Type 0 where
  pub dials : Bool
  pub lists : Bool
  pub reads : Bool
  pub mark_reaches : Bool
  pub writes : Bool
  pub now : ℕ
  pub key_exists : Bool
  pub makes_dir : Bool
  pub generates : Bool
  pub passwordless : Bool
  pub disk : Disk
  pub site : Text → Site
  pub exits_fine : Bool

pub data ConnectError : Type 0 where
  dialing_node invalid_index key_required making_ssh_dir keygen_failed reading_password :
      ConnectError
  fetching_hosts : RpcError → ConnectError
  push_failed : PushError → ConnectError
  -- for the user and the host
  running_ssh : Text → Text → ConnectError

pub data Outcome : Type 0 where
  no_hosts panicked : Outcome
  failed : ConnectError → Outcome
  connected : Text → Text → Outcome

-- `strings.ToLower` on the ASCII letters.
abbrev lower : ℕ → ℕ
lower c = if leb b'A' c && leb c b'Z' then c + 32 else c

abbrev pub to_lower : Text → Text
to_lower s = map lower s

abbrev pub username : Text → Text
username line = let name = trim_space line in if text_eq name [] then codes "root" else name

-- `generateSSHKey`
unfoldable pub generate_ssh_key : Terminal → Surroundings → Result ConnectError (Unit {0})
generate_ssh_key t m =
    let answer = trim_space (to_lower t.answer_line) in
    if not (text_eq answer []) && not (text_eq answer (codes "y"))
    then err key_required
    else if not m.makes_dir
    then err making_ssh_dir
    else if not m.generates
    then err keygen_failed
    else ok tt

unfoldable pub ensure_key : Terminal → Surroundings → Result ConnectError (Unit {0})
unfolding generate_ssh_key
ensure_key t m = if m.key_exists then ok tt else generate_ssh_key t m

module _ (bolt : Bolt) (kh : Knownhosts) (t : Terminal) (m : Surroundings)
    (cfg : ConnectConfig) where
  open bolt use {Bucket}

  -- What a run leaves: the node's bucket, the known_hosts file and the outcome.
  abbrev pub Left : Type 0
  Left = Bucket × KnownFile × Outcome

  -- The error of the call is only logged.
  abbrev pub mark : HostRecord → Bucket → Bucket
  mark h b = (call_mark bolt m.mark_reaches m.writes m.now h.beacon.mac_address b).0

  -- `execSSH`, whose error `Run` returns: ssh cannot be executed, or, where it runs as a child,
  -- does not exit with 0.
  abbrev pub exec_ssh : HostRecord → Outcome
  exec_ssh h =
      if m.exits_fine
      then connected (username t.user_line) h.beacon.ip_address
      else failed (running_ssh (username t.user_line) h.beacon.ip_address)

  abbrev pub push : HostRecord → KnownFile → KnownFile × Result PushError (Unit {0})
  push h f =
      push_key kh m.disk (h.beacon.ip_address ++ codes ":22") (username t.user_line)
        cfg.server_pub_key cfg.known_hosts (m.site h.beacon.ip_address) f

  abbrev pub after_push : HostRecord → Bucket → KnownFile × Result PushError (Unit {0}) → Left
  after_push h b (f, err e) = (b, f, failed (push_failed e))
  after_push h b (f, ok _) = (mark h b, f, exec_ssh h)

  abbrev pub ask_and_push : HostRecord → Option Text → Bucket → KnownFile → Left
  ask_and_push h none b f = (b, f, failed reading_password)
  ask_and_push h (some password) b f = after_push h b (push h f)

  -- The message on an earlier push, if one is marked, reads the time behind a pointer, which is nil
  -- where no time is set.
  abbrev pub warn_and_push : HostRecord → Bool → Option ℕ → Bucket → KnownFile → Left
  warn_and_push h false at b f = ask_and_push h t.password b f
  warn_and_push h true none b f = (b, f, panicked)
  warn_and_push h true (some at) b f = ask_and_push h t.password b f

  -- By whether ssh gets in without a password and whether a push is marked.
  abbrev pub probe_or_push : HostRecord → Bool → Bool → Bucket → KnownFile → Left
  probe_or_push h true true b f = (b, f, exec_ssh h)
  probe_or_push h true false b f = (mark h b, f, exec_ssh h)
  probe_or_push h false marked b f = warn_and_push h marked h.ssh_key_pushed_at b f

  abbrev pub with_key : HostRecord → Bucket → KnownFile → Result ConnectError (Unit {0}) → Left
  with_key h b f (err e) = (b, f, failed e)
  with_key h b f (ok _) = probe_or_push h m.passwordless h.ssh_key_pushed b f

  abbrev pub with_choice : Option HostRecord → Bucket → KnownFile → Left
  with_choice none b f = (b, f, failed invalid_index)
  with_choice (some h) b f = with_key h b f (ensure_key t m)

  abbrev pub with_hosts : Result RpcError (List HostRecord) → Bucket → KnownFile → Left
  with_hosts (err e) b f = (b, f, failed (fetching_hosts e))
  with_hosts (ok []) b f = (b, f, no_hosts)
  with_hosts (ok (h ∷ hosts)) b f = with_choice (choose_host (h ∷ hosts) t.index_line) b f

  -- `Run`: `listed` is the bucket when the hosts are listed, `b` what it has become when the mark
  -- arrives.
  unfoldable pub connect_run : Bucket → Bucket → KnownFile → Left
  connect_run listed b f =
      if m.dials
      then with_hosts (list_active_hosts bolt m.lists m.reads listed) b f
      else (b, f, failed dialing_node)
