-- ===== src/Startup/Run.antt =====
-- `Run` of cmd/node/node.go, cmd/server/server.go and cmd/agent/agent.go, behind the loading of the
-- configuration.
use lanmon.Prelude.{
  Bool, true, false, [], ◌∷◌, if◌then◌else◌, Text, text_eq, Option, none, some, ok, err, ◌*◌,
}
use lanmon.Go.Int.{ℤ}
use lanmon.Go.Path.{dir}
use lanmon.Config.Settings.{NodeConfig, parse_interval, parse_stale_threshold}
use lanmon.Startup.Steps.{
  make_dir, open_store, sync_hosts, run_expiry, start_rpc, start_node, start_listener, start_beacon,
  remove_socket, no_secret, no_range, making_db_dir, making_socket_dir, opening_store,
  stale_threshold, starting_rpc, starting_beacon, interval, discovery, Log, after, attempt, closing,
  is_unset, crashed, crashes, is_positive,
}

-- What comes first while a command waits: an error of its goroutine, which is still setting up its
-- socket then; a signal, while it is; or the end of the set-up, and a signal behind that.
pub data Ending : Type 0 where
  set_up_fails signalled_before signalled_behind : Ending

-- What the system answers: whether each call succeeds, `time.ParseDuration`, and how the wait ends.
pub record System : Type 0 where
  pub makes_db_dir : Bool
  pub makes_socket_dir : Bool
  pub opens_store : Bool
  pub starts_rpc : Bool
  pub starts_beacon : Bool
  pub parse_duration : Text → Option ℤ
  pub ending : Ending

module _ (sys : System) (cfg : NodeConfig) where
  -- The `select` at the end: only a signal removes the socket. `works` says whether the goroutine
  -- lives on when it is set up.
  abbrev pub wait : Bool → Ending → Log
  wait works set_up_fails = ([], err discovery)
  wait works signalled_before = (remove_socket cfg.rpc_socket ∷ [], ok tt)
  wait true signalled_behind = (remove_socket cfg.rpc_socket ∷ [], ok tt)
  wait false signalled_behind = ([], err crashed)

  abbrev pub node_interval : Option ℤ → Log
  node_interval none = ([], err interval)
  node_interval (some i) =
      after (start_node cfg.network_range cfg.port i cfg.shared_secret)
        (wait (is_positive i) sys.ending)

  abbrev pub node_expiry : Option ℤ → Log
  node_expiry none = ([], err stale_threshold)
  node_expiry (some t) = after (run_expiry 5 t) (
      attempt sys.starts_rpc starting_rpc (start_rpc cfg.rpc_socket)
        (node_interval (parse_interval sys.parse_duration cfg)))

  -- Both commands make the directories and open the store, and close it when they return.
  abbrev pub with_store : Log → Log
  with_store log = attempt sys.makes_db_dir making_db_dir (make_dir (dir cfg.db_path)) (
      attempt sys.makes_socket_dir making_socket_dir (make_dir (dir cfg.rpc_socket))
        (attempt sys.opens_store opening_store (open_store cfg.db_path) (closing log)))

  -- `Run` of cmd/node/node.go; the error of the first sync is only logged.
  unfoldable pub run_node : Log
  unfolding crashes is_positive
  run_node =
      if is_unset cfg.shared_secret
      then ([], err no_secret)
      else if text_eq cfg.network_range []
      then ([], err no_range)
      else with_store
          (after sync_hosts (node_expiry (parse_stale_threshold sys.parse_duration cfg)))

  abbrev pub server_expiry : Option ℤ → Log
  server_expiry none = ([], err stale_threshold)
  server_expiry (some t) = after (run_expiry (5 * 60) t) (
      attempt sys.starts_rpc starting_rpc (start_rpc cfg.rpc_socket)
        (after (start_listener cfg.port cfg.shared_secret) (wait true sys.ending)))

  -- `Run` of cmd/server/server.go
  unfoldable pub run_server : Log
  unfolding crashes
  run_server =
      if is_unset cfg.shared_secret
      then ([], err no_secret)
      else with_store (server_expiry (parse_stale_threshold sys.parse_duration cfg))

  abbrev pub agent_interval : Option ℤ → Log
  agent_interval none = ([], err interval)
  agent_interval (some i) =
      if is_unset cfg.shared_secret
      then ([], err no_secret)
      else attempt sys.starts_beacon starting_beacon (start_beacon cfg.port i cfg.shared_secret)
          (if is_positive i then ([], ok tt) else ([], err crashed))

  -- `Run` of cmd/agent/agent.go: once the beacon is started it is sent until the process ends, or
  -- panics at the ticker.
  unfoldable pub run_agent : Log
  unfolding is_positive
  run_agent = agent_interval (parse_interval sys.parse_duration cfg)
