-- ===== src/Startup/Ready.antt =====
-- What a node needs to run until a signal ends it, and that it does then.
use lanmon.Prelude.{
  ◌≡◌, refl, Bool, true, false, List, [], ◌∷◌, Option, none, some, ok, err, text_eq, if◌then◌else◌,
}
use lanmon.Go.Int.{ℤ}
use lanmon.Go.Path.{dir}
use lanmon.Config.Settings.{NodeConfig, parse_interval, parse_stale_threshold}
use lanmon.Startup.Steps.{
  Step, make_dir, open_store, sync_hosts, run_expiry, start_rpc, start_node, remove_socket,
  close_store, StartError, Log, attempt, is_unset, crashes, is_positive,
}
use lanmon.Startup.Run.{
  System, Ending, set_up_fails, signalled_before, signalled_behind, run_node, node_expiry,
  node_interval, wait,
}

-- The wait of a node with this interval ends with a signal: while discovery is being set up, or
-- behind that, when only a positive interval lets it live.
abbrev pub IsStopped : ℤ → Ending → Type 0
IsStopped i set_up_fails = ⊥
IsStopped i signalled_before = Unit
IsStopped i signalled_behind = is_positive i ≡ true

-- What a node needs of the system and its configuration to run until it is stopped by a signal.
pub record IsReady (sys : System) (cfg : NodeConfig) : Type 0 where
  pub secret : is_unset cfg.shared_secret ≡ false
  pub ranged : text_eq cfg.network_range [] ≡ false
  pub db_dir : sys.makes_db_dir ≡ true
  pub socket_dir : sys.makes_socket_dir ≡ true
  pub opens : sys.opens_store ≡ true
  pub threshold : ℤ
  pub stale_threshold : parse_stale_threshold sys.parse_duration cfg ≡ some threshold
  pub serves : sys.starts_rpc ≡ true
  pub interval : ℤ
  pub interval_parsed : parse_interval sys.parse_duration cfg ≡ some interval
  pub stopped : IsStopped interval sys.ending

module _ (sys : System) (cfg : NodeConfig) where
  -- The steps of a node that ran until a signal.
  abbrev pub full_run : ℤ → ℤ → List Step
  full_run threshold interval =
      make_dir (dir cfg.db_path)
      ∷ make_dir (dir cfg.rpc_socket)
      ∷ open_store cfg.db_path
      ∷ sync_hosts
      ∷ run_expiry 5 threshold
      ∷ start_rpc cfg.rpc_socket
      ∷ start_node cfg.network_range cfg.port interval cfg.shared_secret
      ∷ remove_socket cfg.rpc_socket
      ∷ close_store
      ∷ []

  stopped-wait :
      (works : Bool) (ending : Ending) (i : ℤ)
      → is_positive i ≡ works
      → IsStopped i ending
      → wait sys cfg works ending ≡ (remove_socket cfg.rpc_socket ∷ [], ok tt)
  stopped-wait works set_up_fails i h stopped = absurd stopped
  stopped-wait works signalled_before i h stopped = refl
  stopped-wait true signalled_behind i h stopped = refl
  stopped-wait false signalled_behind i h stopped = absurd (cc (h, stopped))

  pub IsReady-run_node :
      (r : IsReady sys cfg) → run_node sys cfg ≡ (full_run r.threshold r.interval, ok tt)
  unfolding run_node crashes
  IsReady-run_node r =
      rw
        (
          r.secret,
          r.ranged,
          r.db_dir,
          r.socket_dir,
          r.opens,
          r.stale_threshold,
          r.serves,
          r.interval_parsed,
          stopped-wait (is_positive r.interval) sys.ending r.interval refl r.stopped,
        )
        refl

  attempt-ok :
      (works : Bool) (e : StartError) (s : Step) (log : Log)
      → (attempt works e s log).1 ≡ ok tt
      → (works ≡ true) × (log.1 ≡ ok tt)
  attempt-ok true e s log h = (refl, h)
  attempt-ok false e s log h = absurd cc

  wait-ok :
      (works : Bool) (ending : Ending) (i : ℤ)
      → is_positive i ≡ works
      → (wait sys cfg works ending).1 ≡ ok tt
      → IsStopped i ending
  wait-ok works set_up_fails i p h = absurd cc
  wait-ok works signalled_before i p h = tt
  wait-ok true signalled_behind i p h = p
  wait-ok false signalled_behind i p h = absurd cc

  interval-ok :
      (i : Option ℤ)
      → (node_interval sys cfg i).1 ≡ ok tt
      → (n : ℤ) × (i ≡ some n) × IsStopped n sys.ending
  interval-ok none h = absurd cc
  interval-ok (some n) h = (n, refl, wait-ok (is_positive n) sys.ending n refl h)

  expiry-ok :
      (t : Option ℤ)
      → (node_expiry sys cfg t).1 ≡ ok tt
      → (n : ℤ) × (t ≡ some n)
        × (sys.starts_rpc ≡ true)
        × ((node_interval sys cfg (parse_interval sys.parse_duration cfg)).1 ≡ ok tt)
  expiry-ok none h = absurd cc
  expiry-ok (some n) h =
      let (serves, rest) = attempt-ok sys.starts_rpc _ _ _ h in (n, refl, serves, rest)

  gate-ok :
      (refused : Bool) (e : StartError) (log : Log)
      → (if refused then ([], err e) else log).1 ≡ ok tt
      → (refused ≡ false) × (log.1 ≡ ok tt)
  gate-ok true e log h = absurd cc
  gate-ok false e log h = (refl, h)

  pub run_node-IsReady : (run_node sys cfg).1 ≡ ok tt → IsReady sys cfg
  unfolding run_node
  run_node-IsReady h =
      let (secret, h1) = gate-ok (is_unset cfg.shared_secret) _ _ h in
      let (ranged, h2) = gate-ok (text_eq cfg.network_range []) _ _ h1 in
      let (db_dir, h3) = attempt-ok sys.makes_db_dir _ _ _ h2 in
      let (socket_dir, h4) = attempt-ok sys.makes_socket_dir _ _ _ h3 in
      let (opens, h5) = attempt-ok sys.opens_store _ _ _ h4 in
      let (t, parsed, serves, h6) = expiry-ok (parse_stale_threshold sys.parse_duration cfg) h5 in
      let (i, read, stopped) = interval-ok (parse_interval sys.parse_duration cfg) h6 in
      record {
        secret = secret;
        ranged = ranged;
        db_dir = db_dir;
        socket_dir = socket_dir;
        opens = opens;
        threshold = t;
        stale_threshold = parsed;
        serves = serves;
        interval = i;
        interval_parsed = read;
        stopped = stopped;
      }
