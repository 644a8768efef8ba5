-- ===== src/Startup/Order.antt =====
-- The order that the traces of `lanmon node` and `lanmon server` keep.
use lanmon.Go.Path.{dir}
use lanmon.Prelude.{
  Result, ok, ◌*◌, ◌≡◌, ◌≢◌, refl, Bool, true, false, List, [], ◌∷◌, ◌++◌, if◌then◌else◌, text_eq,
  text_eq_iff, Option, none, some, err,
}
use lanmon.Go.Int.{ℤ}
use lanmon.Config.Settings.{NodeConfig}
use lanmon.Startup.Steps.{
  Step, make_dir, open_store, sync_hosts, run_expiry, start_rpc, start_node, start_listener,
  remove_socket, close_store, StartError, Log, attempt, is_unset, discovery, interval,
  stale_threshold, starting_rpc, crashed, crashes, is_crash, closed, is_positive,
}
use lanmon.Startup.Run.{
  System, Ending, set_up_fails, signalled_before, signalled_behind, wait, node_interval,
  node_expiry, with_store, run_node, server_expiry, run_server,
}

-- How far a command has come.
pub data Phase : Type 0 where
  idle db_dir both_dirs opened synced expiring serving discovering stopped : Phase

-- The two commands that keep a store.
pub data Role : Type 0 where
  node server : Role

abbrev pub Outcome : Type 0
Outcome = Result StartError (Unit {0})

module _ (cfg : NodeConfig) where
  -- The steps that are in order. A node syncs before it expires; discovery begins last, and with a
  -- secret that is set.
  pub data Next : Role → Phase → Step → Phase → Type 0 where
    first_dir : {who : Role} → Next who idle (make_dir (dir cfg.db_path)) db_dir
    second_dir : {who : Role} → Next who db_dir (make_dir (dir cfg.rpc_socket)) both_dirs
    open_db : {who : Role} → Next who both_dirs (open_store cfg.db_path) opened
    first_sync : Next node opened sync_hosts synced
    expire : (t : ℤ) → Next node synced (run_expiry 5 t) expiring
    expire_at_once : (t : ℤ) → Next server opened (run_expiry (5 * 60) t) expiring
    serve : {who : Role} → Next who expiring (start_rpc cfg.rpc_socket) serving
    discover :
        (i : ℤ)
        → is_unset cfg.shared_secret ≡ false
        → cfg.network_range ≢ []
        → Next node serving (start_node cfg.network_range cfg.port i cfg.shared_secret) discovering
    listen :
        is_unset cfg.shared_secret ≡ false
        → Next server serving (start_listener cfg.port cfg.shared_secret) discovering
    stop : {who : Role} → Next who discovering (remove_socket cfg.rpc_socket) stopped

  -- The store is open, and the command may end here with this result. Only behind a signal it ends
  -- without an error.
  pub data CanEnd : Phase → Outcome → Type 0 where
    opening_ends : (e : StartError) → is_crash e ≡ false → CanEnd opened (err e)
    synced_ends : (e : StartError) → is_crash e ≡ false → CanEnd synced (err e)
    expiring_ends : (e : StartError) → is_crash e ≡ false → CanEnd expiring (err e)
    serving_ends : (e : StartError) → is_crash e ≡ false → CanEnd serving (err e)
    discovering_ends : (e : StartError) → is_crash e ≡ false → CanEnd discovering (err e)
    stopped_ends : CanEnd stopped (ok tt)

  pub data IsShut : Phase → Type 0 where
    idle_is : IsShut idle
    db_dir_is : IsShut db_dir
    both_dirs_is : IsShut both_dirs

  -- A trace in order with its result: it ends with an error before the store is opened, or with the
  -- closing of the store, or in the crash of a node whose interval is not positive.
  pub data Runs (who : Role) : Phase → List Step → Outcome → Type 0 where
    shut : {p : Phase} (e : StartError) → IsShut p → Runs who p [] (err e)
    close : {p : Phase} {r : Outcome} → CanEnd p r → Runs who p (close_store ∷ []) r
    crash :
        {p : Phase} (i : ℤ)
        → Next who p (start_node cfg.network_range cfg.port i cfg.shared_secret) discovering
        → is_positive i ≡ false
        → Runs who p (start_node cfg.network_range cfg.port i cfg.shared_secret ∷ []) (err crashed)
    go :
        {p q : Phase} {s : Step} {t : List Step} {r : Outcome}
        → Next who p s q
        → Runs who q t r
        → Runs who p (s ∷ t) r

  -- A trace in order with the store open at its end.
  data Body (who : Role) : Phase → List Step → Outcome → Type 0 where
    halt : {p : Phase} {r : Outcome} → CanEnd p r → Body who p [] r
    dies :
        {p : Phase} (i : ℤ)
        → Next who p (start_node cfg.network_range cfg.port i cfg.shared_secret) discovering
        → is_positive i ≡ false
        → Body who p (start_node cfg.network_range cfg.port i cfg.shared_secret ∷ []) (err crashed)
    on :
        {p q : Phase} {s : Step} {t : List Step} {r : Outcome}
        → Next who p s q
        → Body who q t r
        → Body who p (s ∷ t) r

  closed-cons : (r : Outcome) (s : Step) (t : List Step) → closed r (s ∷ t) ≡ s ∷ closed r t
  closed-cons r s t =
      elim (crashes r)
        as (λ c.
          (if c then s ∷ t else s ∷ (t ++ close_store ∷ []))
          ≡ s ∷ (if c then t else t ++ close_store ∷ [])) [ true ↦ refl | false ↦ refl ]

  CanEnd-crashes : {p : Phase} {r : Outcome} → CanEnd p r → crashes r ≡ false
  unfolding crashes
  CanEnd-crashes (opening_ends e h) = h
  CanEnd-crashes (synced_ends e h) = h
  CanEnd-crashes (expiring_ends e h) = h
  CanEnd-crashes (serving_ends e h) = h
  CanEnd-crashes (discovering_ends e h) = h
  CanEnd-crashes stopped_ends = refl

  Body-closing :
      {who : Role} {p : Phase} {t : List Step} {r : Outcome}
      → Body who p t r
      → Runs who p (closed r t) r
  unfolding crashes is_crash
  Body-closing (halt o) = rw (CanEnd-crashes o) (close o)
  Body-closing (dies i n h) = crash i n h
  Body-closing (on {s = s} {t = t} {r = r} n b) = rw (closed-cons r s t) (go n (Body-closing b))

  attempt-Runs :
      {who : Role} {p q : Phase} (works : Bool) (e : StartError) (s : Step) (log : Log)
      → IsShut p
      → Next who p s q
      → Runs who q log.0 log.1
      → Runs who p (attempt works e s log).0 (attempt works e s log).1
  attempt-Runs true e s log f n r = go n r
  attempt-Runs false e s log f n r = shut e f

  attempt-Body :
      {who : Role} {p q : Phase} (works : Bool) (e : StartError) (s : Step) (log : Log)
      → CanEnd p (err e)
      → Next who p s q
      → Body who q log.0 log.1
      → Body who p (attempt works e s log).0 (attempt works e s log).1
  attempt-Body true e s log f n r = on n r
  attempt-Body false e s log f n r = halt f

  module _ (sys : System) where
    with_store-Runs :
        {who : Role} (log : Log)
        → Body who opened log.0 log.1
        → Runs who idle (with_store sys cfg log).0 (with_store sys cfg log).1
    with_store-Runs log b = attempt-Runs sys.makes_db_dir _ _ _ idle_is first_dir (
        attempt-Runs sys.makes_socket_dir _ _ _ db_dir_is second_dir
          (attempt-Runs sys.opens_store _ _ _ both_dirs_is open_db (Body-closing b)))

    discovery-Body :
        (works : Bool) (ending : Ending) (i : ℤ)
        → is_positive i ≡ works
        → Next node serving (start_node cfg.network_range cfg.port i cfg.shared_secret) discovering
        → Body node serving
            (start_node cfg.network_range cfg.port i cfg.shared_secret
              ∷ (wait sys cfg works ending).0)
            (wait sys cfg works ending).1
    unfolding is_crash
    discovery-Body works set_up_fails i h n = on n (halt (discovering_ends discovery refl))
    discovery-Body works signalled_before i h n = on n (on stop (halt stopped_ends))
    discovery-Body true signalled_behind i h n = on n (on stop (halt stopped_ends))
    discovery-Body false signalled_behind i h n = dies i n h

    listening-Body :
        (ending : Ending)
        → Body server discovering (wait sys cfg true ending).0 (wait sys cfg true ending).1
    unfolding is_crash
    listening-Body set_up_fails = halt (discovering_ends discovery refl)
    listening-Body signalled_before = on stop (halt stopped_ends)
    listening-Body signalled_behind = on stop (halt stopped_ends)

    node_interval-Body :
        is_unset cfg.shared_secret ≡ false
        → cfg.network_range ≢ []
        → (i : Option ℤ) → Body node serving (node_interval sys cfg i).0 (node_interval sys cfg i).1
    unfolding is_crash
    node_interval-Body secret range none = halt (serving_ends interval refl)
    node_interval-Body secret range (some i) =
        discovery-Body (is_positive i) sys.ending i refl (discover i secret range)

    node_expiry-Body :
        is_unset cfg.shared_secret ≡ false
        → cfg.network_range ≢ []
        → (t : Option ℤ) → Body node synced (node_expiry sys cfg t).0 (node_expiry sys cfg t).1
    unfolding is_crash
    node_expiry-Body secret range none = halt (synced_ends stale_threshold refl)
    node_expiry-Body secret range (some t) = on (expire t) (
        attempt-Body sys.starts_rpc _ _ _ (expiring_ends starting_rpc refl) serve
          (node_interval-Body secret range _))

    server_expiry-Body :
        is_unset cfg.shared_secret ≡ false
        → (t : Option ℤ)
        → Body server opened (server_expiry sys cfg t).0 (server_expiry sys cfg t).1
    unfolding is_crash
    server_expiry-Body secret none = halt (opening_ends stale_threshold refl)
    server_expiry-Body secret (some t) = on (expire_at_once t) (
        attempt-Body sys.starts_rpc _ _ _ (expiring_ends starting_rpc refl) serve
          (on (listen secret) (listening-Body sys.ending)))

    gate-Runs :
        {who : Role} (refused : Bool) (e : StartError) (log : Log)
        → (refused ≡ false → Runs who idle log.0 log.1)
        → Runs who idle
            (if refused then ([], err e) else log).0
            (if refused then ([], err e) else log).1
    gate-Runs true e log h = shut e idle_is
    gate-Runs false e log h = h refl

    -- Whatever fails, the node goes through its steps in order: directories, store, first sync,
    -- expiry, RPC service, and only then discovery, with a secret and a network range that are set;
    -- no step is left out, a run that returns no error has gone through all of them, and a store
    -- that was opened is closed at the end, unless the node crashes because its interval is not
    -- positive.
    pub run_node-Runs : Runs node idle (run_node sys cfg).0 (run_node sys cfg).1
    unfolding run_node
    run_node-Runs = gate-Runs (is_unset cfg.shared_secret) _ _ (λ secret.
        gate-Runs (text_eq cfg.network_range []) _ _ (λ range. with_store-Runs _ (
          on first_sync (
            node_expiry-Body secret
              (λ empty. let same = (text_eq_iff cfg.network_range []).1 empty in cc) _))))

    -- The server keeps the same order, without the sync and the check of the network range, and
    -- listens in the place of discovery.
    pub run_server-Runs : Runs server idle (run_server sys cfg).0 (run_server sys cfg).1
    unfolding run_server
    run_server-Runs =
        gate-Runs (is_unset cfg.shared_secret) _ _
          (λ secret. with_store-Runs _ (server_expiry-Body secret _))
