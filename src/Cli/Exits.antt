-- ===== src/Cli/Exits.antt =====
-- When `lanmon node` exits with 0, from the arguments to the last step.
use lanmon.Prelude.{
  ℕ, ◌≡◌, ◌↔◌, refl, sym, ap, ◌∙◌, Bool, false, List, [], Bytes, Text, some, Result, ok, err,
  if◌then◌else◌, inl, inr, arith,
}
use lanmon.Config.Settings.{Config}
use lanmon.Config.Load.{LoadError}
use lanmon.Config.Complete.{IsCompleted, load_exact}
use lanmon.Startup.Steps.{Step, Log}
use lanmon.Startup.Run.{run_node}
use lanmon.Cli.Dispatch.{Command, run, node, main_action, exit_code}
use lanmon.Cli.Main.{
  CommandError, loading, starting, panics, Machine, Ended, started, behind_load, load_at,
  node_command, exits, main,
}
use lanmon.Startup.Ready.{IsReady, full_run, IsReady-run_node, run_node-IsReady}

-- The file at the path is read and decoded, and with its missing settings filled in it makes a node
-- that is ready.
pub record NodeRuns (m : Machine) (path : Text) : Type 0 where
  pub bytes : Bytes
  pub raw : Config
  pub cfg : Config
  pub found : m.read_file path ≡ some bytes
  pub decoded : m.unmarshal bytes ≡ some raw
  pub completed : IsCompleted m.account raw cfg
  pub loaded : load_at m path ≡ ok cfg
  pub ready : IsReady m.system cfg.node

module _ (m : Machine) where
  loaded-NodeRuns :
      (path : Text) (cfg : Config)
      → load_at m path ≡ ok cfg
      → IsReady m.system cfg.node
      → NodeRuns m path
  loaded-NodeRuns path cfg h ready = elim (load_exact m.account m.unmarshal (m.read_file path)) [
    | inl (bytes, raw, c, found, decoded, loaded, completed) ↦
        let same : c ≡ cfg = cc (loaded, h) in
        record {
          bytes = bytes;
          raw = raw;
          cfg = c;
          found = found;
          decoded = decoded;
          completed = completed;
          loaded = loaded;
          ready = rw same ready;
        }
    | inr (inl unread) ↦ absurd (cc (unread, h))
    | inr (inr bad) ↦ absurd (cc (bad, h))
  ]

  started-ok : (log : Log) → (started log).1 ≡ ok tt → log.1 ≡ ok tt
  started-ok (steps, err e) h = absurd cc
  started-ok (steps, ok _) h = refl

  behind_load-NodeRuns :
      (path : Text) (r : Result LoadError Config)
      → load_at m path ≡ r
      → (behind_load (λ cfg. run_node m.system cfg.node) r).1 ≡ ok tt
      → NodeRuns m path
  behind_load-NodeRuns path (err e) l h = absurd cc
  behind_load-NodeRuns path (ok cfg) l h =
      loaded-NodeRuns path cfg l
        (run_node-IsReady m.system cfg.node (started-ok (run_node m.system cfg.node) h))

  abbrev pub steps_of : (path : Text) → NodeRuns m path → List Step
  steps_of path r = full_run m.system r.cfg.node r.ready.threshold r.ready.interval

  NodeRuns-node_command :
      (path : Text) (r : NodeRuns m path) → node_command m path ≡ (steps_of path r, ok tt)
  unfolding node_command
  NodeRuns-node_command path r = rw (r.loaded, IsReady-run_node m.system r.cfg.node r.ready) refl

  no_zero :
      (e : CommandError)
      → ¬ ◌≡◌ {A = ℕ} (if panics (err e) then 2 else exit_code false (run node [])) 0
  unfolding exit_code
  no_zero (loading e) h = absurd (omega (arith, h))
  no_zero (starting e) h = ground (arith, h)

  exits-zero :
      (path : Text) (e : Ended) (t : List Step)
      → exits m e (run node path) ≡ (t, 0)
      → (e.0 ≡ t) × (e.1 ≡ ok tt)
  unfolding exit_code
  exits-zero path (steps, err e) t h = absurd (no_zero e (ap (λ (p : List Step × ℕ). p.1) h))
  exits-zero path (steps, ok tt) t h = (ap (λ p. p.0) h, refl)

  -- On arguments that ask for a node with this path: the program exits with 0 behind the steps `t`
  -- exactly if the configuration file can be read and decoded, the completed configuration has a
  -- secret and a range and durations that parse, every part starts, and a signal comes, either while
  -- discovery is being set up or behind that, if the interval is positive; and the steps are then
  -- those of a whole run, in order.
  pub node_exits_iff :
      (others : Command → Text → Bool) (args : List Text) (path : Text) (t : List Step)
      → main_action m.here args ≡ run node path
      → (main m others args ≡ (t, 0)) ↔ ((r : NodeRuns m path) × (t ≡ steps_of path r))
  unfolding main exit_code
  node_exits_iff others args path t asks = (
    λ h.
        let (steps, good) = exits-zero path (node_command m path) t (rw asks at h) in
        let r = node_runs good in (r, sym steps ∙ ap (λ e. e.0) (NodeRuns-node_command path r)),
    λ (r, same). rw (asks, NodeRuns-node_command path r, same) refl,
  )
    where
      node_runs : (node_command m path).1 ≡ ok tt → NodeRuns m path
      node_runs good = behind_load-NodeRuns path (load_at m path) refl (unfold node_command in good)
