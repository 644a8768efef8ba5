-- ===== src/Cli/Main.antt =====
-- A whole run of the program: main.go with the loading of the configuration at the start of each
-- `Run`, and what the commands that stay do to the system.
use lanmon.Prelude.{ℕ, Bool, List, [], Bytes, Text, Option, Result, ok, err, ◌>>=◌, if◌then◌else◌}
use lanmon.Config.Settings.{Config}
use lanmon.Config.Load.{Account, LoadError, load}
use lanmon.Store.Bolt.{Bolt}
use lanmon.Push.HostKeys.{Knownhosts, KnownFile}
use lanmon.Connect.Run.{Terminal, Surroundings, Outcome, connect_run}
use lanmon.Startup.Steps.{Step, StartError, Log, is_crash}
use lanmon.Startup.Run.{System, run_node, run_server, run_agent}
use lanmon.Cli.Dispatch.{
  Command, Action, run, node, agent, server, connect, edit, main_action, exit_code,
}

-- What the program learns from the machine: whether `config.toml` can be seen, the user, the files,
-- go-toml, and what the system answers to a command that stays.
pub record Machine : Type 0 where
  pub here : Bool
  pub account : Account
  pub unmarshal : Bytes → Option Config
  pub read_file : Text → Option Bytes
  pub system : System

pub data CommandError : Type 0 where
  loading : LoadError → CommandError
  starting : StartError → CommandError

abbrev pub Ended : Type 0
Ended = List Step × Result CommandError (Unit {0})

abbrev pub started : Log → Ended
started (steps, err e) = (steps, err (starting e))
started (steps, ok _) = (steps, ok tt)

abbrev pub behind_load : (Config → Log) → Result LoadError Config → Ended
behind_load body (err e) = ([], err (loading e))
behind_load body (ok cfg) = started (body cfg)

abbrev pub fine : Result CommandError (Unit {0}) → Bool
fine (err e) = Bool.false
fine (ok _) = Bool.true

abbrev pub panics : Result CommandError (Unit {0}) → Bool
panics (ok _) = Bool.false
panics (err (loading e)) = Bool.false
panics (err (starting e)) = is_crash e

module _ (m : Machine) where
  -- `config.Load(configPath)`
  abbrev pub load_at : Text → Result LoadError Config
  load_at path = load m.account m.unmarshal (m.read_file path)

  unfoldable pub node_command : Text → Ended
  unfolding load run_node
  node_command path = behind_load (λ cfg. run_node m.system cfg.node) (load_at path)

  unfoldable pub server_command : Text → Ended
  unfolding load run_server
  server_command path = behind_load (λ cfg. run_server m.system cfg.node) (load_at path)

  unfoldable pub agent_command : Text → Ended
  unfolding load run_agent
  agent_command path = behind_load (λ cfg. run_agent m.system cfg.node) (load_at path)

  -- `connect`, which does not stay, leaves the node's bucket and the known_hosts file.
  unfoldable pub connect_command :
      (bolt : Bolt) (kh : Knownhosts)
      → Terminal
      → Surroundings
      → Text
      → bolt.Bucket
      → bolt.Bucket
      → KnownFile
      → Result LoadError (bolt.Bucket × KnownFile × Outcome)
  unfolding load connect_run
  connect_command bolt kh t around path listed b f = do
    cfg ← load_at path
    ok (connect_run bolt kh t around cfg.connect listed b f)

  -- The steps of a run and its exit code, which is 2 behind a panic; of `connect` and `edit`, whether
  -- they return no error is an argument.
  abbrev pub exits : Ended → Action → List Step × ℕ
  exits (steps, result) action =
      (steps, if panics result then 2 else exit_code (fine result) action)

  abbrev pub act : (Command → Text → Bool) → Action → List Step × ℕ
  act others (run node path) = exits (node_command path) (run node path)
  act others (run agent path) = exits (agent_command path) (run agent path)
  act others (run server path) = exits (server_command path) (run server path)
  act others (run connect path) = ([], exit_code (others connect path) (run connect path))
  act others (run edit path) = ([], exit_code (others edit path) (run edit path))
  act others other = ([], exit_code Bool.true other)

  unfoldable pub main : (Command → Text → Bool) → List Text → List Step × ℕ
  unfolding exit_code main_action is_crash
  main others args = act others (main_action m.here args)
