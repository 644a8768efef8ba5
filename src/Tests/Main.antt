-- ===== src/Tests/Main.antt =====
-- `lanmon node` from its arguments to its exit.
use lanmon.Prelude.{◌≡◌, ◌↔◌, refl, true, false, List, Text, codes, text_eq, some, Bool}
use lanmon.Go.Int.{pos}
use lanmon.Startup.Steps.{Step, is_unset}
use lanmon.Startup.Run.{signalled_behind, System}
use lanmon.Cli.Args.{scan, is_flag, is_assignment}
use lanmon.Cli.Dispatch.{Command, choose}
use lanmon.Cli.Main.{Machine, main, node_command}
use lanmon.Config.Settings.{apply_defaults, parse_stale_threshold, parse_interval}
use lanmon.Cli.Exits.{NodeRuns, steps_of, node_exits_iff}
use lanmon.Tests.Cli.{line, line_asks}
use lanmon.Tests.Config.{root, parse}

abbrev system : System
system = record {
  makes_db_dir = true;
  makes_socket_dir = true;
  opens_store = true;
  starts_rpc = true;
  starts_beacon = true;
  parse_duration = λ s. some (pos 120000000000);
  ending = signalled_behind;
}

abbrev machine : Machine
machine = record {
  here = true;
  account = root;
  unmarshal = parse;
  read_file = λ path. some (codes "[node]");
  system = system;
}

abbrev others : Command → Text → Bool
others c path = false

abbrev steps : List Step
steps = (main machine others line).0

node_exits_iff_example :
    (main machine others line ≡ (steps, 0))
    ↔ ((r : NodeRuns machine (codes "b.toml")) × (steps ≡ steps_of machine (codes "b.toml") r))
node_exits_iff_example = node_exits_iff machine others line (codes "b.toml") steps line_asks

exits_fine : main machine others line ≡ (steps, 0)
unfolding main scan is_flag is_assignment text_eq choose node_command is_unset apply_defaults
    parse_stale_threshold parse_interval
exits_fine = refl
