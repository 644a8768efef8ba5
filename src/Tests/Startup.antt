-- ===== src/Tests/Startup.antt =====
-- A node that starts and is stopped by a signal, and the first edit of a configuration.
use lanmon.Prelude.{true, false, [], some}
use lanmon.Go.Int.{pos}
use lanmon.Startup.Run.{System, signalled_behind, run_node}
use lanmon.Startup.Order.{Runs, node, idle, run_node-Runs}
use lanmon.Startup.Edit.{EditSystem}
use lanmon.Tests.Config.{raw}

abbrev system : System
system = record {
  makes_db_dir = true;
  makes_socket_dir = true;
  opens_store = true;
  starts_rpc = false;
  starts_beacon = true;
  parse_duration = λ s. some (pos 120000000000);
  ending = signalled_behind;
}

run_node-Runs_example :
    Runs raw.node node idle (run_node system raw.node).0 (run_node system raw.node).1
run_node-Runs_example = run_node-Runs raw.node system

abbrev editing : EditSystem
editing = record {
  has_dir = true;
  makes_dir = true;
  writes = true;
  editor_variable = [];
  finds = λ e. true;
  exits_fine = true;
}
