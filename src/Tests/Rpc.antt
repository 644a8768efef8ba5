-- ===== src/Tests/Rpc.antt =====
-- A server that finds the socket of an earlier run, and the table of one host.
use lanmon.Prelude.{Text, codes, ℕ, ◌*◌, ◌+◌, true, Text, codes}
use lanmon.Store.Ops.{first_record}
use lanmon.Store.Record.{HostRecord}
use lanmon.Rpc.Server.{SocketSystem}
use lanmon.Tests.Store.{t0, host1}

abbrev system : SocketSystem
system = record {
  registers = true;
  removes = true;
  binds = true;
  sets_mode = true;
  default_mode = 7 * 64 + 5 * 8 + 5;
}

abbrev clock : ℕ → Text
clock t = codes "12:34:56"

abbrev record1 : HostRecord
record1 = first_record host1 t0
