-- ===== src/Config/Settings.antt =====
-- pkg/config/config.go: `Config` with its sections, `applyDefaults`, and the durations.
use lanmon.Prelude.{ℕ, zero, suc, ◌*◌, ◌^◌, [], ◌∷◌, ◌++◌, Text, codes, Option, some}
use lanmon.Go.Int.{ℤ, pos, negsuc}

pub record NodeConfig : Type 0 where
  pub network_range : Text
  pub port : ℤ
  pub interval : Text
  pub shared_secret : Text
  pub db_path : Text
  pub rpc_socket : Text
  pub stale_threshold : Text
  pub log_level : Text

pub record ConnectConfig : Type 0 where
  pub rpc_socket : Text
  pub server_pub_key : Text
  pub known_hosts : Text

pub record Config : Type 0 where
  pub node : NodeConfig
  pub connect : ConnectConfig

-- A setting that is empty takes its default.
unfoldable pub or_default : Text → Text → Text
or_default [] d = d
or_default (c ∷ s) d = c ∷ s

unfoldable pub or_port : ℤ → ℤ
or_port (pos zero) = pos 5678
or_port (pos (suc n)) = pos (suc n)
or_port (negsuc n) = negsuc n

-- `os.ExpandEnv("$HOME/.ssh/id_rsa.pub")`, with the value of `HOME`.
abbrev pub default_key : Text → Text
default_key home = home ++ codes "/.ssh/id_rsa.pub"

unfoldable pub node_defaults : NodeConfig → NodeConfig
unfolding or_default or_port
node_defaults n = record n {
  port = or_port n.port;
  interval = or_default n.interval (codes "30s");
  db_path = or_default n.db_path (codes "/var/lib/lanmon/hosts.db");
  rpc_socket = or_default n.rpc_socket (codes "/run/lanmon/server.sock");
  stale_threshold = or_default n.stale_threshold (codes "90s");
  log_level = or_default n.log_level (codes "info");
}

unfoldable pub connect_defaults : Text → ConnectConfig → ConnectConfig
unfolding or_default
connect_defaults home c = record c {
  rpc_socket = or_default c.rpc_socket (codes "/run/lanmon/server.sock");
  server_pub_key = or_default c.server_pub_key (default_key home);
  known_hosts = or_default c.known_hosts (codes "/etc/lanmon/known_hosts");
}

unfoldable pub apply_defaults : Text → Config → Config
unfolding node_defaults connect_defaults
apply_defaults home cfg = record {
  node = node_defaults cfg.node;
  connect = connect_defaults home cfg.connect;
}

-- `time.Second`, in nanoseconds.
abbrev pub second : ℕ
second = 10 ^ 9

abbrev or_parse : ℕ → (Text → Option ℤ) → Text → Option ℤ
or_parse d parse [] = some (pos (d * second))
or_parse d parse (c ∷ s) = parse (c ∷ s)

-- `time.ParseDuration` is an argument.
unfoldable pub parse_interval : (Text → Option ℤ) → NodeConfig → Option ℤ
parse_interval parse n = or_parse 30 parse n.interval

unfoldable pub parse_stale_threshold : (Text → Option ℤ) → NodeConfig → Option ℤ
parse_stale_threshold parse n = or_parse 90 parse n.stale_threshold
