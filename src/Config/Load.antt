-- ===== src/Config/Load.antt =====
-- pkg/config/config.go: `ExpandPath`, `expandPaths` and `Load`.
use lanmon.Prelude.{
  not, if◌then◌else◌, Bytes, Text, codes, text_eq, Option, none, some, Result, ok, ◌>>=◌, or_error,
  drop,
}
use lanmon.Go.Strings.{has_prefix}
use lanmon.Go.Path.{join}
use lanmon.Config.Settings.{Config, apply_defaults}

-- What the process learns from its user and environment: `user.Current().HomeDir`, if the call
-- succeeds, and the value of `HOME`.
pub record Account : Type 0 where
  pub home_dir : Option Text
  pub home_variable : Text

abbrev pub expand_tilde : Text → Option Text → Text
expand_tilde path none = path
expand_tilde path (some home) =
    if text_eq path (codes "~")
    then home
    else if has_prefix path (codes "~/")
    then join home (drop 2 path)
    else path

-- The first argument is the home directory, if the user is known.
unfoldable pub expand_path : Option Text → Text → Text
expand_path home path = if not (has_prefix path (codes "~")) then path else expand_tilde path home

unfoldable pub expand_paths : Option Text → Config → Config
unfolding expand_path
expand_paths home cfg = record {
  node = record (cfg.node) { db_path = expand_path home cfg.node.db_path };
  connect = record (cfg.connect) {
    server_pub_key = expand_path home cfg.connect.server_pub_key;
    known_hosts = expand_path home cfg.connect.known_hosts;
  };
}

pub data LoadError : Type 0 where
  reading parsing : LoadError

-- `Load`: the content of the file, if it can be read, and what `toml.Unmarshal` makes of it.
unfoldable pub load : Account → (Bytes → Option Config) → Option Bytes → Result LoadError Config
unfolding expand_paths
load account unmarshal file = do
  bytes ← or_error reading file
  cfg ← or_error parsing (unmarshal bytes)
  ok (expand_paths account.home_dir (apply_defaults account.home_variable cfg))
