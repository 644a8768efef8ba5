-- ===== src/Tests/Config.antt =====
-- A configuration file of an example node, and paths in a home directory.
use lanmon.Prelude.{◌≡◌, refl, [], ◌∷◌, Bytes, text_eq, codes, Option, none, some}
use lanmon.Go.Int.{pos}
use lanmon.Go.Strings.{has_prefix}
use lanmon.Go.Path.{join, clean}
use lanmon.Config.Settings.{Config}
use lanmon.Config.Load.{Account, expand_path}

abbrev pub raw : Config
raw = record {
  node = record {
    network_range = codes "10.51.240.0/23";
    port = pos 0;
    interval = [];
    shared_secret = codes "s3cret";
    db_path = codes "~/hosts.db";
    rpc_socket = [];
    stale_threshold = codes "2m";
    log_level = [];
  };
  connect = record { rpc_socket = []; server_pub_key = []; known_hosts = [] };
}

abbrev pub root : Account
root = record { home_dir = some (codes "/root"); home_variable = codes "/root" }

abbrev pub parse : Bytes → Option Config
parse [] = none
parse (c ∷ s) = some raw

expanded : expand_path root.home_dir (codes "~/../etc//lanmon/./key") ≡ codes "/etc/lanmon/key"
unfolding expand_path has_prefix join clean text_eq
expanded = refl
