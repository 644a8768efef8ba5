-- ===== src/Config/Complete.antt =====
-- What `Load` promises: every setting but two is filled, what the file sets is kept, and no path
-- that it expands is left with a tilde for the user's home.
use lanmon.Prelude.{
  ℕ, zero, suc, ◌⊎◌, ◌≡◌, ◌≢◌, refl, sym, ap, ◌∙◌, [], ◌∷◌, Bytes, Text, codes, text_eq, Option,
  none, some, ok, err, Bool-cases, Option-cases, inl, inr, drop,
}
use lanmon.Go.Int.{ℤ, pos, negsuc}
use lanmon.Go.Strings.{has_prefix}
use lanmon.Go.Path.{join-rooted}
use lanmon.Config.Settings.{
  Config, apply_defaults, node_defaults, connect_defaults, or_default, or_port, default_key,
}
use lanmon.Config.Load.{reading, parsing, expand_path, expand_paths, load, Account}

-- A setting with a default: the file's, or the default where the file has none.
pub data IsSetting (d : Text) : Text → Text → Type 0 where
  kept : (c : ℕ) (s : Text) → IsSetting d (c ∷ s) (c ∷ s)
  filled : IsSetting d [] d

or_default-IsSetting : (s d : Text) → IsSetting d s (or_default s d)
unfolding or_default
or_default-IsSetting [] d = filled
or_default-IsSetting (c ∷ s) d = kept c s

-- A port: the file's, or 5678 where the file has none or 0.
pub data IsPort : ℤ → ℤ → Type 0 where
  kept_pos : (n : ℕ) → IsPort (pos (suc n)) (pos (suc n))
  kept_neg : (n : ℕ) → IsPort (negsuc n) (negsuc n)
  filled_port : IsPort (pos 0) (pos 5678)

or_port-IsPort : (p : ℤ) → IsPort p (or_port p)
unfolding or_port
or_port-IsPort (pos zero) = filled_port
or_port-IsPort (pos (suc n)) = kept_pos n
or_port-IsPort (negsuc n) = kept_neg n

-- The settings that `raw`, what the file says, stands for.
pub record IsCompleted (account : Account) (raw cfg : Config) : Type 0 where
  pub network_range : cfg.node.network_range ≡ raw.node.network_range
  pub shared_secret : cfg.node.shared_secret ≡ raw.node.shared_secret
  pub port : IsPort raw.node.port cfg.node.port
  pub interval : IsSetting (codes "30s") raw.node.interval cfg.node.interval
  pub stale_threshold : IsSetting (codes "90s") raw.node.stale_threshold cfg.node.stale_threshold
  pub log_level : IsSetting (codes "info") raw.node.log_level cfg.node.log_level
  pub node_socket :
      IsSetting (codes "/run/lanmon/server.sock") raw.node.rpc_socket cfg.node.rpc_socket
  pub connect_socket :
      IsSetting (codes "/run/lanmon/server.sock") raw.connect.rpc_socket cfg.connect.rpc_socket
  pub db_path :
      (s : Text) × IsSetting (codes "/var/lib/lanmon/hosts.db") raw.node.db_path s
      × (cfg.node.db_path ≡ expand_path account.home_dir s)
  pub server_pub_key :
      (s : Text) × IsSetting (default_key account.home_variable) raw.connect.server_pub_key s
      × (cfg.connect.server_pub_key ≡ expand_path account.home_dir s)
  pub known_hosts :
      (s : Text) × IsSetting (codes "/etc/lanmon/known_hosts") raw.connect.known_hosts s
      × (cfg.connect.known_hosts ≡ expand_path account.home_dir s)

completed :
    (account : Account) (raw : Config)
    → IsCompleted account raw
        (expand_paths account.home_dir (apply_defaults account.home_variable raw))
unfolding expand_paths apply_defaults node_defaults connect_defaults
completed account raw = record {
  network_range = refl;
  shared_secret = refl;
  port = or_port-IsPort raw.node.port;
  interval = or_default-IsSetting raw.node.interval _;
  stale_threshold = or_default-IsSetting raw.node.stale_threshold _;
  log_level = or_default-IsSetting raw.node.log_level _;
  node_socket = or_default-IsSetting raw.node.rpc_socket _;
  connect_socket = or_default-IsSetting raw.connect.rpc_socket _;
  db_path = (_, or_default-IsSetting raw.node.db_path _, refl);
  server_pub_key = (_, or_default-IsSetting raw.connect.server_pub_key _, refl);
  known_hosts = (_, or_default-IsSetting raw.connect.known_hosts _, refl);
}

module _ (account : Account) (unmarshal : Bytes → Option Config) where
  -- `Load` succeeds if the file can be read and is TOML for a configuration, and gives this
  -- configuration with every missing setting filled in, every other one kept, and the three paths
  -- expanded; in the other cases it returns an error.
  pub load_exact :
      (file : Option Bytes)
      → ((bytes : Bytes) × (raw : Config) × (cfg : Config) × (file ≡ some bytes)
          × (unmarshal bytes ≡ some raw)
          × (load account unmarshal file ≡ ok cfg)
          × IsCompleted account raw cfg)
        ⊎ (load account unmarshal file ≡ err reading)
        ⊎ (load account unmarshal file ≡ err parsing)
  unfolding load
  load_exact none = inr (inl refl)
  load_exact (some bytes) = elim (Option-cases (unmarshal bytes)) [
    | inl missing ↦ rw missing (inr (inr refl))
    | inr (raw, found) ↦ inl (bytes, raw, _, refl, found, rw found refl, completed account raw)
  ]

or_default_idem : (s d : Text) → d ≢ [] → or_default (or_default s d) d ≡ or_default s d
unfolding or_default
or_default_idem (c ∷ s) d h = refl
or_default_idem [] [] h = refl
or_default_idem [] (c ∷ d) h = refl

or_port_idem : (p : ℤ) → or_port (or_port p) ≡ or_port p
unfolding or_port
or_port_idem (pos zero) = refl
or_port_idem (pos (suc n)) = refl
or_port_idem (negsuc n) = refl

default_key-nonempty : (home : Text) → default_key home ≢ []
default_key-nonempty [] = λ h. cc
default_key-nonempty (c ∷ home) = λ h. cc

-- Filling in the defaults a second time changes nothing.
pub apply_defaults_idem :
    (home : Text) (cfg : Config)
    → apply_defaults home (apply_defaults home cfg) ≡ apply_defaults home cfg
unfolding apply_defaults node_defaults connect_defaults
apply_defaults_idem home cfg =
    rw
      (
        or_port_idem cfg.node.port,
        or_default_idem cfg.node.interval (codes "30s") (λ h. cc),
        or_default_idem cfg.node.db_path (codes "/var/lib/lanmon/hosts.db") (λ h. cc),
        or_default_idem cfg.node.rpc_socket (codes "/run/lanmon/server.sock") (λ h. cc),
        or_default_idem cfg.node.stale_threshold (codes "90s") (λ h. cc),
        or_default_idem cfg.node.log_level (codes "info") (λ h. cc),
        or_default_idem cfg.connect.rpc_socket (codes "/run/lanmon/server.sock") (λ h. cc),
        or_default_idem cfg.connect.server_pub_key (default_key home) (default_key-nonempty home),
        or_default_idem cfg.connect.known_hosts (codes "/etc/lanmon/known_hosts") (λ h. cc),
      )
      refl

-- A user's home that is an absolute path, or no known user.
pub data IsHome : Option Text → Type 0 where
  unknown : IsHome none
  absolute : (s : Text) → IsHome (some (b'/' ∷ s))

expand_path-rooted : (home : Option Text) (s : Text) → expand_path home (b'/' ∷ s) ≡ b'/' ∷ s
unfolding expand_path has_prefix
expand_path-rooted home s = refl

-- The path itself, or an absolute one.
expand_path-cases :
    {home : Option Text} (path : Text)
    → IsHome home
    → (expand_path home path ≡ path) ⊎ ((s : Text) × (expand_path home path ≡ b'/' ∷ s))
unfolding expand_path
expand_path-cases path unknown = elim (Bool-cases (has_prefix path (codes "~"))) [
  | inl y ↦ inl (rw y refl)
  | inr n ↦ inl (rw n refl)
]
expand_path-cases path (absolute s) = elim (Bool-cases (has_prefix path (codes "~"))) [
  | inr n ↦ inl (rw n refl)
  | inl y ↦ elim (Bool-cases (text_eq path (codes "~"))) [
    | inl same ↦ inr (s, rw (y, same) refl)
    | inr other ↦ elim (Bool-cases (has_prefix path (codes "~/"))) [
      | inl below ↦ let (c, e) = join-rooted s (drop 2 path) in inr (c, rw (y, other, below) e)
      | inr plain ↦ inl (rw (y, other, plain) refl)
    ]
  ]
]

-- A path that is expanded stays as it is when it is expanded again, if the home is absolute or the
-- user is not known.
pub expand_path_idem :
    {home : Option Text} (path : Text)
    → IsHome home
    → expand_path home (expand_path home path) ≡ expand_path home path
expand_path_idem path h = elim (expand_path-cases path h) [
  | inl same ↦ ap (expand_path _) same
  | inr (s, e) ↦ ap (expand_path _) e ∙ expand_path-rooted _ s ∙ sym e
]
