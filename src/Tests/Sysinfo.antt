-- ===== src/Tests/Sysinfo.antt =====
-- A node with a loopback and one interface, and its network.
use lanmon.Prelude.{
  ◌≡◌, ◌⊎◌, refl, true, false, List, [], ◌∷◌, Bytes, Text, codes, Option, some, ok, err, All, Among,
}
use lanmon.Go.Strings.{has_prefix}
use lanmon.Sysinfo.Net.{IpNet, ip_string, mac_string}
use lanmon.Sysinfo.Interfaces.{Interface, ip_net, other_addr, get_network_info, no_interface}
use lanmon.Sysinfo.Usable.{IsUsable, get_network_info_exact}
use lanmon.Sysinfo.Os.{pretty_key, trim_right_quotes}

abbrev net : IpNet
net = record { ip = 10 ∷ 51 ∷ 240 ∷ 0 ∷ []; mask = 255 ∷ 255 ∷ 254 ∷ 0 ∷ [] }

abbrev interfaces : List Interface
interfaces =
    record {
      is_loopback = true;
      is_up = true;
      hardware_addr = [];
      addrs = some (ip_net (127 ∷ 0 ∷ 0 ∷ 1 ∷ []) ∷ []);
    }
    ∷ record {
      is_loopback = false;
      is_up = true;
      hardware_addr = 0xAA ∷ 0xBB ∷ 0xCC ∷ 0xDD ∷ 0xEE ∷ 1 ∷ [];
      addrs = some (other_addr ∷ ip_net (10 ∷ 51 ∷ 240 ∷ 55 ∷ []) ∷ []);
    }
    ∷ []

abbrev parse_cidr : Text → Option IpNet
parse_cidr range = some net

get_network_info_exact_example :
    ((i : Interface) × (ip : Bytes) × Among i interfaces
      × IsUsable (some net) ip i
      × (get_network_info parse_cidr (some interfaces) (codes "10.51.240.0/23")
          ≡ ok (mac_string i.hardware_addr, ip_string ip)))
    ⊎ (((i : Interface) (ip : Bytes) → Among i interfaces → ¬ IsUsable (some net) ip i)
        × (get_network_info parse_cidr (some interfaces) (codes "10.51.240.0/23")
            ≡ err no_interface))
get_network_info_exact_example =
    get_network_info_exact parse_cidr interfaces (codes "10.51.240.0/23") (some net) refl

abbrev release : List Text
release = codes "NAME=\"Ubuntu\"" ∷ []

no_key : All (λ line. has_prefix line pretty_key ≡ false) release
unfolding has_prefix
no_key = (refl, tt)

unquoted_end : trim_right_quotes (codes "Ubuntu 22.04") ≡ codes "Ubuntu 22.04"
unfolding trim_right_quotes
unquoted_end = refl
