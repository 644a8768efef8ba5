-- ===== src/Sysinfo/Interfaces.antt =====
-- internal/sysinfo/sysinfo.go: `getNetworkInfo`, over what the machine lists as its interfaces.
use lanmon.Prelude.{
  Bool, true, not, ◌||◌, List, [], ◌∷◌, if◌then◌else◌, Bytes, Text, text_eq, Option, none, some,
  Result, ok, err, or_error, ◌>>=◌,
}
use lanmon.Sysinfo.Net.{IpNet, to4, contains, ip_string, mac_string}

pub data Addr : Type 0 where
  ip_net : Bytes → Addr
  other_addr : Addr

-- An interface: its flags, its hardware address, and its addresses, if they can be read.
pub record Interface : Type 0 where
  pub is_loopback : Bool
  pub is_up : Bool
  pub hardware_addr : Bytes
  pub addrs : Option (List Addr)

pub data NetworkError : Type 0 where
  parsing_range listing no_interface : NetworkError

abbrev pub fits : Option IpNet → Bytes → Bool
fits none ip = true
fits (some target) ip = contains target ip

abbrev or_next : Option IpNet → Option Bytes → Option Bytes → Option Bytes
or_next target none rest = rest
or_next target (some ip) rest = if fits target ip then some ip else rest

-- The loop over the addresses of one interface.
unfoldable pub first_address : Option IpNet → List Addr → Option Bytes
first_address target [] = none
first_address target (other_addr ∷ rest) = first_address target rest
first_address target (ip_net a ∷ rest) = or_next target (to4 a) (first_address target rest)

abbrev pub address_of : Option IpNet → Option (List Addr) → Option Bytes
address_of target none = none
address_of target (some addrs) = first_address target addrs

abbrev or_found : Bytes → Option Bytes → Option (Text × Text) → Option (Text × Text)
or_found mac none rest = rest
or_found mac (some ip) rest = some (mac_string mac, ip_string ip)

-- One round: a loopback, an interface that is down and one without a hardware address are passed
-- over.
abbrev pub visit :
    Option IpNet
    → Bool
    → Bool
    → Bytes
    → Option (List Addr)
    → Option (Text × Text)
    → Option (Text × Text)
visit target is_loopback is_up mac addrs rest =
    if is_loopback || not is_up || text_eq mac []
    then rest
    else or_found mac (address_of target addrs) rest

-- The loop over the interfaces.
unfoldable pub first_interface : Option IpNet → List Interface → Option (Text × Text)
unfolding first_address
first_interface target [] = none
first_interface target (i ∷ rest) =
    visit target i.is_loopback i.is_up i.hardware_addr i.addrs (first_interface target rest)

abbrev pub target_of : (Text → Option IpNet) → Text → Result NetworkError (Option IpNet)
target_of parse_cidr [] = ok none
target_of parse_cidr (c ∷ range) = elim (parse_cidr (c ∷ range)) [
  | none ↦ err parsing_range
  | some target ↦ ok (some target)
]

-- `getNetworkInfo`: `net.ParseCIDR` and the interfaces, if they can be listed, are arguments.
unfoldable pub get_network_info :
    (Text → Option IpNet) → Option (List Interface) → Text → Result NetworkError (Text × Text)
unfolding first_interface
get_network_info parse_cidr interfaces range = do
  target ← target_of parse_cidr range
  listed ← or_error listing interfaces
  or_error no_interface (first_interface target listed)
