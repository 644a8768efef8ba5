-- ===== src/Sysinfo/Net.antt =====
-- What the program uses of `net`: `IP.To4`, `IP.String`, `HardwareAddr.String`, `IPNet.Contains`.
use Prim.Native.Nat.{bit_and}
use lanmon.Prelude.{
  ℕ, ◌+◌, ◌-◌, ◌/◌, ◌%◌, Bool, true, false, ◌&&◌, [], ◌∷◌, ◌++◌, ◌==◌, ltb, if◌then◌else◌, Bytes,
  Text, text_eq, Option, none, some, length, take, drop,
}

-- The prefix of an IPv4 address in 16 bytes.
abbrev v4_in_v6 : Bytes
v4_in_v6 = 0 ∷ 0 ∷ 0 ∷ 0 ∷ 0 ∷ 0 ∷ 0 ∷ 0 ∷ 0 ∷ 0 ∷ 255 ∷ 255 ∷ []

-- `IP.To4`
unfoldable pub to4 : Bytes → Option Bytes
to4 ip =
    if length ip == 4
    then some ip
    else if length ip == 16 && text_eq (take 12 ip) v4_in_v6
    then some (drop 12 ip)
    else none

abbrev digit : ℕ → ℕ
digit n = n + b'0'

-- A byte in decimal.
abbrev pub decimal : ℕ → Text
decimal n =
    if ltb n 10
    then digit n ∷ []
    else if ltb n 100
    then digit (n / 10) ∷ digit (n % 10) ∷ []
    else digit (n / 100) ∷ digit (n / 10 % 10) ∷ digit (n % 10) ∷ []

-- `IP.String` of four bytes.
unfoldable pub ip_string : Bytes → Text
ip_string [] = []
ip_string (a ∷ []) = decimal a
ip_string (a ∷ b ∷ ip) = decimal a ++ (b'.' ∷ ip_string (b ∷ ip))

abbrev hex : ℕ → ℕ
hex n = if ltb n 10 then n + b'0' else n - 10 + b'a'

-- `HardwareAddr.String`
unfoldable pub mac_string : Bytes → Text
mac_string [] = []
mac_string (a ∷ []) = hex (a / 16) ∷ hex (a % 16) ∷ []
mac_string (a ∷ b ∷ mac) = hex (a / 16) ∷ hex (a % 16) ∷ b':' ∷ mac_string (b ∷ mac)

pub record IpNet : Type 0 where
  pub ip : Bytes
  pub mask : Bytes

abbrev pub or_long : Bytes → Option Bytes → Bytes
or_long ip none = if length ip == 16 then ip else []
or_long ip (some v4) = v4

-- The network number of `networkNumberAndMask`, and the mask for that many bytes.
unfoldable pub network_number : IpNet → Bytes
network_number n = or_long n.ip (to4 n.ip)

unfoldable pub network_mask : IpNet → Bytes
unfolding network_number
network_mask n =
    if length n.mask == 16 && length (network_number n) == 4 then drop 12 n.mask else n.mask

unfoldable pub same_network : Bytes → Bytes → Bytes → Bool
same_network [] m [] = true
same_network (a ∷ nn) (m ∷ mask) (x ∷ ip) = bit_and a m == bit_and x m && same_network nn mask ip
same_network _ _ _ = false

abbrev pub or_self : Bytes → Option Bytes → Bytes
or_self ip none = ip
or_self ip (some v4) = v4

-- `IPNet.Contains`
unfoldable pub contains : IpNet → Bytes → Bool
unfolding network_mask same_network
contains n ip =
    length (network_mask n) == length (network_number n)
    && same_network (network_number n) (network_mask n) (or_self ip (to4 ip))
