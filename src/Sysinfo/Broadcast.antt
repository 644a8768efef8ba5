-- ===== src/Sysinfo/Broadcast.antt =====
-- `getBroadcastIP` of internal/discovery/discovery.go.
use Prim.Native.Nat.{bit_and, bit_or, bit_xor}
use lanmon.Prelude.{
  ℕ, zero, suc, ◌<◌, ◌≡◌, refl, ap, Bool, true, ◌&&◌, [], ◌∷◌, ◌==◌, ==_iff, Bytes, Option, none,
  some, length, All, arith,
}
use lanmon.Sysinfo.Net.{to4, contains, network_number, network_mask, same_network, IpNet}

-- `getBroadcastIP`, on the bytes of the address and the mask: `ip[i] | ^mask[i]`.
unfoldable pub broadcast_bytes : Bytes → Bytes → Bytes
broadcast_bytes (a ∷ ip) (m ∷ mask) = bit_or a (bit_xor m 255) ∷ broadcast_bytes ip mask
broadcast_bytes _ _ = []

abbrev pub broadcast_of : Bytes → Option Bytes → Option Bytes
broadcast_of mask none = none
broadcast_of mask (some ip) = some (broadcast_bytes ip mask)

-- `nil` for a network that is not IPv4.
unfoldable pub get_broadcast_ip : IpNet → Option Bytes
unfolding broadcast_bytes
get_broadcast_ip n = broadcast_of n.mask (to4 n.ip)

all_below : ℕ → (ℕ → Bool) → Bool
all_below zero p = true
all_below (suc n) p = p n && all_below n p

byte_table :
    all_below 256 (λ a. all_below 256 (λ m. bit_and a m == bit_and (bit_or a (bit_xor m 255)) m))
    ≡ true
unfolding all_below
byte_table = refl

ones_table :
    all_below 256 (λ a. all_below 256 (λ m. bit_or (bit_or a (bit_xor m 255)) m == 255)) ≡ true
unfolding all_below
ones_table = refl

all_below-lt : (n : ℕ) (p : ℕ → Bool) (x : ℕ) → all_below n p ≡ true → x < n → p x ≡ true
unfolding all_below
all_below-lt zero p x h l = absurd (omega arith)
all_below-lt (suc n) p x h l = ground (arith, all_below-lt n p x)

abbrev pub IsByte : ℕ → Type 0
IsByte a = a < 256

all_bytes-lt :
    (p : ℕ → ℕ → Bool) (a m : ℕ)
    → all_below 256 (λ a. all_below 256 (p a)) ≡ true
    → IsByte a
    → IsByte m
    → p a m ≡ true
all_bytes-lt p a m table ha hm =
    all_below-lt 256 (p a) m (all_below-lt 256 (λ a. all_below 256 (p a)) a table ha) hm

same_network-broadcast :
    (ip mask : Bytes)
    → length ip ≡ length mask
    → All IsByte ip
    → All IsByte mask
    → same_network ip mask (broadcast_bytes ip mask) ≡ true
unfolding same_network broadcast_bytes
same_network-broadcast [] [] same hi hm = refl
same_network-broadcast [] (m ∷ mask) same hi hm = absurd (omega arith)
same_network-broadcast (a ∷ ip) [] same hi hm = absurd (omega arith)
same_network-broadcast (a ∷ ip) (m ∷ mask) same hi hm =
    rw
      (
        all_bytes-lt (λ a m. bit_and a m == bit_and (bit_or a (bit_xor m 255)) m) a m byte_table
            hi.0 hm.0,
        same_network-broadcast ip mask (omega arith) hi.1 hm.1,
      )
      refl

-- Every bit outside the mask is set.
abbrev pub HasAllHostBits : Bytes → Bytes → Type 0
HasAllHostBits [] mask = Unit
HasAllHostBits (x ∷ ip) [] = ⊥
HasAllHostBits (x ∷ ip) (m ∷ mask) = (bit_or x m ≡ 255) × HasAllHostBits ip mask

broadcast-HasAllHostBits :
    (ip mask : Bytes)
    → length ip ≡ length mask
    → All IsByte ip
    → All IsByte mask
    → HasAllHostBits (broadcast_bytes ip mask) mask
unfolding broadcast_bytes
broadcast-HasAllHostBits [] mask same hi hm = tt
broadcast-HasAllHostBits (a ∷ ip) [] same hi hm = absurd (omega arith)
broadcast-HasAllHostBits (a ∷ ip) (m ∷ mask) same hi hm = (
  (==_iff (bit_or (bit_or a (bit_xor m 255)) m) 255).0
      (all_bytes-lt (λ a m. bit_or (bit_or a (bit_xor m 255)) m == 255) a m ones_table hi.0 hm.0),
  broadcast-HasAllHostBits ip mask (omega arith) hi.1 hm.1,
)

length-broadcast_bytes :
    (ip mask : Bytes) → length ip ≡ length mask → length (broadcast_bytes ip mask) ≡ length ip
unfolding broadcast_bytes
length-broadcast_bytes [] mask same = refl
length-broadcast_bytes (a ∷ ip) [] same = absurd (omega arith)
length-broadcast_bytes (a ∷ ip) (m ∷ mask) same =
    omega (arith, length-broadcast_bytes ip mask (omega arith))

to4-short : (ip : Bytes) → length ip ≡ 4 → to4 ip ≡ some ip
unfolding to4
to4-short ip h = rw h refl

-- An IPv4 network: four bytes of address and four of mask.
pub record IsIpv4Net (n : IpNet) : Type 0 where
  pub ip_length : length n.ip ≡ 4
  pub mask_length : length n.mask ≡ 4
  pub ip_bytes : All IsByte n.ip
  pub mask_bytes : All IsByte n.mask

contains-broadcast : (n : IpNet) → IsIpv4Net n → contains n (broadcast_bytes n.ip n.mask) ≡ true
unfolding contains network_mask network_number
contains-broadcast n v =
    let four = v.ip_length in
    let four_mask = v.mask_length in
    let same : length n.ip ≡ length n.mask = omega arith in
    let out : length (broadcast_bytes n.ip n.mask) ≡ 4 =
      omega (arith, length-broadcast_bytes n.ip n.mask same) in
    rw
      (
        to4-short n.ip four,
        to4-short (broadcast_bytes n.ip n.mask) out,
        four_mask,
        four,
        same_network-broadcast n.ip n.mask same v.ip_bytes v.mask_bytes,
        four_mask,
      )
      refl

-- The broadcast address of an IPv4 network is an address of the network, with every bit set that
-- the mask leaves free.
pub broadcast_exact :
    (n : IpNet)
    → IsIpv4Net n
    → (ip : Bytes) × (get_broadcast_ip n ≡ some ip)
      × (contains n ip ≡ true)
      × HasAllHostBits ip n.mask
unfolding get_broadcast_ip
broadcast_exact n v = (
  broadcast_bytes n.ip n.mask,
  ap (broadcast_of n.mask) (to4-short n.ip v.ip_length),
  contains-broadcast n v,
  broadcast-HasAllHostBits n.ip n.mask same v.ip_bytes v.mask_bytes,
)
  where
    same : length n.ip ≡ length n.mask
    same = let a = v.ip_length in let b = v.mask_length in omega arith
