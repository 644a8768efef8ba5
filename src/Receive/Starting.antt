-- ===== src/Receive/Starting.antt =====
-- What a node that starts has found out of its network.
use lanmon.Prelude.{
  ◌≡◌, inl, inr, sym, ap, ◌∙◌, ℕ, true, List, ◌∷◌, Bytes, Text, Option, none, some, Result, ok, err,
  >>=-eq-ok, guarded-ok, or_error-ok, or_error, Among,
}
use lanmon.Go.Int.{ℤ}
use lanmon.Sysinfo.{SystemInfo}
use lanmon.Sysinfo.Net.{IpNet, contains, ip_string, mac_string}
use lanmon.Sysinfo.Broadcast.{get_broadcast_ip, IsIpv4Net, HasAllHostBits, broadcast_exact}
use lanmon.Sysinfo.Interfaces.{
  Interface, NetworkError, get_network_info, target_of, no_interface, parsing_range,
}
use lanmon.Sysinfo.Usable.{IsUsable, get_network_info_exact}
use lanmon.Sysinfo.Os.{Facts, collect, info_of}
use lanmon.Beacon.Loop.{endpoint}
use lanmon.Receive.Node.{
  NodeNetwork, NodeError, detected, ip_text, resolving_broadcast, parsing_network, listening_port,
  set_up,
}

detected-ok : {A : Type 0} (r : Result NetworkError A) (a : A) → detected r ≡ ok a → r ≡ ok a
detected-ok (err e) a h = absurd cc
detected-ok (ok b) a h = cc

ok_pair :
    (a b c d : Text)
    → ◌≡◌ {A = Result NodeError (Text × Text)} (ok (a, c)) (ok (b, d))
    → (a ≡ b) × (c ≡ d)
ok_pair a b c d same = (cc, cc)

-- What a successful set-up says of the network.
pub record IsSetUp (net : NodeNetwork) (facts : Facts) (range : Text) (port : ℤ)
    (self address : Text) : Type 0 where
  pub info : SystemInfo
  pub collected : collect net.parse_cidr facts range ≡ ok info
  pub own : self ≡ info.mac_address
  pub network : IpNet
  pub parsed : net.parse_cidr range ≡ some network
  pub resolved : net.resolve (endpoint (ip_text (get_broadcast_ip network)) port) ≡ some address
  pub listens : net.listens ≡ true

set_up-IsSetUp :
    (net : NodeNetwork) (facts : Facts) (range : Text) (port : ℤ) (self address : Text)
    → set_up net facts range port ≡ ok (self, address)
    → IsSetUp net facts range port self address
unfolding set_up
set_up-IsSetUp net facts range port self address h =
    let (info, found, more) = >>=-eq-ok (detected (collect net.parse_cidr facts range)) _ h in
    let (network, parsed, rest) =
      >>=-eq-ok (or_error parsing_network (net.parse_cidr range)) _ more in
    let (target, resolved, last) =
      >>=-eq-ok
        (or_error resolving_broadcast
          (net.resolve (endpoint (ip_text (get_broadcast_ip network)) port)))
        _ rest in
    let (listens, same) =
      guarded-ok net.listens (ok (info.mac_address, target)) listening_port (self, address) last in
    let (mine, there) = ok_pair info.mac_address self target address same in
    record {
      info = info;
      collected = detected-ok (collect net.parse_cidr facts range) info found;
      own = sym mine;
      network = network;
      parsed = or_error-ok parsing_network (net.parse_cidr range) network parsed;
      resolved =
          or_error-ok resolving_broadcast
            (net.resolve (endpoint (ip_text (get_broadcast_ip network)) port)) target resolved
          ∙ ap some there;
      listens = listens;
    }

ok_info : (a b : SystemInfo) → ◌≡◌ {A = Result NetworkError SystemInfo} (ok a) (ok b) → a ≡ b
ok_info a b same = cc

-- The address of the machine that a configured range chooses.
collected_mac :
    (parse_cidr : Text → Option IpNet) (facts : Facts) (range : Text) (addresses : Text × Text)
    (info : SystemInfo)
    → get_network_info parse_cidr facts.interfaces range ≡ ok addresses
    → collect parse_cidr facts range ≡ ok info
    → addresses.0 ≡ info.mac_address
unfolding collect
collected_mac parse_cidr facts range addresses info found h =
    let same : info_of facts addresses ≡ info =
      ok_info (info_of facts addresses) info (rw found at h) in
    ap (λ i. i.mac_address) same

collected_none :
    {B : Type 0} (parse_cidr : Text → Option IpNet) (facts : Facts) (range : Text)
    (info : SystemInfo) (e : NetworkError)
    → get_network_info parse_cidr facts.interfaces range ≡ err e
    → collect parse_cidr facts range ≡ ok info
    → B
unfolding collect
collected_none parse_cidr facts range info e failed h = absurd (cc (rw failed at h))

parsed_target :
    (parse_cidr : Text → Option IpNet) (c : ℕ) (rest : Text) (n : IpNet)
    → parse_cidr (c ∷ rest) ≡ some n
    → target_of parse_cidr (c ∷ rest) ≡ ok (some n)
parsed_target parse_cidr c rest n h =
    ap (λ o. elim o [ none ↦ err parsing_range | some target ↦ ok (some target) ]) h

-- A node whose set-up succeeds, with a range that is not empty and parses to IPv4 networks only, and
-- with interfaces that can be listed, broadcasts to the resolved address of that network in which
-- every host bit is set, and goes by the hardware address of a usable interface with an address in it.
pub set_up_exact :
    (net : NodeNetwork) (facts : Facts) (c : ℕ) (rest : Text) (port : ℤ) (self address : Text)
    (interfaces : List Interface)
    → ((n : IpNet) → net.parse_cidr (c ∷ rest) ≡ some n → IsIpv4Net n)
    → facts.interfaces ≡ some interfaces
    → set_up net facts (c ∷ rest) port ≡ ok (self, address)
    → (n : IpNet) × (broadcast : Bytes) × (i : Interface) × (ip : Bytes) × (net.parse_cidr
          (c ∷ rest)
        ≡ some n)
      × (contains n broadcast ≡ true)
      × HasAllHostBits broadcast n.mask
      × (net.resolve (endpoint (ip_string broadcast) port) ≡ some address)
      × Among i interfaces
      × IsUsable (some n) ip i
      × (self ≡ mac_string i.hardware_addr)
set_up_exact net facts c rest port self address interfaces v4 listed h =
    let s = set_up-IsSetUp net facts (c ∷ rest) port self address h in
    let (broadcast, is_broadcast, inside, all_ones) =
      broadcast_exact s.network (v4 s.network s.parsed) in
    let target : target_of net.parse_cidr (c ∷ rest) ≡ ok (some s.network) =
      parsed_target net.parse_cidr c rest s.network s.parsed in
    elim (get_network_info_exact net.parse_cidr interfaces (c ∷ rest) (some s.network) target) [
      | inl (i, ip, among, usable, taken) ↦ (
        s.network,
        broadcast,
        i,
        ip,
        s.parsed,
        inside,
        all_ones,
        ap (λ o. net.resolve (endpoint (ip_text o) port)) (sym is_broadcast) ∙ s.resolved,
        among,
        usable,
        s.own
            ∙ sym (
                collected_mac net.parse_cidr facts (c ∷ rest)
                  (mac_string i.hardware_addr, ip_string ip) s.info (rw listed taken) s.collected),
      )
      | inr (none_there, nothing) ↦
          collected_none net.parse_cidr facts (c ∷ rest) s.info no_interface (rw listed nothing)
            s.collected
    ]
