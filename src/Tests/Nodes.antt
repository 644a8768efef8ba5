-- ===== src/Tests/Nodes.antt =====
-- Two nodes of one network: what the one broadcasts, the other stores, lists and resolves.
use lanmon.Prelude.{
  ◌+◌, ◌*◌, ◌≡◌, ◌≢◌, refl, true, false, none, some, [], ◌∷◌, Text, codes, text_eq, text_ne, arith,
  ok, Among, first, later, List, Bytes, ◌-◌,
}
use lanmon.Prelude.Assoc.{lookup}
use lanmon.Go.Int.{pos}
use lanmon.Go.Utf8.{to_valid}
use lanmon.Sysinfo.Net.{IpNet, to4, contains, mac_string, ip_string}
use lanmon.Sysinfo.Os.{Facts, collect, info_of}
use lanmon.Sysinfo.Interfaces.{Interface, ip_net, get_network_info}
use lanmon.Beacon.Packet.{payload_of, packet_of, sent}
use lanmon.Beacon.Loop.{endpoint, running}
use lanmon.Store.Record.{clean, is_encodable}
use lanmon.Store.Ops.{next_record}
use lanmon.Store.Sorted.{sorted_bolt, empty_bucket}
use lanmon.Store.Upsert.{IsStorable}
use lanmon.Hosts.Sync.{wrote}
use lanmon.Receive.Listener.{accepted, received}
use lanmon.Receive.Discovery.{handle_packet, check_packet}
use lanmon.Receive.Node.{
  NodeNetwork, NodeAttempt, NodeDelivery, tick, arrival, NodeState, node_run, set_up, start_node,
}
use mathlib.Core.Path.{subst}
use mathlib.Core.Option.{some-injective}
use lanmon.Sysinfo.Broadcast.{IsIpv4Net, HasAllHostBits}
use lanmon.Sysinfo.Usable.{IsUsable}
use lanmon.Receive.Starting.{set_up_exact}
use lanmon.Receive.Reaches.{node_run-self}
use lanmon.Receive.Discovered.{node_takes}
use lanmon.Receive.Resolved.{IsResolvable, handle_packet-IsResolvable, start_node-broadcasts}
use lanmon.Tests.Codec.{encode, toy_mac, toy_msgpack}
use lanmon.Tests.Store.{t0, second}
use lanmon.Tests.Receive.{
  info, secret, packet, machine, IsTyped-one, sent_one, short_one, in_time_one,
}

abbrev self : Text
self = codes "aa:bb:cc:dd:ee:02"

abbrev failed_read : NodeDelivery
failed_read = record {
  datagram = none;
  io = true;
  now = pos 1700000029;
  at = t0;
  machine = machine;
}

abbrev beacon_read : NodeDelivery
beacon_read = record {
  datagram = some packet;
  io = true;
  now = pos 1700000030;
  at = t0 + second;
  machine = machine;
}

abbrev junk_read : NodeDelivery
junk_read = record {
  datagram = some (codes "junk");
  io = true;
  now = pos 1700000031;
  at = t0 + 2 * second;
  machine = machine;
}

abbrev localhost : Text
localhost = codes "127.0.0.1 localhost\n"

pub not_self : info.mac_address ≢ self
unfolding text_eq
not_self = text_ne info.mac_address self refl

IsStorable-one :
    IsStorable sorted_bolt (t0 + second) (payload_of info (pos 1700000000)) empty_bucket
unfolding payload_of is_encodable lookup
IsStorable-one = record { encodable = refl; named = omega arith; short = omega arith; small = refl }

pub taken_one :
    check_packet toy_mac toy_msgpack secret self (pos 1700000030) (received packet)
    ≡ accepted (payload_of info (pos 1700000000))
taken_one =
    node_takes toy_mac toy_msgpack secret sorted_bolt self info (pos 1700000000) (pos 1700000030)
      packet IsTyped-one sent_one short_one in_time_one not_self

handle_packet-IsResolvable_example :
    IsResolvable sorted_bolt
      (clean (next_record (payload_of info (pos 1700000000)) (t0 + second) none))
      (handle_packet toy_mac toy_msgpack secret self sorted_bolt
        (record { root = true; reads = true; opens_file = true; outcome = wrote })
        true
        (pos 1700000030)
        (t0 + second)
        (received packet)
        empty_bucket
        localhost).1
unfolding lookup payload_of to_valid text_eq
handle_packet-IsResolvable_example =
    handle_packet-IsResolvable toy_mac toy_msgpack secret sorted_bolt self (pos 1700000030)
      (t0 + second) (received packet) (payload_of info (pos 1700000000)) empty_bucket localhost
      taken_one IsStorable-one refl

abbrev net : IpNet
net = record { ip = 10 ∷ 51 ∷ 240 ∷ 0 ∷ []; mask = 255 ∷ 255 ∷ 254 ∷ 0 ∷ [] }

abbrev interfaces : List Interface
interfaces =
    record {
      is_loopback = true;
      is_up = true;
      hardware_addr = [];
      addrs = some (ip_net (127 ∷ 0 ∷ 0 ∷ 1 ∷ []) ∷ []);
    }
    ∷ record {
      is_loopback = false;
      is_up = true;
      hardware_addr = 0xaa ∷ 0xbb ∷ 0xcc ∷ 0xdd ∷ 0xee ∷ 0x02 ∷ [];
      addrs = some (ip_net (10 ∷ 51 ∷ 240 ∷ 56 ∷ []) ∷ []);
    }
    ∷ []

abbrev facts : Facts
facts = record {
  interfaces = some interfaces;
  hostname = codes "node-c";
  goos = codes "linux";
  goarch = codes "amd64";
  host = none;
  os_release = none;
  cpus = 4;
  cpu_models = none;
  memory = none;
  partitions = none;
}

abbrev range : Text
range = codes "10.51.240.0/23"

abbrev network : NodeNetwork
network = record {
  parse_cidr = λ r. some net;
  resolve = λ host_port. some host_port;
  listens = true;
}

abbrev attempt : NodeAttempt
attempt = record { facts = facts; stamp = pos 1700000020; writes = true }

ready : set_up network facts range (pos 5678) ≡ ok (self, codes "10.51.241.255:5678")
unfolding set_up text_eq get_network_info to4 contains mac_string ip_string
ready = refl

abbrev idle : NodeState toy_mac toy_msgpack secret sorted_bolt
idle = record { bucket = empty_bucket; hosts_file = localhost; wire = [] }

collected : collect network.parse_cidr facts range ≡ ok (info_of facts (self, codes "10.51.240.56"))
unfolding set_up text_eq get_network_info to4 contains mac_string ip_string collect
collected = refl

start_node-broadcasts_example :
    (s' : NodeState toy_mac toy_msgpack secret sorted_bolt) × (start_node toy_mac toy_msgpack secret
        sorted_bolt network facts range
        (pos 5678)
        (pos (30 * second))
        (failed_read ∷ [])
        attempt
        (arrival beacon_read ∷ tick attempt ∷ [])
        idle
      ≡ running s')
    × Among
        (
          codes "10.51.241.255:5678",
          sent (
              packet_of toy_mac toy_msgpack
                (encode (payload_of (info_of facts (self, codes "10.51.240.56")) (pos 1700000020)))
                secret),
        )
        s'.wire
start_node-broadcasts_example =
    start_node-broadcasts toy_mac toy_msgpack secret sorted_bolt network facts range (pos 5678)
      (30 * second - 1) (failed_read ∷ []) attempt (arrival beacon_read ∷ tick attempt ∷ []) idle
      self (codes "10.51.241.255:5678") attempt (info_of facts (self, codes "10.51.240.56")) _ ready
      (later (later first)) collected refl refl

node_run-self_example :
    lookup self
      (node_run toy_mac toy_msgpack secret sorted_bolt self network.parse_cidr range
        (codes "10.51.241.255:5678")
        (tick attempt ∷ arrival beacon_read ∷ [])
        idle).bucket.items
    ≡ lookup self idle.bucket.items
node_run-self_example =
    node_run-self toy_mac toy_msgpack secret sorted_bolt self network.parse_cidr range
      (codes "10.51.241.255:5678") (tick attempt ∷ arrival beacon_read ∷ []) idle

net-IsIpv4Net : IsIpv4Net net
net-IsIpv4Net = record {
  ip_length = refl;
  mask_length = refl;
  ip_bytes = omega arith;
  mask_bytes = omega arith;
}

any_net : (n : IpNet) → network.parse_cidr range ≡ some n → IsIpv4Net n
any_net n h = subst IsIpv4Net (some-injective net n h) net-IsIpv4Net

set_up_exact_example :
    (n : IpNet) × (broadcast : Bytes) × (i : Interface) × (ip : Bytes) × (network.parse_cidr range
      ≡ some n)
    × (contains n broadcast ≡ true)
    × HasAllHostBits broadcast n.mask
    × (network.resolve (endpoint (ip_string broadcast) (pos 5678))
        ≡ some (codes "10.51.241.255:5678"))
    × Among i interfaces
    × IsUsable (some n) ip i
    × (self ≡ mac_string i.hardware_addr)
set_up_exact_example =
    set_up_exact network facts b'1' (codes "0.51.240.0/23") (pos 5678) self
      (codes "10.51.241.255:5678") interfaces any_net refl ready
