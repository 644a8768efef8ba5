-- ===== src/Tests/Receive.antt =====
-- Packets of a toy signature and coding, sent and received.
use lanmon.Prelude.{
  ◌+◌, ◌*◌, ◌≤◌, ◌≡◌, ◌↔◌, refl, true, false, none, some, List, [], ◌∷◌, Bytes, Text, codes, length,
  arith,
}
use lanmon.Go.Int.{pos}
use lanmon.Go.Hex.{hex_digit, IsHex, nil, pair}
use lanmon.Sysinfo.{SystemInfo}
use lanmon.Beacon.Payload.{IsTyped}
use lanmon.Beacon.Hmac.{compute_hmac, key_of, hex_prefix_collision}
use lanmon.Beacon.Packet.{payload_of, packet_of, send_beacon, sent}
use lanmon.Store.Sorted.{sorted_bolt, empty_bucket}
use lanmon.Hosts.Sync.{wrote}
use lanmon.Receive.Stamp.{is_stale_stamp, IsFresh, is_stale_stamp_iff}
use lanmon.Receive.Listener
use lanmon.Receive.Discovery
use lanmon.Receive.Listener.{accepted, dropped, stale, received, Delivery}
use lanmon.Receive.Discovery.{SyncMachine}
use lanmon.Receive.Accept.{IsSigned, check_packet_iff, check-send_beacon}
use lanmon.Receive.Effects.{NodeExplains, node-handle_packet-Explains}
use lanmon.Tests.Codec.{toy_mac, toy_msgpack, encode, put_text, put_int}
use lanmon.Tests.Store.{t0, second}

abbrev pub secret : Text
secret = codes "test-secret-key"

abbrev pub info : SystemInfo
info = record {
  mac_address = codes "aa:bb:cc:dd:ee:01";
  ip_address = codes "10.51.240.55";
  hostname = codes "node-b";
  os_name = codes "Ubuntu 22.04";
  kernel = codes "5.15.0";
  arch = codes "amd64";
  cpu_model = codes "Test CPU";
  cpu_cores = pos 4;
  memory_gb = 0x4030000000000000;
  disk_count = pos 1;
}

abbrev pub packet : Bytes
packet = packet_of toy_mac toy_msgpack (encode (payload_of info (pos 1700000000))) secret

pub sent_one :
    send_beacon toy_mac toy_msgpack (some info) (pos 1700000000) secret true ≡ sent packet
unfolding send_beacon
sent_one = refl

pub IsTyped-one : IsTyped (payload_of info (pos 1700000000))
unfolding payload_of
IsTyped-one = omega arith

pub in_time_one : is_stale_stamp (pos 1700000030) (pos 1700000000) ≡ false
unfolding is_stale_stamp
in_time_one = refl

pub short_one : length packet ≤ 4096
unfolding packet_of compute_hmac key_of encode payload_of put_text put_int
short_one = omega arith

check-send_beacon_example :
    Listener.check_packet toy_mac toy_msgpack secret (pos 1700000030) (received packet)
    ≡ accepted (payload_of info (pos 1700000000))
check-send_beacon_example =
    check-send_beacon toy_mac toy_msgpack secret info (pos 1700000000) (pos 1700000030) packet
      IsTyped-one sent_one short_one in_time_one

check_packet_iff_example :
    (Listener.check_packet toy_mac toy_msgpack secret (pos 1700000030) (received packet)
      ≡ accepted (payload_of info (pos 1700000000)))
    ↔ IsSigned toy_mac toy_msgpack secret
        (pos 1700000030)
        (received packet)
        (payload_of info (pos 1700000000))
check_packet_iff_example =
    check_packet_iff toy_mac toy_msgpack secret (pos 1700000030) (received packet)
      (payload_of info (pos 1700000000))

is_stale_stamp_iff_example :
    (is_stale_stamp (pos 1700000030) (pos 1700000000) ≡ false) ↔ IsFresh 1700000030 (pos 1700000000)
is_stale_stamp_iff_example =
    is_stale_stamp_iff 1700000030 (pos 1700000000) (omega arith) (omega arith) (omega arith)

abbrev pub machine : SyncMachine
machine = record { root = true; reads = true; opens_file = true; outcome = wrote }

node-handle_packet-Explains_example :
    NodeExplains toy_mac toy_msgpack secret
      (codes "aa:bb:cc:dd:ee:02")
      sorted_bolt
      machine
      t0
      empty_bucket
      (codes "127.0.0.1 localhost\n")
      (Discovery.handle_packet toy_mac toy_msgpack secret
        (codes "aa:bb:cc:dd:ee:02")
        sorted_bolt
        machine
        true
        (pos 1700000030)
        t0
        packet
        empty_bucket
        (codes "127.0.0.1 localhost\n"))
node-handle_packet-Explains_example =
    node-handle_packet-Explains toy_mac toy_msgpack secret (codes "aa:bb:cc:dd:ee:02") sorted_bolt
      machine true (pos 1700000030) t0 packet empty_bucket (codes "127.0.0.1 localhost\n")

abbrev deliveries : List Delivery
deliveries =
    record { datagram = some packet; io = true; now = pos 1700000030; at = t0 + 5 * second }
    ∷ record { datagram = none; io = true; now = pos 1700000031; at = t0 + 6 * second }
    ∷ record {
      datagram = some (codes "junk");
      io = true;
      now = pos 1700000032;
      at = t0 + 7 * second;
    }
    ∷ []

dead : IsHex (codes "dead")
unfolding hex_digit
dead = pair refl refl (pair refl refl nil)

-- Two passwords of which only the first four characters count.
hex_prefix_collision_example :
    compute_hmac toy_mac (codes "x") (codes "dead-lock")
    ≡ compute_hmac toy_mac (codes "x") (codes "deadzone")
unfolding hex_digit
hex_prefix_collision_example =
    hex_prefix_collision toy_mac (codes "dead") b'-' b'z' (codes "lock") (codes "one") (codes "x")
      dead (λ h. cc) refl refl
