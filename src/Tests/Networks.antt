-- ===== src/Tests/Networks.antt =====
-- A network of two stations with a broadcast, a datagram that is not signed, and a replay.
use mathlib.Core.Option
use lanmon.Prelude.{
  ◌∙◌, ℕ, ◌+◌, ◌*◌, ◌≡◌, refl, ap, true, false, none, some, [], ◌∷◌, Text, Bytes, codes, length,
  arith, inl, Among, first, text_eq, later, ok,
}
use lanmon.Prelude.Assoc.{lookup, insert}
use lanmon.Go.Int.{pos}
use lanmon.Beacon.Payload.{BeaconPayload}
use lanmon.Beacon.Packet.{payload_of}
use lanmon.Store.Record.{HostRecord, json, clean, marshal, is_encodable}
use lanmon.Store.Ops.{next_record, upsert, expire_stale_hosts, cutoff_at}
use lanmon.Store.Expiry.{expire_value, get-expire}
use lanmon.Store.Sorted.{SortedBucket, sorted_bolt, empty_bucket}
use lanmon.Receive.Listener.{received}
use lanmon.Receive.Discovery.{handle_packet}
use lanmon.Receive.Node.{NodeDelivery, arrive}
use lanmon.Receive.Accept.{length-packet_of}
use lanmon.Network.Lan.{
  Step, IsUnsigned, Lan, update, broadcast, inject, node_gets, expire, Reach, here, next,
}
use lanmon.Network.Traced.{IsTraced}
use lanmon.Network.Stations.{IsFreshLan, stored_was_sent}
use lanmon.Network.Replay.{IsUpTo, replays_expire}
use lanmon.Store.Upsert.{IsStorable}
use lanmon.Receive.Discovered.{IsOffered}
use lanmon.Network.Listed.{delivered_host_listed}
use lanmon.Tests.Nodes.{taken_one, not_self}
use lanmon.Tests.Codec.{toy_mac, toy_msgpack}
use lanmon.Tests.Store.{t0, second}
use lanmon.Tests.Receive.{
  info, secret, packet, machine, IsTyped-one, sent_one, short_one, in_time_one,
}

abbrev self : Text
self = codes "aa:bb:cc:dd:ee:02"

abbrev World : Type 0
World = Lan toy_mac toy_msgpack secret sorted_bolt 0

abbrev start : World
start = record { station = λ i. (empty_bucket, codes "127.0.0.1 localhost\n"); wire = []; log = [] }

abbrev junk : Bytes
junk = codes "junk"

junk-IsUnsigned : IsUnsigned toy_mac toy_msgpack secret junk
unfolding received
junk-IsUnsigned bytes same = absurd (
    omega
      (arith, length-packet_of toy_mac toy_msgpack secret bytes, ap (λ (q : Bytes). length q) same))

abbrev read : NodeDelivery
read = record {
  datagram = some packet;
  io = true;
  now = pos 1700000030;
  at = t0 + 30 * second + 5;
  machine = machine;
}

abbrev sent_beacon : BeaconPayload
sent_beacon = payload_of info (pos 1700000000)

-- The broadcast, the datagram that is not signed, and the first read of the beacon at station 1.
abbrev noisy : World
noisy = record start { wire = junk ∷ packet ∷ []; log = sent_beacon ∷ [] }

noisy-Reach : Reach toy_mac toy_msgpack secret sorted_bolt 0 start noisy
noisy-Reach =
    next
      (next here
        (broadcast start info (pos 1700000000) packet IsTyped-one sent_one (inl short_one)))
      (inject (record start { wire = packet ∷ []; log = sent_beacon ∷ [] }) junk junk-IsUnsigned)

abbrev read_once : World
read_once = record noisy {
  station =
      update toy_mac toy_msgpack secret sorted_bolt 0 noisy.station 1
        (arrive toy_mac toy_msgpack secret sorted_bolt self read (noisy.station 1));
}

read_once-Reach : Reach toy_mac toy_msgpack secret sorted_bolt 0 start read_once
read_once-Reach =
    next noisy-Reach (node_gets noisy 1 self read packet refl (later first) (omega arith))

start-IsFreshLan : IsFreshLan toy_mac toy_msgpack secret sorted_bolt 0 start
unfolding lookup
start-IsFreshLan = record { empty = λ i k. refl; silent = refl }

abbrev stored : HostRecord
stored = clean (next_record sent_beacon (t0 + 30 * second + 5) none)

found_one : lookup info.mac_address (read_once.station 1).0.items ≡ some (json stored)
unfolding handle_packet upsert lookup insert is_encodable payload_of text_eq marshal
found_one = rw taken_one refl

stored_was_sent_example : IsTraced 0 (sent_beacon ∷ []) info.mac_address stored
stored_was_sent_example =
    stored_was_sent toy_mac toy_msgpack secret sorted_bolt 0 1 info.mac_address (json stored)
      start-IsFreshLan read_once-Reach found_one

-- Station 1 checks after the threshold of 120
-- seconds and the 61 seconds for which a stamp may pass.
abbrev late : ℕ
late = t0 + 181 * second

abbrev checked : SortedBucket
checked = (expire_stale_hosts sorted_bolt true late (pos (120 * second)) (read_once.station 1).0).0

only_one :
    (p : BeaconPayload)
    → Among p (sent_beacon ∷ [])
    → p.mac_address ≡ info.mac_address
    → IsUpTo 1700000000 p.timestamp
unfolding payload_of
only_one p first same = omega arith
only_one p (later rest) same = elim rest [ ]

check_succeeds :
    (expire_stale_hosts sorted_bolt true late (pos (120 * second)) (read_once.station 1).0).1
    ≡ ok tt
unfolding expire_stale_hosts handle_packet upsert lookup insert is_encodable payload_of text_eq
    marshal
check_succeeds = rw taken_one refl

found_checked :
    lookup info.mac_address checked.items ≡ some (json (clean (record stored { active = false })))
unfolding expire_value is_encodable payload_of
found_checked =
    get-expire sorted_bolt true late (pos (120 * second)) (read_once.station 1).0 info.mac_address
      check_succeeds
    ∙ ap (Option.map (expire_value (cutoff_at late (pos (120 * second))))) found_one

replays_expire_example : (clean (record stored { active = false })).active ≡ false
replays_expire_example =
    replays_expire toy_mac toy_msgpack secret sorted_bolt 0 1 info.mac_address 1700000000
      (120 * second) late true (clean (record stored { active = false })) start-IsFreshLan
      read_once-Reach only_one (omega arith) check_succeeds found_checked

-- Behind the first read a datagram that is not signed, the beacon once more, and a check in time.
abbrev replayed : NodeDelivery
replayed = record read { at = t0 + 31 * second; now = pos 1700000031 }

abbrev read_twice : World
read_twice = record read_once {
  wire = junk ∷ read_once.wire;
  station =
      update toy_mac toy_msgpack secret sorted_bolt 0 read_once.station 1
        (arrive toy_mac toy_msgpack secret sorted_bolt self replayed (read_once.station 1));
}

abbrev attacked : World
attacked = record read_twice {
  station = update toy_mac toy_msgpack secret sorted_bolt 0 read_twice.station 1 (
    (expire_stale_hosts sorted_bolt true (t0 + 100 * second) (pos (120 * second))
        (read_twice.station 1).0).0,
    (read_twice.station 1).1,
  );
}

under_attack : Reach toy_mac toy_msgpack secret sorted_bolt 0 read_once attacked
under_attack =
    next
      (next (next here (inject read_once junk junk-IsUnsigned)) (
        node_gets (record read_once { wire = junk ∷ read_once.wire }) 1 self replayed packet refl
          (later (later first)) (omega arith)))
      (expire read_twice 1 true (t0 + 100 * second) (pos (120 * second)))

read-IsStorable : IsStorable sorted_bolt read.at sent_beacon (noisy.station 1).0
unfolding payload_of is_encodable lookup
read-IsStorable = record {
  encodable = refl;
  named = omega arith;
  short = omega arith;
  small = refl;
}

-- The step of the first read.
first_read : Step toy_mac toy_msgpack secret sorted_bolt 0 noisy read_once
first_read = node_gets noisy 1 self read packet refl (later first) (omega arith)

delivered_host_listed_example : IsOffered sorted_bolt info.mac_address (attacked.station 1).0
unfolding under_attack first_read
delivered_host_listed_example =
    delivered_host_listed toy_mac toy_msgpack secret sorted_bolt 0 info (pos 1700000000) packet 1
      read.at first_read IsTyped-one sent_one short_one
      (refl, refl, refl, not_self, refl, in_time_one, read-IsStorable) under_attack
      (((tt, tt), λ same. omega arith), λ same. omega arith)
