-- ===== src/Receive/Discovered.antt =====
-- From one node to another: a broadcast of the one is listed by the other.
use lanmon.Prelude.{
  ℕ, ◌≤◌, ◌≡◌, ◌≢◌, refl, true, false, List, ◌∷◌, ◌++◌, some, Bytes, Text, ok, length, Among,
}
use lanmon.Go.Int.{ℤ}
use lanmon.Sysinfo.{SystemInfo}
use lanmon.Beacon.Payload.{BeaconPayload, IsTyped}
use lanmon.Beacon.Hmac.{Mac}
use lanmon.Beacon.Packet.{Msgpack, sent, send_beacon, payload_of}
use lanmon.Store.Record.{HostRecord, json}
use lanmon.Store.Bolt.{Bolt}
use lanmon.Store.Ops.{upsert}
use lanmon.Store.Upsert.{IsStorable, upsert-IsStorable, upsert-Upserted}
use lanmon.Store.Listing.{get_active-lists}
use lanmon.Rpc.{list_active_hosts}
use lanmon.Receive.Stamp.{is_stale_stamp}
use lanmon.Receive.Listener.{Verdict, accepted, received, max_packet_size}
use lanmon.Receive.Discovery.{SyncMachine, check_packet, handle_packet, store_and_sync}
use lanmon.Receive.Accept.{node-check_packet_iff, check-send_beacon}
use lanmon.Receive.Node.{NodeDelivery, arrive, arrive_bytes, node_listen}
use lanmon.Receive.Reaches.{
  IsKnown, Upserted-IsKnown, node_listen-IsKnown, node_listen-append, after_upsert-bucket,
}

-- The host under the key is among those that a client is given.
pub record IsOffered (bolt : Bolt) (k : Text) (b : bolt.Bucket) : Type 0 where
  pub host : HostRecord
  pub found : bolt.get b k ≡ some (json host)
  pub listed : List HostRecord
  pub answered : list_active_hosts bolt true true b ≡ ok listed
  pub among : Among host listed

pub IsKnown-IsOffered :
    (bolt : Bolt) (k : Text) (b : bolt.Bucket) → IsKnown bolt k b → IsOffered bolt k b
unfolding list_active_hosts
IsKnown-IsOffered bolt k b h =
    let (rs, active, among) = get_active-lists bolt 0 b k h.host h.found h.active in
    record { host = h.host; found = h.found; listed = rs; answered = rw active refl; among = among }

module _ (mac : Mac) (msgpack : Msgpack) (secret : Text) (bolt : Bolt) (self : Text) where
  open bolt use {Bucket, get, fits}

  stored_IsKnown :
      (m : SyncMachine) (at : ℕ) (v : Verdict) (p : BeaconPayload) (b : Bucket) (file : Text)
      → v ≡ accepted p
      → IsStorable bolt at p b
      → IsKnown bolt p.mac_address
          (store_and_sync mac msgpack secret self bolt m true at v b file).0
  stored_IsKnown m at v p b file taken can = rw taken (
      rw
        (after_upsert-bucket mac msgpack secret bolt self m p (upsert bolt true at p b).0
          (upsert bolt true at p b).1 file)
        (Upserted-IsKnown mac msgpack secret bolt self at p b (upsert bolt true at p b).0
          (upsert-Upserted bolt true at p b (upsert-IsStorable bolt at p b can))))

  arrive_bytes-IsKnown :
      (d : NodeDelivery) (packet : Bytes) (p : BeaconPayload) (b : Bucket) (file : Text)
      → d.io ≡ true
      → check_packet mac msgpack secret self d.now (received packet) ≡ accepted p
      → IsStorable bolt d.at p b
      → IsKnown bolt p.mac_address
          (arrive_bytes mac msgpack secret bolt self d (some packet) b file).0
  unfolding handle_packet
  arrive_bytes-IsKnown d packet p b file works taken can = rw works (
      stored_IsKnown d.machine d.at (check_packet mac msgpack secret self d.now (received packet)) p
        b file taken can)

  arrive-IsKnown :
      (d : NodeDelivery) (packet : Bytes) (p : BeaconPayload) (s : Bucket × Text)
      → d.datagram ≡ some packet
      → d.io ≡ true
      → check_packet mac msgpack secret self d.now (received packet) ≡ accepted p
      → IsStorable bolt d.at p s.0
      → IsKnown bolt p.mac_address (arrive mac msgpack secret bolt self d s).0
  arrive-IsKnown d packet p (b, file) came works taken can =
      rw came (arrive_bytes-IsKnown d packet p b file works taken can)

  -- A node takes what another node with the same secret and another MAC address has sent, if it
  -- fits the buffer and the clocks agree.
  pub node_takes :
      (info : SystemInfo) (stamp now : ℤ) (packet : Bytes)
      → IsTyped (payload_of info stamp)
      → send_beacon mac msgpack (some info) stamp secret true ≡ sent packet
      → length packet ≤ max_packet_size
      → is_stale_stamp now stamp ≡ false
      → info.mac_address ≢ self
      → check_packet mac msgpack secret self now (received packet)
        ≡ accepted (payload_of info stamp)
  unfolding payload_of
  node_takes info stamp now packet typed h short fresh other =
      (node-check_packet_iff mac msgpack secret self now (received packet)
          (payload_of info stamp)).1
        (check-send_beacon mac msgpack secret info stamp now packet typed h short fresh, other)

  -- A beacon that another node has sent, and that is read by a node with the same secret and another
  -- MAC address, makes its sender one of the active hosts that the node gives to a client, whatever
  -- datagrams came before and come after, as long as no expiry check runs; if the datagram fits the
  -- buffer, its stamp passes, and BoltDB works and takes the record.
  pub broadcast_discovered :
      (info : SystemInfo) (stamp : ℤ) (packet : Bytes) (early late : List NodeDelivery)
      (d : NodeDelivery) (s : Bucket × Text)
      → IsTyped (payload_of info stamp)
      → send_beacon mac msgpack (some info) stamp secret true ≡ sent packet
      → length packet ≤ max_packet_size
      → info.mac_address ≢ self
      → d.datagram ≡ some packet
      → d.io ≡ true
      → is_stale_stamp d.now stamp ≡ false
      → IsStorable bolt d.at
          (payload_of info stamp)
          (node_listen mac msgpack secret bolt self early s).0
      → IsOffered bolt info.mac_address
          (node_listen mac msgpack secret bolt self (early ++ d ∷ late) s).0
  unfolding payload_of node_listen
  broadcast_discovered info stamp packet early late d s typed h short other came works fresh can =
      let before = node_listen mac msgpack secret bolt self early s in
      let here = arrive mac msgpack secret bolt self d before in
      IsKnown-IsOffered bolt info.mac_address
        (node_listen mac msgpack secret bolt self (early ++ d ∷ late) s).0
        (rw (node_listen-append mac msgpack secret bolt self early (d ∷ late) s) (
          node_listen-IsKnown mac msgpack secret bolt self info.mac_address late here.0 here.1 (
            arrive-IsKnown d packet (payload_of info stamp) before came works
              (node_takes info stamp d.now packet typed h short fresh other) can)))
