-- ===== src/Network/Arrivals.antt =====
-- What a datagram that comes in does to a traced store, on a node and on a server.
use lanmon.Prelude.{ℕ, ◌≡◌, refl, Bool, List, some, Bytes, Text, Among, inl, inr, Result-cases}
use lanmon.Beacon.Payload.{BeaconPayload}
use lanmon.Beacon.Hmac.{Mac}
use lanmon.Beacon.Packet.{Msgpack}
use lanmon.Store.Bolt.{Bolt}
use lanmon.Store.Ops.{upsert}
use lanmon.Store.Upsert.{upsert-Upserted, upsert_err}
use lanmon.Receive.Listener
use lanmon.Receive.Discovery
use lanmon.Receive.Listener.{
  Verdict, accepted, dropped, received, received_whole, max_packet_size, Delivery,
}
use lanmon.Receive.Accept.{node-check_packet_iff}
use lanmon.Receive.Reaches.{stored_keeps}
use lanmon.Receive.Node.{NodeDelivery, arrive_bytes, arrive}
use lanmon.Network.Lan.{IsClocked}
use lanmon.Network.Traced.{IsTimely, AllTraced, Upserted-AllTraced}
use lanmon.Network.Origin.{stamp-IsTimely, IsExplained, taken_IsSent}

module _ (mac : Mac) (msgpack : Msgpack) (secret : Text) (bolt : Bolt) (lag : ℕ) where
  open bolt use {Bucket}

  node_AllTraced :
      (log : List BeaconPayload) (self : Text) (d : NodeDelivery) (packet : Bytes) (b : Bucket)
      (file : Text)
      → IsExplained mac msgpack secret log packet
      → IsClocked lag d.now d.at
      → AllTraced bolt lag log b
      → AllTraced bolt lag log (arrive_bytes mac msgpack secret bolt self d (some packet) b file).0
  unfolding Discovery.handle_packet
  node_AllTraced log self d packet b file explained clocked h =
      stored_keeps mac msgpack secret bolt self (AllTraced bolt lag log) d.machine d.io d.at
        (Discovery.check_packet mac msgpack secret self d.now (received packet)) b file h
        (λ p taken u.
          let server_takes =
            ((node-check_packet_iff mac msgpack secret self d.now (received packet) p).0 taken).0 in
          let was = taken_IsSent mac msgpack secret log d.now packet p explained server_takes in
          Upserted-AllTraced bolt lag log d.at p b (upsert bolt d.io d.at p b).0 was.0
            (stamp-IsTimely lag d.now p.timestamp d.at clocked was.1.timestamp was.2) u h)

  server_stored_AllTraced :
      (log : List BeaconPayload) (io : Bool) (at : ℕ) (v : Verdict) (b : Bucket)
      → ((p : BeaconPayload) → v ≡ accepted p → Among p log × IsTimely lag p.timestamp at)
      → AllTraced bolt lag log b
      → AllTraced bolt lag log (Listener.store_beacon mac msgpack secret bolt io at v b).0
  server_stored_AllTraced log io at (dropped r) b was h = h
  server_stored_AllTraced log io at (accepted p) b was h =
      elim (Result-cases (upsert bolt io at p b).1) [
        | inl done ↦
            Upserted-AllTraced bolt lag log at p b (upsert bolt io at p b).0 (was p refl).0
              (was p refl).1 (upsert-Upserted bolt io at p b done) h
        | inr (e, failed) ↦ rw (upsert_err bolt io at p b failed) h
      ]

  server_AllTraced :
      (log : List BeaconPayload) (d : Delivery) (packet : Bytes) (b : Bucket)
      → IsExplained mac msgpack secret log packet
      → IsClocked lag d.now d.at
      → AllTraced bolt lag log b
      → AllTraced bolt lag log
          (Listener.handle_packet mac msgpack secret bolt d.io d.now d.at (received packet) b).0
  unfolding Listener.handle_packet
  server_AllTraced log d packet b explained clocked h =
      server_stored_AllTraced log d.io d.at
        (Listener.check_packet mac msgpack secret d.now (received packet)) b
        (λ p taken.
          let was = taken_IsSent mac msgpack secret log d.now packet p explained taken in
          (was.0, stamp-IsTimely lag d.now p.timestamp d.at clocked was.1.timestamp was.2))
        h

  pub arrive-AllTraced :
      (log : List BeaconPayload) (self : Text) (d : NodeDelivery) (packet : Bytes)
      (s : Bucket × Text)
      → d.datagram ≡ some packet
      → IsExplained mac msgpack secret log packet
      → IsClocked lag d.now d.at
      → AllTraced bolt lag log s.0
      → AllTraced bolt lag log (arrive mac msgpack secret bolt self d s).0
  arrive-AllTraced log self d packet (b, file) came explained clocked h =
      rw came (node_AllTraced log self d packet b file explained clocked h)

  pub deliver-AllTraced :
      (log : List BeaconPayload) (d : Delivery) (packet : Bytes) (b : Bucket)
      → d.datagram ≡ some packet
      → IsExplained mac msgpack secret log packet
      → IsClocked lag d.now d.at
      → AllTraced bolt lag log b
      → AllTraced bolt lag log (Listener.deliver mac msgpack secret bolt d b)
  deliver-AllTraced log d packet b came explained clocked h =
      rw came (server_AllTraced log d packet b explained clocked h)
