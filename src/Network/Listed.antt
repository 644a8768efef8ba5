-- ===== src/Network/Listed.antt =====
-- What an attacker on the network cannot prevent: a beacon that has come in keeps its host listed.
use lanmon.Prelude.{
  Bool, sym, ap, ◌∙◌, ℕ, ◌≤◌, ◌≡◌, ◌≢◌, true, false, some, Bytes, Text, length, ◌==◌, arith,
}
use lanmon.Go.Int.{ℤ}
use lanmon.Sysinfo.{SystemInfo}
use lanmon.Beacon.Payload.{BeaconPayload, IsTyped}
use lanmon.Beacon.Hmac.{Mac}
use lanmon.Beacon.Packet.{Msgpack, payload_of, send_beacon, sent}
use lanmon.Store.Bolt.{Bolt}
use lanmon.Store.Ops.{upsert}
use lanmon.Store.Upsert.{IsStorable, upsert-IsStorable, upsert-Upserted}
use lanmon.Store.Alive.{IsAlive, Upserted-IsAlive}
use lanmon.Receive.Stamp.{is_stale_stamp}
use lanmon.Receive.Listener
use lanmon.Receive.Discovery
use lanmon.Receive.Listener.{
  Delivery, deliver, store_beacon, Verdict, accepted, received, max_packet_size,
}
use lanmon.Receive.Discovery.{SyncMachine, store_and_sync}
use lanmon.Receive.Node.{NodeDelivery, arrive}
use lanmon.Receive.Reaches.{IsKnown, after_upsert-bucket}
use lanmon.Receive.Discovered.{IsOffered, IsKnown-IsOffered, node_takes}
use lanmon.Network.Lasting.{AllEarly, Reach-IsAlive}
use lanmon.Receive.Accept.{check-send_beacon}
use lanmon.Network.Lan.{
  Step, broadcast, inject, node_gets, server_gets, expire, mark, Lan, update, Reach,
}

module _ (mac : Mac) (msgpack : Msgpack) (secret : Text) (bolt : Bolt) (lag : ℕ) where
  open bolt use {Bucket, get}

  updated_self :
      (P : Bucket → Type 0) (f : ℕ → Bucket × Text) (i : ℕ) (s : Bucket × Text)
      → P s.0
      → P (update mac msgpack secret bolt lag f i s i).0
  updated_self P f i s new = let same : (i == i) ≡ true = ground arith in rw same new

  -- A beacon that a node takes and can store.
  taken_IsAlive :
      (m : SyncMachine) (self : Text) (at : ℕ) (v : Verdict) (p : BeaconPayload) (b : Bucket)
      (file : Text)
      → v ≡ accepted p
      → IsStorable bolt at p b
      → IsAlive bolt p.mac_address at
          (store_and_sync mac msgpack secret self bolt m true at v b file).0
  taken_IsAlive m self at v p b file taken can =
      let u = upsert-Upserted bolt true at p b (upsert-IsStorable bolt at p b can) in
      rw taken (
        rw
          (after_upsert-bucket mac msgpack secret bolt self m p (upsert bolt true at p b).0
            (upsert bolt true at p b).1 file)
          (Upserted-IsAlive bolt at at p b (upsert bolt true at p b).0 (omega arith) u))

  arrived-IsAlive :
      (self : Text) (d : NodeDelivery) (packet : Bytes) (p : BeaconPayload) (s : Bucket × Text)
      → d.datagram ≡ some packet
      → d.io ≡ true
      → Discovery.check_packet mac msgpack secret self d.now (received packet) ≡ accepted p
      → IsStorable bolt d.at p s.0
      → IsAlive bolt p.mac_address d.at (arrive mac msgpack secret bolt self d s).0
  unfolding Discovery.handle_packet
  arrived-IsAlive self d packet p (b, file) came works taken can =
      rw (came, works)
        (taken_IsAlive d.machine self d.at
          (Discovery.check_packet mac msgpack secret self d.now (received packet)) p b file taken
          can)

  -- A beacon that a server takes and can store.
  stored-IsAlive :
      (io : Bool) (at : ℕ) (v : Verdict) (p : BeaconPayload) (b : Bucket)
      → io ≡ true
      → v ≡ accepted p
      → IsStorable bolt at p b
      → IsAlive bolt p.mac_address at (store_beacon mac msgpack secret bolt io at v b).0
  stored-IsAlive io at v p b works taken can =
      let u = upsert-Upserted bolt true at p b (upsert-IsStorable bolt at p b can) in
      rw (works, taken)
        (Upserted-IsAlive bolt at at p b (upsert bolt true at p b).0 (omega arith) u)

  delivered-IsAlive :
      (d : Delivery) (packet : Bytes) (p : BeaconPayload) (b : Bucket)
      → d.datagram ≡ some packet
      → d.io ≡ true
      → Listener.check_packet mac msgpack secret d.now (received packet) ≡ accepted p
      → IsStorable bolt d.at p b
      → IsAlive bolt p.mac_address d.at (deliver mac msgpack secret bolt d b)
  unfolding Listener.handle_packet
  delivered-IsAlive d packet p b came works taken can = rw came (
      stored-IsAlive d.io d.at (Listener.check_packet mac msgpack secret d.now (received packet)) p
        b works taken can)

  IsAlive-IsKnown : (k : Text) (t : ℕ) (b : Bucket) → IsAlive bolt k t b → IsKnown bolt k b
  IsAlive-IsKnown k t b a = record { host = a.host; found = a.found; active = a.active }

  -- The station `i` gets the datagram at the time `at`, with a clock on which its stamp passes and a
  -- BoltDB that takes the record; a node has another MAC address than the sender.
  abbrev pub IsTaken :
      SystemInfo
      → ℤ
      → Bytes
      → ℕ
      → ℕ
      → {u v : Lan mac msgpack secret bolt lag} → Step mac msgpack secret bolt lag u v
      → Type 0
  IsTaken info stamp packet i at (broadcast l sender t q typed h short) = ⊥
  IsTaken info stamp packet i at (inject l q unsigned) = ⊥
  IsTaken info stamp packet i at (node_gets l j self d q came on clocked) =
      (j ≡ i)
      × (q ≡ packet)
      × (d.at ≡ at)
      × (info.mac_address ≢ self)
      × (d.io ≡ true)
      × (is_stale_stamp d.now stamp ≡ false)
      × IsStorable bolt d.at (payload_of info stamp) (l.station j).0
  IsTaken info stamp packet i at (server_gets l j d q came on clocked) =
      (j ≡ i)
      × (q ≡ packet)
      × (d.at ≡ at)
      × (d.io ≡ true)
      × (is_stale_stamp d.now stamp ≡ false)
      × IsStorable bolt d.at (payload_of info stamp) (l.station j).0
  IsTaken info stamp packet i at (expire l j io now threshold) = ⊥
  IsTaken info stamp packet i at (mark l j io now mac_address) = ⊥

  Step-takes :
      (info : SystemInfo) (stamp : ℤ) (packet : Bytes) (i at : ℕ)
      {u v : Lan mac msgpack secret bolt lag} (s : Step mac msgpack secret bolt lag u v)
      → IsTyped (payload_of info stamp)
      → send_beacon mac msgpack (some info) stamp secret true ≡ sent packet
      → length packet ≤ max_packet_size
      → IsTaken info stamp packet i at s
      → IsAlive bolt info.mac_address at (v.station i).0
  unfolding payload_of
  Step-takes info stamp packet i at (broadcast l sender t q typed h short) typed' h' short' taken =
      absurd taken
  Step-takes info stamp packet i at (inject l q unsigned) typed h short taken = absurd taken
  Step-takes info stamp packet i at (node_gets l j self d q came on clocked) typed h short
        (same, it, time, other, works, fresh, can) =
      let accepts =
        node_takes mac msgpack secret bolt self info stamp d.now packet typed h short fresh other in
      rw (sym same, sym time)
        (updated_self (IsAlive bolt info.mac_address d.at) l.station j
          (arrive mac msgpack secret bolt self d (l.station j))
          (arrived-IsAlive self d packet (payload_of info stamp) (l.station j) (came ∙ ap some it)
            works accepts can))
  Step-takes info stamp packet i at (server_gets l j d q came on clocked) typed h short
        (same, it, time, works, fresh, can) =
      let accepts =
        check-send_beacon mac msgpack secret info stamp d.now packet typed h short fresh in
      rw (sym same, sym time)
        (updated_self (IsAlive bolt info.mac_address d.at) l.station j
          (deliver mac msgpack secret bolt d (l.station j).0, (l.station j).1)
          (delivered-IsAlive d packet (payload_of info stamp) (l.station j).0 (came ∙ ap some it)
            works accepts can))
  Step-takes info stamp packet i at (expire l j io now threshold) typed h short taken = absurd taken
  Step-takes info stamp packet i at (mark l j io now mac_address) typed h short taken = absurd taken

  -- Where a node or a server gets a beacon that a node or an agent with the same secret has sent,
  -- which fits the buffer, whose stamp passes, and which BoltDB takes, a node only one of another MAC
  -- address: its sender is one of the active hosts that the station gives to an RPC client, through
  -- everything that anyone does on the network afterwards, as long as each expiry check of this
  -- station comes before its threshold since then has passed, and its clock does not go back.
  pub delivered_host_listed :
      (info : SystemInfo) (stamp : ℤ) (packet : Bytes) (i at : ℕ)
      {u v w : Lan mac msgpack secret bolt lag} (s : Step mac msgpack secret bolt lag u v)
      → IsTyped (payload_of info stamp)
      → send_beacon mac msgpack (some info) stamp secret true ≡ sent packet
      → length packet ≤ max_packet_size
      → IsTaken info stamp packet i at s
      → (r : Reach mac msgpack secret bolt lag v w) → AllEarly mac msgpack secret bolt lag i at r
      → IsOffered bolt info.mac_address (w.station i).0
  delivered_host_listed info stamp packet i at {u} {v} {w} s typed h short taken r early =
      let here_now = Step-takes info stamp packet i at s typed h short taken in
      IsKnown-IsOffered bolt info.mac_address (w.station i).0 (
        IsAlive-IsKnown info.mac_address at (w.station i).0
          (Reach-IsAlive mac msgpack secret bolt lag info.mac_address i at r early here_now))
