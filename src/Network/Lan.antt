-- ===== src/Network/Lan.antt =====
-- A local network: stations that run a node or a server, the senders that know the secret, and
-- anyone else, who may repeat, delay, drop and invent datagrams but cannot sign them.
use lanmon.Prelude.{
  ℕ, ◌+◌, ◌*◌, ◌^◌, ◌≤◌, ◌<◌, ◌≡◌, ◌≢◌, ◌⊎◌, Bool, true, List, ◌∷◌, some, Bytes, Text, Among,
  length, ◌==◌, if◌then◌else◌,
}
use lanmon.Go.Int.{ℤ, pos, negsuc}
use lanmon.Sysinfo.{SystemInfo}
use lanmon.Beacon.Payload.{BeaconPayload, IsTyped}
use lanmon.Beacon.Hmac.{Mac}
use lanmon.Beacon.Packet.{Msgpack, payload_of, packet_of, send_beacon, sent}
use lanmon.Store.Bolt.{Bolt}
use lanmon.Store.Ops.{mark_key_pushed, expire_stale_hosts}
use lanmon.Receive.Listener.{max_packet_size, received, Delivery, deliver}
use lanmon.Receive.Node.{NodeDelivery, arrive}

abbrev pub second : ℕ
second = 10 ^ 9

-- The seconds from the start of year 1, from which a `time.Time` counts, to 1970.
abbrev pub unix_epoch : ℕ
unix_epoch = 62135596800

-- The clock that `Upsert` reads is behind the one that the age test has read, by less than `lag`
-- seconds and the rest of the second.
abbrev pub IsClocked : ℕ → ℤ → ℕ → Type 0
IsClocked lag (pos n) at =
    (60 ≤ n)
    × (n + 60 < 2 ^ 63)
    × ((n + unix_epoch) * second ≤ at)
    × (at < (n + unix_epoch + 1 + lag) * second)
IsClocked lag (negsuc n) at = ⊥

module _ (mac : Mac) (msgpack : Msgpack) (secret : Text) where
  -- What a receiver reads of the datagram is no signature under the secret with its bytes.
  abbrev pub IsUnsigned : Bytes → Type 0
  IsUnsigned packet = (bytes : Bytes) → received packet ≢ packet_of mac msgpack bytes secret

  module _ (bolt : Bolt) (lag : ℕ) where
    open bolt use {Bucket}

    -- A bucket and an /etc/hosts for each station, every datagram that has been on the wire, and
    -- every payload that a holder of the secret has sent.
    pub record Lan : Type 0 where
      pub station : ℕ → Bucket × Text
      pub wire : List Bytes
      pub log : List BeaconPayload

    abbrev pub update : (ℕ → Bucket × Text) → ℕ → Bucket × Text → ℕ → Bucket × Text
    update f i s j = if i == j then s else f j

    abbrev pub with_bucket : Lan → ℕ → Bucket → Lan
    with_bucket l i b = record l { station = update l.station i (b, (l.station i).1) }

    pub data Step : Lan → Lan → Type 0 where
      -- A node or an agent broadcasts; a datagram that is too long is cut, and then no signature.
      broadcast :
          (l : Lan) (info : SystemInfo) (stamp : ℤ) (packet : Bytes)
          → IsTyped (payload_of info stamp)
          → send_beacon mac msgpack (some info) stamp secret true ≡ sent packet
          → (length packet ≤ max_packet_size) ⊎ IsUnsigned packet
          → Step l (record l { wire = packet ∷ l.wire; log = payload_of info stamp ∷ l.log })
      -- Anyone puts a datagram on the wire that is not signed.
      inject :
          (l : Lan) (packet : Bytes)
          → IsUnsigned packet
          → Step l (record l { wire = packet ∷ l.wire })
      -- A node, or a server, gets a datagram of the wire, an old one perhaps, or for the second
      -- time.
      node_gets :
          (l : Lan) (i : ℕ) (self : Text) (d : NodeDelivery) (packet : Bytes)
          → d.datagram ≡ some packet
          → Among packet l.wire
          → IsClocked lag d.now d.at
          → Step l (record l {
            station = update l.station i (arrive mac msgpack secret bolt self d (l.station i));
          })
      server_gets :
          (l : Lan) (i : ℕ) (d : Delivery) (packet : Bytes)
          → d.datagram ≡ some packet
          → Among packet l.wire
          → IsClocked lag d.now d.at
          → Step l (with_bucket l i (deliver mac msgpack secret bolt d (l.station i).0))
      -- The other methods of a station's store.
      expire :
          (l : Lan) (i : ℕ) (io : Bool) (now : ℕ) (threshold : ℤ)
          → Step l (with_bucket l i (expire_stale_hosts bolt io now threshold (l.station i).0).0)
      mark :
          (l : Lan) (i : ℕ) (io : Bool) (now : ℕ) (mac_address : Text)
          → Step l (with_bucket l i (mark_key_pushed bolt io now mac_address (l.station i).0).0)

    pub data Reach (l : Lan) : Lan → Type 0 where
      here : Reach l l
      next : {u v : Lan} → Reach l u → Step u v → Reach l v
