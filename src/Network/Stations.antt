-- ===== src/Network/Stations.antt =====
-- What every step on the network keeps: each store is traced, and each datagram is explained.
use lanmon.Prelude.{
  ℕ, ◌≡◌, List, ◌∷◌, none, some, Bytes, Text, Among, first, later, Bool-cases, ◌==◌, [], inl, inr,
}
use lanmon.Beacon.Payload.{BeaconPayload}
use lanmon.Beacon.Hmac.{Mac}
use lanmon.Beacon.Packet.{Msgpack, payload_of}
use lanmon.Store.Record.{Stored}
use lanmon.Store.Bolt.{Bolt}
use lanmon.Store.Ops.{mark_key_pushed, expire_stale_hosts}
use lanmon.Receive.Listener
use lanmon.Receive.Listener.{
  Verdict, accepted, dropped, received, received_whole, max_packet_size, Delivery,
}
use lanmon.Receive.Node.{arrive}
use lanmon.Network.Lan.{
  Lan, update, Step, broadcast, inject, node_gets, server_gets, expire, mark, Reach, here, next,
}
use lanmon.Network.Traced.{
  IsTracedText, AllTraced, AllTraced-later, mark-AllTraced, expire-AllTraced,
}
use lanmon.Network.Arrivals.{arrive-AllTraced, deliver-AllTraced}
use lanmon.Network.Origin.{IsExplained, IsExplained-later, broadcast_IsExplained}

module _ (mac : Mac) (msgpack : Msgpack) (secret : Text) where
  module _ (bolt : Bolt) (lag : ℕ) where
    open bolt use {Bucket, get}

    -- Every store is traced, and every datagram is explained.
    pub record IsTracedLan (l : Lan mac msgpack secret bolt lag) : Type 0 where
      pub stores : (i : ℕ) → AllTraced bolt lag l.log (l.station i).0
      pub datagrams : (q : Bytes) → Among q l.wire → IsExplained mac msgpack secret l.log q

    -- A station that changes keeps the others as they are.
    updated_AllTraced :
        (log : List BeaconPayload) (f : ℕ → Bucket × Text) (i : ℕ) (s : Bucket × Text)
        → ((j : ℕ) → AllTraced bolt lag log (f j).0)
        → AllTraced bolt lag log s.0
        → (j : ℕ) → AllTraced bolt lag log (update mac msgpack secret bolt lag f i s j).0
    updated_AllTraced log f i s others own j = elim (Bool-cases (i == j)) [
      | inl same ↦ rw same own
      | inr other ↦ rw other (others j)
    ]

    -- A step at one station, which leaves the wire and the other stations.
    station_IsTracedLan :
        (l : Lan mac msgpack secret bolt lag) (i : ℕ) (s : Bucket × Text)
        → IsTracedLan l
        → AllTraced bolt lag l.log s.0
        → IsTracedLan (record l { station = update mac msgpack secret bolt lag l.station i s })
    station_IsTracedLan l i s h own = record {
      stores = updated_AllTraced l.log l.station i s h.stores own;
      datagrams = h.datagrams;
    }

    wire_grows :
        (log : List BeaconPayload) (packet : Bytes) (wire : List Bytes)
        → IsExplained mac msgpack secret log packet
        → ((q : Bytes) → Among q wire → IsExplained mac msgpack secret log q)
        → (q : Bytes) → Among q (packet ∷ wire)
        → IsExplained mac msgpack secret log q
    wire_grows log packet wire new old q first = new
    wire_grows log packet wire new old q (later h) = old q h

    Step-IsTracedLan :
        {u v : Lan mac msgpack secret bolt lag}
        → Step mac msgpack secret bolt lag u v
        → IsTracedLan u
        → IsTracedLan v
    Step-IsTracedLan (broadcast l info stamp packet typed h short) t = record {
      stores =
          λ i. AllTraced-later bolt lag l.log (payload_of info stamp) (l.station i).0 (t.stores i);
      datagrams =
          wire_grows (payload_of info stamp ∷ l.log) packet l.wire
            (broadcast_IsExplained mac msgpack secret l.log info stamp packet typed h short)
            (λ q on.
              IsExplained-later mac msgpack secret l.log (payload_of info stamp) q
                (t.datagrams q on));
    }
    Step-IsTracedLan (inject l packet unsigned) t = record {
      stores = t.stores;
      datagrams = wire_grows l.log packet l.wire (inl unsigned) t.datagrams;
    }
    Step-IsTracedLan (node_gets l i self d packet came on clocked) t =
        station_IsTracedLan l i (arrive mac msgpack secret bolt self d (l.station i)) t (
          arrive-AllTraced mac msgpack secret bolt lag l.log self d packet (l.station i) came
            (t.datagrams packet on) clocked (t.stores i))
    Step-IsTracedLan (server_gets l i d packet came on clocked) t =
        station_IsTracedLan l i
          (Listener.deliver mac msgpack secret bolt d (l.station i).0, (l.station i).1) t
          (deliver-AllTraced mac msgpack secret bolt lag l.log d packet (l.station i).0 came
            (t.datagrams packet on) clocked (t.stores i))
    Step-IsTracedLan (expire l i io now threshold) t =
        station_IsTracedLan l i
          ((expire_stale_hosts bolt io now threshold (l.station i).0).0, (l.station i).1) t
          (expire-AllTraced bolt lag l.log io now threshold (l.station i).0 (t.stores i))
    Step-IsTracedLan (mark l i io now mac_address) t =
        station_IsTracedLan l i
          ((mark_key_pushed bolt io now mac_address (l.station i).0).0, (l.station i).1) t
          (mark-AllTraced bolt lag l.log io now mac_address (l.station i).0 (t.stores i))

    pub Reach-IsTracedLan :
        {u v : Lan mac msgpack secret bolt lag}
        → Reach mac msgpack secret bolt lag u v
        → IsTracedLan u
        → IsTracedLan v
    Reach-IsTracedLan here t = t
    Reach-IsTracedLan (next r s) t = Step-IsTracedLan s (Reach-IsTracedLan r t)

    -- Nothing is stored and nothing has been sent.
    pub record IsFreshLan (l : Lan mac msgpack secret bolt lag) : Type 0 where
      pub empty : (i : ℕ) (k : Text) → get (l.station i).0 k ≡ none
      pub silent : l.wire ≡ []

    fresh_AllTraced :
        (log : List BeaconPayload) (b : Bucket)
        → ((k : Text) → get b k ≡ none)
        → AllTraced bolt lag log b
    fresh_AllTraced log b empty = record { at = λ k s found. absurd (cc (empty k)) }

    pub IsFreshLan-IsTracedLan :
        (l : Lan mac msgpack secret bolt lag) → IsFreshLan l → IsTracedLan l
    IsFreshLan-IsTracedLan l h = record {
      stores = λ i. fresh_AllTraced l.log (l.station i).0 (h.empty i);
      datagrams = λ q on. nothing q (rw h.silent at on);
    }
      where
        nothing : (q : Bytes) → Among q [] → IsExplained mac msgpack secret l.log q
        nothing q on = elim on [ ]

    -- On a network that begins with empty stores, whatever is stored at any station, under any key
    -- and after any steps, decodes and shows a beacon that a holder of the secret has sent with this
    -- key, and the host was last seen while the beacon's stamp was fresh.
    pub stored_was_sent :
        {u v : Lan mac msgpack secret bolt lag} (i : ℕ) (k : Text) (s : Stored)
        → IsFreshLan u
        → Reach mac msgpack secret bolt lag u v
        → get (v.station i).0 k ≡ some s
        → IsTracedText lag v.log k s
    stored_was_sent {u} i k s fresh r found =
        ((Reach-IsTracedLan r (IsFreshLan-IsTracedLan u fresh)).stores i).at k s found
