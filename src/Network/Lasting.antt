-- ===== src/Network/Lasting.antt =====
-- What no step takes back: a host that is stored as active stays so, as long as the steps at its
-- station come in time.
use lanmon.Prelude.{
  ℕ, ◌+◌, ◌≤◌, ◌≡◌, ◌≢◌, Bool, some, none, Bytes, Text, Option, ◌==◌, ==_iff, Bool-cases, inl, inr,
}
use lanmon.Go.Int.{pos, negsuc}
use lanmon.Beacon.Hmac.{Mac}
use lanmon.Beacon.Packet.{Msgpack}
use lanmon.Store.Bolt.{Bolt}
use lanmon.Store.Ops.{mark_key_pushed, expire_stale_hosts}
use lanmon.Store.Alive.{IsAlive, beacon-IsAlive, mark-IsAlive, expire-IsAlive}
use lanmon.Receive.Listener
use lanmon.Receive.Discovery
use lanmon.Receive.Listener.{
  Verdict, accepted, dropped, received, max_packet_size, Delivery, deliver, store_beacon,
}
use lanmon.Receive.Discovery.{SyncMachine, store_and_sync}
use lanmon.Receive.Node.{NodeDelivery, arrive, arrive_bytes}
use lanmon.Receive.Reaches.{stored_keeps}
use lanmon.Network.Lan.{
  Lan, update, Step, broadcast, inject, node_gets, server_gets, expire, mark, Reach, here, next,
}

module _ (mac : Mac) (msgpack : Msgpack) (secret : Text) (bolt : Bolt) (lag : ℕ) where
  open bolt use {Bucket}

  -- A step at the station `i` comes in time: a handler writes no earlier than `t`, and a check comes
  -- before its threshold since `t` has passed.
  abbrev pub IsEarly :
      ℕ
      → ℕ
      → {u v : Lan mac msgpack secret bolt lag} → Step mac msgpack secret bolt lag u v
      → Type 0
  IsEarly i t (broadcast l info stamp packet typed h short) = Unit
  IsEarly i t (inject l packet unsigned) = Unit
  IsEarly i t (node_gets l j self d packet came on clocked) = j ≡ i → t ≤ d.at
  IsEarly i t (server_gets l j d packet came on clocked) = j ≡ i → t ≤ d.at
  IsEarly i t (expire l j io now (pos d)) = j ≡ i → now ≤ t + d
  IsEarly i t (expire l j io now (negsuc d)) = j ≢ i
  IsEarly i t (mark l j io now mac_address) = Unit

  abbrev pub AllEarly :
      ℕ
      → ℕ
      → {u v : Lan mac msgpack secret bolt lag} → Reach mac msgpack secret bolt lag u v
      → Type 0
  AllEarly i t here = Unit
  AllEarly i t (next r s) = AllEarly i t r × IsEarly i t s

  -- What holds of a station's store holds behind an update, if it holds of a new one.
  updated_keeps :
      (P : Bucket → Type 0) (f : ℕ → Bucket × Text) (j i : ℕ) (s : Bucket × Text)
      → P (f i).0
      → (j ≡ i → P s.0)
      → P (update mac msgpack secret bolt lag f j s i).0
  updated_keeps P f j i s old new = elim (Bool-cases (j == i)) [
    | inl same ↦ rw same (new ((==_iff j i).0 same))
    | inr other ↦ rw other old
  ]

  arrive-IsAlive :
      (k : Text) (t : ℕ) (self : Text) (d : NodeDelivery) (o : Option Bytes) (s : Bucket × Text)
      → t ≤ d.at
      → IsAlive bolt k t s.0
      → IsAlive bolt k t (arrive_bytes mac msgpack secret bolt self d o s.0 s.1).0
  unfolding Discovery.handle_packet
  arrive-IsAlive k t self d none s le h = h
  arrive-IsAlive k t self d (some bytes) s le h =
      stored_keeps mac msgpack secret bolt self (IsAlive bolt k t) d.machine d.io d.at
        (Discovery.check_packet mac msgpack secret self d.now (received bytes)) s.0 s.1 h
        (λ p taken u. beacon-IsAlive bolt k t d.at d.io p s.0 le h)

  verdict-IsAlive :
      (k : Text) (t at : ℕ) (io : Bool) (v : Verdict) (b : Bucket)
      → t ≤ at
      → IsAlive bolt k t b
      → IsAlive bolt k t (store_beacon mac msgpack secret bolt io at v b).0
  verdict-IsAlive k t at io (dropped r) b le h = h
  verdict-IsAlive k t at io (accepted p) b le h = beacon-IsAlive bolt k t at io p b le h

  deliver-IsAlive :
      (k : Text) (t : ℕ) (d : Delivery) (packet : Bytes) (b : Bucket)
      → d.datagram ≡ some packet
      → t ≤ d.at
      → IsAlive bolt k t b
      → IsAlive bolt k t (deliver mac msgpack secret bolt d b)
  unfolding Listener.handle_packet
  deliver-IsAlive k t d packet b came le h = rw came (
      verdict-IsAlive k t d.at d.io
        (Listener.check_packet mac msgpack secret d.now (received packet)) b le h)

  Step-IsAlive :
      (k : Text) (i t : ℕ) {u v : Lan mac msgpack secret bolt lag}
      (s : Step mac msgpack secret bolt lag u v)
      → IsEarly i t s
      → IsAlive bolt k t (u.station i).0
      → IsAlive bolt k t (v.station i).0
  Step-IsAlive k i t (broadcast l info stamp packet typed h short) early a = a
  Step-IsAlive k i t (inject l packet unsigned) early a = a
  Step-IsAlive k i t (node_gets l j self d packet came on clocked) early a =
      updated_keeps (IsAlive bolt k t) l.station j i
        (arrive mac msgpack secret bolt self d (l.station j)) a
        (λ same. arrive-IsAlive k t self d d.datagram (l.station j) (early same) (rw same a))
  Step-IsAlive k i t (server_gets l j d packet came on clocked) early a =
      updated_keeps (IsAlive bolt k t) l.station j i
        (deliver mac msgpack secret bolt d (l.station j).0, (l.station j).1) a
        (λ same. deliver-IsAlive k t d packet (l.station j).0 came (early same) (rw same a))
  Step-IsAlive k i t (expire l j io now (pos d)) early a =
      updated_keeps (IsAlive bolt k t) l.station j i
        ((expire_stale_hosts bolt io now (pos d) (l.station j).0).0, (l.station j).1) a
        (λ same. expire-IsAlive bolt k t d now io (l.station j).0 (early same) (rw same a))
  Step-IsAlive k i t (expire l j io now (negsuc d)) early a =
      updated_keeps (IsAlive bolt k t) l.station j i
        ((expire_stale_hosts bolt io now (negsuc d) (l.station j).0).0, (l.station j).1) a
        (λ same. absurd (early same))
  Step-IsAlive k i t (mark l j io now mac_address) early a =
      updated_keeps (IsAlive bolt k t) l.station j i
        ((mark_key_pushed bolt io now mac_address (l.station j).0).0, (l.station j).1) a
        (λ same. mark-IsAlive bolt k t now io mac_address (l.station j).0 (rw same a))

  pub Reach-IsAlive :
      (k : Text) (i t : ℕ) {u v : Lan mac msgpack secret bolt lag}
      (r : Reach mac msgpack secret bolt lag u v)
      → AllEarly i t r
      → IsAlive bolt k t (u.station i).0
      → IsAlive bolt k t (v.station i).0
  Reach-IsAlive k i t here early a = a
  Reach-IsAlive k i t (next r s) early a =
      Step-IsAlive k i t s early.1 (Reach-IsAlive k i t r early.0 a)
