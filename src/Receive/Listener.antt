-- ===== src/Receive/Listener.antt =====
-- `handlePacket` and the read loop of internal/listener/listener.go.
use lanmon.Prelude.{
  ℕ, ◌≡◌, Bool, not, Option, none, some, List, [], ◌∷◌, leb, if◌then◌else◌, Bytes, Text, length,
  take, drop, take_of_length-le, ◌≤◌, Result, ok, err,
}
use lanmon.Go.Int.{ℤ}
use lanmon.Beacon.Payload.{BeaconPayload}
use lanmon.Beacon.Hmac.{Mac, hmac_size, verify_hmac}
use lanmon.Beacon.Packet.{Msgpack}
use lanmon.Store.Bolt.{Bolt}
use lanmon.Store.Ops.{StoreError, upsert}
use lanmon.Receive.Stamp.{is_stale_stamp}

abbrev pub max_packet_size : ℕ
max_packet_size = 4096

-- Why a packet is dropped.
pub data Reason : Type 0 where
  too_small bad_hmac undecodable own_beacon stale : Reason

-- What the checks make of a packet.
pub data Verdict : Type 0 where
  accepted : BeaconPayload → Verdict
  dropped : Reason → Verdict

-- What became of a packet.
pub data Outcome : Type 0 where
  handled : BeaconPayload → Outcome
  rejected : Reason → Outcome
  not_stored : StoreError → Outcome

abbrev pub outcome_of : BeaconPayload → Result StoreError (Unit {0}) → Outcome
outcome_of p (ok _) = handled p
outcome_of p (err e) = not_stored e

-- The datagram as `ReadFromUDP` leaves it in the buffer of 4096 bytes.
unfoldable pub received : Bytes → Bytes
received datagram = take max_packet_size datagram

-- A datagram that fits is received whole.
pub received_whole :
    (datagram : Bytes) → length datagram ≤ max_packet_size → received datagram ≡ datagram
unfolding received
received_whole datagram h = take_of_length-le max_packet_size datagram h

-- One round of the read loop: a failed read is logged. The handlers run as goroutines; the lock
-- of the store makes each one step, in the order in which they come to it.
pub record Delivery : Type 0 where
  pub datagram : Option Bytes
  pub io : Bool
  pub now : ℤ
  pub at : ℕ

module _ (mac : Mac) (msgpack : Msgpack) (secret : Text) where
  abbrev pub fresh : ℤ → Option BeaconPayload → Verdict
  fresh now none = dropped undecodable
  fresh now (some p) = if is_stale_stamp now p.timestamp then dropped stale else accepted p

  -- The tests in front of the write; `now` is `time.Now().Unix()`.
  unfoldable pub check_packet : ℤ → Bytes → Verdict
  check_packet now packet =
      if leb (length packet) hmac_size
      then dropped too_small
      else if not (verify_hmac mac (take hmac_size packet) (drop hmac_size packet) secret)
      then dropped bad_hmac
      else fresh now (msgpack.unmarshal (drop hmac_size packet))

  module _ (bolt : Bolt) where
    open bolt use {Bucket}

    abbrev pub store_beacon : Bool → ℕ → Verdict → Bucket → Bucket × Outcome
    store_beacon io at (dropped r) b = (b, rejected r)
    store_beacon io at (accepted p) b = let (b', r) = upsert bolt io at p b in (b', outcome_of p r)

    -- `at` is the clock that `Upsert` reads, in nanoseconds.
    unfoldable pub handle_packet : Bool → ℤ → ℕ → Bytes → Bucket → Bucket × Outcome
    handle_packet io now at packet b = store_beacon io at (check_packet now packet) b

    abbrev pub deliver : Delivery → Bucket → Bucket
    deliver d b = elim d.datagram [
      | none ↦ b
      | some bytes ↦ (handle_packet d.io d.now d.at (received bytes) b).0
    ]

    unfoldable pub listen : List Delivery → Bucket → Bucket
    listen [] b = b
    listen (d ∷ ds) b = listen ds (deliver d b)
