-- ===== src/Receive/Discovery.antt =====
-- `handlePacket` of internal/discovery/discovery.go: as the listener's, with the node's own beacons
-- dropped and /etc/hosts rewritten behind a write.
use lanmon.Prelude.{
  ℕ, Bool, not, Option, none, some, leb, if◌then◌else◌, Bytes, Text, text_eq, length, take, drop,
  Result, ok, err,
}
use lanmon.Go.Int.{ℤ}
use lanmon.Beacon.Payload.{BeaconPayload}
use lanmon.Beacon.Hmac.{Mac, hmac_size, verify_hmac}
use lanmon.Beacon.Packet.{Msgpack}
use lanmon.Store.Bolt.{Bolt}
use lanmon.Store.Ops.{upsert, StoreError}
use lanmon.Hosts.Sync.{sync, WriteOutcome}
use lanmon.Receive.Stamp.{is_stale_stamp}
use lanmon.Receive.Listener.{
  too_small, bad_hmac, undecodable, own_beacon, stale, Verdict, accepted, dropped, Outcome, handled,
  rejected, not_stored,
}

-- What the machine lets a sync do: whether the process is root, whether BoltDB can be read, whether
-- the file opens, and how the write ends.
pub record SyncMachine : Type 0 where
  pub root : Bool
  pub reads : Bool
  pub opens_file : Bool
  pub outcome : WriteOutcome

module _ (mac : Mac) (msgpack : Msgpack) (secret self : Text) where
  abbrev pub from_peer : ℤ → Option BeaconPayload → Verdict
  from_peer now none = dropped undecodable
  from_peer now (some p) =
      if text_eq p.mac_address self
      then dropped own_beacon
      else if is_stale_stamp now p.timestamp
      then dropped stale
      else accepted p

  unfoldable pub check_packet : ℤ → Bytes → Verdict
  check_packet now packet =
      if leb (length packet) hmac_size
      then dropped too_small
      else if not (verify_hmac mac (take hmac_size packet) (drop hmac_size packet) secret)
      then dropped bad_hmac
      else from_peer now (msgpack.unmarshal (drop hmac_size packet))

  module _ (bolt : Bolt) where
    open bolt use {Bucket}

    -- The bucket and the text of /etc/hosts; an error of `Sync` is only logged.
    abbrev pub after_upsert :
        SyncMachine
        → BeaconPayload
        → Bucket × Result StoreError (Unit {0})
        → Text
        → Bucket × Text × Outcome
    after_upsert m p (b, ok _) file =
        (b, (sync bolt m.root m.reads m.opens_file m.outcome b file).0, handled p)
    after_upsert m p (b, err e) file = (b, file, not_stored e)

    abbrev pub store_and_sync :
        SyncMachine → Bool → ℕ → Verdict → Bucket → Text → Bucket × Text × Outcome
    store_and_sync m io at (dropped r) b file = (b, file, rejected r)
    store_and_sync m io at (accepted p) b file = after_upsert m p (upsert bolt io at p b) file

    unfoldable pub handle_packet :
        SyncMachine → Bool → ℤ → ℕ → Bytes → Bucket → Text → Bucket × Text × Outcome
    handle_packet m io now at packet b file =
        store_and_sync m io at (check_packet now packet) b file
