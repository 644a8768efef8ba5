-- ===== src/Store/Ops.antt =====
-- The methods of `Store`. The first argument `io` says whether BoltDB can begin and commit the
-- transaction; where it cannot, or the method returns an error inside, the bucket stays as it was.
-- The lock makes each method one step. `now` is what `time.Now()` returns.
use lanmon.Prelude.{
  ℕ, suc, ◌+◌, ◌-◌, ◌%◌, Bool, true, false, ◌&&◌, Option, none, some, List, [], ◌∷◌, Text, Result,
  err, ok, ◌>>=◌, or_error, ltb, if◌then◌else◌, select,
}
use lanmon.Go.Int.{ℤ, pos, negsuc, word}
use lanmon.Beacon.Payload.{BeaconPayload}
use lanmon.Store.Record.{HostRecord, Stored, json, broken, marshal, filled}
use lanmon.Store.Bolt.{Bolt}

pub data StoreError : Type 0 where
  database marshaling unmarshaling put_refused : StoreError
  not_found : Text → StoreError

-- The record of a host that was not known.
abbrev pub first_record : BeaconPayload → ℕ → HostRecord
first_record payload now = record {
  beacon = payload;
  first_seen = now;
  last_seen = now;
  packet_count = 1;
  ssh_key_pushed = false;
  ssh_key_pushed_at = none;
  active = true;
}

-- `PacketCount` is a uint64.
abbrev pub touched : BeaconPayload → ℕ → HostRecord → HostRecord
touched payload now r = record r {
  beacon = payload;
  last_seen = now;
  packet_count = (r.packet_count + 1) % word;
  active = true;
}

-- An existing text that does not decode is only logged.
abbrev pub next_record : BeaconPayload → ℕ → Option Stored → HostRecord
next_record payload now none = first_record payload now
next_record payload now (some s) = touched payload now (filled s)

abbrev pub decode : Stored → Result StoreError HostRecord
decode (json r) = ok r
decode (broken r) = err unmarshaling

abbrev pub pushed : ℕ → HostRecord → HostRecord
pushed now r = record r { ssh_key_pushed = true; ssh_key_pushed_at = some now }

-- `time.Now().Add(-threshold)`
abbrev pub cutoff_at : ℕ → ℤ → ℕ
cutoff_at now (pos d) = now - d
cutoff_at now (negsuc d) = now + suc d

abbrev pub read_all : List (Text × Stored) → List HostRecord
read_all [] = []
read_all ((k, json r) ∷ rest) = r ∷ read_all rest
read_all ((k, broken r) ∷ rest) = read_all rest

module _ (bolt : Bolt) where
  open bolt use {Bucket, entries, get, put}

  abbrev settle : Bucket → Result StoreError Bucket → Bucket × Result StoreError (Unit {0})
  settle b (ok b') = (b', ok tt)
  settle b (err e) = (b, err e)

  -- `db.Update`
  unfoldable pub update :
      Bool → (Bucket → Result StoreError Bucket) → Bucket → Bucket × Result StoreError (Unit {0})
  update io f b = if io then settle b (f b) else (b, err database)

  -- The end of each writing method: marshal, then put.
  unfoldable pub write : Text → HostRecord → Bucket → Result StoreError Bucket
  write k r b = do s ← or_error marshaling (marshal r); or_error put_refused (put k s b)

  abbrev pub upsert_tx : ℕ → BeaconPayload → Bucket → Result StoreError Bucket
  upsert_tx now payload b =
      write payload.mac_address (next_record payload now (get b payload.mac_address)) b

  unfoldable pub upsert : Bool → ℕ → BeaconPayload → Bucket → Bucket × Result StoreError (Unit {0})
  unfolding update write
  upsert io now payload = update io (upsert_tx now payload)

  unfoldable pub get_all : Bool → Bucket → Result StoreError (List HostRecord)
  get_all io b = if io then ok (read_all (entries b)) else err database

  unfoldable pub get_active : Bool → Bucket → Result StoreError (List HostRecord)
  unfolding get_all
  get_active io b = do all ← get_all io b; ok (select (λ r. r.active) all)

  abbrev pub mark_tx : ℕ → Text → Option Stored → Bucket → Result StoreError Bucket
  mark_tx now mac existing b = do
    s ← or_error (not_found mac) existing
    r ← decode s
    write mac (pushed now r) b

  unfoldable pub mark_key_pushed : Bool → ℕ → Text → Bucket → Bucket × Result StoreError (Unit {0})
  unfolding update write
  mark_key_pushed io now mac = update io λ b. mark_tx now mac (get b mac) b

  -- One round of the loop; a record that does not marshal is passed over.
  unfoldable pub expire_one : ℕ → Text → Stored → Bucket → Result StoreError Bucket
  expire_one cutoff k (broken r) b = ok b
  expire_one cutoff k (json r) b =
      if r.active && ltb r.last_seen cutoff
      then elim (marshal (record r { active = false })) [
        | none ↦ ok b
        | some s ↦ or_error put_refused (put k s b)
      ]
      else ok b

  -- `ForEach` over the pairs that the bucket held at the start of the transaction.
  unfoldable pub expire_loop : ℕ → List (Text × Stored) → Bucket → Result StoreError Bucket
  expire_loop cutoff [] b = ok b
  expire_loop cutoff ((k, s) ∷ rest) b = expire_one cutoff k s b >>= expire_loop cutoff rest

  abbrev pub expire_tx : ℕ → Bucket → Result StoreError Bucket
  expire_tx cutoff b = expire_loop cutoff (entries b) b

  -- `expireStaleHosts`; its error is logged.
  unfoldable pub expire_stale_hosts : Bool → ℕ → ℤ → Bucket → Bucket × Result StoreError (Unit {0})
  unfolding update expire_one expire_loop
  expire_stale_hosts io now threshold = update io (expire_tx (cutoff_at now threshold))
