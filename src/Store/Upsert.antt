-- ===== src/Store/Upsert.antt =====
-- `Upsert` and `MarkKeyPushed` on every branch, as changes of the map from MAC addresses to texts.
use lanmon.Prelude.{
  ℕ, ◌<◌, ◌≤◌, ◌≡◌, refl, Bool, true, Option, none, some, Text, if◌then◌else◌, text_eq, length, ok,
  err,
}
use lanmon.Beacon.Payload.{BeaconPayload}
use lanmon.Store.Record.{HostRecord, Stored, json, broken, clean, is_encodable}
use lanmon.Store.Bolt.{Bolt}
use lanmon.Store.Ops.{
  StoreError, not_found, next_record, pushed, update, upsert, upsert_tx, mark_tx, mark_key_pushed,
}
use lanmon.Store.Write.{write-Written, write_fits, update_err, update_ok}

module _ (bolt : Bolt) where
  open bolt use {Bucket, get, put, fits}

  -- The only change of a successful `Upsert`.
  pub record Upserted (now : ℕ) (p : BeaconPayload) (b b' : Bucket) : Type 0 where
    pub encodable : is_encodable (next_record p now (get b p.mac_address)) ≡ true
    pub here :
        (j : Text)
        → get b' j ≡ (
            if text_eq j p.mac_address
            then some (json (clean (next_record p now (get b p.mac_address))))
            else get b j)

  pub upsert-Upserted :
      (io : Bool) (now : ℕ) (p : BeaconPayload) (b : Bucket)
      → (upsert bolt io now p b).1 ≡ ok tt
      → Upserted now p b (upsert bolt io now p b).0
  unfolding upsert
  upsert-Upserted io now p b h =
      let w =
        write-Written bolt p.mac_address (next_record p now (get b p.mac_address)) b _
          (update_ok bolt io (upsert_tx bolt now p) b h).1 in
      record { encodable = w.encodable; here = w.here }

  pub upsert_err :
      (io : Bool) (now : ℕ) (p : BeaconPayload) (b : Bucket) {e : StoreError}
      → (upsert bolt io now p b).1 ≡ err e
      → (upsert bolt io now p b).0 ≡ b
  unfolding upsert
  upsert_err io now p b h = update_err bolt io (upsert_tx bolt now p) b h

  -- Where BoltDB works, a payload with a MAC address of 1 to 32768 bytes is stored if its record
  -- can be marshalled and is not too large.
  pub upsert_succeeds :
      (now : ℕ) (p : BeaconPayload) (b : Bucket)
      → is_encodable (next_record p now (get b p.mac_address)) ≡ true
      → 0 < length p.mac_address
      → length p.mac_address ≤ 32768
      → fits (json (clean (next_record p now (get b p.mac_address)))) ≡ true
      → (upsert bolt true now p b).1 ≡ ok tt
  unfolding upsert update
  upsert_succeeds now p b e h l f =
      let (b', q) =
        write_fits bolt p.mac_address (next_record p now (get b p.mac_address)) b e h l f in
      rw q refl

  -- BoltDB takes the record that a beacon makes of its host.
  pub record IsStorable (at : ℕ) (p : BeaconPayload) (b : Bucket) : Type 0 where
    pub encodable : is_encodable (next_record p at (get b p.mac_address)) ≡ true
    pub named : 0 < length p.mac_address
    pub short : length p.mac_address ≤ 32768
    pub small : fits (json (clean (next_record p at (get b p.mac_address)))) ≡ true

  pub upsert-IsStorable :
      (at : ℕ) (p : BeaconPayload) (b : Bucket)
      → IsStorable at p b
      → (upsert bolt true at p b).1 ≡ ok tt
  upsert-IsStorable at p b can = upsert_succeeds at p b can.encodable can.named can.short can.small

  -- The only change of a successful `MarkKeyPushed`.
  pub record Marked (now : ℕ) (mac : Text) (b b' : Bucket) : Type 0 where
    pub known : HostRecord
    pub found : get b mac ≡ some (json known)
    pub encodable : is_encodable (pushed now known) ≡ true
    pub here :
        (j : Text)
        → get b' j ≡ (if text_eq j mac then some (json (clean (pushed now known))) else get b j)

  mark_tx-Marked :
      (now : ℕ) (mac : Text) (o : Option Stored) (b b' : Bucket)
      → get b mac ≡ o
      → mark_tx bolt now mac o b ≡ ok b'
      → Marked now mac b b'
  mark_tx-Marked now mac none b b' e h = cc
  mark_tx-Marked now mac (some (broken r)) b b' e h = cc
  mark_tx-Marked now mac (some (json r)) b b' e h =
      let w = write-Written bolt mac (pushed now r) b b' h in
      record { known = r; found = e; encodable = w.encodable; here = w.here }

  pub mark_key_pushed-Marked :
      (io : Bool) (now : ℕ) (mac : Text) (b : Bucket)
      → (mark_key_pushed bolt io now mac b).1 ≡ ok tt
      → Marked now mac b (mark_key_pushed bolt io now mac b).0
  unfolding mark_key_pushed
  mark_key_pushed-Marked io now mac b h =
      mark_tx-Marked now mac (get b mac) b _ refl
        (update_ok bolt io (λ c. mark_tx bolt now mac (get c mac) c) b h).1

  pub mark_key_pushed_err :
      (io : Bool) (now : ℕ) (mac : Text) (b : Bucket) {e : StoreError}
      → (mark_key_pushed bolt io now mac b).1 ≡ err e
      → (mark_key_pushed bolt io now mac b).0 ≡ b
  unfolding mark_key_pushed
  mark_key_pushed_err io now mac b h =
      update_err bolt io (λ c. mark_tx bolt now mac (get c mac) c) b h

  -- A host that is not in the bucket, or whose text does not decode, is an error of its own.
  pub mark_key_pushed_missing :
      (now : ℕ) (mac : Text) (b : Bucket)
      → get b mac ≡ none
      → mark_key_pushed bolt true now mac b ≡ (b, err (not_found mac))
  unfolding mark_key_pushed update
  mark_key_pushed_missing now mac b h = rw h refl
