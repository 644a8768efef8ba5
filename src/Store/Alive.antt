-- ===== src/Store/Alive.antt =====
-- No check marks a host inactive while the threshold since one of its beacons has not passed.
use mathlib.Core.Option
use lanmon.Prelude.{
  ℕ, ◌+◌, ◌≤◌, ◌≡◌, refl, sym, ap, ◌∙◌, Bool, true, some, Text, text_eq, text_eq_iff, text_eq_refl,
  arith, Bool-cases, inl, inr, Result-cases, ok,
}
use lanmon.Go.Int.{pos, negsuc}
use lanmon.Beacon.Payload.{BeaconPayload}
use lanmon.Store.Record.{HostRecord, json, clean, is_encodable}
use lanmon.Store.Bolt.{Bolt}
use lanmon.Store.Ops.{next_record, pushed, cutoff_at, upsert, mark_key_pushed, expire_stale_hosts}
use lanmon.Store.Upsert.{
  Upserted, upsert-Upserted, upsert_err, mark_key_pushed-Marked, mark_key_pushed_err,
}
use lanmon.Store.Expiry.{expire_value, get-expire, expire_err}
use lanmon.Store.Invariant.{
  World, Step, beacon, mark, expire, wait, Reach, here, next, clean-is_encodable,
}
use lanmon.Store.History.{expired, expire_value-json, next_record_fresh, next_record-is_encodable}
use lanmon.Store.Rests.{record_or}

module _ (bolt : Bolt) where
  open bolt use {Bucket, get}

  -- The host under the key is active and was last seen at `t` or later.
  pub record IsAlive (k : Text) (t : ℕ) (b : Bucket) : Type 0 where
    pub host : HostRecord
    pub found : get b k ≡ some (json host)
    pub active : host.active ≡ true
    pub recent : t ≤ host.last_seen
    pub encodable : is_encodable host ≡ true

  -- A check of the run comes before the threshold since `t` has passed.
  abbrev pub IsEarly : ℕ → {u v : World bolt} → Step bolt u v → Type 0
  IsEarly t (beacon w io p) = Unit
  IsEarly t (mark w io mac) = Unit
  IsEarly t (expire w io (pos d)) = w.clock ≤ t + d
  IsEarly t (expire w io (negsuc d)) = ⊥
  IsEarly t (wait w n) = Unit

  abbrev pub AllEarly : ℕ → {u v : World bolt} → Reach bolt u v → Type 0
  AllEarly t here = Unit
  AllEarly t (next r s) = AllEarly t r × IsEarly t s

  pub Upserted-IsAlive :
      (t now : ℕ) (p : BeaconPayload) (b b' : Bucket)
      → t ≤ now
      → Upserted bolt now p b b'
      → IsAlive p.mac_address t b'
  Upserted-IsAlive t now p b b' le u =
      let fresh = next_record_fresh p now (get b p.mac_address) in
      record {
        host = clean (next_record p now (get b p.mac_address));
        found = u.here p.mac_address ∙ rw (text_eq_refl p.mac_address) refl;
        active = fresh.0;
        recent = let at = fresh.1 in rw at le;
        encodable = next_record-is_encodable p now (get b p.mac_address) u.encodable;
      }

  pub beacon-IsAlive :
      (k : Text) (t now : ℕ) (io : Bool) (p : BeaconPayload) (b : Bucket)
      → t ≤ now
      → IsAlive k t b
      → IsAlive k t (upsert bolt io now p b).0
  beacon-IsAlive k t now io p b le h = elim (Result-cases (upsert bolt io now p b).1) [
    | inl done ↦
        let u = upsert-Upserted bolt io now p b done in
        elim (Bool-cases (text_eq k p.mac_address)) [
          | inl same ↦
              rw ((text_eq_iff k p.mac_address).0 same)
                (Upserted-IsAlive t now p b (upsert bolt io now p b).0 le u)
          | inr other ↦ record {
            host = h.host;
            found = u.here k ∙ rw other h.found;
            active = h.active;
            recent = h.recent;
            encodable = h.encodable;
          }
        ]
    | inr (e, failed) ↦ rw (upsert_err bolt io now p b failed) h
  ]

  pub mark-IsAlive :
      (k : Text) (t now : ℕ) (io : Bool) (mac : Text) (b : Bucket)
      → IsAlive k t b
      → IsAlive k t (mark_key_pushed bolt io now mac b).0
  mark-IsAlive k t now io mac b h = elim (Result-cases (mark_key_pushed bolt io now mac b).1) [
    | inl done ↦
        let m = mark_key_pushed-Marked bolt io now mac b done in
        elim (Bool-cases (text_eq k mac)) [
          | inl same ↦
              let at_key : get b k ≡ some (json m.known) =
                rw ((text_eq_iff k mac).0 same) m.found in
              let known : m.known ≡ h.host = ap (record_or h.host) (sym at_key ∙ h.found) in
              record {
                host = clean (pushed now m.known);
                found = m.here k ∙ rw same refl;
                active = ap (λ r. r.active) known ∙ h.active;
                recent = rw known h.recent;
                encodable = clean-is_encodable (pushed now m.known) ∙ m.encodable;
              }
          | inr other ↦ record {
            host = h.host;
            found = m.here k ∙ rw other h.found;
            active = h.active;
            recent = h.recent;
            encodable = h.encodable;
          }
        ]
    | inr (e, failed) ↦ rw (mark_key_pushed_err bolt io now mac b failed) h
  ]

  early_expired :
      (t d now : ℕ) (r : HostRecord)
      → now ≤ t + d
      → t ≤ r.last_seen
      → expired (cutoff_at now (pos d)) r ≡ r
  early_expired t d now r early recent = ground arith

  pub expire-IsAlive :
      (k : Text) (t d now : ℕ) (io : Bool) (b : Bucket)
      → now ≤ t + d
      → IsAlive k t b
      → IsAlive k t (expire_stale_hosts bolt io now (pos d) b).0
  expire-IsAlive k t d now io b early h =
      elim (Result-cases (expire_stale_hosts bolt io now (pos d) b).1) [
        | inl done ↦
            let cutoff = cutoff_at now (pos d) in
            record {
              host = h.host;
              found =
                  get-expire bolt io now (pos d) b k done
                  ∙ ap (Option.map (expire_value cutoff)) h.found
                  ∙ ap some (expire_value-json cutoff h.host h.encodable)
                  ∙ ap (λ r. some (json r)) (early_expired t d now h.host early h.recent);
              active = h.active;
              recent = h.recent;
              encodable = h.encodable;
            }
        | inr (e, failed) ↦ rw (expire_err bolt io now (pos d) b failed) h
      ]

  abbrev AliveAt : Text → ℕ → World bolt → Type 0
  AliveAt k t w = (t ≤ w.clock) × IsAlive k t w.bucket

  Step-IsAlive :
      (k : Text) (t : ℕ) {u v : World bolt} (s : Step bolt u v)
      → IsEarly t s
      → AliveAt k t u
      → AliveAt k t v
  Step-IsAlive k t (beacon w io p) early h = (h.0, beacon-IsAlive k t w.clock io p w.bucket h.0 h.1)
  Step-IsAlive k t (mark w io mac) early h = (h.0, mark-IsAlive k t w.clock io mac w.bucket h.1)
  Step-IsAlive k t (expire w io (pos d)) early h =
      (h.0, expire-IsAlive k t d w.clock io w.bucket early h.1)
  Step-IsAlive k t (expire w io (negsuc d)) early h = absurd early
  Step-IsAlive k t (wait w n) early h = (omega (arith, h.0), h.1)

  Reach-IsAlive :
      (k : Text) (t : ℕ) {u v : World bolt} (r : Reach bolt u v)
      → AllEarly t r
      → AliveAt k t u
      → AliveAt k t v
  Reach-IsAlive k t here early h = h
  Reach-IsAlive k t (next r s) early h = Step-IsAlive k t s early.1 (Reach-IsAlive k t r early.0 h)

  -- After a beacon at `t` the host stays active through everything that happens, as long as every
  -- check comes before its threshold since `t` has passed.
  pub beaconing_host_active :
      (t : ℕ) (io : Bool) (p : BeaconPayload) (b : Bucket) {v : World bolt}
      → (upsert bolt io t p b).1 ≡ ok tt
      → (r : Reach bolt (record { clock = t; bucket = (upsert bolt io t p b).0 }) v) → AllEarly t r
      → IsAlive p.mac_address t v.bucket
  beaconing_host_active t io p b stored r early =
      let u = upsert-Upserted bolt io t p b stored in
      (Reach-IsAlive p.mac_address t r early
        (omega arith, Upserted-IsAlive t t p b (upsert bolt io t p b).0 (omega arith) u)).1
