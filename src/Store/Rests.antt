-- ===== src/Store/Rests.antt =====
-- A host of which no beacon comes: what every other step leaves of it.
use mathlib.Core.Option
use mathlib.Core.Path.{subst}
use lanmon.Prelude.{
  ℕ, ◌≡◌, ◌≢◌, refl, sym, ap, ◌∙◌, Bool, true, false, Option, none, some, Text, text_eq,
  text_eq_iff, if◌then◌else◌, arith, Bool-cases, inl, inr, Result-cases, ok,
}
use lanmon.Go.Int.{ℤ}
use lanmon.Beacon.Payload.{BeaconPayload}
use lanmon.Store.Record.{HostRecord, Stored, json, broken, clean, is_encodable}
use lanmon.Store.Bolt.{Bolt}
use lanmon.Store.Ops.{next_record, pushed, cutoff_at, upsert, mark_key_pushed, expire_stale_hosts}
use lanmon.Store.Upsert.{upsert-Upserted, upsert_err, mark_key_pushed-Marked, mark_key_pushed_err}
use lanmon.Store.Expiry.{expire_value, is_stale, get-expire, expire_err}
use lanmon.Store.Invariant.{
  World, Step, beacon, mark, expire, wait, Reach, here, next, clean-is_encodable,
}
use lanmon.Store.History.{expired, expire_value-json, expired-last_seen, expired-is_encodable}

abbrev pub record_or : HostRecord → Option Stored → HostRecord
record_or r none = r
record_or r (some (broken s)) = r
record_or r (some (json s)) = s

expired_active :
    (Q : Bool → Type 0) (cutoff : ℕ) (r : HostRecord)
    → Q false
    → Q r.active
    → Q (expired cutoff r).active
expired_active Q cutoff r gone on = elim (Bool-cases (is_stale cutoff r)) [
  | inl stale ↦ rw stale gone
  | inr fresh ↦ rw fresh on
]

module _ (bolt : Bolt) where
  open bolt use {Bucket, get}

  -- The host under the key, last seen at `seen`, with a Boolean that satisfies `Q`.
  pub record Rests (k : Text) (seen : ℕ) (Q : Bool → Type 0) (b : Bucket) : Type 0 where
    pub host : HostRecord
    pub found : get b k ≡ some (json host)
    pub seen_at : host.last_seen ≡ seen
    pub encodable : is_encodable host ≡ true
    pub active : Q host.active

  -- The step is no beacon of the host.
  abbrev pub IsQuiet : Text → {u v : World bolt} → Step bolt u v → Type 0
  IsQuiet k (beacon w io p) = p.mac_address ≢ k
  IsQuiet k (mark w io mac) = Unit
  IsQuiet k (expire w io threshold) = Unit
  IsQuiet k (wait w n) = Unit

  abbrev pub AllQuiet : Text → {u v : World bolt} → Reach bolt u v → Type 0
  AllQuiet k here = Unit
  AllQuiet k (next r s) = AllQuiet k r × IsQuiet k s

  -- A write under another key.
  Rests-other :
      (k key : Text) (seen : ℕ) (Q : Bool → Type 0) (s : Stored) (b b' : Bucket)
      → text_eq k key ≡ false
      → get b' k ≡ (if text_eq k key then some s else get b k)
      → Rests k seen Q b
      → Rests k seen Q b'
  Rests-other k key seen Q s b b' other at h = record {
    host = h.host;
    found = at ∙ rw other h.found;
    seen_at = h.seen_at;
    encodable = h.encodable;
    active = h.active;
  }

  beacon-Rests :
      (k : Text) (seen : ℕ) (Q : Bool → Type 0) (io : Bool) (now : ℕ) (p : BeaconPayload)
      (b : Bucket)
      → p.mac_address ≢ k
      → Rests k seen Q b
      → Rests k seen Q (upsert bolt io now p b).0
  beacon-Rests k seen Q io now p b other h = elim (Result-cases (upsert bolt io now p b).1) [
    | inl done ↦
        Rests-other k p.mac_address seen Q (json (clean (next_record p now (get b p.mac_address))))
          b (upsert bolt io now p b).0 (ground (arith, text_eq_iff k p.mac_address))
          ((upsert-Upserted bolt io now p b done).here k) h
    | inr (e, failed) ↦ rw (upsert_err bolt io now p b failed) h
  ]

  mark-Rests :
      (k : Text) (seen : ℕ) (Q : Bool → Type 0) (io : Bool) (now : ℕ) (mac : Text) (b : Bucket)
      → Rests k seen Q b
      → Rests k seen Q (mark_key_pushed bolt io now mac b).0
  mark-Rests k seen Q io now mac b h = elim (Result-cases (mark_key_pushed bolt io now mac b).1) [
    | inl done ↦
        let m = mark_key_pushed-Marked bolt io now mac b done in
        elim (Bool-cases (text_eq k mac)) [
          | inl same ↦
              let at_key : get b k ≡ some (json m.known) =
                rw ((text_eq_iff k mac).0 same) m.found in
              let known : m.known ≡ h.host = ap (record_or h.host) (sym at_key ∙ h.found) in
              record {
                host = clean (pushed now m.known);
                found = m.here k ∙ rw same refl;
                seen_at = ap (λ r. r.last_seen) known ∙ h.seen_at;
                encodable = clean-is_encodable (pushed now m.known) ∙ m.encodable;
                active = subst Q (ap (λ r. r.active) (sym known)) h.active;
              }
          | inr other ↦
              Rests-other k mac seen Q (json (clean (pushed now m.known))) b
                (mark_key_pushed bolt io now mac b).0 other (m.here k) h
        ]
    | inr (e, failed) ↦ rw (mark_key_pushed_err bolt io now mac b failed) h
  ]

  -- What a check that succeeds leaves of the host.
  pub checked_Rests :
      (k : Text) (seen : ℕ) (P Q : Bool → Type 0) (io : Bool) (now : ℕ) (threshold : ℤ) (b : Bucket)
      → (expire_stale_hosts bolt io now threshold b).1 ≡ ok tt
      → (h : Rests k seen P b) → Q (expired (cutoff_at now threshold) h.host).active
      → Rests k seen Q (expire_stale_hosts bolt io now threshold b).0
  checked_Rests k seen P Q io now threshold b done h on =
      let cutoff = cutoff_at now threshold in
      record {
        host = expired cutoff h.host;
        found =
            get-expire bolt io now threshold b k done
            ∙ ap (Option.map (expire_value cutoff)) h.found
            ∙ ap some (expire_value-json cutoff h.host h.encodable);
        seen_at = expired-last_seen cutoff h.host ∙ h.seen_at;
        encodable = expired-is_encodable cutoff h.host h.encodable;
        active = on;
      }

  pub expire-Rests :
      (k : Text) (seen : ℕ) (Q : Bool → Type 0) (io : Bool) (now : ℕ) (threshold : ℤ) (b : Bucket)
      → Q false
      → Rests k seen Q b
      → Rests k seen Q (expire_stale_hosts bolt io now threshold b).0
  expire-Rests k seen Q io now threshold b gone h =
      elim (Result-cases (expire_stale_hosts bolt io now threshold b).1) [
        | inl done ↦
            checked_Rests k seen Q Q io now threshold b done h
              (expired_active Q (cutoff_at now threshold) h.host gone h.active)
        | inr (e, failed) ↦ rw (expire_err bolt io now threshold b failed) h
      ]

  -- Nothing but its own beacons moves the time at which a host was last seen, or makes it active.
  Step-Rests :
      (k : Text) (seen : ℕ) (Q : Bool → Type 0) {u v : World bolt} (s : Step bolt u v)
      → Q false
      → IsQuiet k s
      → Rests k seen Q u.bucket
      → Rests k seen Q v.bucket
  Step-Rests k seen Q (beacon w io p) gone quiet h =
      beacon-Rests k seen Q io w.clock p w.bucket quiet h
  Step-Rests k seen Q (mark w io mac) gone quiet h = mark-Rests k seen Q io w.clock mac w.bucket h
  Step-Rests k seen Q (expire w io threshold) gone quiet h =
      expire-Rests k seen Q io w.clock threshold w.bucket gone h
  Step-Rests k seen Q (wait w n) gone quiet h = h

  pub Reach-Rests :
      (k : Text) (seen : ℕ) (Q : Bool → Type 0) {u v : World bolt} (r : Reach bolt u v)
      → Q false
      → AllQuiet k r
      → Rests k seen Q u.bucket
      → Rests k seen Q v.bucket
  Reach-Rests k seen Q here gone quiet h = h
  Reach-Rests k seen Q (next r s) gone quiet h =
      Step-Rests k seen Q s gone quiet.1 (Reach-Rests k seen Q r gone quiet.0 h)
