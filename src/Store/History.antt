-- ===== src/Store/History.antt =====
-- What the bucket never forgets of a host, and when exactly a host is marked inactive.
use mathlib.Core.Option
use mathlib.Core.Option.{some-injective}
use lanmon.Prelude.{
  ℕ, ◌+◌, ◌≡◌, refl, ap, ◌∙◌, Bool, true, false, not, Option, none, some, Text, ltb, if◌then◌else◌,
  text_eq, text_eq_iff, text_eq_refl, arith, inl, inr, Result-cases, ok,
}
use lanmon.Go.Int.{ℤ, pos}
use lanmon.Beacon.Payload.{BeaconPayload}
use lanmon.Store.Record.{HostRecord, Stored, json, broken, clean, is_encodable, filled}
use lanmon.Store.Bolt.{Bolt}
use lanmon.Store.Ops.{next_record, pushed, cutoff_at, upsert, mark_key_pushed, expire_stale_hosts}
use lanmon.Store.Upsert.{upsert-Upserted, upsert_err, mark_key_pushed-Marked, mark_key_pushed_err}
use lanmon.Store.Expiry.{
  expire_value, is_stale, retired, get-expire, expire_err, retired-is_encodable,
}
use lanmon.Store.Invariant.{
  World, Step, beacon, mark, expire, wait, Reach, here, next, clean-is_encodable,
}

abbrev pub first_seen_of : Option Stored → Option ℕ
first_seen_of none = none
first_seen_of (some s) = some (filled s).first_seen

abbrev pub key_pushed_of : Option Stored → Bool
key_pushed_of none = false
key_pushed_of (some s) = (filled s).ssh_key_pushed

-- `later` has what `earlier` had: the time of the first beacon, and the mark of a pushed key.
pub record Remembers (earlier later : Option Stored) : Type 0 where
  pub first_seen : (t : ℕ) → first_seen_of earlier ≡ some t → first_seen_of later ≡ some t
  pub key_pushed : key_pushed_of earlier ≡ true → key_pushed_of later ≡ true

Remembers-refl : (o : Option Stored) → Remembers o o
Remembers-refl o = record { first_seen = λ t h. h; key_pushed = λ h. h }

Remembers-trans : (a b c : Option Stored) → Remembers a b → Remembers b c → Remembers a c
Remembers-trans a b c f g = record {
  first_seen = λ t h. g.first_seen t (f.first_seen t h);
  key_pushed = λ h. g.key_pushed (f.key_pushed h);
}

next_record-Remembers :
    (p : BeaconPayload) (now : ℕ) (o : Option Stored)
    → Remembers o (some (json (clean (next_record p now o))))
next_record-Remembers p now none = record { first_seen = λ t h. cc; key_pushed = λ h. cc }
next_record-Remembers p now (some s) = record { first_seen = λ t h. h; key_pushed = λ h. h }

expire_value-Remembers :
    (cutoff : ℕ) (o : Option Stored) → Remembers o (Option.map (expire_value cutoff) o)
unfolding expire_value
expire_value-Remembers cutoff none = Remembers-refl none
expire_value-Remembers cutoff (some (broken r)) = Remembers-refl (some (broken r))
expire_value-Remembers cutoff (some (json r)) = record {
  first_seen = λ t h. ground arith;
  key_pushed = λ h. ground arith;
}

Remembers-if :
    (same : Bool) (new old : Option Stored)
    → (same ≡ true → Remembers old new)
    → Remembers old (if same then new else old)
Remembers-if true new old h = h refl
Remembers-if false new old h = Remembers-refl old

-- The record that a check leaves, where it can be marshalled.
abbrev pub expired : ℕ → HostRecord → HostRecord
expired cutoff r = if is_stale cutoff r then clean (retired r) else r

pub expire_value-json :
    (cutoff : ℕ) (r : HostRecord)
    → is_encodable r ≡ true
    → expire_value cutoff (json r) ≡ json (expired cutoff r)
unfolding expire_value
expire_value-json cutoff r h = ground (arith, retired-is_encodable r)

pub expired-last_seen : (cutoff : ℕ) (r : HostRecord) → (expired cutoff r).last_seen ≡ r.last_seen
expired-last_seen cutoff r = ground arith

pub expired-is_encodable :
    (cutoff : ℕ) (r : HostRecord) → is_encodable r ≡ true → is_encodable (expired cutoff r) ≡ true
expired-is_encodable cutoff r h =
    ground (arith, clean-is_encodable (retired r), retired-is_encodable r)

pub expired-active :
    (t d now : ℕ) (r : HostRecord)
    → r.active ≡ true
    → r.last_seen ≡ t
    → (expired (cutoff_at now (pos d)) r).active ≡ not (ltb (t + d) now)
expired-active t d now r a l = ground arith

pub next_record_fresh :
    (p : BeaconPayload) (t : ℕ) (o : Option Stored)
    → ((next_record p t o).active ≡ true) × ((next_record p t o).last_seen ≡ t)
next_record_fresh p t none = (refl, refl)
next_record_fresh p t (some s) = (refl, refl)

pub next_record-is_encodable :
    (p : BeaconPayload) (t : ℕ) (o : Option Stored)
    → is_encodable (next_record p t o) ≡ true
    → is_encodable (clean (next_record p t o)) ≡ true
unfolding is_encodable
next_record-is_encodable p t o h = h

module _ (bolt : Bolt) where
  open bolt use {Bucket, get}

  written_Remembers :
      (key k : Text) (s : Stored) (b b' : Bucket)
      → Remembers (get b key) (some s)
      → ((j : Text) → get b' j ≡ (if text_eq j key then some s else get b j))
      → Remembers (get b k) (get b' k)
  written_Remembers key k s b b' keeps only = rw (only k) (
      Remembers-if (text_eq k key) (some s) (get b k)
        (λ same. rw ((text_eq_iff k key).0 same) keeps))

  upsert-Remembers :
      (io : Bool) (now : ℕ) (p : BeaconPayload) (b : Bucket) (k : Text)
      → Remembers (get b k) (get (upsert bolt io now p b).0 k)
  upsert-Remembers io now p b k = elim (Result-cases (upsert bolt io now p b).1) [
    | inl done ↦
        written_Remembers p.mac_address k _ b _ (next_record-Remembers p now (get b p.mac_address))
          (upsert-Upserted bolt io now p b done).here
    | inr (e, failed) ↦ rw (upsert_err bolt io now p b failed) (Remembers-refl (get b k))
  ]

  pushed-Remembers :
      (now : ℕ) (r : HostRecord) → Remembers (some (json r)) (some (json (clean (pushed now r))))
  pushed-Remembers now r = record { first_seen = λ t h. h; key_pushed = λ h. refl }

  mark-Remembers :
      (io : Bool) (now : ℕ) (mac : Text) (b : Bucket) (k : Text)
      → Remembers (get b k) (get (mark_key_pushed bolt io now mac b).0 k)
  mark-Remembers io now mac b k = elim (Result-cases (mark_key_pushed bolt io now mac b).1) [
    | inl done ↦
        let m = mark_key_pushed-Marked bolt io now mac b done in
        written_Remembers mac k _ b _ (rw m.found (pushed-Remembers now m.known)) m.here
    | inr (e, failed) ↦ rw (mark_key_pushed_err bolt io now mac b failed) (Remembers-refl (get b k))
  ]

  expire-Remembers :
      (io : Bool) (now : ℕ) (threshold : ℤ) (b : Bucket) (k : Text)
      → Remembers (get b k) (get (expire_stale_hosts bolt io now threshold b).0 k)
  expire-Remembers io now threshold b k =
      elim (Result-cases (expire_stale_hosts bolt io now threshold b).1) [
        | inl done ↦
            rw (get-expire bolt io now threshold b k done)
              (expire_value-Remembers (cutoff_at now threshold) (get b k))
        | inr (e, failed) ↦
            rw (expire_err bolt io now threshold b failed) (Remembers-refl (get b k))
      ]

  Step-Remembers :
      {u v : World bolt} (k : Text) → Step bolt u v → Remembers (get u.bucket k) (get v.bucket k)
  Step-Remembers k (beacon w io p) = upsert-Remembers io w.clock p w.bucket k
  Step-Remembers k (mark w io mac) = mark-Remembers io w.clock mac w.bucket k
  Step-Remembers k (expire w io threshold) = expire-Remembers io w.clock threshold w.bucket k
  Step-Remembers k (wait w n) = Remembers-refl (get w.bucket k)

  -- No beacon, key push, expiry check or wait, in any order and whichever fail, changes the time at
  -- which a host was first seen, or takes back the mark that its key was pushed.
  pub Reach-Remembers :
      {u v : World bolt} (k : Text) → Reach bolt u v → Remembers (get u.bucket k) (get v.bucket k)
  Reach-Remembers {u} k here = Remembers-refl (get u.bucket k)
  Reach-Remembers {u} k (next {u = m} {v} r s) =
      Remembers-trans (get u.bucket k) (get m.bucket k) (get v.bucket k) (Reach-Remembers k r)
        (Step-Remembers k s)

  -- What an expiry check finds and leaves of a host after its last beacon.
  pub record IsActiveUntil (k : Text) (seen limit now : ℕ) (b : Bucket) : Type 0 where
    pub host : HostRecord
    pub found : get b k ≡ some (json host)
    pub seen_at : host.last_seen ≡ seen
    pub active_until : host.active ≡ not (ltb limit now)

  -- After a beacon at `t`, a check with threshold `d` at `now` leaves the host active exactly while
  -- `now` is at most `t + d`.
  pub upsert-expire :
      (io io' : Bool) (t now d : ℕ) (p : BeaconPayload) (b : Bucket)
      → (upsert bolt io t p b).1 ≡ ok tt
      → (expire_stale_hosts bolt io' now (pos d) (upsert bolt io t p b).0).1 ≡ ok tt
      → IsActiveUntil p.mac_address t
          (t + d)
          now
          (expire_stale_hosts bolt io' now (pos d) (upsert bolt io t p b).0).0
  upsert-expire io io' t now d p b h e =
      let u = upsert-Upserted bolt io t p b h in
      let r = clean (next_record p t (get b p.mac_address)) in
      let fresh = next_record_fresh p t (get b p.mac_address) in
      let there : get (upsert bolt io t p b).0 p.mac_address ≡ some (json r) =
        rw (u.here p.mac_address, text_eq_refl p.mac_address) refl in
      let kept = next_record-is_encodable p t (get b p.mac_address) u.encodable in
      record {
        host = expired (cutoff_at now (pos d)) r;
        found =
            get-expire bolt io' now (pos d) (upsert bolt io t p b).0 p.mac_address e
            ∙ ap (Option.map (expire_value (cutoff_at now (pos d)))) there
            ∙ ap some (expire_value-json (cutoff_at now (pos d)) r kept);
        seen_at = expired-last_seen (cutoff_at now (pos d)) r ∙ fresh.1;
        active_until = expired-active t d now r fresh.0 fresh.1;
      }
