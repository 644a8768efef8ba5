-- ===== src/Network/Traced.antt =====
-- Where the records come from: nothing reaches a store but what a holder of the secret has sent, at
-- about the time that it was sent.
use mathlib.Core.Option
use mathlib.Core.Option.{some-injective}
use lanmon.Prelude.{
  ℕ, ◌+◌, ◌*◌, ◌≤◌, ◌<◌, ◌≡◌, refl, sym, ap, ◌∙◌, Bool, true, List, ◌∷◌, Option, none, some, Text,
  Among, later, text_eq, text_eq_iff, if◌then◌else◌, arith, Bool-cases, inl, inr, Result-cases,
}
use lanmon.Go.Int.{ℤ, pos, negsuc}
use lanmon.Go.Utf8.{to_valid_idem}
use lanmon.Beacon.Payload.{BeaconPayload}
use lanmon.Store.Record.{HostRecord, Stored, json, broken, clean, clean_beacon, is_encodable}
use lanmon.Store.Bolt.{Bolt}
use lanmon.Store.Ops.{next_record, pushed, cutoff_at, mark_key_pushed, expire_stale_hosts}
use lanmon.Store.Upsert.{Upserted, mark_key_pushed-Marked, mark_key_pushed_err}
use lanmon.Store.Expiry.{expire_value, retired, retired-is_encodable, get-expire, expire_err}
use lanmon.Store.Invariant.{clean-is_encodable}
use lanmon.Store.History.{next_record_fresh, next_record-is_encodable}
use lanmon.Network.Lan.{second, unix_epoch}

-- A beacon with the stamp came to the store no earlier than 60 seconds before its stamp, and less than
-- `61 + lag` seconds behind it.
abbrev pub IsTimely : ℕ → ℤ → ℕ → Type 0
IsTimely lag (pos t) at =
    ((t + unix_epoch) * second ≤ at + 60 * second) × (at < (t + unix_epoch + 61 + lag) * second)
IsTimely lag (negsuc t) at = ⊥

-- The record under the key shows a beacon that was sent, for that key and in time.
pub record IsTraced (lag : ℕ) (log : List BeaconPayload) (k : Text) (r : HostRecord) : Type 0 where
  pub origin : BeaconPayload
  pub among : Among origin log
  pub shown : r.beacon ≡ clean_beacon origin
  pub keyed : origin.mac_address ≡ k
  pub in_time : IsTimely lag origin.timestamp r.last_seen
  pub encodable : is_encodable r ≡ true

abbrev pub IsTracedText : ℕ → List BeaconPayload → Text → Stored → Type 0
IsTracedText lag log k (json r) = IsTraced lag log k r
IsTracedText lag log k (broken r) = ⊥

pub clean_beacon_idem : (p : BeaconPayload) → clean_beacon (clean_beacon p) ≡ clean_beacon p
clean_beacon_idem p = simp to_valid_idem

next_record-beacon :
    (p : BeaconPayload) (at : ℕ) (o : Option Stored) → (next_record p at o).beacon ≡ p
next_record-beacon p at none = refl
next_record-beacon p at (some s) = refl

-- A record that is written again with the same beacon and time.
IsTraced-clean :
    (lag : ℕ) (log : List BeaconPayload) (k : Text) (r s : HostRecord)
    → IsTraced lag log k r
    → s.beacon ≡ r.beacon
    → s.last_seen ≡ r.last_seen
    → is_encodable s ≡ true
    → IsTraced lag log k (clean s)
IsTraced-clean lag log k r s h beacon seen enc = record {
  origin = h.origin;
  among = h.among;
  shown = ap clean_beacon (beacon ∙ h.shown) ∙ clean_beacon_idem h.origin;
  keyed = h.keyed;
  in_time = rw seen h.in_time;
  encodable = clean-is_encodable s ∙ enc;
}

IsTraced-later :
    (lag : ℕ) (log : List BeaconPayload) (p : BeaconPayload) (k : Text) (r : HostRecord)
    → IsTraced lag log k r
    → IsTraced lag (p ∷ log) k r
IsTraced-later lag log p k r h = record {
  origin = h.origin;
  among = later h.among;
  shown = h.shown;
  keyed = h.keyed;
  in_time = h.in_time;
  encodable = h.encodable;
}

expire_value-IsTracedText :
    (lag : ℕ) (log : List BeaconPayload) (cutoff : ℕ) (k : Text) (s : Stored)
    → IsTracedText lag log k s
    → IsTracedText lag log k (expire_value cutoff s)
unfolding expire_value
expire_value-IsTracedText lag log cutoff k (broken r) h = h
expire_value-IsTracedText lag log cutoff k (json r) h =
    ground (
      arith,
      IsTraced-clean lag log k r (retired r) h refl refl,
      retired-is_encodable r,
      h.encodable,
    )

module _ (bolt : Bolt) (lag : ℕ) where
  open bolt use {Bucket, get}

  -- Every text of the bucket is traced.
  pub record AllTraced (log : List BeaconPayload) (b : Bucket) : Type 0 where
    pub at : (k : Text) (s : Stored) → get b k ≡ some s → IsTracedText lag log k s

  pub AllTraced-later :
      (log : List BeaconPayload) (p : BeaconPayload) (b : Bucket)
      → AllTraced log b
      → AllTraced (p ∷ log) b
  AllTraced-later log p b h = record { at = λ k s found. moved k s (h.at k s found) }
    where
      moved : (k : Text) (s : Stored) → IsTracedText lag log k s → IsTracedText lag (p ∷ log) k s
      moved k (json r) t = IsTraced-later lag log p k r t
      moved k (broken r) t = t

  -- A write of a traced record keeps the bucket traced.
  written_AllTraced :
      (log : List BeaconPayload) (key : Text) (r : HostRecord) (b b' : Bucket)
      → AllTraced log b
      → IsTraced lag log key r
      → ((j : Text) → get b' j ≡ (if text_eq j key then some (json r) else get b j))
      → AllTraced log b'
  written_AllTraced log key r b b' h traced only = record {
    at = λ k s found. elim (Bool-cases (text_eq k key)) [
      | inl same ↦
          let there = some-injective (json r) s (rw (only k, same) at found) in
          rw (← there, (text_eq_iff k key).0 same) traced
      | inr other ↦ h.at k s (rw (only k, other) at found)
    ];
  }

  pub Upserted-AllTraced :
      (log : List BeaconPayload) (at : ℕ) (p : BeaconPayload) (b b' : Bucket)
      → Among p log
      → IsTimely lag p.timestamp at
      → Upserted bolt at p b b'
      → AllTraced log b
      → AllTraced log b'
  Upserted-AllTraced log at p b b' sent timely u h =
      let r = next_record p at (get b p.mac_address) in
      written_AllTraced log p.mac_address (clean r) b b' h
        (record {
          origin = p;
          among = sent;
          shown = ap clean_beacon (next_record-beacon p at (get b p.mac_address));
          keyed = refl;
          in_time = rw (next_record_fresh p at (get b p.mac_address)).1 timely;
          encodable = next_record-is_encodable p at (get b p.mac_address) u.encodable;
        })
        u.here

  pub mark-AllTraced :
      (log : List BeaconPayload) (io : Bool) (now : ℕ) (mac : Text) (b : Bucket)
      → AllTraced log b
      → AllTraced log (mark_key_pushed bolt io now mac b).0
  mark-AllTraced log io now mac b h = elim (Result-cases (mark_key_pushed bolt io now mac b).1) [
    | inl done ↦
        let m = mark_key_pushed-Marked bolt io now mac b done in
        written_AllTraced log mac (clean (pushed now m.known)) b _ h
          (IsTraced-clean lag log mac m.known (pushed now m.known) (h.at mac (json m.known) m.found)
            refl refl m.encodable)
          m.here
    | inr (e, failed) ↦ rw (mark_key_pushed_err bolt io now mac b failed) h
  ]

  expired_at :
      (log : List BeaconPayload) (cutoff : ℕ) (k : Text) (o : Option Stored) (s : Stored)
      → ((t : Stored) → o ≡ some t → IsTracedText lag log k t)
      → Option.map (expire_value cutoff) o ≡ some s
      → IsTracedText lag log k s
  expired_at log cutoff k none s h e = cc
  expired_at log cutoff k (some t) s h e =
      rw (← some-injective (expire_value cutoff t) s e)
        (expire_value-IsTracedText lag log cutoff k t (h t refl))

  pub expire-AllTraced :
      (log : List BeaconPayload) (io : Bool) (now : ℕ) (threshold : ℤ) (b : Bucket)
      → AllTraced log b
      → AllTraced log (expire_stale_hosts bolt io now threshold b).0
  expire-AllTraced log io now threshold b h =
      elim (Result-cases (expire_stale_hosts bolt io now threshold b).1) [
        | inl done ↦ record {
          at = λ k s e.
              expired_at log (cutoff_at now threshold) k (get b k) s (h.at k)
                (sym (get-expire bolt io now threshold b k done) ∙ e);
        }
        | inr (e, failed) ↦ rw (expire_err bolt io now threshold b failed) h
      ]
