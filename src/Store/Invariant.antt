-- ===== src/Store/Invariant.antt =====
-- What holds of every record, in every state that the methods of `Store` can reach.
use mathlib.Core.Option
use mathlib.Core.Option.{some-injective}
use mathlib.Core.Path.{subst}
use lanmon.Prelude.{
  ℕ, ◌+◌, ◌<◌, ◌≤◌, ◌≡◌, refl, Bool, true, false, Option, none, some, Text, if◌then◌else◌, text_eq,
  text_eq_iff, arith, sym, ap, ◌∙◌, Bool-cases, inl, inr, Result-cases,
}
use lanmon.Go.Int.{ℤ, word}
use lanmon.Go.Utf8.{to_valid, to_valid_idem}
use lanmon.Beacon.Payload.{BeaconPayload}
use lanmon.Store.Record.{HostRecord, Stored, json, broken, clean, is_encodable, filled}
use lanmon.Store.Bolt.{Bolt}
use lanmon.Store.Ops.{next_record, pushed, cutoff_at, upsert, mark_key_pushed, expire_stale_hosts}
use lanmon.Store.Upsert.{upsert-Upserted, upsert_err, mark_key_pushed-Marked, mark_key_pushed_err}
use lanmon.Store.Expiry.{expire_value, retired, retired-is_encodable, get-expire, expire_err}

abbrev pub is_set {ℓ} : {A : Type ℓ} → Option A → Bool
is_set none = false
is_set (some a) = true

-- A record at clock `now`: seen in order and not in the future, counted in a uint64, and with the
-- time of a key push exactly where the push is recorded.
pub record IsSound (now : ℕ) (r : HostRecord) : Type 0 where
  pub first_le_last : r.first_seen ≤ r.last_seen
  pub last_le_now : r.last_seen ≤ now
  pub counted : r.packet_count < word
  pub dated : is_set r.ssh_key_pushed_at ≡ r.ssh_key_pushed

-- A text that decodes is also encodable again, and names its key.
abbrev pub IsSoundAt : ℕ → Text → Stored → Type 0
IsSoundAt now k (json r) =
    IsSound now r × (is_encodable r ≡ true) × (r.beacon.mac_address ≡ to_valid k)
IsSoundAt now k (broken r) = IsSound now r

IsSoundAt-filled : (now : ℕ) (k : Text) (s : Stored) → IsSoundAt now k s → IsSound now (filled s)
IsSoundAt-filled now k (json r) h = h.0
IsSoundAt-filled now k (broken r) h = h

IsSoundAt-later :
    (now later : ℕ) (k : Text) (s : Stored) → now ≤ later → IsSoundAt now k s → IsSoundAt later k s
IsSoundAt-later now later k (json r) le h = ground arith
IsSoundAt-later now later k (broken r) le h = ground arith

pub clean-is_encodable : (r : HostRecord) → is_encodable (clean r) ≡ is_encodable r
unfolding is_encodable
clean-is_encodable r = refl

clean-IsSound : (now : ℕ) (r : HostRecord) → IsSound now r → IsSound now (clean r)
clean-IsSound now r h = record {
  first_le_last = h.first_le_last;
  last_le_now = h.last_le_now;
  counted = h.counted;
  dated = h.dated;
}

next_record-IsSound :
    (now : ℕ) (p : BeaconPayload) (o : Option Stored) (k : Text)
    → ((s : Stored) → o ≡ some s → IsSoundAt now k s)
    → IsSound now (next_record p now o)
next_record-IsSound now p none k h = ground arith
next_record-IsSound now p (some s) k h = let f = IsSoundAt-filled now k s (h s refl) in ground arith

next_record-mac_address :
    (now : ℕ) (p : BeaconPayload) (o : Option Stored)
    → (next_record p now o).beacon.mac_address ≡ p.mac_address
next_record-mac_address now p none = refl
next_record-mac_address now p (some s) = refl

pushed-IsSound : (now : ℕ) (r : HostRecord) → IsSound now r → IsSound now (pushed now r)
pushed-IsSound now r h = ground arith

expire_value-IsSoundAt :
    (now cutoff : ℕ) (k : Text) (s : Stored)
    → IsSoundAt now k s
    → IsSoundAt now k (expire_value cutoff s)
unfolding expire_value
expire_value-IsSoundAt now cutoff k (broken r) h = h
expire_value-IsSoundAt now cutoff k (json r) h =
    ground (arith, clean-is_encodable (retired r), retired-is_encodable r, to_valid_idem k)

module _ (bolt : Bolt) where
  open bolt use {Bucket, get}

  pub record IsWellFormed (now : ℕ) (b : Bucket) : Type 0 where
    pub at : (k : Text) (s : Stored) → get b k ≡ some s → IsSoundAt now k s

  -- What is stored under a key that was written, or was there before.
  stored_at :
      (now : ℕ) (key k : Text) (r : HostRecord) (b b' : Bucket)
      → IsWellFormed now b
      → IsSound now r
      → is_encodable r ≡ true
      → to_valid r.beacon.mac_address ≡ to_valid key
      → ((j : Text) → get b' j ≡ (if text_eq j key then some (json (clean r)) else get b j))
      → (s : Stored) → get b' k ≡ some s
      → IsSoundAt now k s
  stored_at now key k r b b' h sound enc mac here s e = elim (Bool-cases (text_eq k key)) [
    | inl same ↦
        let same_key = (text_eq_iff k key).0 same in
        let there = some-injective (json (clean r)) s (rw (here k, same) at e) in
        let fine : IsSoundAt now k (json (clean r)) =
          (clean-IsSound now r sound, rw clean-is_encodable enc, rw same_key mac) in
        subst (IsSoundAt now k) there fine
    | inr other ↦ h.at k s (rw (here k, other) at e)
  ]

  pub upsert-IsWellFormed :
      (io : Bool) (now : ℕ) (p : BeaconPayload) (b : Bucket)
      → IsWellFormed now b
      → IsWellFormed now (upsert bolt io now p b).0
  upsert-IsWellFormed io now p b h = elim (Result-cases (upsert bolt io now p b).1) [
    | inl done ↦
        let u = upsert-Upserted bolt io now p b done in
        let r = next_record p now (get b p.mac_address) in
        let sound =
          next_record-IsSound now p (get b p.mac_address) p.mac_address (h.at p.mac_address) in
        let named = ap to_valid (next_record-mac_address now p (get b p.mac_address)) in
        record { at = λ k. stored_at now p.mac_address k r b _ h sound u.encodable named u.here }
    | inr (e, failed) ↦ rw (upsert_err bolt io now p b failed) h
  ]

  pub mark-IsWellFormed :
      (io : Bool) (now : ℕ) (mac : Text) (b : Bucket)
      → IsWellFormed now b
      → IsWellFormed now (mark_key_pushed bolt io now mac b).0
  mark-IsWellFormed io now mac b h = elim (Result-cases (mark_key_pushed bolt io now mac b).1) [
    | inl done ↦
        let m = mark_key_pushed-Marked bolt io now mac b done in
        let was = h.at mac (json m.known) m.found in
        let named = ap to_valid was.2 ∙ to_valid_idem mac in
        record {
          at = λ k.
              stored_at now mac k (pushed now m.known) b _ h (pushed-IsSound now m.known was.0)
                m.encodable named m.here;
        }
    | inr (e, failed) ↦ rw (mark_key_pushed_err bolt io now mac b failed) h
  ]

  expired_at :
      (now cutoff : ℕ) (k : Text) (o : Option Stored) (s : Stored)
      → ((t : Stored) → o ≡ some t → IsSoundAt now k t)
      → Option.map (expire_value cutoff) o ≡ some s
      → IsSoundAt now k s
  expired_at now cutoff k none s h e = cc
  expired_at now cutoff k (some t) s h e =
      subst (IsSoundAt now k) (some-injective (expire_value cutoff t) s e)
        (expire_value-IsSoundAt now cutoff k t (h t refl))

  expire-IsWellFormed :
      (io : Bool) (now : ℕ) (threshold : ℤ) (b : Bucket)
      → IsWellFormed now b
      → IsWellFormed now (expire_stale_hosts bolt io now threshold b).0
  expire-IsWellFormed io now threshold b h =
      elim (Result-cases (expire_stale_hosts bolt io now threshold b).1) [
        | inl done ↦ record {
          at = λ k s e.
              expired_at now (cutoff_at now threshold) k (get b k) s (h.at k)
                (sym (get-expire bolt io now threshold b k done) ∙ e);
        }
        | inr (e, failed) ↦ rw (expire_err bolt io now threshold b failed) h
      ]

  pub later-IsWellFormed :
      (now later : ℕ) (b : Bucket) → now ≤ later → IsWellFormed now b → IsWellFormed later b
  later-IsWellFormed now later b le h = record {
    at = λ k s e. IsSoundAt-later now later k s le (h.at k s e);
  }

  -- A clock and a bucket, moved by the methods and by time that passes. Each method may fail.
  pub record World : Type 0 where
    pub clock : ℕ
    pub bucket : Bucket

  pub data Step : World → World → Type 0 where
    beacon :
        (w : World) (io : Bool) (p : BeaconPayload)
        → Step w (record w { bucket = (upsert bolt io w.clock p w.bucket).0 })
    mark :
        (w : World) (io : Bool) (mac : Text)
        → Step w (record w { bucket = (mark_key_pushed bolt io w.clock mac w.bucket).0 })
    expire :
        (w : World) (io : Bool) (threshold : ℤ)
        → Step w (record w { bucket = (expire_stale_hosts bolt io w.clock threshold w.bucket).0 })
    wait : (w : World) (n : ℕ) → Step w (record w { clock = w.clock + n })

  pub data Reach (w : World) : World → Type 0 where
    here : Reach w w
    next : {u v : World} → Reach w u → Step u v → Reach w v

  Step-IsWellFormed :
      {u v : World} → Step u v → IsWellFormed u.clock u.bucket → IsWellFormed v.clock v.bucket
  Step-IsWellFormed (beacon w io p) h = upsert-IsWellFormed io w.clock p w.bucket h
  Step-IsWellFormed (mark w io mac) h = mark-IsWellFormed io w.clock mac w.bucket h
  Step-IsWellFormed (expire w io threshold) h = expire-IsWellFormed io w.clock threshold w.bucket h
  Step-IsWellFormed (wait w n) h = later-IsWellFormed w.clock (w.clock + n) w.bucket (omega arith) h

  -- Whatever the order of beacons, key pushes, expiry checks and waits, and whichever of them fail,
  -- a well-formed bucket stays well-formed.
  pub Reach-IsWellFormed :
      {u v : World} → Reach u v → IsWellFormed u.clock u.bucket → IsWellFormed v.clock v.bucket
  Reach-IsWellFormed here h = h
  Reach-IsWellFormed (next r s) h = Step-IsWellFormed s (Reach-IsWellFormed r h)
