-- ===== src/Store/Commute.antt =====
-- The order in which the handlers of two hosts come to the store makes no difference.
use lanmon.Prelude.{
  ℕ, ◌≡◌, ◌≢◌, refl, sym, ◌∙◌, true, false, Option, some, Text, text_eq, text_eq_iff, if◌then◌else◌,
  arith, ok,
}
use lanmon.Prelude.Assoc.{assoc_ext}
use lanmon.Beacon.Payload.{BeaconPayload}
use lanmon.Store.Record.{Stored, json, clean}
use lanmon.Store.Bolt.{Bolt}
use lanmon.Store.Ops.{next_record, upsert}
use lanmon.Store.Upsert.{Upserted, upsert-Upserted, IsStorable, upsert-IsStorable}

module _ (bolt : Bolt) where
  open bolt use {Bucket, entries, get, sorted, get-entries}

  -- Two buckets that answer every `Get` alike hold the same pairs in the same order.
  pub entries_ext : (b c : Bucket) → ((k : Text) → get b k ≡ get c k) → entries b ≡ entries c
  entries_ext b c same =
      assoc_ext (entries b) (entries c) (sorted b) (sorted c)
        (λ k. sym (get-entries b k) ∙ same k ∙ get-entries c k)

  swapped_writes :
      (k i j : Text) (s t o : Option Stored)
      → i ≢ j
      → (if text_eq k j then t else if text_eq k i then s else o)
        ≡ (if text_eq k i then s else if text_eq k j then t else o)
  swapped_writes k i j s t o other = ground (arith, text_eq_iff k i, text_eq_iff k j)

  -- An upsert leaves the entry of another host.
  untouched :
      (p q : BeaconPayload) (at : ℕ) (b b' : Bucket)
      → p.mac_address ≢ q.mac_address
      → Upserted bolt at p b b'
      → get b' q.mac_address ≡ get b q.mac_address
  untouched p q at b b' other u =
      let foreign : text_eq q.mac_address p.mac_address ≡ false =
        ground (arith, text_eq_iff q.mac_address p.mac_address) in
      u.here q.mac_address ∙ rw foreign refl

  pub still_IsStorable :
      (p q : BeaconPayload) (at at' : ℕ) (b b' : Bucket)
      → p.mac_address ≢ q.mac_address
      → Upserted bolt at p b b'
      → IsStorable bolt at' q b
      → IsStorable bolt at' q b'
  still_IsStorable p q at at' b b' other u can =
      let same = untouched p q at b b' other u in
      record {
        encodable = rw same can.encodable;
        named = can.named;
        short = can.short;
        small = rw same can.small;
      }

  -- What is found under a key behind two upserts.
  twice :
      (p q : BeaconPayload) (at at' : ℕ) (b c d : Bucket) (k : Text)
      → p.mac_address ≢ q.mac_address
      → Upserted bolt at p b c
      → Upserted bolt at' q c d
      → get d k ≡ (
          if text_eq k q.mac_address
          then some (json (clean (next_record q at' (get b q.mac_address))))
          else if text_eq k p.mac_address
          then some (json (clean (next_record p at (get b p.mac_address))))
          else get b k)
  twice p q at at' b c d k other u v = v.here k ∙ rw (untouched p q at b c other u, u.here k) refl

  -- Where BoltDB works and takes the records of two hosts, their beacons can be stored in either
  -- order, and the bucket holds the same pairs behind both.
  pub upsert-upsert :
      (p q : BeaconPayload) (at at' : ℕ) (b : Bucket)
      → p.mac_address ≢ q.mac_address
      → IsStorable bolt at p b
      → IsStorable bolt at' q b
      → ((upsert bolt true at' q (upsert bolt true at p b).0).1 ≡ ok tt)
        × ((upsert bolt true at p (upsert bolt true at' q b).0).1 ≡ ok tt)
        × (entries (upsert bolt true at' q (upsert bolt true at p b).0).0
            ≡ entries (upsert bolt true at p (upsert bolt true at' q b).0).0)
  upsert-upsert p q at at' b other can_p can_q =
      let c = (upsert bolt true at p b).0 in
      let d = (upsert bolt true at' q b).0 in
      let other' : q.mac_address ≢ p.mac_address = λ e. other (sym e) in
      let u = upsert-Upserted bolt true at p b (upsert-IsStorable bolt at p b can_p) in
      let v = upsert-Upserted bolt true at' q b (upsert-IsStorable bolt at' q b can_q) in
      let first = upsert-IsStorable bolt at' q c (still_IsStorable p q at at' b c other u can_q) in
      let second = upsert-IsStorable bolt at p d (still_IsStorable q p at' at b d other' v can_p) in
      (
        first,
        second,
        entries_ext (upsert bolt true at' q c).0 (upsert bolt true at p d).0 (λ k.
            twice p q at at' b c (upsert bolt true at' q c).0 k other u
              (upsert-Upserted bolt true at' q c first)
            ∙ swapped_writes k p.mac_address q.mac_address _ _ _ other
            ∙ sym (
                twice q p at' at b d (upsert bolt true at p d).0 k other' v
                  (upsert-Upserted bolt true at p d second))),
      )
