-- ===== src/Store/Excused.antt =====
-- A method of `Store` fails only for the reasons that the registry excuses.
use lanmon.Prelude.{
  ◌∙◌, Bool-cases, text_eq, text_eq_iff, text_eq_refl, if◌then◌else◌, ℕ, ◌≡◌, refl, Bool, true,
  false, List, [], ◌∷◌, Option, none, some, Text, Result, ok, err, ◌>>=◌, ◌⊎◌, arith, inl, inr,
}
use lanmon.Go.Int.{ℤ}
use lanmon.Beacon.Payload.{BeaconPayload}
use lanmon.Prelude.Assoc.{lookup, IsSorted, lookup-IsAbove}
use lanmon.Store.Record.{HostRecord, Stored, json, broken, clean, marshal, is_encodable}
use lanmon.Store.Bolt.{Bolt}
use lanmon.Store.Ops.{
  StoreError, database, marshaling, unmarshaling, put_refused, not_found, cutoff_at, update, write,
  next_record, pushed, mark_tx, expire_one, expire_loop, expire_tx, upsert, mark_key_pushed,
  expire_stale_hosts,
}
use lanmon.Store.Write.{write_fits}
use lanmon.Store.Upsert.{upsert_succeeds}
use lanmon.Store.Expiry.{retired}
use lanmon.Store.Invariant.{clean-is_encodable}
use lanmon.Store.Progress.{IsRewritable, AllRewritable, expire_succeeds}
use lanmon.Store.Changes.{IsHeard, IsMarked, IsRetired, Takes}
use lanmon.Store.Described.{next_record-IsHeard, pushed-IsMarked, retired-IsRetired}
use lanmon.Store.Registry.{upserting, marking, expiring, Excuses}

module _ (bolt : Bolt) where
  open bolt use {Bucket, entries, get, get-entries, sorted, fits}

  not_marshalled :
      (at : ℕ) (p : BeaconPayload) (b : Bucket)
      → is_encodable (next_record p at (get b p.mac_address)) ≡ false
      → ¬ ((upsert bolt true at p b).1 ≡ err put_refused)
  unfolding upsert marshal
  not_marshalled at p b odd h = ground arith

  upsert_refused :
      (at : ℕ) (p : BeaconPayload) (b : Bucket)
      → (upsert bolt true at p b).1 ≡ err put_refused
      → ¬ Takes fits p.mac_address (IsHeard at p (get b p.mac_address))
  upsert_refused at p b h (named, short, small) =
      let r = next_record p at (get b p.mac_address) in
      elim (Bool-cases (is_encodable r)) [
        | inl fine ↦
            let done =
              upsert_succeeds bolt at p b fine named short
                (small (clean r) (next_record-IsHeard at p (get b p.mac_address))) in
            absurd (cc (h, done))
        | inr odd ↦ not_marshalled at p b odd h
      ]

  pub upsert-Excuses :
      (io : Bool) (at : ℕ) (p : BeaconPayload) (b : Bucket) (e : StoreError)
      → (upsert bolt io at p b).1 ≡ err e
      → Excuses fits (upserting io at p) (get b) e
  unfolding upsert marshal
  upsert-Excuses io at p b database h = ground arith
  upsert-Excuses io at p b marshaling h =
      let r = next_record p at (get b p.mac_address) in
      (clean r, next_record-IsHeard at p (get b p.mac_address), clean-is_encodable r ∙ ground arith)
  upsert-Excuses true at p b put_refused h = upsert_refused at p b h
  upsert-Excuses false at p b put_refused h = absurd cc
  upsert-Excuses io at p b unmarshaling h = ground arith
  upsert-Excuses io at p b (not_found j) h = ground arith

  -- An update fails with its body, or because BoltDB does.
  update_fails :
      (io : Bool) (f : Bucket → Result StoreError Bucket) (b : Bucket) (e : StoreError)
      → (update bolt io f b).1 ≡ err e
      → ((io ≡ false) × (e ≡ database)) ⊎ (f b ≡ err e)
  unfolding update
  update_fails true f b e h = inr (ground arith)
  update_fails false f b e h = inl (refl, ground arith)

  mark_refused :
      (at : ℕ) (k : Text) (r : HostRecord) (b : Bucket)
      → write bolt k (pushed at r) b ≡ err put_refused
      → ¬ Takes fits k (IsMarked at r)
  unfolding write marshal
  mark_refused at k r b h (named, short, small) = elim (Bool-cases (is_encodable (pushed at r))) [
    | inl fine ↦
        let (b', done) =
          write_fits bolt k (pushed at r) b fine named short
            (small (clean (pushed at r)) (pushed-IsMarked at r)) in
        absurd (cc (h, done))
    | inr odd ↦ absurd (ground (arith, h, odd))
  ]

  mark_tx-Excuses :
      (io : Bool) (at : ℕ) (k : Text) (o : Option Stored) (b : Bucket) (e : StoreError)
      → get b k ≡ o
      → mark_tx bolt at k o b ≡ err e
      → Excuses fits (marking io at k) (get b) e
  unfolding write marshal
  mark_tx-Excuses io at k none b database there h = absurd cc
  mark_tx-Excuses io at k none b marshaling there h = absurd cc
  mark_tx-Excuses io at k none b unmarshaling there h = absurd cc
  mark_tx-Excuses io at k none b put_refused there h = absurd cc
  mark_tx-Excuses io at k none b (not_found j) there h = (ground arith, there)
  mark_tx-Excuses io at k (some (broken r)) b database there h = absurd cc
  mark_tx-Excuses io at k (some (broken r)) b marshaling there h = absurd cc
  mark_tx-Excuses io at k (some (broken r)) b unmarshaling there h = (r, there)
  mark_tx-Excuses io at k (some (broken r)) b put_refused there h = absurd cc
  mark_tx-Excuses io at k (some (broken r)) b (not_found j) there h = absurd cc
  mark_tx-Excuses io at k (some (json r)) b database there h = ground arith
  mark_tx-Excuses io at k (some (json r)) b marshaling there h = (
    r,
    there,
    (clean (pushed at r), pushed-IsMarked at r, clean-is_encodable (pushed at r) ∙ ground arith),
  )
  mark_tx-Excuses io at k (some (json r)) b unmarshaling there h = ground arith
  mark_tx-Excuses io at k (some (json r)) b put_refused there h =
      (r, there, mark_refused at k r b h)
  mark_tx-Excuses io at k (some (json r)) b (not_found j) there h = ground arith

  pub mark-Excuses :
      (io : Bool) (at : ℕ) (k : Text) (b : Bucket) (e : StoreError)
      → (mark_key_pushed bolt io at k b).1 ≡ err e
      → Excuses fits (marking io at k) (get b) e
  unfolding mark_key_pushed
  mark-Excuses io at k b e h = elim (update_fails io (λ c. mark_tx bolt at k (get c k) c) b e h) [
    | inl (off, same) ↦ rw same off
    | inr body ↦ mark_tx-Excuses io at k (get b k) b e refl body
  ]

  expire_one_fails :
      (cutoff : ℕ) (k : Text) (s : Stored) (b : Bucket) (e : StoreError)
      → expire_one bolt cutoff k s b ≡ err e
      → e ≡ put_refused
  unfolding expire_one
  expire_one_fails cutoff k (broken r) b e h = absurd cc
  expire_one_fails cutoff k (json r) b e h = ground arith

  expire_loop_fails :
      (cutoff : ℕ) (rest : List (Text × Stored)) (b : Bucket) (e : StoreError)
      → expire_loop bolt cutoff rest b ≡ err e
      → e ≡ put_refused
  unfolding expire_loop
  expire_loop_fails cutoff [] b e h = absurd cc
  expire_loop_fails cutoff ((k, s) ∷ rest) b e h =
      split (expire_one bolt cutoff k s b) (expire_one_fails cutoff k s b e)
        (λ c. expire_loop_fails cutoff rest c e) h
    where
      split :
          (r : Result StoreError Bucket)
          → (r ≡ err e → e ≡ put_refused)
          → ((c : Bucket) → expire_loop bolt cutoff rest c ≡ err e → e ≡ put_refused)
          → (r >>= expire_loop bolt cutoff rest) ≡ err e
          → e ≡ put_refused
      split (err f) one more h = one h
      split (ok c) one more h = more c h

  -- If BoltDB takes the retired record of every host, it takes all that a check can write.
  takes-AllRewritable :
      (m : List (Text × Stored))
      → IsSorted m
      → ((k : Text) (r : HostRecord) → lookup k m ≡ some (json r) → Takes fits k (IsRetired r))
      → AllRewritable bolt m
  unfolding lookup
  takes-AllRewritable [] s takes = tt
  takes-AllRewritable ((k, v) ∷ m) s takes =
      (first_one v (takes k), takes-AllRewritable m s.1 (λ j r found. takes j r (deeper j r found)))
    where
      first_one :
          (v : Stored)
          → ((r : HostRecord)
              → (if text_eq k k then some v else lookup k m) ≡ some (json r)
              → Takes fits k (IsRetired r))
          → IsRewritable bolt (k, v)
      first_one (broken r) takes_it = tt
      first_one (json r) takes_it =
          let (named, short, small) = takes_it r (rw (text_eq_refl k) refl) in
          (named, short, small (clean (retired r)) (retired-IsRetired r))

      deeper :
          (j : Text) (r : HostRecord)
          → lookup j m ≡ some (json r)
          → (if text_eq j k then some v else lookup j m) ≡ some (json r)
      deeper j r found = elim (Bool-cases (text_eq j k)) [
        | inr other ↦ rw other found
        | inl same ↦
            let above = lookup-IsAbove k m s.0 in
            let there = rw ((text_eq_iff j k).0 same) at found in absurd (cc (above, there))
      ]

  expire_refused :
      (now : ℕ) (threshold : ℤ) (b : Bucket)
      → (expire_stale_hosts bolt true now threshold b).1 ≡ err put_refused
      → ¬ ((k : Text) (r : HostRecord) → get b k ≡ some (json r) → Takes fits k (IsRetired r))
  expire_refused now threshold b h takes =
      let all =
        takes-AllRewritable (entries b) (sorted b)
          (λ k r found. takes k r (get-entries b k ∙ found)) in
      let done = expire_succeeds bolt now threshold b all in absurd (cc (h, done))

  offline :
      (now : ℕ) (threshold : ℤ) (b : Bucket)
      → ¬ ((expire_stale_hosts bolt false now threshold b).1 ≡ err put_refused)
  unfolding expire_stale_hosts update
  offline now threshold b h = absurd cc

  pub expire-Excuses :
      (io : Bool) (now : ℕ) (threshold : ℤ) (b : Bucket) (e : StoreError)
      → (expire_stale_hosts bolt io now threshold b).1 ≡ err e
      → Excuses fits (expiring io now threshold) (get b) e
  expire-Excuses true now threshold b e h =
      elim (update_fails true (expire_tx bolt (cutoff_at now threshold)) b e
        (unfold expire_stale_hosts in h)) [
          | inl (off, same) ↦ absurd cc
          | inr body ↦
              let refused = expire_loop_fails (cutoff_at now threshold) (entries b) b e body in
              rw refused (expire_refused now threshold b (rw refused at h))
        ]
  expire-Excuses false now threshold b e h =
      elim (update_fails false (expire_tx bolt (cutoff_at now threshold)) b e
        (unfold expire_stale_hosts in h)) [
          | inl (off, same) ↦ rw same refl
          | inr body ↦
              let refused = expire_loop_fails (cutoff_at now threshold) (entries b) b e body in
              absurd (offline now threshold b (rw refused at h))
        ]
