-- ===== src/Store/Refines.antt =====
-- The methods of `Store` on a bucket do what the registry allows.
use mathlib.Core.Path.{subst}
use lanmon.Prelude.{sym, ℕ, ◌≡◌, refl, ap, Bool, true, false, List, [], ◌∷◌, Text, Result, ok, err}
use lanmon.Go.Int.{ℤ}
use lanmon.Beacon.Payload.{BeaconPayload}
use lanmon.Store.Record.{clean}
use lanmon.Store.Changes.{IsChecked}
use lanmon.Store.Described.{next_record-IsHeard, pushed-IsMarked, expire_value-IsChecked}
use lanmon.Store.Bolt.{Bolt}
use lanmon.Store.Ops.{
  StoreError, next_record, pushed, read_all, upsert, get_all, get_active, mark_key_pushed,
  expire_stale_hosts,
}
use lanmon.Store.Upsert.{upsert-Upserted, upsert_err, mark_key_pushed-Marked, mark_key_pushed_err}
use lanmon.Store.Expiry.{get-expire, expire_err}
use lanmon.Store.Registry.{
  Call, upserting, marking, expiring, listing, listing_active, written, listed, perform,
  perform_all, Meets, MeetsAll,
}
use lanmon.Store.Shown.{select_all, entries-Lists}
use lanmon.Store.Excused.{upsert-Excuses, mark-Excuses, expire-Excuses}

module _ (bolt : Bolt) where
  open bolt use {Bucket, entries, get, get-entries, sorted, fits}

  upsert-Meets :
      (io : Bool) (at : ℕ) (p : BeaconPayload) (b : Bucket) (r : Result StoreError (Unit {0}))
      → (upsert bolt io at p b).1 ≡ r
      → Meets fits (upserting io at p) (get b) (written r) (get (upsert bolt io at p b).0)
  upsert-Meets io at p b (ok tt) h = (
    clean (next_record p at (get b p.mac_address)),
    next_record-IsHeard at p (get b p.mac_address),
    (upsert-Upserted bolt io at p b h).here,
  )
  upsert-Meets io at p b (err e) h =
      (upsert-Excuses bolt io at p b e h, λ j. ap (λ c. get c j) (upsert_err bolt io at p b h))

  mark-Meets :
      (io : Bool) (at : ℕ) (k : Text) (b : Bucket) (r : Result StoreError (Unit {0}))
      → (mark_key_pushed bolt io at k b).1 ≡ r
      → Meets fits (marking io at k) (get b) (written r) (get (mark_key_pushed bolt io at k b).0)
  mark-Meets io at k b (ok tt) h =
      let m = mark_key_pushed-Marked bolt io at k b h in
      (m.known, m.found, (clean (pushed at m.known), pushed-IsMarked at m.known, m.here))
  mark-Meets io at k b (err e) h = (
    mark-Excuses bolt io at k b e h,
    λ j. ap (λ c. get c j) (mark_key_pushed_err bolt io at k b h),
  )

  expire-Meets :
      (io : Bool) (now : ℕ) (threshold : ℤ) (b : Bucket) (r : Result StoreError (Unit {0}))
      → (expire_stale_hosts bolt io now threshold b).1 ≡ r
      → Meets fits
          (expiring io now threshold)
          (get b)
          (written r)
          (get (expire_stale_hosts bolt io now threshold b).0)
  expire-Meets io now threshold b (ok tt) h = λ j.
      subst (IsChecked now threshold (get b j)) (sym (get-expire bolt io now threshold b j h))
        (expire_value-IsChecked now threshold (get b j))
  expire-Meets io now threshold b (err e) h = (
    expire-Excuses bolt io now threshold b e h,
    λ j. ap (λ c. get c j) (expire_err bolt io now threshold b h),
  )

  list-Meets :
      (io : Bool) (b : Bucket)
      → Meets fits (listing io) (get b) (listed (get_all bolt io b)) (get b)
  unfolding get_all
  list-Meets true b =
      (rw (← select_all (read_all (entries b))) (entries-Lists bolt (λ r. true) b), λ j. refl)
  list-Meets false b = (refl, λ j. refl)

  list_active-Meets :
      (io : Bool) (b : Bucket)
      → Meets fits (listing_active io) (get b) (listed (get_active bolt io b)) (get b)
  unfolding get_active
  list_active-Meets true b = (entries-Lists bolt (λ r. r.active) b, λ j. refl)
  list_active-Meets false b = (refl, λ j. refl)

  perform-Meets :
      (c : Call) (b : Bucket) → Meets fits c (get b) (perform bolt c b).1 (get (perform bolt c b).0)
  unfolding perform
  perform-Meets (upserting io at p) b = upsert-Meets io at p b (upsert bolt io at p b).1 refl
  perform-Meets (marking io at k) b = mark-Meets io at k b (mark_key_pushed bolt io at k b).1 refl
  perform-Meets (expiring io now threshold) b =
      expire-Meets io now threshold b (expire_stale_hosts bolt io now threshold b).1 refl
  perform-Meets (listing io) b = list-Meets io b
  perform-Meets (listing_active io) b = list_active-Meets io b

  -- Whatever methods are called, in any order and whichever fail, the answers and the changes of the
  -- bucket are those that the registry of its texts allows: a call that fails changes nothing, and
  -- BoltDB did not work, or it did not take a key or a text, or a record could not be marshalled or
  -- read, or the host was not there; a call that is done leaves the described record under the key of
  -- its host, or checks every host, and changes nothing else; and a listing has the hosts that are
  -- there, or active, once each and in the order of their keys.
  pub perform_all-MeetsAll :
      (cs : List Call) (b : Bucket)
      → MeetsAll fits cs (get b) (perform_all bolt cs b).1 (get (perform_all bolt cs b).0)
  unfolding perform_all
  perform_all-MeetsAll [] b = λ j. refl
  perform_all-MeetsAll (c ∷ cs) b =
      (get (perform bolt c b).0, perform-Meets c b, perform_all-MeetsAll cs (perform bolt c b).0)
