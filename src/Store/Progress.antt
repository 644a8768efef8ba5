-- ===== src/Store/Progress.antt =====
-- An expiry check succeeds where BoltDB works, so the loop of the checks gets to every silent host.
use lanmon.Prelude.{
  ℕ, zero, suc, ◌+◌, ◌*◌, ◌<◌, ◌≤◌, ◌≡◌, refl, Bool, true, ◌&&◌, List, [], ◌∷◌, map, Text, length,
  arith, Bool-cases, inl, inr, ok,
}
use lanmon.Go.Int.{ℤ, pos}
use lanmon.Go.Utf8.{to_valid_idem}
use lanmon.Beacon.Payload.{BeaconPayload}
use lanmon.Store.Record.{Stored, json, broken, clean, clean_beacon, marshal, is_encodable}
use lanmon.Store.Bolt.{Bolt}
use lanmon.Store.Ops.{cutoff_at, expire_one, expire_loop, expire_stale_hosts, update}
use lanmon.Store.Expiry.{is_stale, retired, expire_value, expire_entry, expire-entries}
use lanmon.Store.Invariant.{World}
use lanmon.Store.Silence.{run_expiry, IsInactive, late_check}
use lanmon.Store.Rests.{Rests, expire-Rests}

clean_beacon_idem : (p : BeaconPayload) → clean_beacon (clean_beacon p) ≡ clean_beacon p
clean_beacon_idem p = simp to_valid_idem

module _ (bolt : Bolt) where
  open bolt use {Bucket, entries, put, fits, put_fits}

  -- BoltDB takes the text that a check can write at the entry.
  abbrev pub IsRewritable : Text × Stored → Type 0
  IsRewritable (k, broken r) = Unit
  IsRewritable (k, json r) =
      (0 < length k) × (length k ≤ 32768) × (fits (json (clean (retired r))) ≡ true)

  abbrev pub AllRewritable : List (Text × Stored) → Type 0
  AllRewritable [] = Unit
  AllRewritable (e ∷ m) = IsRewritable e × AllRewritable m

  expire_one-ok :
      (cutoff : ℕ) (k : Text) (s : Stored) (b : Bucket)
      → IsRewritable (k, s)
      → (b' : Bucket) × (expire_one bolt cutoff k s b ≡ ok b')
  unfolding expire_one marshal
  expire_one-ok cutoff k (broken r) b h = (b, refl)
  expire_one-ok cutoff k (json r) b h = elim (Bool-cases (is_stale cutoff r)) [
    | inr fresh ↦ (b, rw fresh refl)
    | inl stale ↦ elim (Bool-cases (is_encodable (retired r))) [
      | inr odd ↦ (b, rw (stale, odd) refl)
      | inl fine ↦
          let (b', stored) = put_fits k (json (clean (retired r))) b h.0 h.1 h.2 in
          (b', rw (stale, fine, stored) refl)
    ]
  ]

  expire_loop-ok :
      (cutoff : ℕ) (m : List (Text × Stored)) (b : Bucket)
      → AllRewritable m
      → (b' : Bucket) × (expire_loop bolt cutoff m b ≡ ok b')
  unfolding expire_loop
  expire_loop-ok cutoff [] b h = (b, refl)
  expire_loop-ok cutoff ((k, s) ∷ m) b h =
      let (c, one) = expire_one-ok cutoff k s b h.0 in
      let (b', rest) = expire_loop-ok cutoff m c h.1 in (b', rw one rest)

  -- Where BoltDB works and takes what a check can write, the check succeeds.
  pub expire_succeeds :
      (now : ℕ) (threshold : ℤ) (b : Bucket)
      → AllRewritable (entries b)
      → (expire_stale_hosts bolt true now threshold b).1 ≡ ok tt
  unfolding expire_stale_hosts update
  expire_succeeds now threshold b h =
      let (b', done) = expire_loop-ok (cutoff_at now threshold) (entries b) b h in rw done refl

  -- What a check has written it can write again.
  rewritten_IsRewritable :
      (cutoff : ℕ) (k : Text) (s : Stored)
      → IsRewritable (k, s)
      → IsRewritable (k, expire_value cutoff s)
  unfolding expire_value
  rewritten_IsRewritable cutoff k (broken r) h = h
  rewritten_IsRewritable cutoff k (json r) h =
      elim (Bool-cases (is_stale cutoff r && is_encodable (retired r))) [
        | inl changed ↦ rw changed (h.0, h.1, rw (clean_beacon_idem r.beacon) h.2)
        | inr same ↦ rw same h
      ]

  rewritten_AllRewritable :
      (cutoff : ℕ) (m : List (Text × Stored))
      → AllRewritable m
      → AllRewritable (map (expire_entry cutoff) m)
  rewritten_AllRewritable cutoff [] h = tt
  rewritten_AllRewritable cutoff ((k, s) ∷ m) h =
      (rewritten_IsRewritable cutoff k s h.0, rewritten_AllRewritable cutoff m h.1)

  -- `n` ticks, one every `interval`, at each of which BoltDB works.
  abbrev pub every : ℕ → ℕ → List (ℕ × Bool)
  every interval zero = []
  every interval (suc n) = (interval, true) ∷ every interval n

  -- Where BoltDB works at every tick and takes what a check can write, the loop of the checks has made
  -- a host of which nothing is heard, and whose record can be marshalled, inactive by the first tick
  -- behind the threshold, and by every later one.
  pub run_expiry_expires :
      (interval n d seen : ℕ) (k : Text) (w : World bolt)
      → AllRewritable (entries w.bucket)
      → Rests bolt k seen (λ on. Unit) w.bucket
      → seen + d < w.clock + suc n * interval
      → Rests bolt k seen
          (IsInactive bolt)
          (run_expiry bolt (pos d) (every interval (suc n)) w).bucket
  unfolding run_expiry
  run_expiry_expires interval zero d seen k w can h late =
      late_check bolt k seen d (w.clock + interval) true w.bucket (omega arith)
        (expire_succeeds (w.clock + interval) (pos d) w.bucket can) h
  run_expiry_expires interval (suc n) d seen k w can h late =
      let now = w.clock + interval in
      let done = expire_succeeds now (pos d) w.bucket can in
      run_expiry_expires interval n d seen k
        (record { clock = now; bucket = (expire_stale_hosts bolt true now (pos d) w.bucket).0 })
        (rw (expire-entries bolt true now (pos d) w.bucket done)
          (rewritten_AllRewritable (cutoff_at now (pos d)) (entries w.bucket) can))
        (expire-Rests bolt k seen (λ on. Unit) true now (pos d) w.bucket tt h) (omega arith)
