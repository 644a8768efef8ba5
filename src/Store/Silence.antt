-- ===== src/Store/Silence.antt =====
-- `RunExpiry`: the loop of the checks, and what it comes to for a host that falls silent.
use lanmon.Prelude.{
  ℕ, ◌+◌, ◌<◌, ◌≡◌, refl, ◌∙◌, Bool, false, List, [], ◌∷◌, Text, text_eq_refl, arith, ok,
}
use lanmon.Go.Int.{ℤ, pos}
use lanmon.Beacon.Payload.{BeaconPayload}
use lanmon.Store.Record.{clean}
use lanmon.Store.Bolt.{Bolt}
use lanmon.Store.Ops.{next_record, upsert, expire_stale_hosts}
use lanmon.Store.Upsert.{upsert-Upserted}
use lanmon.Store.Invariant.{World, expire, wait, Reach, next}
use lanmon.Store.History.{next_record_fresh, next_record-is_encodable}
use lanmon.Store.Rests.{Rests, AllQuiet, checked_Rests, Reach-Rests}

module _ (bolt : Bolt) where
  open bolt use {Bucket, get}

  -- The loop of `RunExpiry`: the time to each tick, and whether BoltDB works then.
  unfoldable pub run_expiry : ℤ → List (ℕ × Bool) → World bolt → World bolt
  run_expiry threshold [] w = w
  run_expiry threshold ((pause, io) ∷ ticks) w =
      let now = w.clock + pause in
      run_expiry threshold ticks
        (record { clock = now; bucket = (expire_stale_hosts bolt io now threshold w.bucket).0 })

  abbrev pub IsInactive : Bool → Type 0
  IsInactive on = on ≡ false

  -- A check that succeeds late enough.
  pub late_check :
      (k : Text) (seen d now : ℕ) (io : Bool) (b : Bucket)
      → seen + d < now
      → (expire_stale_hosts bolt io now (pos d) b).1 ≡ ok tt
      → Rests bolt k seen (λ on. Unit) b
      → Rests bolt k seen IsInactive (expire_stale_hosts bolt io now (pos d) b).0
  late_check k seen d now io b late done h =
      checked_Rests bolt k seen (λ on. Unit) IsInactive io now (pos d) b done h
        (let at = h.seen_at in ground arith)

  pub fresh_Rests :
      (t : ℕ) (io : Bool) (p : BeaconPayload) (b : Bucket)
      → (upsert bolt io t p b).1 ≡ ok tt
      → Rests bolt p.mac_address t (λ on. Unit) (upsert bolt io t p b).0
  fresh_Rests t io p b done =
      let u = upsert-Upserted bolt io t p b done in
      record {
        host = clean (next_record p t (get b p.mac_address));
        found = u.here p.mac_address ∙ rw (text_eq_refl p.mac_address) refl;
        seen_at = (next_record_fresh p t (get b p.mac_address)).1;
        encodable = next_record-is_encodable p t (get b p.mac_address) u.encodable;
        active = tt;
      }

  -- A host of which no beacon comes after the one at `t`, which was stored, is inactive behind every
  -- check that succeeds once the threshold has passed, whatever else happens before and after it.
  pub silent_host_expires :
      (t d : ℕ) (io io' : Bool) (p : BeaconPayload) (b : Bucket) {v w : World bolt}
      → (upsert bolt io t p b).1 ≡ ok tt
      → (before : Reach bolt (record { clock = t; bucket = (upsert bolt io t p b).0 }) v)
      → AllQuiet bolt p.mac_address before
      → t + d < v.clock
      → (expire_stale_hosts bolt io' v.clock (pos d) v.bucket).1 ≡ ok tt
      → (after : Reach bolt
          (record v { bucket = (expire_stale_hosts bolt io' v.clock (pos d) v.bucket).0 })
          w)
      → AllQuiet bolt p.mac_address after
      → Rests bolt p.mac_address t IsInactive w.bucket
  silent_host_expires t d io io' p b {v} {w} stored before quiet late done after still =
      Reach-Rests bolt p.mac_address t IsInactive after refl still (
        late_check p.mac_address t d v.clock io' v.bucket late done (
          Reach-Rests bolt p.mac_address t (λ on. Unit) before tt quiet
            (fresh_Rests t io p b stored)))

  -- The loop of the checks is a run of waits and checks.
  pub run_expiry-Reach :
      (threshold : ℤ) (ticks : List (ℕ × Bool)) {u w : World bolt}
      → Reach bolt u w
      → Reach bolt u (run_expiry threshold ticks w)
  unfolding run_expiry
  run_expiry-Reach threshold [] r = r
  run_expiry-Reach threshold ((pause, io) ∷ ticks) {w = w} r =
      run_expiry-Reach threshold ticks
        (next (next r (wait w pause)) (expire (record w { clock = w.clock + pause }) io threshold))
