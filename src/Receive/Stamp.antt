-- ===== src/Receive/Stamp.antt =====
-- The age test on a beacon's timestamp, which both receivers make: seconds in int64, the difference
-- wrapping around.
use lanmon.Prelude.{ℕ, ◌+◌, ◌^◌, ◌≤◌, ◌<◌, ◌≡◌, ◌↔◌, Bool, false, ltb, arith}
use lanmon.Go.Int.{ℤ, pos, negsuc, IsInt64, sub64, magnitude}

abbrev pub timestamp_max_age : ℕ
timestamp_max_age = 60

-- `math.Abs(float64(now-payload.Timestamp)) > timestampMaxAge`
unfoldable pub is_stale_stamp : ℤ → ℤ → Bool
unfolding sub64
is_stale_stamp now stamp = ltb timestamp_max_age (magnitude (sub64 now stamp))

-- At most 60 seconds off, on either side.
abbrev pub IsFresh : ℕ → ℤ → Type 0
IsFresh now (pos t) = (now ≤ t + 60) × (t ≤ now + 60)
IsFresh now (negsuc t) = ⊥

-- Whatever int64 a beacon carries, the test passes exactly the stamps that are at most 60 seconds
-- away from the clock: no difference wraps around into the window. The clock shows a time from
-- 1970-01-01T00:01:00 to 60 seconds before the last int64.
pub is_stale_stamp_iff :
    (now : ℕ) (stamp : ℤ)
    → 60 ≤ now
    → now + 60 < 2 ^ 63
    → IsInt64 stamp
    → (is_stale_stamp (pos now) stamp ≡ false) ↔ IsFresh now stamp
unfolding is_stale_stamp
is_stale_stamp_iff now (pos t) lo hi h = ground arith
is_stale_stamp_iff now (negsuc t) lo hi h = ground arith
