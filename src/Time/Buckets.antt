-- ===== src/Time/Buckets.antt =====
-- The arithmetic of the wheel: a frame's bucket is scanned at its time.
use new_rpc.Base.{ℕ, ◌+◌, ◌*◌, ◌≤◌, ◌<◌, arith}
use new_rpc.Time.Wheel.{calculated_bucket_idx}

-- The bucket's number times the period is the first multiple that is not before the wake-up time: the
-- scan of that bucket, due at `start + precision * idx`, finds the frame's time come, and comes less
-- than one period after it.
calculated_bucket_idx_bounds :
    (precision start wake : ℕ)
    → 0 < precision
    → start < wake
    → (wake ≤ start + precision * calculated_bucket_idx precision start wake)
      × (start + precision * calculated_bucket_idx precision start wake < wake + precision)
unfolding calculated_bucket_idx
calculated_bucket_idx_bounds precision start wake h k = (grind arith, grind arith)
