-- ===== src/Time/Loop.antt =====
-- `TimeService::loop_` of time_module/time_service.cpp, from the first bucket to the last wake-up.
use new_rpc.Base.{ℕ, Bool, true, false, List, [], ◌∷◌}
use new_rpc.Serialization.Memory.{Result, ok, ◌>>=◌}
use new_rpc.Time.Wheel.{World, bucket_num, loop_round, wakeup_all}

-- What one round reads: the clock at the start of a round of the wheel, in the scan and before the
-- wait; and whether the flag is set when the round is over.
pub record Readings : Type 0 where
  pub start_now : ℕ
  pub scan_now : ℕ
  pub now : ℕ
  pub stopped : Bool

-- The rounds, up to the first one that ends with the flag set, and then the wake-up by force, in
-- which the clock is `last idx` at the bucket `idx`. With no rounds left to read the loop still runs:
-- the result is the state there, and `false`.
unfoldable pub loop_rounds :
    World → (idx : ℕ) → List Readings → (last : ℕ → ℕ) → Result (World × Bool)
unfolding loop_round wakeup_all
loop_rounds w idx [] last = ok (w, false)
loop_rounds w idx (r ∷ rs) last =
    loop_round w idx r.start_now r.scan_now r.now >>= λ (w', idx', wait). elim r.stopped [
      | true ↦ wakeup_all bucket_num w' last >>= λ w''. ok (w'', true)
      | false ↦ loop_rounds w' idx' rs last
    ]

unfoldable pub loop : World → List Readings → (last : ℕ → ℕ) → Result (World × Bool)
unfolding loop_rounds
loop w rs last = loop_rounds w 0 rs last
