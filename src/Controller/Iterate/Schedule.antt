-- ===== src/Controller/Iterate/Schedule.antt =====
-- When an iteration runs: controllers/iterate.go, moreIterationsNeeded and sufficientTimePassed.
use etc.Prelude.{ℕ, suc, ◌+◌, ◌*◌, ◌<◌, ◌≡◌, true, some, arith, ◌↔◌}
use etc.Prelude.Int.{pos, ◌*ℤ◌, ◌+ℤ◌, ◌-ℤ◌, wrap32, wrap32_id, IsInt32}
use etc.Api.Types.{Experiment}
use etc.Api.Defaults.Getters.{
  get_iterations_per_loop, get_max_loops, get_interval_seconds, get_interval_as_duration,
}
use etc.Controller.Iterate.{more_iterations_needed, sufficient_time_passed}

product : (a b : ℕ) → pos a *ℤ pos b ≡ pos (a * b)
unfolding ◌*ℤ◌
product a b = ground arith

-- Where the product of the iterations per loop and of the loops fits an int32, more iterations are
-- needed exactly as long as fewer were completed.
pub more_iterations_needed_exact :
    (i : Experiment) (per loops n : ℕ)
    → get_iterations_per_loop i.spec ≡ pos per
    → get_max_loops i.spec ≡ pos loops
    → per * loops < 2147483648
    → (more_iterations_needed i (pos n) ≡ true) ↔ (n < per * loops)
unfolding more_iterations_needed IsInt32
more_iterations_needed_exact i per loops n p l h =
    let e : wrap32 (get_iterations_per_loop i.spec *ℤ get_max_loops i.spec) ≡ pos (per * loops) =
      rw (p, l, product per loops) (wrap32_id (pos (per * loops)) h) in
    rw e (ground arith)

interval_of_seconds :
    (i : Experiment) (seconds : ℕ)
    → get_interval_seconds i.spec ≡ pos seconds
    → get_interval_as_duration i.spec ≡ pos (1000000000 * seconds)
unfolding get_interval_as_duration get_interval_seconds
interval_of_seconds i seconds h = rw h (product 1000000000 seconds)

-- After the first iteration, with a time of the last update and an interval that is not negative,
-- another iteration may run exactly when less than 100 milliseconds are missing until the interval
-- after that time is over.
pub sufficient_time_passed_exact :
    (i : Experiment) (now last seconds n : ℕ)
    → get_interval_seconds i.spec ≡ pos seconds
    → i.status.last_update_time ≡ some last
    → (sufficient_time_passed now i (pos (suc n)) ≡ true)
      ↔ (last + 1000000000 * seconds < now + 100000000)
unfolding sufficient_time_passed ◌+ℤ◌ ◌-ℤ◌
sufficient_time_passed_exact i now last seconds n s l =
    rw (l, interval_of_seconds i seconds s) (ground arith)
