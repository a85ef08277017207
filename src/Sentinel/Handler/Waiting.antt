-- ===== src/Sentinel/Handler/Waiting.antt =====
-- The wait for a restored sentinel ends.
use cndb_redis.Base.{
  ℕ, zero, suc, ◌+◌, ◌*◌, ◌≤◌, Option, none, ◌≢◌, arith, leb, Result, ok, err, Bool-cases, inl, inr,
}
use cndb_redis.Ops.{Op, Error}
use cndb_redis.Client.{Timer}
use cndb_redis.Sentinel.Handler.{wait_loop, next_turn, time_out, check_interval}

-- Sleeping lets at least the given time pass, and no call turns the clock back.
pub record Elapses {W : Type 0} (timer : Timer W) (body : Op W (Unit {0})) : Type 0 where
  pub after_sleep : (n : ℕ) (w : W) → timer.now w + n ≤ timer.now (timer.sleep n w)
  pub after_body : (w : W) → timer.now w ≤ timer.now ((body w).1)

module _ {W : Type 0} (timer : Timer W) (body : Op W (Unit {0})) (laws : Elapses timer body) where
  turn_ends :
      (again : W → Option (Result Error (Unit {0}) × W)) (before : ℕ)
      (q : Result Error (Unit {0}) × W)
      → before ≤ timer.now q.1
      → ((w : W) → before + check_interval ≤ timer.now w → again w ≢ none)
      → next_turn timer body again q ≢ none
  unfolding next_turn
  turn_ends again before (ok u, w) h k = λ e. cc
  turn_ends again before (err e, w) h k =
      k (timer.sleep check_interval w) (omega (arith, laws.after_sleep check_interval w))

  wait_loop_ends :
      (fuel deadline : ℕ) (w : W)
      → deadline ≤ timer.now w + check_interval * fuel
      → wait_loop timer body (suc fuel) deadline w ≢ none
  unfolding wait_loop
  wait_loop_ends zero deadline w h = λ e. ground arith
  wait_loop_ends (suc fuel) deadline w h = elim (Bool-cases (leb deadline (timer.now w))) [
    | inl late ↦ rw late (λ e. cc)
    | inr early ↦ rw early (
        turn_ends (wait_loop timer body (suc fuel) deadline) (timer.now w) (body w)
          (laws.after_body w) (λ v later. wait_loop_ends fuel deadline v (omega arith)))
  ]

  -- The wait with a deadline of 30 seconds ends within seven turns, whatever the check answers.
  pub wait_loop_terminates : (w : W) → wait_loop timer body 7 (timer.now w + time_out) w ≢ none
  wait_loop_terminates w = wait_loop_ends 6 (timer.now w + time_out) w (omega arith)
