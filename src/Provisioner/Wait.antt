-- ===== src/Provisioner/Wait.antt =====
-- waitForLBDeletion and waitForASGDeletion: polling until the service no longer returns the object.
pub mod Polls
pub mod Ends
use apprun_dedicated_provisi.Base.{ℕ, zero, suc, ◌-◌, String, true, false, if◌then◌else◌}
use apprun_dedicated_provisi.Base.{ltb}
use apprun_dedicated_provisi.Result.{
  Error, Reply, value, failure, wrapped, is_security_error, lb_timeout, asg_timeout,
}
use apprun_dedicated_provisi.Api.{Uuid}
use apprun_dedicated_provisi.Platform.{
  Platform, Action, get_asg, get_lb, pure, raise, out_of_fuel, attempt, call, read_clock, pause,
  ◌>>=◌, ◌>>◌,
}

-- 3 * time.Second and 10 * time.Minute
abbrev pub poll_interval : ℕ
poll_interval = 3000

abbrev pub timeout : ℕ
timeout = 600000

-- The reply to one poll: an error other than a security error counts as the end of the object.
module _ {P : Platform} where
  unfoldable pub judge : {A : Type 0} → String → Reply A → Action P (Unit {0}) → Action P (Unit {0})
  judge text (value a) again = pause poll_interval >> again
  judge text (failure e) again = if is_security_error e then raise (wrapped text e) else pure tt

  -- The loop that both functions share, from its start time on; `late` makes the error of a timeout
  -- from the elapsed time.
  unfoldable pub wait_loop :
      {A : Type 0} → ℕ → ℕ → (ℕ → Error) → String → Action P A → Action P (Unit {0})
  unfolding judge
  wait_loop zero start late text poll = out_of_fuel
  wait_loop (suc f) start late text poll = do
    time ← read_clock
    let again = wait_loop f start late text poll
    elim (ltb timeout (time - start)) [
      | true ↦ raise (late (time - start))
      | false ↦ do reply ← attempt poll; judge text reply again
    ]

module _ (P : Platform) where
  -- waitForLBDeletion
  unfoldable pub wait_for_lb_deletion : Uuid → Uuid → Uuid → String → Action P (Unit {0})
  unfolding wait_loop
  wait_for_lb_deletion cluster asg lb name = do
    start ← read_clock
    wait_loop P.fuel start (lb_timeout name) "failed to check LB status"
        (call (get_lb cluster asg lb))

  -- waitForASGDeletion
  unfoldable pub wait_for_asg_deletion : Uuid → Uuid → String → Action P (Unit {0})
  unfolding wait_loop
  wait_for_asg_deletion cluster asg name = do
    start ← read_clock
    wait_loop P.fuel start (asg_timeout name) "failed to check ASG status"
        (call (get_asg cluster asg))
