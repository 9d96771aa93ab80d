-- ===== src/Provisioner/Wait/Polls.antt =====
-- The waits poll one object and make no other call.
use apprun_dedicated_provisi.Base.{ℕ, zero, suc, ◌-◌, String, Bool, true, false}
use apprun_dedicated_provisi.Base.{ltb}
use apprun_dedicated_provisi.Result.{Error, Reply, value, failure, is_security_error}
use apprun_dedicated_provisi.Api.{Uuid}
use apprun_dedicated_provisi.Platform.{
  Platform, Call, Action, get_asg, get_lb, raise, attempt, ◌>>=◌,
}
use apprun_dedicated_provisi.Platform.Traces.{
  Effect, Does, Does-pure, Does-raise, Does-out_of_fuel, Does-read_clock, Does-pause, Does-call,
  Does-bind, Does-then, Does-attempt, Does-if,
}
use apprun_dedicated_provisi.Provisioner.Wait.{
  judge, wait_loop, timeout, poll_interval, wait_for_lb_deletion, wait_for_asg_deletion,
}

module _ {P : Platform} {effect : Effect} {Q : Call → Type 0} where
  judge-Does :
      {A : Type 0} (text : String) (reply : Reply A) {again : Action P (Unit {0})}
      → Does effect Q again
      → Does effect Q (judge text reply again)
  unfolding judge
  judge-Does text (value a) d = Does-then (Does-pause poll_interval) d
  judge-Does text (failure e) d = Does-if (is_security_error e) (Does-raise _) (Does-pure tt)

  round-Does :
      {A : Type 0} (late : Bool) (e : Error) (text : String) {poll : Action P A}
      {again : Action P (Unit {0})}
      → Does effect Q poll
      → Does effect Q again
      → Does effect Q (elim late [
        | true ↦ raise e
        | false ↦ attempt poll >>= (λ reply. judge text reply again)
      ])
  round-Does true e text dp da = Does-raise e
  round-Does false e text dp da = Does-bind (Does-attempt dp) (λ reply. judge-Does text reply da)

  wait_loop-Does :
      {A : Type 0} (f start : ℕ) (late : ℕ → Error) (text : String) {poll : Action P A}
      → Does effect Q poll
      → Does effect Q (wait_loop f start late text poll)
  unfolding wait_loop
  wait_loop-Does zero start late text d = Does-out_of_fuel
  wait_loop-Does (suc f) start late text d = Does-bind Does-read_clock (λ time.
      round-Does (ltb timeout (time - start)) _ text d (wait_loop-Does f start late text d))

module _ {effect : Effect} {Q : Call → Type 0} (P : Platform) where
  -- waitForLBDeletion only gets its load balancer.
  pub wait_for_lb_deletion-Does :
      (cluster asg lb : Uuid) (name : String)
      → Q (get_lb cluster asg lb)
      → Does effect Q (wait_for_lb_deletion P cluster asg lb name)
  unfolding wait_for_lb_deletion
  wait_for_lb_deletion-Does cluster asg lb name q =
      Does-bind Does-read_clock (λ start. wait_loop-Does P.fuel start _ _ (Does-call _ q))

  -- waitForASGDeletion only gets its group.
  pub wait_for_asg_deletion-Does :
      (cluster asg : Uuid) (name : String)
      → Q (get_asg cluster asg)
      → Does effect Q (wait_for_asg_deletion P cluster asg name)
  unfolding wait_for_asg_deletion
  wait_for_asg_deletion-Does cluster asg name q =
      Does-bind Does-read_clock (λ start. wait_loop-Does P.fuel start _ _ (Does-call _ q))
