-- ===== src/Provisioner/Wait/Ends.antt =====
-- The waits end, on a clock that a sleep moves on.
use apprun_dedicated_provisi.Base.{
  ℕ, zero, suc, ◌+◌, ◌-◌, ◌*◌, ◌≤◌, ◌<◌, String, Bool, true, false, ◌≡◌, ◌≢◌, refl, arith, ltb,
  if◌then◌else◌,
}
use apprun_dedicated_provisi.Result.{Error, wrapped, Reply, value, failure, is_security_error}
use apprun_dedicated_provisi.Api.{Uuid}
use apprun_dedicated_provisi.Platform.{
  Platform, Call, Action, Env, no_fuel, get_asg, get_lb, raise, pure, pause, attempt, attempted,
  call, as_outcome, read_clock, continue, ◌>>=◌, ◌>>◌,
}
use apprun_dedicated_provisi.Provisioner.Wait.{
  judge, wait_loop, timeout, poll_interval, wait_for_lb_deletion, wait_for_asg_deletion,
}

-- A sleep takes at least as long as it is asked to, and no call turns the clock back.
pub record IsClock (P : Platform) : Type 0 where
  pub sleeps : (d : ℕ) (w : P.World) → P.now w + d ≤ P.now (P.sleep d w)
  pub serves : (c : Call) (w : P.World) → P.now w ≤ P.now (P.serve c w).1

not_late : (t : ℕ) → ltb timeout t ≡ false → timeout < t + 0 * poll_interval → ⊥
not_late t early h = ground arith

later :
    (now now' start f : ℕ)
    → start ≤ now
    → ltb timeout (now - start) ≡ false
    → timeout < (now - start) + suc f * poll_interval
    → now + poll_interval ≤ now'
    → timeout < (now' - start) + f * poll_interval
later now now' start f past early h le = ground arith

Returns : {P : Platform} {A : Type 0} → Action P A → Env P → Type 0
Returns m env = (m env).0 ≢ no_fuel

module _ {P : Platform} (clock : IsClock P) where
  judge-Returns :
      {A : Type 0} (text : String) (reply : Reply A) (again : Action P (Unit {0})) (env : Env P)
      → ((env' : Env P) → P.now env.world + poll_interval ≤ P.now env'.world → Returns again env')
      → Returns (judge text reply again) env
  unfolding judge Returns ◌>>◌ ◌>>=◌ pause continue raise pure
  judge-Returns text (value a) again env h = h _ (clock.sleeps poll_interval env.world)
  judge-Returns text (failure e) again env h = ended (is_security_error e)
    where
      ended : (b : Bool) → ((if b then raise (wrapped text e) else pure tt) env).0 ≢ no_fuel
      ended true = λ p. cc
      ended false = λ p. cc

  replied-Returns :
      {A : Type 0} (text : String) (reply : Reply A) (again : Action P (Unit {0})) (env : Env P)
      → ((env' : Env P) → P.now env.world + poll_interval ≤ P.now env'.world → Returns again env')
      → (continue (attempted (as_outcome reply, env)) (λ r. judge text r again)).0 ≢ no_fuel
  unfolding continue attempted as_outcome Returns
  replied-Returns text (value a) again env h = judge-Returns text (value a) again env h
  replied-Returns text (failure e) again env h = judge-Returns text (failure e) again env h

  round-Returns :
      (late : Bool) (e : Error) (text : String) (c : Call) (again : Action P (Unit {0}))
      (env : Env P)
      → (late ≡ false
          → (env' : Env P) → P.now env.world + poll_interval ≤ P.now env'.world
          → Returns again env')
      → Returns
          (elim late [
            | true ↦ raise e
            | false ↦ attempt (call c) >>= (λ reply. judge text reply again)
          ])
          env
  unfolding Returns ◌>>=◌ attempt call raise
  round-Returns true e text c again env h = λ p. cc
  round-Returns false e text c again env h =
      replied-Returns text (P.serve c env.world).0 again _
        (λ env' le. h refl env' (omega (arith, le, clock.serves c env.world)))

  wait_loop-Returns :
      (f start : ℕ) (late : ℕ → Error) (text : String) (c : Call) (env : Env P)
      → start ≤ P.now env.world
      → timeout < (P.now env.world - start) + f * poll_interval
      → Returns (wait_loop (suc f) start late text (call c)) env
  unfolding wait_loop Returns ◌>>=◌ continue read_clock
  wait_loop-Returns zero start late text c env past h =
      round-Returns (ltb timeout (P.now env.world - start)) _ text c _ env
        (λ early env' le. absurd (not_late _ early h))
  wait_loop-Returns (suc f) start late text c env past h =
      round-Returns (ltb timeout (P.now env.world - start)) _ text c _ env (λ early env' le.
        wait_loop-Returns f start late text c env' (omega (arith, past, le))
          (later (P.now env.world) (P.now env'.world) start f past early h le))

  -- From its start on, the loop returns with fuel for 202 rounds.
  started-Returns :
      (n : ℕ) (late : ℕ → Error) (text : String) (c : Call) (env : Env P)
      → 202 ≤ n
      → Returns (wait_loop n (P.now env.world) late text (call c)) env
  unfolding Returns
  started-Returns zero late text c env enough = absurd (omega (arith, enough))
  started-Returns (suc f) late text c env enough =
      wait_loop-Returns f (P.now env.world) late text c env (omega arith) (ground (arith, enough))

wait_for_lb_deletion-Returns :
    (P : Platform) (cluster asg lb : Uuid) (name : String) (env : Env P)
    → IsClock P
    → 202 ≤ P.fuel
    → (wait_for_lb_deletion P cluster asg lb name env).0 ≢ no_fuel
unfolding wait_for_lb_deletion ◌>>=◌ continue read_clock Returns
wait_for_lb_deletion-Returns P cluster asg lb name env clock enough =
    started-Returns clock P.fuel _ _ (get_lb cluster asg lb) env enough

wait_for_asg_deletion-Returns :
    (P : Platform) (cluster asg : Uuid) (name : String) (env : Env P)
    → IsClock P
    → 202 ≤ P.fuel
    → (wait_for_asg_deletion P cluster asg name env).0 ≢ no_fuel
unfolding wait_for_asg_deletion ◌>>=◌ continue read_clock Returns
wait_for_asg_deletion-Returns P cluster asg name env clock enough =
    started-Returns clock P.fuel _ _ (get_asg cluster asg) env enough

-- On a clock that a sleep moves on, with fuel for 202 rounds (the timeout of ten minutes is 200 of
-- them, of three seconds), waitForLBDeletion and waitForASGDeletion return or fail from every
-- environment, whatever the service answers.
pub waits-Returns :
    (P : Platform) (cluster asg lb : Uuid) (name : String) (env : Env P)
    → IsClock P
    → 202 ≤ P.fuel
    → ((wait_for_lb_deletion P cluster asg lb name env).0 ≢ no_fuel)
      × ((wait_for_asg_deletion P cluster asg name env).0 ≢ no_fuel)
waits-Returns P cluster asg lb name env clock enough = (
  wait_for_lb_deletion-Returns P cluster asg lb name env clock enough,
  wait_for_asg_deletion-Returns P cluster asg name env clock enough,
)
