-- ===== src/Platform/Runs.antt =====
-- The run of an action that succeeds, from the runs of its parts.
use apprun_dedicated_provisi.Base.{◌≡◌, ◌∙◌, ap, [], ◌∷◌, ◌++◌}
use apprun_dedicated_provisi.Result.{Error, Reply, value}
use apprun_dedicated_provisi.Platform.{
  Platform, Call, Response, Env, Action, ok, on_error, call, as_outcome, rewritten, continue, ◌>>=◌,
  ◌>>◌,
}

module _ {P : Platform} where
  -- From the one environment the action returns the value, and leaves the other.
  abbrev pub Runs : {A : Type 0} → Action P A → Env P → A → Env P → Type 0
  Runs m env a env' = m env ≡ (ok a, env')

  pub Runs-bind :
      {A B : Type 0} (m : Action P A) (f : A → Action P B) (env env' env'' : Env P) (a : A) (b : B)
      → Runs m env a env'
      → Runs (f a) env' b env''
      → Runs (m >>= f) env b env''
  unfolding ◌>>=◌ continue
  Runs-bind m f env env' env'' a b p q = ap (λ r. continue r f) p ∙ q

  pub Runs-then :
      {B : Type 0} (m : Action P (Unit {0})) (k : Action P B) (env env' env'' : Env P) (b : B)
      → Runs m env tt env'
      → Runs k env' b env''
      → Runs (m >> k) env b env''
  unfolding ◌>>◌
  Runs-then m k env env' env'' b p q = Runs-bind m (λ u. k) env env' env'' tt b p q

  pub Runs-on_error :
      {A : Type 0} (f : Error → Error) (m : Action P A) (env env' : Env P) (a : A)
      → Runs m env a env'
      → Runs (on_error f m) env a env'
  unfolding on_error rewritten
  Runs-on_error f m env env' a p = ap (rewritten f) p

  -- The environment after a call that the service answers.
  abbrev pub after : (c : Call) → P.World → Env P → Env P
  after c world env = record env { world = world; trace = env.trace ++ (c ∷ []) }

  pub Runs-call :
      (c : Call) (env : Env P) (r : Response c) (world : P.World)
      → P.serve c env.world ≡ (value r, world)
      → Runs (call c) env r (after c world env)
  unfolding call as_outcome
  Runs-call c env r world p =
      ap (λ (s : Reply (Response c) × P.World). (as_outcome s.0, after c s.1 env)) p

  -- What comes after a run that succeeds.
  pub Runs-first :
      {A B : Type 0} (m : Action P A) (f : A → Action P B) (env env' : Env P) (a : A)
      → Runs m env a env'
      → (m >>= f) env ≡ f a env'
  unfolding ◌>>=◌ continue
  Runs-first m f env env' a p = ap (λ r. continue r f) p

  pub Runs-first_then :
      {B : Type 0} (m : Action P (Unit {0})) (k : Action P B) (env env' : Env P)
      → Runs m env tt env'
      → (m >> k) env ≡ k env'
  unfolding ◌>>◌
  Runs-first_then m k env env' p = Runs-first m (λ u. k) env env' tt p
