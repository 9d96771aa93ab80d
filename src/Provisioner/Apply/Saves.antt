-- ===== src/Provisioner/Apply/Saves.antt =====
-- The state file of Apply: what it holds when Apply returns.
use apprun_dedicated_provisi.Base.{
  String, Bool, true, false, List, [], ◌∷◌, ◌++◌, ◌≡◌, refl, sym, ap, ◌∙◌, ◌⊎◌, inl, inr, All,
  string_eq,
}
use apprun_dedicated_provisi.Result.{Error, wrapped}
use apprun_dedicated_provisi.Config.{ClusterConfig}
use apprun_dedicated_provisi.Api.{Uuid}
use apprun_dedicated_provisi.State.{State}
use apprun_dedicated_provisi.Platform.{
  Platform, Call, Env, Action, Outcome, ok, fail, no_fuel, save_state, pure, continue, rewritten,
  read_state, on_error, call, ◌>>=◌, ◌>>◌,
}
use apprun_dedicated_provisi.Platform.Traces.{reading, Does, Does-on_error}
use apprun_dedicated_provisi.Provisioner.Listing.Reads.{
  list_all_asgs-Does, list_all_applications-Does,
}
use apprun_dedicated_provisi.Provisioner.Plan.{ExecutionPlan}
use apprun_dedicated_provisi.Provisioner.Apply.{save_if, apply_applications, apply}
use apprun_dedicated_provisi.Provisioner.Apply.Calls.{
  Suffices, delete_lbs-Does, wait_lbs-Does, delete_asgs-Does, create_asgs-Does, create_lbs-Does,
}
use apprun_dedicated_provisi.Provisioner.Apply.Tracks.{Any, Tracks, apply_actions-Tracks}

-- If an action returns, the provisioner's state is `s`, or the last call wrote the state to the file.
abbrev pub IsSaved : {P : Platform} → String → State → Outcome (Unit {0}) × Env P → Type 0
IsSaved path s out =
    out.0 ≡ ok tt
    → (out.1.state ≡ s)
      ⊎ ((before : List Call) × (out.1.trace ≡ before ++ (save_state path out.1.state ∷ [])))

-- Whatever an action of the plan asks for is some call.
every : {X : Type 0} (Q : X → Call → Type 0) (xs : List X) → All (Suffices Q Any) xs
every Q [] = tt
every Q (x ∷ xs) = ((λ c h. tt), every Q xs)

module _ {P : Platform} where
  module _ {A : Type 0} (f : A → Action P (Unit {0})) (path : String) where
    continue-IsSaved :
        (s : State) (out : Outcome A × Env P)
        → out.1.state ≡ s
        → ((a : A) (env : Env P) → IsSaved path env.state (f a env))
        → IsSaved path s (continue out f)
    unfolding continue
    continue-IsSaved s (ok a, env) same h returns = elim (h a env returns) [
      | inl kept ↦ inl (kept ∙ same)
      | inr saved ↦ inr saved
    ]
    continue-IsSaved s (fail e, env) same h returns = cc
    continue-IsSaved s (no_fuel, env) same h returns = cc

    -- An action that keeps the state, and then one that saves it.
    after_reading :
        {m : Action P A}
        → Does reading Any m
        → ((a : A) (env : Env P) → IsSaved path env.state (f a env))
        → (env : Env P) → IsSaved path env.state ((m >>= f) env)
    unfolding ◌>>=◌
    after_reading {m = m} d h env = continue-IsSaved env.state (m env) (d.at env).same h

  rewritten_env :
      {A : Type 0} (f : Error → Error) (out : Outcome A × Env P) → (rewritten f out).1 ≡ out.1
  unfolding rewritten
  rewritten_env f (ok a, env) = refl
  rewritten_env f (fail e, env) = refl
  rewritten_env f (no_fuel, env) = refl

module _ (P : Platform) (cluster : Uuid) where
  save_if-saves :
      (path : String) (env : Env P)
      → let out = save_if P cluster path true env in
        (before : List Call) × (out.1.trace ≡ before ++ (save_state path out.1.state ∷ []))
  unfolding save_if read_state ◌>>=◌ continue on_error call
  save_if-saves path env =
      let s = env.state in
      let text = wrapped "failed to save state file" in
      let asked = call (save_state path s) env in
      let same : (on_error text (call (save_state path s)) env).1 ≡ asked.1 =
        rewritten_env text asked in
      (
        env.trace,
        ap (λ (e : Env P). e.trace) same
            ∙ ap (λ (t : State). env.trace ++ (save_state path t ∷ []))
                (sym (ap (λ (e : Env P). e.state) same)),
      )

  -- What follows the actions: the state file, if something was modified.
  save_if-IsSaved :
      (path : String) (s : State) (out : Outcome Bool × Env P)
      → Tracks false s out
      → IsSaved path s (continue out (λ modified. save_if P cluster path modified))
  unfolding continue save_if pure
  save_if-IsSaved path s (ok true, env) tracked returns = inr (save_if-saves path env)
  save_if-IsSaved path s (ok false, env) tracked returns = inl (tracked refl).1
  save_if-IsSaved path s (fail e, env) tracked returns = cc
  save_if-IsSaved path s (no_fuel, env) tracked returns = cc

module _ (P : Platform) where
  apply_applications-IsSaved :
      (path : String) (activate : Bool) (cfg : ClusterConfig) (plan : ExecutionPlan) (env : Env P)
      → IsSaved path env.state (apply_applications P path activate cfg plan env)
  unfolding apply_applications
  apply_applications-IsSaved path activate cfg plan =
      let cluster = plan.cluster_id in
      after_reading _ path (Does-on_error _ (list_all_applications-Does P cluster (λ cursor. tt)))
        (λ existing env.
          unfold ◌>>=◌ in
          save_if-IsSaved P cluster path env.state _
            (apply_actions-Tracks P cluster activate _ _ plan.actions false env))

  -- Whatever the service answers: if Apply returns without an error, the provisioner's state is as it
  -- was, or the last call wrote to the state file the state that the provisioner then has.
  pub apply-IsSaved :
      (path : String) (activate : Bool) (cfg : ClusterConfig) (plan : ExecutionPlan) (env : Env P)
      → IsSaved path env.state (apply P path activate cfg plan env)
  unfolding apply ◌>>◌
  apply-IsSaved path activate cfg plan =
      let cluster = plan.cluster_id in
      after_reading _ path (Does-on_error _ (list_all_asgs-Does P cluster (λ cursor. tt)))
        (λ current.
          after_reading _ path (delete_lbs-Does P cluster plan.lb_actions [] (every _ _))
            (λ waiting. after_reading _ path (wait_lbs-Does P cluster waiting (λ c h. tt)) (λ _.
              after_reading _ path (delete_asgs-Does P cluster plan.asg_actions _ (every _ _))
                (λ kept.
                  after_reading _ path
                    (create_asgs-Does P cluster cfg.auto_scaling_groups plan.asg_actions kept
                      (every _ _))
                    (λ ids.
                      after_reading _ path
                        (create_lbs-Does P cluster cfg.load_balancers ids plan.lb_actions
                          (every _ _))
                        (λ _. apply_applications-IsSaved path activate cfg plan))))))
