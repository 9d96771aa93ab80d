-- ===== src/Provisioner/Apply/Tracks.antt =====
-- Whether the actions of Apply on applications modify the provisioner's state: `stateModified`.
use apprun_dedicated_provisi.Base.{
  ℤ, String, Bool, true, false, List, [], ◌∷◌, ◌≡◌, refl, ◌∙◌, inl, inr, Option-cases, string_eq,
}
use apprun_dedicated_provisi.Base.Dict.{Dict, lookup}
use apprun_dedicated_provisi.Result.{wrapped}
use apprun_dedicated_provisi.Config.{ApplicationConfig}
use apprun_dedicated_provisi.Api.{Uuid, ReadApplicationDetail}
use apprun_dedicated_provisi.State.{State}
use apprun_dedicated_provisi.Version.{state_after_create, state_after_update}
use apprun_dedicated_provisi.Version.Secrets.{
  state_after_create_unmodified, state_after_update_unmodified,
}
use apprun_dedicated_provisi.Platform.{
  Platform, Call, Env, Action, Outcome, ok, fail, no_fuel, create_application, update_application,
  create_version, pure, continue, read_state, write_state, on_error, raise, ◌>>=◌, ◌>>◌,
}
use apprun_dedicated_provisi.Platform.Traces.{
  reading, Does, Does-pure, Does-call, Does-bind, Does-on_error,
}
use apprun_dedicated_provisi.Provisioner.Listing.Reads.{get_latest_version-Does}
use apprun_dedicated_provisi.Provisioner.Plan.{ActionType, PlannedAction, create, update, noop}
use apprun_dedicated_provisi.Provisioner.Apply.{
  activate_if, create_app, update_app, store, apply_action, apply_actions,
}

abbrev pub Any : Call → Type 0
Any c = Unit

-- Where an action returns that nothing was modified, it was not before, and the state is as before.
abbrev pub Tracks : {P : Platform} → Bool → State → Outcome Bool × Env P → Type 0
Tracks modified s out = out.0 ≡ ok false → (modified ≡ false) × (out.1.state ≡ s)

module _ {P : Platform} where
  continue-Tracks :
      {A : Type 0} (f : A → Action P Bool) (modified : Bool) (s : State) (out : Outcome A × Env P)
      → out.1.state ≡ s
      → ((a : A) (env : Env P) → Tracks modified env.state (f a env))
      → Tracks modified s (continue out f)
  unfolding continue
  continue-Tracks f modified s (ok a, env) same h returns =
      let (kept, later) = h a env returns in (kept, later ∙ same)
  continue-Tracks f modified s (fail e, env) same h returns = cc
  continue-Tracks f modified s (no_fuel, env) same h returns = cc

  next-Tracks :
      (f : Bool → Action P Bool) (modified : Bool) (s : State) (out : Outcome Bool × Env P)
      → Tracks modified s out
      → ((b : Bool) (env : Env P) → Tracks b env.state (f b env))
      → Tracks modified s (continue out f)
  unfolding continue
  next-Tracks f modified s (ok false, env) first h returns =
      let (kept, same) = first refl in (kept, (h false env returns).1 ∙ same)
  next-Tracks f modified s (ok true, env) first h returns =
      let (never, same) = h true env returns in cc
  next-Tracks f modified s (fail e, env) first h returns = cc
  next-Tracks f modified s (no_fuel, env) first h returns = cc

module _ (P : Platform) (cluster : Uuid) where
  activate_if-Does :
      (activate : Bool) (app : Uuid) (version : ℤ)
      → Does reading Any (activate_if P cluster activate app version)
  unfolding activate_if
  activate_if-Does false app version = Does-pure tt
  activate_if-Does true app version = Does-on_error _ (Does-call (update_application app _) tt)

  create_app-Does :
      (activate : Bool) (app : ApplicationConfig)
      → Does reading Any (create_app P cluster activate app)
  unfolding create_app
  create_app-Does activate app =
      Does-bind (Does-on_error _ (Does-call (create_application app.name cluster) tt)) (λ id.
        Does-bind (Does-on_error _ (Does-call (create_version id _) tt))
          (λ version. activate_if-Does activate id version))

  update_app-Does :
      (activate : Bool) (existing : ReadApplicationDetail) (app : ApplicationConfig)
      → Does reading Any (update_app P cluster activate existing app)
  unfolding update_app
  update_app-Does activate existing app =
      Does-bind
        (Does-on_error _ (get_latest_version-Does P existing.application_id (λ _. tt) (λ _. tt)))
        (λ latest.
          Does-bind (Does-on_error _ (Does-call (create_version existing.application_id _) tt))
            (λ version. activate_if-Does activate existing.application_id version))

  store-Tracks :
      (f : State → State × Bool)
      → ((s : State) → (f s).1 ≡ false → (f s).0 ≡ s)
      → (modified : Bool) (env : Env P) → Tracks modified env.state (store P cluster f modified env)
  unfolding store read_state write_state pure ◌>>=◌ ◌>>◌ continue
  store-Tracks f unmodified false env returns = (refl, unmodified env.state cc)
  store-Tracks f unmodified true env returns = cc

  -- One case of the switch over the planned action.
  stored :
      (m : Action P (Unit {0})) (text : String) (f : State → State × Bool)
      → Does reading Any m
      → ((s : State) → (f s).1 ≡ false → (f s).0 ≡ s)
      → (modified : Bool) (env : Env P)
      → Tracks modified env.state ((on_error (wrapped text) m >> store P cluster f modified) env)
  unfolding ◌>>◌ ◌>>=◌
  stored m text f d unmodified modified env =
      let kept : Does reading Any (on_error (wrapped text) m) = Does-on_error _ d in
      continue-Tracks (λ u. store P cluster f modified) modified env.state
        (on_error (wrapped text) m env) (kept.at env).same
        (λ u env'. store-Tracks f unmodified modified env')

  apply_action-Tracks :
      (activate : Bool) (existing : Dict String ReadApplicationDetail) (a : PlannedAction)
      (app : ApplicationConfig) (modified : Bool) (env : Env P)
      → Tracks modified env.state (apply_action P cluster activate existing a app modified env)
  unfolding apply_action raise pure
  apply_action-Tracks activate existing a app modified env = case_of a.action
    where
      case_of :
          (t : ActionType)
          → Tracks modified env.state
              (apply_action P cluster activate existing (record a { action = t }) app modified env)
      case_of create =
          stored (create_app P cluster activate app) _ (state_after_create app)
            (create_app-Does activate app) (state_after_create_unmodified app) modified env
      case_of update = elim (Option-cases (lookup a.application_name existing)) [
        | inl missing ↦ rw (missing, apply_action) (λ returns. cc)
        | inr (e, there) ↦
            rw (there, apply_action)
              (stored (update_app P cluster activate e app) _ (state_after_update app)
                (update_app-Does activate e app) (state_after_update_unmodified app) modified env)
      ]
      case_of noop = λ returns. (cc, refl)

  pub apply_actions-Tracks :
      (activate : Bool) (existing : Dict String ReadApplicationDetail)
      (configs : Dict String ApplicationConfig) (actions : List PlannedAction) (modified : Bool)
      (env : Env P)
      → Tracks modified env.state
          (apply_actions P cluster activate existing configs actions modified env)
  unfolding apply_actions pure ◌>>=◌ continue
  apply_actions-Tracks activate existing configs [] modified env = λ returns. (cc, refl)
  apply_actions-Tracks activate existing configs (a ∷ rest) modified env =
      elim (Option-cases (lookup a.application_name configs)) [
        | inl missing ↦
            rw (missing, apply_actions)
              (apply_actions-Tracks activate existing configs rest modified env)
        | inr (app, there) ↦
            rw (there, apply_actions)
              (next-Tracks (λ b. apply_actions P cluster activate existing configs rest b) modified
                env.state (apply_action P cluster activate existing a app modified env)
                (apply_action-Tracks activate existing a app modified env)
                (λ b env'. apply_actions-Tracks activate existing configs rest b env'))
      ]
