-- ===== src/Mock/Service/Pipeline.antt =====
-- CreatePlan and Apply of provisioner/sync.go run on the mock of
-- testutil/mock_server.go, for a configuration of one application.
use apprun_dedicated_provisi.Base.{
  ℕ, suc, String, ◌<>◌, Bool, true, false, some, none, List, [], ◌∷◌, ◌≡◌, refl, sym, subst, ap,
  ◌∙◌, string_eq, nat_eq, beq_refl,
}
use apprun_dedicated_provisi.Base.Dict.{Dict, lookup, insert, index_by, index_onto}
use apprun_dedicated_provisi.Result.{wrapped, wrap_api_error}
use apprun_dedicated_provisi.Config.{ClusterConfig, ApplicationConfig}
use apprun_dedicated_provisi.Api.{
  Uuid, opt_unset, ReadApplicationDetail, ReadApplicationVersionDetail,
}
use apprun_dedicated_provisi.Version.{compare_version}
use apprun_dedicated_provisi.Platform.{
  Platform, Env, ok, list_asgs, list_applications, save_state, pure, call, on_error, read_state,
  continue, ◌>>=◌, ◌>>◌,
}
use apprun_dedicated_provisi.Platform.Runs.{Runs, Runs-bind, Runs-on_error, Runs-call}
use apprun_dedicated_provisi.Provisioner.Listing.{list_all_asgs, list_all_applications}
use apprun_dedicated_provisi.Provisioner.Plan.{
  planned, PlannedAction, ExecutionPlan, plan_applications, plan_update,
}
use apprun_dedicated_provisi.Provisioner.Apply.{
  config_key, ids_of, delete_lbs, wait_lbs, delete_asgs, create_asgs, create_lbs, apply_action,
  apply_actions, save_if, apply_applications, apply,
}
use apprun_dedicated_provisi.Mock.Invariant.{WellFormed}
use apprun_dedicated_provisi.Mock.Service.Readable.{Readable}
use apprun_dedicated_provisi.Mock.Service.{
  Setup, serve, checked, decoded, request_errors, response_errors, handle,
}
use apprun_dedicated_provisi.Mock.Service.Holds.{Holds, Named}
use apprun_dedicated_provisi.Mock.Service.Runs.{seen}
use apprun_dedicated_provisi.Mock.Service.Listed.{found_listed}
use apprun_dedicated_provisi.Mock.Service.Settles.{unchanged, Runs-plan_update}
use apprun_dedicated_provisi.Mock.Service.Creates.{creation_of}
use apprun_dedicated_provisi.Mock.Service.Plans.{
  Paged, asked, Runs-list_all_asgs, Runs-list_all_applications, config_of, plan_of, applications_in,
}

abbrev pub creation : String → PlannedAction
creation name = creation_of name ("Create new application and version" ∷ [])

module _ (setup : Setup) (f : ℕ) where
  abbrev pub Mocked : Platform
  Mocked = Paged setup f

  -- An application that is not listed is planned to be created.
  pub Runs-plan_creation :
      (env : Env Mocked) (app : ApplicationConfig) (known : Dict String ReadApplicationDetail)
      → lookup app.name known ≡ none
      → Runs (plan_applications Mocked known (app ∷ []) []) env (creation app.name ∷ []) env
  unfolding plan_applications pure
  Runs-plan_creation env app known missing = rw (missing, plan_applications) refl

  module _ (env : Env Mocked) (app : ApplicationConfig) (cluster id : Uuid) (n : ℕ)
      (d : ReadApplicationVersionDetail) (h : Holds setup.checks env.world.server id n d)
      (named : Named env.world.server.applications id app.name cluster) where
    abbrev pub listed_apps : Dict String ReadApplicationDetail
    listed_apps = applications_in setup f cluster env.world.server

    pub found_by_name :
        (b : ReadApplicationDetail) × (lookup app.name listed_apps ≡ some b)
        × (b.application_id ≡ id)
    found_by_name =
        let (b, found, own) =
          found_listed setup.range setup.shuffle env.world.server h.counts.well_formed cluster id
            named.app named.found named.placed in
        (b, subst (λ n. lookup n listed_apps ≡ some b) named.named found, own)

    -- One that is listed is planned by the comparison with its last version.
    pub planned_listed :
        (env' : Env Mocked) × Runs
          (plan_applications Mocked listed_apps (app ∷ []) [])
          env
          (planned app.name (compare_version setup.diff env.state app.name d app.spec) ∷ [])
          env'
        × (env'.world ≡ env.world)
        × (env'.state ≡ env.state)
    unfolding plan_applications pure
    planned_listed =
        let (b, there, own) = found_by_name in
        let held : Holds setup.checks env.world.server b.application_id n d =
          subst (λ i. Holds setup.checks env.world.server i n d) (sym own) h in
        let run = Runs-plan_update setup (suc f) env b app n d held in
        let env' : Env Mocked = seen setup (suc f) env b.application_id n d held in
        let action = planned app.name (compare_version setup.diff env.state app.name d app.spec) in
        (
          env',
          rw (there, plan_applications)
              (Runs-bind
                (on_error (wrapped ("failed to plan update for " <> app.name))
                  (plan_update Mocked b app))
                _ env env' env' action (action ∷ [])
                (Runs-on_error (wrapped ("failed to plan update for " <> app.name))
                  (plan_update Mocked b app) env env' action run)
                refl),
          refl,
          refl,
        )

    -- Nothing is planned for it if its last version is as configured.
    pub planned_unchanged :
        compare_version setup.diff env.state app.name d app.spec ≡ []
        → (env' : Env Mocked) × Runs
            (plan_applications Mocked listed_apps (app ∷ []) [])
            env
            (unchanged app.name ∷ [])
            env'
    unfolding planned
    planned_unchanged same =
        let (env', run, world, state) = planned_listed in
        (env', run ∙ ap (λ (lines : List String). (ok (planned app.name lines ∷ []), env')) same)

  Runs-save_if :
      (env : Env Mocked) (cluster : Uuid) (path : String) (modified : Bool)
      → (env' : Env Mocked) × Runs (save_if Mocked cluster path modified) env tt env'
        × (env'.world ≡ env.world)
        × (env'.state ≡ env.state)
  unfolding save_if serve checked decoded request_errors response_errors handle pure read_state
  Runs-save_if env cluster path false = (env, refl, refl, refl)
  Runs-save_if env cluster path true = (
    asked setup f (save_state path env.state) env,
    Runs-bind read_state _ env env _ env.state tt refl (
        Runs-on_error (wrapped "failed to save state file") (call (save_state path env.state)) env _
          tt (Runs-call (save_state path env.state) env tt env.world refl)),
    refl,
    refl,
  )

  -- The environment in which an apply takes its actions.
  abbrev pub applying : Uuid → Env Mocked → Env Mocked
  applying cluster env =
      asked setup f (list_applications cluster (opt_unset ""))
        (asked setup f (list_asgs cluster (opt_unset 0)) env)

  configured :
      (app : ApplicationConfig) (name : String)
      → name ≡ app.name
      → lookup name (index_by config_key (app ∷ [])) ≡ some app
  unfolding index_by index_onto insert lookup
  configured app name own = rw (own, beq_refl app.name) refl

  module _ (env env₁ : Env Mocked) (path : String) (activate : Bool) (name : String)
      (cluster : Uuid) (app : ApplicationConfig) (action : PlannedAction) (modified : Bool)
      (wf : WellFormed env.world.server) (r : Readable setup.checks env.world.server)
      (own : action.application_name ≡ app.name)
      (run : Runs
        (apply_action Mocked cluster activate
          (applications_in setup f cluster env.world.server)
          action
          app
          false)
        (applying cluster env)
        modified
        env₁) where
    abbrev config : ClusterConfig
    config = config_of setup f name app

    abbrev plan : ExecutionPlan
    plan = plan_of setup f name cluster action

    abbrev known : Dict String ReadApplicationDetail
    known = applications_in setup f cluster env.world.server

    Runs-actions :
        Runs
          (apply_actions Mocked cluster activate known
            (index_by config_key (app ∷ []))
            (action ∷ [])
            false)
          (applying cluster env)
          modified
          env₁
    unfolding apply_actions pure
    Runs-actions =
        rw (configured app action.application_name own, apply_actions)
          (Runs-bind (apply_action Mocked cluster activate known action app false) _
            (applying cluster env) env₁ env₁ modified modified run refl)

    Runs-applications :
        (env' : Env Mocked)
        → Runs (save_if Mocked cluster path modified) env₁ tt env'
        → Runs
            (apply_applications Mocked path activate config plan)
            (asked setup f (list_asgs cluster (opt_unset 0)) env)
            tt
            env'
    unfolding apply_applications
    Runs-applications env' saved =
        let env₀ = asked setup f (list_asgs cluster (opt_unset 0)) env in
        Runs-bind
          (on_error (wrap_api_error "failed to list applications")
            (list_all_applications Mocked cluster))
          _ env₀ (applying cluster env) env' _ tt
          (Runs-on_error (wrap_api_error "failed to list applications")
            (list_all_applications Mocked cluster) env₀ (applying cluster env) _
            (Runs-list_all_applications setup f env₀ cluster wf r))
          (Runs-bind
            (apply_actions Mocked cluster activate known (index_by config_key (app ∷ []))
              (action ∷ []) false)
            _ (applying cluster env) env₁ env' modified tt Runs-actions saved)

    -- An apply of one action on an application.
    pub Runs-apply :
        (env' : Env Mocked) × Runs (apply Mocked path activate config plan) env tt env'
        × (env'.world ≡ env₁.world)
        × (env'.state ≡ env₁.state)
    unfolding apply delete_lbs wait_lbs delete_asgs create_asgs create_lbs ids_of pure ◌>>=◌ ◌>>◌
        continue
    Runs-apply =
        let (env', saved, world, state) = Runs-save_if env₁ cluster path modified in
        (
          env',
          Runs-bind (on_error (wrapped "failed to list ASGs") (list_all_asgs Mocked cluster)) _ env
              (asked setup f (list_asgs cluster (opt_unset 0)) env) env' [] tt
              (Runs-on_error (wrapped "failed to list ASGs") (list_all_asgs Mocked cluster) env _ []
                (Runs-list_all_asgs setup f env cluster))
              (Runs-applications env' saved),
          world,
          state,
        )
