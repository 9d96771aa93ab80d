-- ===== src/Mock/Service/Creates.antt =====
-- createApplication of provisioner/sync.go run on the mock of testutil/mock_server.go.
use apprun_dedicated_provisi.Base.{
  refl, [], ℕ, suc, pos, String, ◌<>◌, Bool, false, ◌&&◌, ◌||◌, some, none, List, ◌≡◌, subst, ap,
  arith, All, ◌==◌, string_eq, nat_eq,
}
use apprun_dedicated_provisi.Base.Dict.{Dict, lookup}
use apprun_dedicated_provisi.Result.{value, wrapped, wrap_api_error}
use apprun_dedicated_provisi.Config.{ApplicationConfig}
use apprun_dedicated_provisi.Config.Validate.{validate_application}
use apprun_dedicated_provisi.Api.{
  Uuid, ReadClusterDetail, ReadApplicationDetail, ReadApplicationVersionDetail,
  CreateApplicationVersion,
}
use apprun_dedicated_provisi.State.{get_password_version}
use apprun_dedicated_provisi.Spec.Laws.{IsDiff}
use apprun_dedicated_provisi.Version.{compare_version, state_after_create}
use apprun_dedicated_provisi.Version.Request.{build_create_version_request}
use apprun_dedicated_provisi.Version.Normal.{HasPorts}
use apprun_dedicated_provisi.Version.Secrets.{DistinctKeys}
use apprun_dedicated_provisi.Version.Converge.{create-converges}
use apprun_dedicated_provisi.Platform.{
  Platform, Env, create_application, create_version, call, on_error, ◌>>◌,
}
use apprun_dedicated_provisi.Platform.Runs.{Runs, Runs-bind, Runs-on_error, Runs-call, after}
use apprun_dedicated_provisi.Provisioner.Plan.{PlannedAction, create}
use apprun_dedicated_provisi.Provisioner.Apply.{create_app, store, apply_action}
use apprun_dedicated_provisi.Mock.{MockServer, any_value}
use apprun_dedicated_provisi.Mock.Applications.{version_detail}
use apprun_dedicated_provisi.Mock.Versions.{shown_env-ShowsEnv, version_detail-IsMadeFrom}
use apprun_dedicated_provisi.Mock.Applications.{shown_env}
use apprun_dedicated_provisi.Api.Validate.Requests.{
  validate_create_application, validate_create_version,
}
use apprun_dedicated_provisi.Mock.Invariant.{WellFormed}
use apprun_dedicated_provisi.Mock.Service.Readable.{Readable}
use apprun_dedicated_provisi.Mock.Service.{
  Setup, MockWorld, request_errors, response_errors, handle, serve-valid, changed, reply, seconds,
  drawn_after,
}
use apprun_dedicated_provisi.Mock.Service.Holds.{
  Named, started-Named, Holds, with_version-Holds, started, started-Counts,
  create_application_counts,
}
use apprun_dedicated_provisi.Mock.Service.Runs.{created, Runs-create_version, Runs-activate_if}
use apprun_dedicated_provisi.Mock.{Answer}
use apprun_dedicated_provisi.Mock.Service.Settles.{Runs-store, P}

abbrev pub creation_of : String → List String → PlannedAction
creation_of name changes = record { application_name = name; action = create; changes = changes }

module _ (setup : Setup) (fuel : ℕ) where
  abbrev Mocked : Platform
  Mocked = P setup fuel

  module _ (env : Env Mocked) (cluster : Uuid) (activate : Bool) (app : ApplicationConfig)
      (c : ReadClusterDetail) (wf : WellFormed env.world.server)
      (readable : Readable setup.checks env.world.server)
      (found : lookup cluster env.world.server.clusters ≡ some c)
      (free : any_value
          (λ a. a.cluster_id == cluster && a.name == app.name)
          env.world.server.applications
        ≡ false)
      (fresh : lookup (setup.ids env.world.drawn) env.world.server.next_version_number ≡ none)
      (named : validate_create_application setup.checks
          (record { name = app.name; cluster_id = cluster })
        ≡ [])
      (valid : validate_create_version setup.checks (build_create_version_request app.spec)
        ≡ []) where
    abbrev id : Uuid
    id = setup.ids env.world.drawn

    abbrev world₁ : MockWorld
    world₁ = record env.world {
      server = started env.world.server id cluster app.name c wf found free fresh;
      drawn = suc env.world.drawn;
    }

    served_application :
        Mocked.serve (create_application app.name cluster) env.world ≡ (value id, world₁)
    unfolding request_errors response_errors handle changed reply
    served_application =
        serve-valid setup (create_application app.name cluster) env.world _ id named refl (
          ap
            (λ (r : Answer Uuid × MockServer).
              changed setup (record env.world { drawn = drawn_after r.0 env.world.drawn }) r)
            (create_application_counts env.world.server id cluster app.name c wf found free fresh))

    abbrev first_request : CreateApplicationVersion
    first_request = build_create_version_request app.spec

    abbrev first_version : ReadApplicationVersionDetail
    first_version = version_detail (pos 1) (seconds env.world) first_request

    -- createApplication makes the application and its first version.
    create_app-Runs :
        (env' : Env Mocked) × Runs (create_app Mocked cluster activate app) env tt env'
        × Holds setup.checks env'.world.server id 1 first_version
        × (env'.state ≡ env.state)
        × (env'.world.server.clusters ≡ env.world.server.clusters)
        × Named env'.world.server.applications id app.name cluster
    unfolding create_app
    create_app-Runs =
        let env₁ : Env Mocked = after (create_application app.name cluster) world₁ env in
        let counts =
          started-Counts env.world.server id cluster app.name c wf found free fresh setup.checks
            readable named in
        let env₂ =
          created setup fuel env₁ id 1 first_request counts (omega arith) (omega arith) valid in
        let held =
          with_version-Holds env₁.world.server (seconds env.world) first_request id 1 counts
            (omega arith) (omega arith) setup.documented valid in
        let (env₃, run, kept, state, clusters, keeps) =
          Runs-activate_if setup fuel env₂ cluster id 1 _ held (pos 1) activate in
        (
          env₃,
          Runs-bind
              (on_error (wrap_api_error "failed to create application")
                (call (create_application app.name cluster)))
              _ env env₁ env₃ id tt
              (Runs-on_error (wrap_api_error "failed to create application")
                (call (create_application app.name cluster)) env env₁ id
                (Runs-call (create_application app.name cluster) env id world₁ served_application))
              (Runs-bind
                (on_error (wrap_api_error "failed to create version")
                  (call (create_version id first_request)))
                _ env₁ env₂ env₃ (pos 1) tt
                (Runs-on_error (wrap_api_error "failed to create version")
                  (call (create_version id first_request)) env₁ env₂ (pos 1)
                  (Runs-create_version setup fuel env₁ id 1 first_request counts (omega arith)
                    (omega arith) valid))
                run),
          kept,
          state,
          clusters,
          keeps app.name cluster
              (started-Named env.world.server id cluster app.name c wf found free fresh),
        )

    -- The planned creation, and what it leaves.
    pub create_action-Runs :
        (is_diff : IsDiff setup.diff) (existing_by_name : Dict String ReadApplicationDetail)
        (changes : List String) (modified : Bool)
        → validate_application app ≡ none
        → All HasPorts app.spec.exposed_ports
        → DistinctKeys app.spec.env
        → (app.spec.registry_password_version ≡ none
            → get_password_version env.state app.name ≡ none)
        → (env' : Env Mocked) × Runs
            (apply_action Mocked cluster activate existing_by_name
              (creation_of app.name changes)
              app
              modified)
            env
            (modified || (state_after_create app env.state).1)
            env'
          × Holds setup.checks env'.world.server id 1 first_version
          × (compare_version setup.diff env'.state app.name first_version app.spec ≡ [])
          × (env'.world.server.clusters ≡ env.world.server.clusters)
          × Named env'.world.server.applications id app.name cluster
    unfolding apply_action
    create_action-Runs is_diff existing_by_name changes modified accepted ports distinct
          fresh_state =
        let (env₁, run, held, state, clusters, there) = create_app-Runs in
        (
          record env₁ { state = (state_after_create app env.state).0 },
          subst
              (λ s.
                Runs
                  (on_error (wrapped ("failed to create application " <> app.name))
                      (create_app Mocked cluster activate app)
                    >> store Mocked cluster (state_after_create app) modified)
                  env (modified || (state_after_create app s).1)
                  (record env₁ { state = (state_after_create app s).0 }))
              state
              (Runs-store cluster ("failed to create application " <> app.name)
                (create_app Mocked cluster activate app) (state_after_create app) modified env env₁
                run),
          held,
          create-converges setup.diff is_diff shown_env shown_env-ShowsEnv app env.state
              first_version accepted ports distinct fresh_state
              (version_detail-IsMadeFrom (pos 1) (seconds env.world) first_request),
          clusters,
          there,
        )
