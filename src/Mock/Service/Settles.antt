-- ===== src/Mock/Service/Settles.antt =====
-- planUpdate and updateApplication of provisioner/sync.go run on the mock of testutil/mock_server.go.
use Prim.Native.Nat.{◌<◌}
use apprun_dedicated_provisi.Base.{
  ℕ, ◌+◌, ◌^◌, pos, String, ◌<>◌, Bool, ◌||◌, some, List, [], ◌≡◌, ◌≢◌, refl, subst, arith,
  string_eq, nat_eq,
}
use apprun_dedicated_provisi.Base.Dict.{Dict, lookup}
use apprun_dedicated_provisi.Result.{wrapped, wrap_api_error}
use apprun_dedicated_provisi.Config.{ApplicationConfig}
use apprun_dedicated_provisi.Api.{
  Uuid, ReadApplicationDetail, ReadApplicationVersionDetail, CreateApplicationVersion,
}
use apprun_dedicated_provisi.State.{State}
use apprun_dedicated_provisi.Spec.Laws.{IsDiff}
use apprun_dedicated_provisi.Version.{compare_version, state_after_update}
use apprun_dedicated_provisi.Version.Request.{build_create_version_request_with_base}
use apprun_dedicated_provisi.Version.Normal.{Covers}
use apprun_dedicated_provisi.Version.Secrets.{DistinctKeys}
use apprun_dedicated_provisi.Version.Converge.{update-converges}
use apprun_dedicated_provisi.Platform.{
  Platform, Env, Action, continue, create_version, pure, call, on_error, read_state, write_state,
  ◌>>=◌, ◌>>◌,
}
use apprun_dedicated_provisi.Platform.Runs.{Runs, Runs-bind, Runs-then, Runs-on_error}
use apprun_dedicated_provisi.Provisioner.Listing.{get_latest_version}
use apprun_dedicated_provisi.Provisioner.Plan.{PlannedAction, update, noop, planned, plan_update}
use apprun_dedicated_provisi.Provisioner.Apply.{update_app, store, apply_action}
use apprun_dedicated_provisi.Mock.Applications.{version_detail}
use apprun_dedicated_provisi.Mock.Versions.{shown_env-ShowsEnv, version_detail-IsMadeFrom}
use apprun_dedicated_provisi.Mock.Applications.{shown_env}
use apprun_dedicated_provisi.Api.Validate.Requests.{validate_create_version}
use apprun_dedicated_provisi.Mock.Service.{Setup, seconds}
use apprun_dedicated_provisi.Mock.Service.Holds.{Keeps, Holds, with_version-Holds}
use apprun_dedicated_provisi.Mock.Service.Runs.{
  mock, seen, Runs-get_latest_version, created, Runs-create_version, Runs-activate_if,
}

-- The planned action for an application that is up to date.
abbrev pub unchanged : String → PlannedAction
unchanged name = record { application_name = name; action = noop; changes = [] }

abbrev pub update_of : String → List String → PlannedAction
update_of name changes = record { application_name = name; action = update; changes = changes }

module _ {P : Platform} where
  -- One case of the switch over the planned action: an action, and then the update of the state.
  pub Runs-store :
      (cluster : Uuid) (text : String) (m : Action P (Unit {0})) (f : State → State × Bool)
      (modified : Bool) (env env' : Env P)
      → Runs m env tt env'
      → Runs
          (on_error (wrapped text) m >> store P cluster f modified)
          env
          (modified || (f env'.state).1)
          (record env' { state = (f env'.state).0 })
  unfolding store read_state write_state pure ◌>>=◌ ◌>>◌ continue
  Runs-store cluster text m f modified env env' p =
      Runs-then (on_error (wrapped text) m) (store P cluster f modified) env env' _ _
        (Runs-on_error (wrapped text) m env env' tt p) refl

module _ (setup : Setup) (fuel : ℕ) where
  abbrev pub P : Platform
  P = mock setup fuel

  -- The plan for an application whose last version is `d`.
  pub Runs-plan_update :
      (env : Env P) (existing : ReadApplicationDetail) (app : ApplicationConfig) (n : ℕ)
      (d : ReadApplicationVersionDetail)
      (h : Holds setup.checks env.world.server existing.application_id n d)
      → Runs
          (plan_update P existing app)
          env
          (planned app.name (compare_version setup.diff env.state app.name d app.spec))
          (seen setup fuel env existing.application_id n d h)
  unfolding plan_update read_state pure ◌>>=◌ continue
  Runs-plan_update env existing app n d h =
      let id = existing.application_id in
      let after_list = seen setup fuel env id n d h in
      Runs-bind (on_error (wrap_api_error "failed to get latest version") (get_latest_version P id))
        _ env after_list after_list (some d) _
        (Runs-on_error (wrap_api_error "failed to get latest version") (get_latest_version P id) env
          after_list (some d) (Runs-get_latest_version setup fuel env id n d h))
        refl

  module _ (env : Env P) (cluster : Uuid) (activate : Bool) (existing : ReadApplicationDetail)
      (app : ApplicationConfig) (n : ℕ) (base : ReadApplicationVersionDetail)
      (h : Holds setup.checks env.world.server existing.application_id n base)
      (fits : n + 2 < 2 ^ 31)
      (valid : validate_create_version setup.checks
          (build_create_version_request_with_base app.spec (some base))
        ≡ []) where
    abbrev next_request : CreateApplicationVersion
    next_request = build_create_version_request_with_base app.spec (some base)

    abbrev pub next_version : ReadApplicationVersionDetail
    next_version = version_detail (pos (n + 1)) (seconds env.world) next_request

    -- updateApplication makes the next version, of the request that it builds on the last one.
    update_app-Runs :
        (env' : Env P) × Runs (update_app P cluster activate existing app) env tt env'
        × Holds setup.checks env'.world.server existing.application_id (n + 1) next_version
        × (env'.state ≡ env.state)
        × (env'.world.server.clusters ≡ env.world.server.clusters)
        × Keeps env.world.server env'.world.server existing.application_id
    unfolding update_app
    update_app-Runs =
        let id = existing.application_id in
        let env₁ = seen setup fuel env id n base h in
        let env₂ =
          created setup fuel env₁ id (n + 1) next_request h.counts (omega arith)
            (omega (arith, fits)) valid in
        let held =
          with_version-Holds env.world.server (seconds env.world) next_request id (n + 1) h.counts
            (omega arith) (omega (arith, fits)) setup.documented valid in
        let (env₃, run, kept, state, clusters, keeps) =
          Runs-activate_if setup fuel env₂ cluster id (n + 1) _ held (pos (n + 1)) activate in
        (
          env₃,
          Runs-bind
              (on_error (wrap_api_error "failed to get latest version") (get_latest_version P id)) _
              env env₁ env₃ (some base) tt
              (Runs-on_error (wrap_api_error "failed to get latest version")
                (get_latest_version P id) env env₁ (some base)
                (Runs-get_latest_version setup fuel env id n base h))
              (Runs-bind
                (on_error (wrap_api_error "failed to create version")
                  (call (create_version id next_request)))
                _ env₁ env₂ env₃ (pos (n + 1)) tt
                (Runs-on_error (wrap_api_error "failed to create version")
                  (call (create_version id next_request)) env₁ env₂ (pos (n + 1))
                  (Runs-create_version setup fuel env₁ id (n + 1) next_request h.counts
                    (omega arith) (omega (arith, fits)) valid))
                run),
          kept,
          state,
          clusters,
          keeps,
        )

    -- The planned update, and what it leaves.
    pub update_action-Runs :
        (is_diff : IsDiff setup.diff) (existing_by_name : Dict String ReadApplicationDetail)
        (changes : List String) (modified : Bool)
        → lookup app.name existing_by_name ≡ some existing
        → Covers app.spec (some base)
        → app.spec.image ≢ ""
        → DistinctKeys app.spec.env
        → (env' : Env P) × Runs
            (apply_action P cluster activate existing_by_name
              (update_of app.name changes)
              app
              modified)
            env
            (modified || (state_after_update app env.state).1)
            env'
          × Holds setup.checks env'.world.server existing.application_id (n + 1) next_version
          × (compare_version setup.diff env'.state app.name next_version app.spec ≡ [])
          × (env'.world.server.clusters ≡ env.world.server.clusters)
          × Keeps env.world.server env'.world.server existing.application_id
    unfolding apply_action
    update_action-Runs is_diff existing_by_name changes modified found covers image distinct =
        let (env₁, run, held, state, clusters, keeps) = update_app-Runs in
        (
          record env₁ { state = (state_after_update app env.state).0 },
          rw (found, apply_action)
              (subst
                (λ s.
                  Runs
                    (on_error (wrapped ("failed to update application " <> app.name))
                        (update_app P cluster activate existing app)
                      >> store P cluster (state_after_update app) modified)
                    env (modified || (state_after_update app s).1)
                    (record env₁ { state = (state_after_update app s).0 }))
                state
                (Runs-store cluster ("failed to update application " <> app.name)
                  (update_app P cluster activate existing app) (state_after_update app) modified env
                  env₁ run)),
          held,
          update-converges setup.diff is_diff shown_env shown_env-ShowsEnv app base env.state
              next_version covers image distinct
              (version_detail-IsMadeFrom (pos (n + 1)) (seconds env.world) next_request),
          clusters,
          keeps,
        )
