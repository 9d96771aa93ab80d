-- ===== src/Mock/Service/Provisions.antt =====
-- CreatePlan, Apply and again CreatePlan of provisioner/sync.go on the mock of
-- testutil/mock_server.go, for an application that is new.
use apprun_dedicated_provisi.Base.{
  ℕ, suc, String, Bool, false, ◌&&◌, some, none, [], ◌∷◌, ◌≡◌, refl, sym, subst, ap, ◌∙◌, All, find,
  ◌==◌, string_eq, nat_eq,
}
use apprun_dedicated_provisi.Base.Dict.{lookup}
use apprun_dedicated_provisi.Config.{ClusterConfig, ApplicationConfig}
use apprun_dedicated_provisi.Config.Validate.{validate_application}
use apprun_dedicated_provisi.Api.{Uuid, ReadClusterDetail, ReadApplicationVersionDetail}
use apprun_dedicated_provisi.Spec.Laws.{IsDiff}
use apprun_dedicated_provisi.State.{get_password_version}
use apprun_dedicated_provisi.Version.{compare_version}
use apprun_dedicated_provisi.Version.Normal.{HasPorts}
use apprun_dedicated_provisi.Version.Secrets.{DistinctKeys}
use apprun_dedicated_provisi.Platform.{
  Platform, Env, Action, Outcome, ok, ReadClusterSummary, ◌>>=◌, ◌>>◌,
}
use apprun_dedicated_provisi.Platform.Runs.{Runs, Runs-first, Runs-first_then}
use apprun_dedicated_provisi.Provisioner.Plan.{PlannedAction, ExecutionPlan, create_plan}
use apprun_dedicated_provisi.Provisioner.Apply.{apply_action, apply}
use apprun_dedicated_provisi.Api.Validate.Requests.{validate_create_application}
use apprun_dedicated_provisi.Version.Limits.{IsWithinLimits}
use apprun_dedicated_provisi.Version.Limits.Laws.{validate_create_version_iff}
use apprun_dedicated_provisi.Mock as Server
use apprun_dedicated_provisi.Mock.{MockServer, MockError, any_value}
use apprun_dedicated_provisi.Mock.Invariant.{WellFormed}
use apprun_dedicated_provisi.Mock.Service.Readable.{Readable}
use apprun_dedicated_provisi.Mock.Service.{Setup}
use apprun_dedicated_provisi.Mock.Service.Holds.{Holds, Named}
use apprun_dedicated_provisi.Mock.Service.Listed.{missing_listed}
use apprun_dedicated_provisi.Mock.Service.Settles.{unchanged}
use apprun_dedicated_provisi.Mock.Service.Creates.{create_action-Runs}
use apprun_dedicated_provisi.Mock.Service.Plans.{
  config_of, plan_of, listed, applications_in, Runs-create_plan,
}
use apprun_dedicated_provisi.Mock.Service.Pipeline.{
  Mocked, creation, applying, Runs-plan_creation, planned_unchanged, Runs-apply,
}

-- CreatePlan, Apply of that plan, and CreatePlan again.
abbrev pub provision : (P : Platform) → String → Bool → ClusterConfig → Action P ExecutionPlan
provision P path activate cfg = do
  plan ← create_plan P cfg
  apply P path activate cfg plan
  create_plan P cfg

module _ (setup : Setup) (f : ℕ) where
  abbrev pub P : Platform
  P = Mocked setup f

  abbrev pub config : String → ApplicationConfig → ClusterConfig
  config = config_of setup f

  abbrev pub quiet_plan : String → Uuid → String → ExecutionPlan
  quiet_plan name cluster app = plan_of setup f name cluster (unchanged app)

  -- What is known after the action on the application was taken.
  pub record Applied (env env₁ : Env P) (id : Uuid) (app : ApplicationConfig) (cluster : Uuid)
      : Type 0 where
    pub number : ℕ
    pub last : ReadApplicationVersionDetail
    pub held : Holds setup.checks env₁.world.server id number last
    pub same : compare_version setup.diff env₁.state app.name last app.spec ≡ []
    pub clusters : env₁.world.server.clusters ≡ env.world.server.clusters
    pub named : Named env₁.world.server.applications id app.name cluster

  module _ (env : Env P) (path : String) (activate : Bool) (name : String) (app : ApplicationConfig)
      (c : ReadClusterSummary)
      (found : find (λ s. s.name == name) (Server.list_clusters setup.range env.world.server)
        ≡ some c) where
    still_found :
        (env' : Env P)
        → env'.world.server.clusters ≡ env.world.server.clusters
        → find (λ s. s.name == name) (Server.list_clusters setup.range env'.world.server) ≡ some c
    unfolding Server.list_clusters
    still_found env' same =
        ap
          (λ cs.
            find (λ s. s.name == name)
              (Server.list_clusters setup.range (record env.world.server { clusters = cs })))
          same
        ∙ found

    planned_again :
        (env₁ env' : Env P) (id : Uuid)
        → Applied env env₁ id app c.cluster_id
        → env'.world ≡ env₁.world
        → env'.state ≡ env₁.state
        → (create_plan P (config name app) env').0 ≡ ok (quiet_plan name c.cluster_id app.name)
    planned_again env₁ env' id a world state =
        let cluster = c.cluster_id in
        let now = listed setup f cluster env' in
        let (env'', run) =
          planned_unchanged setup f now app cluster id a.number a.last
            (subst (λ w. Holds setup.checks w.server id a.number a.last) (sym world) a.held)
            (subst (λ w. Named w.server.applications id app.name cluster) (sym world) a.named)
            (subst (λ s. compare_version setup.diff s app.name a.last app.spec ≡ []) (sym state)
              a.same) in
        let held = subst (λ w. Holds setup.checks w.server id a.number a.last) (sym world) a.held in
        ap (λ (r : Outcome ExecutionPlan × Env P). r.0)
          (Runs-create_plan setup f env' env'' name app c (unchanged app.name)
            held.counts.well_formed held.counts.readable
            (still_found env' (ap (λ w. w.server.clusters) world ∙ a.clusters)) run)

    pub provisioned :
        (env₀ env₁ : Env P) (id : Uuid) (action : PlannedAction) (modified : Bool)
        → WellFormed env₀.world.server
        → Readable setup.checks env₀.world.server
        → action.application_name ≡ app.name
        → Runs (create_plan P (config name app)) env (plan_of setup f name c.cluster_id action) env₀
        → Runs
            (apply_action P c.cluster_id activate
              (applications_in setup f c.cluster_id env₀.world.server)
              action
              app
              false)
            (applying setup f c.cluster_id env₀)
            modified
            env₁
        → Applied env env₁ id app c.cluster_id
        → (provision P path activate (config name app) env).0
          ≡ ok (quiet_plan name c.cluster_id app.name)
    provisioned env₀ env₁ id action modified wf r own planned run a =
        let plan = plan_of setup f name c.cluster_id action in
        let (env', applied, world, state) =
          Runs-apply setup f env₀ env₁ path activate name c.cluster_id app action modified wf r own
            run in
        ap (λ (r : Outcome ExecutionPlan × Env P). r.0)
          (Runs-first (create_plan P (config name app)) _ env env₀ plan planned
            ∙ Runs-first_then (apply P path activate (config name app) plan)
                (create_plan P (config name app)) env₀ env' applied)
        ∙ planned_again env₁ env' id a world state

    -- Let `diff` report no difference where there is none, the platform have fuel for a page,
    -- and the mock be well formed, as each one is that requests lead to, hold only data that the
    -- client reads without an error, list the cluster under the configured name, have no
    -- application of the configured name in it, and draw a fresh identifier. Let
    -- `validateApplication` accept the application of a configuration that has no group and no
    -- load balancer, its name pass the generated checks of names, its specification keep to the
    -- limits under which those checks pass the request for a version, its ports fit a uint16, no
    -- variable occur twice, and the state have no password version under its name unless the
    -- configuration has one. Then to plan, to apply that plan, activated or not, and to plan
    -- again succeeds, and the second plan has nothing to do.
    pub provision-create :
        (is_diff : IsDiff setup.diff) (detail : ReadClusterDetail)
        → WellFormed env.world.server
        → Readable setup.checks env.world.server
        → lookup c.cluster_id env.world.server.clusters ≡ some detail
        → any_value
            (λ a. a.cluster_id == c.cluster_id && a.name == app.name)
            env.world.server.applications
          ≡ false
        → lookup (setup.ids env.world.drawn) env.world.server.next_version_number ≡ none
        → validate_application app ≡ none
        → validate_create_application setup.checks
            (record { name = app.name; cluster_id = c.cluster_id })
          ≡ []
        → IsWithinLimits setup.checks app.spec
        → All HasPorts app.spec.exposed_ports
        → DistinctKeys app.spec.env
        → (app.spec.registry_password_version ≡ none
            → get_password_version env.state app.name ≡ none)
        → (provision P path activate (config name app) env).0
          ≡ ok (quiet_plan name c.cluster_id app.name)
    provision-create is_diff detail wf r cluster free fresh accepted named_well limits ports
          distinct unstored =
        let env₀ = listed setup f c.cluster_id env in
        let env₀' = applying setup f c.cluster_id env₀ in
        let known = applications_in setup f c.cluster_id env.world.server in
        let (env₁, run, held, same, clusters, named) =
          create_action-Runs setup (suc f) env₀' c.cluster_id activate app detail wf r cluster free
            fresh named_well
            ((validate_create_version_iff setup.checks setup.documented app accepted).1 limits)
            is_diff known ("Create new application and version" ∷ []) false accepted ports distinct
            unstored in
        provisioned env₀ env₁ _ (creation app.name) _ wf r refl
          (Runs-create_plan setup f env env₀ name app c (creation app.name) wf r found (
            Runs-plan_creation setup f env₀ app known (
              missing_listed setup.range setup.shuffle env.world.server wf c.cluster_id app.name
                free)))
          run
          (record {
            number = 1;
            last = _;
            held = held;
            same = same;
            clusters = clusters;
            named = named;
          })
