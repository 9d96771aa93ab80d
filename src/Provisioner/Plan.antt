-- ===== src/Provisioner/Plan.antt =====
-- provisioner/sync.go: CreatePlan and planUpdate.
pub mod ReadOnly
use apprun_dedicated_provisi.Base.{String, ◌<>◌, Option, none, some, List, [], ◌∷◌, ◌++◌, string_eq}
use apprun_dedicated_provisi.Base.Dict.{Dict, lookup, remove, index_by}
use apprun_dedicated_provisi.Result.{Error, wrapped, wrap_api_error}
use apprun_dedicated_provisi.Config.{ClusterConfig, ApplicationConfig}
use apprun_dedicated_provisi.Api.{Uuid, ReadApplicationDetail, ReadApplicationVersionDetail}
use apprun_dedicated_provisi.State.{State}
use apprun_dedicated_provisi.Version.{compare_version}
use apprun_dedicated_provisi.Platform.{Platform, Action, pure, on_error, read_state, ◌>>=◌}
use apprun_dedicated_provisi.Provisioner.Listing.{
  list_all_asgs, list_all_applications, resolve_cluster_id, get_latest_version,
}
use apprun_dedicated_provisi.Provisioner.AsgPlan.{AsgAction, plan_asg_changes}
use apprun_dedicated_provisi.Provisioner.LbPlan.{LbAction, plan_lb_changes}

pub data ActionType : Type 0 where
  create update noop : ActionType

pub record PlannedAction : Type 0 where
  pub application_name : String
  pub action : ActionType
  pub changes : List String

pub record ExecutionPlan : Type 0 where
  pub cluster_name : String
  pub cluster_id : Uuid
  pub asg_actions : List AsgAction
  pub lb_actions : List LbAction
  pub actions : List PlannedAction

abbrev pub application_key : ReadApplicationDetail → String
application_key app = app.name

-- The action from the changes that compareVersion reports.
unfoldable pub planned : String → List String → PlannedAction
planned name [] = record { application_name = name; action = noop; changes = [] }
planned name (line ∷ changes) = record {
  application_name = name;
  action = update;
  changes = line ∷ changes;
}

abbrev creation : String → PlannedAction
creation name = record {
  application_name = name;
  action = create;
  changes = "Create new application and version" ∷ [];
}

module _ (P : Platform) where
  -- planUpdate
  unfoldable pub plan_update : ReadApplicationDetail → ApplicationConfig → Action P PlannedAction
  unfolding planned
  plan_update existing app = do
    latest ←
        on_error (wrap_api_error "failed to get latest version")
          (get_latest_version P existing.application_id)
    state ← read_state
    elim latest [
      | none ↦ pure (record {
        application_name = app.name;
        action = update;
        changes = "Create initial version (no versions exist)" ∷ [];
      })
      | some version ↦
          pure (planned app.name (compare_version P.diff state app.name version app.spec))
    ]

  -- The loop over the configured applications. The entry of an existing application is deleted once
  -- it is planned, so that a second one of its name is created.
  unfoldable pub plan_applications :
      Dict String ReadApplicationDetail
      → List ApplicationConfig
      → List PlannedAction
      → Action P (List PlannedAction)
  unfolding plan_update
  plan_applications existing_by_name [] actions = pure actions
  plan_applications existing_by_name (app ∷ rest) actions =
      let skip_existing = plan_applications (remove app.name existing_by_name) rest in
      let keep_existing = plan_applications existing_by_name rest in
      elim (lookup app.name existing_by_name) [
        | some existing ↦ do
          action ←
              on_error (wrapped ("failed to plan update for " <> app.name))
                (plan_update existing app)
          skip_existing (actions ++ (action ∷ []))
        | none ↦ keep_existing (actions ++ (creation app.name ∷ []))
      ]

  -- CreatePlan
  unfoldable pub create_plan : ClusterConfig → Action P ExecutionPlan
  unfolding plan_applications
  create_plan cfg = do
    cluster ← on_error (wrapped "failed to resolve cluster") (resolve_cluster_id P cfg.cluster_name)
    current ← on_error (wrapped "failed to list ASGs") (list_all_asgs P cluster)
    asg_actions ←
        on_error (wrapped "failed to plan ASG changes")
          (plan_asg_changes P cluster cfg.auto_scaling_groups)
    lb_actions ←
        on_error (wrapped "failed to plan LB changes")
          (plan_lb_changes P cluster cfg.load_balancers current asg_actions)
    existing ←
        on_error (wrap_api_error "failed to list applications") (list_all_applications P cluster)
    actions ← plan_applications (index_by application_key existing) cfg.applications []
    pure (record {
      cluster_name = cfg.cluster_name;
      cluster_id = cluster;
      asg_actions = asg_actions;
      lb_actions = lb_actions;
      actions = actions;
    })
