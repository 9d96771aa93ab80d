-- ===== src/Provisioner/Apply/Steps.antt =====
-- What Apply does to the service, as a sequence of steps that the plan, the configuration and the
-- options determine, whatever the service answers.
mod Infra
mod Applications
pub mod Refines
use apprun_dedicated_provisi.Base.{
  String, ◌<>◌, Bool, true, false, ◌&&◌, ◌||◌, Option, none, some, List, [], ◌∷◌, ◌++◌, ◌≡◌, refl,
  ap, ◌==◌, string_eq, arith, find, concat_map, if◌then◌else◌, All, ℤ,
}
use mathlib.Core.List.{append-nil}
use apprun_dedicated_provisi.Base.Dict.{Dict, lookup, insert, remove, index_by}
use apprun_dedicated_provisi.Config.{
  ClusterConfig, AutoScalingGroupConfig, LoadBalancerConfig, ApplicationConfig,
}
use apprun_dedicated_provisi.Api.{
  Uuid, Opt, CreateAutoScalingGroup, CreateLoadBalancer, ReadApplicationDetail,
}
use apprun_dedicated_provisi.Asg.{build_create_asg_request}
use apprun_dedicated_provisi.Lb.{build_create_lb_request}
use apprun_dedicated_provisi.State.{State}
use apprun_dedicated_provisi.Platform.{
  Platform, Call, create_asg, delete_asg, create_lb, delete_lb, create_application,
  update_application, create_version, save_state, ◌>>=◌, ◌>>◌,
}
use apprun_dedicated_provisi.Platform.Traces.{
  Effect, writing, Does, Does-pure, Does-bind, Does-then, Does-on_error, Does-read_state,
  Does-write_state, Does-call,
}
use apprun_dedicated_provisi.Platform.Steps.{
  Follows, Follows-none, Follows-raise, Follows-call, Follows-bind, Follows-then, Follows-on_error,
  Follows-eq, Follows-if, Follows-option, Follows-pure,
}
use apprun_dedicated_provisi.Provisioner.Listing.Reads.{
  list_all_asgs-Does, list_all_applications-Does, get_latest_version-Does,
}
use apprun_dedicated_provisi.Provisioner.Wait.Polls.{
  wait_for_lb_deletion-Does, wait_for_asg_deletion-Does,
}
use apprun_dedicated_provisi.Provisioner.AsgPlan.{AsgAction}
use apprun_dedicated_provisi.Provisioner.LbPlan.{LbAction}
use apprun_dedicated_provisi.Provisioner.Plan.{
  ActionType, PlannedAction, ExecutionPlan, create, update, noop,
}
use apprun_dedicated_provisi.Provisioner.Apply.{
  Ids, LbToDelete, deletes_lb, deletes_asg, creates_asg, creates_lb, delete_lbs, wait_lbs,
  delete_asgs, create_asgs, create_lbs, activate_if, create_app, update_app, store, apply_action,
  apply_actions, save_if, config_key, apply_applications, apply,
}
use apprun_dedicated_provisi.Provisioner.Apply.Calls.{wait_lbs-Does}

-- A change of the service. What only an answer of the service can tell is left out: the identifiers
-- of what it has made, and the number and the contents of a version.
pub data Step : Type 0 where
  lb_deleted : Uuid → Uuid → Step
  asg_deleted : Uuid → Step
  asg_created : CreateAutoScalingGroup → Step
  lb_created : CreateLoadBalancer → Step
  app_created : String → Step
  version_created version_activated : Step

abbrev pub step_of : Call → Option Step
step_of (delete_lb cluster asg lb) = some (lb_deleted asg lb)
step_of (delete_asg cluster asg) = some (asg_deleted asg)
step_of (create_asg cluster req) = some (asg_created req)
step_of (create_lb cluster asg req) = some (lb_created req)
step_of (create_application name cluster) = some (app_created name)
step_of (create_version app req) = some version_created
step_of (update_application app req) = some version_activated
step_of _ = none

abbrev pub lb_deletion : LbAction → List Step
lb_deletion a =
    if deletes_lb a.action
    then (elim a.existing_id [
      | none ↦ []
      | some lb ↦ elim a.asg_id [ none ↦ [] | some asg ↦ lb_deleted asg lb ∷ [] ]
    ])
    else []

abbrev pub asg_deletion : AsgAction → List Step
asg_deletion a =
    if deletes_asg a.action
    then (elim a.existing_id [ none ↦ [] | some asg ↦ asg_deleted asg ∷ [] ])
    else []

abbrev pub asg_creation : List AutoScalingGroupConfig → AsgAction → List Step
asg_creation configs a =
    if creates_asg a.action
    then (elim (find (λ c. c.name == a.name) configs) [
      | none ↦ []
      | some cfg ↦ asg_created (build_create_asg_request cfg) ∷ []
    ])
    else []

abbrev pub lb_creation : List LoadBalancerConfig → LbAction → List Step
lb_creation configs a =
    if creates_lb a.action
    then (elim (find (λ c. c.name == a.name && c.auto_scaling_group_name == a.asg_name) configs) [
      | none ↦ []
      | some cfg ↦ lb_created (build_create_lb_request cfg) ∷ []
    ])
    else []

abbrev pub activation_step : Bool → List Step
activation_step activate = if activate then version_activated ∷ [] else []

abbrev pub deployment : Bool → Dict String ApplicationConfig → PlannedAction → List Step
deployment activate configs a = elim (lookup a.application_name configs) [
  | none ↦ []
  | some app ↦ elim a.action [
    | create ↦ app_created app.name ∷ version_created ∷ activation_step activate
    | update ↦ version_created ∷ activation_step activate
    | noop ↦ []
  ]
]

-- The steps of Apply, in their order.
abbrev pub plan_steps : Bool → ClusterConfig → ExecutionPlan → List Step
plan_steps activate cfg plan =
    concat_map lb_deletion plan.lb_actions
    ++ (concat_map asg_deletion plan.asg_actions
        ++ (concat_map (asg_creation cfg.auto_scaling_groups) plan.asg_actions
            ++ (concat_map (lb_creation cfg.load_balancers) plan.lb_actions
                ++ concat_map (deployment activate (index_by config_key cfg.applications))
                    plan.actions)))
