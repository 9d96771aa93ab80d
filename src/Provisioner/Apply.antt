-- ===== src/Provisioner/Apply.antt =====
-- provisioner/sync.go: Apply, in its phases, and the creation and update of an application.
pub mod Calls
pub mod Tracks
pub mod Saves
pub mod Steps
use apprun_dedicated_provisi.Base.{
  ℕ, ◌-◌, ◌%◌, ◌^◌, ℤ, pos, negsuc, ltb, String, ◌<>◌, Bool, true, false, ◌&&◌, ◌||◌, Option, none,
  some, List, [], ◌∷◌, ◌++◌, ◌==◌, string_eq, if◌then◌else◌, find,
}
use apprun_dedicated_provisi.Base.Dict.{Dict, lookup, insert, remove, index_by}
use apprun_dedicated_provisi.Result.{
  Error, wrapped, wrap_api_error, lb_missing_id, asg_missing_id, asg_config_not_found,
  lb_config_not_found, lb_asg_not_found, nil_application,
}
use apprun_dedicated_provisi.Config.{
  ClusterConfig, ApplicationConfig, AutoScalingGroupConfig, LoadBalancerConfig,
}
use apprun_dedicated_provisi.Api.{
  Uuid, nil_to, ReadAutoScalingGroupDetail, ReadApplicationDetail, UpdateApplication,
}
use apprun_dedicated_provisi.Asg.{build_create_asg_request}
use apprun_dedicated_provisi.Lb.{build_create_lb_request}
use apprun_dedicated_provisi.State.{State}
use apprun_dedicated_provisi.Version.{state_after_create, state_after_update}
use apprun_dedicated_provisi.Version.Request.{
  build_create_version_request, build_create_version_request_with_base,
}
use apprun_dedicated_provisi.Platform.{
  Platform, Action, delete_lb, delete_asg, create_asg, create_lb, create_application,
  create_version, update_application, save_state, pure, raise, on_error, call, read_state,
  write_state, ◌>>=◌, ◌>>◌,
}
use apprun_dedicated_provisi.Provisioner.Listing.{
  list_all_asgs, list_all_applications, get_latest_version,
}
use apprun_dedicated_provisi.Provisioner.Wait.{wait_for_lb_deletion, wait_for_asg_deletion}
use apprun_dedicated_provisi.Provisioner.AsgPlan.{AsgAction, AsgActionType}
use apprun_dedicated_provisi.Provisioner.LbPlan.{LbAction, LbActionType}
use apprun_dedicated_provisi.Provisioner.Plan.{
  ActionType, PlannedAction, ExecutionPlan, application_key, create, update, noop,
}

-- The map from the names of groups to their identifiers.
abbrev pub Ids : Type 0
Ids = Dict String Uuid

unfoldable pub ids_of : List ReadAutoScalingGroupDetail → Ids → Ids
ids_of [] ids = ids
ids_of (asg ∷ rest) ids = ids_of rest (insert asg.name asg.auto_scaling_group_id ids)

pub record LbToDelete : Type 0 where
  pub name : String
  pub asg_id : Uuid
  pub lb_id : Uuid

abbrev pub deletes_lb : LbActionType → Bool
deletes_lb LbActionType.delete = true
deletes_lb LbActionType.recreate = true
deletes_lb _ = false

abbrev pub deletes_asg : AsgActionType → Bool
deletes_asg AsgActionType.delete = true
deletes_asg AsgActionType.recreate = true
deletes_asg _ = false

abbrev pub creates_asg : AsgActionType → Bool
creates_asg AsgActionType.create = true
creates_asg AsgActionType.recreate = true
creates_asg _ = false

abbrev pub creates_lb : LbActionType → Bool
creates_lb LbActionType.create = true
creates_lb LbActionType.recreate = true
creates_lb _ = false

-- int32(v) of an int
unfoldable pub to_int32 : ℤ → ℤ
to_int32 (pos n) = let m = n % 2 ^ 32 in if ltb m (2 ^ 31) then pos m else negsuc (2 ^ 32 - 1 - m)
to_int32 (negsuc n) =
    let m = n % 2 ^ 32 in if ltb m (2 ^ 31) then negsuc m else pos (2 ^ 32 - 1 - m)

abbrev pub activation : ℤ → UpdateApplication
activation version = record { active_version = nil_to (to_int32 version) }

module _ (P : Platform) (cluster : Uuid) where
  -- The calls of DeleteLoadBalancer.
  unfoldable pub delete_lbs : List LbAction → List LbToDelete → Action P (List LbToDelete)
  delete_lbs [] waiting = pure waiting
  delete_lbs (a ∷ rest) waiting =
      let next = delete_lbs rest in
      if deletes_lb a.action
      then (elim a.existing_id [
        | none ↦ raise (lb_missing_id a.name)
        | some lb ↦ elim a.asg_id [
          | none ↦ raise (lb_missing_id a.name)
          | some asg ↦
              on_error (wrap_api_error ("failed to delete LB " <> a.name))
                (call (delete_lb cluster asg lb))
              >> next (waiting ++ (record { name = a.name; asg_id = asg; lb_id = lb } ∷ []))
        ]
      ])
      else next waiting

  -- The wait for the deleted load balancers.
  unfoldable pub wait_lbs : List LbToDelete → Action P (Unit {0})
  wait_lbs [] = pure tt
  wait_lbs (lb ∷ rest) =
      on_error (wrapped "failed waiting for LB deletion")
        (wait_for_lb_deletion P cluster lb.asg_id lb.lb_id lb.name)
      >> wait_lbs rest

  -- The deletion of groups, each waited for.
  unfoldable pub delete_asgs : List AsgAction → Ids → Action P Ids
  delete_asgs [] ids = pure ids
  delete_asgs (a ∷ rest) ids =
      let next = delete_asgs rest in
      if deletes_asg a.action
      then (elim a.existing_id [
        | none ↦ raise (asg_missing_id a.name)
        | some asg ↦
            on_error (wrap_api_error ("failed to delete ASG " <> a.name))
              (call (delete_asg cluster asg))
            >> (on_error (wrapped "failed waiting for ASG deletion")
                  (wait_for_asg_deletion P cluster asg a.name)
                >> next (remove a.name ids))
      ])
      else next ids

  -- The creation of groups.
  unfoldable pub create_asgs : List AutoScalingGroupConfig → List AsgAction → Ids → Action P Ids
  create_asgs configs [] ids = pure ids
  create_asgs configs (a ∷ rest) ids =
      let next = create_asgs configs rest in
      if creates_asg a.action
      then (elim (find (λ c. c.name == a.name) configs) [
        | none ↦ raise (asg_config_not_found a.name)
        | some cfg ↦ do
          id ←
              on_error (wrap_api_error ("failed to create ASG " <> a.name))
                (call (create_asg cluster (build_create_asg_request cfg)))
          next (insert a.name id ids)
      ])
      else next ids

  -- The creation of load balancers.
  unfoldable pub create_lbs : List LoadBalancerConfig → Ids → List LbAction → Action P (Unit {0})
  create_lbs configs ids [] = pure tt
  create_lbs configs ids (a ∷ rest) =
      let next = create_lbs configs ids rest in
      if creates_lb a.action
      then (elim (find (λ c. c.name == a.name && c.auto_scaling_group_name == a.asg_name) configs) [
        | none ↦ raise (lb_config_not_found a.name)
        | some cfg ↦ elim (lookup a.asg_name ids) [
          | none ↦ raise (lb_asg_not_found a.name a.asg_name)
          | some asg ↦ do
            id ←
                on_error (wrap_api_error ("failed to create LB " <> a.name))
                  (call (create_lb cluster asg (build_create_lb_request cfg)))
            next
        ]
      ])
      else next

  -- `if opts.Activate { … }`
  unfoldable pub activate_if : Bool → Uuid → ℤ → Action P (Unit {0})
  activate_if false app version = pure tt
  activate_if true app version =
      on_error (wrap_api_error "failed to activate version")
        (call (update_application app (activation version)))

  -- createApplication
  unfoldable pub create_app : Bool → ApplicationConfig → Action P (Unit {0})
  unfolding activate_if
  create_app activate app = do
    id ←
        on_error (wrap_api_error "failed to create application")
          (call (create_application app.name cluster))
    version ←
        on_error (wrap_api_error "failed to create version")
          (call (create_version id (build_create_version_request app.spec)))
    activate_if activate id version

  -- updateApplication
  unfoldable pub update_app : Bool → ReadApplicationDetail → ApplicationConfig → Action P (Unit {0})
  unfolding activate_if
  update_app activate existing app = do
    latest ←
        on_error (wrap_api_error "failed to get latest version")
          (get_latest_version P existing.application_id)
    version ← on_error (wrap_api_error "failed to create version") (
        call (
          create_version existing.application_id
            (build_create_version_request_with_base app.spec latest)))
    activate_if activate existing.application_id version

  -- The update of p.state that a case of the switch ends with.
  unfoldable pub store : (State → State × Bool) → Bool → Action P Bool
  store f modified = do s ← read_state; write_state (f s).0; pure (modified || (f s).1)

  -- One case of the switch over the planned action, from `stateModified` to its new value. A missing
  -- existing application is a nil pointer.
  unfoldable pub apply_action :
      Bool
      → Dict String ReadApplicationDetail
      → PlannedAction
      → ApplicationConfig
      → Bool
      → Action P Bool
  unfolding store
  apply_action activate existing_by_name a app modified = elim a.action [
    | create ↦
        on_error (wrapped ("failed to create application " <> a.application_name))
          (create_app activate app)
        >> store (state_after_create app) modified
    | update ↦ elim (lookup a.application_name existing_by_name) [
      | none ↦ raise nil_application
      | some existing ↦
          on_error (wrapped ("failed to update application " <> a.application_name))
            (update_app activate existing app)
          >> store (state_after_update app) modified
    ]
    | noop ↦ pure modified
  ]

  -- The loop over the planned actions.
  unfoldable pub apply_actions :
      Bool
      → Dict String ReadApplicationDetail
      → Dict String ApplicationConfig
      → List PlannedAction
      → Bool
      → Action P Bool
  unfolding apply_action
  apply_actions activate existing_by_name config_by_name [] modified = pure modified
  apply_actions activate existing_by_name config_by_name (a ∷ rest) modified =
      let next = apply_actions activate existing_by_name config_by_name rest in
      elim (lookup a.application_name config_by_name) [
        | none ↦ next modified
        | some app ↦ do
          modified' ← apply_action activate existing_by_name a app modified
          next modified'
      ]

  -- `if stateModified { p.state.Save(p.configPath) }`
  unfoldable pub save_if : String → Bool → Action P (Unit {0})
  save_if path false = pure tt
  save_if path true = do
    s ← read_state
    on_error (wrapped "failed to save state file") (call (save_state path s))

abbrev pub config_key : ApplicationConfig → String
config_key app = app.name

module _ (P : Platform) where
  -- Apply, phase 6: the applications and the state file.
  unfoldable pub apply_applications :
      String → Bool → ClusterConfig → ExecutionPlan → Action P (Unit {0})
  unfolding apply_actions save_if
  apply_applications path activate cfg plan = do
    existing ←
        on_error (wrap_api_error "failed to list applications")
          (list_all_applications P plan.cluster_id)
    modified ←
        apply_actions P plan.cluster_id activate (index_by application_key existing)
          (index_by config_key cfg.applications) plan.actions false
    save_if P plan.cluster_id path modified

  -- Apply
  unfoldable pub apply : String → Bool → ClusterConfig → ExecutionPlan → Action P (Unit {0})
  unfolding ids_of delete_lbs wait_lbs delete_asgs create_asgs create_lbs apply_applications
  apply path activate cfg plan = do
    current ← on_error (wrapped "failed to list ASGs") (list_all_asgs P plan.cluster_id)
    waiting ← delete_lbs P plan.cluster_id plan.lb_actions []
    wait_lbs P plan.cluster_id waiting
    kept ← delete_asgs P plan.cluster_id plan.asg_actions (ids_of current [])
    ids ← create_asgs P plan.cluster_id cfg.auto_scaling_groups plan.asg_actions kept
    create_lbs P plan.cluster_id cfg.load_balancers ids plan.lb_actions
    apply_applications path activate cfg plan
