-- ===== src/Provisioner/Apply/Steps/Applications.antt =====
-- The phase of Apply for applications takes the steps of the plan.
use apprun_dedicated_provisi.Base.{
  String, Bool, true, false, some, List, [], ◌∷◌, ◌≡◌, refl, string_eq, arith, concat_map, ℤ,
}
use mathlib.Core.List.{append-nil}
use apprun_dedicated_provisi.Base.Dict.{Dict, lookup}
use apprun_dedicated_provisi.Config.{ApplicationConfig}
use apprun_dedicated_provisi.Api.{Uuid, ReadApplicationDetail}
use apprun_dedicated_provisi.State.{State}
use apprun_dedicated_provisi.Platform.{
  Platform, create_application, update_application, create_version, save_state,
}
use apprun_dedicated_provisi.Platform.Traces.{
  writing, Does-pure, Does-bind, Does-then, Does-on_error, Does-read_state, Does-write_state,
  Does-call,
}
use apprun_dedicated_provisi.Platform.Steps.{
  Follows, Follows-none, Follows-raise, Follows-call, Follows-bind, Follows-then, Follows-on_error,
  Follows-eq, Follows-option, Follows-pure,
}
use apprun_dedicated_provisi.Provisioner.Listing.Reads.{get_latest_version-Does}
use apprun_dedicated_provisi.Provisioner.Plan.{ActionType, PlannedAction, create, update, noop}
use apprun_dedicated_provisi.Provisioner.Apply.{
  activate_if, create_app, update_app, store, apply_action, apply_actions, save_if,
}
use apprun_dedicated_provisi.Provisioner.Apply.Steps.{
  app_created, version_created, version_activated, step_of, activation_step, deployment,
}

module _ (P : Platform) (cluster : Uuid) where
  activate_if-Follows :
      (activate : Bool) (app : Uuid) (version : ℤ)
      → Follows step_of (activation_step activate) (activate_if P cluster activate app version)
  unfolding activate_if
  activate_if-Follows false app version = Follows-pure tt
  activate_if-Follows true app version =
      Follows-on_error _ (Follows-call (update_application app _) version_activated refl)

  create_app-Follows :
      (activate : Bool) (app : ApplicationConfig)
      → Follows step_of
          (app_created app.name ∷ version_created ∷ activation_step activate)
          (create_app P cluster activate app)
  unfolding create_app
  create_app-Follows activate app =
      Follows-bind
        (Follows-on_error _
          (Follows-call (create_application app.name cluster) (app_created app.name) refl))
        (λ id.
          Follows-bind
            (Follows-on_error _ (Follows-call (create_version id _) version_created refl))
            (λ version. activate_if-Follows activate id version))

  update_app-Follows :
      (activate : Bool) (existing : ReadApplicationDetail) (app : ApplicationConfig)
      → Follows step_of
          (version_created ∷ activation_step activate)
          (update_app P cluster activate existing app)
  unfolding update_app
  update_app-Follows activate existing app =
      Follows-bind
        (Follows-none {effect = writing} (
          Does-on_error _
            (get_latest_version-Does P existing.application_id (λ _. refl) (λ _. refl))))
        (λ latest.
          Follows-bind
            (Follows-on_error _
              (Follows-call (create_version existing.application_id _) version_created refl))
            (λ version. activate_if-Follows activate existing.application_id version))

  store-Follows :
      (f : State → State × Bool) (modified : Bool) → Follows step_of [] (store P cluster f modified)
  unfolding store
  store-Follows f modified =
      Follows-none {effect = writing}
        (Does-bind Does-read_state (λ s. Does-then (Does-write_state (f s).0) (Does-pure _)))

  apply_action-Follows :
      (activate : Bool) (existing : Dict String ReadApplicationDetail)
      (configs : Dict String ApplicationConfig) (a : PlannedAction) (app : ApplicationConfig)
      (modified : Bool)
      → lookup a.application_name configs ≡ some app
      → Follows step_of
          (deployment activate configs a)
          (apply_action P cluster activate existing a app modified)
  unfolding apply_action
  apply_action-Follows activate existing configs a app modified found = case_of a.action
    where
      case_of :
          (t : ActionType)
          → Follows step_of
              (deployment activate configs (record a { action = t }))
              (apply_action P cluster activate existing (record a { action = t }) app modified)
      case_of create = Follows-eq (ground (arith, append-nil (activation_step activate))) (
          Follows-then (Follows-on_error _ (create_app-Follows activate app))
            (store-Follows _ modified))
      case_of update =
          Follows-option (lookup a.application_name existing) (λ _. Follows-raise _ _)
            (λ old has_old. Follows-eq (ground (arith, append-nil (activation_step activate))) (
              Follows-then (Follows-on_error _ (update_app-Follows activate old app))
                (store-Follows _ modified)))
      case_of noop = Follows-eq (ground arith) (Follows-pure modified)

  pub apply_actions-Follows :
      (activate : Bool) (existing : Dict String ReadApplicationDetail)
      (configs : Dict String ApplicationConfig) (actions : List PlannedAction) (modified : Bool)
      → Follows step_of
          (concat_map (deployment activate configs) actions)
          (apply_actions P cluster activate existing configs actions modified)
  unfolding apply_actions
  apply_actions-Follows activate existing configs [] modified = Follows-pure modified
  apply_actions-Follows activate existing configs (a ∷ rest) modified =
      Follows-option (lookup a.application_name configs)
        (λ missing.
          Follows-eq (ground arith) (apply_actions-Follows activate existing configs rest modified))
        (λ app found.
          Follows-bind (apply_action-Follows activate existing configs a app modified found)
            (λ modified'. apply_actions-Follows activate existing configs rest modified'))

  pub save_if-Follows :
      (path : String) (modified : Bool) → Follows step_of [] (save_if P cluster path modified)
  unfolding save_if
  save_if-Follows path false = Follows-pure tt
  save_if-Follows path true = Follows-bind (Follows-none {effect = writing} Does-read_state) (λ s.
      Follows-on_error _ (Follows-none {effect = writing} (Does-call (save_state path s) refl)))
