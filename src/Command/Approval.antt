-- ===== src/Command/Approval.antt =====
-- What ApplyCmd.Run does once the plan is printed.
use apprun_dedicated_provisi.Base.{
  any-none, String, Bool, false, ◌||◌, List, [], ◌++◌, ◌≡◌, refl, arith, All, All-imp, ◌&&◌,
  if◌then◌else◌, concat_map, concat_map-nil_iff, string_eq, ap₂,
}
use apprun_dedicated_provisi.Base.Dict.{Dict}
use apprun_dedicated_provisi.Result.{value, failure}
use apprun_dedicated_provisi.Shell.{Shell}
use apprun_dedicated_provisi.Config.{
  ClusterConfig, AutoScalingGroupConfig, LoadBalancerConfig, ApplicationConfig,
}
use apprun_dedicated_provisi.Platform.{Platform}
use apprun_dedicated_provisi.Platform.Traces.{writing, Does-print}
use apprun_dedicated_provisi.Platform.Steps.{
  Follows, Follows-none, Follows-then, Follows-on_error, Follows-if, Follows-eq, Follows-of_reply,
}
use apprun_dedicated_provisi.Provisioner.AsgPlan.{AsgAction}
use apprun_dedicated_provisi.Provisioner.LbPlan.{LbAction}
use apprun_dedicated_provisi.Provisioner.Plan.{PlannedAction, ExecutionPlan}
use apprun_dedicated_provisi.Provisioner.Apply.Steps.{
  Step, step_of, lb_deletion, asg_deletion, asg_creation, lb_creation, deployment, plan_steps,
}
use apprun_dedicated_provisi.Provisioner.Apply.Steps.Refines.{apply-Follows}
use apprun_dedicated_provisi.Print.{changes_asg, changes_lb, changes_app, has_changes}
use apprun_dedicated_provisi.Command.{is_yes, apply_approved, apply_planned}
use mathlib.Core.List.{append-nil}

steps-none :
    {A : Type 0} (p : A → Bool) (f : A → List Step) (xs : List A)
    → ((a : A) → p a ≡ false → f a ≡ [])
    → All (λ x. p x ≡ false) xs
    → concat_map f xs ≡ []
steps-none p f xs quiet h = (concat_map-nil_iff f xs).1 (All-imp _ _ xs quiet h)

asg_quiet :
    (configs : List AutoScalingGroupConfig) (a : AsgAction)
    → changes_asg a ≡ false
    → (asg_deletion a ≡ []) × (asg_creation configs a ≡ [])
asg_quiet configs a h = (ground arith, ground arith)

lb_quiet :
    (configs : List LoadBalancerConfig) (a : LbAction)
    → changes_lb a ≡ false
    → (lb_deletion a ≡ []) × (lb_creation configs a ≡ [])
lb_quiet configs a h = (ground arith, ground arith)

app_quiet :
    (activate : Bool) (configs : Dict String ApplicationConfig) (a : PlannedAction)
    → changes_app a ≡ false
    → deployment activate configs a ≡ []
app_quiet activate configs a h = ground arith

abbrev pub is_approved : Shell → Bool → Bool
is_approved shell auto_approve =
    auto_approve || (elim shell.read_line [ failure e ↦ false | value input ↦ is_yes shell input ])

module _ (shell : Shell) (P : Platform) where
  approved-Follows :
      (path : String) (activate : Bool) (cfg : ClusterConfig) (plan : ExecutionPlan)
      → Follows step_of
          (plan_steps activate cfg plan)
          (apply_approved shell P path activate cfg plan)
  unfolding apply_approved
  approved-Follows path activate cfg plan =
      Follows-then (Follows-none {effect = writing} (Does-print _)) (
        Follows-eq (append-nil _) (
          Follows-then (Follows-on_error _ (apply-Follows P path activate cfg plan))
            (Follows-none {effect = writing} (Does-print _))))

  -- Once the plan is printed, the command apply refines it, whatever the service answers: if the plan
  -- has changes, and --auto-approve is given or y or yes is typed, the changes that it asks of the
  -- service are those that the plan calls for, in their order, all of them if it succeeds and some
  -- first of them if it fails. Otherwise it asks for none.
  pub apply_planned-Follows :
      (path : String) (activate auto_approve : Bool) (cfg : ClusterConfig) (plan : ExecutionPlan)
      → Follows step_of
          (if has_changes plan && is_approved shell auto_approve
            then plan_steps activate cfg plan
            else [])
          (apply_planned shell P path activate auto_approve cfg plan)
  unfolding apply_planned
  apply_planned-Follows path activate auto_approve cfg plan =
      Follows-if (has_changes plan)
        (λ h.
          Follows-if auto_approve
            (λ a. Follows-eq (rw (h, a) refl) (approved-Follows path activate cfg plan))
            (λ a. Follows-then (Follows-none {effect = writing} (Does-print _)) (
              Follows-of_reply _ shell.read_line (λ input e.
                Follows-if (is_yes shell input)
                  (λ y. Follows-eq (rw (h, a, e, y) refl) (approved-Follows path activate cfg plan))
                  (λ n.
                    Follows-eq (rw (h, a, e, n) refl)
                      (Follows-none {effect = writing} (Does-print _)))))))
        (λ h. Follows-eq (rw h refl) (Follows-none {effect = writing} (Does-print _)))

-- When the command apply says that there are no changes to apply, the plan calls for none: Apply
-- would have asked the service for no change.
pub has_changes-plan_steps :
    (activate : Bool) (cfg : ClusterConfig) (plan : ExecutionPlan)
    → has_changes plan ≡ false
    → plan_steps activate cfg plan ≡ []
unfolding has_changes
has_changes-plan_steps activate cfg plan h =
    let asgs = any-none changes_asg plan.asg_actions (ground arith) in
    let lbs = any-none changes_lb plan.lb_actions (ground arith) in
    let apps = any-none changes_app plan.actions (ground arith) in
    let none_lb : (f : LbAction → List Step)
        → ((a : LbAction) → changes_lb a ≡ false → f a ≡ [])
        → concat_map f plan.lb_actions ≡ [] =
      λ f quiet. steps-none changes_lb f _ quiet lbs in
    let none_asg : (f : AsgAction → List Step)
        → ((a : AsgAction) → changes_asg a ≡ false → f a ≡ [])
        → concat_map f plan.asg_actions ≡ [] =
      λ f quiet. steps-none changes_asg f _ quiet asgs in
    ap₂ ◌++◌ (none_lb lb_deletion (λ a q. (lb_quiet [] a q).0)) (
      ap₂ ◌++◌ (none_asg asg_deletion (λ a q. (asg_quiet [] a q).0)) (
        ap₂ ◌++◌ (none_asg (asg_creation cfg.auto_scaling_groups) (λ a q. (asg_quiet _ a q).1)) (
          ap₂ ◌++◌ (none_lb (lb_creation cfg.load_balancers) (λ a q. (lb_quiet _ a q).1))
            (steps-none changes_app _ _ (app_quiet activate _) apps))))
