-- ===== src/Print.antt =====
-- cmd/apprun-dedicated-provisioner/main.go: printPlan, and when a plan has changes. A list holds what
-- each call of fmt prints, in its order.
pub mod Versions
pub mod Laws
use apprun_dedicated_provisi.Base.{
  ℕ, ◌+◌, ltb, String, ◌<>◌, Bool, true, false, ◌||◌, List, [], ◌∷◌, ◌++◌, map, concat_map, any,
  is_empty, not, if◌then◌else◌,
}
use apprun_dedicated_provisi.Base.Text.{show_nat}
use apprun_dedicated_provisi.Api.{Uuid}
use apprun_dedicated_provisi.Provisioner.AsgPlan.{AsgAction, AsgActionType}
use apprun_dedicated_provisi.Provisioner.LbPlan.{LbAction, LbActionType}
use apprun_dedicated_provisi.Provisioner.Plan.{
  ActionType, PlannedAction, ExecutionPlan, create, update, noop,
}

-- The conditions of the loops that look for changes.
abbrev pub changes_asg : AsgAction → Bool
changes_asg a = elim a.action [
  | AsgActionType.noop ↦ false
  | AsgActionType.skip ↦ false
  | AsgActionType.create ↦ true
  | AsgActionType.delete ↦ true
  | AsgActionType.recreate ↦ true
]

abbrev pub changes_lb : LbAction → Bool
changes_lb a = elim a.action [
  | LbActionType.noop ↦ false
  | LbActionType.skip ↦ false
  | LbActionType.create ↦ true
  | LbActionType.delete ↦ true
  | LbActionType.recreate ↦ true
]

abbrev pub changes_app : PlannedAction → Bool
changes_app a = elim a.action [ noop ↦ false | create ↦ true | update ↦ true ]

-- The changes of an action, one line for each.
change_lines : List String → List String
change_lines = map (λ change. "    " <> change <> "\n")

-- One case of the switch over the actions on groups.
asg_lines : AsgAction → List String
unfolding change_lines
asg_lines a = elim a.action [
  | AsgActionType.create ↦ ("+ " <> a.name <> " (create)\n") ∷ change_lines a.changes
  | AsgActionType.delete ↦ ("- " <> a.name <> " (delete)\n") ∷ []
  | AsgActionType.recreate ↦
      ("~ " <> a.name <> " (recreate - settings changed)\n") ∷ change_lines a.changes
  | AsgActionType.skip ↦ ("  " <> a.name <> " (not in YAML, skipping)\n") ∷ []
  | AsgActionType.noop ↦ ("  " <> a.name <> " (no changes)\n") ∷ []
]

-- One case of the switch over the actions on load balancers.
lb_lines : LbAction → List String
unfolding change_lines
lb_lines a = elim a.action [
  | LbActionType.create ↦
      ("+ " <> a.name <> " (create, ASG: " <> a.asg_name <> ")\n") ∷ change_lines a.changes
  | LbActionType.delete ↦ ("- " <> a.name <> " (delete, ASG: " <> a.asg_name <> ")\n") ∷ []
  | LbActionType.recreate ↦
      ("~ " <> a.name <> " (recreate, ASG: " <> a.asg_name <> " - settings changed)\n")
      ∷ change_lines a.changes
  | LbActionType.skip ↦
      ("  " <> a.name <> " (not in YAML, skipping, ASG: " <> a.asg_name <> ")\n") ∷ []
  | LbActionType.noop ↦ ("  " <> a.name <> " (no changes, ASG: " <> a.asg_name <> ")\n") ∷ []
]

-- One case of the switch over the actions on applications.
app_lines : PlannedAction → List String
unfolding change_lines
app_lines a = elim a.action [
  | create ↦ ("+ " <> a.application_name <> " (create)\n") ∷ change_lines a.changes
  | update ↦ ("~ " <> a.application_name <> " (update)\n") ∷ change_lines a.changes
  | noop ↦ ("  " <> a.application_name <> " (no changes)\n") ∷ []
]

-- The actions of a kind under their title.
action_section : {A : Type 0} → String → (A → Bool) → (A → List String) → List A → List String
action_section title changes lines actions =
    if any changes actions || not (is_empty actions)
    then (title ∷ []) ++ (concat_map lines actions ++ ("\n" ∷ []))
    else []

-- The title of the applications is printed on the same condition, with no line after them.
app_section : List PlannedAction → List String
unfolding app_lines
app_section actions =
    (if any changes_app actions || not (is_empty actions)
      then "=== Applications ===\n" ∷ []
      else [])
    ++ concat_map app_lines actions

pub record AppCounts : Type 0 where
  pub creates : ℕ
  pub updates : ℕ
  pub noops : ℕ

pub record InfraCounts : Type 0 where
  pub creates : ℕ
  pub deletes : ℕ
  pub recreates : ℕ

-- The loops that count.
unfoldable pub count_apps : List PlannedAction → AppCounts → AppCounts
count_apps [] n = n
count_apps (a ∷ rest) n = count_apps rest (elim a.action [
  | create ↦ record n { creates = n.creates + 1 }
  | update ↦ record n { updates = n.updates + 1 }
  | noop ↦ record n { noops = n.noops + 1 }
])

unfoldable pub count_asgs : List AsgAction → InfraCounts → InfraCounts
count_asgs [] n = n
count_asgs (a ∷ rest) n = count_asgs rest (elim a.action [
  | AsgActionType.create ↦ record n { creates = n.creates + 1 }
  | AsgActionType.delete ↦ record n { deletes = n.deletes + 1 }
  | AsgActionType.recreate ↦ record n { recreates = n.recreates + 1 }
  | AsgActionType.skip ↦ n
  | AsgActionType.noop ↦ n
])

unfoldable pub count_lbs : List LbAction → InfraCounts → InfraCounts
count_lbs [] n = n
count_lbs (a ∷ rest) n = count_lbs rest (elim a.action [
  | LbActionType.create ↦ record n { creates = n.creates + 1 }
  | LbActionType.delete ↦ record n { deletes = n.deletes + 1 }
  | LbActionType.recreate ↦ record n { recreates = n.recreates + 1 }
  | LbActionType.skip ↦ n
  | LbActionType.noop ↦ n
])

abbrev pub no_apps : AppCounts
no_apps = record { creates = 0; updates = 0; noops = 0 }

abbrev pub no_infra : InfraCounts
no_infra = record { creates = 0; deletes = 0; recreates = 0 }

-- `n.creates + n.deletes + n.recreates`
abbrev pub total : InfraCounts → ℕ
total n = n.creates + n.deletes + n.recreates

infra_summary : String → InfraCounts → List String
infra_summary kind n =
    if ltb 0 (total n)
    then ("  "
        <> kind
        <> ": "
        <> show_nat n.creates
        <> " to create, "
        <> show_nat n.deletes
        <> " to delete, "
        <> show_nat n.recreates
        <> " to recreate\n")
      ∷ []
    else []

-- The part from "Plan Summary" on.
plan_summary : ExecutionPlan → List String
unfolding count_apps count_asgs count_lbs infra_summary
plan_summary plan =
    let apps = count_apps plan.actions no_apps in
    ("\nPlan Summary:\n" ∷ [])
    ++ (infra_summary "ASG" (count_asgs plan.asg_actions no_infra)
        ++ (infra_summary "LB" (count_lbs plan.lb_actions no_infra)
            ++ (("  Applications: "
                  <> show_nat apps.creates
                  <> " to create, "
                  <> show_nat apps.updates
                  <> " to update, "
                  <> show_nat apps.noops
                  <> " unchanged\n")
                ∷ [])))

-- printPlan, with the text of a UUID.
unfoldable pub print_plan : (Uuid → String) → ExecutionPlan → List String
unfolding asg_lines lb_lines action_section app_section plan_summary
print_plan show_uuid plan =
    (("Cluster: " <> plan.cluster_name <> " (" <> show_uuid plan.cluster_id <> ")\n\n") ∷ [])
    ++ (action_section "=== Auto Scaling Groups ===\n" changes_asg asg_lines plan.asg_actions
        ++ (action_section "=== Load Balancers ===\n" changes_lb lb_lines plan.lb_actions
            ++ (app_section plan.actions ++ plan_summary plan)))

-- `hasChanges` of ApplyCmd.Run
unfoldable pub has_changes : ExecutionPlan → Bool
has_changes plan =
    any changes_asg plan.asg_actions
    || any changes_lb plan.lb_actions
    || any changes_app plan.actions
