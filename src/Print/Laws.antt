-- ===== src/Print/Laws.antt =====
-- The summary that printPlan ends with counts what ApplyCmd.Run looks for.
use apprun_dedicated_provisi.Base.{
  ℕ, ◌+◌, Bool, false, List, [], ◌∷◌, ◌≡◌, refl, sym, ◌∙◌, ◌↔◌, arith, any, length, if◌then◌else◌,
}
use apprun_dedicated_provisi.Provisioner.AsgPlan.{AsgAction}
use apprun_dedicated_provisi.Provisioner.LbPlan.{LbAction}
use apprun_dedicated_provisi.Provisioner.Plan.{PlannedAction, ExecutionPlan}
use apprun_dedicated_provisi.Print.{
  AppCounts, InfraCounts, changes_asg, changes_lb, changes_app, count_apps, count_asgs, count_lbs,
  no_apps, no_infra, total, has_changes,
}

abbrev number : {A : Type 0} → (A → Bool) → List A → ℕ
number p [] = 0
number p (x ∷ xs) = (if p x then 1 else 0) + number p xs

any_iff : {A : Type 0} (p : A → Bool) (xs : List A) → (any p xs ≡ false) ↔ (number p xs ≡ 0)
any_iff p [] = (λ h. refl, λ h. refl)
any_iff p (x ∷ xs) = let ih = any_iff p xs in (λ h. ground (arith, ih.0), λ h. ground (arith, ih.1))

total-count_asgs :
    (actions : List AsgAction) (n : InfraCounts)
    → total (count_asgs actions n) ≡ total n + number changes_asg actions
unfolding count_asgs
total-count_asgs [] n = omega arith
total-count_asgs (a ∷ rest) n = total-count_asgs rest _ ∙ grind arith

total-count_lbs :
    (actions : List LbAction) (n : InfraCounts)
    → total (count_lbs actions n) ≡ total n + number changes_lb actions
unfolding count_lbs
total-count_lbs [] n = omega arith
total-count_lbs (a ∷ rest) n = total-count_lbs rest _ ∙ grind arith

changes-count_apps :
    (actions : List PlannedAction) (n : AppCounts)
    → (count_apps actions n).creates + (count_apps actions n).updates
      ≡ n.creates + n.updates + number changes_app actions
unfolding count_apps
changes-count_apps [] n = omega arith
changes-count_apps (a ∷ rest) n = changes-count_apps rest _ ∙ grind arith

all-count_apps :
    (actions : List PlannedAction) (n : AppCounts)
    → (count_apps actions n).creates + (count_apps actions n).updates + (count_apps actions n).noops
      ≡ n.creates + n.updates + n.noops + length actions
unfolding count_apps
all-count_apps [] n = omega arith
all-count_apps (a ∷ rest) n = all-count_apps rest _ ∙ grind arith

-- ApplyCmd.Run says that there is nothing to apply exactly when the summary that printPlan ends with
-- counts no group and no load balancer to create, delete or recreate, and no application to create or
-- update; and the three counts of applications add up to the planned actions on them.
pub has_changes-counts :
    (plan : ExecutionPlan)
    → let apps = count_apps plan.actions no_apps in
      ((has_changes plan ≡ false) ↔ (
        (total (count_asgs plan.asg_actions no_infra) ≡ 0)
        × ((total (count_lbs plan.lb_actions no_infra) ≡ 0) × (apps.creates + apps.updates ≡ 0))))
      × (apps.creates + apps.updates + apps.noops ≡ length plan.actions)
unfolding has_changes
has_changes-counts plan =
    let apps = count_apps plan.actions no_apps in
    let asgs : total (count_asgs plan.asg_actions no_infra) ≡ number changes_asg plan.asg_actions =
      total-count_asgs plan.asg_actions no_infra ∙ omega arith in
    let lbs : total (count_lbs plan.lb_actions no_infra) ≡ number changes_lb plan.lb_actions =
      total-count_lbs plan.lb_actions no_infra ∙ omega arith in
    let changed : apps.creates + apps.updates ≡ number changes_app plan.actions =
      changes-count_apps plan.actions no_apps ∙ omega arith in
    let any_asgs = any_iff changes_asg plan.asg_actions in
    let any_lbs = any_iff changes_lb plan.lb_actions in
    let any_apps = any_iff changes_app plan.actions in
    (
      (
        (λ h. (
          asgs ∙ any_asgs.0 (ground arith),
          (lbs ∙ any_lbs.0 (ground arith), changed ∙ any_apps.0 (ground arith)),
        )),
        (λ (p, (q, r)). ground (
          arith,
          any_asgs.1 (sym asgs ∙ p),
          any_lbs.1 (sym lbs ∙ q),
          any_apps.1 (sym changed ∙ r),
        )),
      ),
      all-count_apps plan.actions no_apps ∙ omega arith,
    )
