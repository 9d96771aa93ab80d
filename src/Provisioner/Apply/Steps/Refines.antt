-- ===== src/Provisioner/Apply/Steps/Refines.antt =====
-- Apply takes the steps of the plan.
use apprun_dedicated_provisi.Base.{String, Bool, false, [], refl, ap, string_eq}
use mathlib.Core.List.{append-nil}
use apprun_dedicated_provisi.Config.{ClusterConfig}
use apprun_dedicated_provisi.Platform.{Platform}
use apprun_dedicated_provisi.Platform.Traces.{writing, Does-on_error}
use apprun_dedicated_provisi.Platform.Steps.{
  Follows, Follows-none, Follows-bind, Follows-then, Follows-eq,
}
use apprun_dedicated_provisi.Provisioner.Listing.Reads.{
  list_all_asgs-Does, list_all_applications-Does,
}
use apprun_dedicated_provisi.Provisioner.Plan.{ExecutionPlan}
use apprun_dedicated_provisi.Provisioner.Apply.{apply_applications, apply}
use apprun_dedicated_provisi.Provisioner.Apply.Calls.{wait_lbs-Does}
use apprun_dedicated_provisi.Provisioner.Apply.Steps.{step_of, plan_steps}
use apprun_dedicated_provisi.Provisioner.Apply.Steps.Infra.{
  delete_lbs-Follows, delete_asgs-Follows, create_asgs-Follows, create_lbs-Follows,
}
use apprun_dedicated_provisi.Provisioner.Apply.Steps.Applications.{
  apply_actions-Follows, save_if-Follows,
}

module _ (P : Platform) where
  -- Apply refines its plan: whatever the service answers, the changes that it asks of the service are
  -- those that the plan, the configuration and the option call for, in that order, all of them if it
  -- succeeds, and some first of them if it fails. Those are: the deletion of each load balancer and
  -- then of each group that the plan deletes or recreates, by the plan's identifiers; the creation of
  -- each group and then of each load balancer that it creates or recreates, as the configuration of
  -- its name says; and for each application to create that the configuration names the application and
  -- a version, for each to update a version, followed by the activation if the option is set.
  pub apply-Follows :
      (path : String) (activate : Bool) (cfg : ClusterConfig) (plan : ExecutionPlan)
      → Follows step_of (plan_steps activate cfg plan) (apply P path activate cfg plan)
  unfolding apply apply_applications
  apply-Follows path activate cfg plan =
      let cluster = plan.cluster_id in
      Follows-bind
        (Follows-none {effect = writing}
          (Does-on_error _ (list_all_asgs-Does P cluster (λ cursor. refl))))
        (λ current. Follows-bind (delete_lbs-Follows P cluster plan.lb_actions []) (λ waiting.
          Follows-then
            (Follows-none {effect = writing}
              (wait_lbs-Does P cluster waiting (λ c w. ap step_of w.2)))
            (Follows-bind (delete_asgs-Follows P cluster plan.asg_actions _) (λ kept.
              Follows-bind
                (create_asgs-Follows P cluster cfg.auto_scaling_groups plan.asg_actions kept)
                (λ ids.
                  Follows-then (create_lbs-Follows P cluster cfg.load_balancers ids plan.lb_actions)
                    (Follows-bind
                      (Follows-none {effect = writing}
                        (Does-on_error _ (list_all_applications-Does P cluster (λ cursor. refl))))
                      (λ existing. Follows-eq (append-nil _) (
                        Follows-bind
                          (apply_actions-Follows P cluster activate _ _ plan.actions false)
                          (λ modified. save_if-Follows P cluster path modified)))))))))
