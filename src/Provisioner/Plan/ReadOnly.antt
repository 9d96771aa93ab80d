-- ===== src/Provisioner/Plan/ReadOnly.antt =====
-- A plan only reads.
use apprun_dedicated_provisi.Base.{string_eq, String, List, [], ◌∷◌, refl}
use apprun_dedicated_provisi.Base.Dict.{Dict, remove}
use apprun_dedicated_provisi.Config.{
  ClusterConfig, AutoScalingGroupConfig, LoadBalancerConfig, ApplicationConfig,
}
use apprun_dedicated_provisi.Api.{Uuid, ReadAutoScalingGroupDetail, ReadApplicationDetail}
use apprun_dedicated_provisi.Platform.{Platform}
use apprun_dedicated_provisi.Platform.Traces.{
  reading, Does, Does-pure, Does-read_state, Does-bind, Does-on_error, Does-option,
}
use apprun_dedicated_provisi.Provisioner.Listing.Reads.{
  IsRead, list_all_asgs-Does, list_all_lbs-Does, list_all_applications-Does,
  resolve_cluster_id-Does, get_latest_version-Does,
}
use apprun_dedicated_provisi.Provisioner.AsgPlan.{AsgAction, plan_asg_changes}
use apprun_dedicated_provisi.Provisioner.LbPlan.{Lbs, list_lbs_of, plan_lb_changes}
use apprun_dedicated_provisi.Provisioner.Plan.{
  PlannedAction, plan_update, plan_applications, create_plan,
}

module _ (P : Platform) where
  plan_asg_changes-Does :
      (cluster : Uuid) (desired : List AutoScalingGroupConfig)
      → Does reading IsRead (plan_asg_changes P cluster desired)
  unfolding plan_asg_changes
  plan_asg_changes-Does cluster desired =
      Does-bind (list_all_asgs-Does P cluster (λ cursor. refl)) (λ current. Does-pure _)

  list_lbs_of-Does :
      (cluster : Uuid) (asgs : List ReadAutoScalingGroupDetail) (lbs : Lbs)
      → Does reading IsRead (list_lbs_of P cluster asgs lbs)
  unfolding list_lbs_of
  list_lbs_of-Does cluster [] lbs = Does-pure lbs
  list_lbs_of-Does cluster (asg ∷ rest) lbs =
      Does-bind (list_all_lbs-Does P cluster asg.auto_scaling_group_id)
        (λ listed. list_lbs_of-Does cluster rest _)

  plan_lb_changes-Does :
      (cluster : Uuid) (desired : List LoadBalancerConfig) (asgs : List ReadAutoScalingGroupDetail)
      (actions : List AsgAction)
      → Does reading IsRead (plan_lb_changes P cluster desired asgs actions)
  unfolding plan_lb_changes
  plan_lb_changes-Does cluster desired asgs actions =
      Does-bind (list_lbs_of-Does cluster asgs []) (λ lbs. Does-pure _)

  plan_update-Does :
      (existing : ReadApplicationDetail) (app : ApplicationConfig)
      → Does reading IsRead (plan_update P existing app)
  unfolding plan_update
  plan_update-Does existing app =
      Does-bind
        (Does-on_error _
          (get_latest_version-Does P existing.application_id (λ _. refl) (λ _. refl)))
        (λ latest.
          Does-bind Does-read_state
            (λ state. Does-option latest (Does-pure _) (λ version. Does-pure _)))

  plan_applications-Does :
      (existing : Dict String ReadApplicationDetail) (apps : List ApplicationConfig)
      (actions : List PlannedAction)
      → Does reading IsRead (plan_applications P existing apps actions)
  unfolding plan_applications
  plan_applications-Does existing [] actions = Does-pure actions
  plan_applications-Does existing (app ∷ rest) actions =
      Does-option _ (plan_applications-Does existing rest _) (λ found.
        Does-bind (Does-on_error _ (plan_update-Does found app))
          (λ action. plan_applications-Does (remove app.name existing) rest _))

  -- Whatever the service answers, and whether CreatePlan returns or fails: every call that it makes
  -- is a listing or a get, and the provisioner's state is the same afterwards.
  pub create_plan-reads : (cfg : ClusterConfig) → Does reading IsRead (create_plan P cfg)
  unfolding create_plan
  create_plan-reads cfg =
      Does-bind (Does-on_error _ (resolve_cluster_id-Does P cfg.cluster_name)) (λ cluster.
        Does-bind (Does-on_error _ (list_all_asgs-Does P cluster (λ cursor. refl))) (λ current.
          Does-bind (Does-on_error _ (plan_asg_changes-Does cluster cfg.auto_scaling_groups))
            (λ actions.
              Does-bind
                (Does-on_error _ (plan_lb_changes-Does cluster cfg.load_balancers current actions))
                (λ lbs.
                  Does-bind
                    (Does-on_error _ (list_all_applications-Does P cluster (λ cursor. refl)))
                    (λ existing.
                      Does-bind (plan_applications-Does _ cfg.applications [])
                        (λ planned. Does-pure _))))))
