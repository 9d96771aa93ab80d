-- ===== src/Provisioner/Dump/Reads.antt =====
-- A dump only reads.
use apprun_dedicated_provisi.Base.{String, List, [], ◌∷◌, refl}
use apprun_dedicated_provisi.Result.{Reply, value, failure}
use apprun_dedicated_provisi.Config.{AutoScalingGroupConfig, LoadBalancerConfig, ApplicationConfig}
use apprun_dedicated_provisi.Api.{Uuid, ReadAutoScalingGroupDetail, ReadApplicationDetail}
use apprun_dedicated_provisi.Platform.{Platform, Action}
use apprun_dedicated_provisi.Platform.Traces.{
  reading, Does, Does-pure, Does-bind, Does-on_error, Does-attempt,
}
use apprun_dedicated_provisi.Provisioner.Listing.Reads.{
  IsRead, list_all_asgs-Does, list_all_lbs-Does, list_all_applications-Does,
  resolve_cluster_id-Does, get_latest_version-Does,
}
use apprun_dedicated_provisi.Provisioner.Dump.{dump_asgs, dump_apps, dump_cluster_config}

module _ (P : Platform) where
  dump_asgs-Does :
      (cluster : Uuid) (asgs : List ReadAutoScalingGroupDetail)
      (groups : List AutoScalingGroupConfig) (balancers : List LoadBalancerConfig)
      → Does reading IsRead (dump_asgs P cluster asgs groups balancers)
  unfolding dump_asgs
  dump_asgs-Does cluster [] groups balancers = Does-pure _
  dump_asgs-Does cluster (asg ∷ rest) groups balancers =
      Does-bind (Does-on_error _ (list_all_lbs-Does P cluster asg.auto_scaling_group_id))
        (λ lbs. dump_asgs-Does cluster rest _ _)

  Does-reply :
      {A B : Type 0} (r : Reply A) {m : Action P B} {k : A → Action P B}
      → Does reading IsRead m
      → ((a : A) → Does reading IsRead (k a))
      → Does reading IsRead (elim r [ failure e ↦ m | value a ↦ k a ])
  Does-reply (failure e) dm dk = dm
  Does-reply (value a) dm dk = dk a

  dump_apps-Does :
      (cluster : Uuid) (apps : List ReadApplicationDetail) (dumped : List ApplicationConfig)
      → Does reading IsRead (dump_apps P cluster apps dumped)
  unfolding dump_apps
  dump_apps-Does cluster [] dumped = Does-pure dumped
  dump_apps-Does cluster (app ∷ rest) dumped =
      Does-bind
        (Does-attempt (get_latest_version-Does P app.application_id (λ _. refl) (λ _. refl)))
        (λ latest.
          Does-reply latest (dump_apps-Does cluster rest dumped)
            (λ version. dump_apps-Does cluster rest _))

  pub dump_cluster_config-Does :
      (cluster_name : String) → Does reading IsRead (dump_cluster_config P cluster_name)
  unfolding dump_cluster_config
  dump_cluster_config-Does cluster_name =
      Does-bind (Does-on_error _ (resolve_cluster_id-Does P cluster_name)) (λ cluster.
        Does-bind (Does-on_error _ (list_all_asgs-Does P cluster (λ cursor. refl))) (λ asgs.
          Does-bind (dump_asgs-Does cluster asgs [] []) (λ infra.
            Does-bind (Does-on_error _ (list_all_applications-Does P cluster (λ cursor. refl)))
              (λ apps. Does-bind (dump_apps-Does cluster apps []) (λ applications. Does-pure _)))))
