-- ===== src/Provisioner/Dump/Listings.antt =====
-- What DumpClusterConfig makes of the listings of groups and load balancers, and a plan over it.
use mathlib.Core.List.{append_assoc, append-nil}
use apprun_dedicated_provisi.Base.{List, [], ◌∷◌, ◌++◌, map, ◌≡◌, sym, ap, ap₂, ◌∙◌, All, string_eq}
use apprun_dedicated_provisi.Base.Dict.{IsShuffle}
use apprun_dedicated_provisi.Config.{AutoScalingGroupConfig, LoadBalancerConfig}
use apprun_dedicated_provisi.Api.{Uuid}
use apprun_dedicated_provisi.Platform.{
  Platform, Env, ok, pure, on_error, rewritten, ◌>>=◌, continue,
}
use apprun_dedicated_provisi.Provisioner.Listing.{list_all_lbs}
use apprun_dedicated_provisi.Provisioner.AsgPlan.{plan_asgs}
use apprun_dedicated_provisi.Provisioner.AsgPlan.Laws.{IsQuiet as IsQuietAsg}
use apprun_dedicated_provisi.Provisioner.LbPlan.{plan_lbs}
use apprun_dedicated_provisi.Provisioner.LbPlan.Laws.{IsQuiet as IsQuietLb}
use apprun_dedicated_provisi.Provisioner.Dump.{dump_asg, dump_lb, dump_asgs}
use apprun_dedicated_provisi.Provisioner.Dump.Plans.{
  Listed, listed_asgs, listed_onto, dumped_asgs, dumped_lbs, IsDistinct, plan-dump-IsQuiet,
}

module _ (P : Platform) (cluster : Uuid) where
  -- One group after the other, the service lists the load balancers of it.
  pub data ListsLbs : List Listed → Env P → Env P → Type 0 where
    none_left : {env : Env P} → ListsLbs [] env env
    listed :
        {l : Listed} {ls : List Listed} {env env' end : Env P}
        → list_all_lbs P cluster l.asg.auto_scaling_group_id env ≡ (ok l.lbs, env')
        → ListsLbs ls env' end
        → ListsLbs (l ∷ ls) env end

  dump_asgs-ListsLbs :
      (ls : List Listed) (env end : Env P) (groups : List AutoScalingGroupConfig)
      (balancers : List LoadBalancerConfig)
      → ListsLbs ls env end
      → dump_asgs P cluster (listed_asgs ls) groups balancers env
        ≡ (ok (groups ++ dumped_asgs ls, balancers ++ dumped_lbs ls), end)
  unfolding dump_asgs pure ◌>>=◌ continue on_error rewritten
  dump_asgs-ListsLbs [] env end groups balancers none_left =
      ap (λ r. (ok r, end))
        (ap₂ (λ g b. (g, b)) (sym (append-nil groups)) (sym (append-nil balancers)))
  dump_asgs-ListsLbs (l ∷ ls) env end groups balancers (listed {env' = env'} found rest) =
      rw (found, dump_asgs)
        (dump_asgs-ListsLbs ls env' end (groups ++ (dump_asg l.asg ∷ []))
            (balancers ++ map (dump_lb l.asg.name) l.lbs) rest
          ∙ ap (λ r. (ok r, end))
              (ap₂ (λ g b. (g, b)) (append_assoc groups _ _) (append_assoc balancers _ _)))

  -- In whatever order maps are visited: let the service list the load balancers of the listed groups,
  -- no two groups with one name, nor two load balancers of one group. Then DumpClusterConfig makes of
  -- them groups and load balancers for which a plan over the same listings has only no-ops and skips.
  pub dump_asgs-IsQuiet :
      (ls : List Listed) (env end : Env P)
      → IsShuffle P.range
      → IsDistinct ls
      → ListsLbs ls env end
      → (dumped : List AutoScalingGroupConfig × List LoadBalancerConfig) × (dump_asgs P cluster
            (listed_asgs ls)
            []
            []
            env
          ≡ (ok dumped, end))
        × All IsQuietAsg (plan_asgs P.range (listed_asgs ls) dumped.0)
        × All IsQuietLb (
            plan_lbs P.range
              (listed_asgs ls)
              (plan_asgs P.range (listed_asgs ls) dumped.0)
              (listed_onto [] ls)
              dumped.1)
  dump_asgs-IsQuiet ls env end shuffle distinct lists =
      let quiet = plan-dump-IsQuiet P.range shuffle ls distinct in
      ((dumped_asgs ls, dumped_lbs ls), dump_asgs-ListsLbs ls env end [] [] lists, quiet.0, quiet.1)
