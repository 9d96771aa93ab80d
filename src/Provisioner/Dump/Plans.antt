-- ===== src/Provisioner/Dump/Plans.antt =====
-- A plan over what was dumped has nothing to do.
use apprun_dedicated_provisi.Base.{
  String, false, some, List, [], ◌∷◌, map, concat_map, ◌≡◌, refl, ◌∙◌, arith, All, All-append,
  All-imp, All-and, All-map, All-unmap, ◌==◌, beq_refl, string_eq,
}
use apprun_dedicated_provisi.Base.Dict.{
  RangeOrder, IsShuffle, lookup, insert, index_by, DistinctBy, lookup-index_by_self, lookup-insert,
}
use apprun_dedicated_provisi.Config.{AutoScalingGroupConfig, LoadBalancerConfig}
use apprun_dedicated_provisi.Api.{ReadAutoScalingGroupDetail, ReadLoadBalancerDetail}
use apprun_dedicated_provisi.Provisioner.AsgPlan.{AsgAction, asg_name, plan_asgs}
use apprun_dedicated_provisi.Provisioner.AsgPlan.Laws.{
  IsQuiet as IsQuietAsg, UpToDate as UpToDateAsg, plan_asgs-IsQuiet_iff,
}
use apprun_dedicated_provisi.Provisioner.LbPlan.{
  Lbs, lb_name, asg_id_of, current_lb, is_recreating, plan_lbs,
}
use apprun_dedicated_provisi.Provisioner.LbPlan.Laws.{
  IsQuiet as IsQuietLb, UpToDate as UpToDateLb, plan_lbs-IsQuiet_iff,
}
use apprun_dedicated_provisi.Provisioner.Dump.{dump_asg, dump_lb}
use apprun_dedicated_provisi.Provisioner.Dump.Laws.{dump_asg-SameSettings, dump_lb-SameSettings}

-- A listed group with its listed load balancers.
pub record Listed : Type 0 where
  pub asg : ReadAutoScalingGroupDetail
  pub lbs : List ReadLoadBalancerDetail

abbrev pub listed_asgs : List Listed → List ReadAutoScalingGroupDetail
listed_asgs = map (λ l. l.asg)

-- The dictionary that planLBChanges makes of the listings.
abbrev pub listed_onto : Lbs → List Listed → Lbs
listed_onto m [] = m
listed_onto m (l ∷ ls) = listed_onto (insert l.asg.name (index_by lb_name l.lbs) m) ls

-- What DumpClusterConfig makes of the listings.
abbrev pub dumped_asgs : List Listed → List AutoScalingGroupConfig
dumped_asgs = map (λ l. dump_asg l.asg)

abbrev pub dumped_lbs : List Listed → List LoadBalancerConfig
dumped_lbs = concat_map (λ l. map (dump_lb l.asg.name) l.lbs)

abbrev listed_name : Listed → String
listed_name l = l.asg.name

-- No two groups have one name, nor two load balancers of one group.
pub record IsDistinct (ls : List Listed) : Type 0 where
  pub groups : DistinctBy listed_name ls
  pub balancers : All (λ l. DistinctBy lb_name l.lbs) ls

listed_onto_ne :
    (m : Lbs) (ls : List Listed) (k : String)
    → All (λ l. (listed_name l == k) ≡ false) ls
    → lookup k (listed_onto m ls) ≡ lookup k m
listed_onto_ne m [] k h = refl
listed_onto_ne m (l ∷ ls) k h =
    listed_onto_ne (insert l.asg.name (index_by lb_name l.lbs) m) ls k h.1
    ∙ ground (arith, lookup-insert l.asg.name k (index_by lb_name l.lbs) m, h.0)

listed_onto_self :
    (m : Lbs) (ls : List Listed)
    → DistinctBy listed_name ls
    → All (λ l. lookup l.asg.name (listed_onto m ls) ≡ some (index_by lb_name l.lbs)) ls
listed_onto_self m [] d = tt
listed_onto_self m (l ∷ ls) d = (
  listed_onto_ne (insert l.asg.name (index_by lb_name l.lbs) m) ls l.asg.name d.0
      ∙ ground (
        arith,
        lookup-insert l.asg.name l.asg.name (index_by lb_name l.lbs) m,
        beq_refl l.asg.name,
      ),
  listed_onto_self (insert l.asg.name (index_by lb_name l.lbs) m) ls d.1,
)

listed_asgs-DistinctBy :
    (ls : List Listed) → DistinctBy listed_name ls → DistinctBy asg_name (listed_asgs ls)
listed_asgs-DistinctBy [] d = tt
listed_asgs-DistinctBy (l ∷ ls) d =
    (All-map _ (λ (k : Listed). k.asg) ls d.0, listed_asgs-DistinctBy ls d.1)

-- A group is found among the listed ones.
listed_found :
    (ls : List Listed)
    → DistinctBy listed_name ls
    → All (λ l. lookup l.asg.name (index_by asg_name (listed_asgs ls)) ≡ some l.asg) ls
listed_found ls d =
    All-unmap _ (λ (k : Listed). k.asg) ls
      (lookup-index_by_self asg_name (listed_asgs ls) (listed_asgs-DistinctBy ls d))

quiet-not_recreating :
    (name : String) (actions : List AsgAction)
    → All IsQuietAsg actions
    → is_recreating name actions ≡ false
unfolding is_recreating
quiet-not_recreating name [] h = refl
quiet-not_recreating name (a ∷ actions) h =
    ground (arith, h.0, quiet-not_recreating name actions h.1)

module _ (range : RangeOrder) (shuffle : IsShuffle range) (ls : List Listed)
    (distinct : IsDistinct ls) where
  dumped_asgs-IsQuiet : All IsQuietAsg (plan_asgs range (listed_asgs ls) (dumped_asgs ls))
  unfolding dump_asg
  dumped_asgs-IsQuiet = (plan_asgs-IsQuiet_iff range shuffle (listed_asgs ls) (dumped_asgs ls)).1 (
      All-map (UpToDateAsg range shuffle (listed_asgs ls)) (λ (l : Listed). dump_asg l.asg) ls
        (All-imp _ _ ls (λ l found. (l.asg, found, dump_asg-SameSettings l.asg))
          (listed_found ls distinct.groups)))

  module _ (actions : List AsgAction) (quiet : All IsQuietAsg actions) where
    -- The load balancers of one group.
    dumped_group :
        (l : Listed)
        → lookup l.asg.name (index_by asg_name (listed_asgs ls)) ≡ some l.asg
        → lookup l.asg.name (listed_onto [] ls) ≡ some (index_by lb_name l.lbs)
        → DistinctBy lb_name l.lbs
        → All
            (UpToDateLb range actions shuffle (listed_asgs ls) (listed_onto [] ls))
            (map (dump_lb l.asg.name) l.lbs)
    unfolding asg_id_of current_lb dump_lb
    dumped_group l group table d = All-map _ (dump_lb l.asg.name) l.lbs (
        All-imp _ _ l.lbs
          (λ lb found. record {
            asg = l.asg.auto_scaling_group_id;
            has_asg = rw (group, asg_id_of) refl;
            lb = lb;
            has_lb = rw (table, current_lb) found;
            kept = quiet-not_recreating _ actions quiet;
            same = dump_lb-SameSettings l.asg.name lb;
          })
          (lookup-index_by_self lb_name l.lbs d))

    dumped_lbs-UpToDate :
        (ks : List Listed)
        → All
            (λ l.
              (lookup l.asg.name (index_by asg_name (listed_asgs ls)) ≡ some l.asg)
              × ((lookup l.asg.name (listed_onto [] ls) ≡ some (index_by lb_name l.lbs))
                  × DistinctBy lb_name l.lbs))
            ks
        → All
            (UpToDateLb range actions shuffle (listed_asgs ls) (listed_onto [] ls))
            (dumped_lbs ks)
    dumped_lbs-UpToDate [] h = tt
    dumped_lbs-UpToDate (l ∷ ks) h =
        All-append _ (map (dump_lb l.asg.name) l.lbs) (dumped_lbs ks)
          (dumped_group l h.0.0 h.0.1.0 h.0.1.1) (dumped_lbs-UpToDate ks h.1)

-- In whatever order maps are visited: let no two listed groups have one name, nor two load balancers of
-- one group. Then a plan over these listings, for the groups and load balancers that
-- DumpClusterConfig makes of them, has only no-ops and skips.
pub plan-dump-IsQuiet :
    (range : RangeOrder) (shuffle : IsShuffle range) (ls : List Listed)
    → IsDistinct ls
    → let asg_actions = plan_asgs range (listed_asgs ls) (dumped_asgs ls) in
      All IsQuietAsg asg_actions
      × All IsQuietLb
          (plan_lbs range (listed_asgs ls) asg_actions (listed_onto [] ls) (dumped_lbs ls))
plan-dump-IsQuiet range shuffle ls distinct =
    let quiet = dumped_asgs-IsQuiet range shuffle ls distinct in
    let asg_actions = plan_asgs range (listed_asgs ls) (dumped_asgs ls) in
    (
      quiet,
      (plan_lbs-IsQuiet_iff range asg_actions shuffle (listed_asgs ls) (listed_onto [] ls)
            (dumped_lbs ls)).1
          (dumped_lbs-UpToDate range shuffle ls distinct asg_actions quiet ls (
            All-and _ _ ls (listed_found ls distinct.groups)
              (All-and _ _ ls (listed_onto_self [] ls distinct.groups) distinct.balancers))),
    )
