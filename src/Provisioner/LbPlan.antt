-- ===== src/Provisioner/LbPlan.antt =====
-- provisioner/loadbalancer.go: planLBChanges.
pub mod Laws
use apprun_dedicated_provisi.Base.{
  ℕ, String, Bool, true, false, Option, none, some, List, [], ◌∷◌, ◌++◌, map, concat_map, ◌==◌,
  ◌&&◌, string_eq, if◌then◌else◌,
}
use apprun_dedicated_provisi.Base.Dict.{Dict, RangeOrder, lookup, insert, index_by}
use apprun_dedicated_provisi.Config.{LoadBalancerConfig}
use apprun_dedicated_provisi.Api.{Uuid, ReadAutoScalingGroupDetail, ReadLoadBalancerDetail}
use apprun_dedicated_provisi.Lb.{compare_lb, describe_lb_config}
use apprun_dedicated_provisi.Platform.{Platform, Action, pure, ◌>>=◌}
use apprun_dedicated_provisi.Provisioner.Listing.{list_all_lbs}
use apprun_dedicated_provisi.Provisioner.AsgPlan.{AsgActionType, AsgAction, asg_name as group_name}

pub data LbActionType : Type 0 where
  create delete recreate noop skip : LbActionType

pub record LbAction : Type 0 where
  pub action : LbActionType
  pub name : String
  pub asg_name : String
  pub changes : List String
  pub existing_id : Option Uuid
  pub asg_id : Option Uuid

abbrev pub lb_name : ReadLoadBalancerDetail → String
lb_name lb = lb.name

-- asgName -> lbName -> LB
abbrev pub Lbs : Type 0
Lbs = Dict String (Dict String ReadLoadBalancerDetail)

-- `asgRecreating[name]`, which the loop over the ASG actions sets
unfoldable pub is_recreating : String → List AsgAction → Bool
is_recreating name [] = false
is_recreating name (a ∷ rest) =
    if (elim a.action [ AsgActionType.recreate ↦ a.name == name | _ ↦ false ])
    then true
    else is_recreating name rest

-- The map from names to identifiers: `asgNameToID[name]`.
unfoldable pub asg_id_of : String → List ReadAutoScalingGroupDetail → Option Uuid
asg_id_of name asgs = elim (lookup name (index_by group_name asgs)) [
  | none ↦ none
  | some asg ↦ some asg.auto_scaling_group_id
]

-- `currentLBs[asgName][lbName]`; a missing inner map is a nil map.
unfoldable pub current_lb : String → String → Lbs → Option ReadLoadBalancerDetail
current_lb asg lb lbs = elim (lookup asg lbs) [ none ↦ none | some m ↦ lookup lb m ]

-- `desiredLBs[asgName] != nil && desiredLBs[asgName][lbName]`, after the loop over the desired ones
unfoldable pub is_desired : String → String → List LoadBalancerConfig → Bool
is_desired asg lb [] = false
is_desired asg lb (d ∷ rest) =
    if d.auto_scaling_group_name == asg && d.name == lb then true else is_desired asg lb rest

module _ (range : RangeOrder) where
  -- The action for a load balancer that exists, from whether its group is being recreated and from
  -- its changes.
  unfoldable pub compared :
      ReadLoadBalancerDetail → Uuid → LoadBalancerConfig → Bool → List String → LbAction
  compared c asg_id d recreating changes =
      let replaced : List String → LbAction = λ lines. record {
        action = recreate;
        name = d.name;
        asg_name = d.auto_scaling_group_name;
        changes = lines;
        existing_id = some c.load_balancer_id;
        asg_id = some asg_id;
      } in
      if recreating
      then replaced
          (elim changes [ [] ↦ "parent ASG is being recreated" ∷ [] | line ∷ rest ↦ line ∷ rest ])
      else elim changes [
        | line ∷ rest ↦ replaced (line ∷ rest)
        | [] ↦ record {
          action = noop;
          name = d.name;
          asg_name = d.auto_scaling_group_name;
          changes = [];
          existing_id = none;
          asg_id = none;
        }
      ]

  -- One round of the loop over the desired load balancers.
  unfoldable pub plan_lb :
      List ReadAutoScalingGroupDetail → List AsgAction → Lbs → LoadBalancerConfig → LbAction
  unfolding compared
  plan_lb asgs asg_actions lbs d =
      let created : Option Uuid → LbAction = λ asg_id. record {
        action = create;
        name = d.name;
        asg_name = d.auto_scaling_group_name;
        changes = describe_lb_config d;
        existing_id = none;
        asg_id = asg_id;
      } in
      elim (asg_id_of d.auto_scaling_group_name asgs) [
        | none ↦ created none
        | some asg_id ↦ elim (current_lb d.auto_scaling_group_name d.name lbs) [
          | none ↦ created (some asg_id)
          | some c ↦
              compared c asg_id d (is_recreating d.auto_scaling_group_name asg_actions)
                (compare_lb range c d)
        ]
      ]

  -- One round of the inner loop over the current load balancers.
  unfoldable pub skip_lb :
      List LoadBalancerConfig → String → String × ReadLoadBalancerDetail → List LbAction
  skip_lb desired asg (lb, c) =
      if is_desired asg lb desired
      then []
      else (record {
        action = skip;
        name = lb;
        asg_name = asg;
        changes = "not in YAML, skipping" ∷ [];
        existing_id = none;
        asg_id = none;
      })
        ∷ []

  -- The two loops over the current load balancers.
  unfoldable pub skip_lbs : List LoadBalancerConfig → Lbs → List LbAction
  unfolding skip_lb
  skip_lbs desired lbs =
      concat_map
        (λ entry.
          concat_map (skip_lb desired entry.0) (range (String × ReadLoadBalancerDetail) entry.1))
        (range (String × Dict String ReadLoadBalancerDetail) lbs)

  -- planLBChanges, from the listed load balancers on.
  unfoldable pub plan_lbs :
      List ReadAutoScalingGroupDetail
      → List AsgAction
      → Lbs
      → List LoadBalancerConfig
      → List LbAction
  unfolding plan_lb skip_lbs
  plan_lbs asgs asg_actions lbs desired =
      map (plan_lb asgs asg_actions lbs) desired ++ skip_lbs desired lbs

module _ (P : Platform) where
  -- The loop that lists the load balancers of every group.
  unfoldable pub list_lbs_of : Uuid → List ReadAutoScalingGroupDetail → Lbs → Action P Lbs
  list_lbs_of cluster [] lbs = pure lbs
  list_lbs_of cluster (asg ∷ rest) lbs = do
    listed ← list_all_lbs P cluster asg.auto_scaling_group_id
    list_lbs_of cluster rest (insert asg.name (index_by lb_name listed) lbs)

  -- planLBChanges
  unfoldable pub plan_lb_changes :
      Uuid
      → List LoadBalancerConfig
      → List ReadAutoScalingGroupDetail
      → List AsgAction
      → Action P (List LbAction)
  unfolding list_lbs_of plan_lbs
  plan_lb_changes cluster desired asgs asg_actions = do
    lbs ← list_lbs_of cluster asgs []
    pure (plan_lbs P.range asgs asg_actions lbs desired)
