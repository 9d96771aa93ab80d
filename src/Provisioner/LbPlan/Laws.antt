-- ===== src/Provisioner/LbPlan/Laws.antt =====
-- What the planned actions on load balancers are.
use apprun_dedicated_provisi.Base.{
  String, Bool, true, false, none, some, List, [], ◌∷◌, map, concat_map, ◌≡◌, ◌≢◌, refl, ◌↔◌, inl,
  inr, Option-cases, Bool-cases, All, All-append, All-unappend, All-concat_map, All-map_every,
  All-iff, string_eq,
}
use apprun_dedicated_provisi.Base.Dict.{Dict, RangeOrder, IsShuffle}
use apprun_dedicated_provisi.Config.{LoadBalancerConfig}
use apprun_dedicated_provisi.Api.{Uuid, ReadAutoScalingGroupDetail, ReadLoadBalancerDetail}
use apprun_dedicated_provisi.Lb.{compare_lb}
use apprun_dedicated_provisi.Lb.Laws.{SameSettings, compare_lb_iff}
use apprun_dedicated_provisi.Provisioner.AsgPlan.{AsgAction}
use apprun_dedicated_provisi.Provisioner.LbPlan.{
  LbAction, LbActionType, delete, recreate, noop, skip, Lbs, is_recreating, asg_id_of, current_lb,
  is_desired, compared, plan_lb, skip_lb, skip_lbs, plan_lbs,
}

-- Nothing to do for the action.
abbrev pub is_quiet : LbActionType → Bool
is_quiet noop = true
is_quiet skip = true
is_quiet _ = false

abbrev pub IsQuiet : LbAction → Type 0
IsQuiet a = is_quiet a.action ≡ true

-- The action names the load balancer that is listed under its name in its group, and that group.
pub record Recreates (asgs : List ReadAutoScalingGroupDetail) (lbs : Lbs) (a : LbAction)
    : Type 0 where
  pub lb : ReadLoadBalancerDetail
  pub listed_lb : current_lb a.asg_name a.name lbs ≡ some lb
  pub deletes_lb : a.existing_id ≡ some lb.load_balancer_id
  pub asg : Uuid
  pub listed_asg : asg_id_of a.asg_name asgs ≡ some asg
  pub in_asg : a.asg_id ≡ some asg

-- What Apply relies on: no plain deletion, a recreation knows the load balancer to delete and its
-- group, and a load balancer is not left as it is in a group that is recreated.
pub record IsSound (asgs : List ReadAutoScalingGroupDetail) (asg_actions : List AsgAction)
    (lbs : Lbs) (a : LbAction) : Type 0 where
  pub no_delete : a.action ≢ delete
  pub recreates : a.action ≡ recreate → Recreates asgs lbs a
  pub follows : is_recreating a.asg_name asg_actions ≡ true → a.action ≢ noop

module _ (range : RangeOrder) (asg_actions : List AsgAction) where
  compared-IsSound :
      (asgs : List ReadAutoScalingGroupDetail) (lbs : Lbs) (c : ReadLoadBalancerDetail) (asg : Uuid)
      (d : LoadBalancerConfig)
      → asg_id_of d.auto_scaling_group_name asgs ≡ some asg
      → current_lb d.auto_scaling_group_name d.name lbs ≡ some c
      → (recreating : Bool) (changes : List String)
      → is_recreating d.auto_scaling_group_name asg_actions ≡ recreating
      → IsSound asgs asg_actions lbs (compared range c asg d recreating changes)
  unfolding compared
  compared-IsSound asgs lbs c asg d has_asg found true changes h = record {
    no_delete = λ p. cc;
    recreates = λ p. record {
      lb = c;
      listed_lb = found;
      deletes_lb = refl;
      asg = asg;
      listed_asg = has_asg;
      in_asg = refl;
    };
    follows = λ r p. cc;
  }
  compared-IsSound asgs lbs c asg d has_asg found false (line ∷ changes) h = record {
    no_delete = λ p. cc;
    recreates = λ p. record {
      lb = c;
      listed_lb = found;
      deletes_lb = refl;
      asg = asg;
      listed_asg = has_asg;
      in_asg = refl;
    };
    follows = λ r p. cc;
  }
  compared-IsSound asgs lbs c asg d has_asg found false [] h = record {
    no_delete = λ p. cc;
    recreates = λ p. cc;
    follows = λ r p. cc;
  }

  plan_lb-IsSound :
      (asgs : List ReadAutoScalingGroupDetail) (lbs : Lbs) (d : LoadBalancerConfig)
      → IsSound asgs asg_actions lbs (plan_lb range asgs asg_actions lbs d)
  unfolding plan_lb
  plan_lb-IsSound asgs lbs d = elim (Option-cases (asg_id_of d.auto_scaling_group_name asgs)) [
    | inl no_asg ↦
        rw (no_asg, plan_lb)
          (record { no_delete = λ p. cc; recreates = λ p. cc; follows = λ r p. cc })
    | inr (asg, has_asg) ↦ elim (Option-cases (current_lb d.auto_scaling_group_name d.name lbs)) [
      | inl missing ↦
          rw (has_asg, missing, plan_lb)
            (record { no_delete = λ p. cc; recreates = λ p. cc; follows = λ r p. cc })
      | inr (c, found) ↦
          rw (has_asg, found, plan_lb)
            (compared-IsSound asgs lbs c asg d has_asg found _ (compare_lb range c d) refl)
    ]
  ]

  skip_lbs-All :
      (Q : LbAction → Type 0)
      → ((asg lb : String)
          → Q (record {
            action = skip;
            name = lb;
            asg_name = asg;
            changes = "not in YAML, skipping" ∷ [];
            existing_id = none;
            asg_id = none;
          }))
      → (desired : List LoadBalancerConfig) (lbs : Lbs) → All Q (skip_lbs range desired lbs)
  unfolding skip_lbs
  skip_lbs-All Q h desired lbs =
      All-concat_map Q (λ entry. concat_map (skip_lb range desired entry.0) (range _ entry.1))
        (range (String × Dict String ReadLoadBalancerDetail) lbs)
        (λ entry. All-concat_map Q (skip_lb range desired entry.0) (range _ entry.1) (one entry.0))
    where
      one :
          (asg : String) (entry : String × ReadLoadBalancerDetail)
          → All Q (skip_lb range desired asg entry)
      one asg (lb, c) = elim (Bool-cases (is_desired asg lb desired)) [
        | inl wanted ↦ rw (wanted, skip_lb) tt
        | inr other ↦ rw (other, skip_lb) (h asg lb, tt)
      ]

  -- In whatever order maps are visited: no planned action on a load balancer deletes it for good, each
  -- that recreates one has the identifier of the load balancer that is listed under its name in its
  -- group and the identifier under which this group is listed, and a load balancer that is planned as
  -- unchanged is in no group that the actions on groups recreate.
  pub plan_lbs-IsSound :
      (asgs : List ReadAutoScalingGroupDetail) (lbs : Lbs) (desired : List LoadBalancerConfig)
      → All (IsSound asgs asg_actions lbs) (plan_lbs range asgs asg_actions lbs desired)
  unfolding plan_lbs
  plan_lbs-IsSound asgs lbs desired =
      All-append (IsSound asgs asg_actions lbs) (map (plan_lb range asgs asg_actions lbs) desired) _
        (All-map_every (IsSound asgs asg_actions lbs) _ desired (plan_lb-IsSound asgs lbs))
        (skip_lbs-All (IsSound asgs asg_actions lbs)
          (λ asg lb. record { no_delete = λ p. cc; recreates = λ p. cc; follows = λ r p. cc })
          desired lbs)

  module _ (shuffle : IsShuffle range) where
    -- The group is listed and not recreated, and the load balancer listed in it has the configured
    -- settings.
    pub record UpToDate (asgs : List ReadAutoScalingGroupDetail) (lbs : Lbs)
        (d : LoadBalancerConfig) : Type 0 where
      pub asg : Uuid
      pub has_asg : asg_id_of d.auto_scaling_group_name asgs ≡ some asg
      pub lb : ReadLoadBalancerDetail
      pub has_lb : current_lb d.auto_scaling_group_name d.name lbs ≡ some lb
      pub kept : is_recreating d.auto_scaling_group_name asg_actions ≡ false
      pub same : SameSettings lb d

    compared-IsQuiet :
        (c : ReadLoadBalancerDetail) (asg : Uuid) (d : LoadBalancerConfig) (recreating : Bool)
        (changes : List String)
        → IsQuiet (compared range c asg d recreating changes)
          ↔ ((recreating ≡ false) × (changes ≡ []))
    unfolding compared
    compared-IsQuiet c asg d true changes = (λ p. cc, λ p. cc)
    compared-IsQuiet c asg d false (line ∷ changes) = (λ p. cc, λ p. cc)
    compared-IsQuiet c asg d false [] = (λ p. (refl, refl), λ p. refl)

    plan_lb-IsQuiet :
        (asgs : List ReadAutoScalingGroupDetail) (lbs : Lbs) (d : LoadBalancerConfig)
        → IsQuiet (plan_lb range asgs asg_actions lbs d) ↔ UpToDate asgs lbs d
    unfolding plan_lb
    plan_lb-IsQuiet asgs lbs d = (
      (λ p. elim (Option-cases (asg_id_of d.auto_scaling_group_name asgs)) [
        | inl no_asg ↦ cc (rw (no_asg, plan_lb) at p)
        | inr (asg, has_asg) ↦
            elim (Option-cases (current_lb d.auto_scaling_group_name d.name lbs)) [
              | inl missing ↦ cc (rw (has_asg, missing, plan_lb) at p)
              | inr (c, found) ↦
                  let (kept, unchanged) =
                    (compared-IsQuiet c asg d _ (compare_lb range c d)).0
                      (rw (has_asg, found, plan_lb) at p) in
                  record {
                    asg = asg;
                    has_asg = has_asg;
                    lb = c;
                    has_lb = found;
                    kept = kept;
                    same = (compare_lb_iff range shuffle c d).0 unchanged;
                  }
            ]
      ]),
      (λ u.
          rw (u.has_asg, u.has_lb, plan_lb)
            ((compared-IsQuiet u.lb u.asg d _ (compare_lb range u.lb d)).1
              (u.kept, (compare_lb_iff range shuffle u.lb d).1 u.same))),
    )

    -- In whatever order maps are visited: the plan has nothing to do for load balancers, that is all
    -- its actions are no-ops or skips, exactly when for every configured one the group is listed and
    -- not recreated, and the load balancer is listed in it with the configured settings.
    pub plan_lbs-IsQuiet_iff :
        (asgs : List ReadAutoScalingGroupDetail) (lbs : Lbs) (desired : List LoadBalancerConfig)
        → All IsQuiet (plan_lbs range asgs asg_actions lbs desired)
          ↔ All (UpToDate asgs lbs) desired
    unfolding plan_lbs
    plan_lbs-IsQuiet_iff asgs lbs desired =
        let each =
          All-iff IsQuiet (UpToDate asgs lbs) (plan_lb range asgs asg_actions lbs) desired
            (plan_lb-IsQuiet asgs lbs) in
        (
          (λ all. each.0 (All-unappend IsQuiet _ _ all)),
          (λ all.
              All-append IsQuiet _ _ (each.1 all)
                (skip_lbs-All IsQuiet (λ asg lb. refl) desired lbs)),
        )
