-- ===== src/Provisioner/AsgPlan.antt =====
-- provisioner/autoscaling.go: planASGChanges.
pub mod Laws
use apprun_dedicated_provisi.Base.{
  ℕ, String, Bool, true, false, Option, none, some, List, [], ◌∷◌, ◌++◌, map, concat_map, string_eq,
  if◌then◌else◌,
}
use apprun_dedicated_provisi.Base.Dict.{Dict, RangeOrder, lookup, insert, index_by}
use apprun_dedicated_provisi.Config.{AutoScalingGroupConfig}
use apprun_dedicated_provisi.Api.{Uuid, ReadAutoScalingGroupDetail}
use apprun_dedicated_provisi.Asg.{compare_asg, describe_asg_config}
use apprun_dedicated_provisi.Platform.{Platform, Action, pure, ◌>>=◌}
use apprun_dedicated_provisi.Provisioner.Listing.{list_all_asgs}

pub data AsgActionType : Type 0 where
  create delete recreate noop skip : AsgActionType

pub record AsgAction : Type 0 where
  pub action : AsgActionType
  pub name : String
  pub changes : List String
  pub existing_id : Option Uuid

abbrev pub asg_name : ReadAutoScalingGroupDetail → String
asg_name asg = asg.name

abbrev pub desired_name : AutoScalingGroupConfig → String
desired_name asg = asg.name

module _ (range : RangeOrder) where
  -- The comparison of a group that exists.
  pub compared : ReadAutoScalingGroupDetail → AutoScalingGroupConfig → List String → AsgAction
  compared c d [] = record { action = noop; name = d.name; changes = []; existing_id = none }
  compared c d (line ∷ changes) = record {
    action = recreate;
    name = d.name;
    changes = line ∷ changes;
    existing_id = some c.auto_scaling_group_id;
  }

  -- One round of the loop over the desired groups.
  unfoldable pub plan_asg :
      Dict String ReadAutoScalingGroupDetail → AutoScalingGroupConfig → AsgAction
  unfolding compared
  plan_asg current_by_name d = elim (lookup d.name current_by_name) [
    | none ↦ record {
      action = create;
      name = d.name;
      changes = describe_asg_config d;
      existing_id = none;
    }
    | some c ↦ compared c d (compare_asg range c d)
  ]

  -- One round of the loop over the current groups.
  unfoldable pub skip_asg :
      Dict String AutoScalingGroupConfig → String × ReadAutoScalingGroupDetail → List AsgAction
  skip_asg desired_names (name, asg) = elim (lookup name desired_names) [
    | some d ↦ []
    | none ↦
        (record {
          action = skip;
          name = name;
          changes = "not in YAML, skipping" ∷ [];
          existing_id = none;
        })
        ∷ []
  ]

  -- planASGChanges, from the listed groups on. The set `desiredNames` is the map of the desired
  -- groups by name, of which only the keys are read.
  unfoldable pub plan_asgs :
      List ReadAutoScalingGroupDetail → List AutoScalingGroupConfig → List AsgAction
  unfolding plan_asg skip_asg
  plan_asgs current desired =
      let current_by_name = index_by asg_name current in
      map (plan_asg current_by_name) desired
      ++ concat_map (skip_asg (index_by desired_name desired))
          (range (String × ReadAutoScalingGroupDetail) current_by_name)

-- planASGChanges
unfoldable pub plan_asg_changes :
    (P : Platform) → Uuid → List AutoScalingGroupConfig → Action P (List AsgAction)
unfolding plan_asgs
plan_asg_changes P cluster desired = do
  current ← list_all_asgs P cluster
  pure (plan_asgs P.range current desired)
