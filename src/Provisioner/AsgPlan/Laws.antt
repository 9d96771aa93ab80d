-- ===== src/Provisioner/AsgPlan/Laws.antt =====
-- What the planned actions on groups are.
use apprun_dedicated_provisi.Base.{
  String, Bool, true, false, none, some, List, [], ◌∷◌, map, ◌≡◌, ◌≢◌, refl, ◌↔◌, inl, inr,
  Option-cases, All, All-append, All-unappend, All-concat_map, All-map_every, All-iff, string_eq,
}
use apprun_dedicated_provisi.Base.Dict.{Dict, RangeOrder, IsShuffle, lookup, index_by}
use apprun_dedicated_provisi.Config.{AutoScalingGroupConfig}
use apprun_dedicated_provisi.Api.{ReadAutoScalingGroupDetail}
use apprun_dedicated_provisi.Asg.{compare_asg}
use apprun_dedicated_provisi.Asg.Laws.{SameSettings, compare_asg_iff}
use apprun_dedicated_provisi.Provisioner.AsgPlan.{
  AsgAction, AsgActionType, delete, recreate, noop, skip, asg_name, compared, plan_asg, skip_asg,
  plan_asgs,
}

-- Nothing to do for the action.
abbrev pub is_quiet : AsgActionType → Bool
is_quiet noop = true
is_quiet skip = true
is_quiet _ = false

abbrev pub IsQuiet : AsgAction → Type 0
IsQuiet a = is_quiet a.action ≡ true

-- What Apply relies on: no plain deletion, and a recreation has the identifier of the group that stands
-- under its name.
pub record IsSound (current : Dict String ReadAutoScalingGroupDetail) (a : AsgAction) : Type 0 where
  pub no_delete : a.action ≢ delete
  pub recreates :
      a.action ≡ recreate
      → (c : ReadAutoScalingGroupDetail) × (lookup a.name current ≡ some c)
        × (a.existing_id ≡ some c.auto_scaling_group_id)

module _ (range : RangeOrder) where
  compared-IsSound :
      (current : Dict String ReadAutoScalingGroupDetail) (c : ReadAutoScalingGroupDetail)
      (d : AutoScalingGroupConfig) (changes : List String)
      → lookup d.name current ≡ some c
      → IsSound current (compared range c d changes)
  unfolding compared
  compared-IsSound current c d [] found = record { no_delete = λ p. cc; recreates = λ p. cc }
  compared-IsSound current c d (line ∷ changes) found = record {
    no_delete = λ p. cc;
    recreates = λ p. (c, found, refl);
  }

  plan_asg-IsSound :
      (current : Dict String ReadAutoScalingGroupDetail) (d : AutoScalingGroupConfig)
      → IsSound current (plan_asg range current d)
  unfolding plan_asg
  plan_asg-IsSound current d = elim (Option-cases (lookup d.name current)) [
    | inl missing ↦ rw (missing, plan_asg) (record { no_delete = λ p. cc; recreates = λ p. cc })
    | inr (c, found) ↦
        rw (found, plan_asg) (compared-IsSound current c d (compare_asg range c d) found)
  ]

  skip_asg-All :
      (P : AsgAction → Type 0)
      → ((name : String)
          → P (record {
            action = skip;
            name = name;
            changes = "not in YAML, skipping" ∷ [];
            existing_id = none;
          }))
      → (desired : Dict String AutoScalingGroupConfig) (entry : String × ReadAutoScalingGroupDetail)
      → All P (skip_asg range desired entry)
  unfolding skip_asg
  skip_asg-All P h desired (name, asg) = elim (Option-cases (lookup name desired)) [
    | inl missing ↦ rw (missing, skip_asg) (h name, tt)
    | inr (d, found) ↦ rw (found, skip_asg) tt
  ]

  -- In whatever order maps are visited: no planned action on a group deletes it for good, and each
  -- that recreates a group has the identifier of the group that is listed under its name, the last one
  -- where several are.
  pub plan_asgs-IsSound :
      (current : List ReadAutoScalingGroupDetail) (desired : List AutoScalingGroupConfig)
      → All (IsSound (index_by asg_name current)) (plan_asgs range current desired)
  unfolding plan_asgs
  plan_asgs-IsSound current desired =
      let Sound : AsgAction → Type 0 = IsSound (index_by asg_name current) in
      All-append Sound (map (plan_asg range (index_by asg_name current)) desired) _
        (All-map_every Sound _ desired (plan_asg-IsSound (index_by asg_name current)))
        (All-concat_map Sound _ _
          (skip_asg-All Sound (λ name. record { no_delete = λ p. cc; recreates = λ p. cc }) _))

  module _ (shuffle : IsShuffle range) where
    -- The listed group of the name has the configured settings.
    abbrev pub UpToDate : List ReadAutoScalingGroupDetail → AutoScalingGroupConfig → Type 0
    UpToDate current d =
        (c : ReadAutoScalingGroupDetail) × (lookup d.name (index_by asg_name current) ≡ some c)
        × SameSettings c d

    compared-IsQuiet :
        (c : ReadAutoScalingGroupDetail) (d : AutoScalingGroupConfig) (changes : List String)
        → IsQuiet (compared range c d changes) ↔ (changes ≡ [])
    unfolding compared
    compared-IsQuiet c d [] = (λ p. refl, λ p. refl)
    compared-IsQuiet c d (line ∷ changes) = (λ p. cc, λ p. cc)

    plan_asg-IsQuiet :
        (current : List ReadAutoScalingGroupDetail) (d : AutoScalingGroupConfig)
        → IsQuiet (plan_asg range (index_by asg_name current) d) ↔ UpToDate current d
    unfolding plan_asg
    plan_asg-IsQuiet current d = (
      (λ p. elim (Option-cases (lookup d.name (index_by asg_name current))) [
        | inl missing ↦ cc (rw (missing, plan_asg) at p)
        | inr (c, found) ↦ (
          c,
          found,
          (compare_asg_iff range shuffle c d).0
              ((compared-IsQuiet c d (compare_asg range c d)).0 (rw (found, plan_asg) at p)),
        )
      ]),
      (λ (c, found, same).
          rw (found, plan_asg)
            ((compared-IsQuiet c d (compare_asg range c d)).1
              ((compare_asg_iff range shuffle c d).1 same))),
    )

    -- In whatever order maps are visited: the plan has nothing to do for groups, that is all its
    -- actions are no-ops or skips, exactly when every configured group is listed under its name with
    -- the configured settings.
    pub plan_asgs-IsQuiet_iff :
        (current : List ReadAutoScalingGroupDetail) (desired : List AutoScalingGroupConfig)
        → All IsQuiet (plan_asgs range current desired) ↔ All (UpToDate current) desired
    unfolding plan_asgs
    plan_asgs-IsQuiet_iff current desired =
        let each =
          All-iff IsQuiet (UpToDate current) (plan_asg range (index_by asg_name current)) desired
            (plan_asg-IsQuiet current) in
        (
          (λ all. each.0 (All-unappend IsQuiet _ _ all)),
          (λ all.
              All-append IsQuiet _ _ (each.1 all)
                (All-concat_map IsQuiet _ _ (skip_asg-All IsQuiet (λ name. refl) _))),
        )
