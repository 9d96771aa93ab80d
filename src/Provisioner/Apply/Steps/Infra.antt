-- ===== src/Provisioner/Apply/Steps/Infra.antt =====
-- The phases of Apply for groups and load balancers take the steps of the plan.
use apprun_dedicated_provisi.Base.{
  ◌&&◌, List, [], ◌∷◌, ◌++◌, refl, ◌==◌, string_eq, arith, find, concat_map,
}
use apprun_dedicated_provisi.Base.Dict.{lookup, insert, remove}
use apprun_dedicated_provisi.Config.{AutoScalingGroupConfig, LoadBalancerConfig}
use apprun_dedicated_provisi.Api.{Uuid}
use apprun_dedicated_provisi.Asg.{build_create_asg_request}
use apprun_dedicated_provisi.Lb.{build_create_lb_request}
use apprun_dedicated_provisi.Platform.{Platform, create_asg, delete_asg, create_lb, delete_lb}
use apprun_dedicated_provisi.Platform.Traces.{writing, Does-on_error}
use apprun_dedicated_provisi.Platform.Steps.{
  Follows, Follows-none, Follows-raise, Follows-call, Follows-bind, Follows-then, Follows-on_error,
  Follows-eq, Follows-if, Follows-option, Follows-pure,
}
use apprun_dedicated_provisi.Provisioner.Wait.Polls.{wait_for_asg_deletion-Does}
use apprun_dedicated_provisi.Provisioner.AsgPlan.{AsgAction}
use apprun_dedicated_provisi.Provisioner.LbPlan.{LbAction}
use apprun_dedicated_provisi.Provisioner.Apply.{
  Ids, LbToDelete, deletes_lb, deletes_asg, creates_asg, creates_lb, delete_lbs, delete_asgs,
  create_asgs, create_lbs,
}
use apprun_dedicated_provisi.Provisioner.Apply.Steps.{
  lb_deleted, asg_deleted, asg_created, lb_created, step_of, lb_deletion, asg_deletion,
  asg_creation, lb_creation,
}

module _ (P : Platform) (cluster : Uuid) where
  pub delete_lbs-Follows :
      (actions : List LbAction) (waiting : List LbToDelete)
      → Follows step_of (concat_map lb_deletion actions) (delete_lbs P cluster actions waiting)
  unfolding delete_lbs
  delete_lbs-Follows [] waiting = Follows-pure waiting
  delete_lbs-Follows (a ∷ rest) waiting =
      Follows-if (deletes_lb a.action)
        (λ deletes.
          Follows-option a.existing_id (λ _. Follows-raise _ _)
            (λ lb has_lb.
              Follows-option a.asg_id (λ _. Follows-raise _ _)
                (λ asg has_asg.
                  let next : List LbToDelete =
                    waiting ++ (record { name = a.name; asg_id = asg; lb_id = lb } ∷ []) in
                  Follows-eq (ground arith) (
                    Follows-then
                      (Follows-on_error _
                        (Follows-call (delete_lb cluster asg lb) (lb_deleted asg lb) refl))
                      (delete_lbs-Follows rest next)))))
        (λ kept. Follows-eq (ground arith) (delete_lbs-Follows rest waiting))

  pub delete_asgs-Follows :
      (actions : List AsgAction) (ids : Ids)
      → Follows step_of (concat_map asg_deletion actions) (delete_asgs P cluster actions ids)
  unfolding delete_asgs
  delete_asgs-Follows [] ids = Follows-pure ids
  delete_asgs-Follows (a ∷ rest) ids =
      Follows-if (deletes_asg a.action)
        (λ deletes.
          Follows-option a.existing_id (λ _. Follows-raise _ _)
            (λ asg has_asg. Follows-eq (ground arith) (
              Follows-then
                (Follows-on_error _ (Follows-call (delete_asg cluster asg) (asg_deleted asg) refl))
                (Follows-then
                  (Follows-none {effect = writing}
                    (Does-on_error _ (wait_for_asg_deletion-Does P cluster asg a.name refl)))
                  (delete_asgs-Follows rest (remove a.name ids))))))
        (λ kept. Follows-eq (ground arith) (delete_asgs-Follows rest ids))

  pub create_asgs-Follows :
      (configs : List AutoScalingGroupConfig) (actions : List AsgAction) (ids : Ids)
      → Follows step_of
          (concat_map (asg_creation configs) actions)
          (create_asgs P cluster configs actions ids)
  unfolding create_asgs
  create_asgs-Follows configs [] ids = Follows-pure ids
  create_asgs-Follows configs (a ∷ rest) ids =
      Follows-if (creates_asg a.action)
        (λ creates.
          Follows-option (find (λ c. c.name == a.name) configs) (λ _. Follows-raise _ _)
            (λ cfg found. Follows-eq (ground arith) (
              Follows-bind
                (Follows-on_error _ (
                  Follows-call (create_asg cluster (build_create_asg_request cfg))
                    (asg_created (build_create_asg_request cfg)) refl))
                (λ id. create_asgs-Follows configs rest (insert a.name id ids)))))
        (λ kept. Follows-eq (ground arith) (create_asgs-Follows configs rest ids))

  pub create_lbs-Follows :
      (configs : List LoadBalancerConfig) (ids : Ids) (actions : List LbAction)
      → Follows step_of
          (concat_map (lb_creation configs) actions)
          (create_lbs P cluster configs ids actions)
  unfolding create_lbs
  create_lbs-Follows configs ids [] = Follows-pure tt
  create_lbs-Follows configs ids (a ∷ rest) =
      Follows-if (creates_lb a.action)
        (λ creates.
          Follows-option
            (find (λ c. c.name == a.name && c.auto_scaling_group_name == a.asg_name) configs)
            (λ _. Follows-raise _ _)
            (λ cfg found.
              Follows-option (lookup a.asg_name ids) (λ _. Follows-raise _ _)
                (λ asg has_asg. Follows-eq (ground arith) (
                  Follows-bind
                    (Follows-on_error _ (
                      Follows-call (create_lb cluster asg (build_create_lb_request cfg))
                        (lb_created (build_create_lb_request cfg)) refl))
                    (λ id. create_lbs-Follows configs ids rest)))))
        (λ kept. Follows-eq (ground arith) (create_lbs-Follows configs ids rest))
