-- ===== src/Provisioner/Apply/Calls.antt =====
-- The calls of each phase of Apply, against the plan.
use apprun_dedicated_provisi.Base.{
  true, some, List, [], ◌∷◌, ◌++◌, ◌≡◌, refl, ◌&&◌, ◌==◌, string_eq, ◌⊎◌, inl, inr, find, All,
}
use apprun_dedicated_provisi.Base.Dict.{lookup, insert, remove}
use apprun_dedicated_provisi.Config.{AutoScalingGroupConfig, LoadBalancerConfig}
use apprun_dedicated_provisi.Api.{Uuid, Opt}
use apprun_dedicated_provisi.Asg.{build_create_asg_request}
use apprun_dedicated_provisi.Lb.{build_create_lb_request}
use apprun_dedicated_provisi.Platform.{
  Platform, Call, list_asgs, get_asg, create_asg, delete_asg, get_lb, create_lb, delete_lb,
}
use apprun_dedicated_provisi.Platform.Traces.{
  Effect, Does, Does-pure, Does-raise, Does-call, Does-bind, Does-then, Does-on_error, Does-option,
  Does-if_known, Does-option_known,
}
use apprun_dedicated_provisi.Provisioner.Wait.Polls.{
  wait_for_lb_deletion-Does, wait_for_asg_deletion-Does,
}
use apprun_dedicated_provisi.Provisioner.AsgPlan.{AsgAction}
use apprun_dedicated_provisi.Provisioner.LbPlan.{LbAction}
use apprun_dedicated_provisi.Provisioner.Apply.{
  Ids, LbToDelete, deletes_lb, deletes_asg, creates_asg, creates_lb, delete_lbs, wait_lbs,
  delete_asgs, create_asgs, create_lbs,
}

module _ (cluster : Uuid) where
  abbrev pub ListsAsgs : Call → Type 0
  ListsAsgs c = (cursor : Opt Uuid) × (c ≡ list_asgs cluster cursor)

  -- The planned action deletes this load balancer.
  abbrev pub DeletesLb : LbAction → Call → Type 0
  DeletesLb a c =
      (deletes_lb a.action ≡ true)
      × (asg : Uuid) × (lb : Uuid) × (a.existing_id ≡ some lb)
      × (a.asg_id ≡ some asg)
      × (c ≡ delete_lb cluster asg lb)

  abbrev pub WaitsLb : Call → Type 0
  WaitsLb c = (asg : Uuid) × (lb : Uuid) × (c ≡ get_lb cluster asg lb)

  -- The planned action deletes this group, or waits for it.
  abbrev pub DeletesAsg : AsgAction → Call → Type 0
  DeletesAsg a c =
      (deletes_asg a.action ≡ true)
      × (asg : Uuid) × (a.existing_id ≡ some asg)
      × ((c ≡ delete_asg cluster asg) ⊎ (c ≡ get_asg cluster asg))

  -- The planned action creates this group, from the configuration of its name.
  abbrev pub CreatesAsg : List AutoScalingGroupConfig → AsgAction → Call → Type 0
  CreatesAsg configs a c =
      (creates_asg a.action ≡ true)
      × (cfg : AutoScalingGroupConfig) × (find (λ g. g.name == a.name) configs ≡ some cfg)
      × (c ≡ create_asg cluster (build_create_asg_request cfg))

  -- The planned action creates this load balancer, from the configuration of its name and group.
  abbrev pub CreatesLb : List LoadBalancerConfig → LbAction → Call → Type 0
  CreatesLb configs a c =
      (creates_lb a.action ≡ true)
      × (cfg : LoadBalancerConfig) × (asg : Uuid) × (find
            (λ g. g.name == a.name && g.auto_scaling_group_name == a.asg_name) configs
          ≡ some cfg)
      × (c ≡ create_lb cluster asg (build_create_lb_request cfg))

-- What suffices for the calls of a planned action.
abbrev pub Suffices : {A : Type 0} → (A → Call → Type 0) → (Call → Type 0) → A → Type 0
Suffices P Q a = (c : Call) → P a c → Q c

module _ {effect : Effect} {Q : Call → Type 0} (P : Platform) (cluster : Uuid) where
  pub delete_lbs-Does :
      (actions : List LbAction) (waiting : List LbToDelete)
      → All (Suffices (DeletesLb cluster) Q) actions
      → Does effect Q (delete_lbs P cluster actions waiting)
  unfolding delete_lbs
  delete_lbs-Does [] waiting h = Does-pure waiting
  delete_lbs-Does (a ∷ rest) waiting h =
      Does-if_known (deletes_lb a.action)
        (λ deletes. Does-option_known a.existing_id (Does-raise _) (λ lb has_lb.
          Does-option_known a.asg_id (Does-raise _) (λ asg has_asg.
            Does-then
              (Does-on_error {effect = effect} {Q = Q} _ (
                Does-call (delete_lb cluster asg lb)
                  (h.0 _ (deletes, asg, lb, has_lb, has_asg, refl))))
              (delete_lbs-Does rest
                (waiting ++ (record { name = a.name; asg_id = asg; lb_id = lb } ∷ [])) h.1))))
        (delete_lbs-Does rest waiting h.1)

  pub wait_lbs-Does :
      (waiting : List LbToDelete)
      → ((c : Call) → WaitsLb cluster c → Q c)
      → Does effect Q (wait_lbs P cluster waiting)
  unfolding wait_lbs
  wait_lbs-Does [] q = Does-pure tt
  wait_lbs-Does (lb ∷ rest) q =
      Does-then
        (Does-on_error _ (
          wait_for_lb_deletion-Does P cluster lb.asg_id lb.lb_id lb.name
            (q _ (lb.asg_id, lb.lb_id, refl))))
        (wait_lbs-Does rest q)

  pub delete_asgs-Does :
      (actions : List AsgAction) (ids : Ids)
      → All (Suffices (DeletesAsg cluster) Q) actions
      → Does effect Q (delete_asgs P cluster actions ids)
  unfolding delete_asgs
  delete_asgs-Does [] ids h = Does-pure ids
  delete_asgs-Does (a ∷ rest) ids h =
      Does-if_known (deletes_asg a.action)
        (λ deletes. Does-option_known a.existing_id (Does-raise _) (λ asg has_asg.
          Does-then
            (Does-on_error {effect = effect} {Q = Q} _
              (Does-call (delete_asg cluster asg) (h.0 _ (deletes, asg, has_asg, inl refl))))
            (Does-then
              (Does-on_error _ (
                wait_for_asg_deletion-Does P cluster asg a.name
                  (h.0 _ (deletes, asg, has_asg, inr refl))))
              (delete_asgs-Does rest (remove a.name ids) h.1))))
        (delete_asgs-Does rest ids h.1)

  pub create_asgs-Does :
      (configs : List AutoScalingGroupConfig) (actions : List AsgAction) (ids : Ids)
      → All (Suffices (CreatesAsg cluster configs) Q) actions
      → Does effect Q (create_asgs P cluster configs actions ids)
  unfolding create_asgs
  create_asgs-Does configs [] ids h = Does-pure ids
  create_asgs-Does configs (a ∷ rest) ids h =
      Does-if_known (creates_asg a.action)
        (λ creates.
          Does-option_known (find (λ c. c.name == a.name) configs) (Does-raise _) (λ cfg found.
            Does-bind (Does-on_error _ (Does-call _ (h.0 _ (creates, cfg, found, refl))))
              (λ id. create_asgs-Does configs rest (insert a.name id ids) h.1)))
        (create_asgs-Does configs rest ids h.1)

  pub create_lbs-Does :
      (configs : List LoadBalancerConfig) (ids : Ids) (actions : List LbAction)
      → All (Suffices (CreatesLb cluster configs) Q) actions
      → Does effect Q (create_lbs P cluster configs ids actions)
  unfolding create_lbs
  create_lbs-Does configs ids [] h = Does-pure tt
  create_lbs-Does configs ids (a ∷ rest) h =
      Does-if_known (creates_lb a.action)
        (λ creates.
          Does-option_known
            (find (λ c. c.name == a.name && c.auto_scaling_group_name == a.asg_name) configs)
            (Does-raise _)
            (λ cfg found. Does-option (lookup a.asg_name ids) (Does-raise _) (λ asg.
              Does-bind (Does-on_error _ (Does-call _ (h.0 _ (creates, cfg, asg, found, refl))))
                (λ id. create_lbs-Does configs ids rest h.1))))
        (create_lbs-Does configs ids rest h.1)
