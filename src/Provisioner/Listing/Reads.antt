-- ===== src/Provisioner/Listing/Reads.antt =====
-- The listings and lookups only read from the service.
use apprun_dedicated_provisi.Base.{
  ℕ, zero, suc, ℤ, pos, Bool, true, false, none, some, List, [], ◌∷◌, ◌++◌, ◌≡◌, refl, String,
}
use apprun_dedicated_provisi.Api.{
  Uuid, Opt, opt_unset, ReadLoadBalancerSummary, ReadLoadBalancerDetail,
  ApplicationVersionDeploymentStatus,
}
use apprun_dedicated_provisi.Platform.{
  Platform, Call, Action, Page, list_clusters, list_asgs, get_asg, list_lbs, get_lb,
  list_applications, list_versions, get_version,
}
use apprun_dedicated_provisi.Platform.Traces.{
  Effect, reading, Does, Does-pure, Does-raise, Does-out_of_fuel, Does-call, Does-bind,
  Does-on_error, Does-if, Does-option,
}
use apprun_dedicated_provisi.Provisioner.Listing.{
  follow, list_all_asgs, lb_details, lb_page, list_all_lbs, list_all_applications, resolve_from,
  resolve_cluster_id, get_highest, get_latest_version, find_application_by_name,
}

-- The calls that change nothing: the listings and the gets.
abbrev pub is_read : Call → Bool
is_read (list_clusters cursor) = true
is_read (list_asgs cluster cursor) = true
is_read (get_asg cluster asg) = true
is_read (list_lbs cluster asg cursor) = true
is_read (get_lb cluster asg lb) = true
is_read (list_applications cluster cursor) = true
is_read (list_versions app cursor) = true
is_read (get_version app version) = true
is_read _ = false

abbrev pub IsRead : Call → Type 0
IsRead c = is_read c ≡ true

pub follow-Does :
    {effect : Effect} {Q : Call → Type 0} {P : Platform} {A C : Type 0} (f : ℕ)
    {fetch : Opt C → Action P (Page A C)} (more : Opt C → Bool) (cursor : Opt C) (all : List A)
    → ((cursor : Opt C) → Does effect Q (fetch cursor))
    → Does effect Q (follow f fetch more cursor all)
unfolding follow
follow-Does zero more cursor all d = Does-out_of_fuel
follow-Does (suc f) more cursor all d = Does-bind (d cursor) (λ resp.
    Does-if (more resp.next_cursor) (follow-Does f more resp.next_cursor (all ++ resp.items) d)
      (Does-pure (all ++ resp.items)))

module _ (P : Platform) where
  -- listAllASGs makes no other call than its listing.
  pub list_all_asgs-Does :
      {effect : Effect} {Q : Call → Type 0} (cluster : Uuid)
      → ((cursor : Opt Uuid) → Q (list_asgs cluster cursor))
      → Does effect Q (list_all_asgs P cluster)
  unfolding list_all_asgs
  list_all_asgs-Does cluster q =
      follow-Does P.fuel (λ c. c.set) (opt_unset 0) []
        (λ cursor. Does-on_error _ (Does-call (list_asgs cluster cursor) (q cursor)))

  lb_details-Does :
      (cluster asg : Uuid) (summaries : List ReadLoadBalancerSummary)
      (all : List ReadLoadBalancerDetail)
      → Does reading IsRead (lb_details P cluster asg summaries all)
  unfolding lb_details
  lb_details-Does cluster asg [] all = Does-pure all
  lb_details-Does cluster asg (s ∷ rest) all =
      Does-bind (Does-on_error _ (Does-call (get_lb cluster asg s.load_balancer_id) refl))
        (λ detail. lb_details-Does cluster asg rest (all ++ (detail ∷ [])))

  pub list_all_lbs-Does : (cluster asg : Uuid) → Does reading IsRead (list_all_lbs P cluster asg)
  unfolding list_all_lbs lb_page
  list_all_lbs-Does cluster asg =
      follow-Does P.fuel (λ c. c.set) (opt_unset 0) []
        (λ cursor.
          Does-bind (Does-on_error _ (Does-call (list_lbs cluster asg cursor) refl)) (λ resp.
            Does-bind (lb_details-Does cluster asg resp.items []) (λ details. Does-pure _)))

  -- listAllApplications makes no other call than its listing.
  pub list_all_applications-Does :
      {effect : Effect} {Q : Call → Type 0} (cluster : Uuid)
      → ((cursor : Opt String) → Q (list_applications cluster cursor))
      → Does effect Q (list_all_applications P cluster)
  unfolding list_all_applications
  list_all_applications-Does cluster q =
      follow-Does P.fuel _ (opt_unset "") []
        (λ cursor. Does-call (list_applications cluster cursor) (q cursor))

  resolve_from-Does :
      (f : ℕ) (name : String) (cursor : Opt Uuid)
      → Does reading IsRead (resolve_from P f name cursor)
  unfolding resolve_from
  resolve_from-Does zero name cursor = Does-out_of_fuel
  resolve_from-Does (suc f) name cursor =
      Does-bind (Does-on_error _ (Does-call (list_clusters cursor) refl)) (λ resp.
        Does-option _
          (Does-if resp.next_cursor.set (resolve_from-Does f name resp.next_cursor) (Does-raise _))
          (λ c. Does-pure c.cluster_id))

  pub resolve_cluster_id-Does : (name : String) → Does reading IsRead (resolve_cluster_id P name)
  unfolding resolve_cluster_id
  resolve_cluster_id-Does name = resolve_from-Does P.fuel name (opt_unset 0)

  get_highest-Does :
      {effect : Effect} {Q : Call → Type 0} (app : Uuid)
      (items : List ApplicationVersionDeploymentStatus)
      → ((version : ℤ) → Q (get_version app version))
      → Does effect Q (get_highest P app items)
  unfolding get_highest
  get_highest-Does app [] q = Does-pure none
  get_highest-Does app (v ∷ rest) q =
      Does-bind (Does-call (get_version app _) (q _)) (λ detail. Does-pure (some detail))

  -- getLatestVersion lists the versions and gets one.
  pub get_latest_version-Does :
      {effect : Effect} {Q : Call → Type 0} (app : Uuid)
      → ((cursor : Opt ℤ) → Q (list_versions app cursor))
      → ((version : ℤ) → Q (get_version app version))
      → Does effect Q (get_latest_version P app)
  unfolding get_latest_version
  get_latest_version-Does app lists gets =
      Does-bind (Does-call (list_versions app (opt_unset (pos 0))) (lists _))
        (λ resp. get_highest-Does app resp.items gets)

  pub find_application_by_name-Does :
      (cluster : Uuid) (name : String)
      → Does reading IsRead (find_application_by_name P cluster name)
  unfolding find_application_by_name
  find_application_by_name-Does cluster name =
      Does-bind (Does-on_error _ (list_all_applications-Does cluster (λ cursor. refl)))
        (λ apps. Does-option _ (Does-raise _) (λ app. Does-pure app))
