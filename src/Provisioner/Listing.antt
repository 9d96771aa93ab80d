-- ===== src/Provisioner/Listing.antt =====
-- provisioner/*.go: the listings of the service, page by page, and the lookups over them.
pub mod Reads
pub mod Pages
use apprun_dedicated_provisi.Base.{
  ℕ, zero, suc, ℤ, pos, ltb_ℤ, String, Bool, true, false, not, ◌&&◌, ◌<>◌, Option, none, some, List,
  [], ◌∷◌, ◌++◌, ◌==◌, ◌!=◌, string_eq, if◌then◌else◌, find,
}
use apprun_dedicated_provisi.Result.{
  Error, wrap_api_error, cluster_not_found, application_not_found,
}
use apprun_dedicated_provisi.Api.{
  Uuid, Opt, opt_unset, ReadAutoScalingGroupDetail, ReadLoadBalancerSummary, ReadLoadBalancerDetail,
  ReadApplicationDetail, ApplicationVersionDeploymentStatus, ReadApplicationVersionDetail,
}
use apprun_dedicated_provisi.Platform.{
  Platform, Action, Page, ReadClusterSummary, list_clusters, list_asgs, list_lbs, get_lb,
  list_applications, list_versions, get_version, pure, raise, out_of_fuel, on_error, call, ◌>>=◌,
}

module _ {P : Platform} where
  -- `for { resp := fetch(cursor); all = append(all, resp...); if more(next) { cursor = next } else
  -- { break } }`, the loop that the listings share.
  unfoldable pub follow :
      {A C : Type 0}
      → ℕ
      → (Opt C → Action P (Page A C))
      → (Opt C → Bool)
      → Opt C
      → List A
      → Action P (List A)
  follow zero fetch more cursor all = out_of_fuel
  follow (suc f) fetch more cursor all = do
    resp ← fetch cursor
    let rest = follow f fetch more resp.next_cursor (all ++ resp.items)
    if more resp.next_cursor then rest else pure (all ++ resp.items)

abbrev pub is_set : {C : Type 0} → Opt C → Bool
is_set cursor = cursor.set

abbrev pub is_set_text : Opt String → Bool
is_set_text cursor = cursor.set && (cursor.value != "")

-- The loop of getLatestVersion over the version numbers of the first page.
unfoldable pub highest : ℤ → List ApplicationVersionDeploymentStatus → ℤ
highest latest [] = latest
highest latest (v ∷ rest) = highest (if ltb_ℤ latest v.version then v.version else latest) rest

module _ (P : Platform) where
  -- listAllASGs
  unfoldable pub list_all_asgs : Uuid → Action P (List ReadAutoScalingGroupDetail)
  unfolding follow
  list_all_asgs cluster =
      follow P.fuel
        (λ cursor.
          on_error (wrap_api_error "failed to list auto scaling groups")
            (call (list_asgs cluster cursor)))
        is_set (opt_unset 0) []

  -- The loop over a page's summaries in listAllLBs.
  unfoldable pub lb_details :
      Uuid
      → Uuid
      → List ReadLoadBalancerSummary
      → List ReadLoadBalancerDetail
      → Action P (List ReadLoadBalancerDetail)
  lb_details cluster asg [] all = pure all
  lb_details cluster asg (summary ∷ rest) all = do
    detail ←
        on_error (wrap_api_error ("failed to get load balancer " <> summary.name))
          (call (get_lb cluster asg summary.load_balancer_id))
    lb_details cluster asg rest (all ++ (detail ∷ []))

  -- One round of the loop of listAllLBs, as a page of details.
  unfoldable pub lb_page : Uuid → Uuid → Opt Uuid → Action P (Page ReadLoadBalancerDetail Uuid)
  unfolding lb_details
  lb_page cluster asg cursor = do
    resp ←
        on_error (wrap_api_error "failed to list load balancers")
          (call (list_lbs cluster asg cursor))
    details ← lb_details cluster asg resp.items []
    pure (record { items = details; next_cursor = resp.next_cursor })

  -- listAllLBs
  unfoldable pub list_all_lbs : Uuid → Uuid → Action P (List ReadLoadBalancerDetail)
  unfolding follow lb_page
  list_all_lbs cluster asg = follow P.fuel (lb_page cluster asg) is_set (opt_unset 0) []

  -- listAllApplications
  unfoldable pub list_all_applications : Uuid → Action P (List ReadApplicationDetail)
  unfolding follow
  list_all_applications cluster =
      follow P.fuel (λ cursor. call (list_applications cluster cursor)) is_set_text (opt_unset "")
        []

  -- The loop of resolveClusterID.
  unfoldable pub resolve_from : ℕ → String → Opt Uuid → Action P Uuid
  resolve_from zero name cursor = out_of_fuel
  resolve_from (suc f) name cursor = do
    resp ← on_error (wrap_api_error "failed to list clusters") (call (list_clusters cursor))
    let rest = resolve_from f name resp.next_cursor
    elim (find (λ c. c.name == name) resp.items) [
      | some c ↦ pure c.cluster_id
      | none ↦ if resp.next_cursor.set then rest else raise (cluster_not_found name)
    ]

  -- resolveClusterID
  unfoldable pub resolve_cluster_id : String → Action P Uuid
  unfolding resolve_from
  resolve_cluster_id name = resolve_from P.fuel name (opt_unset 0)

  -- getLatestVersion, from the first page on.
  unfoldable pub get_highest :
      Uuid
      → List ApplicationVersionDeploymentStatus
      → Action P (Option ReadApplicationVersionDetail)
  unfolding highest
  get_highest app [] = pure none
  get_highest app (v ∷ rest) = do
    detail ← call (get_version app (highest (pos 0) (v ∷ rest)))
    pure (some detail)

  -- getLatestVersion
  unfoldable pub get_latest_version : Uuid → Action P (Option ReadApplicationVersionDetail)
  unfolding get_highest
  get_latest_version app = do
    resp ← call (list_versions app (opt_unset (pos 0)))
    get_highest app resp.items

  -- findApplicationByName
  unfoldable pub find_application_by_name : Uuid → String → Action P ReadApplicationDetail
  unfolding list_all_applications
  find_application_by_name cluster name = do
    apps ← on_error (wrap_api_error "failed to list applications") (list_all_applications cluster)
    elim (find (λ a. a.name == name) apps) [
      | some app ↦ pure app
      | none ↦ raise (application_not_found name)
    ]
