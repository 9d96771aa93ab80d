-- ===== src/Provisioner/Versions.antt =====
-- provisioner/sync.go: ListVersions, GetVersionDiff and ActivateVersion.
pub mod Laws
pub mod Calls
pub mod Narrow
use apprun_dedicated_provisi.Base.{
  ℤ, pos, String, ◌<>◌, Bool, Option, none, some, List, [], ◌∷◌, map, ◌==◌, int_eq, if◌then◌else◌,
}
use apprun_dedicated_provisi.Base.Text.{show_int}
use apprun_dedicated_provisi.Result.{
  Reply, value, failure, wrapped, wrap_api_error, no_active_version, no_versions,
}
use apprun_dedicated_provisi.Api.{
  Uuid, Nil, nil_get, opt_unset, ReadApplicationDetail, ReadApplicationVersionDetail,
  ApplicationVersionDeploymentStatus,
}
use apprun_dedicated_provisi.Version.Diff.{VersionDiff, diff_details}
use apprun_dedicated_provisi.Platform.{
  Platform, Action, list_versions as list_versions_page, get_version, update_application, pure,
  raise, of_reply, on_error, call, ◌>>=◌, ◌>>◌,
}
use apprun_dedicated_provisi.Provisioner.Listing.{
  follow, is_set, highest, resolve_cluster_id, get_latest_version, find_application_by_name,
}
use apprun_dedicated_provisi.Provisioner.Apply.{to_int32, activation}

pub record VersionInfo : Type 0 where
  pub version : ℤ
  pub image : String
  pub created : ℤ
  pub active_nodes : ℤ
  pub is_active : Bool

pub record VersionList : Type 0 where
  pub application_name : String
  pub application_id : Uuid
  pub versions : List VersionInfo
  pub active_version : ℤ
  pub latest_version : ℤ

-- The number of the active version, or 0.
active_or_zero : Nil ℤ → ℤ
active_or_zero v = elim (nil_get v) [ some n ↦ n | none ↦ pos 0 ]

-- One round of the loop over the listed versions. `created` stays the number of seconds.
version_info : ℤ → ApplicationVersionDeploymentStatus → VersionInfo
version_info active v = record {
  version = v.version;
  image = v.image;
  created = v.created;
  active_nodes = v.active_node_count;
  is_active = v.version == active;
}

-- ListVersions, from the listed versions on.
unfoldable pub version_list :
    String → ReadApplicationDetail → List ApplicationVersionDeploymentStatus → VersionList
unfolding active_or_zero version_info highest
version_list name app all =
    let active = active_or_zero app.active_version in
    record {
      application_name = name;
      application_id = app.application_id;
      versions = map (version_info active) all;
      active_version = active;
      latest_version = highest (pos 0) all;
    }

module _ (P : Platform) where
  -- The loop of ListVersions.
  unfoldable pub list_all_versions : Uuid → Action P (List ApplicationVersionDeploymentStatus)
  unfolding follow
  list_all_versions app =
      follow P.fuel
        (λ cursor.
          on_error (wrap_api_error "failed to list versions")
            (call (list_versions_page app cursor)))
        is_set (opt_unset (pos 0)) []

  -- ListVersions
  unfoldable pub list_versions : String → String → Action P VersionList
  unfolding list_all_versions version_list
  list_versions cluster_name app_name = do
    cluster ← on_error (wrapped "failed to resolve cluster") (resolve_cluster_id P cluster_name)
    app ← find_application_by_name P cluster app_name
    all ← list_all_versions app.application_id
    pure (version_list app_name app all)

  -- The number of the latest version.
  unfoldable pub latest_number : String → Uuid → Action P ℤ
  latest_number app_name app = do
    latest ← on_error (wrap_api_error "failed to get latest version") (get_latest_version P app)
    elim latest [ none ↦ raise (no_versions app_name) | some detail ↦ pure detail.version ]

  -- `if version == 0 { … }`: the latest version in place of 0.
  latest_or : String → Uuid → ℤ → Action P ℤ
  unfolding latest_number
  latest_or app_name app version =
      if version == pos 0 then latest_number app_name app else pure version

  -- `if fromVersion == 0 { … }`: the active version in place of 0.
  active_or : String → ReadApplicationDetail → ℤ → Action P ℤ
  active_or app_name app version =
      if version == pos 0
      then (elim (nil_get app.active_version) [
        | some active ↦ pure active
        | none ↦ raise (no_active_version app_name)
      ])
      else pure version

  -- The full details of a version, whose number is made an int32 for the call.
  version_detail : Uuid → ℤ → Action P ReadApplicationVersionDetail
  unfolding to_int32
  version_detail app version =
      on_error (wrap_api_error ("failed to get version " <> show_int version))
        (call (get_version app (to_int32 version)))

  -- GetVersionDiff
  unfoldable pub get_version_diff : String → String → ℤ → ℤ → Action P VersionDiff
  unfolding latest_or active_or version_detail
  get_version_diff cluster_name app_name from to = do
    cluster ← on_error (wrapped "failed to resolve cluster") (resolve_cluster_id P cluster_name)
    app ← find_application_by_name P cluster app_name
    from_version ← active_or app_name app from
    to_version ← latest_or app_name app.application_id to
    before ← version_detail app.application_id from_version
    after ← version_detail app.application_id to_version
    of_reply (diff_details P.diff from_version to_version before after)

  -- ActivateVersion
  unfoldable pub activate_version : String → String → ℤ → Action P ℤ
  unfolding latest_or
  activate_version cluster_name app_name version = do
    cluster ← on_error (wrapped "failed to resolve cluster") (resolve_cluster_id P cluster_name)
    app ← find_application_by_name P cluster app_name
    chosen ← latest_or app_name app.application_id version
    on_error (wrap_api_error "failed to activate version")
        (call (update_application app.application_id (activation chosen)))
    pure chosen
