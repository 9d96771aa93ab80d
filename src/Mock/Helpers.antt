-- ===== src/Mock/Helpers.antt =====
-- testutil/mock_server.go: the helpers with which tests set up and inspect the mock.
use apprun_dedicated_provisi.Base.{
  ℕ, ◌+◌, ℤ, pos, ltb_ℤ, String, ◌&&◌, not, Option, none, some, [], ◌∷◌, find, length, ◌==◌,
  string_eq, nat_eq, if◌then◌else◌,
}
use apprun_dedicated_provisi.Base.Dict.{Dict, RangeOrder, lookup, insert, map_option}
use apprun_dedicated_provisi.Api.{
  Uuid, ReadClusterDetail, ReadApplicationDetail, ReadApplicationVersionDetail,
}
use apprun_dedicated_provisi.Mock.{MockServer, VersionKey, key_eq}
use apprun_dedicated_provisi.Mock.Applications.{number_or_zero, incremented}

-- AddCluster
unfoldable pub add_cluster : ReadClusterDetail → MockServer → MockServer
unfolding insert
add_cluster c m = record m { clusters = insert c.cluster_id c m.clusters }

-- ClearClusters
unfoldable pub clear_clusters : MockServer → MockServer
clear_clusters m = record m { clusters = [] }

-- ClusterCount
unfoldable pub cluster_count : MockServer → ℕ
cluster_count m = length m.clusters

-- AddApplication
unfoldable pub add_application : ReadApplicationDetail → MockServer → MockServer
unfolding lookup insert
add_application app m =
    let added = record m { applications = insert app.application_id app m.applications } in
    elim (lookup app.application_id m.next_version_number) [
      | some n ↦ added
      | none ↦ record added {
        next_version_number = insert app.application_id (pos 1) m.next_version_number;
      }
    ]

-- ClearApplications
unfoldable pub clear_applications : MockServer → MockServer
clear_applications m = record m {
  applications = [];
  application_versions = [];
  next_version_number = [];
}

-- ApplicationCount
unfoldable pub application_count : MockServer → ℕ
application_count m = length m.applications

-- AddApplicationVersion
unfoldable pub add_application_version :
    Uuid → ReadApplicationVersionDetail → MockServer → MockServer
unfolding lookup insert incremented
add_application_version id v m =
    let added = record m {
      application_versions =
          insert (record { application_id = id; version = v.version }) v m.application_versions;
    } in
    if not (ltb_ℤ v.version (number_or_zero (lookup id m.next_version_number)))
    then record added {
      next_version_number = insert id (incremented v.version) m.next_version_number;
    }
    else added

-- GetApplicationVersionByKey
unfoldable pub get_application_version_by_key :
    Uuid → ℤ → MockServer → Option ReadApplicationVersionDetail
unfolding lookup
get_application_version_by_key id version m =
    lookup (record { application_id = id; version = version }) m.application_versions

-- The count of VersionCount, over the entries.
count_of : Uuid → Dict VersionKey ReadApplicationVersionDetail → ℕ
count_of id [] = 0
count_of id ((key, v) ∷ rest) =
    let later = count_of id rest in if key.application_id == id then later + 1 else later

-- VersionCount
unfoldable pub version_count : Uuid → MockServer → ℕ
unfolding count_of
version_count id m = count_of id m.application_versions

-- ClearAll
unfoldable pub clear_all : MockServer → MockServer
clear_all m = record m {
  clusters = [];
  applications = [];
  application_versions = [];
  next_version_number = [];
}

module _ (range : RangeOrder) where
  -- GetClusterByName
  unfoldable pub get_cluster_by_name : String → MockServer → Option ReadClusterDetail
  get_cluster_by_name name m =
      map_option (λ (e : Uuid × ReadClusterDetail). e.1)
        (find (λ (e : Uuid × ReadClusterDetail). e.1.name == name) (range _ m.clusters))

  -- GetApplicationByName
  unfoldable pub get_application_by_name : Uuid → String → MockServer → Option ReadApplicationDetail
  get_application_by_name cluster name m =
      map_option (λ (e : Uuid × ReadApplicationDetail). e.1)
        (find (λ (e : Uuid × ReadApplicationDetail). e.1.cluster_id == cluster && e.1.name == name)
          (range _ m.applications))
