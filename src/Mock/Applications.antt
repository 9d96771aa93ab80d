-- ===== src/Mock/Applications.antt =====
-- testutil/mock_server.go: the handlers for applications and their versions.
use apprun_dedicated_provisi.Base.{
  suc, zero, ◌+◌, ℤ, pos, negsuc, ◌&&◌, not, Option, none, some, List, [], ◌∷◌, map, concat_map,
  ◌==◌, ◌!=◌, string_eq, nat_eq, int_eq, if◌then◌else◌,
}
use apprun_dedicated_provisi.Base.Dict.{RangeOrder, lookup, insert}
use apprun_dedicated_provisi.Api.{
  Uuid, Opt, nil_to, nil_null, CreateApplication, ReadApplicationDetail, CreateEnvironmentVariable,
  ReadEnvironmentVariable, CreateApplicationVersion, ReadApplicationVersionDetail,
  ApplicationVersionDeploymentStatus, UpdateApplication,
}
use apprun_dedicated_provisi.Provisioner.Apply.{to_int32}
use apprun_dedicated_provisi.Mock.{
  VersionKey, key_eq, MockServer, cluster_not_found, application_exists, application_not_found,
  version_not_found, Answer, answer, refused, any_value,
}

-- CreateApplication
unfoldable pub create_application : Uuid → CreateApplication → MockServer → Answer Uuid × MockServer
unfolding lookup insert
create_application id req m = elim (lookup req.cluster_id m.clusters) [
  | none ↦ (refused (cluster_not_found req.cluster_id), m)
  | some cluster ↦
      if any_value (λ app. app.cluster_id == req.cluster_id && app.name == req.name) m.applications
      then (refused (application_exists req.name), m)
      else let app : ReadApplicationDetail = record {
        application_id = id;
        name = req.name;
        cluster_id = req.cluster_id;
        cluster_name = cluster.name;
        active_version = nil_null (pos 0);
        desired_count = nil_null (pos 0);
        scaling_cooldown_seconds = pos 60;
      } in
        (
          answer id,
          record m {
            applications = insert id app m.applications;
            next_version_number = insert id (pos 1) m.next_version_number;
          },
        )
]

-- One round of the loop over the variables.
abbrev pub shown_env : CreateEnvironmentVariable → ReadEnvironmentVariable
shown_env e = record {
  key = e.key;
  value = if e.value.set then nil_to e.value.value else nil_null "";
  secret = e.secret;
}

-- The zero value for a key that a map lacks.
abbrev pub number_or_zero : Option ℤ → ℤ
number_or_zero none = pos 0
number_or_zero (some v) = v

-- `++` of an int32
unfoldable pub incremented : ℤ → ℤ
unfolding to_int32
incremented (pos n) = to_int32 (pos (n + 1))
incremented (negsuc zero) = pos 0
incremented (negsuc (suc n)) = negsuc n

-- The version that a request makes.
unfoldable pub version_detail : ℤ → ℤ → CreateApplicationVersion → ReadApplicationVersionDetail
version_detail version seconds req = record {
  version = version;
  cpu = req.cpu;
  memory = req.memory;
  scaling_mode = req.scaling_mode;
  fixed_scale = req.fixed_scale;
  min_scale = req.min_scale;
  max_scale = req.max_scale;
  scale_in_threshold = req.scale_in_threshold;
  scale_out_threshold = req.scale_out_threshold;
  image = req.image;
  cmd = req.cmd;
  registry_username = req.registry_username;
  registry_password = nil_null "";
  active_node_count = pos 0;
  created = seconds;
  exposed_ports = req.exposed_ports;
  env = map shown_env req.env;
}

-- CreateApplicationVersion
unfoldable pub create_application_version :
    ℤ → CreateApplicationVersion → Uuid → MockServer → Answer ℤ × MockServer
unfolding lookup insert incremented version_detail
create_application_version seconds req id m = elim (lookup id m.applications) [
  | none ↦ (refused (application_not_found id), m)
  | some app ↦
      let version = number_or_zero (lookup id m.next_version_number) in
      let key : VersionKey = record { application_id = id; version = version } in
      (
        answer version,
        record m {
          next_version_number = insert id (incremented version) m.next_version_number;
          application_versions =
              insert key (version_detail version seconds req) m.application_versions;
        },
      )
]

-- GetApplicationVersion
unfoldable pub get_application_version : Uuid → ℤ → MockServer → Answer ReadApplicationVersionDetail
unfolding lookup
get_application_version id version m =
    elim (lookup (record { application_id = id; version = version }) m.application_versions) [
      | none ↦ refused (version_not_found id version)
      | some v ↦ answer v
    ]

-- The desired count that goes with the version, or the one before.
unfoldable pub desired_count_of :
    Option ReadApplicationVersionDetail → ReadApplicationDetail → ReadApplicationDetail
desired_count_of none app = app
desired_count_of (some v) app =
    if v.scaling_mode == "manual"
    then (if v.fixed_scale.set
        then record app { desired_count = nil_to v.fixed_scale.value }
        else app)
    else (if v.min_scale.set then record app { desired_count = nil_to v.min_scale.value } else app)

-- UpdateApplication
unfoldable pub update_application :
    UpdateApplication → Uuid → MockServer → Answer (Unit {0}) × MockServer
unfolding lookup insert desired_count_of
update_application req id m = elim (lookup id m.applications) [
  | none ↦ (refused (application_not_found id), m)
  | some app ↦
      let active = record app { active_version = req.active_version } in
      let key : VersionKey = record { application_id = id; version = req.active_version.value } in
      let updated =
        if not req.active_version.null
        then desired_count_of (lookup key m.application_versions) active
        else record active { desired_count = nil_null (pos 0) } in
      (answer tt, record m { applications = insert id updated m.applications })
]

module _ (range : RangeOrder) where
  -- ListApplications, of the given cluster or of all.
  unfoldable pub list_applications : Opt Uuid → MockServer → List ReadApplicationDetail
  list_applications cluster m =
      concat_map
        (λ (e : Uuid × ReadApplicationDetail).
          if cluster.set && e.1.cluster_id != cluster.value then [] else e.1 ∷ [])
        (range _ m.applications)

  -- ListApplicationVersions
  unfoldable pub list_application_versions :
      Uuid → MockServer → Answer (List ApplicationVersionDeploymentStatus)
  unfolding lookup
  list_application_versions id m = elim (lookup id m.applications) [
    | none ↦ refused (application_not_found id)
    | some app ↦ answer (
        concat_map
          (λ (e : VersionKey × ReadApplicationVersionDetail).
            if e.0.application_id == id
            then (record {
              version = e.1.version;
              image = e.1.image;
              active_node_count = e.1.active_node_count;
              created = e.1.created;
            })
              ∷ []
            else [])
          (range _ m.application_versions))
  ]
