-- ===== src/Tests/Mocks.antt =====
-- The theorems on the mock at concrete inputs.
use apprun_dedicated_provisi.Base.{pos, some, none, [], ◌≡◌, refl, arith, nat_eq}
use apprun_dedicated_provisi.Base.Dict.{lookup, insert}
use apprun_dedicated_provisi.Api.{
  opt_unset, CreateCluster, CreateApplication, ReadApplicationDetail, ReadApplicationVersionDetail,
}
use apprun_dedicated_provisi.Version.Request.{build_create_version_request_with_base}
use apprun_dedicated_provisi.Mock.{MockServer, VersionKey, key_eq, new_mock_server, create_cluster}
use apprun_dedicated_provisi.Mock.Applications.{
  incremented, version_detail, create_application, create_application_version,
}
use apprun_dedicated_provisi.Mock.Invariant.{
  HasRoom, cluster_created, app_created, version_created, Reachable, started, stepped, WellFormed,
}
use apprun_dedicated_provisi.Mock.Preservation.{Reachable-WellFormed, Step-keeps_versions}
use apprun_dedicated_provisi.Base.{ℕ, ◌+◌, true, inl, inr, string_eq}
use apprun_dedicated_provisi.Result.{Error, client_error}
use apprun_dedicated_provisi.Api.{Uuid}
use apprun_dedicated_provisi.Mock.{MockError}
use apprun_dedicated_provisi.Platform.{Platform, Env, ok}
use apprun_dedicated_provisi.Version.Normal.{Covers}
use apprun_dedicated_provisi.Api.Validate.Requests.{
  validate_create_application, validate_create_version,
}
use apprun_dedicated_provisi.Version.Request.{
  build_create_version_request, build_create_version_request_with_base,
}
use apprun_dedicated_provisi.Version.Limits.{IsWithinLimits}
use apprun_dedicated_provisi.Version.Limits.Laws.{validate_create_version_iff}
use apprun_dedicated_provisi.Tests.Validators.{bounds, bounds-AreChecks}
use apprun_dedicated_provisi.Mock.Service.{Setup}
use apprun_dedicated_provisi.Api.Validate.Responses.{
  validate_read_application, validate_read_version, validate_cluster_summary,
}
use apprun_dedicated_provisi.Mock.Service.Readable.{Readable, each_inserted}
use apprun_dedicated_provisi.Mock.Service.Holds.{Holds}
use apprun_dedicated_provisi.Tests.Data.{same_order, same_order_shuffles}
use apprun_dedicated_provisi.Tests.{spec-HasPorts, app-accepted}
use apprun_dedicated_provisi.Tests.Data.{spec, app, base, two_fields, two_fields-IsDiff, stored}
use apprun_dedicated_provisi.Tests.{spec-HasImage, spec-DistinctKeys}
use apprun_dedicated_provisi.Base.{String, find, ◌==◌}
use apprun_dedicated_provisi.Config.{ApplicationConfig, ClusterConfig}
use apprun_dedicated_provisi.Platform.{ReadClusterSummary}
use apprun_dedicated_provisi.Provisioner.Plan.{ExecutionPlan}
use apprun_dedicated_provisi.Mock.{list_clusters}
use apprun_dedicated_provisi.Mock.Service.Provisions.{
  P, config, provision, quiet_plan, provision-create,
}
use apprun_dedicated_provisi.Mock.Service.Updates.{provision-update}

abbrev cluster_request : CreateCluster
cluster_request = record {
  name = "main";
  lets_encrypt_email = opt_unset "";
  ports = [];
  service_principal_id = "sp";
}

abbrev app_request : CreateApplication
app_request = record { name = "shop"; cluster_id = 1 }

abbrev fresh : MockServer
fresh = new_mock_server "token" "secret"

abbrev clustered : MockServer
clustered = (create_cluster 1 (pos 0) cluster_request fresh).1

abbrev with_app : MockServer
with_app = (create_application 30 app_request clustered).1

abbrev with_version : MockServer
with_version =
    (create_application_version (pos 0) (build_create_version_request_with_base spec none) 30
      with_app).1

with_app-HasRoom : HasRoom with_app 30
unfolding create_application create_cluster new_mock_server lookup insert
with_app-HasRoom = record { number = 1; next = refl; fits = omega arith }

with_app-Reachable : Reachable with_app
unfolding create_cluster new_mock_server lookup insert
with_app-Reachable =
    stepped (stepped (started "token" "secret") (cluster_created 1 (pos 0) cluster_request))
      (app_created 30 app_request refl refl)

with_version-Reachable : Reachable with_version
with_version-Reachable =
    stepped with_app-Reachable (
      version_created (pos 0) (build_create_version_request_with_base spec none) 30
        with_app-HasRoom)

Reachable-WellFormed_example : WellFormed with_version
Reachable-WellFormed_example = Reachable-WellFormed with_version with_version-Reachable

abbrev first_key : VersionKey
first_key = record { application_id = 30; version = pos 1 }

abbrev first : ReadApplicationVersionDetail
first = version_detail (pos 1) (pos 0) (build_create_version_request_with_base spec none)

first-found : lookup first_key with_version.application_versions ≡ some first
unfolding create_application_version create_application create_cluster new_mock_server lookup insert
first-found = refl

with_version-HasRoom : HasRoom with_version 30
unfolding create_application_version incremented create_application create_cluster new_mock_server
    lookup insert
with_version-HasRoom = record { number = 2; next = refl; fits = omega arith }

Step-keeps_versions_example :
    lookup first_key
      (create_application_version
        (pos 1)
        (build_create_version_request_with_base spec (some base))
        30
        with_version).1.application_versions
    ≡ some first
Step-keeps_versions_example =
    Step-keeps_versions with_version _ first_key first
      (Reachable-WellFormed with_version with_version-Reachable)
      (version_created (pos 1) (build_create_version_request_with_base spec (some base)) 30
        with_version-HasRoom)
      first-found

abbrev shop : ReadApplicationDetail
shop = record {
  application_id = 30;
  name = "shop";
  cluster_id = 1;
  cluster_name = "main";
  active_version = record { value = pos 0; null = true };
  desired_count = record { value = pos 0; null = true };
  scaling_cooldown_seconds = pos 60;
}

shop-found : lookup 30 with_version.applications ≡ some shop
unfolding create_application_version create_application create_cluster new_mock_server lookup insert
shop-found = refl

abbrev refusal : MockError → Error
refusal e = client_error "refused"

abbrev ids : ℕ → Uuid
ids n = 30 + n

abbrev mock_setup : Setup
mock_setup = record {
  range = same_order;
  shuffle = same_order_shuffles;
  ids = ids;
  checks = bounds;
  documented = bounds-AreChecks;
  invalid = λ errors. client_error "invalid request";
  report = refusal;
  unimplemented = client_error "not implemented";
  diff = two_fields;
}

abbrev mock_of : Platform
mock_of = P mock_setup 0

abbrev config_of : ApplicationConfig → ClusterConfig
config_of = config mock_setup 0 "main"

abbrev quiet : Uuid → String → ExecutionPlan
quiet = quiet_plan mock_setup 0 "main"

abbrev env_of : MockServer → ℕ → Env mock_of
env_of m drawn = record {
  world = record { server = m; drawn = drawn; time = 5000 };
  state = stored;
  trace = [];
  printed = [];
}

clustered-Readable : Readable bounds clustered
unfolding create_cluster new_mock_server lookup insert validate_cluster_summary
clustered-Readable = record {
  clusters = (refl, tt);
  applications = λ id a h. cc;
  versions = λ key v h. cc;
}

shop-read : validate_read_application bounds shop ≡ []
unfolding validate_read_application create_application create_cluster new_mock_server lookup insert
shop-read = refl

first-read : validate_read_version bounds first ≡ []
unfolding validate_read_version version_detail build_create_version_request_with_base
first-read = refl

with_version-Readable : Readable bounds with_version
unfolding create_application_version incremented create_application create_cluster new_mock_server
    lookup insert validate_cluster_summary
with_version-Readable = record {
  clusters = (refl, tt);
  applications =
      each_inserted (λ a. validate_read_application bounds a ≡ []) [] 30 shop shop-read
        (λ j w h. cc);
  versions =
      each_inserted (λ v. validate_read_version bounds v ≡ []) []
        (record { application_id = 30; version = pos 1 }) first first-read (λ j w h. cc);
}

with_version-Holds : Holds bounds with_version 30 1 first
unfolding create_application_version incremented create_application create_cluster new_mock_server
    lookup insert
with_version-Holds = record {
  counts = record {
    well_formed = Reachable-WellFormed with_version with_version-Reachable;
    readable = with_version-Readable;
    app = shop;
    found = shop-found;
    next = refl;
  };
  positive = omega arith;
  last = first-found;
}

first-Covers : Covers spec (some first)
unfolding build_create_version_request_with_base version_detail
first-Covers = record {
  cpu = λ p. cc;
  memory = λ p. cc;
  scaling_mode = λ e. ground (arith, string_eq.beq_iff "manual" "");
  fixed_scale = tt;
  min_scale = refl;
  max_scale = refl;
  scale_in_threshold = refl;
  scale_out_threshold = refl;
  cmd = inl (λ p. cc);
  registry_username = inr refl;
  exposed_ports = λ p. cc;
  env = inl (λ p. cc);
  ports = spec-HasPorts;
}

abbrev main : ReadClusterSummary
main = record { name = "main"; cluster_id = 1; created = pos 0 }

with_version-listed :
    find (λ c. c.name == "main") (list_clusters same_order with_version) ≡ some main
unfolding list_clusters create_application_version create_application create_cluster new_mock_server
    lookup insert
with_version-listed = refl

clustered-listed : find (λ c. c.name == "main") (list_clusters same_order clustered) ≡ some main
unfolding list_clusters create_cluster new_mock_server insert
clustered-listed = refl

next-accepted :
    validate_create_version bounds (build_create_version_request_with_base spec (some first)) ≡ []
unfolding validate_create_version build_create_version_request_with_base
    build_create_version_request version_detail
next-accepted = refl

named_well : validate_create_application bounds app_request ≡ []
unfolding validate_create_application
named_well = refl

first-accepted : validate_create_version bounds (build_create_version_request spec) ≡ []
unfolding validate_create_version build_create_version_request
first-accepted = refl

spec-IsWithinLimits : IsWithinLimits bounds spec
spec-IsWithinLimits =
    (validate_create_version_iff bounds bounds-AreChecks app app-accepted).0 first-accepted

provision-update_example :
    (provision mock_of "cluster.yaml" true (config_of app) (env_of with_version 1)).0
    ≡ ok (quiet 1 "shop")
provision-update_example =
    provision-update mock_setup 0 (env_of with_version 1) "cluster.yaml" true "main" app main
      with_version-listed 30 1 first with_version-Holds
      (record { app = shop; found = shop-found; named = refl; placed = refl }) (omega arith)
      two_fields-IsDiff next-accepted first-Covers spec-HasImage spec-DistinctKeys

clustered-WellFormed : WellFormed clustered
clustered-WellFormed =
    Reachable-WellFormed clustered
      (stepped (started "token" "secret") (cluster_created 1 (pos 0) cluster_request))

provision-create_example :
    (provision mock_of "cluster.yaml" true (config_of app) (env_of clustered 0)).0
    ≡ ok (quiet 1 "shop")
unfolding create_cluster new_mock_server lookup insert
provision-create_example =
    provision-create mock_setup 0 (env_of clustered 0) "cluster.yaml" true "main" app main
      clustered-listed two_fields-IsDiff _ clustered-WellFormed clustered-Readable refl refl refl
      app-accepted named_well spec-IsWithinLimits spec-HasPorts spec-DistinctKeys (λ p. cc)
