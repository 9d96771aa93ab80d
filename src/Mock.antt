-- ===== src/Mock.antt =====
-- testutil/mock_server.go: the mock of the service, a state machine with a handler for each operation.
-- A handler holds the lock all the while, so that the requests come one after the other. The fresh
-- identifier of `uuid.New` and the seconds of the clock are arguments.
pub mod Helpers
pub mod Applications
pub mod Invariant
pub mod Preservation
pub mod Versions
pub mod Service
use apprun_dedicated_provisi.Base.{
  ℕ, suc, zero, ◌+◌, ℤ, pos, negsuc, String, Bool, true, false, ◌&&◌, ◌||◌, not, Option, none, some,
  List, [], ◌∷◌, map, any, concat_map, ◌==◌, ◌!=◌, Eq, ◌≡◌, ◌↔◌, arith, string_eq, nat_eq, int_eq,
  if◌then◌else◌,
}
use apprun_dedicated_provisi.Base.Dict.{Dict, RangeOrder, lookup, insert}
use apprun_dedicated_provisi.Api.{
  Uuid, Opt, ReadAutoScalingGroupDetail, ReadLoadBalancerSummary, nil_to, nil_null,
  ReadLoadBalancerPort, CreateCluster, UpdateCluster, ReadClusterDetail, CreateApplication,
  ReadApplicationDetail, CreateEnvironmentVariable, ReadEnvironmentVariable,
  CreateApplicationVersion, ReadApplicationVersionDetail, ApplicationVersionDeploymentStatus,
  UpdateApplication,
}
use apprun_dedicated_provisi.Platform.{ReadClusterSummary}
use apprun_dedicated_provisi.Provisioner.Apply.{to_int32}

pub record VersionKey : Type 0 where
  pub application_id : Uuid
  pub version : ℤ

abbrev pub key_beq : VersionKey → VersionKey → Bool
key_beq a b = a.application_id == b.application_id && a.version == b.version

pub key_beq_iff : (a b : VersionKey) → (key_beq a b ≡ true) ↔ (a ≡ b)
key_beq_iff a b = (
  (λ h. ground (
    arith,
    nat_eq.beq_iff a.application_id b.application_id,
    int_eq.beq_iff a.version b.version,
  )),
  (λ h. ground (
    arith,
    nat_eq.beq_iff a.application_id b.application_id,
    int_eq.beq_iff a.version b.version,
  )),
)

instance abbrev pub key_eq : Eq VersionKey
key_eq = record { beq = key_beq; beq_iff = key_beq_iff }

pub record MockServer : Type 0 where
  pub clusters : Dict Uuid ReadClusterDetail
  pub applications : Dict Uuid ReadApplicationDetail
  pub application_versions : Dict VersionKey ReadApplicationVersionDetail
  pub next_version_number : Dict Uuid ℤ
  pub expected_token : String
  pub expected_secret : String

pub data MockError : Type 0 where
  invalid_credentials : MockError
  cluster_exists application_exists : String → MockError
  cluster_not_found application_not_found : Uuid → MockError
  version_not_found : Uuid → ℤ → MockError

pub data Answer (A : Type 0) : Type 0 where
  answer : A → Answer A
  refused : MockError → Answer A

-- NewMockServer
unfoldable pub new_mock_server : String → String → MockServer
new_mock_server token secret = record {
  clusters = [];
  applications = [];
  application_versions = [];
  next_version_number = [];
  expected_token = token;
  expected_secret = secret;
}

-- HandleBasicAuth
unfoldable pub handle_basic_auth : MockServer → String → String → Answer (Unit {0})
handle_basic_auth m username password =
    if username != m.expected_token || password != m.expected_secret
    then refused invalid_credentials
    else answer tt

-- Whether an entry of a map has the property: a loop that returns at the first one.
abbrev pub any_value : {K V : Type 0} → (V → Bool) → Dict K V → Bool
any_value p m = any (λ (e : _ × _). p e.1) m

-- CreateCluster
unfoldable pub create_cluster : Uuid → ℤ → CreateCluster → MockServer → Answer Uuid × MockServer
unfolding insert
create_cluster id seconds req m =
    if any_value (λ c. c.name == req.name) m.clusters
    then (refused (cluster_exists req.name), m)
    else (
      answer id,
      record m {
        clusters =
            insert id
              (record {
                name = req.name;
                cluster_id = id;
                ports = map (λ p. record { port = p.port; protocol = p.protocol }) req.ports;
                service_principal_id = req.service_principal_id;
                has_lets_encrypt_email = req.lets_encrypt_email.set;
                created = seconds;
              })
              m.clusters;
      },
    )

-- GetCluster
unfoldable pub get_cluster : Uuid → MockServer → Answer ReadClusterDetail
unfolding lookup
get_cluster id m = elim (lookup id m.clusters) [
  | none ↦ refused (cluster_not_found id)
  | some c ↦ answer c
]

-- UpdateCluster
unfoldable pub update_cluster : UpdateCluster → Uuid → MockServer → Answer (Unit {0}) × MockServer
unfolding lookup insert
update_cluster req id m = elim (lookup id m.clusters) [
  | none ↦ (refused (cluster_not_found id), m)
  | some c ↦
      let updated = record c {
        service_principal_id = req.service_principal_id;
        has_lets_encrypt_email = req.lets_encrypt_email.set;
      } in
      (answer tt, record m { clusters = insert id updated m.clusters })
]

-- ListAutoScalingGroups and ListLoadBalancers: the mock has none.
unfoldable pub list_auto_scaling_groups : MockServer → List ReadAutoScalingGroupDetail
list_auto_scaling_groups m = []

unfoldable pub list_load_balancers : MockServer → List ReadLoadBalancerSummary
list_load_balancers m = []

module _ (range : RangeOrder) where
  -- ListClusters. No listing has a next cursor.
  unfoldable pub list_clusters : MockServer → List ReadClusterSummary
  list_clusters m =
      map
        (λ (e : Uuid × ReadClusterDetail). record {
          name = e.1.name;
          cluster_id = e.1.cluster_id;
          created = e.1.created;
        })
        (range _ m.clusters)
