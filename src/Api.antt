-- ===== src/Api.antt =====
-- api/oas_schemas_gen.go: the values that the provisioner sends to the service and reads from it.
-- An UUID is the number that its 16 bytes spell.
pub mod Validate
use apprun_dedicated_provisi.Base.{ℕ, ℤ, String, Bool, true, false, Option, none, some, List}
use apprun_dedicated_provisi.Base.{if◌then◌else◌}

abbrev pub Uuid : Type 0
Uuid = ℕ

-- OptInt16, OptInt32, OptString and the optional cursors: a value, and whether it is set.
pub record Opt (A : Type 0) : Type 0 where
  pub value : A
  pub set : Bool

-- NilString, NilInt32, NilPort and NilHealthCheck: a value, and whether it is null. The value of a
-- null can be read, and is the zero value when the null comes from `SetToNull`.
pub record Nil (A : Type 0) : Type 0 where
  pub value : A
  pub null : Bool

module _ {A : Type 0} where
  -- OptT.SetTo
  abbrev pub opt_to : A → Opt A
  opt_to a = record { value = a; set = true }

  -- The zero value of an OptT.
  abbrev pub opt_unset : A → Opt A
  opt_unset zero_value = record { value = zero_value; set = false }

  -- OptT.Get
  abbrev pub opt_get : Opt A → Option A
  opt_get o = if o.set then some o.value else none

  -- NilT.SetTo
  abbrev pub nil_to : A → Nil A
  nil_to a = record { value = a; null = false }

  -- NilT.SetToNull
  abbrev pub nil_null : A → Nil A
  nil_null zero_value = record { value = zero_value; null = true }

  -- NilT.Get
  abbrev pub nil_get : Nil A → Option A
  nil_get o = if o.null then none else some o.value

pub record IpRange : Type 0 where
  pub start : String
  pub end : String

pub record AutoScalingGroupNodeInterface : Type 0 where
  pub interface_index : ℤ
  pub upstream : String
  pub ip_pool : List IpRange
  pub netmask_len : Opt ℤ
  pub default_gateway : Opt String
  pub packet_filter_id : Opt String
  pub connects_to_lb : Bool

pub record ReadAutoScalingGroupDetail : Type 0 where
  pub auto_scaling_group_id : Uuid
  pub name : String
  pub zone : String
  pub name_servers : List String
  pub worker_service_class_path : String
  pub min_nodes : ℤ
  pub max_nodes : ℤ
  pub worker_node_count : ℤ
  pub deleting : Bool
  pub interfaces : List AutoScalingGroupNodeInterface

pub record CreateAutoScalingGroup : Type 0 where
  pub name : String
  pub zone : String
  pub name_servers : List String
  pub worker_service_class_path : String
  pub min_nodes : ℤ
  pub max_nodes : ℤ
  pub interfaces : List AutoScalingGroupNodeInterface

pub record LoadBalancerInterface : Type 0 where
  pub interface_index : ℤ
  pub upstream : String
  pub ip_pool : List IpRange
  pub netmask_len : Opt ℤ
  pub default_gateway : Opt String
  pub vip : Opt String
  pub virtual_router_id : Opt ℤ
  pub packet_filter_id : Opt String

pub record ReadLoadBalancerDetail : Type 0 where
  pub load_balancer_id : Uuid
  pub name : String
  pub service_class_path : String
  pub name_servers : List String
  pub interfaces : List LoadBalancerInterface
  pub created : ℤ
  pub deleting : Bool

pub record ReadLoadBalancerSummary : Type 0 where
  pub load_balancer_id : Uuid
  pub name : String
  pub service_class_path : String
  pub name_servers : List String
  pub created : ℤ
  pub deleting : Bool

pub record CreateLoadBalancer : Type 0 where
  pub name : String
  pub service_class_path : String
  pub name_servers : List String
  pub interfaces : List LoadBalancerInterface

pub record ReadApplicationDetail : Type 0 where
  pub application_id : Uuid
  pub name : String
  pub cluster_id : Uuid
  pub cluster_name : String
  pub active_version : Nil ℤ
  pub desired_count : Nil ℤ
  pub scaling_cooldown_seconds : ℤ

pub record HealthCheck : Type 0 where
  pub path : String
  pub interval_seconds : ℤ
  pub timeout_seconds : ℤ

-- `Port` is a uint16.
pub record ExposedPort : Type 0 where
  pub target_port : ℕ
  pub load_balancer_port : Nil ℕ
  pub use_lets_encrypt : Bool
  pub host : List String
  pub health_check : Nil HealthCheck

pub record ReadEnvironmentVariable : Type 0 where
  pub key : String
  pub value : Nil String
  pub secret : Bool

pub record CreateEnvironmentVariable : Type 0 where
  pub key : String
  pub value : Opt String
  pub secret : Bool

-- The empty text is the zero value, which no constant of the program names.
pub data RegistryPasswordAction : Type 0 where
  new keep remove unset : RegistryPasswordAction

pub record CreateApplicationVersion : Type 0 where
  pub cpu : ℤ
  pub memory : ℤ
  pub scaling_mode : String
  pub fixed_scale : Opt ℤ
  pub min_scale : Opt ℤ
  pub max_scale : Opt ℤ
  pub scale_in_threshold : Opt ℤ
  pub scale_out_threshold : Opt ℤ
  pub image : String
  pub cmd : List String
  pub registry_username : Nil String
  pub registry_password : Nil String
  pub registry_password_action : RegistryPasswordAction
  pub exposed_ports : List ExposedPort
  pub env : List CreateEnvironmentVariable

pub record ReadApplicationVersionDetail : Type 0 where
  pub version : ℤ
  pub cpu : ℤ
  pub memory : ℤ
  pub scaling_mode : String
  pub fixed_scale : Opt ℤ
  pub min_scale : Opt ℤ
  pub max_scale : Opt ℤ
  pub scale_in_threshold : Opt ℤ
  pub scale_out_threshold : Opt ℤ
  pub image : String
  pub cmd : List String
  pub registry_username : Nil String
  pub registry_password : Nil String
  pub active_node_count : ℤ
  pub created : ℤ
  pub exposed_ports : List ExposedPort
  pub env : List ReadEnvironmentVariable

pub record ApplicationVersionDeploymentStatus : Type 0 where
  pub version : ℤ
  pub image : String
  pub active_node_count : ℤ
  pub created : ℤ

pub record UpdateApplication : Type 0 where
  pub active_version : Nil ℤ

pub record CreateLoadBalancerPort : Type 0 where
  pub port : ℕ
  pub protocol : String

pub record ReadLoadBalancerPort : Type 0 where
  pub port : ℕ
  pub protocol : String

pub record CreateCluster : Type 0 where
  pub name : String
  pub lets_encrypt_email : Opt String
  pub ports : List CreateLoadBalancerPort
  pub service_principal_id : String

pub record UpdateCluster : Type 0 where
  pub lets_encrypt_email : Opt String
  pub service_principal_id : String

pub record ReadClusterDetail : Type 0 where
  pub name : String
  pub cluster_id : Uuid
  pub ports : List ReadLoadBalancerPort
  pub service_principal_id : String
  pub has_lets_encrypt_email : Bool
  pub created : ℤ

pub record CreateApplication : Type 0 where
  pub name : String
  pub cluster_id : Uuid
