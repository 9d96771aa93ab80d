-- ===== src/Config.antt =====
-- config/config.go: the YAML configuration of a cluster. A pointer is an `Option`.
pub mod Validate
pub mod Load
use apprun_dedicated_provisi.Base.{ℤ, String, Bool, Option, List}

pub record IpRangeConfig : Type 0 where
  pub start : String
  pub end : String

pub record AsgInterfaceConfig : Type 0 where
  pub interface_index : ℤ
  pub upstream : String
  pub ip_pool : List IpRangeConfig
  pub netmask_len : Option ℤ
  pub default_gateway : Option String
  pub packet_filter_id : Option String
  pub connects_to_lb : Bool

pub record AutoScalingGroupConfig : Type 0 where
  pub name : String
  pub zone : String
  pub worker_service_class_path : String
  pub min_nodes : ℤ
  pub max_nodes : ℤ
  pub name_servers : List String
  pub interfaces : List AsgInterfaceConfig

pub record LbInterfaceConfig : Type 0 where
  pub interface_index : ℤ
  pub upstream : String
  pub ip_pool : List IpRangeConfig
  pub netmask_len : Option ℤ
  pub default_gateway : Option String
  pub vip : Option String
  pub virtual_router_id : Option ℤ
  pub packet_filter_id : Option String

pub record LoadBalancerConfig : Type 0 where
  pub name : String
  pub auto_scaling_group_name : String
  pub service_class_path : String
  pub name_servers : List String
  pub interfaces : List LbInterfaceConfig

pub record HealthCheckConfig : Type 0 where
  pub path : String
  pub interval_seconds : ℤ
  pub timeout_seconds : ℤ

pub record ExposedPortConfig : Type 0 where
  pub target_port : ℤ
  pub load_balancer_port : Option ℤ
  pub use_lets_encrypt : Bool
  pub host : List String
  pub health_check : Option HealthCheckConfig

pub record EnvVarConfig : Type 0 where
  pub key : String
  pub value : Option String
  pub secret : Bool
  pub secret_version : Option ℤ

pub record ApplicationSpec : Type 0 where
  pub inherit_image : Bool
  pub cpu : ℤ
  pub memory : ℤ
  pub scaling_mode : String
  pub fixed_scale : Option ℤ
  pub min_scale : Option ℤ
  pub max_scale : Option ℤ
  pub scale_in_threshold : Option ℤ
  pub scale_out_threshold : Option ℤ
  pub image : String
  pub cmd : List String
  pub registry_username : Option String
  pub registry_password : Option String
  pub registry_password_version : Option ℤ
  pub exposed_ports : List ExposedPortConfig
  pub env : List EnvVarConfig

pub record ApplicationConfig : Type 0 where
  pub name : String
  pub spec : ApplicationSpec

pub record ClusterConfig : Type 0 where
  pub cluster_name : String
  pub auto_scaling_groups : List AutoScalingGroupConfig
  pub load_balancers : List LoadBalancerConfig
  pub applications : List ApplicationConfig
