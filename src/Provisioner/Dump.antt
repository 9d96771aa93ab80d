-- ===== src/Provisioner/Dump.antt =====
-- provisioner/sync.go: DumpClusterConfig.
pub mod Laws
pub mod Plans
pub mod Listings
pub mod Reads
pub mod Accepted
pub mod Recreate
pub mod Rebuild
use apprun_dedicated_provisi.Base.{
  ℕ, ℤ, pos, String, ◌<>◌, Bool, true, false, not, ◌&&◌, Option, none, some, List, [], ◌∷◌, ◌++◌,
  map, ◌!=◌, string_eq, if◌then◌else◌,
}
use apprun_dedicated_provisi.Result.{Reply, value, failure, wrapped, wrap_api_error}
use apprun_dedicated_provisi.Config.{
  ClusterConfig, AutoScalingGroupConfig, AsgInterfaceConfig, LoadBalancerConfig, LbInterfaceConfig,
  HealthCheckConfig, ExposedPortConfig, EnvVarConfig, ApplicationSpec, ApplicationConfig,
}
use apprun_dedicated_provisi.Api.{
  Uuid, Nil, nil_get, opt_get, AutoScalingGroupNodeInterface, ReadAutoScalingGroupDetail,
  LoadBalancerInterface, ReadLoadBalancerDetail, HealthCheck, ExposedPort, ReadEnvironmentVariable,
  ReadApplicationDetail, ReadApplicationVersionDetail,
}
use apprun_dedicated_provisi.Infra.{config_range}
use apprun_dedicated_provisi.Platform.{Platform, Action, pure, on_error, attempt, ◌>>=◌}
use apprun_dedicated_provisi.Provisioner.Listing.{
  list_all_asgs, list_all_lbs, list_all_applications, resolve_cluster_id, get_latest_version,
}

-- One round of the loop over the interfaces of a group.
unfoldable pub dump_asg_interface : AutoScalingGroupNodeInterface → AsgInterfaceConfig
dump_asg_interface i = record {
  interface_index = i.interface_index;
  upstream = i.upstream;
  ip_pool = map config_range i.ip_pool;
  netmask_len = opt_get i.netmask_len;
  default_gateway = opt_get i.default_gateway;
  packet_filter_id = opt_get i.packet_filter_id;
  connects_to_lb = i.connects_to_lb;
}

-- The configuration of a listed group.
unfoldable pub dump_asg : ReadAutoScalingGroupDetail → AutoScalingGroupConfig
unfolding dump_asg_interface
dump_asg asg = record {
  name = asg.name;
  zone = asg.zone;
  worker_service_class_path = asg.worker_service_class_path;
  min_nodes = asg.min_nodes;
  max_nodes = asg.max_nodes;
  name_servers = asg.name_servers;
  interfaces = map dump_asg_interface asg.interfaces;
}

-- One round of the loop over the interfaces of a load balancer.
unfoldable pub dump_lb_interface : LoadBalancerInterface → LbInterfaceConfig
dump_lb_interface i = record {
  interface_index = i.interface_index;
  upstream = i.upstream;
  ip_pool = map config_range i.ip_pool;
  netmask_len = opt_get i.netmask_len;
  default_gateway = opt_get i.default_gateway;
  vip = opt_get i.vip;
  virtual_router_id = opt_get i.virtual_router_id;
  packet_filter_id = opt_get i.packet_filter_id;
}

-- The configuration of a listed load balancer of the group of the name.
unfoldable pub dump_lb : String → ReadLoadBalancerDetail → LoadBalancerConfig
unfolding dump_lb_interface
dump_lb asg_name lb = record {
  name = lb.name;
  auto_scaling_group_name = asg_name;
  service_class_path = lb.service_class_path;
  name_servers = lb.name_servers;
  interfaces = map dump_lb_interface lb.interfaces;
}

abbrev dump_check : Option HealthCheck → Option HealthCheckConfig
dump_check none = none
dump_check (some hc) = some (record {
  path = hc.path;
  interval_seconds = hc.interval_seconds;
  timeout_seconds = hc.timeout_seconds;
})

abbrev dump_lb_port : Nil ℕ → Option ℤ
dump_lb_port p = if not p.null then some (pos p.value) else none

-- One round of the loop over the ports.
unfoldable pub dump_port : ExposedPort → ExposedPortConfig
dump_port p = record {
  target_port = pos p.target_port;
  load_balancer_port = dump_lb_port p.load_balancer_port;
  use_lets_encrypt = p.use_lets_encrypt;
  host = p.host;
  health_check = dump_check (nil_get p.health_check);
}

-- One round of the loop over the variables. The value of a secret is not known.
unfoldable pub dump_env : ReadEnvironmentVariable → EnvVarConfig
dump_env e = record {
  key = e.key;
  value = if not e.secret && not e.value.null then some e.value.value else none;
  secret = e.secret;
  secret_version = none;
}

-- The username where there is one: only that is known of the credentials.
abbrev dump_username : Nil String → Option String
dump_username u = if not u.null && (u.value != "") then some u.value else none

-- The specification of an application's latest version.
unfoldable pub dump_spec : ReadApplicationVersionDetail → ApplicationSpec
unfolding dump_port dump_env
dump_spec v = record {
  inherit_image = false;
  cpu = v.cpu;
  memory = v.memory;
  scaling_mode = v.scaling_mode;
  fixed_scale = opt_get v.fixed_scale;
  min_scale = opt_get v.min_scale;
  max_scale = opt_get v.max_scale;
  scale_in_threshold = opt_get v.scale_in_threshold;
  scale_out_threshold = opt_get v.scale_out_threshold;
  image = v.image;
  cmd = v.cmd;
  registry_username = dump_username v.registry_username;
  registry_password = none;
  registry_password_version = none;
  exposed_ports = map dump_port v.exposed_ports;
  env = map dump_env v.env;
}

-- The zero value of an ApplicationSpec.
abbrev pub empty_spec : ApplicationSpec
empty_spec = record {
  inherit_image = false;
  cpu = pos 0;
  memory = pos 0;
  scaling_mode = "";
  fixed_scale = none;
  min_scale = none;
  max_scale = none;
  scale_in_threshold = none;
  scale_out_threshold = none;
  image = "";
  cmd = [];
  registry_username = none;
  registry_password = none;
  registry_password_version = none;
  exposed_ports = [];
  env = [];
}

dump_app : ReadApplicationDetail → Option ReadApplicationVersionDetail → ApplicationConfig
unfolding dump_spec
dump_app app none = record { name = app.name; spec = empty_spec }
dump_app app (some v) = record { name = app.name; spec = dump_spec v }

module _ (P : Platform) (cluster : Uuid) where
  -- The loop over the groups.
  unfoldable pub dump_asgs :
      List ReadAutoScalingGroupDetail
      → List AutoScalingGroupConfig
      → List LoadBalancerConfig
      → Action P (List AutoScalingGroupConfig × List LoadBalancerConfig)
  unfolding dump_asg dump_lb
  dump_asgs [] groups balancers = pure (groups, balancers)
  dump_asgs (asg ∷ rest) groups balancers = do
    lbs ←
        on_error (wrapped ("failed to list LBs for ASG " <> asg.name))
          (list_all_lbs P cluster asg.auto_scaling_group_id)
    dump_asgs rest (groups ++ (dump_asg asg ∷ [])) (balancers ++ map (dump_lb asg.name) lbs)

  -- The loop over the applications. One whose latest version cannot be had is left out.
  unfoldable pub dump_apps :
      List ReadApplicationDetail → List ApplicationConfig → Action P (List ApplicationConfig)
  unfolding dump_app
  dump_apps [] dumped = pure dumped
  dump_apps (app ∷ rest) dumped =
      let next = dump_apps rest in
      do
        latest ← attempt (get_latest_version P app.application_id)
        elim latest [
          | failure e ↦ next dumped
          | value version ↦ next (dumped ++ (dump_app app version ∷ []))
        ]

-- DumpClusterConfig
unfoldable pub dump_cluster_config : (P : Platform) → String → Action P ClusterConfig
unfolding dump_asgs dump_apps
dump_cluster_config P cluster_name = do
  cluster ← on_error (wrapped "failed to resolve cluster") (resolve_cluster_id P cluster_name)
  asgs ← on_error (wrapped "failed to list ASGs") (list_all_asgs P cluster)
  infra ← dump_asgs P cluster asgs [] []
  apps ← on_error (wrap_api_error "failed to list applications") (list_all_applications P cluster)
  applications ← dump_apps P cluster apps []
  pure (record {
    cluster_name = cluster_name;
    auto_scaling_groups = infra.0;
    load_balancers = infra.1;
    applications = applications;
  })
