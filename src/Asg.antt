-- ===== src/Asg.antt =====
-- provisioner/autoscaling.go: the comparison of an auto scaling group with its configuration, and
-- the request that creates one.
pub mod Laws
pub mod RoundTrip
use apprun_dedicated_provisi.Base.{
  ℤ, pos, String, ◌<>◌, Bool, not, Option, none, some, List, [], ◌∷◌, ◌++◌, map, length, concat_map,
  ◌==◌, ◌!=◌, string_eq, bool_eq, int_eq, nat_eq, if◌then◌else◌,
}
use apprun_dedicated_provisi.Base.Dict.{Dict, RangeOrder, lookup, index_by}
use apprun_dedicated_provisi.Base.Text.{show_int, show_nat, show_bool, show_strings}
use apprun_dedicated_provisi.Config.{AutoScalingGroupConfig, AsgInterfaceConfig}
use apprun_dedicated_provisi.Api.{
  AutoScalingGroupNodeInterface, ReadAutoScalingGroupDetail, CreateAutoScalingGroup,
}
use apprun_dedicated_provisi.Infra.Interfaces.{compare_interfaces}
use apprun_dedicated_provisi.Infra.{
  when, opt_or, ptr_or, opt_of, compare_name_servers, compare_ip_pools, api_range,
}

-- The body of the loop over the interfaces, where both sides have the index.
interface_changes : ℤ → AutoScalingGroupNodeInterface → AsgInterfaceConfig → List String
interface_changes idx c d =
    let at = "Interface[" <> show_int idx <> "]" in
    when (c.upstream != d.upstream) (at <> ".Upstream: " <> c.upstream <> " -> " <> d.upstream)
    ++ (when (c.connects_to_lb != d.connects_to_lb) (
          at
          <> ".ConnectsToLB: "
          <> show_bool c.connects_to_lb
          <> " -> "
          <> show_bool d.connects_to_lb)
        ++ (let current_netmask = opt_or (pos 0) c.netmask_len in
            let desired_netmask = ptr_or (pos 0) d.netmask_len in
            when (current_netmask != desired_netmask) (
              at
              <> ".NetmaskLen: "
              <> show_int current_netmask
              <> " -> "
              <> show_int desired_netmask)
            ++ (let current_gw = opt_or "" c.default_gateway in
                let desired_gw = ptr_or "" d.default_gateway in
                when (current_gw != desired_gw)
                  (at <> ".DefaultGateway: " <> current_gw <> " -> " <> desired_gw)
                ++ (let current_pf = opt_or "" c.packet_filter_id in
                    let desired_pf = ptr_or "" d.packet_filter_id in
                    when (current_pf != desired_pf)
                      (at <> ".PacketFilterID: " <> current_pf <> " -> " <> desired_pf)
                    ++ when (not (compare_ip_pools c.ip_pool d.ip_pool))
                        (at <> ".IpPool: changed")))))

abbrev pub current_index : AutoScalingGroupNodeInterface → ℤ
current_index i = i.interface_index

abbrev pub desired_index : AsgInterfaceConfig → ℤ
desired_index i = i.interface_index

-- compareASGInterfaces
unfoldable pub compare_asg_interfaces :
    RangeOrder → List AutoScalingGroupNodeInterface → List AsgInterfaceConfig → List String
unfolding compare_interfaces interface_changes
compare_asg_interfaces range =
    compare_interfaces current_index desired_index interface_changes range

-- compareASG
unfoldable pub compare_asg :
    RangeOrder → ReadAutoScalingGroupDetail → AutoScalingGroupConfig → List String
compare_asg range c d =
    when (c.zone != d.zone) ("Zone: " <> c.zone <> " -> " <> d.zone)
    ++ (when (c.worker_service_class_path != d.worker_service_class_path) (
          "WorkerServiceClassPath: " <> c.worker_service_class_path <> " -> "
          <> d.worker_service_class_path)
        ++ (when (c.min_nodes != d.min_nodes)
              ("MinNodes: " <> show_int c.min_nodes <> " -> " <> show_int d.min_nodes)
            ++ (when (c.max_nodes != d.max_nodes)
                  ("MaxNodes: " <> show_int c.max_nodes <> " -> " <> show_int d.max_nodes)
                ++ (when (not (compare_name_servers c.name_servers d.name_servers)) (
                      "NameServers: "
                      <> show_strings c.name_servers
                      <> " -> "
                      <> show_strings d.name_servers)
                    ++ compare_asg_interfaces range c.interfaces d.interfaces))))

-- describeASGConfig
unfoldable pub describe_asg_config : AutoScalingGroupConfig → List String
describe_asg_config cfg =
    ("Zone: " <> cfg.zone)
    ∷ ("WorkerServiceClassPath: " <> cfg.worker_service_class_path)
    ∷ ("MinNodes: " <> show_int cfg.min_nodes <> ", MaxNodes: " <> show_int cfg.max_nodes)
    ∷ ("NameServers: " <> show_strings cfg.name_servers)
    ∷ ("Interfaces: " <> show_nat (length cfg.interfaces) <> " configured")
    ∷ []

-- The conversion of one interface in buildCreateASGRequest.
unfoldable pub api_interface : AsgInterfaceConfig → AutoScalingGroupNodeInterface
api_interface i = record {
  interface_index = i.interface_index;
  upstream = i.upstream;
  ip_pool = map api_range i.ip_pool;
  netmask_len = opt_of (pos 0) i.netmask_len;
  default_gateway = opt_of "" i.default_gateway;
  packet_filter_id = opt_of "" i.packet_filter_id;
  connects_to_lb = i.connects_to_lb;
}

-- buildCreateASGRequest
unfoldable pub build_create_asg_request : AutoScalingGroupConfig → CreateAutoScalingGroup
unfolding api_interface
build_create_asg_request cfg = record {
  name = cfg.name;
  zone = cfg.zone;
  name_servers = cfg.name_servers;
  worker_service_class_path = cfg.worker_service_class_path;
  min_nodes = cfg.min_nodes;
  max_nodes = cfg.max_nodes;
  interfaces = map api_interface cfg.interfaces;
}
