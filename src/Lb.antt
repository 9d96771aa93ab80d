-- ===== src/Lb.antt =====
-- provisioner/loadbalancer.go: the comparison of a load balancer with its configuration, and the
-- request that creates one.
pub mod Laws
pub mod RoundTrip
use apprun_dedicated_provisi.Base.{
  ℤ, pos, String, ◌<>◌, not, List, [], ◌∷◌, ◌++◌, map, length, ◌!=◌, string_eq, int_eq,
}
use apprun_dedicated_provisi.Base.Dict.{RangeOrder}
use apprun_dedicated_provisi.Base.Text.{show_int, show_nat, show_strings}
use apprun_dedicated_provisi.Base.{Bool}
use apprun_dedicated_provisi.Config.{IpRangeConfig, LoadBalancerConfig, LbInterfaceConfig}
use apprun_dedicated_provisi.Api.{
  IpRange, LoadBalancerInterface, ReadLoadBalancerDetail, CreateLoadBalancer,
}
use apprun_dedicated_provisi.Infra.Interfaces.{compare_interfaces}
use apprun_dedicated_provisi.Infra.{
  when, opt_or, ptr_or, opt_of, compare_name_servers, compare_ip_pools, api_range,
}

-- compareLBNameServers
unfoldable pub compare_lb_name_servers : List String → List String → Bool
compare_lb_name_servers current desired = compare_name_servers current desired

-- compareLBIPPools
unfoldable pub compare_lb_ip_pools : List IpRange → List IpRangeConfig → Bool
compare_lb_ip_pools current desired = compare_ip_pools current desired

-- The body of the loop over the interfaces, where both sides have the index.
interface_changes : ℤ → LoadBalancerInterface → LbInterfaceConfig → List String
unfolding compare_lb_ip_pools
interface_changes idx c d =
    let at = "Interface[" <> show_int idx <> "]" in
    when (c.upstream != d.upstream) (at <> ".Upstream: " <> c.upstream <> " -> " <> d.upstream)
    ++ (let current_netmask = opt_or (pos 0) c.netmask_len in
        let desired_netmask = ptr_or (pos 0) d.netmask_len in
        when (current_netmask != desired_netmask)
          (at <> ".NetmaskLen: " <> show_int current_netmask <> " -> " <> show_int desired_netmask)
        ++ (let current_gw = opt_or "" c.default_gateway in
            let desired_gw = ptr_or "" d.default_gateway in
            when (current_gw != desired_gw)
              (at <> ".DefaultGateway: " <> current_gw <> " -> " <> desired_gw)
            ++ (let current_vip = opt_or "" c.vip in
                let desired_vip = ptr_or "" d.vip in
                when (current_vip != desired_vip)
                  (at <> ".Vip: " <> current_vip <> " -> " <> desired_vip)
                ++ (let current_vrid = opt_or (pos 0) c.virtual_router_id in
                    let desired_vrid = ptr_or (pos 0) d.virtual_router_id in
                    when (current_vrid != desired_vrid) (
                      at
                      <> ".VirtualRouterID: "
                      <> show_int current_vrid
                      <> " -> "
                      <> show_int desired_vrid)
                    ++ (let current_pf = opt_or "" c.packet_filter_id in
                        let desired_pf = ptr_or "" d.packet_filter_id in
                        when (current_pf != desired_pf)
                          (at <> ".PacketFilterID: " <> current_pf <> " -> " <> desired_pf)
                        ++ when (not (compare_lb_ip_pools c.ip_pool d.ip_pool))
                            (at <> ".IpPool: changed"))))))

abbrev pub current_index : LoadBalancerInterface → ℤ
current_index i = i.interface_index

abbrev pub desired_index : LbInterfaceConfig → ℤ
desired_index i = i.interface_index

-- compareLBInterfaces
unfoldable pub compare_lb_interfaces :
    RangeOrder → List LoadBalancerInterface → List LbInterfaceConfig → List String
unfolding compare_interfaces interface_changes
compare_lb_interfaces range = compare_interfaces current_index desired_index interface_changes range

-- compareLB
unfoldable pub compare_lb : RangeOrder → ReadLoadBalancerDetail → LoadBalancerConfig → List String
unfolding compare_lb_name_servers
compare_lb range c d =
    when (c.service_class_path != d.service_class_path)
      ("ServiceClassPath: " <> c.service_class_path <> " -> " <> d.service_class_path)
    ++ (when (not (compare_lb_name_servers c.name_servers d.name_servers))
          ("NameServers: " <> show_strings c.name_servers <> " -> " <> show_strings d.name_servers)
        ++ compare_lb_interfaces range c.interfaces d.interfaces)

-- describeLBConfig
unfoldable pub describe_lb_config : LoadBalancerConfig → List String
describe_lb_config cfg =
    ("AutoScalingGroup: " <> cfg.auto_scaling_group_name)
    ∷ ("ServiceClassPath: " <> cfg.service_class_path)
    ∷ ("NameServers: " <> show_strings cfg.name_servers)
    ∷ ("Interfaces: " <> show_nat (length cfg.interfaces) <> " configured")
    ∷ []

-- The conversion of one interface in buildCreateLBRequest.
unfoldable pub api_interface : LbInterfaceConfig → LoadBalancerInterface
api_interface i = record {
  interface_index = i.interface_index;
  upstream = i.upstream;
  ip_pool = map api_range i.ip_pool;
  netmask_len = opt_of (pos 0) i.netmask_len;
  default_gateway = opt_of "" i.default_gateway;
  vip = opt_of "" i.vip;
  virtual_router_id = opt_of (pos 0) i.virtual_router_id;
  packet_filter_id = opt_of "" i.packet_filter_id;
}

-- buildCreateLBRequest
unfoldable pub build_create_lb_request : LoadBalancerConfig → CreateLoadBalancer
unfolding api_interface
build_create_lb_request cfg = record {
  name = cfg.name;
  service_class_path = cfg.service_class_path;
  name_servers = cfg.name_servers;
  interfaces = map api_interface cfg.interfaces;
}
