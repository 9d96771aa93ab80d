-- ===== src/Lb/Laws.antt =====
-- When a load balancer counts as unchanged.
use apprun_dedicated_provisi.Base.{ℤ, pos, List, [], map, ◌≡◌, ◌↔◌, arith, string_eq, int_eq}
use apprun_dedicated_provisi.Base.Dict.{RangeOrder, IsShuffle}
use apprun_dedicated_provisi.Config.{LoadBalancerConfig, LbInterfaceConfig}
use apprun_dedicated_provisi.Api.{LoadBalancerInterface, ReadLoadBalancerDetail}
use apprun_dedicated_provisi.Infra.{opt_or, ptr_or, api_range}
use apprun_dedicated_provisi.Infra.Interfaces.{SameInterfaces, compare_interfaces_iff}
use apprun_dedicated_provisi.Infra.Laws.{compare_name_servers_iff, compare_ip_pools_iff}
use apprun_dedicated_provisi.Lb.{
  interface_changes, compare_lb_interfaces, compare_lb, current_index, desired_index,
}

-- Two interfaces agree, where an unset number counts as 0 and an unset text as "".
pub record SameInterface (c : LoadBalancerInterface) (d : LbInterfaceConfig) : Type 0 where
  pub upstream : c.upstream ≡ d.upstream
  pub netmask : opt_or (pos 0) c.netmask_len ≡ ptr_or (pos 0) d.netmask_len
  pub gateway : opt_or "" c.default_gateway ≡ ptr_or "" d.default_gateway
  pub vip : opt_or "" c.vip ≡ ptr_or "" d.vip
  pub router : opt_or (pos 0) c.virtual_router_id ≡ ptr_or (pos 0) d.virtual_router_id
  pub packet_filter : opt_or "" c.packet_filter_id ≡ ptr_or "" d.packet_filter_id
  pub pool : c.ip_pool ≡ map api_range d.ip_pool

pub record SameSettings (c : ReadLoadBalancerDetail) (d : LoadBalancerConfig) : Type 0 where
  pub service_class : c.service_class_path ≡ d.service_class_path
  pub servers : c.name_servers ≡ d.name_servers
  pub interfaces :
      SameInterfaces current_index desired_index SameInterface c.interfaces d.interfaces

module _ (idx : ℤ) (c : LoadBalancerInterface) (d : LbInterfaceConfig) where
  interface_changes_sound : interface_changes idx c d ≡ [] → SameInterface c d
  unfolding interface_changes
  interface_changes_sound h = record {
    upstream = ground (arith, string_eq.beq_iff c.upstream d.upstream);
    netmask =
        ground
          (arith, int_eq.beq_iff (opt_or (pos 0) c.netmask_len) (ptr_or (pos 0) d.netmask_len));
    gateway =
        ground
          (arith, string_eq.beq_iff (opt_or "" c.default_gateway) (ptr_or "" d.default_gateway));
    vip = ground (arith, string_eq.beq_iff (opt_or "" c.vip) (ptr_or "" d.vip));
    router = ground (
      arith,
      int_eq.beq_iff (opt_or (pos 0) c.virtual_router_id) (ptr_or (pos 0) d.virtual_router_id),
    );
    packet_filter =
        ground
          (arith, string_eq.beq_iff (opt_or "" c.packet_filter_id) (ptr_or "" d.packet_filter_id));
    pool = ground (arith, compare_ip_pools_iff c.ip_pool d.ip_pool);
  }

  interface_changes_complete : SameInterface c d → interface_changes idx c d ≡ []
  unfolding interface_changes
  interface_changes_complete s = ground (
    arith,
    string_eq.beq_iff c.upstream d.upstream,
    int_eq.beq_iff (opt_or (pos 0) c.netmask_len) (ptr_or (pos 0) d.netmask_len),
    string_eq.beq_iff (opt_or "" c.default_gateway) (ptr_or "" d.default_gateway),
    string_eq.beq_iff (opt_or "" c.vip) (ptr_or "" d.vip),
    int_eq.beq_iff (opt_or (pos 0) c.virtual_router_id) (ptr_or (pos 0) d.virtual_router_id),
    string_eq.beq_iff (opt_or "" c.packet_filter_id) (ptr_or "" d.packet_filter_id),
    compare_ip_pools_iff c.ip_pool d.ip_pool,
  )

interface_changes_iff :
    (idx : ℤ) (c : LoadBalancerInterface) (d : LbInterfaceConfig)
    → (interface_changes idx c d ≡ []) ↔ SameInterface c d
interface_changes_iff idx c d =
    (interface_changes_sound idx c d, interface_changes_complete idx c d)

module _ (range : RangeOrder) (shuffle : IsShuffle range) where
  compare_lb_interfaces_iff :
      (current : List LoadBalancerInterface) (desired : List LbInterfaceConfig)
      → (compare_lb_interfaces range current desired ≡ [])
        ↔ SameInterfaces current_index desired_index SameInterface current desired
  unfolding compare_lb_interfaces
  compare_lb_interfaces_iff =
      compare_interfaces_iff current_index desired_index interface_changes SameInterface
        interface_changes_iff range shuffle

  -- In whatever order the map is visited: `compareLB` reports no change exactly when the load
  -- balancer and its configuration agree in service class, name servers and, index by index, in
  -- every interface.
  pub compare_lb_iff :
      (c : ReadLoadBalancerDetail) (d : LoadBalancerConfig)
      → (compare_lb range c d ≡ []) ↔ SameSettings c d
  unfolding compare_lb
  compare_lb_iff c d = (
    (λ h. record {
      service_class = ground (arith, string_eq.beq_iff c.service_class_path d.service_class_path);
      servers = ground (arith, compare_name_servers_iff c.name_servers d.name_servers);
      interfaces = (compare_lb_interfaces_iff c.interfaces d.interfaces).0 (ground arith);
    }),
    (λ s. ground (
      arith,
      string_eq.beq_iff c.service_class_path d.service_class_path,
      compare_name_servers_iff c.name_servers d.name_servers,
      (compare_lb_interfaces_iff c.interfaces d.interfaces).1 s.interfaces,
    )),
  )
