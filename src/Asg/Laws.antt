-- ===== src/Asg/Laws.antt =====
-- When a group counts as unchanged, and that a group created from its configuration does.
use apprun_dedicated_provisi.Base.{
  ℤ, pos, List, [], map, ◌≡◌, ◌↔◌, arith, string_eq, bool_eq, int_eq, nat_eq,
}
use apprun_dedicated_provisi.Base.Dict.{RangeOrder, IsShuffle}
use apprun_dedicated_provisi.Config.{AutoScalingGroupConfig, AsgInterfaceConfig}
use apprun_dedicated_provisi.Api.{AutoScalingGroupNodeInterface, ReadAutoScalingGroupDetail}
use apprun_dedicated_provisi.Infra.{opt_or, ptr_or, api_range}
use apprun_dedicated_provisi.Infra.Interfaces.{SameInterfaces, compare_interfaces_iff}
use apprun_dedicated_provisi.Infra.Laws.{compare_name_servers_iff, compare_ip_pools_iff}
use apprun_dedicated_provisi.Asg.{
  interface_changes, compare_asg_interfaces, compare_asg, current_index, desired_index,
}

-- Two interfaces agree, where an unset netmask counts as 0 and an unset text as "".
pub record SameInterface (c : AutoScalingGroupNodeInterface) (d : AsgInterfaceConfig) : Type 0 where
  pub upstream : c.upstream ≡ d.upstream
  pub connects : c.connects_to_lb ≡ d.connects_to_lb
  pub netmask : opt_or (pos 0) c.netmask_len ≡ ptr_or (pos 0) d.netmask_len
  pub gateway : opt_or "" c.default_gateway ≡ ptr_or "" d.default_gateway
  pub packet_filter : opt_or "" c.packet_filter_id ≡ ptr_or "" d.packet_filter_id
  pub pool : c.ip_pool ≡ map api_range d.ip_pool

pub record SameSettings (c : ReadAutoScalingGroupDetail) (d : AutoScalingGroupConfig) : Type 0 where
  pub zone : c.zone ≡ d.zone
  pub service_class : c.worker_service_class_path ≡ d.worker_service_class_path
  pub min : c.min_nodes ≡ d.min_nodes
  pub max : c.max_nodes ≡ d.max_nodes
  pub servers : c.name_servers ≡ d.name_servers
  pub interfaces :
      SameInterfaces current_index desired_index SameInterface c.interfaces d.interfaces

module _ (idx : ℤ) (c : AutoScalingGroupNodeInterface) (d : AsgInterfaceConfig) where
  interface_changes_sound : interface_changes idx c d ≡ [] → SameInterface c d
  unfolding interface_changes
  interface_changes_sound h = record {
    upstream = ground (arith, string_eq.beq_iff c.upstream d.upstream);
    connects = ground (arith, bool_eq.beq_iff c.connects_to_lb d.connects_to_lb);
    netmask =
        ground
          (arith, int_eq.beq_iff (opt_or (pos 0) c.netmask_len) (ptr_or (pos 0) d.netmask_len));
    gateway =
        ground
          (arith, string_eq.beq_iff (opt_or "" c.default_gateway) (ptr_or "" d.default_gateway));
    packet_filter =
        ground
          (arith, string_eq.beq_iff (opt_or "" c.packet_filter_id) (ptr_or "" d.packet_filter_id));
    pool = ground (arith, compare_ip_pools_iff c.ip_pool d.ip_pool);
  }

  interface_changes_complete : SameInterface c d → interface_changes idx c d ≡ []
  unfolding interface_changes
  interface_changes_complete s = ground (
    arith,
    string_eq.beq_iff c.upstream d.upstream,
    bool_eq.beq_iff c.connects_to_lb d.connects_to_lb,
    int_eq.beq_iff (opt_or (pos 0) c.netmask_len) (ptr_or (pos 0) d.netmask_len),
    string_eq.beq_iff (opt_or "" c.default_gateway) (ptr_or "" d.default_gateway),
    string_eq.beq_iff (opt_or "" c.packet_filter_id) (ptr_or "" d.packet_filter_id),
    compare_ip_pools_iff c.ip_pool d.ip_pool,
  )

interface_changes_iff :
    (idx : ℤ) (c : AutoScalingGroupNodeInterface) (d : AsgInterfaceConfig)
    → (interface_changes idx c d ≡ []) ↔ SameInterface c d
interface_changes_iff idx c d =
    (interface_changes_sound idx c d, interface_changes_complete idx c d)

module _ (range : RangeOrder) (shuffle : IsShuffle range) where
  compare_asg_interfaces_iff :
      (current : List AutoScalingGroupNodeInterface) (desired : List AsgInterfaceConfig)
      → (compare_asg_interfaces range current desired ≡ [])
        ↔ SameInterfaces current_index desired_index SameInterface current desired
  unfolding compare_asg_interfaces
  compare_asg_interfaces_iff =
      compare_interfaces_iff current_index desired_index interface_changes SameInterface
        interface_changes_iff range shuffle

  -- In whatever order the map is visited: `compareASG` reports no change exactly when the group and
  -- its configuration agree in every setting and, index by index, in every interface.
  pub compare_asg_iff :
      (c : ReadAutoScalingGroupDetail) (d : AutoScalingGroupConfig)
      → (compare_asg range c d ≡ []) ↔ SameSettings c d
  unfolding compare_asg
  compare_asg_iff c d = (
    (λ h. record {
      zone = ground (arith, string_eq.beq_iff c.zone d.zone);
      service_class =
          ground (arith, string_eq.beq_iff c.worker_service_class_path d.worker_service_class_path);
      min = ground (arith, int_eq.beq_iff c.min_nodes d.min_nodes);
      max = ground (arith, int_eq.beq_iff c.max_nodes d.max_nodes);
      servers = ground (arith, compare_name_servers_iff c.name_servers d.name_servers);
      interfaces = (compare_asg_interfaces_iff c.interfaces d.interfaces).0 (ground arith);
    }),
    (λ s. ground (
      arith,
      string_eq.beq_iff c.zone d.zone,
      string_eq.beq_iff c.worker_service_class_path d.worker_service_class_path,
      int_eq.beq_iff c.min_nodes d.min_nodes,
      int_eq.beq_iff c.max_nodes d.max_nodes,
      compare_name_servers_iff c.name_servers d.name_servers,
      (compare_asg_interfaces_iff c.interfaces d.interfaces).1 s.interfaces,
    )),
  )
