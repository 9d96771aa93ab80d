-- ===== src/Asg/RoundTrip.antt =====
-- A group that the service made from a request of `buildCreateASGRequest` is in no need of change.
use apprun_dedicated_provisi.Base.{[], ◌≡◌, refl, arith, int_eq}
use apprun_dedicated_provisi.Base.Dict.{RangeOrder, IsShuffle}
use apprun_dedicated_provisi.Config.{AutoScalingGroupConfig, AsgInterfaceConfig}
use apprun_dedicated_provisi.Api.{ReadAutoScalingGroupDetail, CreateAutoScalingGroup}
use apprun_dedicated_provisi.Asg.{
  compare_asg, current_index, desired_index, api_interface, build_create_asg_request,
}
use apprun_dedicated_provisi.Infra.Interfaces.{SameInterfaces-map}
use apprun_dedicated_provisi.Asg.Laws.{SameInterface, compare_asg_iff}

-- The group has the settings of the request.
pub record IsMadeFrom (req : CreateAutoScalingGroup) (asg : ReadAutoScalingGroupDetail)
    : Type 0 where
  pub zone : asg.zone ≡ req.zone
  pub service_class : asg.worker_service_class_path ≡ req.worker_service_class_path
  pub min : asg.min_nodes ≡ req.min_nodes
  pub max : asg.max_nodes ≡ req.max_nodes
  pub servers : asg.name_servers ≡ req.name_servers
  pub interfaces : asg.interfaces ≡ req.interfaces

pub SameInterface-api_interface : (d : AsgInterfaceConfig) → SameInterface (api_interface d) d
unfolding api_interface
SameInterface-api_interface d = record {
  upstream = refl;
  connects = refl;
  netmask = ground arith;
  gateway = ground arith;
  packet_filter = ground arith;
  pool = refl;
}

-- In whatever order maps are visited: a group with the settings of the request that
-- `buildCreateASGRequest` makes of a configuration shows no change against that configuration.
pub compare_asg-build_create_asg_request :
    (range : RangeOrder) (shuffle : IsShuffle range) (cfg : AutoScalingGroupConfig)
    (asg : ReadAutoScalingGroupDetail)
    → IsMadeFrom (build_create_asg_request cfg) asg
    → compare_asg range asg cfg ≡ []
unfolding build_create_asg_request
compare_asg-build_create_asg_request range shuffle cfg asg m =
    (compare_asg_iff range shuffle asg cfg).1 (record {
      zone = m.zone;
      service_class = m.service_class;
      min = m.min;
      max = m.max;
      servers = m.servers;
      interfaces = rw m.interfaces (
          SameInterfaces-map current_index desired_index SameInterface api_interface
            (unfold api_interface in λ d. refl) SameInterface-api_interface cfg.interfaces);
    })
