-- ===== src/Lb/RoundTrip.antt =====
-- A load balancer that the service made from a request of `buildCreateLBRequest` is in no need of
-- change.
use apprun_dedicated_provisi.Base.{◌≡◌, refl, [], arith}
use apprun_dedicated_provisi.Base.Dict.{RangeOrder, IsShuffle}
use apprun_dedicated_provisi.Config.{LoadBalancerConfig, LbInterfaceConfig}
use apprun_dedicated_provisi.Api.{ReadLoadBalancerDetail, CreateLoadBalancer}
use apprun_dedicated_provisi.Infra.Interfaces.{SameInterfaces-map}
use apprun_dedicated_provisi.Lb.{
  compare_lb, current_index, desired_index, api_interface, build_create_lb_request,
}
use apprun_dedicated_provisi.Lb.Laws.{SameInterface, compare_lb_iff}

-- The load balancer has the settings of the request.
pub record IsMadeFrom (req : CreateLoadBalancer) (lb : ReadLoadBalancerDetail) : Type 0 where
  pub service_class : lb.service_class_path ≡ req.service_class_path
  pub servers : lb.name_servers ≡ req.name_servers
  pub interfaces : lb.interfaces ≡ req.interfaces

SameInterface-api_interface : (d : LbInterfaceConfig) → SameInterface (api_interface d) d
unfolding api_interface
SameInterface-api_interface d = record {
  upstream = refl;
  netmask = ground arith;
  gateway = ground arith;
  vip = ground arith;
  router = ground arith;
  packet_filter = ground arith;
  pool = refl;
}

-- In whatever order maps are visited: a load balancer with the settings of the request that
-- `buildCreateLBRequest` makes of a configuration shows no change against that configuration.
pub compare_lb-build_create_lb_request :
    (range : RangeOrder) (shuffle : IsShuffle range) (cfg : LoadBalancerConfig)
    (lb : ReadLoadBalancerDetail)
    → IsMadeFrom (build_create_lb_request cfg) lb
    → compare_lb range lb cfg ≡ []
unfolding build_create_lb_request
compare_lb-build_create_lb_request range shuffle cfg lb m =
    (compare_lb_iff range shuffle lb cfg).1 (record {
      service_class = m.service_class;
      servers = m.servers;
      interfaces = rw m.interfaces (
          SameInterfaces-map current_index desired_index SameInterface api_interface
            (unfold api_interface in λ d. refl) SameInterface-api_interface cfg.interfaces);
    })
