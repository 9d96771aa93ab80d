-- ===== src/Infra/RoundTrip.antt =====
-- Groups and load balancers that the service made from the requests of provisioner/autoscaling.go and
-- provisioner/loadbalancer.go are in no need of change.
use apprun_dedicated_provisi.Base.{[], ◌≡◌}
use apprun_dedicated_provisi.Base.Dict.{RangeOrder, IsShuffle}
use apprun_dedicated_provisi.Config.{AutoScalingGroupConfig, LoadBalancerConfig}
use apprun_dedicated_provisi.Api.{ReadAutoScalingGroupDetail, ReadLoadBalancerDetail}
use apprun_dedicated_provisi.Asg.{compare_asg, build_create_asg_request}
use apprun_dedicated_provisi.Asg.RoundTrip.{
  IsMadeFrom as IsGroupFrom, compare_asg-build_create_asg_request,
}
use apprun_dedicated_provisi.Lb.{compare_lb, build_create_lb_request}
use apprun_dedicated_provisi.Lb.RoundTrip.{
  IsMadeFrom as IsBalancerFrom, compare_lb-build_create_lb_request,
}

-- In whatever order maps are visited: a group and a load balancer with the settings of the requests
-- that `buildCreateASGRequest` and `buildCreateLBRequest` make of two configurations show no change
-- against those configurations.
pub compare-build_create_request :
    (range : RangeOrder) (shuffle : IsShuffle range) (group : AutoScalingGroupConfig)
    (asg : ReadAutoScalingGroupDetail) (balancer : LoadBalancerConfig) (lb : ReadLoadBalancerDetail)
    → IsGroupFrom (build_create_asg_request group) asg
    → IsBalancerFrom (build_create_lb_request balancer) lb
    → (compare_asg range asg group ≡ []) × (compare_lb range lb balancer ≡ [])
compare-build_create_request range shuffle group asg balancer lb of_group of_balancer = (
  compare_asg-build_create_asg_request range shuffle group asg of_group,
  compare_lb-build_create_lb_request range shuffle balancer lb of_balancer,
)
