-- ===== src/Provisioner/Dump/Rebuild.antt =====
-- provisioner/sync.go: the requests that are made of dumped groups and load balancers, under the checks
-- of api/oas_validators_gen.go.
use apprun_dedicated_provisi.Base.{
  ℕ, ◌+◌, ◌<>◌, pos, String, Option, some, List, [], ◌∷◌, ◌++◌, map, ◌≡◌, refl, false, ap, ap₂,
  length-map, Bool-cases, inl, inr,
}
use apprun_dedicated_provisi.Base.Text.{show_nat}
use apprun_dedicated_provisi.Infra.{api_range, config_range, opt_of}
use apprun_dedicated_provisi.Api.{
  Opt, opt_get, IpRange, AutoScalingGroupNodeInterface, LoadBalancerInterface,
  ReadAutoScalingGroupDetail, ReadLoadBalancerDetail,
}
use apprun_dedicated_provisi.Api.Validate.{
  Checks, Errors, field, elements, array_errors, validate_asg_interface, validate_lb_interface,
}
use apprun_dedicated_provisi.Api.Validate.Requests.{validate_create_asg, validate_create_lb}
use apprun_dedicated_provisi.Api.Validate.Responses.{validate_read_asg, validate_read_lb}
use apprun_dedicated_provisi.Asg
use apprun_dedicated_provisi.Lb
use apprun_dedicated_provisi.Asg.{build_create_asg_request}
use apprun_dedicated_provisi.Lb.{build_create_lb_request}
use apprun_dedicated_provisi.Provisioner.Dump.{
  dump_asg_interface, dump_lb_interface, dump_asg, dump_lb,
}

same_ranges : (pool : List IpRange) → map api_range (map config_range pool) ≡ pool
same_ranges [] = refl
same_ranges (r ∷ pool) = ap (◌∷◌ r) (same_ranges pool)

same_value :
    {A : Type 0} (zero_value : A) (o : Opt A) → opt_get (opt_of zero_value (opt_get o)) ≡ opt_get o
same_value zero_value o = elim (Bool-cases o.set) [
  | inl set ↦ rw set refl
  | inr unset ↦ rw unset refl
]

elements-map :
    {A : Type 0} (validate : A → Errors) (f : A → A)
    → ((a : A) → validate (f a) ≡ validate a)
    → (i : ℕ) (xs : List A) → elements validate i (map f xs) ≡ elements validate i xs
unfolding elements
elements-map validate f same i [] = refl
elements-map validate f same i (x ∷ xs) =
    ap₂ ◌++◌ (ap (field ("[" <> show_nat i <> "]")) (same x))
      (elements-map validate f same (i + 1) xs)

map-map :
    {A B : Type 0} (g : B → A) (f : A → B) (xs : List A) → map g (map f xs) ≡ map (λ x. g (f x)) xs
map-map g f [] = refl
map-map g f (x ∷ xs) = ap (◌∷◌ (g (f x))) (map-map g f xs)

module _ (checks : Checks) where
  array_errors-map :
      {A B : Type 0} (lo hi : Option ℕ) (validate : A → Errors) (g : B → A) (f : A → B)
      → ((a : A) → validate (g (f a)) ≡ validate a)
      → (xs : List A)
      → array_errors checks lo hi validate (map g (map f xs))
        ≡ array_errors checks lo hi validate xs
  unfolding array_errors
  array_errors-map lo hi validate g f same xs =
      rw
        (
          map-map g f xs,
          length-map (λ x. g (f x)) xs,
          elements-map validate (λ x. g (f x)) same 0 xs,
        )
        refl

  same_asg_interface :
      (i : AutoScalingGroupNodeInterface)
      → validate_asg_interface checks (Asg.api_interface (dump_asg_interface i))
        ≡ validate_asg_interface checks i
  unfolding validate_asg_interface Asg.api_interface dump_asg_interface
  same_asg_interface i = rw (same_ranges i.ip_pool, same_value (pos 0) i.netmask_len) refl

  same_lb_interface :
      (i : LoadBalancerInterface)
      → validate_lb_interface checks (Lb.api_interface (dump_lb_interface i))
        ≡ validate_lb_interface checks i
  unfolding validate_lb_interface Lb.api_interface dump_lb_interface
  same_lb_interface i =
      rw (same_ranges i.ip_pool, same_value (pos 0) i.netmask_len, same_value "" i.vip) refl

  same_asg_errors :
      (asg : ReadAutoScalingGroupDetail)
      → validate_create_asg checks false (build_create_asg_request (dump_asg asg))
        ≡ validate_read_asg checks false asg
  unfolding validate_create_asg validate_read_asg build_create_asg_request dump_asg
  same_asg_errors asg =
      rw
        (array_errors-map (some 1) (some 5) (validate_asg_interface checks) Asg.api_interface
          dump_asg_interface same_asg_interface asg.interfaces)
        refl

  same_lb_errors :
      (asg_name : String) (lb : ReadLoadBalancerDetail)
      → validate_create_lb checks false (build_create_lb_request (dump_lb asg_name lb))
        ≡ validate_read_lb checks false lb
  unfolding validate_create_lb validate_read_lb build_create_lb_request dump_lb
  same_lb_errors asg_name lb =
      rw
        (array_errors-map (some 1) (some 5) (validate_lb_interface checks) Lb.api_interface
          dump_lb_interface same_lb_interface lb.interfaces)
        refl

  -- Whatever the single checks of ogen say: the request to create a dumped group again, whose name
  -- servers are nil where the dump has none, fails exactly the checks that the group which was read
  -- failed, where its name servers were nil or at least one, and not an empty array. Likewise for a load
  -- balancer, whichever group it is dumped under.
  pub validate_create-dump :
      (asg : ReadAutoScalingGroupDetail) (asg_name : String) (lb : ReadLoadBalancerDetail)
      → (validate_create_asg checks false (build_create_asg_request (dump_asg asg))
          ≡ validate_read_asg checks false asg)
        × (validate_create_lb checks false (build_create_lb_request (dump_lb asg_name lb))
            ≡ validate_read_lb checks false lb)
  validate_create-dump asg asg_name lb = (same_asg_errors asg, same_lb_errors asg_name lb)
