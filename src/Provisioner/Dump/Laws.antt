-- ===== src/Provisioner/Dump/Laws.antt =====
-- A dumped group, load balancer or application agrees with what it was dumped from.
use apprun_dedicated_provisi.Base.{
  ℤ, pos, String, Bool, ◌||◌, Option, none, some, List, [], ◌∷◌, ◌++◌, map, ◌≡◌, refl, ap, ap₂, ◌∙◌,
  arith, All-imp, All-map, concat_map-nil_iff, inl, inr, Option-cases, ◌==◌, string_eq,
}
use apprun_dedicated_provisi.Base.Dict.{
  Dict, lookup, index_by, DistinctBy, lookup-index_by_self, lookup-index_by-map, map_option,
}
use apprun_dedicated_provisi.Api.{
  AutoScalingGroupNodeInterface, ReadAutoScalingGroupDetail, LoadBalancerInterface,
  ReadLoadBalancerDetail, IpRange, ExposedPort, ReadEnvironmentVariable,
  ReadApplicationVersionDetail, Opt, opt_get, nil_get,
}
use apprun_dedicated_provisi.Infra.{api_range, config_range, opt_or, ptr_or}
use apprun_dedicated_provisi.Infra.Interfaces.{SameInterfaces-map_back}
use apprun_dedicated_provisi.Asg.{current_index as asg_current, desired_index as asg_desired}
use apprun_dedicated_provisi.Asg.Laws.{
  SameInterface as SameAsgInterface, SameSettings as SameAsgSettings,
}
use apprun_dedicated_provisi.Lb.{current_index as lb_current, desired_index as lb_desired}
use apprun_dedicated_provisi.Lb.Laws.{
  SameInterface as SameLbInterface, SameSettings as SameLbSettings,
}
use apprun_dedicated_provisi.Spec.{
  Differ, normalize_from_api, normalize_from_config, normalize_api_port, normalize_config_port,
  compare_specs,
}
use apprun_dedicated_provisi.Spec.Laws.{IsDiff, lines, compare_specs-same}
use apprun_dedicated_provisi.State.{State, get_password_version}
use apprun_dedicated_provisi.Version.{
  current_key, desired_key, nil_text, ptr_text, secret_changes, text_changes, desired_changes,
  removed_changes, compare_env, compare_version, password_changes,
}
use apprun_dedicated_provisi.Provisioner.Dump.{
  dump_asg_interface, dump_asg, dump_lb_interface, dump_lb, dump_port, dump_env, dump_spec,
}

api_range-config_range : (rs : List IpRange) → rs ≡ map api_range (map config_range rs)
api_range-config_range [] = refl
api_range-config_range (r ∷ rs) = ap (◌∷◌ r) (api_range-config_range rs)

opt_or-opt_get : {A : Type 0} (a : A) (o : Opt A) → opt_or a o ≡ ptr_or a (opt_get o)
opt_or-opt_get a o = ground arith

SameAsgInterface-dump :
    (i : AutoScalingGroupNodeInterface) → SameAsgInterface i (dump_asg_interface i)
unfolding dump_asg_interface
SameAsgInterface-dump i = record {
  upstream = refl;
  connects = refl;
  netmask = opt_or-opt_get (pos 0) i.netmask_len;
  gateway = opt_or-opt_get "" i.default_gateway;
  packet_filter = opt_or-opt_get "" i.packet_filter_id;
  pool = api_range-config_range i.ip_pool;
}

SameLbInterface-dump : (i : LoadBalancerInterface) → SameLbInterface i (dump_lb_interface i)
unfolding dump_lb_interface
SameLbInterface-dump i = record {
  upstream = refl;
  netmask = opt_or-opt_get (pos 0) i.netmask_len;
  gateway = opt_or-opt_get "" i.default_gateway;
  vip = opt_or-opt_get "" i.vip;
  router = opt_or-opt_get (pos 0) i.virtual_router_id;
  packet_filter = opt_or-opt_get "" i.packet_filter_id;
  pool = api_range-config_range i.ip_pool;
}

pub dump_asg-SameSettings : (asg : ReadAutoScalingGroupDetail) → SameAsgSettings asg (dump_asg asg)
unfolding dump_asg
dump_asg-SameSettings asg = record {
  zone = refl;
  service_class = refl;
  min = refl;
  max = refl;
  servers = refl;
  interfaces =
      SameInterfaces-map_back asg_current asg_desired SameAsgInterface dump_asg_interface
        (unfold dump_asg_interface in λ i. refl) SameAsgInterface-dump asg.interfaces;
}

pub dump_lb-SameSettings :
    (name : String) (lb : ReadLoadBalancerDetail) → SameLbSettings lb (dump_lb name lb)
unfolding dump_lb
dump_lb-SameSettings name lb = record {
  service_class = refl;
  servers = refl;
  interfaces =
      SameInterfaces-map_back lb_current lb_desired SameLbInterface dump_lb_interface
        (unfold dump_lb_interface in λ i. refl) SameLbInterface-dump lb.interfaces;
}

normalize-dump_port : (p : ExposedPort) → normalize_config_port (dump_port p) ≡ normalize_api_port p
unfolding normalize_config_port normalize_api_port dump_port
normalize-dump_port p = elim (Option-cases (nil_get p.health_check)) [
  | inl missing ↦ ground arith
  | inr (hc, found) ↦ ground arith
]

normalize-dump_ports :
    (ps : List ExposedPort)
    → map normalize_config_port (map dump_port ps) ≡ map normalize_api_port ps
normalize-dump_ports [] = refl
normalize-dump_ports (p ∷ ps) = ap₂ ◌∷◌ (normalize-dump_port p) (normalize-dump_ports ps)

-- A dumped specification has the normal form of the version that it was dumped from.
pub normalize-dump_spec :
    (v : ReadApplicationVersionDetail) → normalize_from_config (dump_spec v) ≡ normalize_from_api v
unfolding normalize_from_config normalize_from_api dump_spec
normalize-dump_spec v =
    ground
      (arith, normalize-dump_ports v.exposed_ports, string_eq.beq_iff v.registry_username.value "")

dump_env_key : (e : ReadEnvironmentVariable) → (dump_env e).key ≡ e.key
unfolding dump_env
dump_env_key e = refl

module _ (s : State) (app : String) where
  dumped_unchanged :
      (m : Dict String ReadEnvironmentVariable) (e : ReadEnvironmentVariable)
      → lookup e.key m ≡ some e
      → desired_changes s app m (dump_env e) ≡ []
  unfolding desired_changes secret_changes text_changes dump_env
  dumped_unchanged m e found =
      ground (arith, string_eq.beq_iff (nil_text e.value) (ptr_text (dump_env e).value))

  compare_env-dump_env :
      (env : List ReadEnvironmentVariable)
      → DistinctBy current_key env
      → compare_env s app env (map dump_env env) ≡ []
  unfolding compare_env
  compare_env-dump_env env distinct =
      let found = lookup-index_by_self current_key env distinct in
      let at : (e : ReadEnvironmentVariable)
          → lookup e.key (index_by current_key env) ≡ some e
          → lookup e.key (index_by desired_key (map dump_env env)) ≡ some (dump_env e) =
        λ e h.
          lookup-index_by-map current_key desired_key dump_env dump_env_key env e.key
          ∙ ap (map_option dump_env) h in
      ap₂ ◌++◌
        ((concat_map-nil_iff _ (map dump_env env)).1
          (All-map _ dump_env env (All-imp _ _ env (λ e h. dumped_unchanged _ e h) found)))
        ((concat_map-nil_iff _ env).1 (
          All-imp _ _ env (λ e h. unfold removed_changes in rw (at e h, removed_changes) refl)
            found))

specs_same :
    (diff : Differ) (is_diff : IsDiff diff) (v : ReadApplicationVersionDetail) (skip_image : Bool)
    → lines
        (compare_specs diff (normalize_from_api v) (normalize_from_config (dump_spec v)) skip_image)
      ≡ []
specs_same diff is_diff v skip_image =
    rw (normalize-dump_spec v) (compare_specs-same diff is_diff (normalize_from_api v) skip_image)

-- Let `diff` report no difference where there is none, let the version list no variable twice, and let
-- the state have no password version for the application. Then a plan finds nothing to change in an
-- application whose latest version is the one that its configuration was dumped from, also where the
-- state has versions of its secrets, which a dump has not.
pub compare_version-dump_spec :
    (diff : Differ) (is_diff : IsDiff diff) (s : State) (app : String)
    (v : ReadApplicationVersionDetail)
    → DistinctBy current_key v.env
    → get_password_version s app ≡ none
    → compare_version diff s app v (dump_spec v) ≡ []
unfolding compare_version dump_spec password_changes
compare_version-dump_spec diff is_diff s app v distinct fresh =
    ap₂ ◌++◌ (specs_same diff is_diff v ((dump_spec v).inherit_image || (dump_spec v).image == ""))
      (ap₂ ◌++◌ (compare_env-dump_env s app v.env distinct)
        (ap (λ (p : Option ℤ). password_changes p none) fresh))
