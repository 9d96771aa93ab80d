-- ===== src/Tests.antt =====
-- The theorems at concrete inputs, and runs of the code.
pub mod Data
mod Versions
mod Commands
mod Mocks
mod Validators
use apprun_dedicated_provisi.Base.{
  ℕ, ℤ, pos, String, Bool, true, false, Option, none, some, List, [], ◌∷◌, ◌++◌, ◌≡◌, ◌≢◌, ◌↔◌,
  refl, inl, inr, arith, All, map, ◌==◌, ◌&&◌, string_eq, if◌then◌else◌, ◌-◌,
}
use apprun_dedicated_provisi.Config.{ApplicationSpec, ApplicationConfig, ClusterConfig}
use apprun_dedicated_provisi.Config.Validate.{
  validate, validate_application, validate_scaling, validate_secrets, AppError, ConfigError,
  invalid_application,
}
use apprun_dedicated_provisi.Config.Validate.Laws.{
  IsValidConfig, StopsAt, validate_iff, validate_first_error,
}
use apprun_dedicated_provisi.Api.{CreateApplicationVersion, ReadApplicationVersionDetail, Uuid}
use apprun_dedicated_provisi.State.{
  State, new_state, get_password_version, set_password_version, get_secret_env_version,
  set_secret_env_version,
}
use apprun_dedicated_provisi.State.Laws.{get_versions-set_versions}
use apprun_dedicated_provisi.State.Clean.{IsClean, new_state-IsClean, set_versions-IsClean}
use apprun_dedicated_provisi.Asg.{compare_asg, build_create_asg_request}
use apprun_dedicated_provisi.Asg.Laws.{SameSettings as SameGroup, compare_asg_iff}
use apprun_dedicated_provisi.Infra.RoundTrip.{compare-build_create_request}
use apprun_dedicated_provisi.Lb.{compare_lb, build_create_lb_request}
use apprun_dedicated_provisi.Lb.Laws.{SameSettings as SameBalancer, compare_lb_iff}
use apprun_dedicated_provisi.Spec.{normalize_from_api, normalize_from_config}
use apprun_dedicated_provisi.Version.{compare_version, state_after_create, state_after_update}
use apprun_dedicated_provisi.Version.Request.{
  build_create_version_request, build_create_version_request_with_base,
}
use apprun_dedicated_provisi.Version.Normal.{IsVersionOf, Covers, HasPorts}
use apprun_dedicated_provisi.Version.Secrets.{
  DistinctKeys, HoldsVersions, state_after_update-HoldsVersions, state_after_update_unmodified,
  state_after_create-HoldsVersions,
}
use apprun_dedicated_provisi.Version.Converge.{
  IsMadeFrom, update-converges, create-converges, omitted-differs,
}
use apprun_dedicated_provisi.Base.Text.{join}
use apprun_dedicated_provisi.Base.Dict.{index_by, lookup, insert}
use apprun_dedicated_provisi.Platform.{no_fuel}
use apprun_dedicated_provisi.Platform.Traces.{Does, Effect, reading}
use apprun_dedicated_provisi.Provisioner.Apply.Saves.{IsSaved, apply-IsSaved}
use apprun_dedicated_provisi.Provisioner.Listing.Reads.{IsRead}
use apprun_dedicated_provisi.Provisioner.Wait.{wait_for_lb_deletion, wait_for_asg_deletion}
use apprun_dedicated_provisi.Provisioner.Wait.Ends.{waits-Returns}
use apprun_dedicated_provisi.Provisioner.AsgPlan.{asg_name, plan_asgs}
use apprun_dedicated_provisi.Provisioner.AsgPlan.Laws.{
  IsQuiet as IsQuietAsg, IsSound as IsSoundAsg, UpToDate as UpToDateAsg, plan_asgs-IsSound,
  plan_asgs-IsQuiet_iff,
}
use apprun_dedicated_provisi.Provisioner.LbPlan.{plan_lbs, Lbs}
use apprun_dedicated_provisi.Provisioner.LbPlan.Laws.{
  IsQuiet as IsQuietLb, IsSound as IsSoundLb, UpToDate as UpToDateLb, plan_lbs-IsSound,
  plan_lbs-IsQuiet_iff,
}
use apprun_dedicated_provisi.Provisioner.Plan.{ExecutionPlan, PlannedAction, create_plan, create}
use apprun_dedicated_provisi.Provisioner.Plan.ReadOnly.{create_plan-reads}
use apprun_dedicated_provisi.Provisioner.Apply.{apply}
use apprun_dedicated_provisi.Platform.Steps.{Follows}
use apprun_dedicated_provisi.Provisioner.Apply.Steps.{step_of, plan_steps}
use apprun_dedicated_provisi.Provisioner.Apply.Steps.Refines.{apply-Follows}
use Data.{
  same_order, same_order_shuffles, group_config, balancer_config, group, balancer, spec, app,
  cluster_config, show_env, shows_env, version_of, base, two_fields, two_fields-IsDiff, service,
  service-IsClock, stored, start,
}

abbrev updated : ReadApplicationVersionDetail
updated = version_of (build_create_version_request_with_base spec (some base))

abbrev created : ReadApplicationVersionDetail
created = version_of (build_create_version_request spec)

pub spec-DistinctKeys : DistinctKeys spec.env
spec-DistinctKeys = ((refl, tt), (tt, tt))

pub spec-HasPorts : All HasPorts spec.exposed_ports
spec-HasPorts = ((omega arith, omega arith), tt)

pub spec-Covers : Covers spec (some base)
unfolding build_create_version_request build_create_version_request_with_base
spec-Covers = record {
  cpu = λ p. cc;
  memory = λ p. cc;
  scaling_mode = λ e. ground (arith, string_eq.beq_iff "manual" "");
  fixed_scale = tt;
  min_scale = refl;
  max_scale = refl;
  scale_in_threshold = refl;
  scale_out_threshold = refl;
  cmd = inl (λ p. cc);
  registry_username = inr refl;
  exposed_ports = λ p. cc;
  env = inl (λ p. cc);
  ports = spec-HasPorts;
}

version_of-IsVersionOf : (req : CreateApplicationVersion) → IsVersionOf req (version_of req)
version_of-IsVersionOf req = record {
  cpu = refl;
  memory = refl;
  scaling_mode = refl;
  fixed_scale = refl;
  min_scale = refl;
  max_scale = refl;
  scale_in_threshold = refl;
  scale_out_threshold = refl;
  image = refl;
  cmd = refl;
  registry_username = refl;
  exposed_ports = refl;
}

pub spec-HasImage : spec.image ≢ ""
spec-HasImage = λ e. ground (arith, string_eq.beq_iff "registry/app:1" "")

update-converges_example :
    compare_version two_fields (state_after_update app stored).0 "shop" updated spec ≡ []
update-converges_example =
    update-converges two_fields two_fields-IsDiff show_env shows_env app base stored updated
      spec-Covers spec-HasImage spec-DistinctKeys
      (record { settings = version_of-IsVersionOf _; env = refl })

pub app-accepted : validate_application app ≡ none
unfolding validate_application validate_scaling validate_secrets
app-accepted = refl

create-converges_example :
    compare_version two_fields (state_after_create app stored).0 "shop" created spec ≡ []
create-converges_example =
    create-converges two_fields two_fields-IsDiff show_env shows_env app stored created app-accepted
      spec-HasPorts spec-DistinctKeys (λ p. cc)
      (record { settings = version_of-IsVersionOf _; env = refl })

-- A configuration that leaves out the command and the fixed scale that `base` has.
abbrev silent : ApplicationSpec
silent = record spec { cmd = []; fixed_scale = none }

abbrev inherited : ReadApplicationVersionDetail
inherited = version_of (build_create_version_request_with_base silent (some base))

omitted-differs_example : normalize_from_api inherited ≢ normalize_from_config silent
unfolding build_create_version_request
omitted-differs_example =
    omitted-differs silent base inherited (version_of-IsVersionOf _) (inr (refl, refl))

-- A plan that recreates the group and its load balancer.
abbrev plan : ExecutionPlan
plan =
    let asg_actions =
      plan_asgs same_order (record group { zone = "is1b" } ∷ [])
        cluster_config.auto_scaling_groups in
    record {
      cluster_name = "main";
      cluster_id = 1;
      asg_actions = asg_actions;
      lb_actions =
          plan_lbs same_order (group ∷ []) asg_actions (("web", ("front", balancer) ∷ []) ∷ [])
            cluster_config.load_balancers;
      actions = (record { application_name = "shop"; action = create; changes = [] }) ∷ [];
    }

apply-IsSaved_example :
    IsSaved "apprun.yaml" start.state (apply service "apprun.yaml" true cluster_config plan start)
apply-IsSaved_example = apply-IsSaved service "apprun.yaml" true cluster_config plan start

apply-Follows_example :
    Follows step_of
      (plan_steps true cluster_config plan)
      (apply service "apprun.yaml" true cluster_config plan)
apply-Follows_example = apply-Follows service "apprun.yaml" true cluster_config plan

create_plan-reads_example : Does reading IsRead (create_plan service cluster_config)
create_plan-reads_example = create_plan-reads service cluster_config

abbrev balancers : Lbs
balancers = ("web", ("front", balancer) ∷ []) ∷ []

plan_lbs-IsSound_example :
    All
      (IsSoundLb (group ∷ []) plan.asg_actions balancers)
      (plan_lbs same_order (group ∷ []) plan.asg_actions balancers (balancer_config ∷ []))
plan_lbs-IsSound_example =
    plan_lbs-IsSound same_order plan.asg_actions (group ∷ []) balancers (balancer_config ∷ [])

plan_lbs-IsQuiet_iff_example :
    All IsQuietLb (plan_lbs same_order (group ∷ []) [] balancers (balancer_config ∷ []))
    ↔ All
        (UpToDateLb same_order [] same_order_shuffles (group ∷ []) balancers)
        (balancer_config ∷ [])
plan_lbs-IsQuiet_iff_example =
    plan_lbs-IsQuiet_iff same_order [] same_order_shuffles (group ∷ []) balancers
      (balancer_config ∷ [])

plan_asgs-IsQuiet_iff_example :
    All IsQuietAsg (plan_asgs same_order (group ∷ []) (group_config ∷ []))
    ↔ All (UpToDateAsg same_order same_order_shuffles (group ∷ [])) (group_config ∷ [])
plan_asgs-IsQuiet_iff_example =
    plan_asgs-IsQuiet_iff same_order same_order_shuffles (group ∷ []) (group_config ∷ [])

plan_asgs-IsSound_example :
    All
      (IsSoundAsg (index_by asg_name (record group { zone = "is1b" } ∷ [])))
      (plan_asgs same_order (record group { zone = "is1b" } ∷ []) (group_config ∷ []))
plan_asgs-IsSound_example =
    plan_asgs-IsSound same_order (record group { zone = "is1b" } ∷ []) (group_config ∷ [])

waits-Returns_example :
    ((wait_for_lb_deletion service 1 10 20 "front" start).0 ≢ no_fuel)
    × ((wait_for_asg_deletion service 1 10 "front" start).0 ≢ no_fuel)
waits-Returns_example = waits-Returns service 1 10 20 "front" start service-IsClock (omega arith)

compare_asg_iff_example :
    (compare_asg same_order group group_config ≡ []) ↔ SameGroup group group_config
compare_asg_iff_example = compare_asg_iff same_order same_order_shuffles group group_config

compare_lb_iff_example :
    (compare_lb same_order balancer balancer_config ≡ []) ↔ SameBalancer balancer balancer_config
compare_lb_iff_example = compare_lb_iff same_order same_order_shuffles balancer balancer_config

compare-build_create_request_example :
    (compare_asg same_order group group_config ≡ [])
    × (compare_lb same_order balancer balancer_config ≡ [])
compare-build_create_request_example =
    compare-build_create_request same_order same_order_shuffles group_config group balancer_config
      balancer
      (record {
        zone = refl;
        service_class = refl;
        min = refl;
        max = refl;
        servers = refl;
        interfaces = refl;
      })
      (record { service_class = refl; servers = refl; interfaces = refl })

state_after_update-HoldsVersions_example : HoldsVersions (state_after_update app stored).0 app
state_after_update-HoldsVersions_example =
    state_after_update-HoldsVersions app stored spec-DistinctKeys

-- The state that an update leaves has nothing left to store.
abbrev settled : State
settled = (state_after_update app stored).0

settled-unmodified : (state_after_update app settled).1 ≡ false
unfolding state_after_update get_password_version lookup get_secret_env_version set_password_version
    insert set_secret_env_version
settled-unmodified = refl

state_after_update_unmodified_example : (state_after_update app settled).0 ≡ settled
state_after_update_unmodified_example = state_after_update_unmodified app settled settled-unmodified

state_after_create-HoldsVersions_example : HoldsVersions (state_after_create app stored).0 app
state_after_create-HoldsVersions_example =
    state_after_create-HoldsVersions app stored spec-DistinctKeys (λ p. cc)

validate_iff_example : (validate cluster_config ≡ none) ↔ IsValidConfig cluster_config
validate_iff_example = validate_iff cluster_config

abbrev nameless : ClusterConfig
nameless = record cluster_config { applications = app ∷ (record app { name = "" }) ∷ [] }

nameless-rejected : validate nameless ≡ some (invalid_application 1 AppError.name_required)
unfolding validate
nameless-rejected = refl

validate_first_error_example : StopsAt nameless.applications 1 AppError.name_required
validate_first_error_example =
    validate_first_error nameless 1 AppError.name_required nameless-rejected

abbrev shop : String
shop = "shop"

abbrev token : String
token = "TOKEN"

get_versions-set_versions_example :
    ((get_password_version (set_password_version stored shop none) shop
        ≡ (if shop == shop then none else get_password_version stored shop))
      × (get_secret_env_version (set_password_version stored shop none) shop token
          ≡ get_secret_env_version stored shop token))
    × ((get_secret_env_version (set_secret_env_version stored shop token none) shop token ≡ (
          if shop == shop && token == token
          then none
          else get_secret_env_version stored shop token))
        × (get_password_version (set_secret_env_version stored shop token none) shop
            ≡ get_password_version stored shop))
get_versions-set_versions_example = get_versions-set_versions stored shop shop token token none

set_versions-IsClean_example :
    IsClean (set_password_version new_state "shop" none)
    × IsClean (set_secret_env_version new_state "shop" "TOKEN" none)
set_versions-IsClean_example = set_versions-IsClean new_state "shop" "TOKEN" none new_state-IsClean
