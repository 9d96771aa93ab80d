-- ===== src/Version/Limits.antt =====
-- provisioner/sync.go and api/oas_validators_gen.go: which configured specs make a request that the
-- service accepts.
pub mod Parts
pub mod Fields
pub mod Laws
use Prim.Native.Nat.{◌≤◌, ◌<◌}
use apprun_dedicated_provisi.Base.{
  ℕ, ◌+◌, ℤ, pos, negsuc, String, true, false, Option, none, some, List, [], ◌∷◌, map, ◌≡◌, ◌≢◌,
  ◌↔◌, refl, arith, All, All-iff, length, length-map, ◌==◌, string_eq, int_eq, Option-cases, ◌⊎◌,
  inl, inr,
}
use apprun_dedicated_provisi.Config.{
  ApplicationSpec, ApplicationConfig, ExposedPortConfig, EnvVarConfig, HealthCheckConfig,
}
use apprun_dedicated_provisi.Config.Validate.{validate_application}
use apprun_dedicated_provisi.Config.Validate.Laws.{InRange, IsValidApp, validate_application_sound}
use apprun_dedicated_provisi.Api.{ExposedPort, nil_get, nil_to, nil_null, opt_get}
use apprun_dedicated_provisi.Spec.{api_check}
use apprun_dedicated_provisi.Api.Validate.{
  Checks, Errors, string_errors, fields, if_given, health_check_fields, exposed_port_fields,
  validate_port, validate_health_check, validate_exposed_port,
}
use apprun_dedicated_provisi.Api.Validate.Requests.{
  create_env_fields, create_version_fields, validate_create_env, validate_create_version,
}
use apprun_dedicated_provisi.Api.Validate.Laws.{
  AreChecks, Given, Accepts, fields-nil_iff, if_given-nil_iff, int_errors-nil_iff,
  string_errors-nil_iff, optional_array-nil_iff, bounded_array-nil_iff, between-nil_iff,
}
use apprun_dedicated_provisi.Version.Request.{
  to_port, api_port, api_env, build_create_version_request,
}

module _ (checks : Checks) where
  abbrev pub IsShort : ℕ → String → Type 0
  IsShort most s = checks.string_ok none (some most) none s ≡ true

  pub record HealthWithin (hc : HealthCheckConfig) : Type 0 where
    pub path : IsShort 200 hc.path
    pub interval : InRange 3 60 hc.interval_seconds
    pub timeout : checks.int_ok none (some (pos 60)) hc.timeout_seconds ≡ true

  -- A port may be any number that its narrowing to 16 bits does not make 0.
  pub record PortWithin (p : ExposedPortConfig) : Type 0 where
    pub target : to_port p.target_port ≢ 0
    pub balancer : Given (λ b. to_port b ≢ 0) p.load_balancer_port
    pub hosts : length p.host ≤ 5
    pub health : Given HealthWithin p.health_check

  pub record EnvWithin (e : EnvVarConfig) : Type 0 where
    pub key : checks.string_ok (some 1) (some 255) none e.key ≡ true
    pub text : Given (IsShort 4096) e.value

  pub record IsWithinLimits (spec : ApplicationSpec) : Type 0 where
    pub fixed : Given (InRange 1 50) spec.fixed_scale
    pub least : Given (InRange 1 50) spec.min_scale
    pub most : Given (InRange 1 50) spec.max_scale
    pub scale_in : Given (InRange 30 70) spec.scale_in_threshold
    pub scale_out : Given (InRange 50 99) spec.scale_out_threshold
    pub image : IsShort 512 spec.image
    pub cmd : length spec.cmd ≤ 20
    pub username : Given (IsShort 255) spec.registry_username
    pub password : Given (IsShort 255) spec.registry_password
    pub port_count : length spec.exposed_ports ≤ 5
    pub ports : All PortWithin spec.exposed_ports
    pub env_count : length spec.env ≤ 50
    pub env : All EnvWithin spec.env
