-- ===== src/Version/Request.antt =====
-- provisioner/sync.go: `buildCreateVersionRequest` and `buildCreateVersionRequestWithBase`.
use apprun_dedicated_provisi.Base.{
  is_empty, ℕ, ◌-◌, ◌%◌, ℤ, pos, negsuc, String, false, not, ◌&&◌, Option, none, some, [], map,
  ◌!=◌, string_eq, int_eq, if◌then◌else◌,
}
use apprun_dedicated_provisi.Config.{ApplicationSpec, ExposedPortConfig, EnvVarConfig}
use apprun_dedicated_provisi.Api.{
  Opt, Nil, opt_to, opt_unset, nil_to, nil_null, ExposedPort, CreateEnvironmentVariable,
  ReadEnvironmentVariable, RegistryPasswordAction, new, keep, remove, CreateApplicationVersion,
  ReadApplicationVersionDetail,
}
use apprun_dedicated_provisi.Spec.{api_check}

-- api.Port(p): an int32 narrowed to a uint16.
unfoldable pub to_port : ℤ → ℕ
to_port (pos n) = n % 65536
to_port (negsuc n) = 65535 - n % 65536

abbrev pub Base : Type 0
Base = Option ReadApplicationVersionDetail

-- A field of the base version, or the zero value.
abbrev pub base_or : {A : Type 0} → A → (ReadApplicationVersionDetail → A) → Base → A
base_or zero_value field none = zero_value
base_or zero_value field (some b) = field b

-- A scaling parameter: the configured one, or that of the base if it is set.
abbrev pub scale_or : Option ℤ → (ReadApplicationVersionDetail → Opt ℤ) → Base → Opt ℤ
scale_or (some v) field base = opt_to v
scale_or none field none = opt_unset (pos 0)
scale_or none field (some b) = if (field b).set then field b else opt_unset (pos 0)

-- RegistryUsername, and the action that the first of the two conditionals sets.
unfoldable pub registry_username : Option String → Base → Nil String × RegistryPasswordAction
registry_username (some u) base = (nil_to u, new)
registry_username none none = (nil_null "", remove)
registry_username none (some b) =
    if b.registry_username.value != ""
    then (nil_to b.registry_username.value, keep)
    else (nil_null "", remove)

-- RegistryPassword, and the action after the second conditional, from the one before it. The kept
-- password is the zero value of a NilString, which is not null.
unfoldable pub registry_password :
    Option String → Base → RegistryPasswordAction → Nil String × RegistryPasswordAction
registry_password (some p) base action = (nil_to p, new)
registry_password none none action = (nil_null "", action)
registry_password none (some b) action =
    if not b.registry_username.null
    then (record { value = ""; null = false }, keep)
    else (nil_null "", action)

-- One round of the loop over the configured ports.
unfoldable pub api_port : ExposedPortConfig → ExposedPort
unfolding to_port
api_port port = record {
  target_port = to_port port.target_port;
  load_balancer_port = (elim port.load_balancer_port [
    | none ↦ nil_null 0
    | some p ↦ nil_to (to_port p)
  ]);
  use_lets_encrypt = port.use_lets_encrypt;
  host = port.host;
  health_check = (elim port.health_check [
    | none ↦ nil_null (record { path = ""; interval_seconds = pos 0; timeout_seconds = pos 0 })
    | some hc ↦ nil_to (api_check hc)
  ]);
}

-- One round of the loop over the configured variables.
unfoldable pub api_env : EnvVarConfig → CreateEnvironmentVariable
api_env env = record {
  key = env.key;
  value = (elim env.value [ none ↦ opt_unset "" | some v ↦ opt_to v ]);
  secret = env.secret;
}

-- One round of the loop over the variables of the base: the value of a secret is not known.
unfoldable pub inherited_env : ReadEnvironmentVariable → CreateEnvironmentVariable
inherited_env env = record {
  key = env.key;
  value = (if not env.secret && not env.value.null then opt_to env.value.value else opt_unset "");
  secret = env.secret;
}

-- buildCreateVersionRequestWithBase. A nil base is `none`.
unfoldable pub build_create_version_request_with_base :
    ApplicationSpec → Option ReadApplicationVersionDetail → CreateApplicationVersion
unfolding registry_username registry_password api_port api_env inherited_env
build_create_version_request_with_base v base =
    let user = registry_username v.registry_username base in
    let password = registry_password v.registry_password base user.1 in
    record {
      cpu = (if v.cpu != pos 0 then v.cpu else base_or (pos 0) (λ b. b.cpu) base);
      memory = (if v.memory != pos 0 then v.memory else base_or (pos 0) (λ b. b.memory) base);
      scaling_mode =
          (if v.scaling_mode != "" then v.scaling_mode else base_or "" (λ b. b.scaling_mode) base);
      fixed_scale = scale_or v.fixed_scale (λ b. b.fixed_scale) base;
      min_scale = scale_or v.min_scale (λ b. b.min_scale) base;
      max_scale = scale_or v.max_scale (λ b. b.max_scale) base;
      scale_in_threshold = scale_or v.scale_in_threshold (λ b. b.scale_in_threshold) base;
      scale_out_threshold = scale_or v.scale_out_threshold (λ b. b.scale_out_threshold) base;
      image =
          (if not v.inherit_image && (v.image != "")
            then v.image
            else base_or v.image (λ b. b.image) base);
      cmd = (if is_empty v.cmd then base_or [] (λ b. b.cmd) base else v.cmd);
      registry_username = user.0;
      registry_password = password.0;
      registry_password_action = password.1;
      exposed_ports =
          (if is_empty v.exposed_ports
            then base_or [] (λ b. b.exposed_ports) base
            else map api_port v.exposed_ports);
      env =
          (if is_empty v.env
            then base_or [] (λ b. map inherited_env b.env) base
            else map api_env v.env);
    }

-- buildCreateVersionRequest
unfoldable pub build_create_version_request : ApplicationSpec → CreateApplicationVersion
unfolding build_create_version_request_with_base
build_create_version_request v = build_create_version_request_with_base v none
