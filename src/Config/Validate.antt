-- ===== src/Config/Validate.antt =====
-- config/loader.go: `validate` and `validateApplication`. An error is a value that carries what its
-- message prints.
pub mod Laws
use apprun_dedicated_provisi.Base.{
  is_empty, ℕ, ◌+◌, ℤ, pos, ltb_ℤ, String, Bool, true, false, not, ◌&&◌, ◌||◌, Option, none, some,
  List, [], ◌∷◌, ◌==◌, ◌!=◌, string_eq, if◌then◌else◌,
}
use apprun_dedicated_provisi.Config.{
  ClusterConfig, ApplicationConfig, ApplicationSpec, EnvVarConfig,
}

-- The messages of `validateApplication`, without the prefix that names the application.
pub data AppError : Type 0 where
  name_required cpu_range memory_range scaling_mode image_required port_required : AppError
  fixed_scale_required min_max_required password_version_required : AppError
  secret_version_required : ℕ → String → AppError

pub data ConfigError : Type 0 where
  cluster_name_required application_required : ConfigError
  invalid_application : ℕ → AppError → ConfigError

abbrev pub is_nil {ℓ} : {A : Type ℓ} → Option A → Bool
is_nil none = true
is_nil (some a) = false

-- The loop over the environment variables, from position `j` on. `none` is success.
unfoldable pub validate_env : ℕ → List EnvVarConfig → Option AppError
validate_env j [] = none
validate_env j (env ∷ rest) =
    if env.secret && is_nil env.secret_version
    then some (secret_version_required j env.key)
    else validate_env (j + 1) rest

-- The switch over the scaling mode.
unfoldable pub validate_scaling : ApplicationSpec → Option AppError
validate_scaling v =
    if v.scaling_mode == "manual"
    then (if is_nil v.fixed_scale then some fixed_scale_required else none)
    else if v.scaling_mode == "cpu"
    then (if is_nil v.min_scale || is_nil v.max_scale then some min_max_required else none)
    else none

-- What follows the switch.
unfoldable pub validate_secrets : ApplicationSpec → Option AppError
unfolding validate_env
validate_secrets v =
    if not (is_nil v.registry_password) && is_nil v.registry_password_version
    then some password_version_required
    else validate_env 0 v.env

unfoldable pub validate_application : ApplicationConfig → Option AppError
validate_application app =
    let v = app.spec in
    if app.name == ""
    then some name_required
    else if ltb_ℤ v.cpu (pos 100) || ltb_ℤ (pos 64000) v.cpu
    then some cpu_range
    else if ltb_ℤ v.memory (pos 128) || ltb_ℤ (pos 131072) v.memory
    then some memory_range
    else if v.scaling_mode != "manual" && v.scaling_mode != "cpu"
    then some scaling_mode
    else if v.image == ""
    then some image_required
    else if is_empty v.exposed_ports
    then some port_required
    else elim (validate_scaling v) [ some e ↦ some e | none ↦ validate_secrets v ]

-- The loop over the applications, from index `i` on.
unfoldable pub validate_applications : ℕ → List ApplicationConfig → Option ConfigError
unfolding validate_application validate_scaling validate_secrets
validate_applications i [] = none
validate_applications i (app ∷ rest) = elim (validate_application app) [
  | some e ↦ some (invalid_application i e)
  | none ↦ validate_applications (i + 1) rest
]

unfoldable pub validate : ClusterConfig → Option ConfigError
unfolding validate_applications
validate config =
    if config.cluster_name == ""
    then some cluster_name_required
    else if is_empty config.applications
    then some application_required
    else validate_applications 0 config.applications
