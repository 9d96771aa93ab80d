-- ===== src/Config/Validate/Laws.antt =====
-- What an accepted configuration satisfies, and which error a rejected one gets.
use Prim.Native.Nat.{◌≤◌}
use apprun_dedicated_provisi.Base.{
  ℕ, ◌+◌, ℤ, pos, negsuc, true, false, none, some, List, [], ◌∷◌, ◌++◌, ◌≡◌, ◌≢◌, ◌⊎◌, ◌↔◌, inl,
  inr, refl, subst, suc, ap, Option-cases, arith, All, length, ◌==◌, string_eq,
}
use apprun_dedicated_provisi.Config.{ClusterConfig, ApplicationConfig, EnvVarConfig}
use apprun_dedicated_provisi.Config.Validate.{
  AppError, invalid_application, is_nil, validate_env, validate_scaling, validate_secrets,
  validate_application, validate_applications, validate,
}

-- An integer lies between two natural numbers.
abbrev pub InRange : ℕ → ℕ → ℤ → Type 0
InRange lo hi (pos n) = (lo ≤ n) × (n ≤ hi)
InRange lo hi (negsuc n) = ⊥

abbrev pub HasVersion : EnvVarConfig → Type 0
HasVersion env = env.secret ≡ true → is_nil env.secret_version ≡ false

-- What the comments of config.go ask of an application.
pub record IsValidApp (app : ApplicationConfig) : Type 0 where
  pub named : app.name ≢ ""
  pub cpu_range : InRange 100 64000 app.spec.cpu
  pub memory_range : InRange 128 131072 app.spec.memory
  pub scaling :
      ((app.spec.scaling_mode ≡ "manual") × (is_nil app.spec.fixed_scale ≡ false))
      ⊎ ((app.spec.scaling_mode ≡ "cpu")
          × (is_nil app.spec.min_scale ≡ false)
          × (is_nil app.spec.max_scale ≡ false))
  pub image_given : app.spec.image ≢ ""
  pub ports_given : app.spec.exposed_ports ≢ []
  pub password_versioned :
      is_nil app.spec.registry_password ≡ false → is_nil app.spec.registry_password_version ≡ false
  pub secrets_versioned : All HasVersion app.spec.env

validate_env_iff :
    (j : ℕ) (env : List EnvVarConfig) → (validate_env j env ≡ none) ↔ All HasVersion env
unfolding validate_env
validate_env_iff j [] = (λ _. tt, λ _. refl)
validate_env_iff j (e ∷ rest) = ground (arith, validate_env_iff (j + 1) rest)

module _ (app : ApplicationConfig) where
  pub validate_application_sound : validate_application app ≡ none → IsValidApp app
  unfolding validate_application validate_scaling validate_secrets
  validate_application_sound h = record {
    named = ground (arith, string_eq.beq_iff app.name "");
    cpu_range = ground arith;
    memory_range = ground arith;
    scaling = ground (
      arith,
      string_eq.beq_iff app.spec.scaling_mode "manual",
      string_eq.beq_iff app.spec.scaling_mode "cpu",
    );
    image_given = ground (arith, string_eq.beq_iff app.spec.image "");
    ports_given = ground arith;
    password_versioned = ground arith;
    secrets_versioned = ground (arith, validate_env_iff 0 app.spec.env);
  }

  validate_scaling_complete : IsValidApp app → validate_scaling app.spec ≡ none
  unfolding validate_scaling
  validate_scaling_complete v = ground (
    arith,
    v.scaling,
    string_eq.beq_iff app.spec.scaling_mode "manual",
    string_eq.beq_iff app.spec.scaling_mode "cpu",
    string_eq.beq_iff "cpu" "manual",
  )

  known_mode :
      IsValidApp app
      → ((app.spec.scaling_mode == "manual") ≡ true) ⊎ ((app.spec.scaling_mode == "cpu") ≡ true)
  known_mode v = ground (
    arith,
    v.scaling,
    string_eq.beq_iff app.spec.scaling_mode "manual",
    string_eq.beq_iff app.spec.scaling_mode "cpu",
  )

  validate_secrets_complete : IsValidApp app → validate_secrets app.spec ≡ none
  unfolding validate_secrets
  validate_secrets_complete v =
      ground (arith, v.password_versioned, (validate_env_iff 0 app.spec.env).1 v.secrets_versioned)

  pub validate_application_complete : IsValidApp app → validate_application app ≡ none
  unfolding validate_application
  validate_application_complete v = ground (
    arith,
    v.cpu_range,
    v.memory_range,
    known_mode v,
    string_eq.beq_iff app.name "",
    string_eq.beq_iff app.spec.image "",
    validate_scaling_complete v,
    validate_secrets_complete v,
  )

validate_applications_iff :
    (i : ℕ) (apps : List ApplicationConfig)
    → (validate_applications i apps ≡ none) ↔ All IsValidApp apps
unfolding validate_applications
validate_applications_iff i [] = (λ _. tt, λ _. refl)
validate_applications_iff i (app ∷ rest) = (
  λ h. (
    validate_application_sound app (ground arith),
    (validate_applications_iff (i + 1) rest).0 (ground arith),
  ),
  λ v. ground (
    arith,
    validate_application_complete app v.0,
    (validate_applications_iff (i + 1) rest).1 v.1,
  ),
)

-- What the comments of config.go ask of a cluster's configuration.
pub record IsValidConfig (config : ClusterConfig) : Type 0 where
  pub named : config.cluster_name ≢ ""
  pub some_application : config.applications ≢ []
  pub applications_valid : All IsValidApp config.applications

-- `validate` accepts a configuration exactly when it names a cluster, has an application, and each
-- application is valid: named, CPU and memory in their ranges, a known scaling mode with its
-- scales, an image, a port, a version for a password and for each secret.
pub validate_iff : (config : ClusterConfig) → (validate config ≡ none) ↔ IsValidConfig config
unfolding validate
validate_iff config = (
  λ h. record {
    named = ground (arith, string_eq.beq_iff config.cluster_name "");
    some_application = ground arith;
    applications_valid =
        (validate_applications_iff 0 config.applications).0
          (ground (arith, string_eq.beq_iff config.cluster_name ""));
  },
  λ v. ground (
    arith,
    string_eq.beq_iff config.cluster_name "",
    (validate_applications_iff 0 config.applications).1 v.applications_valid,
  ),
)

-- The position at which the loop stops.
pub record StopsAt (apps : List ApplicationConfig) (i : ℕ) (e : AppError) : Type 0 where
  pub before : List ApplicationConfig
  pub app : ApplicationConfig
  pub after : List ApplicationConfig
  pub splits : apps ≡ before ++ (app ∷ after)
  pub index : length before ≡ i
  pub valid_before : All IsValidApp before
  pub rejected : validate_application app ≡ some e

StopsAt-cons :
    {app : ApplicationConfig} {rest : List ApplicationConfig} {i : ℕ} {e : AppError}
    → IsValidApp app
    → StopsAt rest i e
    → StopsAt (app ∷ rest) (suc i) e
StopsAt-cons {app} v s = record {
  before = app ∷ s.before;
  app = s.app;
  after = s.after;
  splits = ap (◌∷◌ app) s.splits;
  index = ap suc s.index;
  valid_before = (v, s.valid_before);
  rejected = s.rejected;
}

validate_applications-stops :
    (i k : ℕ) (apps : List ApplicationConfig) {e : AppError}
    → validate_applications i apps ≡ some (invalid_application k e)
    → (n : ℕ) × (k ≡ i + n) × StopsAt apps n e
unfolding validate_applications
validate_applications-stops i k [] h = absurd (ground arith)
validate_applications-stops i k (app ∷ rest) {e} h =
    elim (Option-cases (validate_application app)) [
      | inl valid ↦
          let (n, at, s) =
            validate_applications-stops (i + 1) k rest (rw (valid, validate_applications) at h) in
          (suc n, omega arith, StopsAt-cons (validate_application_sound app valid) s)
      | inr (e', bad) ↦ (
        0,
        ground arith,
        record {
          before = [];
          app = app;
          after = rest;
          splits = refl;
          index = refl;
          valid_before = tt;
          rejected = ground arith;
        },
      )
    ]

-- The error of a rejected application carries the position of the first application that is not
-- valid, and is what `validateApplication` says of that one.
pub validate_first_error :
    (config : ClusterConfig) (i : ℕ) (e : AppError)
    → validate config ≡ some (invalid_application i e)
    → StopsAt config.applications i e
unfolding validate
validate_first_error config i e h =
    let (n, at, s) = validate_applications-stops 0 i config.applications {e = e} (ground arith) in
    subst (λ k. StopsAt config.applications k e) (omega arith) s
