-- ===== src/Provisioner/Dump/Accepted.antt =====
-- provisioner/sync.go: which dumped applications config.go accepts, when the versions of the service
-- are what api/oas_validators_gen.go lets the client read.
use apprun_dedicated_provisi.Base.{
  ℤ, true, false, none, some, List, [], ◌∷◌, map, ◌≡◌, ◌≢◌, ◌⊎◌, ◌↔◌, refl, arith, All, All-iff,
  string_eq,
}
use apprun_dedicated_provisi.Config.{ApplicationConfig}
use apprun_dedicated_provisi.Config.Validate.{validate_application, is_nil}
use apprun_dedicated_provisi.Config.Validate.Laws.{
  HasVersion, validate_application_sound, validate_application_complete,
}
use apprun_dedicated_provisi.Api.{
  Opt, opt_get, ExposedPort, ReadEnvironmentVariable, ReadApplicationDetail,
  ReadApplicationVersionDetail,
}
use apprun_dedicated_provisi.Api.Validate.{Checks}
use apprun_dedicated_provisi.Api.Validate.Responses.{
  read_application_fields, read_version_fields, validate_read_application, validate_read_version,
}
use apprun_dedicated_provisi.Api.Validate.Laws.{
  AreChecks, fields-nil_iff, between-nil_iff, string_errors-nil_iff,
}
use apprun_dedicated_provisi.Provisioner.Dump.{dump_port, dump_env, dump_spec}

-- What a version has that the service need not set and validateApplication asks for.
pub record IsComplete (v : ReadApplicationVersionDetail) : Type 0 where
  pub image : v.image ≢ ""
  pub ports : v.exposed_ports ≢ []
  pub scales :
      ((v.scaling_mode ≡ "manual") × (v.fixed_scale.set ≡ true))
      ⊎ ((v.scaling_mode ≡ "cpu") × (v.min_scale.set ≡ true) × (v.max_scale.set ≡ true))
  pub no_secret : All (λ e. e.secret ≡ false) v.env

dump_env_iff : (e : ReadEnvironmentVariable) → HasVersion (dump_env e) ↔ (e.secret ≡ false)
unfolding dump_env
dump_env_iff e = ground arith

is_set : (o : Opt ℤ) → (is_nil (opt_get o) ≡ false) ↔ (o.set ≡ true)
is_set o = ground arith

no_ports : (ps : List ExposedPort) → ps ≢ [] → map dump_port ps ≢ []
no_ports [] h k = h refl
no_ports (p ∷ ps) h k = cc

some_ports : (ps : List ExposedPort) → map dump_port ps ≢ [] → ps ≢ []
some_ports [] h k = h refl
some_ports (p ∷ ps) h k = cc

module _ (checks : Checks) (laws : AreChecks checks) (d : ReadApplicationDetail)
    (v : ReadApplicationVersionDetail) where
  abbrev pub dumped : ApplicationConfig
  dumped = record { name = d.name; spec = dump_spec v }

  dumped-IsComplete : validate_application dumped ≡ none → IsComplete v
  unfolding dump_spec
  dumped-IsComplete accepted =
      let valid = validate_application_sound dumped accepted in
      record {
        image = valid.image_given;
        ports = some_ports v.exposed_ports valid.ports_given;
        scales =
            ground
              (arith, valid.scaling, is_set v.fixed_scale, is_set v.min_scale, is_set v.max_scale);
        no_secret =
            (All-iff HasVersion (λ e. e.secret ≡ false) dump_env v.env dump_env_iff).0
              valid.secrets_versioned;
      }

  name_given : validate_read_application checks d ≡ [] → d.name ≢ ""
  unfolding validate_read_application
  name_given read empty =
      let (ok, end) = (fields-nil_iff (read_application_fields checks d)).0 read in
      ground (
        arith,
        empty,
        laws.not_empty 0 (some 20) (some "^[a-zA-Z0-9_-]+$"),
        (string_errors-nil_iff checks (some 1) (some 20) (some "^[a-zA-Z0-9_-]+$") d.name).0 ok,
      )

  accepted_of_complete :
      validate_read_application checks d ≡ []
      → validate_read_version checks v ≡ []
      → IsComplete v
      → validate_application dumped ≡ none
  unfolding dump_spec validate_read_version
  accepted_of_complete read_app read c =
      let (number, (cpu, (memory, rest))) =
        (fields-nil_iff (read_version_fields checks v)).0 read in
      validate_application_complete dumped (record {
        named = name_given read_app;
        cpu_range = (between-nil_iff checks laws 100 64000 v.cpu).0 cpu;
        memory_range = (between-nil_iff checks laws 128 131072 v.memory).0 memory;
        scaling =
            ground (arith, c.scales, is_set v.fixed_scale, is_set v.min_scale, is_set v.max_scale);
        image_given = c.image;
        ports_given = no_ports v.exposed_ports c.ports;
        password_versioned = ground arith;
        secrets_versioned =
            (All-iff HasVersion (λ e. e.secret ≡ false) dump_env v.env dump_env_iff).1 c.no_secret;
      })

  -- Let the single checks of ogen do what their documentation says, and let the client have read an
  -- application and its latest version. Then validateApplication accepts the application's dump exactly
  -- when the version has an image, a port, the scales of its scaling mode, and no secret variable: a
  -- dump knows no secretVersion.
  pub dump_spec-accepted_iff :
      validate_read_application checks d ≡ []
      → validate_read_version checks v ≡ []
      → (validate_application (record { name = d.name; spec = dump_spec v }) ≡ none) ↔ IsComplete v
  dump_spec-accepted_iff read_app read = (dumped-IsComplete, accepted_of_complete read_app read)
