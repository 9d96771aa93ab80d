-- ===== src/Version/Converge.antt =====
-- An application that was applied is up to date: the next plan has nothing to change.
use mathlib.Core.Bool.{◌||◌}
use apprun_dedicated_provisi.Base.{
  ℤ, String, true, false, Option, none, some, List, [], ◌∷◌, ◌++◌, map, ◌≡◌, ◌≢◌, refl, ◌∙◌, ap,
  ap₂, arith, ◌==◌, string_eq, int_eq, Bool-cases, ◌⊎◌, inl, inr,
}
use apprun_dedicated_provisi.Base.Text.{join}
use apprun_dedicated_provisi.Config.{ApplicationConfig, ApplicationSpec, EnvVarConfig}
use apprun_dedicated_provisi.Api.{
  CreateEnvironmentVariable, ReadEnvironmentVariable, CreateApplicationVersion,
  ReadApplicationVersionDetail,
}
use apprun_dedicated_provisi.Spec.{
  NormalizedSpec, Differ, normalize_from_api, normalize_from_config, compare_specs,
}
use apprun_dedicated_provisi.Spec.Laws.{IsDiff, lines, compare_specs-same, compare_specs-image}
use apprun_dedicated_provisi.State.{State, get_password_version}
use apprun_dedicated_provisi.Version.{
  compare_version, compare_env, password_changes, state_after_create, state_after_update,
}
use apprun_dedicated_provisi.Version.Request.{
  Base, build_create_version_request, build_create_version_request_with_base, api_env,
}
use apprun_dedicated_provisi.Base.{All}
use apprun_dedicated_provisi.Config.Validate.{validate_application}
use apprun_dedicated_provisi.Config.Validate.Laws.{IsValidApp, validate_application_sound}
use apprun_dedicated_provisi.Version.Normal.{
  HasPorts, IsVersionOf, Covers, normalize-IsVersionOf, req_image, req_env,
}
use apprun_dedicated_provisi.Version.Env.{ShowsEnv, compare_env-seen}
use apprun_dedicated_provisi.Version.Secrets.{
  DistinctKeys, HoldsVersions, state_after_create-HoldsVersions, state_after_update-HoldsVersions,
}

-- The version is the service's answer to the request.
pub record IsMadeFrom (show : CreateEnvironmentVariable → ReadEnvironmentVariable)
    (req : CreateApplicationVersion) (v : ReadApplicationVersionDetail) : Type 0 where
  pub settings : IsVersionOf req v
  pub env : v.env ≡ map show req.env

password_changes_same : (v : Option ℤ) → password_changes v v ≡ []
unfolding password_changes
password_changes_same none = refl
password_changes_same (some v) = ground (arith, int_eq.beq_iff v v)

map-map_seen :
    (show : CreateEnvironmentVariable → ReadEnvironmentVariable) (es : List EnvVarConfig)
    → map show (map api_env es) ≡ map (λ e. show (api_env e)) es
map-map_seen show [] = refl
map-map_seen show (e ∷ es) = ap (◌∷◌ (show (api_env e))) (map-map_seen show es)

-- A valid configuration states all that a new application has.
IsValidApp-Covers :
    (app : ApplicationConfig)
    → IsValidApp app
    → All HasPorts app.spec.exposed_ports
    → Covers app.spec none
IsValidApp-Covers app v ports = record {
  cpu = λ e. ground (arith, v.cpu_range);
  memory = λ e. ground (arith, v.memory_range);
  scaling_mode =
      λ e. ground (arith, v.scaling, string_eq.beq_iff "manual" "", string_eq.beq_iff "cpu" "");
  fixed_scale = ground arith;
  min_scale = ground arith;
  max_scale = ground arith;
  scale_in_threshold = ground arith;
  scale_out_threshold = ground arith;
  cmd = inr refl;
  registry_username = inr refl;
  exposed_ports = v.ports_given;
  env = inr refl;
  ports = ports;
}

module _ (diff : Differ) (is_diff : IsDiff diff)
    (show : CreateEnvironmentVariable → ReadEnvironmentVariable) (shows : ShowsEnv show) where
  module _ (app : ApplicationConfig) (base : Base) (covers : Covers app.spec base)
      (image_given : app.spec.image ≢ "") (d : ReadApplicationVersionDetail)
      (made : IsMadeFrom show (build_create_version_request_with_base app.spec base) d) where
    specs_unchanged :
        lines (
          compare_specs diff
            (normalize_from_api d)
            (normalize_from_config app.spec)
            (app.spec.inherit_image || app.spec.image == ""))
        ≡ []
    unfolding normalize_from_config
    specs_unchanged = elim (Bool-cases app.spec.inherit_image) [
      | inl inherits ↦
          rw (normalize-IsVersionOf app.spec base covers d made.settings, inherits)
            (compare_specs-image diff is_diff (normalize_from_config app.spec) d.image)
      | inr own ↦
          rw (same_normal own) (compare_specs-same diff is_diff (normalize_from_config app.spec) _)
    ]
      where
        same_normal :
            app.spec.inherit_image ≡ false → normalize_from_api d ≡ normalize_from_config app.spec
        same_normal own =
            normalize-IsVersionOf app.spec base covers d made.settings
            ∙ ap (λ (image : String). record (normalize_from_config app.spec) { image = image })
                (made.settings.image ∙ req_image app.spec base covers own image_given)

    env_unchanged :
        (s : State)
        → DistinctKeys app.spec.env
        → HoldsVersions s app
        → compare_env s app.name d.env app.spec.env ≡ []
    env_unchanged s distinct holds =
        rw (made.env, req_env app.spec base covers, map-map_seen show app.spec.env)
          (compare_env-seen show shows s app.name app.spec.env distinct holds.secrets)

    compare_version-applied :
        (s : State)
        → DistinctKeys app.spec.env
        → HoldsVersions s app
        → compare_version diff s app.name d app.spec ≡ []
    unfolding compare_version
    compare_version-applied s distinct holds = ap₂ ◌++◌ specs_unchanged (
        ap₂ ◌++◌ (env_unchanged s distinct holds) (
          ap (λ (v : Option ℤ). password_changes v app.spec.registry_password_version)
            holds.password
          ∙ password_changes_same app.spec.registry_password_version))

  -- Updates converge. Let `diff` report no difference where there is none, and the service show a
  -- new version as it was requested, secret texts aside. If the configuration states every setting
  -- that the version before it had, an image, ports that fit a uint16, and no variable twice, then
  -- after an update the comparison of the new version with the configuration, over the state that
  -- the update leaves, finds no change, also where the image is inherited.
  pub update-converges :
      (app : ApplicationConfig) (base : ReadApplicationVersionDetail) (s : State)
      (d : ReadApplicationVersionDetail)
      → Covers app.spec (some base)
      → app.spec.image ≢ ""
      → DistinctKeys app.spec.env
      → IsMadeFrom show (build_create_version_request_with_base app.spec (some base)) d
      → compare_version diff (state_after_update app s).0 app.name d app.spec ≡ []
  update-converges app base s d covers image_given distinct made =
      compare_version-applied app (some base) covers image_given d made (state_after_update app s).0
        distinct (state_after_update-HoldsVersions app s distinct)

  -- Creations converge. Under the same assumptions on `diff` and the service: if `validateApplication`
  -- accepts the configuration, its ports fit a uint16, it has no variable twice, and it has a
  -- password version or the state has none under its name, then after a create the comparison of
  -- the new version with the configuration, over the state that the create leaves, finds no change.
  pub create-converges :
      (app : ApplicationConfig) (s : State) (d : ReadApplicationVersionDetail)
      → validate_application app ≡ none
      → All HasPorts app.spec.exposed_ports
      → DistinctKeys app.spec.env
      → (app.spec.registry_password_version ≡ none → get_password_version s app.name ≡ none)
      → IsMadeFrom show (build_create_version_request app.spec) d
      → compare_version diff (state_after_create app s).0 app.name d app.spec ≡ []
  unfolding build_create_version_request
  create-converges app s d accepted ports distinct fresh made =
      let valid = validate_application_sound app accepted in
      compare_version-applied app none (IsValidApp-Covers app valid ports) valid.image_given d made
        (state_after_create app s).0 distinct
        (state_after_create-HoldsVersions app s distinct fresh)

-- A setting is left out that the base version has: the command, with some text, or the fixed scale.
abbrev pub Omits : ApplicationSpec → ReadApplicationVersionDetail → Type 0
Omits v base =
    ((v.cmd ≡ []) × (join base.cmd " " ≢ ""))
    ⊎ ((v.fixed_scale ≡ none) × (base.fixed_scale.set ≡ true))

omitted-stays :
    (v : ApplicationSpec) (base d : ReadApplicationVersionDetail)
    → IsVersionOf (build_create_version_request_with_base v (some base)) d
    → (v.cmd ≡ []
        → join base.cmd " " ≢ ""
        → (normalize_from_api d).cmd ≢ (normalize_from_config v).cmd)
      × (v.fixed_scale ≡ none
          → base.fixed_scale.set ≡ true
          → (normalize_from_api d).fixed_scale ≢ (normalize_from_config v).fixed_scale)
unfolding build_create_version_request_with_base normalize_from_api normalize_from_config join
omitted-stays v base d made = (
  (λ none_given text e. text (
      ap (λ (c : List String). join c " ") {x = base.cmd} {y = d.cmd} (ground (arith, made.cmd))
      ∙ e
      ∙ ap (λ (c : List String). join c " ") none_given)),
  (λ none_given set e. ground (arith, made.fixed_scale)),
)

-- Let the configuration leave out the command, where that of the base version has text, or the fixed
-- scale, where the base version has one. Then a version made from the request that an update builds on
-- the base version has another normal form than the configuration.
pub omitted-differs :
    (v : ApplicationSpec) (base d : ReadApplicationVersionDetail)
    → IsVersionOf (build_create_version_request_with_base v (some base)) d
    → Omits v base
    → normalize_from_api d ≢ normalize_from_config v
omitted-differs v base d made (inl (none_given, text)) e =
    (omitted-stays v base d made).0 none_given text (ap (λ (s : NormalizedSpec). s.cmd) e)
omitted-differs v base d made (inr (none_given, set)) e =
    (omitted-stays v base d made).1 none_given set (ap (λ (s : NormalizedSpec). s.fixed_scale) e)
