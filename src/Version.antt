-- ===== src/Version.antt =====
-- provisioner/sync.go: the comparison of an application's latest version with its configuration,
-- and what an apply writes to the state.
pub mod Request
pub mod Limits
pub mod Secrets
pub mod Normal
pub mod Env
pub mod Converge
pub mod Diff
use apprun_dedicated_provisi.Base.{
  ℤ, String, ◌<>◌, Bool, true, false, ◌&&◌, ◌||◌, Option, none, some, List, [], ◌∷◌, ◌++◌, ◌==◌,
  ◌!=◌, string_eq, int_eq, if◌then◌else◌, concat_map,
}
use apprun_dedicated_provisi.Base.Dict.{Dict, lookup, index_by}
use apprun_dedicated_provisi.Base.Text.{show_int}
use apprun_dedicated_provisi.Result.{value, failure}
use apprun_dedicated_provisi.Config.{ApplicationSpec, ApplicationConfig, EnvVarConfig}
use apprun_dedicated_provisi.Config.Validate.{is_nil}
use apprun_dedicated_provisi.Api.{Nil, ReadEnvironmentVariable, ReadApplicationVersionDetail}
use apprun_dedicated_provisi.Spec.{Differ, compare_specs, normalize_from_api, normalize_from_config}
use apprun_dedicated_provisi.State.{
  State, get_password_version, set_password_version, get_secret_env_version, set_secret_env_version,
}

abbrev pub current_key : ReadEnvironmentVariable → String
current_key env = env.key

abbrev pub desired_key : EnvVarConfig → String
desired_key env = env.key

-- The text of a variable: "" for null and for nil.
abbrev pub nil_text : Nil String → String
nil_text v = if v.null then "" else v.value

abbrev pub ptr_text : Option String → String
ptr_text none = ""
ptr_text (some v) = v

-- The line for a variable that the current version lacks.
added : EnvVarConfig → List String
added d = if d.secret then ("Env add: " <> d.key <> " (secret)") ∷ [] else elim d.value [
  | some v ↦ ("Env add: " <> d.key <> "=" <> v) ∷ []
  | none ↦ ("Env add: " <> d.key) ∷ []
]

-- The comparison of a secret's version with the stored one.
unfoldable pub secret_changes : String → Option ℤ → Option ℤ → List String
secret_changes key stored none = []
secret_changes key none (some v) =
    ("Env update: " <> key <> " (secret, version: new -> " <> show_int v <> ")") ∷ []
secret_changes key (some s) (some v) =
    if s != v
    then ("Env update: "
        <> key
        <> " (secret, version: "
        <> show_int s
        <> " -> "
        <> show_int v
        <> ")")
      ∷ []
    else []

-- The comparison of two texts.
unfoldable pub text_changes : String → String → String → List String
text_changes key current desired =
    if current != desired
    then ("Env update: " <> key <> "=" <> current <> " -> " <> desired) ∷ []
    else []

-- One round of the loop over the desired variables.
unfoldable pub desired_changes :
    State → String → Dict String ReadEnvironmentVariable → EnvVarConfig → List String
unfolding added secret_changes text_changes
desired_changes s app current_by_key d = elim (lookup d.key current_by_key) [
  | none ↦ added d
  | some c ↦
      if d.secret
      then secret_changes d.key (get_secret_env_version s app d.key) d.secret_version
      else text_changes d.key (nil_text c.value) (ptr_text d.value)
]

-- The line for a variable that the desired ones lack.
unfoldable pub removed_line : ReadEnvironmentVariable → List String
removed_line c =
    if c.secret
    then ("Env remove: " <> c.key <> " (secret)") ∷ []
    else ("Env remove: " <> c.key) ∷ []

-- One round of the loop over the current variables.
unfoldable pub removed_changes : Dict String EnvVarConfig → ReadEnvironmentVariable → List String
unfolding removed_line
removed_changes desired_by_key c = elim (lookup c.key desired_by_key) [
  | some d ↦ []
  | none ↦ removed_line c
]

-- compareEnv
unfoldable pub compare_env :
    State → String → List ReadEnvironmentVariable → List EnvVarConfig → List String
unfolding desired_changes removed_changes
compare_env s app current desired =
    concat_map (desired_changes s app (index_by current_key current)) desired
    ++ concat_map (removed_changes (index_by desired_key desired)) current

-- The comparison of the password's version with the stored one.
unfoldable pub password_changes : Option ℤ → Option ℤ → List String
password_changes none none = []
password_changes (some s) none = ("RegistryPasswordVersion: " <> show_int s <> " -> (removed)") ∷ []
password_changes none (some v) = ("RegistryPasswordVersion: (new) -> " <> show_int v) ∷ []
password_changes (some s) (some v) =
    if s != v then ("RegistryPasswordVersion: " <> show_int s <> " -> " <> show_int v) ∷ [] else []

-- compareVersion. If the specs cannot be compared, that is logged, and counts as no change.
unfoldable pub compare_version :
    Differ → State → String → ReadApplicationVersionDetail → ApplicationSpec → List String
unfolding password_changes
compare_version diff s app current desired =
    let skip_image = desired.inherit_image || desired.image == "" in
    let compared =
      compare_specs diff (normalize_from_api current) (normalize_from_config desired) skip_image in
    (elim compared [ failure e ↦ [] | value lines ↦ lines ])
    ++ (compare_env s app current.env desired.env
        ++ password_changes (get_password_version s app) desired.registry_password_version)

-- One round of the loop of updateSecretEnvVersions, with the flag `modified`.
unfoldable pub store_secret : String → EnvVarConfig → State × Bool → State × Bool
store_secret app env (s, modified) =
    if env.secret
    then elim env.secret_version [
      | none ↦ (s, modified)
      | some v ↦ elim (get_secret_env_version s app env.key) [
        | none ↦ (set_secret_env_version s app env.key (some v), true)
        | some stored ↦
            if stored != v
            then (set_secret_env_version s app env.key (some v), true)
            else (s, modified)
      ]
    ]
    else (s, modified)

unfoldable pub update_secrets : String → List EnvVarConfig → State × Bool → State × Bool
unfolding store_secret
update_secrets app [] r = r
update_secrets app (env ∷ rest) r = update_secrets app rest (store_secret app env r)

-- updateSecretEnvVersions
unfoldable pub update_secret_env_versions : ApplicationConfig → State → State × Bool
unfolding update_secrets
update_secret_env_versions app s = update_secrets app.name app.spec.env (s, false)

-- The write of the password's version after `createApplication`.
create_password : String → Option ℤ → State → State × Bool
create_password app none s = (s, false)
create_password app (some v) s = (set_password_version s app (some v), true)

-- What Apply does to the state after `createApplication`: the new state, and whether it sets
-- `stateModified`.
unfoldable pub state_after_create : ApplicationConfig → State → State × Bool
unfolding create_password update_secret_env_versions
state_after_create app s =
    let (s', modified) = create_password app.name app.spec.registry_password_version s in
    let (s'', secrets) = update_secret_env_versions app s' in (s'', modified || secrets)

-- The update of the password's version after `updateApplication`.
update_password : String → Option ℤ → Option ℤ → State → State × Bool
update_password app none none s = (s, false)
update_password app (some stored) none s = (set_password_version s app none, true)
update_password app none (some v) s = (set_password_version s app (some v), true)
update_password app (some stored) (some v) s =
    if stored != v then (set_password_version s app (some v), true) else (s, false)

-- What Apply does to the state after `updateApplication`.
unfoldable pub state_after_update : ApplicationConfig → State → State × Bool
unfolding update_password update_secret_env_versions
state_after_update app s =
    let (s', modified) =
      update_password app.name (get_password_version s app.name) app.spec.registry_password_version
        s in
    let (s'', secrets) = update_secret_env_versions app s' in (s'', modified || secrets)
