-- ===== src/Version/Diff.antt =====
-- provisioner/sync.go: compareVersionEnv, and the comparison of two versions in GetVersionDiff.
pub mod Laws
use apprun_dedicated_provisi.Base.{
  ℤ, String, ◌<>◌, Bool, true, false, not, ◌&&◌, ◌||◌, Option, none, some, List, [], ◌∷◌, ◌++◌,
  concat_map, any, ◌!=◌, string_eq, if◌then◌else◌,
}
use apprun_dedicated_provisi.Base.Dict.{Dict, lookup, index_by}
use apprun_dedicated_provisi.Result.{Reply, value, failure, wrapped}
use apprun_dedicated_provisi.Api.{Nil, ReadEnvironmentVariable, ReadApplicationVersionDetail}
use apprun_dedicated_provisi.Spec.{Differ, normalize_from_api, compare_specs}
use apprun_dedicated_provisi.Version.{current_key, nil_text, text_changes, removed_line}

pub record VersionDiff : Type 0 where
  pub from_version : ℤ
  pub to_version : ℤ
  pub changes : List String
  pub has_secret_env : Bool
  pub has_registry_pwd : Bool

-- The line for a variable that the version before lacks.
added : ReadEnvironmentVariable → List String
added e =
    if e.secret
    then ("Env add: " <> e.key <> " (secret)") ∷ []
    else if not e.value.null
    then ("Env add: " <> e.key <> "=" <> e.value.value) ∷ []
    else ("Env add: " <> e.key) ∷ []

-- One round of the loop over the variables of the later version.
to_changes : Dict String ReadEnvironmentVariable → ReadEnvironmentVariable → List String
unfolding added text_changes
to_changes from_by_key e = elim (lookup e.key from_by_key) [
  | none ↦ added e
  | some f ↦
      if e.secret || f.secret then [] else text_changes e.key (nil_text f.value) (nil_text e.value)
]

-- One round of the loop over the variables of the earlier version.
from_changes : Dict String ReadEnvironmentVariable → ReadEnvironmentVariable → List String
unfolding removed_line
from_changes to_by_key f = elim (lookup f.key to_by_key) [ some e ↦ [] | none ↦ removed_line f ]

-- The flag that the loops that build the maps set.
has_secrets : List ReadEnvironmentVariable → Bool
has_secrets = any (λ e. e.secret)

-- compareVersionEnv
unfoldable pub compare_version_env :
    List ReadEnvironmentVariable → List ReadEnvironmentVariable → List String × Bool
unfolding to_changes from_changes has_secrets
compare_version_env from to = (
  concat_map (to_changes (index_by current_key from)) to
      ++ concat_map (from_changes (index_by current_key to)) from,
  has_secrets from || has_secrets to,
)

-- `fromHasReg` and `toHasReg`
has_registry : ReadApplicationVersionDetail → Bool
has_registry v = not v.registry_username.null && (v.registry_username.value != "")

-- GetVersionDiff, from the details of the two versions on.
unfoldable pub diff_details :
    Differ → ℤ → ℤ → ReadApplicationVersionDetail → ReadApplicationVersionDetail → Reply VersionDiff
unfolding compare_version_env has_registry
diff_details diff from_version to_version from to =
    elim (compare_specs diff (normalize_from_api from) (normalize_from_api to) false) [
      | failure e ↦ failure (wrapped "failed to compare specs" e)
      | value spec_changes ↦
          let (env_diff, secrets) = compare_version_env from.env to.env in
          value (record {
            from_version = from_version;
            to_version = to_version;
            changes = spec_changes ++ env_diff;
            has_secret_env = secrets;
            has_registry_pwd = has_registry from || has_registry to;
          })
    ]
