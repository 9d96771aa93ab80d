-- ===== src/Version/Env.antt =====
-- The variables of a version that was made from a configuration show no change against it.
use apprun_dedicated_provisi.Base.{
  String, false, some, List, [], ◌++◌, map, ◌≡◌, ◌∙◌, ap, ap₂, arith, All, All-map, All-imp,
  All-and, concat_map-nil_iff, string_eq, int_eq, Option-cases, inl, inr,
}
use apprun_dedicated_provisi.Base.Dict.{
  Dict, lookup, index_by, lookup-index_by_self, lookup-index_by-map, map_option,
}
use apprun_dedicated_provisi.Config.{EnvVarConfig}
use apprun_dedicated_provisi.Api.{CreateEnvironmentVariable, ReadEnvironmentVariable}
use apprun_dedicated_provisi.Infra.{opt_or}
use apprun_dedicated_provisi.State.{State}
use apprun_dedicated_provisi.Version.{
  current_key, desired_key, nil_text, ptr_text, secret_changes, text_changes, desired_changes,
  removed_changes, compare_env,
}
use apprun_dedicated_provisi.Version.Request.{api_env}
use apprun_dedicated_provisi.Version.Secrets.{DistinctKeys, IsStored}

-- How the service shows a variable that it was given: under its key, as secret or not, and with its
-- text if it is not secret.
pub record ShowsEnv (show : CreateEnvironmentVariable → ReadEnvironmentVariable) : Type 0 where
  pub key : (e : CreateEnvironmentVariable) → (show e).key ≡ e.key
  pub secret : (e : CreateEnvironmentVariable) → (show e).secret ≡ e.secret
  pub text :
      (e : CreateEnvironmentVariable)
      → e.secret ≡ false
      → nil_text (show e).value ≡ opt_or "" e.value

module _ (show : CreateEnvironmentVariable → ReadEnvironmentVariable) (shows : ShowsEnv show)
    (s : State) (app : String) where
  abbrev seen : EnvVarConfig → ReadEnvironmentVariable
  seen e = show (api_env e)

  seen_key : (e : EnvVarConfig) → (seen e).key ≡ e.key
  unfolding api_env
  seen_key e = shows.key (api_env e)

  seen_text : (e : EnvVarConfig) → e.secret ≡ false → nil_text (seen e).value ≡ ptr_text e.value
  unfolding api_env
  seen_text e h = ground (arith, shows.text (api_env e))

  desired_unchanged :
      (m : Dict String ReadEnvironmentVariable) (e : EnvVarConfig)
      → lookup e.key m ≡ some (seen e)
      → IsStored s app e
      → desired_changes s app m e ≡ []
  unfolding desired_changes secret_changes text_changes
  desired_unchanged m e found stored = elim (Option-cases e.secret_version) [
    | inl nothing ↦
        ground (arith, seen_text e, string_eq.beq_iff (nil_text (seen e).value) (ptr_text e.value))
    | inr (v, has) ↦ ground (
      arith,
      stored v,
      int_eq.beq_iff v v,
      seen_text e,
      string_eq.beq_iff (nil_text (seen e).value) (ptr_text e.value),
    )
  ]

  pub compare_env-seen :
      (desired : List EnvVarConfig)
      → DistinctKeys desired
      → All (IsStored s app) desired
      → compare_env s app (map seen desired) desired ≡ []
  unfolding compare_env removed_changes
  compare_env-seen desired d stored =
      let found = lookup-index_by_self desired_key desired d in
      let at : (e : EnvVarConfig)
          → lookup e.key (index_by desired_key desired) ≡ some e
          → lookup e.key (index_by current_key (map seen desired)) ≡ some (seen e) =
        λ e h.
          lookup-index_by-map desired_key current_key seen seen_key desired e.key
          ∙ ap (map_option seen) h in
      ap₂ ◌++◌
        ((concat_map-nil_iff _ desired).1 (
          All-imp _ _ desired (λ e h. desired_unchanged _ e (at e h.0) h.1)
            (All-and _ _ desired found stored)))
        ((concat_map-nil_iff _ (map seen desired)).1 (
          All-map _ seen desired
            (All-imp _ _ desired (λ e h. rw (seen_key e) (ground arith)) found)))
