-- ===== src/Version/Secrets.antt =====
-- What an apply leaves in the state: the versions of the configuration, and nothing else changed.
use apprun_dedicated_provisi.Base.{
  ℤ, String, Bool, true, false, Option, none, some, List, [], ◌∷◌, ◌≡◌, refl, ◌∙◌, ap, arith, All,
  ◌==◌, string_eq, int_eq, Option-cases, inl, inr, beq_refl,
}
use apprun_dedicated_provisi.Config.{ApplicationConfig, EnvVarConfig}
use apprun_dedicated_provisi.State.{State, get_password_version, get_secret_env_version}
use apprun_dedicated_provisi.State.Laws.{
  get_versions-set_password_version, get_versions-set_secret_env_version,
}
use apprun_dedicated_provisi.Base.Dict.{DistinctBy}
use apprun_dedicated_provisi.Version.{
  desired_key, store_secret, update_secrets, update_secret_env_versions, state_after_create,
  state_after_update, update_password, create_password,
}

-- No key is listed twice.
abbrev pub DistinctKeys : List EnvVarConfig → Type 0
DistinctKeys = DistinctBy desired_key

-- The state holds the configured version of a secret.
abbrev pub IsStored : State → String → EnvVarConfig → Type 0
IsStored s app e =
    (v : ℤ)
    → e.secret ≡ true
    → e.secret_version ≡ some v
    → get_secret_env_version s app e.key ≡ some v

module _ (app : String) (e : EnvVarConfig) (s : State) (m : Bool) where
  store_secret_at : IsStored (store_secret app e (s, m)).0 app e
  unfolding store_secret
  store_secret_at v is_secret has = elim (Option-cases (get_secret_env_version s app e.key)) [
    | inl fresh ↦
        rw (store_secret, is_secret, has, fresh)
          (ground (
            arith,
            (get_versions-set_secret_env_version s app app e.key e.key (some v)).0,
            beq_refl app,
            beq_refl e.key,
          ))
    | inr (w, stored) ↦ ground (
      arith,
      (get_versions-set_secret_env_version s app app e.key e.key (some v)).0,
      beq_refl app,
      beq_refl e.key,
      int_eq.beq_iff w v,
    )
  ]

  store_secret_ne :
      (k : String)
      → (e.key == k) ≡ false
      → get_secret_env_version (store_secret app e (s, m)).0 app k ≡ get_secret_env_version s app k
  unfolding store_secret
  store_secret_ne k h = elim (Option-cases e.secret_version) [
    | inl nothing ↦ ground arith
    | inr (v, has) ↦
        ground (arith, (get_versions-set_secret_env_version s app app e.key k (some v)).0)
  ]

  password-store_secret :
      (j : String) → get_password_version (store_secret app e (s, m)).0 j ≡ get_password_version s j
  unfolding store_secret
  password-store_secret j = elim (Option-cases e.secret_version) [
    | inl nothing ↦ ground arith
    | inr (v, has) ↦
        ground (arith, (get_versions-set_secret_env_version s app j e.key e.key (some v)).1)
  ]

  -- Without the flag nothing was written.
  store_secret_unmodified :
      (store_secret app e (s, m)).1 ≡ false → (store_secret app e (s, m) ≡ (s, false)) × (m ≡ false)
  unfolding store_secret
  store_secret_unmodified h = ground arith

update_secrets_ne :
    (app : String) (env : List EnvVarConfig) (s : State) (m : Bool) (k : String)
    → All (λ f. (f.key == k) ≡ false) env
    → get_secret_env_version (update_secrets app env (s, m)).0 app k
      ≡ get_secret_env_version s app k
unfolding update_secrets
update_secrets_ne app [] s m k h = refl
update_secrets_ne app (e ∷ rest) s m k h =
    let (t, n) = store_secret app e (s, m) in
    update_secrets_ne app rest t n k h.1 ∙ store_secret_ne app e s m k h.0

update_secrets-IsStored :
    (app : String) (env : List EnvVarConfig) (s : State) (m : Bool)
    → DistinctKeys env
    → All (IsStored (update_secrets app env (s, m)).0 app) env
unfolding update_secrets
update_secrets-IsStored app [] s m d = tt
update_secrets-IsStored app (e ∷ rest) s m d =
    let (t, n) = store_secret app e (s, m) in
    (
      λ v is_secret has.
          update_secrets_ne app rest t n e.key d.0 ∙ store_secret_at app e s m v is_secret has,
      update_secrets-IsStored app rest t n d.1,
    )

password-update_secrets :
    (app : String) (env : List EnvVarConfig) (s : State) (m : Bool) (j : String)
    → get_password_version (update_secrets app env (s, m)).0 j ≡ get_password_version s j
unfolding update_secrets
password-update_secrets app [] s m j = refl
password-update_secrets app (e ∷ rest) s m j =
    let (t, n) = store_secret app e (s, m) in
    password-update_secrets app rest t n j ∙ password-store_secret app e s m j

update_secrets_unmodified :
    (app : String) (env : List EnvVarConfig) (s : State) (m : Bool)
    → (update_secrets app env (s, m)).1 ≡ false
    → (update_secrets app env (s, m) ≡ (s, false)) × (m ≡ false)
unfolding update_secrets
update_secrets_unmodified app [] s m h = (ap (λ b. (s, b)) h, h)
update_secrets_unmodified app (e ∷ rest) s m h =
    let (t, n) = store_secret app e (s, m) in
    let (p, q) = update_secrets_unmodified app rest t n h in
    let (u, v) = store_secret_unmodified app e s m q in
    (p ∙ ap (λ (r : State × Bool). (r.0, false)) u, v)

update_password_at :
    (app : String) (stored wanted : Option ℤ) (s : State)
    → get_password_version s app ≡ stored
    → get_password_version (update_password app stored wanted s).0 app ≡ wanted
unfolding update_password
update_password_at app none none s h = h
update_password_at app (some v) none s h =
    ground (arith, (get_versions-set_password_version s app app "" none).0, beq_refl app)
update_password_at app none (some w) s h =
    ground (arith, (get_versions-set_password_version s app app "" (some w)).0, beq_refl app)
update_password_at app (some v) (some w) s h = ground (
  arith,
  (get_versions-set_password_version s app app "" (some w)).0,
  beq_refl app,
  int_eq.beq_iff v w,
)

update_password_unmodified :
    (app : String) (stored wanted : Option ℤ) (s : State)
    → (update_password app stored wanted s).1 ≡ false
    → update_password app stored wanted s ≡ (s, false)
unfolding update_password
update_password_unmodified app none none s h = refl
update_password_unmodified app none (some w) s h = cc
update_password_unmodified app (some v) none s h = cc
update_password_unmodified app (some v) (some w) s h = ground arith

-- The state holds every version that the configuration of the application names, and no password
-- version if it names none.
pub record HoldsVersions (s : State) (app : ApplicationConfig) : Type 0 where
  pub password : get_password_version s app.name ≡ app.spec.registry_password_version
  pub secrets : All (IsStored s app.name) app.spec.env

-- If no variable is listed twice, the state that an update leaves holds the versions of the
-- configuration, whatever it held before.
pub state_after_update-HoldsVersions :
    (app : ApplicationConfig) (s : State)
    → DistinctKeys app.spec.env
    → HoldsVersions (state_after_update app s).0 app
unfolding state_after_update update_secret_env_versions
state_after_update-HoldsVersions app s d =
    let stored = get_password_version s app.name in
    let t = (update_password app.name stored app.spec.registry_password_version s).0 in
    record {
      password =
          password-update_secrets app.name app.spec.env t false app.name
          ∙ update_password_at app.name stored app.spec.registry_password_version s refl;
      secrets = update_secrets-IsStored app.name app.spec.env t false d;
    }

-- An update that does not set `stateModified` left the state as it was, so that nothing is lost
-- when the state file is not written.
pub state_after_update_unmodified :
    (app : ApplicationConfig) (s : State)
    → (state_after_update app s).1 ≡ false
    → (state_after_update app s).0 ≡ s
unfolding state_after_update update_secret_env_versions
state_after_update_unmodified app s h =
    let stored = get_password_version s app.name in
    let wanted = app.spec.registry_password_version in
    let (t, m) = update_password app.name stored wanted s in
    let (q, _) = update_secrets_unmodified app.name app.spec.env t false (ground arith) in
    ap (λ (r : State × Bool). r.0) q
    ∙ ap (λ (r : State × Bool). r.0)
        (update_password_unmodified app.name stored wanted s (ground arith))

create_password_unmodified :
    (app : String) (wanted : Option ℤ) (s : State)
    → (create_password app wanted s).1 ≡ false
    → create_password app wanted s ≡ (s, false)
unfolding create_password
create_password_unmodified app none s h = refl
create_password_unmodified app (some v) s h = cc

-- As after an update.
pub state_after_create_unmodified :
    (app : ApplicationConfig) (s : State)
    → (state_after_create app s).1 ≡ false
    → (state_after_create app s).0 ≡ s
unfolding state_after_create update_secret_env_versions
state_after_create_unmodified app s h =
    let wanted = app.spec.registry_password_version in
    let (t, m) = create_password app.name wanted s in
    let (q, _) = update_secrets_unmodified app.name app.spec.env t false (ground arith) in
    ap (λ (r : State × Bool). r.0) q
    ∙ ap (λ (r : State × Bool). r.0) (create_password_unmodified app.name wanted s (ground arith))

create_password_at :
    (app : String) (wanted : Option ℤ) (s : State)
    → (wanted ≡ none → get_password_version s app ≡ none)
    → get_password_version (create_password app wanted s).0 app ≡ wanted
unfolding create_password
create_password_at app none s h = h refl
create_password_at app (some w) s h =
    ground (arith, (get_versions-set_password_version s app app "" (some w)).0, beq_refl app)

-- If no variable is listed twice, and the application has a password version or none is stored
-- under its name, the state that a create leaves holds the versions of the configuration. (A create
-- does not clear a version that an earlier application of that name left.)
pub state_after_create-HoldsVersions :
    (app : ApplicationConfig) (s : State)
    → DistinctKeys app.spec.env
    → (app.spec.registry_password_version ≡ none → get_password_version s app.name ≡ none)
    → HoldsVersions (state_after_create app s).0 app
unfolding state_after_create update_secret_env_versions
state_after_create-HoldsVersions app s d h =
    let t = (create_password app.name app.spec.registry_password_version s).0 in
    record {
      password =
          password-update_secrets app.name app.spec.env t false app.name
          ∙ create_password_at app.name app.spec.registry_password_version s h;
      secrets = update_secrets-IsStored app.name app.spec.env t false d;
    }
