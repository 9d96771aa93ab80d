-- ===== src/State/Laws.antt =====
-- What a read of the state returns after a write.
use mathlib.Core.Bool.{◌&&◌}
use apprun_dedicated_provisi.Base.{
  ℤ, String, Option, none, some, ◌≡◌, refl, arith, ◌==◌, string_eq, if◌then◌else◌, [], beq_refl,
  Option-cases, inl, inr,
}
use apprun_dedicated_provisi.Base.Dict.{lookup, insert, lookup-nil, lookup-insert, lookup-remove}
use apprun_dedicated_provisi.State.{
  ApplicationState, State, get_password_version, set_password_version, get_secret_env_version,
  set_secret_env_version, ensure_app, update_app, cleanup_app, empty_app, write_secret,
  secret_version, is_empty_app,
}

-- The entry of an application, where a missing one counts as the empty one.
pub entry : State → String → ApplicationState
entry s app = elim (lookup app s.applications) [ some a ↦ a | none ↦ empty_app ]

abbrev tidy : ApplicationState → ApplicationState
tidy a = if is_empty_app a then empty_app else a

-- Both setters: what is left of the entry of `app`, if anything.
abbrev pub kept : ApplicationState → Option ApplicationState
kept a = if is_empty_app a then none else some a

lookup-update_app :
    (s : State) (app j : String) (f : ApplicationState → ApplicationState)
    → lookup j (update_app (ensure_app s app) app f).applications
      ≡ (if app == j then some (f (entry s j)) else lookup j s.applications)
unfolding entry update_app ensure_app
lookup-update_app s app j f = elim (Option-cases (lookup app s.applications)) [
  | inl e ↦ ground (
    arith,
    lookup-insert app app empty_app s.applications,
    lookup-insert app j empty_app s.applications,
    lookup-insert app j (f empty_app) (insert app empty_app s.applications),
    string_eq.beq_iff app j,
    beq_refl app,
  )
  | inr (a, e) ↦ ground (arith, lookup-insert app j (f a) s.applications, string_eq.beq_iff app j)
]

lookup-cleanup_app :
    (s : State) (app j : String) {a : ApplicationState}
    → lookup app s.applications ≡ some a
    → lookup j (cleanup_app s app).applications
      ≡ (if app == j then kept a else lookup j s.applications)
unfolding cleanup_app
lookup-cleanup_app s app j h =
    ground (arith, lookup-remove app j s.applications, string_eq.beq_iff app j)

pub lookup-write :
    (s : State) (app j : String) (f : ApplicationState → ApplicationState)
    → lookup j (cleanup_app (update_app (ensure_app s app) app f) app).applications
      ≡ (if app == j then kept (f (entry s j)) else lookup j s.applications)
lookup-write s app j f =
    let t : State = update_app (ensure_app s app) app f in
    ground (
      arith,
      lookup-cleanup_app t app j {a = f (entry s app)}
          (rw (lookup-update_app s app app f, beq_refl app)),
      lookup-update_app s app j f,
      string_eq.beq_iff app j,
    )

entry-write :
    (s : State) (app j : String) (f : ApplicationState → ApplicationState)
    → entry (cleanup_app (update_app (ensure_app s app) app f) app) j
      ≡ (if app == j then tidy (f (entry s j)) else entry s j)
unfolding entry
entry-write s app j f = ground (arith, lookup-write s app j f)

get_password_version-entry :
    (s : State) (app : String)
    → get_password_version s app ≡ (entry s app).registry_password_version
unfolding entry get_password_version
get_password_version-entry s app = ground arith

get_secret_env_version-entry :
    (s : State) (app key : String)
    → get_secret_env_version s app key ≡ secret_version (entry s app) key
unfolding entry get_secret_env_version
get_secret_env_version-entry s app key = ground arith

tidy_password :
    (a : ApplicationState) → (tidy a).registry_password_version ≡ a.registry_password_version
tidy_password a = ground arith

secret_version-tidy :
    (a : ApplicationState) (key : String) → secret_version (tidy a) key ≡ secret_version a key
unfolding secret_version lookup
secret_version-tidy a key = ground arith

secret_version-write_secret :
    (a : ApplicationState) (key k : String) (v : Option ℤ)
    → secret_version (write_secret key v a) k ≡ (if key == k then v else secret_version a k)
unfolding secret_version write_secret
secret_version-write_secret a key k none = elim (Option-cases a.secret_env_versions) [
  | inl e ↦ ground arith
  | inr (m, e) ↦ ground (arith, lookup-remove key k m)
]
secret_version-write_secret a key k (some v) = elim (Option-cases a.secret_env_versions) [
  | inl e ↦ ground (arith, lookup-insert key k v [], lookup-nil {V = ℤ} k)
  | inr (m, e) ↦ ground (arith, lookup-insert key k v m)
]

password-write_secret :
    (a : ApplicationState) (key : String) (v : Option ℤ)
    → (write_secret key v a).registry_password_version ≡ a.registry_password_version
unfolding write_secret
password-write_secret a key none = ground arith
password-write_secret a key (some v) = ground arith

same_secrets :
    (a : ApplicationState) (v : Option ℤ) (key : String)
    → secret_version (record a { registry_password_version = v }) key ≡ secret_version a key
unfolding secret_version
same_secrets a v key = refl

pub get_versions-set_password_version :
    (s : State) (app j key : String) (v : Option ℤ)
    → (get_password_version (set_password_version s app v) j
        ≡ (if app == j then v else get_password_version s j))
      × (get_secret_env_version (set_password_version s app v) j key
          ≡ get_secret_env_version s j key)
unfolding set_password_version
get_versions-set_password_version s app j key v =
    let t : State = set_password_version s app v in
    let f : ApplicationState → ApplicationState = λ a. record a { registry_password_version = v } in
    (
      ground (
        arith,
        get_password_version-entry t j,
        get_password_version-entry s j,
        entry-write s app j f,
        tidy_password (f (entry s j)),
      ),
      ground (
        arith,
        get_secret_env_version-entry t j key,
        get_secret_env_version-entry s j key,
        entry-write s app j f,
        secret_version-tidy (f (entry s j)) key,
        same_secrets (entry s j) v key,
      ),
    )

pub get_versions-set_secret_env_version :
    (s : State) (app j key k : String) (v : Option ℤ)
    → (get_secret_env_version (set_secret_env_version s app key v) j k
        ≡ (if app == j && key == k then v else get_secret_env_version s j k))
      × (get_password_version (set_secret_env_version s app key v) j ≡ get_password_version s j)
unfolding set_secret_env_version
get_versions-set_secret_env_version s app j key k v =
    let t : State = set_secret_env_version s app key v in
    let a : ApplicationState = entry s j in
    (
      ground (
        arith,
        get_secret_env_version-entry t j k,
        get_secret_env_version-entry s j k,
        entry-write s app j (write_secret key v),
        secret_version-tidy (write_secret key v a) k,
        secret_version-write_secret a key k v,
      ),
      ground (
        arith,
        get_password_version-entry t j,
        get_password_version-entry s j,
        entry-write s app j (write_secret key v),
        tidy_password (write_secret key v a),
        password-write_secret a key v,
      ),
    )

-- For every state, applications `app` and `j`, keys `key` and `k`, and version `v`: after
-- `SetPasswordVersion(app, v)` the password version of `j` is `v` (nil included) if `j` is `app`, and
-- what it was otherwise, and no secret version changes; after `SetSecretEnvVersion(app, key, v)` the
-- version of `k` in `j` is `v` (nil included) if `j` is `app` and `k` is `key`, and what it was
-- otherwise, and no password version changes.
pub get_versions-set_versions :
    (s : State) (app j key k : String) (v : Option ℤ)
    → ((get_password_version (set_password_version s app v) j
          ≡ (if app == j then v else get_password_version s j))
        × (get_secret_env_version (set_password_version s app v) j k
            ≡ get_secret_env_version s j k))
      × ((get_secret_env_version (set_secret_env_version s app key v) j k
            ≡ (if app == j && key == k then v else get_secret_env_version s j k))
          × (get_password_version (set_secret_env_version s app key v) j
              ≡ get_password_version s j))
get_versions-set_versions s app j key k v = (
  get_versions-set_password_version s app j k v,
  get_versions-set_secret_env_version s app j key k v,
)
