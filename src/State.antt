-- ===== src/State.antt =====
-- state/state.go: the versions of passwords and secrets that were applied last. An application's
-- state is reached through its own pointer only, so that a write through it is a write to the map.
-- A nil map of secrets and an empty one are told apart, as in Go.
pub mod Laws
pub mod Clean
pub mod File
use apprun_dedicated_provisi.Base.{
  ℤ, pos, String, Bool, true, false, ◌&&◌, Option, none, some, [], ◌∷◌, string_eq, if◌then◌else◌,
}
use apprun_dedicated_provisi.Base.Dict.{Dict, lookup, insert, remove}

pub record ApplicationState : Type 0 where
  pub registry_password_version : Option ℤ
  pub secret_env_versions : Option (Dict String ℤ)

pub record State : Type 0 where
  pub version : ℤ
  pub applications : Dict String ApplicationState

abbrev pub state_version : ℤ
state_version = pos 1

-- NewState
abbrev pub new_state : State
new_state = record { version = state_version; applications = [] }

-- `&ApplicationState{}`
abbrev pub empty_app : ApplicationState
empty_app = record { registry_password_version = none; secret_env_versions = none }

-- GetPasswordVersion
unfoldable pub get_password_version : State → String → Option ℤ
get_password_version s app = elim (lookup app s.applications) [
  | some a ↦ a.registry_password_version
  | none ↦ none
]

-- ensureApp
unfoldable pub ensure_app : State → String → State
ensure_app s app = elim (lookup app s.applications) [
  | some a ↦ s
  | none ↦ record s { applications = insert app empty_app s.applications }
]

-- `len(app.SecretEnvVersions) == 0`, also of a nil map
abbrev pub has_no_secrets : ApplicationState → Bool
has_no_secrets a = elim a.secret_env_versions [
  | none ↦ true
  | some [] ↦ true
  | some (e ∷ m) ↦ false
]

-- The condition on which `cleanupApp` deletes the entry.
abbrev pub is_empty_app : ApplicationState → Bool
is_empty_app a =
    (elim a.registry_password_version [ none ↦ true | some v ↦ false ]) && has_no_secrets a

-- cleanupApp
unfoldable pub cleanup_app : State → String → State
cleanup_app s app = elim (lookup app s.applications) [
  | some a ↦ if is_empty_app a then record s { applications = remove app s.applications } else s
  | none ↦ s
]

-- A write through `s.Applications[app]`. The callers ensure that the entry is there.
unfoldable pub update_app : State → String → (ApplicationState → ApplicationState) → State
update_app s app f = elim (lookup app s.applications) [
  | some a ↦ record s { applications = insert app (f a) s.applications }
  | none ↦ s
]

-- SetPasswordVersion
unfoldable pub set_password_version : State → String → Option ℤ → State
unfolding ensure_app update_app cleanup_app
set_password_version s app version =
    cleanup_app
      (update_app (ensure_app s app) app (λ a. record a { registry_password_version = version }))
      app

secret_version : ApplicationState → String → Option ℤ
secret_version a key = elim a.secret_env_versions [ none ↦ none | some m ↦ lookup key m ]

-- GetSecretEnvVersion
unfoldable pub get_secret_env_version : State → String → String → Option ℤ
unfolding secret_version
get_secret_env_version s app key = elim (lookup app s.applications) [
  | some a ↦ secret_version a key
  | none ↦ none
]

-- The two branches of SetSecretEnvVersion.
write_secret : String → Option ℤ → ApplicationState → ApplicationState
write_secret key (some v) a = record a {
  secret_env_versions = some (insert key v (elim a.secret_env_versions [ none ↦ [] | some m ↦ m ]));
}
write_secret key none a = elim a.secret_env_versions [
  | none ↦ a
  | some m ↦ record a { secret_env_versions = some (remove key m) }
]

-- SetSecretEnvVersion
unfoldable pub set_secret_env_version : State → String → String → Option ℤ → State
unfolding ensure_app update_app cleanup_app write_secret
set_secret_env_version s app key version =
    cleanup_app (update_app (ensure_app s app) app (write_secret key version)) app
