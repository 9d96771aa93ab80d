-- ===== src/State/Clean.antt =====
-- The setters leave no empty entry behind: what the state file holds is what was applied.
use apprun_dedicated_provisi.Base.{ℤ, String, false, Option, some, ◌≡◌, arith, string_eq}
use apprun_dedicated_provisi.Base.Dict.{lookup, lookup-nil}
use apprun_dedicated_provisi.State.{
  ApplicationState, State, new_state, set_password_version, set_secret_env_version, is_empty_app,
  ensure_app, update_app, cleanup_app,
}
use apprun_dedicated_provisi.State.Laws.{lookup-write}

-- Every application with an entry has a password version or a secret.
pub record IsClean (s : State) : Type 0 where
  pub at :
      (app : String) (a : ApplicationState)
      → lookup app s.applications ≡ some a
      → is_empty_app a ≡ false

pub new_state-IsClean : IsClean new_state
new_state-IsClean = record { at = λ app a h. ground (arith, lookup-nil {V = ApplicationState} app) }

write-IsClean :
    (s : State) (app : String) (f : ApplicationState → ApplicationState)
    → IsClean s
    → IsClean (cleanup_app (update_app (ensure_app s app) app f) app)
write-IsClean s app f c = record { at = λ j a h. ground (arith, lookup-write s app j f, c.at j a) }

-- Both setters keep a state free of empty entries, for every application, key and version, nil
-- included.
pub set_versions-IsClean :
    (s : State) (app key : String) (v : Option ℤ)
    → IsClean s
    → IsClean (set_password_version s app v) × IsClean (set_secret_env_version s app key v)
unfolding set_password_version set_secret_env_version
set_versions-IsClean s app key v c = (write-IsClean s app _ c, write-IsClean s app _ c)
