-- ===== src/Version/Limits/Fields.antt =====
-- The fields of the request for a first version that provisioner/sync.go makes: when the checks in
-- api/oas_validators_gen.go find nothing in them.
use Prim.Native.Nat.{◌≤◌}
use apprun_dedicated_provisi.Base.{
  Bool, ◌&&◌, not, if◌then◌else◌, ◌!=◌, is_empty, ℕ, ℤ, pos, String, Option, none, some, List, [],
  ◌∷◌, map, ◌≡◌, ◌↔◌, refl, arith, All, All-iff, length, length-map, string_eq, int_eq,
}
use apprun_dedicated_provisi.Config.{ApplicationConfig, ExposedPortConfig, EnvVarConfig}
use apprun_dedicated_provisi.Config.Validate.Laws.{InRange, IsValidApp}
use apprun_dedicated_provisi.Api.{
  Opt, RegistryPasswordAction, ReadApplicationVersionDetail, nil_get, opt_get,
}
use apprun_dedicated_provisi.Api.Validate.{
  validate_scaling_mode, optional_array, array_errors, int_errors, Checks, Errors, string_errors,
  if_given, validate_exposed_port,
}
use apprun_dedicated_provisi.Api.Validate.Requests.{validate_password_action, validate_create_env}
use apprun_dedicated_provisi.Api.Validate.Laws.{
  AreChecks, Given, Accepts, string_errors-nil_iff, optional_array-nil_iff, bounded_array-nil_iff,
  between-nil_iff,
}
use apprun_dedicated_provisi.Version.Request.{
  registry_username, registry_password, scale_or, api_port, api_env,
}
use apprun_dedicated_provisi.Version.Limits.{IsShort, PortWithin, EnvWithin}
use apprun_dedicated_provisi.Version.Limits.Parts.{
  exposed_port_iff, given_text_iff, env_iff, no_errors,
}

pub or_zero : (n : ℤ) → (if n != pos 0 then n else pos 0) ≡ n
or_zero n = ground (arith, int_eq.beq_iff n (pos 0))

pub or_empty : (s : String) → (if s != "" then s else "") ≡ s
or_empty s = ground (arith, string_eq.beq_iff s "")

pub mode_accepted :
    (app : ApplicationConfig) → IsValidApp app → validate_scaling_mode app.spec.scaling_mode ≡ []
unfolding validate_scaling_mode
mode_accepted app v = ground (
  arith,
  v.scaling,
  string_eq.beq_iff app.spec.scaling_mode "manual",
  string_eq.beq_iff app.spec.scaling_mode "cpu",
)

module _ (checks : Checks) (laws : AreChecks checks) where
  pub scale_iff :
      (lo hi : ℕ) (field : ReadApplicationVersionDetail → Opt ℤ) (o : Option ℤ)
      → (if_given
            (int_errors checks (some (pos lo)) (some (pos hi)))
            (opt_get (scale_or o field none))
          ≡ [])
        ↔ Given (InRange lo hi) o
  unfolding if_given
  scale_iff lo hi field none = (λ h. tt, λ h. refl)
  scale_iff lo hi field (some n) = between-nil_iff checks laws lo hi n

  pub cmd_iff :
      (xs : List String)
      → (optional_array checks 20 (λ (c : String). []) (if is_empty xs then [] else xs) ≡ [])
        ↔ (length xs ≤ 20)
  cmd_iff [] = (
    λ h. omega arith,
    λ h. (optional_array-nil_iff checks laws 20 (λ x. []) []).1 (omega arith, tt),
  )
  cmd_iff (x ∷ xs) = (
    λ h. ((optional_array-nil_iff checks laws 20 (λ x. []) (x ∷ xs)).0 h).0,
    λ h. (optional_array-nil_iff checks laws 20 (λ x. []) (x ∷ xs)).1 (h, no_errors (x ∷ xs)),
  )

  pub mapped_iff :
      {A B : Type 0} (most : ℕ) (validate : B → Errors) (f : A → B) (P : A → Type 0)
      → ((a : A) → (validate (f a) ≡ []) ↔ P a)
      → (xs : List A)
      → (array_errors checks none (some most) validate (if is_empty xs then [] else map f xs) ≡ [])
        ↔ ((length xs ≤ most) × All P xs)
  mapped_iff most validate f P each [] = (
    λ h. (omega arith, tt),
    λ h. (bounded_array-nil_iff checks laws most validate []).1 (omega arith, tt),
  )
  mapped_iff most validate f P each (x ∷ xs) = (
    λ h.
        let (count, all) = (bounded_array-nil_iff checks laws most validate (map f (x ∷ xs))).0 h in
        (omega (arith, length-map f xs), (All-iff (Accepts validate) P f (x ∷ xs) each).0 all),
    λ h.
        (bounded_array-nil_iff checks laws most validate (map f (x ∷ xs))).1 (
          omega (arith, length-map f xs, h.0),
          (All-iff (Accepts validate) P f (x ∷ xs) each).1 h.1,
        ),
  )

  pub username_iff :
      (o : Option String)
      → (if_given (string_errors checks none (some 255) none) (nil_get (registry_username o none).0)
          ≡ [])
        ↔ Given (IsShort checks 255) o
  unfolding if_given registry_username
  username_iff none = (λ h. tt, λ h. refl)
  username_iff (some u) = given_text_iff checks laws 255 (some u)

  pub password_iff :
      (o : Option String) (action : RegistryPasswordAction)
      → (if_given
            (string_errors checks none (some 255) none)
            (nil_get (registry_password o none action).0)
          ≡ [])
        ↔ Given (IsShort checks 255) o
  unfolding if_given registry_password
  password_iff none action = (λ h. tt, λ h. refl)
  password_iff (some p) action = given_text_iff checks laws 255 (some p)

  pub action_accepted :
      (user password : Option String)
      → validate_password_action (registry_password password none (registry_username user none).1).1
        ≡ []
  unfolding validate_password_action registry_username registry_password
  action_accepted none none = refl
  action_accepted none (some p) = refl
  action_accepted (some u) none = refl
  action_accepted (some u) (some p) = refl

  pub image_iff :
      (inherit : Bool) (image : String)
      → (string_errors checks none
            (some 512)
            none
            (if not inherit && (image != "") then image else image)
          ≡ [])
        ↔ IsShort checks 512 image
  image_iff inherit image = ground (arith, string_errors-nil_iff checks none (some 512) none image)

  pub ports_iff :
      (ps : List ExposedPortConfig)
      → (array_errors checks none
            (some 5)
            (validate_exposed_port checks)
            (if is_empty ps then [] else map api_port ps)
          ≡ [])
        ↔ ((length ps ≤ 5) × All (PortWithin checks) ps)
  ports_iff =
      mapped_iff 5 (validate_exposed_port checks) api_port (PortWithin checks)
        (exposed_port_iff checks laws)

  pub variables_iff :
      (env : List EnvVarConfig)
      → (array_errors checks none
            (some 50)
            (validate_create_env checks)
            (if is_empty env then [] else map api_env env)
          ≡ [])
        ↔ ((length env ≤ 50) × All (EnvWithin checks) env)
  variables_iff =
      mapped_iff 50 (validate_create_env checks) api_env (EnvWithin checks) (env_iff checks laws)
