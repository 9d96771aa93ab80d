-- ===== src/Version/Limits/Parts.antt =====
-- The parts of a request of provisioner/sync.go, field by field: when its checks in
-- api/oas_validators_gen.go find nothing.
use Prim.Native.Nat.{◌<◌}
use apprun_dedicated_provisi.Base.{
  ℕ, ℤ, pos, negsuc, String, Option, none, some, List, [], ◌∷◌, ◌≡◌, ◌≢◌, ◌↔◌, refl, arith, All,
  string_eq, int_eq,
}
use apprun_dedicated_provisi.Config.{ExposedPortConfig, EnvVarConfig, HealthCheckConfig}
use apprun_dedicated_provisi.Api.{nil_get, nil_to, nil_null}
use apprun_dedicated_provisi.Spec.{api_check}
use apprun_dedicated_provisi.Api.Validate.{
  Checks, string_errors, if_given, health_check_fields, exposed_port_fields, validate_port,
  validate_health_check, validate_exposed_port,
}
use apprun_dedicated_provisi.Api.Validate.Requests.{create_env_fields, validate_create_env}
use apprun_dedicated_provisi.Api.Validate.Laws.{
  AreChecks, Given, Accepts, fields-nil_iff, int_errors-nil_iff, string_errors-nil_iff,
  optional_array-nil_iff, between-nil_iff,
}
use apprun_dedicated_provisi.Version.Request.{to_port, api_port, api_env}
use apprun_dedicated_provisi.Version.Limits.{IsShort, HealthWithin, PortWithin, EnvWithin}

to_port_bound : (p : ℤ) → to_port p < 65536
unfolding to_port
to_port_bound (pos n) = omega arith
to_port_bound (negsuc n) = omega arith

pub no_errors : (xs : List String) → All (Accepts (λ (x : String). [])) xs
no_errors [] = tt
no_errors (x ∷ xs) = (refl, no_errors xs)

module _ (checks : Checks) (laws : AreChecks checks) where
  pub port_iff : (p : ℤ) → (validate_port checks (to_port p) ≡ []) ↔ (to_port p ≢ 0)
  unfolding validate_port
  port_iff p =
      ground (arith, between-nil_iff checks laws 1 65535 (pos (to_port p)), to_port_bound p)

  health_iff :
      (hc : HealthCheckConfig)
      → (validate_health_check checks (api_check hc) ≡ []) ↔ HealthWithin checks hc
  unfolding validate_health_check
  health_iff hc = (
    λ h.
        let (path, (interval, (timeout, end))) =
          (fields-nil_iff (health_check_fields checks (api_check hc))).0 h in
        record {
          path = (string_errors-nil_iff checks none (some 200) none hc.path).0 path;
          interval = (between-nil_iff checks laws 3 60 hc.interval_seconds).0 interval;
          timeout = (int_errors-nil_iff checks none (some (pos 60)) hc.timeout_seconds).0 timeout;
        },
    λ w. (fields-nil_iff (health_check_fields checks (api_check hc))).1 (
      (string_errors-nil_iff checks none (some 200) none hc.path).1 w.path,
      (
        (between-nil_iff checks laws 3 60 hc.interval_seconds).1 w.interval,
        ((int_errors-nil_iff checks none (some (pos 60)) hc.timeout_seconds).1 w.timeout, tt),
      ),
    ),
  )

  given_port_iff :
      (o : Option ℤ)
      → (if_given
            (validate_port checks)
            (nil_get (elim o [ none ↦ nil_null 0 | some p ↦ nil_to (to_port p) ]))
          ≡ [])
        ↔ Given (λ b. to_port b ≢ 0) o
  unfolding if_given
  given_port_iff none = (λ h. tt, λ h. refl)
  given_port_iff (some p) = port_iff p

  given_health_iff :
      (o : Option HealthCheckConfig)
      → (if_given (validate_health_check checks) (
            nil_get (elim o [
              | none ↦
                  nil_null (record { path = ""; interval_seconds = pos 0; timeout_seconds = pos 0 })
              | some hc ↦ nil_to (api_check hc)
            ]))
          ≡ [])
        ↔ Given (HealthWithin checks) o
  unfolding if_given
  given_health_iff none = (λ h. tt, λ h. refl)
  given_health_iff (some hc) = health_iff hc

  pub exposed_port_iff :
      (p : ExposedPortConfig)
      → (validate_exposed_port checks (api_port p) ≡ []) ↔ PortWithin checks p
  unfolding validate_exposed_port api_port
  exposed_port_iff p = (
    λ h.
        let (target, (balancer, (hosts, (health, end)))) =
          (fields-nil_iff (exposed_port_fields checks (api_port p))).0 h in
        record {
          target = (port_iff p.target_port).0 target;
          balancer = (given_port_iff p.load_balancer_port).0 balancer;
          hosts = ((optional_array-nil_iff checks laws 5 (λ x. []) p.host).0 hosts).0;
          health = (given_health_iff p.health_check).0 health;
        },
    λ w. (fields-nil_iff (exposed_port_fields checks (api_port p))).1 (
      (port_iff p.target_port).1 w.target,
      (
        (given_port_iff p.load_balancer_port).1 w.balancer,
        (
          (optional_array-nil_iff checks laws 5 (λ x. []) p.host).1 (w.hosts, no_errors p.host),
          ((given_health_iff p.health_check).1 w.health, tt),
        ),
      ),
    ),
  )

  pub given_text_iff :
      (most : ℕ) (o : Option String)
      → (if_given (string_errors checks none (some most) none) o ≡ [])
        ↔ Given (IsShort checks most) o
  unfolding if_given
  given_text_iff most none = (λ h. tt, λ h. refl)
  given_text_iff most (some s) = string_errors-nil_iff checks none (some most) none s

  pub env_iff :
      (e : EnvVarConfig) → (validate_create_env checks (api_env e) ≡ []) ↔ EnvWithin checks e
  unfolding validate_create_env api_env
  env_iff e = (
    λ h.
        let (key, (text, end)) = (fields-nil_iff (create_env_fields checks (api_env e))).0 h in
        record {
          key = (string_errors-nil_iff checks (some 1) (some 255) none e.key).0 key;
          text = (given_text_iff 4096 e.value).0 (ground (arith, text));
        },
    λ w. (fields-nil_iff (create_env_fields checks (api_env e))).1 (
      (string_errors-nil_iff checks (some 1) (some 255) none e.key).1 w.key,
      ((ground (arith, (given_text_iff 4096 e.value).1 w.text)), tt),
    ),
  )
