-- ===== src/Provisioner/Dump/Recreate.antt =====
-- provisioner/sync.go: the requests that are made of a dump, checked as api/oas_validators_gen.go
-- checks them.
use Prim.Native.Nat.{◌≤◌}
use apprun_dedicated_provisi.Base.{
  ℕ, ℤ, pos, String, Bool, true, false, not, ◌&&◌, Option, none, some, [], ◌≡◌, ◌≢◌, inl, inr,
  arith, All-imp, All-map, ◌!=◌, string_eq, if◌then◌else◌, length, length-map, Bool-cases,
}
use apprun_dedicated_provisi.Config.Validate.{validate_application}
use apprun_dedicated_provisi.Config.Validate.Laws.{InRange}
use apprun_dedicated_provisi.Api.{
  Nil, opt_get, nil_get, HealthCheck, ExposedPort, ReadEnvironmentVariable,
  ReadApplicationVersionDetail,
}
use apprun_dedicated_provisi.Api.Validate.{
  Checks, if_given, string_errors, int_errors, validate_port, validate_health_check,
  validate_exposed_port, health_check_fields, exposed_port_fields,
}
use apprun_dedicated_provisi.Api.Validate.Requests.{validate_create_version}
use apprun_dedicated_provisi.Api.Validate.Responses.{
  read_env_fields, read_version_fields, validate_read_env, validate_read_version,
}
use apprun_dedicated_provisi.Api.Validate.Laws.{
  AreChecks, Given, Accepts, fields-nil_iff, between-nil_iff, string_errors-nil_iff,
  int_errors-nil_iff, optional_array-nil_iff, bounded_array-nil_iff, elements-nil_iff,
}
use apprun_dedicated_provisi.Version.Request.{to_port, build_create_version_request}
use apprun_dedicated_provisi.Version.Limits.{
  IsShort, HealthWithin, PortWithin, EnvWithin, IsWithinLimits,
}
use apprun_dedicated_provisi.Version.Limits.Laws.{validate_create_version_iff}
use apprun_dedicated_provisi.Provisioner.Dump.{dump_port, dump_env, dump_spec}

kept_text :
    (P : String → Type 0) (dropped : Bool) (value : Nil String)
    → Given P (nil_get value)
    → Given P (if not dropped && not value.null then some value.value else none)
kept_text P true value h = tt
kept_text P false value h = ground (arith, h)

module _ (checks : Checks) (laws : AreChecks checks) where
  given_between :
      (lo hi : ℕ) (o : Option ℤ)
      → if_given (int_errors checks (some (pos lo)) (some (pos hi))) o ≡ []
      → Given (InRange lo hi) o
  unfolding if_given
  given_between lo hi none h = tt
  given_between lo hi (some n) h = (between-nil_iff checks laws lo hi n).0 h

  given-IsShort :
      (most : ℕ) (o : Option String)
      → if_given (string_errors checks none (some most) none) o ≡ []
      → Given (IsShort checks most) o
  unfolding if_given
  given-IsShort most none h = tt
  given-IsShort most (some s) h = (string_errors-nil_iff checks none (some most) none s).0 h

  read_port : (p : ℕ) → validate_port checks p ≡ [] → to_port (pos p) ≢ 0
  unfolding validate_port to_port
  read_port p h =
      let (low, high) = (between-nil_iff checks laws 1 65535 (pos p)).0 h in
      omega (arith, low, high)

  read_balancer :
      (p : Nil ℕ)
      → if_given (validate_port checks) (nil_get p) ≡ []
      → Given (λ b. to_port b ≢ 0) (if not p.null then some (pos p.value) else none)
  unfolding if_given
  read_balancer p h = elim (Bool-cases p.null) [
    | inl null ↦ rw null tt
    | inr given ↦ rw given (read_port p.value (rw given at h))
  ]

  read_health :
      (o : Option HealthCheck)
      → if_given (validate_health_check checks) o ≡ []
      → Given (HealthWithin checks) (elim o [
        | none ↦ none
        | some hc ↦ some (record {
          path = hc.path;
          interval_seconds = hc.interval_seconds;
          timeout_seconds = hc.timeout_seconds;
        })
      ])
  unfolding if_given validate_health_check
  read_health none h = tt
  read_health (some hc) h =
      let (path, (interval, (timeout, end))) =
        (fields-nil_iff (health_check_fields checks hc)).0 h in
      record {
        path = (string_errors-nil_iff checks none (some 200) none hc.path).0 path;
        interval = (between-nil_iff checks laws 3 60 hc.interval_seconds).0 interval;
        timeout = (int_errors-nil_iff checks none (some (pos 60)) hc.timeout_seconds).0 timeout;
      }

  read_exposed_port :
      (p : ExposedPort) → validate_exposed_port checks p ≡ [] → PortWithin checks (dump_port p)
  unfolding validate_exposed_port dump_port
  read_exposed_port p h =
      let (target, (balancer, (hosts, (health, end)))) =
        (fields-nil_iff (exposed_port_fields checks p)).0 h in
      record {
        target = read_port p.target_port target;
        balancer = read_balancer p.load_balancer_port balancer;
        hosts = ((optional_array-nil_iff checks laws 5 (λ x. []) p.host).0 hosts).0;
        health = read_health (nil_get p.health_check) health;
      }

  read_variable :
      (e : ReadEnvironmentVariable)
      → validate_read_env checks e ≡ []
      → EnvWithin checks (dump_env e)
  unfolding validate_read_env dump_env
  read_variable e h =
      let (key, (text, end)) = (fields-nil_iff (read_env_fields checks e)).0 h in
      record {
        key = (string_errors-nil_iff checks (some 1) (some 255) none e.key).0 key;
        text =
            kept_text (IsShort checks 4096) e.secret e.value
              (given-IsShort 4096 (nil_get e.value) text);
      }

  username_kept :
      (u : Nil String)
      → Given (IsShort checks 255) (nil_get u)
      → Given (IsShort checks 255) (if not u.null && (u.value != "") then some u.value else none)
  username_kept u h = ground (arith, h)

  read_limits :
      (v : ReadApplicationVersionDetail)
      → validate_read_version checks v ≡ []
      → length v.env ≤ 50
      → IsWithinLimits checks (dump_spec v)
  unfolding validate_read_version dump_spec
  read_limits v read few =
      let a = (fields-nil_iff (read_version_fields checks v)).0 read in
      let (fixed, (least, (most, (scale_in, (scale_out, (image, (cmd, rest))))))) = a.1.1.1.1 in
      let (username, (password, (ports, (env, end)))) = rest in
      let (count, each) =
        (bounded_array-nil_iff checks laws 5 (validate_exposed_port checks) v.exposed_ports).0
          ports in
      record {
        fixed = given_between 1 50 (opt_get v.fixed_scale) fixed;
        least = given_between 1 50 (opt_get v.min_scale) least;
        most = given_between 1 50 (opt_get v.max_scale) most;
        scale_in = given_between 30 70 (opt_get v.scale_in_threshold) scale_in;
        scale_out = given_between 50 99 (opt_get v.scale_out_threshold) scale_out;
        image = (string_errors-nil_iff checks none (some 512) none v.image).0 image;
        cmd = ((optional_array-nil_iff checks laws 20 (λ x. []) v.cmd).0 cmd).0;
        username =
            username_kept v.registry_username
              (given-IsShort 255 (nil_get v.registry_username) username);
        password = tt;
        port_count = omega (arith, count, length-map dump_port v.exposed_ports);
        ports = All-map (PortWithin checks) dump_port v.exposed_ports (
            All-imp (Accepts (validate_exposed_port checks)) (λ p. PortWithin checks (dump_port p))
              v.exposed_ports read_exposed_port each);
        env_count = omega (arith, few, length-map dump_env v.env);
        env = All-map (EnvWithin checks) dump_env v.env (
            All-imp (Accepts (validate_read_env checks)) (λ e. EnvWithin checks (dump_env e)) v.env
              read_variable ((elements-nil_iff (validate_read_env checks) 0 v.env).0 env));
      }

  -- Let the single checks of ogen do what their documentation says, and let the client have read a
  -- version with at most 50 variables, whose dump validateApplication accepts under some name. Then the
  -- generated checks of requests find nothing in the request that an apply to a cluster without the
  -- application makes of the dump. What else the service may refuse is not stated.
  pub validate_create_version-dump_spec :
      (name : String) (v : ReadApplicationVersionDetail)
      → validate_read_version checks v ≡ []
      → length v.env ≤ 50
      → validate_application (record { name = name; spec = dump_spec v }) ≡ none
      → validate_create_version checks (build_create_version_request (dump_spec v)) ≡ []
  validate_create_version-dump_spec name v read few accepted =
      (validate_create_version_iff checks laws (record { name = name; spec = dump_spec v })
          accepted).1
        (read_limits v read few)
