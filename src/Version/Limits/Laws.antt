-- ===== src/Version/Limits/Laws.antt =====
-- When the service accepts the request for a first version that provisioner/sync.go makes of a
-- configured application.
use apprun_dedicated_provisi.Base.{
  pos, String, none, some, [], ◌∷◌, ◌≡◌, ◌↔◌, All, string_eq, int_eq,
}
use apprun_dedicated_provisi.Config.{ApplicationConfig}
use apprun_dedicated_provisi.Config.Validate.{validate_application}
use apprun_dedicated_provisi.Config.Validate.Laws.{IsValidApp, validate_application_sound}
use apprun_dedicated_provisi.Api.Validate.{validate_scaling_mode, int_errors, Checks, Errors}
use apprun_dedicated_provisi.Api.Validate.Requests.{create_version_fields, validate_create_version}
use apprun_dedicated_provisi.Api.Validate.Laws.{AreChecks, fields-nil_iff, between-nil_iff}
use apprun_dedicated_provisi.Version.Request.{registry_username, build_create_version_request}
use apprun_dedicated_provisi.Version.Limits.{IsWithinLimits}
use apprun_dedicated_provisi.Version.Limits.Fields.{
  or_zero, or_empty, mode_accepted, scale_iff, cmd_iff, username_iff, password_iff, action_accepted,
  image_iff, ports_iff, variables_iff,
}

module _ (checks : Checks) (laws : AreChecks checks) (app : ApplicationConfig) where
  limits_of_accepted :
      validate_create_version checks (build_create_version_request app.spec) ≡ []
      → IsWithinLimits checks app.spec
  unfolding validate_create_version build_create_version_request
  limits_of_accepted h =
      let a =
        (fields-nil_iff (create_version_fields checks (build_create_version_request app.spec))).0
          h in
      let (fixed, (least, (most, (scale_in, (scale_out, (image, (cmd, rest))))))) = a.1.1.1 in
      let (username, (password, (action, (ports, (env, end))))) = rest in
      let ports_within = (ports_iff checks laws app.spec.exposed_ports).0 ports in
      let env_within = (variables_iff checks laws app.spec.env).0 env in
      record {
        fixed = (scale_iff checks laws 1 50 (λ b. b.fixed_scale) app.spec.fixed_scale).0 fixed;
        least = (scale_iff checks laws 1 50 (λ b. b.min_scale) app.spec.min_scale).0 least;
        most = (scale_iff checks laws 1 50 (λ b. b.max_scale) app.spec.max_scale).0 most;
        scale_in =
            (scale_iff checks laws 30 70 (λ b. b.scale_in_threshold) app.spec.scale_in_threshold).0
              scale_in;
        scale_out =
            (scale_iff checks laws 50 99 (λ b. b.scale_out_threshold)
                app.spec.scale_out_threshold).0
              scale_out;
        image = (image_iff checks laws app.spec.inherit_image app.spec.image).0 image;
        cmd = (cmd_iff checks laws app.spec.cmd).0 cmd;
        username = (username_iff checks laws app.spec.registry_username).0 username;
        password =
            (password_iff checks laws app.spec.registry_password
                (registry_username app.spec.registry_username none).1).0
              password;
        port_count = ports_within.0;
        ports = ports_within.1;
        env_count = env_within.0;
        env = env_within.1;
      }

  -- What validateApplication has checked before.
  known_accepted :
      IsValidApp app
      → All
          (λ (f : String × Errors). f.1 ≡ [])
          ((
            "cpu",
            int_errors checks
                (some (pos 100))
                (some (pos 64000))
                (build_create_version_request app.spec).cpu,
          )
            ∷ (
              "memory",
              int_errors checks
                  (some (pos 128))
                  (some (pos 131072))
                  (build_create_version_request app.spec).memory,
            )
            ∷ (
              "scalingMode",
              validate_scaling_mode (build_create_version_request app.spec).scaling_mode,
            )
            ∷ [])
  unfolding build_create_version_request
  known_accepted v = (
    rw (or_zero app.spec.cpu) ((between-nil_iff checks laws 100 64000 app.spec.cpu).1 v.cpu_range),
    (
      rw (or_zero app.spec.memory)
          ((between-nil_iff checks laws 128 131072 app.spec.memory).1 v.memory_range),
      (rw (or_empty app.spec.scaling_mode) (mode_accepted app v), tt),
    ),
  )

  accepted_of_limits :
      IsValidApp app
      → IsWithinLimits checks app.spec
      → validate_create_version checks (build_create_version_request app.spec) ≡ []
  unfolding validate_create_version build_create_version_request
  accepted_of_limits v w =
      let spec = app.spec in
      let user = (registry_username spec.registry_username none).1 in
      let (cpu, (memory, (mode, end))) = known_accepted v in
      let fixed = (scale_iff checks laws 1 50 (λ b. b.fixed_scale) spec.fixed_scale).1 w.fixed in
      let least = (scale_iff checks laws 1 50 (λ b. b.min_scale) spec.min_scale).1 w.least in
      let most = (scale_iff checks laws 1 50 (λ b. b.max_scale) spec.max_scale).1 w.most in
      let scale_in =
        (scale_iff checks laws 30 70 (λ b. b.scale_in_threshold) spec.scale_in_threshold).1
          w.scale_in in
      let scale_out =
        (scale_iff checks laws 50 99 (λ b. b.scale_out_threshold) spec.scale_out_threshold).1
          w.scale_out in
      let image = (image_iff checks laws spec.inherit_image spec.image).1 w.image in
      let cmd = (cmd_iff checks laws spec.cmd).1 w.cmd in
      let username = (username_iff checks laws spec.registry_username).1 w.username in
      let password = (password_iff checks laws spec.registry_password user).1 w.password in
      let action = action_accepted checks laws spec.registry_username spec.registry_password in
      let ports = (ports_iff checks laws spec.exposed_ports).1 (w.port_count, w.ports) in
      let env = (variables_iff checks laws spec.env).1 (w.env_count, w.env) in
      (fields-nil_iff (create_version_fields checks (build_create_version_request spec))).1 (
        cpu,
        (
          memory,
          (
            mode,
            (
              fixed,
              (
                least,
                (
                  most,
                  (
                    scale_in,
                    (
                      scale_out,
                      (image, (cmd, (username, (password, (action, (ports, (env, tt))))))),
                    ),
                  ),
                ),
              ),
            ),
          ),
        ),
      )

  -- Let the single checks of ogen do what their documentation says. For an application that
  -- validateApplication accepts, the generated checks of requests find nothing in the request for its
  -- first version exactly when the specification keeps to the limits that validateApplication does not check: scales from 1 to
  -- 50, thresholds from 30 to 70 and 50 to 99, the lengths of the texts, the paths and times of health
  -- checks, at most 20 words of a command, 5 hosts, 5 ports and 50 variables, and ports that 16 bits
  -- do not turn into 0.
  pub validate_create_version_iff :
      validate_application app ≡ none
      → (validate_create_version checks (build_create_version_request app.spec) ≡ [])
        ↔ IsWithinLimits checks app.spec
  validate_create_version_iff accepted =
      (limits_of_accepted, accepted_of_limits (validate_application_sound app accepted))
