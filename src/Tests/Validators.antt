-- ===== src/Tests/Validators.antt =====
-- The theorems on the service's checks of requests and responses at concrete inputs.
use Prim.Native.String.{count}
use apprun_dedicated_provisi.Base.{
  ℕ, ℤ, pos, Bool, true, false, not, ◌&&◌, Option, none, some, [], ◌∷◌, ◌≡◌, ◌↔◌, refl, arith,
  ltb_ℤ, ltb, string_eq,
}
use apprun_dedicated_provisi.Config.{ApplicationSpec}
use apprun_dedicated_provisi.Config.Validate.{
  validate_application, validate_scaling, validate_secrets,
}
use apprun_dedicated_provisi.Api.{ReadApplicationDetail, ReadApplicationVersionDetail, nil_null}
use apprun_dedicated_provisi.Api.Validate.{Checks}
use apprun_dedicated_provisi.Api.Validate.Laws.{AreChecks}
use apprun_dedicated_provisi.Api.Validate.Requests.{
  validate_create_version, validate_create_asg, validate_create_lb,
}
use apprun_dedicated_provisi.Api.Validate.Responses.{
  validate_read_application, validate_read_version, validate_read_asg, validate_read_lb,
}
use apprun_dedicated_provisi.Asg.{build_create_asg_request}
use apprun_dedicated_provisi.Lb.{build_create_lb_request}
use apprun_dedicated_provisi.Version.Request.{build_create_version_request}
use apprun_dedicated_provisi.Version.Limits.{IsWithinLimits}
use apprun_dedicated_provisi.Version.Limits.Laws.{validate_create_version_iff}
use apprun_dedicated_provisi.Provisioner.Dump.{dump_asg, dump_lb, dump_spec}
use apprun_dedicated_provisi.Provisioner.Dump.Accepted.{IsComplete, dump_spec-accepted_iff}
use apprun_dedicated_provisi.Provisioner.Dump.Recreate.{validate_create_version-dump_spec}
use apprun_dedicated_provisi.Provisioner.Dump.Rebuild.{validate_create-dump}
use apprun_dedicated_provisi.Tests.Data.{app, spec, group, balancer, version_of}

abbrev not_below : Option ℤ → ℤ → Bool
not_below none n = true
not_below (some lo) n = not (ltb_ℤ n lo)

abbrev not_above : Option ℤ → ℤ → Bool
not_above none n = true
not_above (some hi) n = not (ltb_ℤ hi n)

abbrev long_enough : Option ℕ → ℕ → Bool
long_enough none n = true
long_enough (some lo) n = not (ltb n lo)

abbrev short_enough : Option ℕ → ℕ → Bool
short_enough none n = true
short_enough (some hi) n = not (ltb hi n)

pub short_enough_zero : (hi : ℕ) → not (ltb hi 0) ≡ true
short_enough_zero hi = ground arith

-- Checks of the bounds. Every text matches every regular expression.
abbrev pub bounds : Checks
bounds = record {
  int_ok = λ lo hi n. not_below lo n && not_above hi n;
  string_ok = λ lo hi regex s. long_enough lo (count s) && short_enough hi (count s);
  length_ok = λ lo hi n. long_enough lo n && short_enough hi n;
  empty_ok = short_enough_zero;
}

pub bounds-AreChecks : AreChecks bounds
bounds-AreChecks = record {
  between = λ lo hi n. ground arith;
  at_least = λ lo n h. ground (arith, h);
  at_most = λ hi n. ground arith;
  not_empty = λ lo hi regex. ground arith;
}

validate_create_version_iff_example :
    (validate_create_version bounds (build_create_version_request app.spec) ≡ [])
    ↔ IsWithinLimits bounds app.spec
unfolding validate_application validate_scaling validate_secrets
validate_create_version_iff_example = validate_create_version_iff bounds bounds-AreChecks app refl

-- The application without its secrets.
abbrev open_spec : ApplicationSpec
open_spec = record spec {
  registry_password = none;
  env = (record { key = "MODE"; value = some "prod"; secret = false; secret_version = none }) ∷ [];
}

abbrev open_version : ReadApplicationVersionDetail
open_version = version_of (build_create_version_request open_spec)

abbrev shop : ReadApplicationDetail
shop = record {
  application_id = 30;
  name = "shop";
  cluster_id = 1;
  cluster_name = "main";
  active_version = nil_null (pos 0);
  desired_count = nil_null (pos 0);
  scaling_cooldown_seconds = pos 60;
}

shop-read : validate_read_application bounds shop ≡ []
unfolding validate_read_application
shop-read = refl

version-read : validate_read_version bounds open_version ≡ []
unfolding validate_read_version build_create_version_request
version-read = refl

version-accepted :
    validate_application (record { name = "shop"; spec = dump_spec open_version }) ≡ none
unfolding validate_application dump_spec build_create_version_request validate_scaling
    validate_secrets
version-accepted = refl

dump_spec-accepted_iff_example :
    (validate_application (record { name = "shop"; spec = dump_spec open_version }) ≡ none)
    ↔ IsComplete open_version
dump_spec-accepted_iff_example =
    dump_spec-accepted_iff bounds bounds-AreChecks shop open_version shop-read version-read

validate_create_version-dump_spec_example :
    validate_create_version bounds (build_create_version_request (dump_spec open_version)) ≡ []
unfolding build_create_version_request
validate_create_version-dump_spec_example =
    validate_create_version-dump_spec bounds bounds-AreChecks "shop" open_version version-read
      (omega arith) version-accepted

validate_create-dump_example :
    (validate_create_asg bounds false (build_create_asg_request (dump_asg group))
      ≡ validate_read_asg bounds false group)
    × (validate_create_lb bounds false (build_create_lb_request (dump_lb "web" balancer))
        ≡ validate_read_lb bounds false balancer)
validate_create-dump_example = validate_create-dump bounds group "web" balancer
