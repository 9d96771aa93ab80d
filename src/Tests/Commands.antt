-- ===== src/Tests/Commands.antt =====
-- The theorems on the command line at concrete inputs.
use apprun_dedicated_provisi.Base.{
  pos, String, true, false, ◌&&◌, none, [], ◌∷◌, ◌≡◌, refl, ◌==◌, string_eq, if◌then◌else◌,
}
use apprun_dedicated_provisi.Result.{value, failure, client_error}
use apprun_dedicated_provisi.Shell.{Shell}
use apprun_dedicated_provisi.Platform.Traces.{Does, writing}
use apprun_dedicated_provisi.Platform.Steps.{Follows}
use apprun_dedicated_provisi.Provisioner.Listing.Reads.{IsRead}
use apprun_dedicated_provisi.Provisioner.AsgPlan.{AsgActionType}
use apprun_dedicated_provisi.Provisioner.Plan.{ExecutionPlan, noop, create}
use apprun_dedicated_provisi.Provisioner.Apply.Steps.{step_of, plan_steps}
use apprun_dedicated_provisi.Print.{has_changes}
use apprun_dedicated_provisi.Command.{
  plan_command, apply_planned, apply_command, versions_command, diff_command, dump_command,
}
use apprun_dedicated_provisi.Command.Reads.{commands-IsRead, apply_command-unapproved}
use apprun_dedicated_provisi.Command.Approval.{
  is_approved, apply_planned-Follows, has_changes-plan_steps,
}
use apprun_dedicated_provisi.Tests.Data.{cluster_config, service}

-- A shell in which n is typed, with one configuration file and no state file.
abbrev shell : Shell
shell = record {
  getenv = λ key. "token";
  read_file =
      λ path. if path == "apprun.yaml" then value "main" else failure (client_error "missing");
  is_not_exist = λ e. true;
  read_line = value "n";
  unmarshal_config = λ text. value cluster_config;
  encode_config = λ config. value config.cluster_name;
  unmarshal_state = λ text. failure (client_error "no state");
  dir = λ path. ".";
  base = λ path. path;
  ext = λ path. ".yaml";
  join_path = λ d f. f;
  dial = λ url sec. value tt;
  trim_space = λ text. text;
  to_lower = λ text. text;
  quote = λ text. text;
  show_uuid = λ id. "id";
  format_time = λ t. "now";
}

commands-IsRead_example :
    Does writing IsRead (plan_command shell service "apprun.yaml")
    × (Does writing IsRead (versions_command shell service "apprun.yaml" "shop")
        × (Does writing IsRead (diff_command shell service "apprun.yaml" "shop" (pos 0) (pos 1))
            × Does writing IsRead (dump_command shell service "main")))
commands-IsRead_example = commands-IsRead shell service "apprun.yaml" "shop" "main" (pos 0) (pos 1)

apply_command-unapproved_example :
    Does writing IsRead (apply_command shell service "apprun.yaml" true false)
apply_command-unapproved_example =
    apply_command-unapproved shell service "apprun.yaml" true (λ input e. rw (typed input e) refl)
  where
    typed : (input : String) → value "n" ≡ value input → input ≡ "n"
    typed input e = cc

-- A plan that creates an application and leaves a group as it is.
abbrev creating : ExecutionPlan
creating = record {
  cluster_name = "main";
  cluster_id = 1;
  asg_actions =
      (record { action = AsgActionType.noop; name = "web"; changes = []; existing_id = none }) ∷ [];
  lb_actions = [];
  actions = (record { application_name = "shop"; action = create; changes = [] }) ∷ [];
}

abbrev idle : ExecutionPlan
idle = record creating {
  actions = (record { application_name = "shop"; action = noop; changes = [] }) ∷ [];
}

apply_planned-Follows_example :
    Follows step_of
      (if has_changes creating && is_approved shell true
        then plan_steps true cluster_config creating
        else [])
      (apply_planned shell service "apprun.yaml" true true cluster_config creating)
apply_planned-Follows_example =
    apply_planned-Follows shell service "apprun.yaml" true true cluster_config creating

idle-unchanged : has_changes idle ≡ false
unfolding has_changes
idle-unchanged = refl

has_changes-plan_steps_example : plan_steps true cluster_config idle ≡ []
has_changes-plan_steps_example = has_changes-plan_steps true cluster_config idle idle-unchanged
