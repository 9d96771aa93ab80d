-- ===== src/Tests/Versions.antt =====
-- The theorems on version lists, version diffs, activation and dumps at concrete inputs.
use apprun_dedicated_provisi.Base.{
  arith, ℤ, pos, some, List, [], ◌∷◌, ◌≡◌, ◌↔◌, refl, All, int_eq, string_eq,
}
use apprun_dedicated_provisi.Base.Dict.{DistinctBy, lookup}
use apprun_dedicated_provisi.Result.{value}
use apprun_dedicated_provisi.Api.{
  ReadApplicationDetail, ApplicationVersionDeploymentStatus, nil_to, Opt, opt_unset, Uuid,
  ReadAutoScalingGroupDetail, nil_null, UpdateApplication,
}
use apprun_dedicated_provisi.State.{new_state, get_password_version}
use apprun_dedicated_provisi.Version.{current_key, compare_version}
use apprun_dedicated_provisi.Version.Request.{build_create_version_request}
use apprun_dedicated_provisi.Version.Diff.{compare_version_env}
use apprun_dedicated_provisi.Version.Diff.Laws.{Kept, StillThere, compare_version_env-nil_iff}
use apprun_dedicated_provisi.Platform.{Action, Page, list_asgs, ok, call, as_outcome}
use apprun_dedicated_provisi.Provisioner.Versions.Narrow.{IsInt32, activate_version-bounds_iff}
use apprun_dedicated_provisi.Provisioner.Listing.{follow, is_set}
use apprun_dedicated_provisi.Provisioner.Listing.Pages.{last, follow-Pages}
use apprun_dedicated_provisi.Platform.Steps.{Follows}
use apprun_dedicated_provisi.Provisioner.Apply.{activation}
use apprun_dedicated_provisi.Provisioner.AsgPlan.{plan_asgs}
use apprun_dedicated_provisi.Provisioner.AsgPlan.Laws.{IsQuiet as IsQuietAsg}
use apprun_dedicated_provisi.Provisioner.LbPlan.{plan_lbs}
use apprun_dedicated_provisi.Provisioner.LbPlan.Laws.{IsQuiet as IsQuietLb}
use apprun_dedicated_provisi.Provisioner.Versions.{version_list, activate_version}
use apprun_dedicated_provisi.Provisioner.Versions.Laws.{
  IsHighest, IsActiveOf, Shown, version_list_lem,
}
use apprun_dedicated_provisi.Provisioner.Versions.Calls.{change_of, activate_version-Follows}
use apprun_dedicated_provisi.Provisioner.Dump.{dump_spec}
use apprun_dedicated_provisi.Provisioner.Dump.Laws.{compare_version-dump_spec}
use apprun_dedicated_provisi.Provisioner.Dump.Plans.{Listed, listed_asgs, listed_onto, IsDistinct}
use apprun_dedicated_provisi.Provisioner.Dump.Listings.{ListsLbs, none_left, dump_asgs-IsQuiet}
use apprun_dedicated_provisi.Provisioner.Dump.{dump_asgs}
use apprun_dedicated_provisi.Config.{AutoScalingGroupConfig, LoadBalancerConfig}
use apprun_dedicated_provisi.Platform.{
  Platform, Call, Response, Env, list_lbs, pure, on_error, rewritten, continue, ◌>>=◌,
}
use apprun_dedicated_provisi.Provisioner.Listing.{list_all_lbs, lb_page, lb_details}
use apprun_dedicated_provisi.Result.{Reply}
use apprun_dedicated_provisi.Base.{◌+◌}
use apprun_dedicated_provisi.Tests.Data.{
  answers, same_order, same_order_shuffles, group, balancer, base, two_fields, two_fields-IsDiff,
  service, start,
}

base-DistinctBy : DistinctBy current_key base.env
unfolding build_create_version_request
base-DistinctBy = ((refl, tt), (tt, tt))

compare_version_env-nil_iff_example :
    ((compare_version_env base.env base.env).0 ≡ [])
    ↔ (All (Kept base.env) base.env × All (StillThere base.env) base.env)
compare_version_env-nil_iff_example = compare_version_env-nil_iff base.env base.env

abbrev shown : ℤ → ApplicationVersionDeploymentStatus
shown n = record {
  version = n;
  image = "registry/app:1";
  active_node_count = pos 1;
  created = pos 0;
}

abbrev all_shown : List ApplicationVersionDeploymentStatus
all_shown = shown (pos 2) ∷ shown (pos 5) ∷ shown (pos 3) ∷ []

abbrev shop_app : ReadApplicationDetail
shop_app = record {
  application_id = 30;
  name = "shop";
  cluster_id = 1;
  cluster_name = "main";
  active_version = nil_to (pos 3);
  desired_count = nil_null (pos 0);
  scaling_cooldown_seconds = pos 0;
}

version_list_lem_example :
    IsHighest (pos 0) (version_list "shop" shop_app all_shown).latest_version all_shown
    × IsActiveOf shop_app (version_list "shop" shop_app all_shown).active_version
    × Shown shop_app all_shown (version_list "shop" shop_app all_shown).versions
version_list_lem_example = version_list_lem "shop" shop_app all_shown

activate_version-Follows_example :
    Follows change_of
      (some (activation (pos 4)) ∷ [])
      (activate_version service "main" "shop" (pos 4))
activate_version-Follows_example =
    activate_version-Follows service "main" "shop" (pos 4) (λ e. ground arith)

compare_version-dump_spec_example :
    compare_version two_fields new_state "shop" base (dump_spec base) ≡ []
unfolding get_password_version lookup
compare_version-dump_spec_example =
    compare_version-dump_spec two_fields two_fields-IsDiff new_state "shop" base base-DistinctBy
      refl

abbrev listed : List Listed
listed = (record { asg = group; lbs = balancer ∷ [] }) ∷ []

listed-IsDistinct : IsDistinct listed
listed-IsDistinct = record { groups = (tt, tt); balancers = ((tt, tt), tt) }

-- The service, but for a load balancer that it lists in every group.
abbrev answers_lb : (c : Call) → Reply (Response c)
answers_lb (list_lbs cluster asg cursor) = value (record {
  items =
      (record {
        load_balancer_id = 20;
        name = balancer.name;
        service_class_path = balancer.service_class_path;
        name_servers = balancer.name_servers;
        created = balancer.created;
        deleting = balancer.deleting;
      })
      ∷ [];
  next_cursor = opt_unset 0;
})
answers_lb c = answers c

abbrev balanced : Platform
balanced = record service { serve = λ c w. (answers_lb c, w + 1) }

abbrev before : Env balanced
before = record { world = 0; state = new_state; trace = []; printed = [] }

abbrev after : Env balanced
after = (list_all_lbs balanced 1 10 before).1

lists : ListsLbs balanced 1 listed before after
unfolding list_all_lbs lb_page lb_details follow call as_outcome ◌>>=◌ continue pure on_error
    rewritten
lists = ListsLbs.listed refl none_left

dump_asgs-IsQuiet_example :
    (dumped : List AutoScalingGroupConfig × List LoadBalancerConfig) × (dump_asgs balanced 1
        (listed_asgs listed)
        []
        []
        before
      ≡ (ok dumped, after))
    × All IsQuietAsg (plan_asgs same_order (listed_asgs listed) dumped.0)
    × All IsQuietLb (
        plan_lbs same_order
          (listed_asgs listed)
          (plan_asgs same_order (listed_asgs listed) dumped.0)
          (listed_onto [] listed)
          dumped.1)
dump_asgs-IsQuiet_example =
    dump_asgs-IsQuiet balanced 1 listed before after same_order_shuffles listed-IsDistinct lists

activate_version-bounds_iff_example :
    (sent : UpdateApplication) × Follows change_of
      (some sent ∷ [])
      (activate_version service "main" "shop" (pos 4294967297))
    × IsInt32 sent.active_version.value
    × ((sent.active_version ≡ nil_to (pos 4294967297)) ↔ IsInt32 (pos 4294967297))
activate_version-bounds_iff_example =
    activate_version-bounds_iff service "main" "shop" (pos 4294967297) (λ e. ground arith)

-- The listing of the groups of the cluster, in one page.
abbrev fetch : Opt Uuid → Action service (Page ReadAutoScalingGroupDetail Uuid)
fetch cursor = call (list_asgs 1 cursor)

follow-Pages_example :
    follow 3 fetch is_set (opt_unset 0) [] start ≡ (ok (group ∷ []), (fetch (opt_unset 0) start).1)
unfolding call as_outcome
follow-Pages_example =
    follow-Pages fetch is_set 3 (opt_unset 0) [] start _ (group ∷ []) 1
      (last (record { items = group ∷ []; next_cursor = opt_unset 0 }) refl refl) (omega arith)
