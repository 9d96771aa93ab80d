-- ===== src/Tests/Data.antt =====
-- A small cluster, its configuration and a service, for the tests.
use apprun_dedicated_provisi.Base.{
  ℕ, ◌+◌, pos, String, true, false, none, some, List, [], ◌∷◌, ◌++◌, ◌==◌, ◌≡◌, refl, string_eq,
  int_eq, beq_refl, Bool-cases, inl, inr, subst, arith, All, if◌then◌else◌,
}
use mathlib.Core.List.Perm
use apprun_dedicated_provisi.Base.Dict.{RangeOrder, IsShuffle}
use apprun_dedicated_provisi.Result.{client_error, Reply, value, failure}
use apprun_dedicated_provisi.Config.{
  AutoScalingGroupConfig, LoadBalancerConfig, ApplicationSpec, ApplicationConfig, ClusterConfig,
}
use apprun_dedicated_provisi.Api.{
  opt_unset, nil_to, nil_null, ReadAutoScalingGroupDetail, ReadLoadBalancerDetail,
  CreateEnvironmentVariable, ReadEnvironmentVariable, CreateApplicationVersion,
  ReadApplicationVersionDetail,
}
use apprun_dedicated_provisi.Asg.{build_create_asg_request}
use apprun_dedicated_provisi.Lb.{build_create_lb_request}
use apprun_dedicated_provisi.State.{State}
use apprun_dedicated_provisi.Spec.{NormalizedSpec, Change, ChangeType, nil_value, Differ, is_image}
use apprun_dedicated_provisi.Spec.Laws.{IsDiff}
use apprun_dedicated_provisi.Version.Env.{ShowsEnv}
use apprun_dedicated_provisi.Version.Request.{build_create_version_request}
use apprun_dedicated_provisi.Platform.{
  Platform, Call, Response, Page, list_clusters, list_asgs, get_asg, create_asg, delete_asg,
  list_lbs, get_lb, create_lb, delete_lb, list_applications, create_application, update_application,
  list_versions, get_version, create_version, save_state, Env,
}
use apprun_dedicated_provisi.Provisioner.Wait.Ends.{IsClock}

abbrev pub same_order : RangeOrder
same_order = λ A xs. xs

pub same_order_shuffles : IsShuffle same_order
same_order_shuffles = λ A xs. Perm.refl xs

abbrev pub group_config : AutoScalingGroupConfig
group_config = record {
  name = "web";
  zone = "is1a";
  worker_service_class_path = "cloud/plan/2core";
  min_nodes = pos 1;
  max_nodes = pos 3;
  name_servers = "192.0.2.53" ∷ [];
  interfaces =
      (record {
        interface_index = pos 0;
        upstream = "shared";
        ip_pool = [];
        netmask_len = none;
        default_gateway = none;
        packet_filter_id = some "pf1";
        connects_to_lb = true;
      })
      ∷ [];
}

abbrev pub balancer_config : LoadBalancerConfig
balancer_config = record {
  name = "front";
  auto_scaling_group_name = "web";
  service_class_path = "cloud/lb/small";
  name_servers = "192.0.2.53" ∷ [];
  interfaces =
      (record {
        interface_index = pos 0;
        upstream = "shared";
        ip_pool = [];
        netmask_len = some (pos 24);
        default_gateway = none;
        vip = some "192.0.2.10";
        virtual_router_id = none;
        packet_filter_id = none;
      })
      ∷ [];
}

abbrev pub group : ReadAutoScalingGroupDetail
group =
    let req = build_create_asg_request group_config in
    record {
      auto_scaling_group_id = 10;
      name = req.name;
      zone = req.zone;
      name_servers = req.name_servers;
      worker_service_class_path = req.worker_service_class_path;
      min_nodes = req.min_nodes;
      max_nodes = req.max_nodes;
      worker_node_count = pos 1;
      deleting = false;
      interfaces = req.interfaces;
    }

abbrev pub balancer : ReadLoadBalancerDetail
balancer =
    let req = build_create_lb_request balancer_config in
    record {
      load_balancer_id = 20;
      name = req.name;
      service_class_path = req.service_class_path;
      name_servers = req.name_servers;
      interfaces = req.interfaces;
      created = pos 0;
      deleting = false;
    }

abbrev pub spec : ApplicationSpec
spec = record {
  inherit_image = true;
  cpu = pos 500;
  memory = pos 1024;
  scaling_mode = "manual";
  fixed_scale = some (pos 2);
  min_scale = none;
  max_scale = none;
  scale_in_threshold = none;
  scale_out_threshold = none;
  image = "registry/app:1";
  cmd = "serve" ∷ [];
  registry_username = none;
  registry_password = some "hunter2";
  registry_password_version = some (pos 3);
  exposed_ports =
      (record {
        target_port = pos 8080;
        load_balancer_port = some (pos 443);
        use_lets_encrypt = true;
        host = "example.com" ∷ [];
        health_check = none;
      })
      ∷ [];
  env =
      (record { key = "MODE"; value = some "prod"; secret = false; secret_version = none })
      ∷ (record { key = "TOKEN"; value = some "t"; secret = true; secret_version = some (pos 2) })
      ∷ [];
}

abbrev pub app : ApplicationConfig
app = record { name = "shop"; spec = spec }

abbrev pub cluster_config : ClusterConfig
cluster_config = record {
  cluster_name = "main";
  auto_scaling_groups = group_config ∷ [];
  load_balancers = balancer_config ∷ [];
  applications = app ∷ [];
}

-- The service shows variables as the documentation of the API says: no text of a secret.
abbrev pub show_env : CreateEnvironmentVariable → ReadEnvironmentVariable
show_env e = record {
  key = e.key;
  value = if e.secret then nil_null "" else nil_to (if e.value.set then e.value.value else "");
  secret = e.secret;
}

pub shows_env : ShowsEnv show_env
shows_env = record { key = λ e. refl; secret = λ e. refl; text = λ e h. ground arith }

abbrev show_all : List CreateEnvironmentVariable → List ReadEnvironmentVariable
show_all [] = []
show_all (e ∷ es) = show_env e ∷ show_all es

-- The version that the service makes of a request.
abbrev pub version_of : CreateApplicationVersion → ReadApplicationVersionDetail
version_of req = record {
  version = pos 1;
  cpu = req.cpu;
  memory = req.memory;
  scaling_mode = req.scaling_mode;
  fixed_scale = req.fixed_scale;
  min_scale = req.min_scale;
  max_scale = req.max_scale;
  scale_in_threshold = req.scale_in_threshold;
  scale_out_threshold = req.scale_out_threshold;
  image = req.image;
  cmd = req.cmd;
  registry_username = req.registry_username;
  registry_password = nil_null "";
  active_node_count = pos 0;
  created = pos 0;
  exposed_ports = req.exposed_ports;
  env = show_all req.env;
}

abbrev pub base : ReadApplicationVersionDetail
base = version_of (build_create_version_request (record spec { image = "registry/app:0" }))

-- A difference of two specs in two of their fields.
abbrev differ_cpu : NormalizedSpec → NormalizedSpec → List Change
differ_cpu a b =
    if a.cpu == b.cpu
    then []
    else (record {
      change_type = ChangeType.update;
      path = "CPU" ∷ [];
      from = nil_value;
      to = nil_value;
    })
      ∷ []

abbrev differ_image : NormalizedSpec → NormalizedSpec → List Change
differ_image a b =
    if a.image == b.image
    then []
    else (record {
      change_type = ChangeType.update;
      path = "Image" ∷ [];
      from = nil_value;
      to = nil_value;
    })
      ∷ []

abbrev two_fields_log : NormalizedSpec → NormalizedSpec → List Change
two_fields_log a b = differ_cpu a b ++ differ_image a b

abbrev pub two_fields : Differ
two_fields a b = value (two_fields_log a b)

pub two_fields-IsDiff : IsDiff two_fields
two_fields-IsDiff = record {
  same = λ a. ground (arith, beq_refl a.cpu, beq_refl a.image);
  located = λ a image log h. located a image log h;
}
  where
    images :
        (a : NormalizedSpec) (image : String)
        → All (λ c. is_image c.path ≡ true) (two_fields_log (record a { image = image }) a)
    images a image = rw (beq_refl a.cpu) (elim (Bool-cases (image == a.image)) [
      | inl same ↦ rw same tt
      | inr other ↦ rw other (refl, tt)
    ])

    located :
        (a : NormalizedSpec) (image : String) (log : List Change)
        → value (two_fields_log (record a { image = image }) a) ≡ value log
        → All (λ c. is_image c.path ≡ true) log
    located a image log h = subst (All (λ c. is_image c.path ≡ true)) (cc h) (images a image)

-- A service that lists one cluster with one group, answers what it is asked to make with the number
-- 7, and never stops finding a load balancer. Its world is the clock.
abbrev empty_page : {A C : Type 0} → C → Page A C
empty_page zero_value = record { items = []; next_cursor = opt_unset zero_value }

abbrev pub answers : (c : Call) → Reply (Response c)
answers (list_clusters cursor) = value (record {
  items = (record { name = "main"; cluster_id = 1; created = pos 0 }) ∷ [];
  next_cursor = opt_unset 0;
})
answers (list_asgs cluster cursor) =
    value (record { items = group ∷ []; next_cursor = opt_unset 0 })
answers (get_asg cluster asg) = failure (client_error "not found")
answers (create_asg cluster req) = value 7
answers (delete_asg cluster asg) = value tt
answers (list_lbs cluster asg cursor) = value (empty_page 0)
answers (get_lb cluster asg lb) = value balancer
answers (create_lb cluster asg req) = value 7
answers (delete_lb cluster asg lb) = value tt
answers (list_applications cluster cursor) = value (empty_page "")
answers (create_application name cluster) = value 7
answers (update_application id req) = value tt
answers (list_versions id cursor) = value (empty_page (pos 0))
answers (get_version id version) = value base
answers (create_version id req) = value (pos 1)
answers (save_state path state) = value tt

abbrev pub service : Platform
service = record {
  World = ℕ;
  serve = λ c w. (answers c, w + 1);
  now = λ w. w;
  sleep = λ d w. w + d;
  range = same_order;
  diff = two_fields;
  fuel = 300;
}

pub service-IsClock : IsClock service
service-IsClock = record { sleeps = λ d w. omega arith; serves = λ c w. omega arith }

-- A state with a password version and a secret.
abbrev pub stored : State
stored = record {
  version = pos 1;
  applications =
      (
        "shop",
        record {
          registry_password_version = some (pos 2);
          secret_env_versions = some (("TOKEN", pos 1) ∷ []);
        },
      )
      ∷ [];
}

abbrev pub start : Env service
start = record { world = 0; state = stored; trace = []; printed = [] }
