-- ===== src/Spec.antt =====
-- provisioner/normalized.go: the form in which a version of the service and a configured spec are
-- compared. `diff.Diff` of r3labs/diff is a parameter.
pub mod Laws
use apprun_dedicated_provisi.Base.{
  ℕ, ℤ, pos, ltb_ℤ, String, ◌<>◌, Bool, false, not, ◌&&◌, Option, none, some, List, [], ◌∷◌, map,
  ◌==◌, string_eq, if◌then◌else◌,
}
use apprun_dedicated_provisi.Base.Text.{show_int, show_bool, join, sort_strings, insertion_sort}
use apprun_dedicated_provisi.Result.{Reply, value, failure, Error, wrapped}
use apprun_dedicated_provisi.Config.{ApplicationSpec, ExposedPortConfig, HealthCheckConfig}
use apprun_dedicated_provisi.Api.{
  Nil, HealthCheck, ExposedPort, ReadApplicationVersionDetail, opt_get, nil_get,
}

pub record NormalizedExposedPort : Type 0 where
  pub target_port : ℤ
  pub load_balancer_port : Option ℤ
  pub use_lets_encrypt : Bool
  pub hosts : String
  pub health_check_path : String
  pub health_check_interval : ℤ
  pub health_check_timeout : ℤ

pub record NormalizedSpec : Type 0 where
  pub cpu : ℤ
  pub memory : ℤ
  pub scaling_mode : String
  pub fixed_scale : Option ℤ
  pub min_scale : Option ℤ
  pub max_scale : Option ℤ
  pub scale_in_threshold : Option ℤ
  pub scale_out_threshold : Option ℤ
  pub image : String
  pub cmd : String
  pub registry_username : String
  pub exposed_ports : List NormalizedExposedPort

-- sortNormalizedSpec
unfoldable pub sort_ports : List NormalizedExposedPort → List NormalizedExposedPort
unfolding insertion_sort
sort_ports = insertion_sort (λ a b. ltb_ℤ a.target_port b.target_port)

-- `int32(p)` of a port that is not null
abbrev pub int_port : Nil ℕ → Option ℤ
int_port p = if p.null then none else some (pos p.value)

-- The health check of a port; the zero values where there is none.
abbrev pub check_path : Option HealthCheck → String
check_path none = ""
check_path (some hc) = hc.path

abbrev pub check_interval : Option HealthCheck → ℤ
check_interval none = pos 0
check_interval (some hc) = hc.interval_seconds

abbrev pub check_timeout : Option HealthCheck → ℤ
check_timeout none = pos 0
check_timeout (some hc) = hc.timeout_seconds

-- The body of the loop over the ports in NormalizeFromAPI.
unfoldable pub normalize_api_port : ExposedPort → NormalizedExposedPort
normalize_api_port p = record {
  target_port = pos p.target_port;
  load_balancer_port = int_port p.load_balancer_port;
  use_lets_encrypt = p.use_lets_encrypt;
  hosts = join (sort_strings p.host) ",";
  health_check_path = check_path (nil_get p.health_check);
  health_check_interval = check_interval (nil_get p.health_check);
  health_check_timeout = check_timeout (nil_get p.health_check);
}

-- NormalizeFromAPI
unfoldable pub normalize_from_api : ReadApplicationVersionDetail → NormalizedSpec
normalize_from_api v = record {
  cpu = v.cpu;
  memory = v.memory;
  scaling_mode = v.scaling_mode;
  fixed_scale = opt_get v.fixed_scale;
  min_scale = opt_get v.min_scale;
  max_scale = opt_get v.max_scale;
  scale_in_threshold = opt_get v.scale_in_threshold;
  scale_out_threshold = opt_get v.scale_out_threshold;
  image = v.image;
  cmd = join v.cmd " ";
  registry_username = (if v.registry_username.null then "" else v.registry_username.value);
  exposed_ports = sort_ports (map normalize_api_port v.exposed_ports);
}

-- The health check of a configured port, in the service's type.
abbrev pub api_check : HealthCheckConfig → HealthCheck
api_check hc = record {
  path = hc.path;
  interval_seconds = hc.interval_seconds;
  timeout_seconds = hc.timeout_seconds;
}

abbrev pub configured_check : Option HealthCheckConfig → Option HealthCheck
configured_check none = none
configured_check (some hc) = some (api_check hc)

-- The body of the loop over the ports in NormalizeFromConfig.
unfoldable pub normalize_config_port : ExposedPortConfig → NormalizedExposedPort
normalize_config_port p = record {
  target_port = p.target_port;
  load_balancer_port = p.load_balancer_port;
  use_lets_encrypt = p.use_lets_encrypt;
  hosts = join (sort_strings p.host) ",";
  health_check_path = check_path (configured_check p.health_check);
  health_check_interval = check_interval (configured_check p.health_check);
  health_check_timeout = check_timeout (configured_check p.health_check);
}

-- NormalizeFromConfig
unfoldable pub normalize_from_config : ApplicationSpec → NormalizedSpec
normalize_from_config c = record {
  cpu = c.cpu;
  memory = c.memory;
  scaling_mode = c.scaling_mode;
  fixed_scale = c.fixed_scale;
  min_scale = c.min_scale;
  max_scale = c.max_scale;
  scale_in_threshold = c.scale_in_threshold;
  scale_out_threshold = c.scale_out_threshold;
  image = c.image;
  cmd = join c.cmd " ";
  registry_username = (elim c.registry_username [ none ↦ "" | some u ↦ u ]);
  exposed_ports = sort_ports (map normalize_config_port c.exposed_ports);
}

-- diff.Change: `other` is any type that is not one of the library's three.
pub data ChangeType : Type 0 where
  create update delete other : ChangeType

-- What an `interface{}` of a change holds: nothing, a pointer of the types that `formatValue` lists,
-- or any other value, by its text under %v.
pub data Value : Type 0 where
  nil_value : Value
  int_pointer : Option ℤ → Value
  string_pointer : Option String → Value
  bool_pointer : Option Bool → Value
  plain : String → Value

pub record Change : Type 0 where
  pub change_type : ChangeType
  pub path : List String
  pub from : Value
  pub to : Value

-- diff.Diff, on two normalized specs
abbrev pub Differ : Type 0
Differ = NormalizedSpec → NormalizedSpec → Reply (List Change)

-- formatValue, printed by %v
unfoldable pub format_value : Value → String
format_value nil_value = "(nil)"
format_value (int_pointer none) = "(nil)"
format_value (int_pointer (some n)) = show_int n
format_value (string_pointer none) = "(nil)"
format_value (string_pointer (some s)) = s
format_value (bool_pointer none) = "(nil)"
format_value (bool_pointer (some b)) = show_bool b
format_value (plain s) = s

-- formatChange
unfoldable pub format_change : Change → String
unfolding format_value
format_change c =
    let path = join c.path "." in
    elim c.change_type [
      | create ↦ path <> ": (unset) -> " <> format_value c.to
      | update ↦ path <> ": " <> format_value c.from <> " -> " <> format_value c.to
      | delete ↦ path <> ": " <> format_value c.from <> " -> (unset)"
      | other ↦ path <> ": " <> format_value c.from <> " -> " <> format_value c.to
    ]

-- `len(path) > 0 && path[0] == "Image"`
abbrev pub is_image : List String → Bool
is_image [] = false
is_image (field ∷ rest) = field == "Image"

-- The loop of CompareSpecs.
unfoldable pub format_changes : Bool → List Change → List String
format_changes skip_image [] = []
format_changes skip_image (c ∷ changelog) =
    let rest = format_changes skip_image changelog in
    if skip_image && is_image c.path then rest else format_change c ∷ rest

-- CompareSpecs
unfoldable pub compare_specs : Differ → NormalizedSpec → NormalizedSpec → Bool → Reply (List String)
unfolding format_changes
compare_specs diff from to skip_image = elim (diff from to) [
  | failure e ↦ failure (wrapped "failed to diff specs" e)
  | value changelog ↦ value (format_changes skip_image changelog)
]
