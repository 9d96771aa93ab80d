-- ===== src/Api/Validate.antt =====
-- api/oas_validators_gen.go: what the service's requests and responses are checked for. The checks of
-- single values are ogen's `validate` package, a parameter. A nil array is an empty list here. An
-- optional array is not checked when it is nil; where that makes a difference to an empty one, a Bool
-- tells them apart.
pub mod Requests
pub mod Responses
pub mod Laws
use apprun_dedicated_provisi.Base.{
  ℕ, ◌+◌, ℤ, pos, String, ◌<>◌, Bool, ◌||◌, Option, none, some, List, [], ◌∷◌, ◌++◌, map, ◌==◌,
  string_eq, if◌then◌else◌, length, is_empty, not, ◌&&◌, true, ◌≡◌,
}
use apprun_dedicated_provisi.Base.Text.{show_nat}
use apprun_dedicated_provisi.Api.{
  Opt, Nil, opt_get, nil_get, IpRange, HealthCheck, ExposedPort, AutoScalingGroupNodeInterface,
  LoadBalancerInterface,
}

-- validate.Int, validate.String and validate.Array, by their settings and the checked value: the
-- bounds that are set, and the name of the regular expression in `regexMap`.
pub record Checks : Type 0 where
  pub int_ok : Option ℤ → Option ℤ → ℤ → Bool
  pub string_ok : Option ℕ → Option ℕ → Option String → String → Bool
  pub length_ok : Option ℕ → Option ℕ → ℕ → Bool
  -- A greatest length forbids no empty array.
  pub empty_ok : (hi : ℕ) → length_ok none (some hi) 0 ≡ true

-- errors.Wrap(err, "int"), "string" and "array", and the error of an enumeration.
pub data Reason : Type 0 where
  bad_int bad_string bad_array bad_value : Reason

-- A leaf of the tree that `validate.Error` spells, and the names of the fields on its branch.
pub record FieldError : Type 0 where
  pub path : List String
  pub reason : Reason

-- The error of a `Validate`, by its leaves: none of them is nil.
abbrev pub Errors : Type 0
Errors = List FieldError

abbrev error : Reason → Errors
error reason = record { path = []; reason = reason } ∷ []

-- The failures that one field adds to those of its record.
unfoldable pub field : String → Errors → Errors
field name errors = map (λ e. record { path = name ∷ e.path; reason = e.reason }) errors

-- The failures of a record, from those of its fields.
unfoldable pub fields : List (String × Errors) → Errors
unfolding field
fields [] = []
fields ((name, errors) ∷ rest) = field name errors ++ fields rest

-- The loop over the elements of an array, from the index of the first.
unfoldable pub elements : {A : Type 0} → (A → Errors) → ℕ → List A → Errors
unfolding field
elements validate i [] = []
elements validate i (x ∷ xs) =
    field ("[" <> show_nat i <> "]") (validate x) ++ elements validate (i + 1) xs

-- A value that may not be set, or may be null.
unfoldable pub if_given : {A : Type 0} → (A → Errors) → Option A → Errors
if_given validate none = []
if_given validate (some a) = validate a

module _ (checks : Checks) where
  unfoldable pub int_errors : Option ℤ → Option ℤ → ℤ → Errors
  int_errors lo hi n = if checks.int_ok lo hi n then [] else error bad_int

  abbrev pub int_between : ℕ → ℕ → ℤ → Errors
  int_between lo hi = int_errors (some (pos lo)) (some (pos hi))

  unfoldable pub string_errors : Option ℕ → Option ℕ → Option String → String → Errors
  string_errors lo hi regex s = if checks.string_ok lo hi regex s then [] else error bad_string

  -- An array whose length is checked before its elements.
  unfoldable pub array_errors : {A : Type 0} → Option ℕ → Option ℕ → (A → Errors) → List A → Errors
  unfolding elements
  array_errors lo hi validate xs =
      let each = elements validate 0 xs in
      if checks.length_ok lo hi (length xs) then each else error bad_array

  -- An array that is not checked when it is nil, and has no least length. An empty one is checked, and
  -- passes (Checks.empty_ok).
  unfoldable pub optional_array : {A : Type 0} → ℕ → (A → Errors) → List A → Errors
  unfolding array_errors
  optional_array hi validate xs =
      let given = array_errors none (some hi) validate xs in if is_empty xs then [] else given

  abbrev pub name_regex : String
  name_regex = "^[a-zA-Z0-9_-]+$"

  abbrev pub ipv4_regex : String
  ipv4_regex = "^[0-9]{1,3}\\.[0-9]{1,3}\\.[0-9]{1,3}\\.[0-9]{1,3}$"

  -- The names of applications, clusters, groups and load balancers.
  abbrev pub name_errors : String → Errors
  name_errors = string_errors (some 1) (some 20) (some name_regex)

  -- The paths of service classes.
  abbrev pub class_errors : String → Errors
  class_errors = string_errors (some 1) (some 255) none

  -- IPv4.Validate
  unfoldable pub validate_ipv4 : String → Errors
  unfolding string_errors
  validate_ipv4 s = string_errors none none (some ipv4_regex) s

  -- IpRange.Validate
  abbrev pub ip_range_fields : IpRange → List (String × Errors)
  ip_range_fields r = ("start", validate_ipv4 r.start) ∷ ("end", validate_ipv4 r.end) ∷ []

  unfoldable pub validate_ip_range : IpRange → Errors
  unfolding fields validate_ipv4
  validate_ip_range r = fields (ip_range_fields r)

  -- The optional array nameServers, which has a least length. If it has no element, `empty` tells
  -- whether it is an empty array, and not nil.
  unfoldable pub name_servers_errors : Bool → List String → Errors
  unfolding array_errors validate_ipv4
  name_servers_errors empty xs =
      let given = array_errors (some 1) (some 3) validate_ipv4 xs in
      if is_empty xs && not empty then [] else given

  -- Port.Validate
  unfoldable pub validate_port : ℕ → Errors
  unfolding int_errors
  validate_port p = int_between 1 65535 (pos p)

  -- ApplicationVersionNumber.Validate
  unfoldable pub validate_version_number : ℤ → Errors
  unfolding int_errors
  validate_version_number n = int_errors (some (pos 1)) none n

  -- HealthCheck.Validate
  abbrev pub health_check_fields : HealthCheck → List (String × Errors)
  health_check_fields hc =
      ("path", string_errors none (some 200) none hc.path)
      ∷ ("intervalSeconds", int_between 3 60 hc.interval_seconds)
      ∷ ("timeoutSeconds", int_errors none (some (pos 60)) hc.timeout_seconds)
      ∷ []

  unfoldable pub validate_health_check : HealthCheck → Errors
  unfolding fields string_errors int_errors
  validate_health_check hc = fields (health_check_fields hc)

  -- ExposedPort.Validate
  abbrev pub exposed_port_fields : ExposedPort → List (String × Errors)
  exposed_port_fields p =
      ("targetPort", validate_port p.target_port)
      ∷ ("loadBalancerPort", if_given validate_port (nil_get p.load_balancer_port))
      ∷ ("host", optional_array 5 (λ h. []) p.host)
      ∷ ("healthCheck", if_given validate_health_check (nil_get p.health_check))
      ∷ []

  unfoldable pub validate_exposed_port : ExposedPort → Errors
  unfolding fields validate_port if_given optional_array validate_health_check
  validate_exposed_port p = fields (exposed_port_fields p)

  -- AutoScalingGroupNodeInterface.Validate
  abbrev pub asg_interface_fields : AutoScalingGroupNodeInterface → List (String × Errors)
  asg_interface_fields i =
      ("ipPool", optional_array 20 validate_ip_range i.ip_pool)
      ∷ ("netmaskLen", if_given (int_between 8 29) (opt_get i.netmask_len))
      ∷ []

  unfoldable pub validate_asg_interface : AutoScalingGroupNodeInterface → Errors
  unfolding fields optional_array validate_ip_range if_given int_errors
  validate_asg_interface i = fields (asg_interface_fields i)

  -- LoadBalancerInterface.Validate
  abbrev pub lb_interface_fields : LoadBalancerInterface → List (String × Errors)
  lb_interface_fields i =
      ("ipPool", optional_array 20 validate_ip_range i.ip_pool)
      ∷ ("netmaskLen", if_given (int_between 8 29) (opt_get i.netmask_len))
      ∷ ("vip", if_given (string_errors none none (some ipv4_regex)) (opt_get i.vip))
      ∷ []

  unfoldable pub validate_lb_interface : LoadBalancerInterface → Errors
  unfolding fields optional_array validate_ip_range if_given int_errors string_errors
  validate_lb_interface i = fields (lb_interface_fields i)

-- ScalingMode.Validate
unfoldable pub validate_scaling_mode : String → Errors
validate_scaling_mode mode = if (mode == "manual") || (mode == "cpu") then [] else error bad_value

-- CreateLoadBalancerPortProtocol.Validate and ReadLoadBalancerPortProtocol.Validate
unfoldable pub validate_protocol : String → Errors
validate_protocol p =
    if (p == "http") || (p == "https") || (p == "tcp") then [] else error bad_value
