-- ===== src/Api/Validate/Requests.antt =====
-- api/oas_validators_gen.go: the checks of the requests, which the service's request decoders make.
use apprun_dedicated_provisi.Base.{Bool, List, pos, String, none, some, [], ◌∷◌}
use apprun_dedicated_provisi.Api.{
  opt_get, nil_get, RegistryPasswordAction, new, keep, remove, unset, CreateEnvironmentVariable,
  CreateApplication, CreateApplicationVersion, CreateAutoScalingGroup, CreateLoadBalancer,
  CreateLoadBalancerPort, CreateCluster, UpdateCluster,
}
use apprun_dedicated_provisi.Api.Validate.{
  Checks, Errors, bad_value, fields, if_given, int_errors, int_between, string_errors, array_errors,
  optional_array, name_errors, class_errors, name_servers_errors, validate_exposed_port,
  validate_asg_interface, validate_lb_interface, validate_scaling_mode, validate_protocol,
}

-- RegistryPasswordAction.Validate
unfoldable pub validate_password_action : RegistryPasswordAction → Errors
validate_password_action keep = []
validate_password_action remove = []
validate_password_action new = []
validate_password_action unset = record { path = []; reason = bad_value } ∷ []

module _ (checks : Checks) where
  -- CreateEnvironmentVariable.Validate
  abbrev pub create_env_fields : CreateEnvironmentVariable → List (String × Errors)
  create_env_fields e =
      ("key", string_errors checks (some 1) (some 255) none e.key)
      ∷ ("value", if_given (string_errors checks none (some 4096) none) (opt_get e.value))
      ∷ []

  unfoldable pub validate_create_env : CreateEnvironmentVariable → Errors
  unfolding fields string_errors if_given
  validate_create_env e = fields (create_env_fields e)

  -- CreateApplication.Validate
  abbrev pub create_application_fields : CreateApplication → List (String × Errors)
  create_application_fields r = ("name", name_errors checks r.name) ∷ []

  unfoldable pub validate_create_application : CreateApplication → Errors
  unfolding fields string_errors
  validate_create_application r = fields (create_application_fields r)

  -- CreateApplicationVersion.Validate
  abbrev pub create_version_fields : CreateApplicationVersion → List (String × Errors)
  create_version_fields r =
      ("cpu", int_between checks 100 64000 r.cpu)
      ∷ ("memory", int_between checks 128 131072 r.memory)
      ∷ ("scalingMode", validate_scaling_mode r.scaling_mode)
      ∷ ("fixedScale", if_given (int_between checks 1 50) (opt_get r.fixed_scale))
      ∷ ("minScale", if_given (int_between checks 1 50) (opt_get r.min_scale))
      ∷ ("maxScale", if_given (int_between checks 1 50) (opt_get r.max_scale))
      ∷ ("scaleInThreshold", if_given (int_between checks 30 70) (opt_get r.scale_in_threshold))
      ∷ ("scaleOutThreshold", if_given (int_between checks 50 99) (opt_get r.scale_out_threshold))
      ∷ ("image", string_errors checks none (some 512) none r.image)
      ∷ ("cmd", optional_array checks 20 (λ c. []) r.cmd)
      ∷ (
        "registryUsername",
        if_given (string_errors checks none (some 255) none) (nil_get r.registry_username),
      )
      ∷ (
        "registryPassword",
        if_given (string_errors checks none (some 255) none) (nil_get r.registry_password),
      )
      ∷ ("registryPasswordAction", validate_password_action r.registry_password_action)
      ∷ (
        "exposedPorts",
        array_errors checks none (some 5) (validate_exposed_port checks) r.exposed_ports,
      )
      ∷ ("env", array_errors checks none (some 50) validate_create_env r.env)
      ∷ []

  unfoldable pub validate_create_version : CreateApplicationVersion → Errors
  unfolding fields int_errors string_errors array_errors optional_array if_given
      validate_scaling_mode validate_password_action validate_exposed_port validate_create_env
  validate_create_version r = fields (create_version_fields r)

  -- CreateAutoScalingGroup.Validate: the Bool as in `name_servers_errors`.
  abbrev pub create_asg_fields : Bool → CreateAutoScalingGroup → List (String × Errors)
  create_asg_fields empty r =
      ("name", name_errors checks r.name)
      ∷ ("nameServers", name_servers_errors checks empty r.name_servers)
      ∷ ("workerServiceClassPath", class_errors checks r.worker_service_class_path)
      ∷ ("minNodes", int_between checks 1 10 r.min_nodes)
      ∷ ("maxNodes", int_between checks 1 10 r.max_nodes)
      ∷ (
        "interfaces",
        array_errors checks (some 1) (some 5) (validate_asg_interface checks) r.interfaces,
      )
      ∷ []

  unfoldable pub validate_create_asg : Bool → CreateAutoScalingGroup → Errors
  unfolding fields int_errors string_errors array_errors name_servers_errors validate_asg_interface
  validate_create_asg empty r = fields (create_asg_fields empty r)

  -- CreateLoadBalancer.Validate: the Bool as in `name_servers_errors`.
  abbrev pub create_lb_fields : Bool → CreateLoadBalancer → List (String × Errors)
  create_lb_fields empty r =
      ("name", name_errors checks r.name)
      ∷ ("serviceClassPath", class_errors checks r.service_class_path)
      ∷ ("nameServers", name_servers_errors checks empty r.name_servers)
      ∷ (
        "interfaces",
        array_errors checks (some 1) (some 5) (validate_lb_interface checks) r.interfaces,
      )
      ∷ []

  unfoldable pub validate_create_lb : Bool → CreateLoadBalancer → Errors
  unfolding fields string_errors array_errors name_servers_errors validate_lb_interface
  validate_create_lb empty r = fields (create_lb_fields empty r)

  -- CreateLoadBalancerPort.Validate
  abbrev pub create_lb_port_fields : CreateLoadBalancerPort → List (String × Errors)
  create_lb_port_fields p =
      ("port", int_between checks 1 65535 (pos p.port))
      ∷ ("protocol", validate_protocol p.protocol)
      ∷ []

  unfoldable pub validate_create_lb_port : CreateLoadBalancerPort → Errors
  unfolding fields int_errors validate_protocol
  validate_create_lb_port p = fields (create_lb_port_fields p)

  abbrev pub email_regex : String
  email_regex = "^[a-zA-Z0-9._%+-]+@[a-zA-Z0-9.-]+\\.[a-zA-Z]{2,}$"

  -- CreateCluster.Validate
  abbrev pub create_cluster_fields : CreateCluster → List (String × Errors)
  create_cluster_fields r =
      ("name", name_errors checks r.name)
      ∷ (
        "letsEncryptEmail",
        if_given (string_errors checks none none (some email_regex)) (opt_get r.lets_encrypt_email),
      )
      ∷ ("ports", array_errors checks none (some 5) validate_create_lb_port r.ports)
      ∷ ("servicePrincipalID", string_errors checks (some 12) (some 12) none r.service_principal_id)
      ∷ []

  unfoldable pub validate_create_cluster : CreateCluster → Errors
  unfolding fields string_errors array_errors if_given validate_create_lb_port
  validate_create_cluster r = fields (create_cluster_fields r)

  -- UpdateCluster.Validate
  abbrev pub update_cluster_fields : UpdateCluster → List (String × Errors)
  update_cluster_fields r =
      (
        "letsEncryptEmail",
        if_given (string_errors checks none none (some email_regex)) (opt_get r.lets_encrypt_email),
      )
      ∷ []

  unfoldable pub validate_update_cluster : UpdateCluster → Errors
  unfolding fields string_errors if_given
  validate_update_cluster r = fields (update_cluster_fields r)
