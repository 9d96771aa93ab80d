-- ===== src/Api/Validate/Responses.antt =====
-- api/oas_validators_gen.go: the checks of the responses, which the client's response decoders make
-- before a call returns.
use apprun_dedicated_provisi.Base.{Bool, String, List, pos, none, some, [], ◌∷◌}
use apprun_dedicated_provisi.Api.{
  opt_get, nil_get, ReadEnvironmentVariable, ReadApplicationDetail, ReadApplicationVersionDetail,
  ReadAutoScalingGroupDetail, ReadLoadBalancerDetail, ReadLoadBalancerSummary, ReadLoadBalancerPort,
  ReadClusterDetail, ApplicationVersionDeploymentStatus,
}
use apprun_dedicated_provisi.Platform.{ReadClusterSummary}
use apprun_dedicated_provisi.Api.Validate.{
  Checks, Errors, fields, elements, if_given, int_errors, int_between, string_errors, array_errors,
  optional_array, name_errors, class_errors, name_servers_errors, validate_exposed_port,
  validate_version_number, validate_asg_interface, validate_lb_interface, validate_scaling_mode,
  validate_protocol,
}

module _ (checks : Checks) where
  -- ReadEnvironmentVariable.Validate
  abbrev pub read_env_fields : ReadEnvironmentVariable → List (String × Errors)
  read_env_fields e =
      ("key", string_errors checks (some 1) (some 255) none e.key)
      ∷ ("value", if_given (string_errors checks none (some 4096) none) (nil_get e.value))
      ∷ []

  unfoldable pub validate_read_env : ReadEnvironmentVariable → Errors
  unfolding fields string_errors if_given
  validate_read_env e = fields (read_env_fields e)

  -- ReadApplicationDetail.Validate
  abbrev pub read_application_fields : ReadApplicationDetail → List (String × Errors)
  read_application_fields r = ("name", name_errors checks r.name) ∷ []

  unfoldable pub validate_read_application : ReadApplicationDetail → Errors
  unfolding fields string_errors
  validate_read_application r = fields (read_application_fields r)

  -- ApplicationVersionDeploymentStatus.Validate
  abbrev pub deployment_status_fields : ApplicationVersionDeploymentStatus → List (String × Errors)
  deployment_status_fields r =
      ("version", validate_version_number checks r.version)
      ∷ ("image", string_errors checks none (some 512) none r.image)
      ∷ []

  unfoldable pub validate_deployment_status : ApplicationVersionDeploymentStatus → Errors
  unfolding fields string_errors validate_version_number
  validate_deployment_status r = fields (deployment_status_fields r)

  -- ReadApplicationVersionDetail.Validate: the number of variables is not checked.
  abbrev pub read_version_fields : ReadApplicationVersionDetail → List (String × Errors)
  read_version_fields r =
      ("version", validate_version_number checks r.version)
      ∷ ("cpu", int_between checks 100 64000 r.cpu)
      ∷ ("memory", int_between checks 128 131072 r.memory)
      ∷ ("scalingMode", validate_scaling_mode r.scaling_mode)
      ∷ ("fixedScale", if_given (int_between checks 1 50) (opt_get r.fixed_scale))
      ∷ ("minScale", if_given (int_between checks 1 50) (opt_get r.min_scale))
      ∷ ("maxScale", if_given (int_between checks 1 50) (opt_get r.max_scale))
      ∷ ("scaleInThreshold", if_given (int_between checks 30 70) (opt_get r.scale_in_threshold))
      ∷ ("scaleOutThreshold", if_given (int_between checks 50 99) (opt_get r.scale_out_threshold))
      ∷ ("image", string_errors checks none (some 512) none r.image)
      ∷ ("cmd", optional_array checks 20 (λ c. []) r.cmd)
      ∷ (
        "registryUsername",
        if_given (string_errors checks none (some 255) none) (nil_get r.registry_username),
      )
      ∷ (
        "registryPassword",
        if_given (string_errors checks none (some 255) none) (nil_get r.registry_password),
      )
      ∷ (
        "exposedPorts",
        array_errors checks none (some 5) (validate_exposed_port checks) r.exposed_ports,
      )
      ∷ ("env", elements validate_read_env 0 r.env)
      ∷ []

  unfoldable pub validate_read_version : ReadApplicationVersionDetail → Errors
  unfolding fields elements int_errors string_errors array_errors optional_array if_given
      validate_version_number validate_scaling_mode validate_exposed_port validate_read_env
  validate_read_version r = fields (read_version_fields r)

  -- ReadAutoScalingGroupDetail.Validate: the Bool as in `name_servers_errors`.
  abbrev pub read_asg_fields : Bool → ReadAutoScalingGroupDetail → List (String × Errors)
  read_asg_fields empty r =
      ("name", name_errors checks r.name)
      ∷ ("nameServers", name_servers_errors checks empty r.name_servers)
      ∷ ("workerServiceClassPath", class_errors checks r.worker_service_class_path)
      ∷ ("minNodes", int_between checks 1 10 r.min_nodes)
      ∷ ("maxNodes", int_between checks 1 10 r.max_nodes)
      ∷ (
        "interfaces",
        array_errors checks (some 1) (some 5) (validate_asg_interface checks) r.interfaces,
      )
      ∷ []

  unfoldable pub validate_read_asg : Bool → ReadAutoScalingGroupDetail → Errors
  unfolding fields int_errors string_errors array_errors name_servers_errors validate_asg_interface
  validate_read_asg empty r = fields (read_asg_fields empty r)

  -- ReadLoadBalancerDetail.Validate: the Bool as in `name_servers_errors`.
  abbrev pub read_lb_fields : Bool → ReadLoadBalancerDetail → List (String × Errors)
  read_lb_fields empty r =
      ("name", name_errors checks r.name)
      ∷ ("serviceClassPath", class_errors checks r.service_class_path)
      ∷ ("nameServers", name_servers_errors checks empty r.name_servers)
      ∷ (
        "interfaces",
        array_errors checks (some 1) (some 5) (validate_lb_interface checks) r.interfaces,
      )
      ∷ []

  unfoldable pub validate_read_lb : Bool → ReadLoadBalancerDetail → Errors
  unfolding fields string_errors array_errors name_servers_errors validate_lb_interface
  validate_read_lb empty r = fields (read_lb_fields empty r)

  -- ReadLoadBalancerSummary.Validate: the Bool as in `name_servers_errors`.
  abbrev pub lb_summary_fields : Bool → ReadLoadBalancerSummary → List (String × Errors)
  lb_summary_fields empty r =
      ("name", name_errors checks r.name)
      ∷ ("serviceClassPath", class_errors checks r.service_class_path)
      ∷ ("nameServers", name_servers_errors checks empty r.name_servers)
      ∷ []

  unfoldable pub validate_lb_summary : Bool → ReadLoadBalancerSummary → Errors
  unfolding fields string_errors name_servers_errors
  validate_lb_summary empty r = fields (lb_summary_fields empty r)

  -- ReadClusterSummary.Validate: the names of clusters are longer here than where one is made.
  abbrev pub cluster_summary_fields : ReadClusterSummary → List (String × Errors)
  cluster_summary_fields r = ("name", string_errors checks (some 3) (some 20) none r.name) ∷ []

  unfoldable pub validate_cluster_summary : ReadClusterSummary → Errors
  unfolding fields string_errors
  validate_cluster_summary r = fields (cluster_summary_fields r)

  -- ReadLoadBalancerPort.Validate
  abbrev pub read_lb_port_fields : ReadLoadBalancerPort → List (String × Errors)
  read_lb_port_fields p =
      ("port", int_between checks 1 65535 (pos p.port))
      ∷ ("protocol", validate_protocol p.protocol)
      ∷ []

  unfoldable pub validate_read_lb_port : ReadLoadBalancerPort → Errors
  unfolding fields int_errors validate_protocol
  validate_read_lb_port p = fields (read_lb_port_fields p)

  -- ReadClusterDetail.Validate
  abbrev pub read_cluster_fields : ReadClusterDetail → List (String × Errors)
  read_cluster_fields r =
      ("name", name_errors checks r.name) ∷ ("ports", elements validate_read_lb_port 0 r.ports) ∷ []

  unfoldable pub validate_read_cluster : ReadClusterDetail → Errors
  unfolding fields elements string_errors validate_read_lb_port
  validate_read_cluster r = fields (read_cluster_fields r)
