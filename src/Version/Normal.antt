-- ===== src/Version/Normal.antt =====
-- A version made from a request has the normal form of the configuration, if the configuration
-- leaves nothing to inherit.
use apprun_dedicated_provisi.Base.{
  ◌<◌, ℤ, pos, negsuc, String, false, Option, none, some, List, [], ◌∷◌, map, ◌≡◌, ◌≢◌, ◌⊎◌, inl,
  inr, refl, ap, ap₂, arith, All, string_eq, int_eq, if◌then◌else◌, Option-cases, ◌∙◌,
}
use apprun_dedicated_provisi.Config.{ApplicationSpec, ExposedPortConfig}
use apprun_dedicated_provisi.Config.Validate.{is_nil}
use apprun_dedicated_provisi.Api.{
  Opt, nil_null, nil_to, opt_get, ExposedPort, CreateApplicationVersion,
  ReadApplicationVersionDetail,
}
use apprun_dedicated_provisi.Base.Text.{join}
use apprun_dedicated_provisi.Spec.{
  normalize_from_api, normalize_from_config, normalize_api_port, normalize_config_port, sort_ports,
  int_port,
}
use apprun_dedicated_provisi.Version.Request.{
  Base, build_create_version_request_with_base, api_port, api_env, to_port, scale_or, base_or,
}

-- The version has the settings of the request. Of the variables see `Env`.
pub record IsVersionOf (req : CreateApplicationVersion) (v : ReadApplicationVersionDetail)
    : Type 0 where
  pub cpu : v.cpu ≡ req.cpu
  pub memory : v.memory ≡ req.memory
  pub scaling_mode : v.scaling_mode ≡ req.scaling_mode
  pub fixed_scale : v.fixed_scale ≡ req.fixed_scale
  pub min_scale : v.min_scale ≡ req.min_scale
  pub max_scale : v.max_scale ≡ req.max_scale
  pub scale_in_threshold : v.scale_in_threshold ≡ req.scale_in_threshold
  pub scale_out_threshold : v.scale_out_threshold ≡ req.scale_out_threshold
  pub image : v.image ≡ req.image
  pub cmd : v.cmd ≡ req.cmd
  pub registry_username : v.registry_username ≡ req.registry_username
  pub exposed_ports : v.exposed_ports ≡ req.exposed_ports

-- A number of the configuration that a uint16 can hold.
abbrev pub IsPort : ℤ → Type 0
IsPort (pos n) = n < 65536
IsPort (negsuc n) = ⊥

abbrev pub IsPortOrNil : Option ℤ → Type 0
IsPortOrNil none = Unit
IsPortOrNil (some p) = IsPort p

abbrev pub HasPorts : ExposedPortConfig → Type 0
HasPorts p = IsPort p.target_port × IsPortOrNil p.load_balancer_port

-- A scaling parameter of the base that the configuration leaves out is not set.
abbrev pub ScaleCovered : Option ℤ → (ReadApplicationVersionDetail → Opt ℤ) → Base → Type 0
ScaleCovered (some v) field base = Unit
ScaleCovered none field none = Unit
ScaleCovered none field (some b) = (field b).set ≡ false

-- The configuration states every setting that the base version has, so that nothing is inherited
-- but, where asked for, the image.
pub record Covers (v : ApplicationSpec) (base : Base) : Type 0 where
  pub cpu : v.cpu ≢ pos 0
  pub memory : v.memory ≢ pos 0
  pub scaling_mode : v.scaling_mode ≢ ""
  pub fixed_scale : ScaleCovered v.fixed_scale (λ b. b.fixed_scale) base
  pub min_scale : ScaleCovered v.min_scale (λ b. b.min_scale) base
  pub max_scale : ScaleCovered v.max_scale (λ b. b.max_scale) base
  pub scale_in_threshold : ScaleCovered v.scale_in_threshold (λ b. b.scale_in_threshold) base
  pub scale_out_threshold : ScaleCovered v.scale_out_threshold (λ b. b.scale_out_threshold) base
  pub cmd : (v.cmd ≢ []) ⊎ (base_or [] (λ b. b.cmd) base ≡ [])
  pub registry_username :
      (is_nil v.registry_username ≡ false) ⊎ (base_or "" (λ b. b.registry_username.value) base ≡ "")
  pub exposed_ports : v.exposed_ports ≢ []
  pub env : (v.env ≢ []) ⊎ (base_or [] (λ b. b.env) base ≡ [])
  pub ports : All HasPorts v.exposed_ports

scale-Covered :
    (v : Option ℤ) (field : ReadApplicationVersionDetail → Opt ℤ) (base : Base)
    → ScaleCovered v field base
    → opt_get (scale_or v field base) ≡ v
scale-Covered (some v) field base h = refl
scale-Covered none field none h = refl
scale-Covered none field (some b) h = ground arith

to_port_id : (p : ℤ) → IsPort p → pos (to_port p) ≡ p
unfolding to_port
to_port_id (pos n) h = ap pos (omega arith)
to_port_id (negsuc n) h = absurd h

to_port_nil :
    (lb : Option ℤ)
    → IsPortOrNil lb
    → int_port (elim lb [ none ↦ nil_null 0 | some p ↦ nil_to (to_port p) ]) ≡ lb
to_port_nil none h = refl
to_port_nil (some p) h = ap some (to_port_id p h)

normalize_api_port-api_port :
    (p : ExposedPortConfig) → HasPorts p → normalize_api_port (api_port p) ≡ normalize_config_port p
unfolding normalize_api_port normalize_config_port api_port
normalize_api_port-api_port p h = elim (Option-cases p.health_check) [
  | inl e ↦ ground (arith, to_port_id p.target_port h.0, to_port_nil p.load_balancer_port h.1)
  | inr (hc, e) ↦ ground (arith, to_port_id p.target_port h.0, to_port_nil p.load_balancer_port h.1)
]

map-normalize_api_port :
    (ps : List ExposedPortConfig)
    → All HasPorts ps
    → map normalize_api_port (map api_port ps) ≡ map normalize_config_port ps
map-normalize_api_port [] h = refl
map-normalize_api_port (p ∷ ps) h =
    ap₂ ◌∷◌ (normalize_api_port-api_port p h.0) (map-normalize_api_port ps h.1)

module _ (v : ApplicationSpec) (base : Base) (c : Covers v base) where
  abbrev req : CreateApplicationVersion
  req = build_create_version_request_with_base v base

  req_cmd : req.cmd ≡ v.cmd
  unfolding build_create_version_request_with_base
  req_cmd = ground (arith, c.cmd)

  req_ports : req.exposed_ports ≡ map api_port v.exposed_ports
  unfolding build_create_version_request_with_base
  req_ports = ground (arith, c.exposed_ports)

  req_user :
      (if req.registry_username.null then "" else req.registry_username.value)
      ≡ (elim v.registry_username [ none ↦ "" | some u ↦ u ])
  unfolding build_create_version_request_with_base
  req_user = elim (Option-cases base) [
    | inl nothing ↦ ground (arith, c.registry_username)
    | inr (b, some_base) ↦
        ground (arith, c.registry_username, string_eq.beq_iff b.registry_username.value "")
  ]

  req_scales :
      (opt_get req.fixed_scale ≡ v.fixed_scale)
      × (opt_get req.min_scale ≡ v.min_scale)
      × (opt_get req.max_scale ≡ v.max_scale)
      × (opt_get req.scale_in_threshold ≡ v.scale_in_threshold)
      × (opt_get req.scale_out_threshold ≡ v.scale_out_threshold)
  unfolding build_create_version_request_with_base
  req_scales = (
    scale-Covered v.fixed_scale _ base c.fixed_scale,
    scale-Covered v.min_scale _ base c.min_scale,
    scale-Covered v.max_scale _ base c.max_scale,
    scale-Covered v.scale_in_threshold _ base c.scale_in_threshold,
    scale-Covered v.scale_out_threshold _ base c.scale_out_threshold,
  )

  req_sizes : (req.cpu ≡ v.cpu) × (req.memory ≡ v.memory) × (req.scaling_mode ≡ v.scaling_mode)
  unfolding build_create_version_request_with_base
  req_sizes = (
    ground (arith, int_eq.beq_iff v.cpu (pos 0), c.cpu),
    ground (arith, int_eq.beq_iff v.memory (pos 0), c.memory),
    ground (arith, string_eq.beq_iff v.scaling_mode "", c.scaling_mode),
  )

  -- All but the image is that of the configuration.
  pub normalize-IsVersionOf :
      (d : ReadApplicationVersionDetail)
      → IsVersionOf req d
      → normalize_from_api d ≡ record (normalize_from_config v) { image = d.image }
  unfolding normalize_from_api normalize_from_config
  normalize-IsVersionOf d m = ground (
    arith,
    m.cpu,
    req_sizes,
    req_scales,
    m.registry_username,
    req_user,
    ap (λ (cmd : List String). join cmd " ") (m.cmd ∙ req_cmd),
    ap (λ (ps : List ExposedPort). sort_ports (map normalize_api_port ps))
        (m.exposed_ports ∙ req_ports),
    ap sort_ports (map-normalize_api_port v.exposed_ports c.ports),
  )

  -- The image is that of the configuration unless it is inherited.
  pub req_image : v.inherit_image ≡ false → v.image ≢ "" → req.image ≡ v.image
  unfolding build_create_version_request_with_base
  req_image h k = ground (arith, string_eq.beq_iff v.image "")

  pub req_env : req.env ≡ map api_env v.env
  unfolding build_create_version_request_with_base
  req_env = elim (Option-cases base) [
    | inl nothing ↦ ground (arith, c.env)
    | inr (b, some_base) ↦ ground (arith, c.env)
  ]
