-- ===== src/Mock/Service/Plans.antt =====
-- CreatePlan of provisioner/sync.go on the mock of testutil/mock_server.go, for a configuration of one
-- application. The mock has no groups and no load balancers.
use mathlib.Core.List.Perm
use apprun_dedicated_provisi.Base.{
  ℕ, suc, String, Bool, false, some, List, [], ◌∷◌, ◌≡◌, refl, find, ◌==◌, string_eq, nat_eq,
}
use apprun_dedicated_provisi.Base.Dict.{Dict, RangeOrder, IsShuffle, index_by, index_onto}
use apprun_dedicated_provisi.Result.{wrapped, wrap_api_error}
use apprun_dedicated_provisi.Config.{ClusterConfig, ApplicationConfig}
use apprun_dedicated_provisi.Api.{
  ReadLoadBalancerDetail, Uuid, Opt, opt_to, opt_unset, ReadAutoScalingGroupDetail,
  ReadApplicationDetail,
}
use apprun_dedicated_provisi.Platform.{
  Platform, Env, Action, Page, Outcome, ok, ReadClusterSummary, list_clusters, list_asgs,
  list_applications, pure, call, on_error, ◌>>=◌,
}
use apprun_dedicated_provisi.Platform.Runs.{Runs, Runs-bind, Runs-on_error, Runs-call, after}
use apprun_dedicated_provisi.Provisioner.Listing.{
  follow, is_set, is_set_text, list_all_asgs, list_all_applications, resolve_from,
  resolve_cluster_id,
}
use apprun_dedicated_provisi.Provisioner.AsgPlan.{plan_asgs, plan_asg_changes}
use apprun_dedicated_provisi.Provisioner.LbPlan.{plan_lbs, skip_lbs, list_lbs_of, plan_lb_changes}
use apprun_dedicated_provisi.Provisioner.Plan.{
  PlannedAction, ExecutionPlan, application_key, plan_applications, create_plan,
}
use apprun_dedicated_provisi.Mock as Server
use apprun_dedicated_provisi.Mock.Applications as Handlers
use apprun_dedicated_provisi.Mock.{MockServer, MockError, list_auto_scaling_groups}
use apprun_dedicated_provisi.Base.{All-imp}
use apprun_dedicated_provisi.Api.Validate.{field}
use apprun_dedicated_provisi.Api.Validate.Laws.{elements-nil_iff}
use apprun_dedicated_provisi.Api.Validate.Responses.{validate_read_application}
use apprun_dedicated_provisi.Mock.Invariant.{WellFormed}
use apprun_dedicated_provisi.Mock.Service.Readable.{
  Readable, clusters_read, nil-is_empty, is_empty-nil,
}
use apprun_dedicated_provisi.Mock.Service.Listed.{applications_listed}
use apprun_dedicated_provisi.Mock.Service.{
  Setup, mock_platform, serve, serve-valid, checked, decoded, request_errors, response_errors,
  handle,
}

module _ {P : Platform} where
  -- A listing whose only page is the first.
  pub Runs-follow :
      {A C : Type 0} (f : ℕ) (fetch : Opt C → Action P (Page A C)) (more : Opt C → Bool)
      (cursor next : Opt C) (items : List A) (env env' : Env P)
      → Runs (fetch cursor) env (record { items = items; next_cursor = next }) env'
      → more next ≡ false
      → Runs (follow (suc f) fetch more cursor []) env items env'
  unfolding follow
  Runs-follow f fetch more cursor next items env env' p stops =
      Runs-bind (fetch cursor) _ env env' env' _ items p (rw stops (unfold pure in refl))

range-nil : (range : RangeOrder) → IsShuffle range → (A : Type 0) → range A [] ≡ []
range-nil range shuffle A = Perm.eq-nil (shuffle A [])

module _ (setup : Setup) (f : ℕ) where
  abbrev pub Paged : Platform
  Paged = mock_platform setup (suc f)

  -- The environment after a call that leaves the mock.
  abbrev pub asked : apprun_dedicated_provisi.Platform.Call → Env Paged → Env Paged
  asked c env = after c env.world env

  pub Runs-list_all_asgs :
      (env : Env Paged) (cluster : Uuid)
      → Runs (list_all_asgs Paged cluster) env [] (asked (list_asgs cluster (opt_unset 0)) env)
  unfolding list_all_asgs serve checked decoded request_errors response_errors handle
      list_auto_scaling_groups
  Runs-list_all_asgs env cluster =
      Runs-follow f _ is_set (opt_unset 0) (opt_unset 0) [] env _
        (Runs-on_error (wrap_api_error "failed to list auto scaling groups")
          (call (list_asgs cluster (opt_unset 0))) env _ _
          (Runs-call (list_asgs cluster (opt_unset 0)) env _ env.world refl))
        refl

  applications_answered :
      (env : Env Paged) (cluster : Uuid)
      → WellFormed env.world.server
      → Readable setup.checks env.world.server
      → response_errors setup (list_applications cluster (opt_unset "")) (record {
        items = Handlers.list_applications setup.range (opt_to cluster) env.world.server;
        next_cursor = opt_unset "";
      })
        ≡ []
  unfolding response_errors field
  applications_answered env cluster wf r =
      rw
        ((elements-nil_iff (validate_read_application setup.checks) 0 _).1 (
          All-imp _ _ (Handlers.list_applications setup.range (opt_to cluster) env.world.server)
            (λ a. nil-is_empty (validate_read_application setup.checks a))
            (applications_listed setup.range setup.shuffle env.world.server wf cluster
              (validate_read_application setup.checks)
              (λ id a found. is_empty-nil _ (r.applications id a found)))))
        refl

  pub Runs-list_all_applications :
      (env : Env Paged) (cluster : Uuid)
      → WellFormed env.world.server
      → Readable setup.checks env.world.server
      → Runs
          (list_all_applications Paged cluster)
          env
          (Handlers.list_applications setup.range (opt_to cluster) env.world.server)
          (asked (list_applications cluster (opt_unset "")) env)
  unfolding list_all_applications request_errors handle
  Runs-list_all_applications env cluster wf r =
      Runs-follow f _ is_set_text (opt_unset "") (opt_unset "") _ env _
        (Runs-call (list_applications cluster (opt_unset "")) env _ env.world (
          serve-valid setup (list_applications cluster (opt_unset "")) env.world env.world _ refl
            (applications_answered env cluster wf r) refl))
        refl

  pub Runs-resolve_cluster_id :
      (env : Env Paged) (name : String) (c : ReadClusterSummary)
      → Readable setup.checks env.world.server
      → find (λ s. s.name == name) (Server.list_clusters setup.range env.world.server) ≡ some c
      → Runs
          (resolve_cluster_id Paged name)
          env
          c.cluster_id
          (asked (list_clusters (opt_unset 0)) env)
  unfolding resolve_cluster_id resolve_from request_errors handle response_errors field
  Runs-resolve_cluster_id env name c r found =
      Runs-bind
        (on_error (wrap_api_error "failed to list clusters") (call (list_clusters (opt_unset 0)))) _
        env (asked (list_clusters (opt_unset 0)) env) _ _ c.cluster_id
        (Runs-on_error (wrap_api_error "failed to list clusters")
          (call (list_clusters (opt_unset 0))) env _ _
          (Runs-call (list_clusters (opt_unset 0)) env _ env.world (
            serve-valid setup (list_clusters (opt_unset 0)) env.world env.world _ refl
              (rw (clusters_read setup.checks setup.range setup.shuffle env.world.server r) refl)
              refl)))
        (rw found (unfold pure in refl))

  Runs-plan_asg_changes :
      (env : Env Paged) (cluster : Uuid)
      → Runs
          (plan_asg_changes Paged cluster [])
          env
          []
          (asked (list_asgs cluster (opt_unset 0)) env)
  unfolding plan_asg_changes plan_asgs index_by index_onto pure
  Runs-plan_asg_changes env cluster =
      Runs-bind (list_all_asgs Paged cluster) _ env (asked (list_asgs cluster (opt_unset 0)) env) _
        [] [] (Runs-list_all_asgs env cluster)
        (rw (range-nil setup.range setup.shuffle (String × ReadAutoScalingGroupDetail)) refl)

  Runs-plan_lb_changes :
      (env : Env Paged) (cluster : Uuid) → Runs (plan_lb_changes Paged cluster [] [] []) env [] env
  unfolding plan_lb_changes plan_lbs skip_lbs list_lbs_of pure
  Runs-plan_lb_changes env cluster =
      Runs-bind (list_lbs_of Paged cluster [] []) _ env env env [] [] refl (
        rw (range-nil setup.range setup.shuffle (String × Dict String ReadLoadBalancerDetail)) refl)

  -- A configuration of one application.
  abbrev pub config_of : String → ApplicationConfig → ClusterConfig
  config_of name app = record {
    cluster_name = name;
    auto_scaling_groups = [];
    load_balancers = [];
    applications = app ∷ [];
  }

  abbrev pub plan_of : String → Uuid → PlannedAction → ExecutionPlan
  plan_of name cluster action = record {
    cluster_name = name;
    cluster_id = cluster;
    asg_actions = [];
    lb_actions = [];
    actions = action ∷ [];
  }

  -- The environment in which the applications are planned.
  abbrev pub listed : Uuid → Env Paged → Env Paged
  listed cluster env = asked (list_applications cluster (opt_unset "")) (
      asked (list_asgs cluster (opt_unset 0))
        (asked (list_asgs cluster (opt_unset 0)) (asked (list_clusters (opt_unset 0)) env)))

  abbrev pub applications_in : Uuid → MockServer → Dict String ReadApplicationDetail
  applications_in cluster m =
      index_by application_key (Handlers.list_applications setup.range (opt_to cluster) m)

  pub Runs-create_plan :
      (env env' : Env Paged) (name : String) (app : ApplicationConfig) (c : ReadClusterSummary)
      (action : PlannedAction)
      → WellFormed env.world.server
      → Readable setup.checks env.world.server
      → find (λ s. s.name == name) (Server.list_clusters setup.range env.world.server) ≡ some c
      → Runs
          (plan_applications Paged (applications_in c.cluster_id env.world.server) (app ∷ []) [])
          (listed c.cluster_id env)
          (action ∷ [])
          env'
      → Runs (create_plan Paged (config_of name app)) env (plan_of name c.cluster_id action) env'
  unfolding create_plan pure
  Runs-create_plan env env' name app c action wf r found planned =
      let cluster = c.cluster_id in
      let env₁ = asked (list_clusters (opt_unset 0)) env in
      let env₂ = asked (list_asgs cluster (opt_unset 0)) env₁ in
      let env₃ = asked (list_asgs cluster (opt_unset 0)) env₂ in
      let env₄ = listed cluster env in
      Runs-bind (on_error (wrapped "failed to resolve cluster") (resolve_cluster_id Paged name)) _
        env env₁ env' cluster _
        (Runs-on_error (wrapped "failed to resolve cluster") (resolve_cluster_id Paged name) env
          env₁ cluster (Runs-resolve_cluster_id env name c r found))
        (Runs-bind (on_error (wrapped "failed to list ASGs") (list_all_asgs Paged cluster)) _ env₁
          env₂ env' [] _
          (Runs-on_error (wrapped "failed to list ASGs") (list_all_asgs Paged cluster) env₁ env₂ []
            (Runs-list_all_asgs env₁ cluster))
          (Runs-bind
            (on_error (wrapped "failed to plan ASG changes") (plan_asg_changes Paged cluster [])) _
            env₂ env₃ env' [] _
            (Runs-on_error (wrapped "failed to plan ASG changes")
              (plan_asg_changes Paged cluster []) env₂ env₃ [] (Runs-plan_asg_changes env₂ cluster))
            (Runs-bind
              (on_error (wrapped "failed to plan LB changes")
                (plan_lb_changes Paged cluster [] [] []))
              _ env₃ env₃ env' [] _
              (Runs-on_error (wrapped "failed to plan LB changes")
                (plan_lb_changes Paged cluster [] [] []) env₃ env₃ []
                (Runs-plan_lb_changes env₃ cluster))
              (Runs-bind
                (on_error (wrap_api_error "failed to list applications")
                  (list_all_applications Paged cluster))
                _ env₃ env₄ env' _ _
                (Runs-on_error (wrap_api_error "failed to list applications")
                  (list_all_applications Paged cluster) env₃ env₄ _
                  (Runs-list_all_applications env₃ cluster wf r))
                (Runs-bind _ _ env₄ env' env' (action ∷ []) _ planned refl)))))
