-- ===== src/Mock/Service/Runs.antt =====
-- The calls of getLatestVersion, createApplication and updateApplication on the mock of
-- testutil/mock_server.go.
use Prim.Native.Nat.{◌<◌}
use apprun_dedicated_provisi.Base.{
  ℕ, ◌+◌, ◌^◌, ℤ, pos, Bool, true, false, some, List, [], ◌∷◌, ◌≡◌, ◌≢◌, refl, All-imp, ap, arith,
}
use apprun_dedicated_provisi.Result.{value, wrap_api_error}
use apprun_dedicated_provisi.Api.{
  Uuid, opt_unset, ReadApplicationVersionDetail, ApplicationVersionDeploymentStatus,
  CreateApplicationVersion,
}
use apprun_dedicated_provisi.Api.Validate.{if_given, field}
use apprun_dedicated_provisi.Api.Validate.Requests.{validate_create_version}
use apprun_dedicated_provisi.Api.Validate.Laws.{version_number_positive, elements-nil_iff}
use apprun_dedicated_provisi.Api.Validate.Responses.{validate_deployment_status}
use apprun_dedicated_provisi.Mock.Service.Readable.{nil-is_empty, is_empty-nil, status_read}
use apprun_dedicated_provisi.Platform.{
  Platform, Env, list_versions, get_version, create_version, update_application, pure, call,
}
use apprun_dedicated_provisi.Platform.Runs.{Runs, Runs-bind, Runs-on_error, Runs-call, after}
use apprun_dedicated_provisi.Provisioner.Listing.{highest, get_highest, get_latest_version}
use apprun_dedicated_provisi.Provisioner.Apply.{activation, activate_if}
use apprun_dedicated_provisi.Mock.Applications.{list_application_versions, get_application_version}
use apprun_dedicated_provisi.Mock.Service.{
  Setup, mock_platform, request_errors, response_errors, handle, serve-valid, reply, changed,
  seconds,
}
use apprun_dedicated_provisi.Mock.Service.Latest.{
  versions_listed, listing, highest_last, listing_given,
}
use apprun_dedicated_provisi.Mock.Service.Holds.{
  Counts, Holds, with_version, create_application_version_counts, updated,
  update_application_counts, updated-Holds, updated-Keeps, Keeps,
}

module _ {P : Platform} where
  Runs-get_highest :
      (id : Uuid) (xs : List ApplicationVersionDeploymentStatus) (n : ℤ)
      (d : ReadApplicationVersionDetail) (env : Env P)
      → xs ≢ []
      → highest (pos 0) xs ≡ n
      → P.serve (get_version id n) env.world ≡ (value d, env.world)
      → Runs (get_highest P id xs) env (some d) (after (get_version id n) env.world env)
  unfolding get_highest
  Runs-get_highest id [] n d env given top served = absurd (given refl)
  Runs-get_highest id (x ∷ xs) n d env given top served =
      rw (top, get_highest)
        (Runs-bind (call (get_version id n)) (λ detail. pure (some detail)) env _ _ d (some d)
          (Runs-call (get_version id n) env d env.world served) (unfold pure in refl))

module _ (setup : Setup) (fuel : ℕ) where
  abbrev pub mock : Platform
  mock = mock_platform setup fuel

  module _ (env : Env mock) (id : Uuid) (n : ℕ) (d : ReadApplicationVersionDetail)
      (h : Holds setup.checks env.world.server id n d) where
    handled_versions : handle setup (list_versions id (opt_unset (pos 0))) env.world ≡ (
      value (record {
        items = listing setup.range setup.shuffle env.world.server h.counts.well_formed id;
        next_cursor = opt_unset (pos 0);
      }),
      env.world,
    )
    unfolding handle list_application_versions
    handled_versions = rw (h.counts.found, list_application_versions, handle) refl

    versions_readable :
        response_errors setup (list_versions id (opt_unset (pos 0))) (record {
          items = listing setup.range setup.shuffle env.world.server h.counts.well_formed id;
          next_cursor = opt_unset (pos 0);
        })
        ≡ []
    unfolding response_errors if_given field
    versions_readable =
        rw
          ((elements-nil_iff (validate_deployment_status setup.checks) 0
              (listing setup.range setup.shuffle env.world.server h.counts.well_formed id)).1
            (All-imp _ _
              (listing setup.range setup.shuffle env.world.server h.counts.well_formed id)
              (λ s. nil-is_empty (validate_deployment_status setup.checks s))
              (versions_listed setup.range setup.shuffle env.world.server h.counts.well_formed id
                (validate_deployment_status setup.checks)
                (λ key v found.
                  is_empty-nil _
                    (status_read setup.checks v (h.counts.readable.versions key v found))))))
          refl

    served_versions : mock.serve (list_versions id (opt_unset (pos 0))) env.world ≡ (
      value (record {
        items = listing setup.range setup.shuffle env.world.server h.counts.well_formed id;
        next_cursor = opt_unset (pos 0);
      }),
      env.world,
    )
    unfolding request_errors if_given
    served_versions =
        serve-valid setup (list_versions id (opt_unset (pos 0))) env.world env.world _ refl
          versions_readable handled_versions

    handled_last : handle setup (get_version id (pos n)) env.world ≡ (value d, env.world)
    unfolding handle reply get_application_version
    handled_last = rw (h.last, get_application_version, handle) refl

    served_last : mock.serve (get_version id (pos n)) env.world ≡ (value d, env.world)
    unfolding request_errors response_errors field
    served_last =
        serve-valid setup (get_version id (pos n)) env.world env.world d
          (version_number_positive setup.checks setup.documented n (omega (arith, h.positive)))
          (rw
            (h.counts.readable.versions (record { application_id = id; version = pos n }) d h.last)
            refl)
          handled_last

    -- The environment after getLatestVersion.
    abbrev pub seen : Env mock
    seen =
        after (get_version id (pos n)) env.world
          (after (list_versions id (opt_unset (pos 0))) env.world env)

    pub Runs-get_latest_version : Runs (get_latest_version mock id) env (some d) seen
    unfolding get_latest_version
    Runs-get_latest_version =
        let all = listing setup.range setup.shuffle env.world.server h.counts.well_formed id in
        Runs-bind (call (list_versions id (opt_unset (pos 0)))) _ env _ seen _ (some d)
          (Runs-call (list_versions id (opt_unset (pos 0))) env _ env.world served_versions)
          (Runs-get_highest id all (pos n) d
            (after (list_versions id (opt_unset (pos 0))) env.world env)
            (listing_given setup.range setup.shuffle env.world.server h.counts.well_formed id n
              h.positive d h.counts.next h.last)
            (highest_last setup.range setup.shuffle env.world.server h.counts.well_formed id n
              h.positive d h.counts.next h.last)
            served_last)

  module _ (env : Env mock) (id : Uuid) (n : ℕ) (req : CreateApplicationVersion)
      (c : Counts setup.checks env.world.server id n) (positive : 0 < n) (fits : n + 1 < 2 ^ 31)
      (valid : validate_create_version setup.checks req ≡ []) where
    abbrev pub created : Env mock
    created =
        after (create_version id req)
          (record env.world { server = with_version (seconds env.world) req id n env.world.server })
          env

    served_created : mock.serve (create_version id req) env.world ≡ (
      value (pos n),
      record env.world { server = with_version (seconds env.world) req id n env.world.server },
    )
    unfolding request_errors response_errors field handle changed reply
    served_created =
        serve-valid setup (create_version id req) env.world _ (pos n) valid
          (rw (version_number_positive setup.checks setup.documented n (omega (arith, positive)))
            refl)
          (ap (changed setup env.world) (
            create_application_version_counts env.world.server (seconds env.world) req id n c
              positive fits))

    pub Runs-create_version : Runs (call (create_version id req)) env (pos n) created
    Runs-create_version = Runs-call (create_version id req) env (pos n) _ served_created

  module _ (env : Env mock) (cluster id : Uuid) (n : ℕ) (d : ReadApplicationVersionDetail)
      (h : Holds setup.checks env.world.server id n d) (version : ℤ) where
    abbrev activated : Env mock
    activated =
        after (update_application id (activation version))
          (record env.world { server = updated env.world.server (activation version) id n d h }) env

    served_updated :
        mock.serve (update_application id (activation version)) env.world
        ≡ (value tt, activated.world)
    unfolding request_errors response_errors field handle changed reply
    served_updated =
        serve-valid setup (update_application id (activation version)) env.world _ tt refl refl (
          ap (changed setup env.world)
            (update_application_counts env.world.server (activation version) id n d h))

    -- Activated or not, the application's last version stays.
    pub Runs-activate_if :
        (activate : Bool)
        → (env' : Env mock) × Runs (activate_if mock cluster activate id version) env tt env'
          × Holds setup.checks env'.world.server id n d
          × (env'.state ≡ env.state)
          × (env'.world.server.clusters ≡ env.world.server.clusters)
          × Keeps env.world.server env'.world.server id
    unfolding activate_if
    Runs-activate_if false = (env, unfold pure in refl, h, refl, refl, λ name place known. known)
    Runs-activate_if true = (
      activated,
      Runs-on_error (wrap_api_error "failed to activate version")
          (call (update_application id (activation version))) env activated tt
          (Runs-call (update_application id (activation version)) env tt activated.world
            served_updated),
      updated-Holds env.world.server (activation version) id n d h,
      refl,
      refl,
      updated-Keeps env.world.server (activation version) id n d h,
    )
