-- ===== src/Mock/Service/Updates.antt =====
-- CreatePlan, Apply and again CreatePlan of provisioner/sync.go on the mock of
-- testutil/mock_server.go, for an application that the mock has.
use apprun_dedicated_provisi.Base.{
  ℕ, suc, ◌+◌, String, Bool, false, some, List, [], ◌∷◌, ◌≡◌, refl, sym, subst, ap, ◌∙◌, find, ◌==◌,
  string_eq, nat_eq,
}
use apprun_dedicated_provisi.Base.Dict.{Dict}
use apprun_dedicated_provisi.Config.{ApplicationConfig}
use apprun_dedicated_provisi.Api.{Uuid, ReadApplicationDetail, ReadApplicationVersionDetail}
use apprun_dedicated_provisi.Spec.Laws.{IsDiff}
use apprun_dedicated_provisi.Version.{compare_version}
use apprun_dedicated_provisi.Version.Secrets.{DistinctKeys}
use apprun_dedicated_provisi.Platform.{Platform, Env, ok, ReadClusterSummary, pure}
use apprun_dedicated_provisi.Platform.Runs.{Runs}
use apprun_dedicated_provisi.Provisioner.Plan.{PlannedAction, plan_applications, create_plan}
use apprun_dedicated_provisi.Provisioner.Apply.{apply_action}
use apprun_dedicated_provisi.Mock as Server
use apprun_dedicated_provisi.Mock.{MockServer, MockError, any_value}
use apprun_dedicated_provisi.Api.Validate.Requests.{validate_create_version}
use apprun_dedicated_provisi.Version.Request.{build_create_version_request_with_base}
use apprun_dedicated_provisi.Mock.Service.{Setup}
use apprun_dedicated_provisi.Mock.Service.Holds.{Holds, Named}
use apprun_dedicated_provisi.Mock.Service.Settles.{unchanged}
use apprun_dedicated_provisi.Mock.Service.Plans.{plan_of, listed, applications_in, Runs-create_plan}
use apprun_dedicated_provisi.Mock.Service.Pipeline.{applying}
use apprun_dedicated_provisi.Base.{◌<◌, ◌^◌, ◌⊎◌, inl, inr, ◌≢◌}
use apprun_dedicated_provisi.Version.Normal.{Covers}
use apprun_dedicated_provisi.Provisioner.Plan.{planned}
use apprun_dedicated_provisi.Mock.Service.Settles.{update_of, update_action-Runs}
use apprun_dedicated_provisi.Mock.Service.Pipeline.{planned_listed, found_by_name}
use apprun_dedicated_provisi.Mock.Service.Provisions.{
  config, provision, P, quiet_plan, Applied, provisioned,
}

List-cases : {A : Type 0} (xs : List A) → (xs ≡ []) ⊎ ((x : A) × (rest : List A) × (xs ≡ x ∷ rest))
List-cases [] = inl refl
List-cases (x ∷ rest) = inr (x, rest, refl)

module _ (setup : Setup) (f : ℕ) where
  abbrev Mock : Platform
  Mock = P setup f

  module _ (env : Env Mock) (path : String) (activate : Bool) (name : String)
      (app : ApplicationConfig) (c : ReadClusterSummary)
      (found : find (λ s. s.name == name) (Server.list_clusters setup.range env.world.server)
        ≡ some c)
      (id : Uuid) (n : ℕ) (base : ReadApplicationVersionDetail)
      (h : Holds setup.checks env.world.server id n base)
      (named : Named env.world.server.applications id app.name c.cluster_id) where
    abbrev cluster : Uuid
    cluster = c.cluster_id

    abbrev known : Env Mock → Dict String ReadApplicationDetail
    known env = applications_in setup f cluster env.world.server

    abbrev taking : Env Mock → Env Mock
    taking = applying setup f cluster

    abbrev start : Env Mock
    start = listed setup f cluster env

    abbrev lines : List String
    lines = compare_version setup.diff env.state app.name base app.spec

    first_plan :
        (env₀ : Env Mock) (action : PlannedAction)
        → planned app.name lines ≡ action
        → Runs
            (plan_applications Mock (known env) (app ∷ []) [])
            start
            (planned app.name lines ∷ [])
            env₀
        → Runs
            (create_plan Mock (config setup f name app))
            env
            (plan_of setup f name cluster action)
            env₀
    first_plan env₀ action same run =
        Runs-create_plan setup f env env₀ name app c action h.counts.well_formed h.counts.readable
          found
          (subst (λ a. Runs (plan_applications Mock (known env) (app ∷ []) []) start (a ∷ []) env₀)
            same run)

    -- No action is taken on an application that is as configured.
    unchanged-Applied :
        (env₀ : Env Mock)
        → env₀.world ≡ env.world
        → env₀.state ≡ env.state
        → compare_version setup.diff env.state app.name base app.spec ≡ []
        → Runs
            (apply_action Mock cluster activate (known env₀) (unchanged app.name) app false)
            (taking env₀)
            false
            (taking env₀)
          × Applied setup f env (taking env₀) id app cluster
    unfolding apply_action pure
    unchanged-Applied env₀ world state same = (
      refl,
      record {
        number = n;
        last = base;
        held = subst (λ w. Holds setup.checks w.server id n base) (sym world) h;
        same =
            subst (λ s. compare_version setup.diff s app.name base app.spec ≡ []) (sym state) same;
        clusters = ap (λ w. w.server.clusters) world;
        named = subst (λ w. Named w.server.applications id app.name cluster) (sym world) named;
      },
    )

    module _ (fits : n + 2 < 2 ^ 31) (is_diff : IsDiff setup.diff)
        (valid : validate_create_version setup.checks
            (build_create_version_request_with_base app.spec (some base))
          ≡ [])
        (covers : Covers app.spec (some base)) (image : app.spec.image ≢ "")
        (distinct : DistinctKeys app.spec.env) where
      update-Applied :
          (env₀ : Env Mock) (changes : List String)
          → env₀.world ≡ env.world
          → (env₁ : Env Mock) × (modified : Bool) × (last_id : Uuid) × Runs
              (apply_action Mock cluster activate
                (known env₀)
                (update_of app.name changes)
                app
                false)
              (taking env₀)
              modified
              env₁
            × Applied setup f env env₁ last_id app cluster
      update-Applied env₀ changes world =
          let held = subst (λ w. Holds setup.checks w.server id n base) (sym world) h in
          let there =
            subst (λ w. Named w.server.applications id app.name cluster) (sym world) named in
          let (b, listed_b, own) = found_by_name setup f env₀ app cluster id n base held there in
          let held_b : Holds setup.checks env₀.world.server b.application_id n base =
            subst (λ i. Holds setup.checks env₀.world.server i n base) (sym own) held in
          let (env₁, run, last, same, clusters, keeps) =
            update_action-Runs setup (suc f) (taking env₀) cluster activate b app n base held_b fits
              valid is_diff (known env₀) changes false listed_b covers image distinct in
          (
            env₁,
            _,
            b.application_id,
            run,
            record {
              number = n + 1;
              last = _;
              held = last;
              same = same;
              clusters = clusters ∙ ap (λ w. w.server.clusters) world;
              named = keeps app.name cluster (
                  subst (λ i. Named env₀.world.server.applications i app.name cluster) (sym own)
                    there);
            },
          )

      -- Let `diff` report no difference where there is none, the platform have fuel for a page,
      -- and the mock be well formed, as each one is that requests lead to, hold only data that
      -- the client can read, list the cluster under the configured name, and have the configured
      -- application in it with a last version, of a number that an int32 can count on from. Let
      -- the configuration have no group and no load balancer, and state for its application
      -- every setting that this version has, an image, ports that fit a uint16, and no variable
      -- twice, and let the request that is built of it on this version pass the checks that the
      -- generated decoders make of it. Then to plan, to apply that plan, activated or not, and
      -- to plan again succeeds, and the second plan has nothing to do.
      pub provision-update :
          (provision Mock path activate (config setup f name app) env).0
          ≡ ok (quiet_plan setup f name cluster app.name)
      unfolding planned
      provision-update =
          let (env₀, run₀, world, state) =
            planned_listed setup f start app cluster id n base h named in
          let held : Holds setup.checks env₀.world.server id n base =
            subst (λ w. Holds setup.checks w.server id n base) (sym world) h in
          let wf = held.counts.well_formed in
          let r = held.counts.readable in
          elim (List-cases lines) [
            | inl none_found ↦
                let (run, a) = unchanged-Applied env₀ world state none_found in
                provisioned setup f env path activate name app c found env₀ (taking env₀) id
                  (unchanged app.name) false wf r refl
                  (first_plan env₀ (unchanged app.name) (ap (planned app.name) none_found) run₀) run
                  a
            | inr (line, rest, some_found) ↦
                let (env₁, modified, last_id, run, a) = update-Applied env₀ (line ∷ rest) world in
                provisioned setup f env path activate name app c found env₀ env₁ last_id
                  (update_of app.name (line ∷ rest)) modified wf r refl
                  (first_plan env₀ (update_of app.name (line ∷ rest))
                    (ap (planned app.name) some_found) run₀)
                  run a
          ]
