-- ===== src/Mock/Service/Holds.antt =====
-- The handlers of testutil/mock_server.go that a creation and an update of an application call, each
-- on a mock for which it succeeds.
use Prim.Native.Nat.{◌<◌}
use apprun_dedicated_provisi.Base.{
  sym, Bool-cases, inl, inr, ℕ, ◌+◌, ◌^◌, if◌then◌else◌, not, ℤ, pos, String, subst, ◌&&◌, ◌==◌,
  false, some, none, ◌≡◌, refl, ap, string_eq, nat_eq, beq_refl, ◌∙◌, [], arith,
}
use apprun_dedicated_provisi.Base.Dict.{Dict, lookup, insert, lookup-insert}
use apprun_dedicated_provisi.Api.{
  nil_to, nil_null, Uuid, ReadClusterDetail, CreateApplication, ReadApplicationDetail,
  CreateApplicationVersion, ReadApplicationVersionDetail, UpdateApplication,
}
use apprun_dedicated_provisi.Mock.{MockServer, VersionKey, key_eq, Answer, answer, any_value}
use apprun_dedicated_provisi.Mock.Applications.{
  desired_count_of, version_detail, create_application, create_application_version,
  update_application,
}
use apprun_dedicated_provisi.Api.Validate.{Checks}
use apprun_dedicated_provisi.Api.Validate.Laws.{AreChecks}
use apprun_dedicated_provisi.Api.Validate.Requests.{
  validate_create_application, validate_create_version,
}
use apprun_dedicated_provisi.Api.Validate.Responses.{
  validate_read_application, validate_read_version,
}
use apprun_dedicated_provisi.Mock.Service.Readable.{Readable, each_inserted, version_read}
use apprun_dedicated_provisi.Mock.Invariant.{WellFormed, HasRoom}
use apprun_dedicated_provisi.Mock.Preservation.{
  SameName, desired_count_of-SameName, incremented_fits, create_application-WellFormed,
  create_application_version-WellFormed, update_application-WellFormed,
}

-- The client can read what the mock has. It has the application, and counts its next version as `n`.
pub record Counts (checks : Checks) (m : MockServer) (id : Uuid) (n : ℕ) : Type 0 where
  pub well_formed : WellFormed m
  pub readable : Readable checks m
  pub app : ReadApplicationDetail
  pub found : lookup id m.applications ≡ some app
  pub next : lookup id m.next_version_number ≡ some (pos n)

-- The last version of the application is `d`, under the number `n`.
pub record Holds (checks : Checks) (m : MockServer) (id : Uuid) (n : ℕ)
    (d : ReadApplicationVersionDetail) : Type 0 where
  pub counts : Counts checks m id (n + 1)
  pub positive : 0 < n
  pub last :
      lookup (record { application_id = id; version = pos n }) m.application_versions ≡ some d

-- The mock with the application's version `n`.
abbrev pub with_version : ℤ → CreateApplicationVersion → Uuid → ℕ → MockServer → MockServer
with_version seconds req id n m = record m {
  next_version_number = insert id (pos (n + 1)) m.next_version_number;
  application_versions =
      insert (record { application_id = id; version = pos n }) (version_detail (pos n) seconds req)
        m.application_versions;
}

module _ {checks : Checks} (m : MockServer) (seconds : ℤ) (req : CreateApplicationVersion)
    (id : Uuid) (n : ℕ) (c : Counts checks m id n) (positive : 0 < n) (fits : n + 1 < 2 ^ 31) where
  pub create_application_version_counts :
      create_application_version seconds req id m
      ≡ (answer (pos n), with_version seconds req id n m)
  unfolding create_application_version
  create_application_version_counts =
      rw (c.found, c.next, incremented_fits n fits, create_application_version) refl

  pub with_version-Holds :
      AreChecks checks
      → validate_create_version checks req ≡ []
      → Holds checks (with_version seconds req id n m) id n (version_detail (pos n) seconds req)
  with_version-Holds laws valid =
      let key : VersionKey = record { application_id = id; version = pos n } in
      let room : HasRoom m id = record { number = n; next = rw c.next refl; fits = fits } in
      record {
        counts = record {
          well_formed =
              subst WellFormed
                (ap (λ (r : Answer ℤ × MockServer). r.1) create_application_version_counts)
                (create_application_version-WellFormed m seconds req id c.well_formed room);
          readable = record {
            clusters = c.readable.clusters;
            applications = c.readable.applications;
            versions =
                each_inserted (λ v. validate_read_version checks v ≡ []) m.application_versions key
                  (version_detail (pos n) seconds req)
                  (version_read checks laws n seconds req (omega (arith, positive)) valid)
                  c.readable.versions;
          };
          app = c.app;
          found = c.found;
          next = lookup-insert id id (pos (n + 1)) m.next_version_number ∙ rw (beq_refl id) refl;
        };
        positive = positive;
        last =
            lookup-insert key key (version_detail (pos n) seconds req) m.application_versions
            ∙ rw (beq_refl key) refl;
      }

-- The application has the name and is in the cluster.
pub record Named (apps : Dict Uuid ReadApplicationDetail) (id : Uuid) (name : String)
    (cluster : Uuid) : Type 0 where
  pub app : ReadApplicationDetail
  pub found : lookup id apps ≡ some app
  pub named : app.name ≡ name
  pub placed : app.cluster_id ≡ cluster

-- No name and no cluster of the application is changed.
abbrev pub Keeps : MockServer → MockServer → Uuid → Type 0
Keeps m m' id =
    (name : String) (cluster : Uuid)
    → Named m.applications id name cluster
    → Named m'.applications id name cluster

some_injective : {A : Type 0} {a b : A} → some a ≡ some b → a ≡ b
some_injective h = cc

-- What an update of the application `app` makes of it.
abbrev updated_of :
    UpdateApplication → Uuid → ReadApplicationDetail → MockServer → ReadApplicationDetail
updated_of req id app m =
    let active = record app { active_version = req.active_version } in
    if not req.active_version.null
    then desired_count_of
        (lookup (record { application_id = id; version = req.active_version.value })
          m.application_versions)
        active
    else record active { desired_count = nil_null (pos 0) }

abbrev pub with_app : Uuid → ReadApplicationDetail → MockServer → MockServer
with_app id app m = record m { applications = insert id app m.applications }

module _ {checks : Checks} (m : MockServer) (req : UpdateApplication) (id : Uuid) (n : ℕ)
    (d : ReadApplicationVersionDetail) (h : Holds checks m id n d) where
  abbrev pub updated : MockServer
  updated = with_app id (updated_of req id h.counts.app m) m

  pub update_application_counts : update_application req id m ≡ (answer tt, updated)
  unfolding update_application
  update_application_counts = rw (h.counts.found, update_application) refl

  updated_of-SameName : SameName h.counts.app (updated_of req id h.counts.app m)
  updated_of-SameName = elim (Bool-cases req.active_version.null) [
    | inl null ↦ rw null (record { id = refl; cluster = refl; name = refl })
    | inr set ↦ rw set (desired_count_of-SameName _ (nil_to req.active_version.value) h.counts.app)
  ]

  updated_of-read : validate_read_application checks (updated_of req id h.counts.app m) ≡ []
  unfolding validate_read_application
  updated_of-read =
      subst (λ name. validate_read_application checks (record h.counts.app { name = name }) ≡ [])
        (sym updated_of-SameName.name)
        (h.counts.readable.applications id h.counts.app h.counts.found)

  -- An update of the application leaves its versions.
  pub updated-Holds : Holds checks updated id n d
  updated-Holds = record {
    counts = record {
      well_formed =
          subst WellFormed
            (ap (λ (r : Answer (Unit {0}) × MockServer). r.1) update_application_counts)
            (update_application-WellFormed m req id h.counts.well_formed);
      readable = record {
        clusters = h.counts.readable.clusters;
        applications =
            each_inserted (λ a. validate_read_application checks a ≡ []) m.applications id
              (updated_of req id h.counts.app m) updated_of-read h.counts.readable.applications;
        versions = h.counts.readable.versions;
      };
      app = updated_of req id h.counts.app m;
      found = lookup-insert id id _ m.applications ∙ rw (beq_refl id) refl;
      next = h.counts.next;
    };
    positive = h.positive;
    last = h.last;
  }

  pub updated-Keeps : Keeps m updated id
  updated-Keeps name cluster known =
      let same : known.app ≡ h.counts.app = some_injective (sym known.found ∙ h.counts.found) in
      record {
        app = updated_of req id h.counts.app m;
        found = lookup-insert id id _ m.applications ∙ rw (beq_refl id) refl;
        named =
            updated_of-SameName.name
            ∙ sym (ap (λ (a : ReadApplicationDetail). a.name) same)
            ∙ known.named;
        placed =
            updated_of-SameName.cluster
            ∙ sym (ap (λ (a : ReadApplicationDetail). a.cluster_id) same)
            ∙ known.placed;
      }

-- A new application of the cluster.
abbrev pub new_app : Uuid → String → Uuid → ReadClusterDetail → ReadApplicationDetail
new_app id name cluster c = record {
  application_id = id;
  name = name;
  cluster_id = cluster;
  cluster_name = c.name;
  active_version = nil_null (pos 0);
  desired_count = nil_null (pos 0);
  scaling_cooldown_seconds = pos 60;
}

abbrev pub request_for : String → Uuid → CreateApplication
request_for name cluster = record { name = name; cluster_id = cluster }

module _ (m : MockServer) (id cluster : Uuid) (name : String) (c : ReadClusterDetail)
    (wf : WellFormed m) (found : lookup cluster m.clusters ≡ some c)
    (free : any_value (λ app. app.cluster_id == cluster && app.name == name) m.applications ≡ false)
    (fresh : lookup id m.next_version_number ≡ none) where
  abbrev pub started : MockServer
  started = record (with_app id (new_app id name cluster c) m) {
    next_version_number = insert id (pos 1) m.next_version_number;
  }

  pub create_application_counts :
      create_application id (request_for name cluster) m ≡ (answer id, started)
  unfolding create_application
  create_application_counts = rw (found, free, create_application) refl

  new_app-read :
      (checks : Checks)
      → validate_create_application checks (request_for name cluster) ≡ []
      → validate_read_application checks (new_app id name cluster c) ≡ []
  unfolding validate_create_application validate_read_application
  new_app-read checks named = named

  pub started-Counts :
      (checks : Checks)
      → Readable checks m
      → validate_create_application checks (request_for name cluster) ≡ []
      → Counts checks started id 1
  started-Counts checks r named = record {
    readable = record {
      clusters = r.clusters;
      applications =
          each_inserted (λ a. validate_read_application checks a ≡ []) m.applications id
            (new_app id name cluster c) (new_app-read checks named) r.applications;
      versions = r.versions;
    };
    well_formed =
        subst WellFormed (ap (λ (r : Answer Uuid × MockServer). r.1) create_application_counts)
          (create_application-WellFormed m id (request_for name cluster) wf fresh);
    app = new_app id name cluster c;
    found = lookup-insert id id (new_app id name cluster c) m.applications ∙ rw (beq_refl id) refl;
    next = lookup-insert id id (pos 1) m.next_version_number ∙ rw (beq_refl id) refl;
  }

  pub started-Named : Named started.applications id name cluster
  started-Named = record {
    app = new_app id name cluster c;
    found = lookup-insert id id (new_app id name cluster c) m.applications ∙ rw (beq_refl id) refl;
    named = refl;
    placed = refl;
  }
