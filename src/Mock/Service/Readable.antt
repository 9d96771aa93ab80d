-- ===== src/Mock/Service/Readable.antt =====
-- That the client can read what the mock of testutil/mock_server.go answers: the data that it holds
-- passes the checks that api/oas_response_decoders_gen.go makes.
use apprun_dedicated_provisi.Base.{
  ℕ, ℤ, pos, ◌≤◌, true, some, none, [], ◌∷◌, ◌≡◌, refl, sym, ◌∙◌, subst, All, All-imp, All-map,
  All-perm, Eq, Bool-cases, inl, inr, ◌==◌, nat_eq, is_empty,
}
use apprun_dedicated_provisi.Base.Dict.{Dict, RangeOrder, IsShuffle, lookup, insert, lookup-insert}
use apprun_dedicated_provisi.Api.{
  Uuid, ReadClusterDetail, ReadApplicationDetail, CreateEnvironmentVariable,
  CreateApplicationVersion, ReadApplicationVersionDetail,
}
use apprun_dedicated_provisi.Platform.{ReadClusterSummary}
use apprun_dedicated_provisi.Api.Validate.{Checks, Errors, elements, if_given}
use apprun_dedicated_provisi.Api.Validate.Requests.{
  create_env_fields, create_version_fields, validate_create_env, validate_create_version,
}
use apprun_dedicated_provisi.Api.Validate.Responses.{
  read_env_fields, read_version_fields, deployment_status_fields, validate_read_env,
  validate_read_application, validate_read_version, validate_deployment_status,
  validate_cluster_summary,
}
use apprun_dedicated_provisi.Api.Validate.Laws.{
  AreChecks, Accepts, fields-nil_iff, elements-nil_iff, array_errors-nil_iff,
  version_number_positive,
}
use apprun_dedicated_provisi.Mock as Server
use apprun_dedicated_provisi.Mock.{MockServer, VersionKey, key_eq}
use apprun_dedicated_provisi.Mock.Applications.{shown_env, version_detail}
use apprun_dedicated_provisi.Mock.Service.Latest.{status_of}

abbrev pub summary_of : Uuid × ReadClusterDetail → ReadClusterSummary
summary_of e = record { name = e.1.name; cluster_id = e.1.cluster_id; created = e.1.created }

-- Every cluster, application and version of the mock passes the checks of the client.
pub record Readable (checks : Checks) (m : MockServer) : Type 0 where
  pub clusters : All (λ e. validate_cluster_summary checks (summary_of e) ≡ []) m.clusters
  pub applications :
      (id : Uuid) (a : ReadApplicationDetail)
      → lookup id m.applications ≡ some a
      → validate_read_application checks a ≡ []
  pub versions :
      (key : VersionKey) (v : ReadApplicationVersionDetail)
      → lookup key m.application_versions ≡ some v
      → validate_read_version checks v ≡ []

some_injective : {A : Type 0} {a b : A} → some a ≡ some b → a ≡ b
some_injective h = cc

-- What holds of all that a table has and of a new entry holds after its insertion.
pub each_inserted :
    {K V : Type 0} ⦃e : Eq K⦄ (P : V → Type 0) (table : Dict K V) (k : K) (v : V)
    → P v
    → ((j : K) (w : V) → lookup j table ≡ some w → P w)
    → (j : K) (w : V) → lookup j (insert k v table) ≡ some w
    → P w
each_inserted P table k v new old j w h = elim (Bool-cases (k == j)) [
  | inl same ↦ subst P (some_injective (sym (lookup-insert k j v table ∙ rw same refl) ∙ h)) new
  | inr other ↦ old j w (sym (lookup-insert k j v table ∙ rw other refl) ∙ h)
]

-- The errors are compared with none by a test.
pub nil-is_empty : (errors : Errors) → is_empty errors ≡ true → errors ≡ []
nil-is_empty [] h = refl
nil-is_empty (e ∷ errors) h = cc

pub is_empty-nil : (errors : Errors) → errors ≡ [] → is_empty errors ≡ true
is_empty-nil [] h = refl
is_empty-nil (e ∷ errors) h = cc

module _ (checks : Checks) (range : RangeOrder) (shuffle : IsShuffle range) (m : MockServer)
    (r : Readable checks m) where
  pub clusters_read :
      elements (validate_cluster_summary checks) 0 (Server.list_clusters range m) ≡ []
  unfolding Server.list_clusters
  clusters_read =
      let Passes : Uuid × ReadClusterDetail → Type 0 =
        λ e. is_empty (validate_cluster_summary checks (summary_of e)) ≡ true in
      (elements-nil_iff (validate_cluster_summary checks) 0 _).1 (
        All-map (Accepts (validate_cluster_summary checks)) summary_of (range _ m.clusters) (
          All-imp Passes _ (range _ m.clusters) (λ e. nil-is_empty _)
            (All-perm Passes (λ e. hlevel) (shuffle _ m.clusters)
              (All-imp _ Passes m.clusters (λ e. is_empty-nil _) r.clusters))))

module _ (checks : Checks) where
  -- A version of which the client can read the detail is also listed so that it can read it.
  pub status_read :
      (v : ReadApplicationVersionDetail)
      → validate_read_version checks v ≡ []
      → validate_deployment_status checks (status_of v) ≡ []
  unfolding validate_read_version validate_deployment_status
  status_read v h =
      let a = (fields-nil_iff (read_version_fields checks v)).0 h in
      let (version, rest) = a in
      let image = rest.1.1.1.1.1.1.1.1.0 in
      (fields-nil_iff (deployment_status_fields checks (status_of v))).1 (version, (image, tt))

  shown_env_read :
      (e : CreateEnvironmentVariable)
      → validate_create_env checks e ≡ []
      → validate_read_env checks (shown_env e) ≡ []
  unfolding validate_create_env validate_read_env if_given
  shown_env_read e h =
      let (key, (text, end)) = (fields-nil_iff (create_env_fields checks e)).0 h in
      (fields-nil_iff (read_env_fields checks (shown_env e))).1 (
        key,
        (
          (elim (Bool-cases e.value.set) [
            | inl set ↦ rw set (rw set at text)
            | inr unset ↦ rw unset refl
          ]),
          tt,
        ),
      )

  module _ (laws : AreChecks checks) where
    -- The version that is made of a request that passes its checks can be read.
    pub version_read :
        (n : ℕ) (seconds : ℤ) (req : CreateApplicationVersion)
        → 1 ≤ n
        → validate_create_version checks req ≡ []
        → validate_read_version checks (version_detail (pos n) seconds req) ≡ []
    unfolding validate_create_version validate_read_version version_detail if_given
    version_read n seconds req positive h =
        let a = (fields-nil_iff (create_version_fields checks req)).0 h in
        let (cpu, (memory, (mode, (fixed, (least, (most, (scale_in, (scale_out, rest)))))))) = a in
        let (image, (cmd, (username, (password, (action, (ports, (env, end))))))) = rest in
        let variables =
          (array_errors-nil_iff checks none (some 50) (validate_create_env checks) req.env).0 env in
        (fields-nil_iff (read_version_fields checks (version_detail (pos n) seconds req))).1 (
          version_number_positive checks laws n positive,
          (
            cpu,
            (
              memory,
              (
                mode,
                (
                  fixed,
                  (
                    least,
                    (
                      most,
                      (
                        scale_in,
                        (
                          scale_out,
                          (
                            image,
                            (
                              cmd,
                              (
                                username,
                                (
                                  refl,
                                  (
                                    ports,
                                    (
                                      (elements-nil_iff (validate_read_env checks) 0 _).1 (
                                          All-map (Accepts (validate_read_env checks)) shown_env
                                            req.env
                                            (All-imp (Accepts (validate_create_env checks)) _
                                              req.env shown_env_read variables.1)),
                                      tt,
                                    ),
                                  ),
                                ),
                              ),
                            ),
                          ),
                        ),
                      ),
                    ),
                  ),
                ),
              ),
            ),
          ),
        )
