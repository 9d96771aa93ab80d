-- ===== src/Mock/Invariant.antt =====
-- What holds of the mock, and how a table of it may be written.
use apprun_dedicated_provisi.Base.{
  ℕ, ◌+◌, ◌<◌, ◌^◌, ℤ, pos, ltb_ℤ, String, true, none, some, ◌≡◌, refl, sym, ◌∙◌, subst, arith, inl,
  inr, Bool-cases, ◌==◌, string_eq, nat_eq, int_eq,
}
use apprun_dedicated_provisi.Base.Dict.{
  Dict, Distinct, lookup, insert, lookup-insert, insert-Distinct,
}
use apprun_dedicated_provisi.Api.{
  Uuid, CreateCluster, UpdateCluster, CreateApplication, ReadApplicationDetail,
  CreateApplicationVersion, ReadApplicationVersionDetail, UpdateApplication,
}
use apprun_dedicated_provisi.Mock.{
  MockServer, VersionKey, key_eq, new_mock_server, create_cluster, update_cluster,
}
use apprun_dedicated_provisi.Mock.Applications.{
  number_or_zero, create_application, create_application_version, update_application,
}

-- The next number of the application is one that an int32 can count on from.
pub record HasRoom (m : MockServer) (id : Uuid) : Type 0 where
  pub number : ℕ
  pub next : number_or_zero (lookup id m.next_version_number) ≡ pos number
  pub fits : number + 1 < 2 ^ 31

-- One request that may change the mock. The identifiers of `uuid.New` are fresh.
pub data Step (m : MockServer) : MockServer → Type 0 where
  cluster_created :
      (id : Uuid) (seconds : ℤ) (req : CreateCluster) → Step m (create_cluster id seconds req m).1
  cluster_updated : (req : UpdateCluster) (id : Uuid) → Step m (update_cluster req id m).1
  app_created :
      (id : Uuid) (req : CreateApplication)
      → lookup id m.applications ≡ none
      → lookup id m.next_version_number ≡ none
      → Step m (create_application id req m).1
  version_created :
      (seconds : ℤ) (req : CreateApplicationVersion) (id : Uuid)
      → HasRoom m id
      → Step m (create_application_version seconds req id m).1
  app_updated : (req : UpdateApplication) (id : Uuid) → Step m (update_application req id m).1

-- The mocks that requests lead to from a new one.
pub data Reachable : MockServer → Type 0 where
  started : (token secret : String) → Reachable (new_mock_server token secret)
  stepped : {m m' : MockServer} → Reachable m → Step m m' → Reachable m'

-- A version has the number of its key, which is below the next number of its application.
pub record Numbered (numbers : Dict Uuid ℤ) (key : VersionKey) (v : ReadApplicationVersionDetail)
    : Type 0 where
  pub next : ℤ
  pub found : lookup key.application_id numbers ≡ some next
  pub own : v.version ≡ key.version
  pub less : ltb_ℤ key.version next ≡ true

pub record WellFormed (m : MockServer) : Type 0 where
  pub keyed :
      (id : Uuid) (app : ReadApplicationDetail)
      → lookup id m.applications ≡ some app
      → app.application_id ≡ id
  pub named :
      (i j : Uuid) (a b : ReadApplicationDetail)
      → lookup i m.applications ≡ some a
      → lookup j m.applications ≡ some b
      → a.cluster_id ≡ b.cluster_id
      → a.name ≡ b.name
      → i ≡ j
  pub below :
      (key : VersionKey) (v : ReadApplicationVersionDetail)
      → lookup key m.application_versions ≡ some v
      → Numbered m.next_version_number key v
  pub distinct : Distinct m.application_versions
  pub distinct_apps : Distinct m.applications

pub new_mock_server-WellFormed : (token secret : String) → WellFormed (new_mock_server token secret)
unfolding new_mock_server lookup
new_mock_server-WellFormed token secret = record {
  keyed = λ id app h. cc;
  named = λ i j a b h k p q. cc;
  below = λ key v h. cc;
  distinct = tt;
  distinct_apps = tt;
}

-- An application is written that is kept under its own identifier, and no other one of its cluster
-- has its name.
pub inserted_app :
    (m : MockServer) (id : Uuid) (app : ReadApplicationDetail)
    → WellFormed m
    → app.application_id ≡ id
    → ((j : Uuid) (b : ReadApplicationDetail)
        → lookup j m.applications ≡ some b
        → b.cluster_id ≡ app.cluster_id
        → b.name ≡ app.name
        → j ≡ id)
    → WellFormed (record m { applications = insert id app m.applications })
inserted_app m id app wf own unique = record {
  keyed = λ j b h.
      ground (arith, lookup-insert id j app m.applications, nat_eq.beq_iff id j, wf.keyed j b);
  named = λ i j a b h k p q. ground (
    arith,
    lookup-insert id i app m.applications,
    lookup-insert id j app m.applications,
    nat_eq.beq_iff id i,
    nat_eq.beq_iff id j,
    wf.named i j a b,
    unique i a,
    unique j b,
  );
  below = wf.below;
  distinct = wf.distinct;
  distinct_apps = insert-Distinct id app m.applications wf.distinct_apps;
}

-- The next number of an application is written, above all of its versions.
pub inserted_next :
    (m : MockServer) (id : Uuid) (n : ℤ)
    → WellFormed m
    → ((key : VersionKey) (v : ReadApplicationVersionDetail)
        → lookup key m.application_versions ≡ some v
        → key.application_id ≡ id
        → ltb_ℤ key.version n ≡ true)
    → WellFormed (record m { next_version_number = insert id n m.next_version_number })
inserted_next m id n wf above = record {
  keyed = wf.keyed;
  named = wf.named;
  below = λ key v h.
      let old = wf.below key v h in
      elim (Bool-cases (id == key.application_id)) [
        | inl e ↦ record {
          next = n;
          found = lookup-insert id key.application_id n m.next_version_number ∙ rw e refl;
          own = old.own;
          less = above key v h (sym ((nat_eq.beq_iff id key.application_id).0 e));
        }
        | inr e ↦ record {
          next = old.next;
          found = lookup-insert id key.application_id n m.next_version_number ∙ rw e old.found;
          own = old.own;
          less = old.less;
        }
      ];
  distinct = wf.distinct;
  distinct_apps = wf.distinct_apps;
}

-- A version is written under its number, below the next number.
pub inserted_version :
    (m : MockServer) (key : VersionKey) (v : ReadApplicationVersionDetail) (n : ℤ)
    → WellFormed m
    → v.version ≡ key.version
    → lookup key.application_id m.next_version_number ≡ some n
    → ltb_ℤ key.version n ≡ true
    → WellFormed (record m { application_versions = insert key v m.application_versions })
inserted_version m key v n wf own found less = record {
  keyed = wf.keyed;
  named = wf.named;
  below = λ j w h. elim (Bool-cases (key == j)) [
    | inl e ↦
        subst (λ k. Numbered m.next_version_number k w) ((key_eq.beq_iff key j).0 e)
          (record {
            next = n;
            found = found;
            own = ground (arith, lookup-insert key j v m.application_versions, own);
            less = less;
          })
    | inr e ↦ wf.below j w (ground (arith, lookup-insert key j v m.application_versions))
  ];
  distinct = insert-Distinct key v m.application_versions wf.distinct;
  distinct_apps = wf.distinct_apps;
}
