-- ===== src/Mock/Preservation.antt =====
-- What holds of the mock however it is used through the API, and that a version never changes.
use apprun_dedicated_provisi.Base.{
  ℕ, ◌+◌, ◌<◌, ◌^◌, ◌%◌, ℤ, pos, negsuc, ltb_ℤ, true, false, ◌&&◌, Option, none, some, ◌≡◌, refl,
  sym, ap, ◌∙◌, subst, arith, any-none, inl, inr, Option-cases, Bool-cases, beq_refl, ◌==◌,
  string_eq, nat_eq, int_eq,
}
use apprun_dedicated_provisi.Base.Dict.{Distinct, lookup, insert, lookup-insert, lookup-of_All}
use apprun_dedicated_provisi.Api.{
  Uuid, Nil, nil_to, CreateApplication, ReadApplicationDetail, CreateApplicationVersion,
  ReadApplicationVersionDetail, UpdateApplication,
}
use apprun_dedicated_provisi.Provisioner.Apply.{to_int32}
use apprun_dedicated_provisi.Mock.{
  MockServer, VersionKey, key_beq, key_eq, key_beq_iff, any_value, create_cluster, update_cluster,
}
use apprun_dedicated_provisi.Mock.Applications.{
  number_or_zero, incremented, version_detail, desired_count_of, create_application,
  create_application_version, update_application,
}
use apprun_dedicated_provisi.Mock.Invariant.{
  HasRoom, Step, cluster_created, cluster_updated, app_created, version_created, app_updated,
  Reachable, started, stepped, Numbered, WellFormed, new_mock_server-WellFormed, inserted_app,
  inserted_next, inserted_version,
}

-- The counting on of a number that an int32 can hold.
pub incremented_fits : (k : ℕ) → k + 1 < 2 ^ 31 → incremented (pos k) ≡ pos (k + 1)
unfolding incremented to_int32
incremented_fits k fits =
    let small : (k + 1) % 4294967296 ≡ k + 1 = omega arith in ground (arith, small)

pub unnamed :
    (m : MockServer) (req : CreateApplication)
    → any_value (λ app. app.cluster_id == req.cluster_id && app.name == req.name) m.applications
      ≡ false
    → (j : Uuid) (b : ReadApplicationDetail) → lookup j m.applications ≡ some b
    → b.cluster_id ≡ req.cluster_id
    → b.name ≡ req.name
    → ⊥
unnamed m req h j b found p q =
    let other = lookup-of_All _ m.applications j b (any-none _ m.applications h) found in
    ground (arith, nat_eq.beq_iff b.cluster_id req.cluster_id, string_eq.beq_iff b.name req.name)

pub create_application-WellFormed :
    (m : MockServer) (id : Uuid) (req : CreateApplication)
    → WellFormed m
    → lookup id m.next_version_number ≡ none
    → WellFormed (create_application id req m).1
unfolding create_application
create_application-WellFormed m id req wf fresh =
    elim (Option-cases (lookup req.cluster_id m.clusters)) [
      | inl missing ↦ rw (missing, create_application) wf
      | inr (cluster, found) ↦
          rw (found, create_application)
            (elim (Bool-cases (
              any_value (λ app. app.cluster_id == req.cluster_id && app.name == req.name)
                m.applications)) [
                  | inl taken ↦ rw taken wf
                  | inr free ↦ rw free (
                      inserted_next _ id (pos 1)
                        (inserted_app m id _ wf refl
                          (λ j b h p q. absurd (unnamed m req free j b h p q)))
                        (λ key v h own. absurd (unused key v h own)))
                ])
    ]
  where
    unused :
        (key : VersionKey) (v : ReadApplicationVersionDetail)
        → lookup key m.application_versions ≡ some v
        → key.application_id ≡ id
        → ⊥
    unused key v h own = cc (wf.below key v h).found

-- An application is changed in what neither identifies nor names it.
pub record SameName (a b : ReadApplicationDetail) : Type 0 where
  pub id : b.application_id ≡ a.application_id
  pub cluster : b.cluster_id ≡ a.cluster_id
  pub name : b.name ≡ a.name

changed_app :
    (m : MockServer) (id : Uuid) (a b : ReadApplicationDetail)
    → WellFormed m
    → lookup id m.applications ≡ some a
    → SameName a b
    → WellFormed (record m { applications = insert id b m.applications })
changed_app m id a b wf found same =
    inserted_app m id b wf (same.id ∙ wf.keyed id a found)
      (λ j c h p q. wf.named j id c a h found (p ∙ same.cluster) (q ∙ same.name))

pub desired_count_of-SameName :
    (o : Option ReadApplicationVersionDetail) (active : Nil ℤ) (a : ReadApplicationDetail)
    → SameName a (desired_count_of o (record a { active_version = active }))
unfolding desired_count_of
desired_count_of-SameName none active a = record { id = refl; cluster = refl; name = refl }
desired_count_of-SameName (some v) active a = record {
  id = ground arith;
  cluster = ground arith;
  name = ground arith;
}

pub update_application-WellFormed :
    (m : MockServer) (req : UpdateApplication) (id : Uuid)
    → WellFormed m
    → WellFormed (update_application req id m).1
unfolding update_application
update_application-WellFormed m req id wf = elim (Option-cases (lookup id m.applications)) [
  | inl missing ↦ rw (missing, update_application) wf
  | inr (app, found) ↦ elim (Bool-cases req.active_version.null) [
    | inl null ↦
        rw (found, null, update_application)
          (changed_app m id app _ wf found (record { id = refl; cluster = refl; name = refl }))
    | inr set ↦
        rw (found, set, update_application)
          (changed_app m id app _ wf found (
            desired_count_of-SameName
              (lookup (record { application_id = id; version = req.active_version.value })
                m.application_versions)
              (nil_to req.active_version.value) app))
  ]
]

-- The next number of an application with room is above all of its versions.
counted_on :
    (m : MockServer) (id : Uuid)
    → WellFormed m
    → (room : HasRoom m id) → (key : VersionKey) (v : ReadApplicationVersionDetail)
    → lookup key m.application_versions ≡ some v
    → key.application_id ≡ id
    → ltb_ℤ key.version (pos room.number) ≡ true
counted_on m id wf room key v h own =
    let old = wf.below key v h in
    let next : pos room.number ≡ old.next =
      sym room.next
      ∙ ap number_or_zero (ap (λ i. lookup i m.next_version_number) (sym own) ∙ old.found) in
    subst (λ n. ltb_ℤ key.version n ≡ true) (sym next) old.less

ltb_ℤ-suc : (v : ℤ) (k : ℕ) → ltb_ℤ v (pos k) ≡ true → ltb_ℤ v (pos (k + 1)) ≡ true
ltb_ℤ-suc (pos n) k h = ground arith
ltb_ℤ-suc (negsuc n) k h = refl

pub create_application_version-WellFormed :
    (m : MockServer) (seconds : ℤ) (req : CreateApplicationVersion) (id : Uuid)
    → WellFormed m
    → HasRoom m id
    → WellFormed (create_application_version seconds req id m).1
unfolding create_application_version
create_application_version-WellFormed m seconds req id wf room =
    elim (Option-cases (lookup id m.applications)) [
      | inl missing ↦ rw (missing, create_application_version) wf
      | inr (app, found) ↦
          let k = room.number in
          rw (found, room.next, incremented_fits k room.fits, create_application_version)
            (inserted_version _ (record { application_id = id; version = pos k })
              (version_detail (pos k) seconds req) (pos (k + 1))
              (inserted_next m id (pos (k + 1)) wf
                (λ key v h own. ltb_ℤ-suc key.version k (counted_on m id wf room key v h own)))
              (unfold version_detail in refl)
              (lookup-insert id id (pos (k + 1)) m.next_version_number ∙ rw (beq_refl id) refl)
              (ground arith))
    ]

same_tables :
    (m m' : MockServer)
    → m'.applications ≡ m.applications
    → m'.application_versions ≡ m.application_versions
    → m'.next_version_number ≡ m.next_version_number
    → WellFormed m
    → WellFormed m'
same_tables m m' p q r wf = record {
  keyed = λ id app h. wf.keyed id app (ap (lookup id) (sym p) ∙ h);
  named = λ i j a b h k. wf.named i j a b (ap (lookup i) (sym p) ∙ h) (ap (lookup j) (sym p) ∙ k);
  below = λ key v h.
      subst (λ t. Numbered t key v) (sym r) (wf.below key v (ap (lookup key) (sym q) ∙ h));
  distinct = subst Distinct (sym q) wf.distinct;
  distinct_apps = subst Distinct (sym p) wf.distinct_apps;
}

Step-WellFormed : (m m' : MockServer) → Step m m' → WellFormed m → WellFormed m'
unfolding create_cluster update_cluster
Step-WellFormed m m' (cluster_created id seconds req) wf =
    same_tables m _ (ground arith) (ground arith) (ground arith) wf
Step-WellFormed m m' (cluster_updated req id) wf =
    same_tables m _ (ground arith) (ground arith) (ground arith) wf
Step-WellFormed m m' (app_created id req new fresh) wf =
    create_application-WellFormed m id req wf fresh
Step-WellFormed m m' (version_created seconds req id room) wf =
    create_application_version-WellFormed m seconds req id wf room
Step-WellFormed m m' (app_updated req id) wf = update_application-WellFormed m req id wf

-- However the mock is used through its API from a new one on, with fresh identifiers and as long as
-- the version numbers fit an int32: an application stands under its own identifier, no two of one
-- cluster have one name, and each version stands under its own number, below the next one of its
-- application.
pub Reachable-WellFormed : (m : MockServer) → Reachable m → WellFormed m
Reachable-WellFormed m (started token secret) = new_mock_server-WellFormed token secret
Reachable-WellFormed m (stepped {m = before} path step) =
    Step-WellFormed before m step (Reachable-WellFormed before path)

-- The key of a new version is new.
new_key :
    (m : MockServer) (id : Uuid)
    → WellFormed m
    → (room : HasRoom m id) → (key : VersionKey) (v : ReadApplicationVersionDetail)
    → lookup key m.application_versions ≡ some v
    → key_beq (record { application_id = id; version = pos room.number }) key ≡ false
new_key m id wf room key v h =
    elim (Bool-cases (key_beq (record { application_id = id; version = pos room.number }) key)) [
      | inr other ↦ other
      | inl same ↦
          let e : record { application_id = id; version = pos room.number } ≡ key =
            (key_beq_iff _ key).0 same in
          let less : ltb_ℤ (pos room.number) (pos room.number) ≡ true =
            subst (λ n. ltb_ℤ n (pos room.number) ≡ true)
              (ap (λ (k : VersionKey). k.version) (sym e))
              (counted_on m id wf room key v h
                (ap (λ (k : VersionKey). k.application_id) (sym e))) in
          absurd (ground arith)
    ]

-- A version never changes: after a request, a version of a well-formed mock is found under its key as
-- it was. The request may be to create or update a cluster, to update an application, to create an
-- application under an identifier that the mock has neither an application nor a next version number
-- for, or to create a version of an application whose next number can be counted on in an int32.
pub Step-keeps_versions :
    (m m' : MockServer) (key : VersionKey) (v : ReadApplicationVersionDetail)
    → WellFormed m
    → Step m m'
    → lookup key m.application_versions ≡ some v
    → lookup key m'.application_versions ≡ some v
unfolding create_cluster update_cluster create_application update_application
    create_application_version
Step-keeps_versions m m' key v wf (cluster_created id seconds req) h = ground arith
Step-keeps_versions m m' key v wf (cluster_updated req id) h = ground arith
Step-keeps_versions m m' key v wf (app_created id req new fresh) h = ground arith
Step-keeps_versions m m' key v wf (app_updated req id) h = ground arith
Step-keeps_versions m m' key v wf (version_created seconds req id room) h =
    elim (Option-cases (lookup id m.applications)) [
      | inl missing ↦ ground arith
      | inr (app, found) ↦
          rw
            (
              found,
              room.next,
              lookup-insert (record { application_id = id; version = pos room.number }) key _
                  m.application_versions,
              new_key m id wf room key v h,
              create_application_version,
            )
            h
    ]
