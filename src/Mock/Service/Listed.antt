-- ===== src/Mock/Service/Listed.antt =====
-- What a plan finds under a name among the applications that the mock of testutil/mock_server.go lists.
use apprun_dedicated_provisi.Base.{
  String, Bool, true, false, ◌&&◌, none, some, List, [], ◌∷◌, ◌≡◌, sym, ◌∙◌, arith, All,
  Option-cases, inl, inr, ◌==◌, ◌!=◌, string_eq, nat_eq, beq_refl, is_empty, if◌then◌else◌,
}
use apprun_dedicated_provisi.Base.Dict.{RangeOrder, IsShuffle, lookup, index_by}
use apprun_dedicated_provisi.Base.Tables.{
  All-listing, listing-All, lookup-index_by-All, lookup-index_by_missing,
}
use apprun_dedicated_provisi.Api.{Uuid, opt_to, ReadApplicationDetail}
use apprun_dedicated_provisi.Provisioner.Plan.{application_key}
use apprun_dedicated_provisi.Mock.{MockServer, any_value}
use apprun_dedicated_provisi.Mock.Applications.{list_applications}
use apprun_dedicated_provisi.Mock.Invariant.{WellFormed}
use apprun_dedicated_provisi.Mock.Preservation.{unnamed}

module _ (range : RangeOrder) (shuffle : IsShuffle range) (m : MockServer) (wf : WellFormed m)
    (cluster : Uuid) where
  abbrev in_cluster : Uuid × ReadApplicationDetail → Bool
  in_cluster e = e.1.cluster_id == cluster

  abbrev listed_app : Uuid × ReadApplicationDetail → List ReadApplicationDetail
  listed_app e = if e.1.cluster_id != cluster then [] else e.1 ∷ []

  listed_app-shape :
      (e : Uuid × ReadApplicationDetail) → listed_app e ≡ (if in_cluster e then e.1 ∷ [] else [])
  listed_app-shape e = ground arith

  abbrev listing : List ReadApplicationDetail
  listing = list_applications range (opt_to cluster) m

  module _ (P : ReadApplicationDetail → Type 0)
      (prop : (a : ReadApplicationDetail) → IsProp (P a)) where
    each_listed :
        ((id : Uuid) (a : ReadApplicationDetail)
          → lookup id m.applications ≡ some a
          → in_cluster (id, a) ≡ true
          → P a)
        → All P listing
    unfolding list_applications
    each_listed =
        All-listing range shuffle m.applications wf.distinct_apps in_cluster (λ e. e.1) listed_app
          listed_app-shape P prop

    listed_each :
        (id : Uuid) (a : ReadApplicationDetail)
        → All P listing
        → lookup id m.applications ≡ some a
        → in_cluster (id, a) ≡ true
        → P a
    unfolding list_applications
    listed_each =
        listing-All range shuffle m.applications wf.distinct_apps in_cluster (λ e. e.1) listed_app
          listed_app-shape P prop

  pub applications_listed :
      {E : Type 0} (validate : ReadApplicationDetail → List E)
      → ((id : Uuid) (a : ReadApplicationDetail)
          → lookup id m.applications ≡ some a
          → is_empty (validate a) ≡ true)
      → All (λ a. is_empty (validate a) ≡ true) listing
  applications_listed validate h =
      each_listed (λ a. is_empty (validate a) ≡ true) (λ a. hlevel) (λ id a found own. h id a found)

  -- An application of the cluster is found under its name.
  pub found_listed :
      (id : Uuid) (a : ReadApplicationDetail)
      → lookup id m.applications ≡ some a
      → a.cluster_id ≡ cluster
      → (b : ReadApplicationDetail) × (lookup a.name (index_by application_key listing) ≡ some b)
        × (b.application_id ≡ id)
  found_listed id a found own =
      elim (Option-cases (lookup a.name (index_by application_key listing))) [
        | inl missing ↦
            let other =
              listed_each (λ b. (b.name == a.name) ≡ false) (λ b. hlevel) id a
                (lookup-index_by_missing application_key listing a.name missing) found
                ((nat_eq.beq_iff a.cluster_id cluster).1 own) in
            absurd (ground (arith, other, beq_refl a.name))
        | inr (b, there) ↦ (
          b,
          there,
          lookup-index_by-All application_key (λ b. b.application_id ≡ id) listing a.name b
              (each_listed (λ b. (b.name == a.name) ≡ true → b.application_id ≡ id) (λ b. hlevel)
                (λ j b h mine named.
                  wf.keyed j b h
                  ∙ wf.named j id b a h found
                      ((nat_eq.beq_iff b.cluster_id cluster).0 mine ∙ sym own)
                      ((string_eq.beq_iff b.name a.name).0 named)))
              there,
        )
      ]

  -- A name that no application of the cluster has is not found.
  pub missing_listed :
      (name : String)
      → any_value (λ a. a.cluster_id == cluster && a.name == name) m.applications ≡ false
      → lookup name (index_by application_key listing) ≡ none
  missing_listed name free = elim (Option-cases (lookup name (index_by application_key listing))) [
    | inl missing ↦ missing
    | inr (b, there) ↦ absurd (
        lookup-index_by-All application_key (λ b. ⊥) listing name b
          (each_listed (λ b. (b.name == name) ≡ true → ⊥) (λ b. hlevel)
            (λ j b h mine named.
              unnamed m (record { name = name; cluster_id = cluster }) free j b h
                ((nat_eq.beq_iff b.cluster_id cluster).0 mine)
                ((string_eq.beq_iff b.name name).0 named)))
          there)
  ]
