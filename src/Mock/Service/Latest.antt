-- ===== src/Mock/Service/Latest.antt =====
-- What getLatestVersion finds on the mock: the version that was created last.
use apprun_dedicated_provisi.Base.{
  ℕ, ◌+◌, ◌<◌, ℤ, pos, negsuc, ltb_ℤ, Bool, true, false, not, some, List, [], ◌∷◌, ◌≡◌, ◌≢◌, ◌∙◌,
  refl, sym, ap, subst, arith, All, All-imp, AnyOf, concat_map, inl, inr, ◌==◌, nat_eq, is_empty,
  if◌then◌else◌,
}
use apprun_dedicated_provisi.Base.Dict.{RangeOrder, IsShuffle, lookup}
use apprun_dedicated_provisi.Base.{beq_refl}
use apprun_dedicated_provisi.Base.Tables.{All-listing, listing-All}
use apprun_dedicated_provisi.Api.{
  Uuid, ReadApplicationVersionDetail, ApplicationVersionDeploymentStatus,
}
use apprun_dedicated_provisi.Mock.{MockServer, VersionKey, key_eq}
use apprun_dedicated_provisi.Mock.Invariant.{WellFormed}
use apprun_dedicated_provisi.Provisioner.Listing.{highest}
use apprun_dedicated_provisi.Provisioner.Versions.Laws.{highest-IsHighest}

abbrev pub status_of : ReadApplicationVersionDetail → ApplicationVersionDeploymentStatus
status_of v = record {
  version = v.version;
  image = v.image;
  active_node_count = v.active_node_count;
  created = v.created;
}

-- The entries of the mock's table that it lists for an application.
abbrev pub listed_of :
    Uuid → VersionKey × ReadApplicationVersionDetail → List ApplicationVersionDeploymentStatus
listed_of id e = if e.0.application_id == id then status_of e.1 ∷ [] else []

All-AnyOf :
    {A : Type 0} (P Q : A → Type 0) (R : Type 0) (xs : List A)
    → ((a : A) → P a → Q a → R)
    → All P xs
    → AnyOf Q xs
    → R
All-AnyOf P Q R [] f a h = absurd h
All-AnyOf P Q R (x ∷ xs) f a (inl h) = f x a.0 h
All-AnyOf P Q R (x ∷ xs) f a (inr h) = All-AnyOf P Q R xs f a.1 h

between : (h : ℤ) (n : ℕ) → ltb_ℤ h (pos n) ≡ false → ltb_ℤ h (pos (n + 1)) ≡ true → h ≡ pos n
between (pos k) n low high = ground (arith, low, high)
between (negsuc k) n low high = ground (arith, low)

module _ (range : RangeOrder) (shuffle : IsShuffle range) (m : MockServer) (wf : WellFormed m)
    (id : Uuid) where
  abbrev pub listing : List ApplicationVersionDeploymentStatus
  listing = concat_map (listed_of id) (range _ m.application_versions)

  module _ (P : ApplicationVersionDeploymentStatus → Bool) where
    -- A test that each version of the table passes is passed by each listed one.
    listing_passes :
        ((key : VersionKey) (v : ReadApplicationVersionDetail)
          → lookup key m.application_versions ≡ some v
          → (key.application_id == id) ≡ true
          → P (status_of v) ≡ true)
        → All (λ s. P s ≡ true) listing
    listing_passes =
        All-listing range shuffle m.application_versions wf.distinct (λ e. e.0.application_id == id)
          (λ e. status_of e.1) (listed_of id) (λ e. refl) (λ s. P s ≡ true) (λ s. hlevel)

    -- A test that each listed version passes is passed by each of the table.
    table_passes :
        (key : VersionKey) (v : ReadApplicationVersionDetail)
        → All (λ s. P s ≡ true) listing
        → lookup key m.application_versions ≡ some v
        → (key.application_id == id) ≡ true
        → P (status_of v) ≡ true
    table_passes =
        listing-All range shuffle m.application_versions wf.distinct (λ e. e.0.application_id == id)
          (λ e. status_of e.1) (listed_of id) (λ e. refl) (λ s. P s ≡ true) (λ s. hlevel)

  -- A property of errors that each version of the table has.
  pub versions_listed :
      {E : Type 0} (validate : ApplicationVersionDeploymentStatus → List E)
      → ((key : VersionKey) (v : ReadApplicationVersionDetail)
          → lookup key m.application_versions ≡ some v
          → is_empty (validate (status_of v)) ≡ true)
      → All (λ s. is_empty (validate s) ≡ true) listing
  versions_listed validate h =
      listing_passes (λ s. is_empty (validate s)) (λ key v found own. h key v found)

  -- The highest listed number is that of a version whose number is the last that was given.
  module _ (n : ℕ) (positive : 0 < n) (d : ReadApplicationVersionDetail)
      (next : lookup id m.next_version_number ≡ some (pos (n + 1)))
      (last : lookup (record { application_id = id; version = pos n }) m.application_versions
        ≡ some d) where
    numbered : d.version ≡ pos n
    numbered = (wf.below (record { application_id = id; version = pos n }) d last).own

    all_up_to : All (λ s. ltb_ℤ s.version (pos (n + 1)) ≡ true) listing
    all_up_to =
        listing_passes (λ s. ltb_ℤ s.version (pos (n + 1)))
          (λ key v found own.
            let old = wf.below key v found in
            let same : some old.next ≡ some (pos (n + 1)) =
              sym old.found
              ∙ ap (λ i. lookup i m.next_version_number)
                  ((nat_eq.beq_iff key.application_id id).0 own)
              ∙ next in
            ground (arith, same, old.own, old.less))

    last_listed :
        (P : ApplicationVersionDeploymentStatus → Bool)
        → All (λ s. P s ≡ true) listing
        → P (status_of d) ≡ true
    last_listed P all =
        table_passes P (record { application_id = id; version = pos n }) d all last (beq_refl id)

    pub highest_last : highest (pos 0) listing ≡ pos n
    highest_last =
        let h = highest-IsHighest (pos 0) listing in
        let top = highest (pos 0) listing in
        let below : not (ltb_ℤ top d.version) ≡ true =
          last_listed (λ s. not (ltb_ℤ top s.version))
            (All-imp _ _ listing (λ s small. ground (arith, small)) h.all_below) in
        between top n (ground (arith, below, numbered)) (elim h.attained [
          | inl start ↦ ground (arith, start, positive)
          | inr one ↦
              All-AnyOf (λ s. ltb_ℤ s.version (pos (n + 1)) ≡ true) (λ s. s.version ≡ top)
                (ltb_ℤ top (pos (n + 1)) ≡ true) listing
                (λ s small same. subst (λ v. ltb_ℤ v (pos (n + 1)) ≡ true) same small) all_up_to one
        ])

    pub listing_given : listing ≢ []
    listing_given none_listed =
        let never : false ≡ true =
          last_listed (λ s. false) (subst (All (λ s. false ≡ true)) (sym none_listed) tt) in
        cc
