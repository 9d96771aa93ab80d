-- ===== src/Provisioner/Versions/Laws.antt =====
-- The list of versions: its latest and its active one.
use apprun_dedicated_provisi.Base.{
  ℤ, pos, negsuc, ltb_ℤ, String, true, false, List, [], ◌∷◌, ◌≡◌, refl, sym, ◌⊎◌, inl, inr, ◌↔◌,
  arith, All, map, subst, ◌∙◌, AnyOf, Bool-cases, int_eq,
}
use apprun_dedicated_provisi.Api.{ReadApplicationDetail, ApplicationVersionDeploymentStatus}
use apprun_dedicated_provisi.Provisioner.Listing.{highest}
use apprun_dedicated_provisi.Provisioner.Versions.{
  VersionInfo, version_list, version_info, active_or_zero,
}

-- No version of the list is above it, and it is `start` or a version of the list.
pub record IsHighest (start n : ℤ) (vs : List ApplicationVersionDeploymentStatus) : Type 0 where
  pub start_below : ltb_ℤ n start ≡ false
  pub all_below : All (λ v. ltb_ℤ n v.version ≡ false) vs
  pub attained : (n ≡ start) ⊎ AnyOf (λ v. v.version ≡ n) vs

ltb_ℤ-irrefl : (n : ℤ) → ltb_ℤ n n ≡ false
ltb_ℤ-irrefl n = ground arith

ltb_ℤ-trans_not : (a b c : ℤ) → ltb_ℤ a b ≡ false → ltb_ℤ b c ≡ false → ltb_ℤ a c ≡ false
ltb_ℤ-trans_not (pos a) (pos b) (pos c) h k = ground arith
ltb_ℤ-trans_not (pos a) (pos b) (negsuc c) h k = ground arith
ltb_ℤ-trans_not (pos a) (negsuc b) (pos c) h k = ground arith
ltb_ℤ-trans_not (pos a) (negsuc b) (negsuc c) h k = ground arith
ltb_ℤ-trans_not (negsuc a) (pos b) (pos c) h k = ground arith
ltb_ℤ-trans_not (negsuc a) (pos b) (negsuc c) h k = ground arith
ltb_ℤ-trans_not (negsuc a) (negsuc b) (pos c) h k = ground arith
ltb_ℤ-trans_not (negsuc a) (negsuc b) (negsuc c) h k = ground arith

ltb_ℤ-asym : (a b : ℤ) → ltb_ℤ a b ≡ true → ltb_ℤ b a ≡ false
ltb_ℤ-asym (pos a) (pos b) h = ground arith
ltb_ℤ-asym (pos a) (negsuc b) h = ground arith
ltb_ℤ-asym (negsuc a) (pos b) h = ground arith
ltb_ℤ-asym (negsuc a) (negsuc b) h = ground arith

pub highest-IsHighest :
    (start : ℤ) (vs : List ApplicationVersionDeploymentStatus)
    → IsHighest start (highest start vs) vs
unfolding highest
highest-IsHighest start [] = record {
  start_below = ltb_ℤ-irrefl start;
  all_below = tt;
  attained = inl refl;
}
highest-IsHighest start (v ∷ rest) = elim (Bool-cases (ltb_ℤ start v.version)) [
  | inl above ↦
      let ih = highest-IsHighest v.version rest in
      let n = highest v.version rest in
      rw (above, highest)
        (record {
          start_below =
              ltb_ℤ-trans_not n v.version start ih.start_below (ltb_ℤ-asym start v.version above);
          all_below = (ih.start_below, ih.all_below);
          attained = inr (elim ih.attained [ inl e ↦ inl (sym e) | inr r ↦ inr r ]);
        })
  | inr below ↦
      let ih = highest-IsHighest start rest in
      let n = highest start rest in
      rw (below, highest)
        (record {
          start_below = ih.start_below;
          all_below = (ltb_ℤ-trans_not n start v.version ih.start_below below, ih.all_below);
          attained = elim ih.attained [ inl e ↦ inl e | inr r ↦ inr (inr r) ];
        })
]

-- The number of the application's active version, or 0 if it has none.
pub record IsActiveOf (app : ReadApplicationDetail) (n : ℤ) : Type 0 where
  pub set : app.active_version.null ≡ false → n ≡ app.active_version.value
  pub missing : app.active_version.null ≡ true → n ≡ pos 0

-- A version is shown with its number and image, and as active just where the number is that of the
-- application's active version, or 0 if it has none.
pub record ShownAs (app : ReadApplicationDetail) (v : ApplicationVersionDeploymentStatus)
    (i : VersionInfo) : Type 0 where
  pub version : i.version ≡ v.version
  pub image : i.image ≡ v.image
  pub active_nodes : i.active_nodes ≡ v.active_node_count
  pub active : (i.is_active ≡ true) ↔ IsActiveOf app v.version

-- The versions are shown one by one.
pub Shown :
    ReadApplicationDetail → List ApplicationVersionDeploymentStatus → List VersionInfo → Type 0
Shown app [] [] = Unit
Shown app (v ∷ vs) (i ∷ shown) = ShownAs app v i × Shown app vs shown
Shown app _ _ = ⊥

active_or_zero-IsActiveOf :
    (app : ReadApplicationDetail) → IsActiveOf app (active_or_zero app.active_version)
unfolding active_or_zero
active_or_zero-IsActiveOf app = record { set = λ h. rw h refl; missing = λ h. rw h refl }

IsActiveOf-unique :
    (app : ReadApplicationDetail) (m n : ℤ) → IsActiveOf app m → IsActiveOf app n → m ≡ n
IsActiveOf-unique app m n a b = elim (Bool-cases app.active_version.null) [
  | inl null ↦ a.missing null ∙ sym (b.missing null)
  | inr set ↦ a.set set ∙ sym (b.set set)
]

version_info-ShownAs :
    (app : ReadApplicationDetail) (v : ApplicationVersionDeploymentStatus)
    → ShownAs app v (version_info (active_or_zero app.active_version) v)
unfolding version_info
version_info-ShownAs app v =
    let active = active_or_zero app.active_version in
    let own = active_or_zero-IsActiveOf app in
    record {
      version = refl;
      image = refl;
      active_nodes = refl;
      active = (
        λ h. subst (IsActiveOf app) (sym ((int_eq.beq_iff v.version active).0 h)) own,
        λ a. (int_eq.beq_iff v.version active).1 (IsActiveOf-unique app v.version active a own),
      );
    }

version_infos-Shown :
    (app : ReadApplicationDetail) (all : List ApplicationVersionDeploymentStatus)
    → Shown app all (map (version_info (active_or_zero app.active_version)) all)
unfolding Shown
version_infos-Shown app [] = tt
version_infos-Shown app (v ∷ rest) = (version_info-ShownAs app v, version_infos-Shown app rest)

-- ListVersions names as the latest version the highest of all listed ones, or 0 if none is above 0,
-- and as the active one the application's active version, or 0 if it has none. It shows the listed
-- versions one by one in their order, and flags as active just those whose number is this one.
pub version_list_lem :
    (name : String) (app : ReadApplicationDetail) (all : List ApplicationVersionDeploymentStatus)
    → let list = version_list name app all in
      IsHighest (pos 0) list.latest_version all
      × IsActiveOf app list.active_version
      × Shown app all list.versions
unfolding version_list
version_list_lem name app all =
    (highest-IsHighest (pos 0) all, active_or_zero-IsActiveOf app, version_infos-Shown app all)
