-- ===== src/Infra/Interfaces.antt =====
-- The comparison of interfaces, as compareASGInterfaces and compareLBInterfaces share it: they
-- differ in the comparison of two interfaces with one index.
use mathlib.Core.List.Perm
use apprun_dedicated_provisi.Base.{
  ℤ, String, ◌<>◌, none, some, List, [], ◌∷◌, map, length, length-map, concat_map,
  concat_map-nil_iff, All-perm, lines_set, ◌≡◌, ◌∙◌, sym, subst, ◌↔◌, inl, inr, Option-cases,
  Bool-cases, arith, ◌==◌, ◌!=◌, nat_eq, int_eq, if◌then◌else◌,
}
use apprun_dedicated_provisi.Base.Dict.{
  Dict, RangeOrder, IsShuffle, lookup, index_by, index_by-Distinct, All-of_lookup, lookup-of_All,
  lookup-index_by-map,
}
use apprun_dedicated_provisi.Base.Text.{show_int, show_nat}

module _ {C D : Type 0} (current_index : C → ℤ) (desired_index : D → ℤ)
    (changes : ℤ → C → D → List String) where
  -- One round of the loop over the desired interfaces.
  compare_interface : Dict ℤ C → ℤ × D → List String
  compare_interface current_by_idx (idx, d) = elim (lookup idx current_by_idx) [
    | none ↦ ("Interface[" <> show_int idx <> "]: new interface") ∷ []
    | some c ↦ changes idx c d
  ]

  unfoldable pub compare_interfaces : RangeOrder → List C → List D → List String
  unfolding compare_interface
  compare_interfaces range current desired =
      if length current != length desired
      then ("Interfaces count: "
          <> show_nat (length current)
          <> " -> "
          <> show_nat (length desired))
        ∷ []
      else concat_map (compare_interface (index_by current_index current))
          (range (ℤ × D) (index_by desired_index desired))

-- As many interfaces, and for each index of the configuration an interface that agrees. Of several
-- interfaces with one index the last one counts.
pub record SameInterfaces {C D : Type 0} (current_index : C → ℤ) (desired_index : D → ℤ)
    (Same : C → D → Type 0) (current : List C) (desired : List D) : Type 0 where
  pub count : length current ≡ length desired
  pub each :
      (idx : ℤ) (d : D)
      → lookup idx (index_by desired_index desired) ≡ some d
      → (c : C) × (lookup idx (index_by current_index current) ≡ some c) × Same c d

module _ {C D : Type 0} (current_index : C → ℤ) (desired_index : D → ℤ)
    (changes : ℤ → C → D → List String) (Same : C → D → Type 0)
    (decides : (idx : ℤ) (c : C) (d : D) → (changes idx c d ≡ []) ↔ Same c d) where
  ChangesNothing : Dict ℤ C → ℤ × D → Type 0
  ChangesNothing m e = compare_interface current_index desired_index changes m e ≡ []

  ChangesNothing-prop : (m : Dict ℤ C) (e : ℤ × D) → IsProp (ChangesNothing m e)
  unfolding ChangesNothing
  ChangesNothing-prop m e = lines_set _ _

  compare_interface_iff :
      (m : Dict ℤ C) (idx : ℤ) (d : D)
      → ChangesNothing m (idx, d) ↔ ((c : C) × (lookup idx m ≡ some c) × Same c d)
  unfolding ChangesNothing compare_interface
  compare_interface_iff m idx d = elim (Option-cases (lookup idx m)) [
    | inl missing ↦ (λ h. cc (rw (missing, compare_interface) at h), λ (c, found, s). cc)
    | inr (c, found) ↦ (
      (λ h. (c, found, (decides idx c d).0 (rw (found, compare_interface) at h))),
      (λ (c', found', s). rw (found', compare_interface) ((decides idx c' d).1 s)),
    )
  ]

  module _ (range : RangeOrder) (shuffle : IsShuffle range) (current : List C)
      (desired : List D) where
    currents : Dict ℤ C
    currents = index_by current_index current

    wanted : Dict ℤ D
    wanted = index_by desired_index desired

    -- The loop reports nothing, in whatever order the map is visited, exactly when the interfaces
    -- agree.
    loop_iff :
        (concat_map
            (compare_interface current_index desired_index changes currents)
            (range _ wanted)
          ≡ [])
        ↔ ((idx : ℤ) (d : D)
            → lookup idx wanted ≡ some d
            → (c : C) × (lookup idx currents ≡ some c) × Same c d)
    unfolding ChangesNothing wanted currents
    loop_iff = (
      (λ h idx d found. (compare_interface_iff currents idx d).0 (
          lookup-of_All (ChangesNothing currents) wanted idx d
            (All-perm (ChangesNothing currents) (ChangesNothing-prop currents)
              (Perm.symm (shuffle _ wanted)) ((concat_map-nil_iff _ _).0 h))
            found)),
      (λ each. (concat_map-nil_iff _ _).1 (
          All-perm (ChangesNothing currents) (ChangesNothing-prop currents) (shuffle _ wanted) (
            All-of_lookup (ChangesNothing currents) wanted (index_by-Distinct desired_index desired)
              (λ idx d found. (compare_interface_iff currents idx d).1 (each idx d found))))),
    )

    pub compare_interfaces_iff :
        (compare_interfaces current_index desired_index changes range current desired ≡ [])
        ↔ SameInterfaces current_index desired_index Same current desired
    unfolding compare_interfaces currents wanted
    compare_interfaces_iff = elim (Bool-cases (length current == length desired)) [
      | inr differ ↦ (
        (λ h. cc (rw (differ, compare_interfaces) at h)),
        (λ s. ground (arith, s.count, nat_eq.beq_iff (length current) (length desired))),
      )
      | inl same ↦ rw same (
        (λ h. record { count = (nat_eq.beq_iff _ _).0 same; each = loop_iff.0 h }),
        (λ s. loop_iff.1 s.each),
      )
    ]

module _ {C D : Type 0} (current_index : C → ℤ) (desired_index : D → ℤ)
    (Same : C → D → Type 0) where
  -- Converting each configured interface to one that agrees makes interfaces that agree.
  pub SameInterfaces-map :
      (f : D → C)
      → ((d : D) → current_index (f d) ≡ desired_index d)
      → ((d : D) → Same (f d) d)
      → (ds : List D) → SameInterfaces current_index desired_index Same (map f ds) ds
  SameInterfaces-map f keeps same ds = record {
    count = length-map f ds;
    each = λ idx d found.
        (f d, lookup-index_by-map desired_index current_index f keeps ds idx ∙ cc, same d);
  }

  -- So does converting each current interface to a configured one that agrees.
  pub SameInterfaces-map_back :
      (g : C → D)
      → ((c : C) → desired_index (g c) ≡ current_index c)
      → ((c : C) → Same c (g c))
      → (cs : List C) → SameInterfaces current_index desired_index Same cs (map g cs)
  SameInterfaces-map_back g keeps same cs = record {
    count = sym (length-map g cs);
    each = λ idx d found. elim (Option-cases (lookup idx (index_by current_index cs))) [
      | inl missing ↦ cc (lookup-index_by-map current_index desired_index g keeps cs idx)
      | inr (c, there) ↦ (
        c,
        there,
        subst (Same c) (cc (lookup-index_by-map current_index desired_index g keeps cs idx))
            (same c),
      )
    ];
  }
