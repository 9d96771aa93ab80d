-- ===== src/Base/Dict.antt =====
-- Go's maps, as association lists with no key twice. A write to a key that is there replaces its
-- value in place. The order of a `range` over a map is unspecified in Go: a function that ranges
-- over a map takes the order as an argument of type `RangeOrder`.
use mathlib.Core.List.{Perm}
use mathlib.Core.Path.{◌≡◌, refl, ◌∙◌, subst, subst₂}
use apprun_dedicated_provisi.Base.Lists.{All}
use mathlib.Core.Bool.{false}
use mathlib.Core.Logic.{inl, inr}
use mathlib.Core.Option.{Option, none, some}
use mathlib.Core.List.{List, [], ◌∷◌, map}
use native.Mathlib.Omega.{arith}
use apprun_dedicated_provisi.Base.Tests.{if◌then◌else◌, Bool-cases}
use apprun_dedicated_provisi.Base.Equality.{Eq, ◌==◌, beq_refl}

abbrev pub Dict {ℓ κ} : Type ℓ → Type κ → Type (ℓ ⊔ κ)
Dict K V = List (K × V)

-- The order in which one `range` over a map visits its entries.
abbrev pub RangeOrder : Type 1
RangeOrder = (A : Type 0) → List A → List A

-- A `range` visits each entry once.
abbrev pub IsShuffle : RangeOrder → Type 1
IsShuffle range = (A : Type 0) (xs : List A) → Perm (range A xs) xs

module _ {ℓ κ} {K : Type ℓ} ⦃e : Eq K⦄ {V : Type κ} where
  unfoldable pub lookup : K → Dict K V → Option V
  lookup k [] = none
  lookup k ((j, v) ∷ m) = if j == k then some v else lookup k m

  unfoldable pub insert : K → V → Dict K V → Dict K V
  insert at new [] = (at, new) ∷ []
  insert at new ((old, w) ∷ rest) =
      if old == at then (at, new) ∷ rest else (old, w) ∷ insert at new rest

  unfoldable pub remove : K → Dict K V → Dict K V
  remove k [] = []
  remove k ((j, v) ∷ m) = let rest = remove k m in if j == k then rest else (j, v) ∷ rest

  pub lookup-nil : (k : K) → lookup k [] ≡ none
  unfolding lookup
  lookup-nil k = refl

  pub lookup-insert :
      (at k : K) (new : V) (m : Dict K V)
      → lookup k (insert at new m) ≡ (if at == k then some new else lookup k m)
  unfolding lookup insert
  lookup-insert at k new [] = refl
  lookup-insert at k new ((old, w) ∷ rest) =
      ground (arith, lookup-insert at k new rest, e.beq_iff old k, e.beq_iff at k, e.beq_iff old at)

  pub lookup-remove :
      (k j : K) (m : Dict K V) → lookup j (remove k m) ≡ (if k == j then none else lookup j m)
  unfolding lookup remove
  lookup-remove k j [] = ground arith
  lookup-remove k j ((i, w) ∷ m) =
      ground (arith, e.beq_iff k j, e.beq_iff i k, e.beq_iff i j, lookup-remove k j m)

module _ {ℓ κ} {K : Type ℓ} ⦃e : Eq K⦄ {V : Type κ} (key : V → K) where
  -- `for _, x := range xs { m[key(x)] = x }`
  unfoldable pub index_onto : Dict K V → List V → Dict K V
  index_onto m [] = m
  index_onto m (x ∷ xs) = index_onto (insert (key x) x m) xs

  unfoldable pub index_by : List V → Dict K V
  unfolding index_onto insert
  index_by xs = index_onto [] xs

-- No key twice.
module _ {ℓ κ} {K : Type ℓ} ⦃e : Eq K⦄ {V : Type κ} where
  abbrev pub Distinct : Dict K V → Type κ
  Distinct [] = Unit
  Distinct ((k, v) ∷ m) = (lookup k m ≡ none) × Distinct m

  pub insert-Distinct : (k : K) (v : V) (m : Dict K V) → Distinct m → Distinct (insert k v m)
  unfolding lookup insert
  insert-Distinct k v [] d = (refl, tt)
  insert-Distinct k v ((j, w) ∷ m) d = elim (Bool-cases (j == k)) [
    | inl same ↦ rw same (subst (λ i. lookup i m ≡ none) ((e.beq_iff j k).0 same) d.0, d.1)
    | inr other ↦ rw other (
      ground (arith, lookup-insert k j v m, d.0, e.beq_iff k j, e.beq_iff j k),
      insert-Distinct k v m d.1,
    )
  ]

  pub All-of_lookup {μ} :
      (P : K × V → Type μ) (m : Dict K V)
      → Distinct m
      → ((k : K) (v : V) → lookup k m ≡ some v → P (k, v))
      → All P m
  unfolding lookup
  All-of_lookup P [] d h = tt
  All-of_lookup P ((k, v) ∷ m) d h = (
    h k v (rw (beq_refl k)),
    All-of_lookup P m d.1 λ j w found. h j w (elim (Bool-cases (k == j)) [
      | inl same ↦ absurd (
          ground (
            arith,
            (e.beq_iff k j).0 same,
            d.0,
            subst (λ i. lookup i m ≡ none) ((e.beq_iff k j).0 same) d.0,
          ))
      | inr other ↦ rw other found
    ]),
  )

  pub lookup-of_All {μ} :
      (P : K × V → Type μ) (m : Dict K V) (k : K) (v : V) → All P m → lookup k m ≡ some v → P (k, v)
  unfolding lookup
  lookup-of_All P [] k v a h = cc
  lookup-of_All P ((j, w) ∷ m) k v a h = elim (Bool-cases (j == k)) [
    | inl same ↦ subst₂ (λ x y. P (x, y)) ((e.beq_iff j k).0 same) (cc (rw same at h)) a.0
    | inr other ↦ lookup-of_All P m k v a.1 (rw other at h)
  ]

module _ {ℓ κ} {K : Type ℓ} ⦃e : Eq K⦄ {V : Type κ} (key : V → K) where
  index_onto-Distinct : (m : Dict K V) (xs : List V) → Distinct m → Distinct (index_onto key m xs)
  unfolding index_onto
  index_onto-Distinct m [] d = d
  index_onto-Distinct m (x ∷ xs) d =
      index_onto-Distinct (insert (key x) x m) xs (insert-Distinct (key x) x m d)

  pub index_by-Distinct : (xs : List V) → Distinct (index_by key xs)
  unfolding index_by
  index_by-Distinct xs = index_onto-Distinct [] xs tt

-- No two elements with one key.
module _ {ℓ κ} {K : Type ℓ} ⦃e : Eq K⦄ {V : Type κ} (key : V → K) where
  abbrev pub DistinctBy : List V → Type ℓ
  DistinctBy [] = Unit
  DistinctBy (x ∷ xs) = All (λ y. (key y == key x) ≡ false) xs × DistinctBy xs

  index_onto_ne :
      (m : Dict K V) (xs : List V) (k : K)
      → All (λ y. (key y == k) ≡ false) xs
      → lookup k (index_onto key m xs) ≡ lookup k m
  unfolding index_onto
  index_onto_ne m [] k h = refl
  index_onto_ne m (x ∷ xs) k h =
      index_onto_ne (insert (key x) x m) xs k h.1 ∙ ground (arith, lookup-insert (key x) k x m, h.0)

  index_onto_self :
      (m : Dict K V) (xs : List V)
      → DistinctBy xs
      → All (λ x. lookup (key x) (index_onto key m xs) ≡ some x) xs
  unfolding index_onto
  index_onto_self m [] d = tt
  index_onto_self m (x ∷ xs) d = (
    index_onto_ne (insert (key x) x m) xs (key x) d.0
        ∙ ground (arith, lookup-insert (key x) (key x) x m, beq_refl (key x)),
    index_onto_self (insert (key x) x m) xs d.1,
  )

  -- Each element is found under its key.
  pub lookup-index_by_self :
      (xs : List V) → DistinctBy xs → All (λ x. lookup (key x) (index_by key xs) ≡ some x) xs
  unfolding index_by
  lookup-index_by_self xs d = index_onto_self [] xs d

abbrev pub map_option {ℓ κ} : {A : Type ℓ} {B : Type κ} → (A → B) → Option A → Option B
map_option f none = none
map_option f (some a) = some (f a)

-- A conversion that keeps the keys commutes with indexing.
module _ {K : Type 0} ⦃e : Eq K⦄ {V W : Type 0} (key : V → K) (key' : W → K) (f : V → W)
    (keeps : (x : V) → key' (f x) ≡ key x) where
  lookup-index_onto-map :
      (m : Dict K V) (n : Dict K W) (xs : List V)
      → ((k : K) → lookup k n ≡ map_option f (lookup k m))
      → (k : K)
      → lookup k (index_onto key' n (map f xs)) ≡ map_option f (lookup k (index_onto key m xs))
  unfolding index_onto
  lookup-index_onto-map m n [] h k = h k
  lookup-index_onto-map m n (x ∷ xs) h k =
      lookup-index_onto-map (insert (key x) x m) (insert (key' (f x)) (f x) n) xs
        (λ j.
          rw (keeps x)
            (ground (arith, h j, lookup-insert (key x) j x m, lookup-insert (key x) j (f x) n)))
        k

  pub lookup-index_by-map :
      (xs : List V) (k : K)
      → lookup k (index_by key' (map f xs)) ≡ map_option f (lookup k (index_by key xs))
  unfolding index_by lookup
  lookup-index_by-map xs k = lookup-index_onto-map [] [] xs (λ j. refl) k

pub ruleset dict_laws = (lookup-nil, lookup-insert, lookup-remove)
