-- ===== src/Base/Tables.antt =====
-- A loop over a map that lists what some of its entries show, in any order of visit.
use mathlib.Core.List.Perm
use mathlib.Core.List.{List, [], ◌∷◌, ◌++◌}
use mathlib.Core.Path.{◌≡◌, refl, subst, sym, ◌∙◌}
use mathlib.Core.Logic.{inl, inr}
use mathlib.Core.Option.{some, none}
use mathlib.Core.Bool.{Bool, true, false}
use native.Mathlib.Omega.{arith}
use apprun_dedicated_provisi.Base.Tests.{if◌then◌else◌, Bool-cases}
use apprun_dedicated_provisi.Base.Equality.{Eq, ◌==◌}
use apprun_dedicated_provisi.Base.Lists.{All, All-imp, All-append, All-perm, concat_map}
use apprun_dedicated_provisi.Base.Dict.{
  Dict, RangeOrder, IsShuffle, Distinct, lookup, insert, index_onto, index_by, All-of_lookup,
  lookup-of_All, lookup-insert,
}

All-concat_map_each :
    {A B : Type 0} (P : B → Type 0) (f : A → List B) (xs : List A)
    → All (λ x. All P (f x)) xs
    → All P (concat_map f xs)
All-concat_map_each P f [] h = tt
All-concat_map_each P f (x ∷ xs) h =
    All-append P (f x) (concat_map f xs) h.0 (All-concat_map_each P f xs h.1)

All-append_split :
    {B : Type 0} (P : B → Type 0) (xs ys : List B) → All P (xs ++ ys) → All P xs × All P ys
All-append_split P [] ys h = (tt, h)
All-append_split P (x ∷ xs) ys h =
    let (first, second) = All-append_split P xs ys h.1 in ((h.0, first), second)

All-each_concat_map :
    {A B : Type 0} (P : B → Type 0) (f : A → List B) (xs : List A)
    → All P (concat_map f xs)
    → All (λ x. All P (f x)) xs
All-each_concat_map P f [] h = tt
All-each_concat_map P f (x ∷ xs) h =
    let (first, rest) = All-append_split P (f x) (concat_map f xs) h in
    (first, All-each_concat_map P f xs rest)

module _ {K V B : Type 0} ⦃e : Eq K⦄ (range : RangeOrder) (shuffle : IsShuffle range)
    (table : Dict K V) (distinct : Distinct table) (shown : K × V → Bool) (show : K × V → B)
    (f : K × V → List B) (shape : (x : K × V) → f x ≡ (if shown x then show x ∷ [] else []))
    (P : B → Type 0) (prop : (b : B) → IsProp (P b)) where
  abbrev Holds : K × V → Type 0
  Holds x = shown x ≡ true → P (show x)

  Holds-IsProp : (x : K × V) → IsProp (Holds x)
  Holds-IsProp x = hlevel prop

  entry_listed : (x : K × V) → Holds x → All P (f x)
  entry_listed x h =
      rw (shape x) (elim (Bool-cases (shown x)) [
        | inl here ↦ rw here (h here, tt)
        | inr hidden ↦ rw hidden tt
      ])

  listed_entry : (x : K × V) → All P (f x) → Holds x
  listed_entry x h here = (rw (shape x, here) at h).0

  -- What holds of each entry that is shown holds of all that is listed.
  pub All-listing :
      ((k : K) (v : V) → lookup k table ≡ some v → shown (k, v) ≡ true → P (show (k, v)))
      → All P (concat_map f (range _ table))
  All-listing h = All-concat_map_each P f (range _ table) (
      All-imp Holds _ (range _ table) entry_listed (
        All-perm Holds Holds-IsProp (shuffle _ table)
          (All-of_lookup Holds table distinct (λ k v found here. h k v found here))))

  -- What holds of all that is listed holds of each entry that is shown.
  pub listing-All :
      (k : K) (v : V)
      → All P (concat_map f (range _ table))
      → lookup k table ≡ some v
      → shown (k, v) ≡ true
      → P (show (k, v))
  listing-All k v all found =
      lookup-of_All Holds table k v
        (All-perm Holds Holds-IsProp (Perm.symm (shuffle _ table)) (
          All-imp _ Holds (range _ table) listed_entry
            (All-each_concat_map P f (range _ table) all)))
        found

some_injective : {A : Type 0} {a b : A} → some a ≡ some b → a ≡ b
some_injective h = cc

module _ {K : Type 0} ⦃e : Eq K⦄ {V : Type 0} (key : V → K) (P : V → Type 0) where
  index_onto_found :
      (m : Dict K V) (xs : List V) (k : K) (b : V)
      → ((c : V) → lookup k m ≡ some c → P c)
      → All (λ x. (key x == k) ≡ true → P x) xs
      → lookup k (index_onto key m xs) ≡ some b
      → P b
  unfolding index_onto
  index_onto_found m [] k b old all found = old b found
  index_onto_found m (x ∷ xs) k b old all found =
      index_onto_found (insert (key x) x m) xs k b
        (λ c h. elim (Bool-cases (key x == k)) [
          | inl same ↦
              subst P (some_injective (sym (lookup-insert (key x) k x m ∙ rw same refl) ∙ h))
                (all.0 same)
          | inr other ↦ old c (sym (lookup-insert (key x) k x m ∙ rw other refl) ∙ h)
        ])
        all.1 found

  -- What is found under a key has what all elements with that key have.
  pub lookup-index_by-All :
      (xs : List V) (k : K) (b : V)
      → All (λ x. (key x == k) ≡ true → P x) xs
      → lookup k (index_by key xs) ≡ some b
      → P b
  unfolding index_by lookup
  lookup-index_by-All xs k b = index_onto_found [] xs k b (λ c h. cc)

module _ {K : Type 0} ⦃e : Eq K⦄ {V : Type 0} (key : V → K) where
  index_onto_missing :
      (m : Dict K V) (xs : List V) (k : K)
      → lookup k (index_onto key m xs) ≡ none
      → (lookup k m ≡ none) × All (λ x. (key x == k) ≡ false) xs
  unfolding index_onto
  index_onto_missing m [] k h = (h, tt)
  index_onto_missing m (x ∷ xs) k h =
      let (before, rest) = index_onto_missing (insert (key x) x m) xs k h in
      let other : (key x == k) ≡ false = ground (arith, lookup-insert (key x) k x m, before) in
      (ground (arith, lookup-insert (key x) k x m, before, other), (other, rest))

  -- A key that is not found is that of no element.
  pub lookup-index_by_missing :
      (xs : List V) (k : K) → lookup k (index_by key xs) ≡ none → All (λ x. (key x == k) ≡ false) xs
  unfolding index_by
  lookup-index_by_missing xs k h = (index_onto_missing [] xs k h).1
