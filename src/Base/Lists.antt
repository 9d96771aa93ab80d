-- ===== src/Base/Lists.antt =====
-- Lists measured by native numbers, and predicates on them by recursion.
use Prim.Native.Nat.{ℕ, zero, suc, ◌+◌}
use mathlib.Core.Path.{◌≡◌, refl, ap}
use mathlib.Core.Option.{Option, none, some}
use mathlib.Core.List.{List, [], ◌∷◌, ◌++◌, map, Mem, Perm, mem-cons_self, mem-cons_of_mem}
use mathlib.Core.List.Perm
use Prim.Native.String.{String}
use text.Mathlib.TextEquality.{IsScalar-prop}
use mathlib.Core.List.{not-mem-nil, eq-or-mem_of_mem-cons}
use mathlib.Core.Logic.Or
use mathlib.Core.Logic.{◌↔◌, ◌⊎◌, inl, inr}
use mathlib.Core.Path.{subst, sym}
use mathlib.Core.Bool.{Bool, true, false}
use apprun_dedicated_provisi.Base.Tests.{if◌then◌else◌}
use native.Mathlib.Omega.{arith}

-- Every element has the property.
abbrev pub All {ℓ κ} : {X : Type ℓ} → (X → Type κ) → List X → Type κ
All holds [] = Unit
All holds (first ∷ rest) = holds first × All holds rest

module _ {ℓ} {A : Type ℓ} where
  abbrev pub length : List A → ℕ
  length [] = 0
  length (x ∷ xs) = suc (length xs)

  pub length-append : (xs ys : List A) → length (xs ++ ys) ≡ length xs + length ys
  length-append [] ys = omega arith
  length-append (x ∷ xs) ys = omega (arith, length-append xs ys)

  pub All-append {κ} : (P : A → Type κ) (xs ys : List A) → All P xs → All P ys → All P (xs ++ ys)
  All-append P [] ys here later = later
  All-append P (x ∷ xs) ys (now, here) later = (now, All-append P xs ys here later)

  abbrev pub concat_map {κ} : {B : Type κ} → (A → List B) → List A → List B
  concat_map f [] = []
  concat_map f (x ∷ xs) = f x ++ concat_map f xs

  -- The first element that passes a test: a loop that returns or breaks there.
  abbrev pub find : (A → Bool) → List A → Option A
  find p [] = none
  find p (x ∷ xs) = if p x then some x else find p xs

  -- Whether a loop that breaks at the first element that passes a test meets one.
  abbrev pub any : (A → Bool) → List A → Bool
  any p [] = false
  any p (x ∷ xs) = if p x then true else any p xs

pub All-map {ℓ κ μ} :
    {A : Type ℓ} {B : Type κ} (P : B → Type μ) (f : A → B) (xs : List A)
    → All (λ x. P (f x)) xs
    → All P (map f xs)
All-map P f [] h = tt
All-map P f (x ∷ xs) h = (h.0, All-map P f xs h.1)

pub All-unmap {ℓ κ μ} :
    {A : Type ℓ} {B : Type κ} (P : B → Type μ) (f : A → B) (xs : List A)
    → All P (map f xs)
    → All (λ x. P (f x)) xs
All-unmap P f [] h = tt
All-unmap P f (x ∷ xs) h = (h.0, All-unmap P f xs h.1)

-- From one property of every element to another.
pub All-imp {ℓ κ μ} :
    {A : Type ℓ} (P : A → Type κ) (Q : A → Type μ) (xs : List A)
    → ((x : A) → P x → Q x)
    → All P xs
    → All Q xs
All-imp P Q [] h a = tt
All-imp P Q (x ∷ xs) h a = (h x a.0, All-imp P Q xs h a.1)

pub All-and {ℓ κ μ} :
    {A : Type ℓ} (P : A → Type κ) (Q : A → Type μ) (xs : List A)
    → All P xs
    → All Q xs
    → All (λ x. P x × Q x) xs
All-and P Q [] a b = tt
All-and P Q (x ∷ xs) a b = ((a.0, b.0), All-and P Q xs a.1 b.1)

-- What holds of every element of every part holds of the concatenation.
pub All-concat_map {ℓ κ μ} :
    {A : Type ℓ} {B : Type κ} (P : B → Type μ) (f : A → List B) (xs : List A)
    → ((x : A) → All P (f x))
    → All P (concat_map f xs)
All-concat_map P f [] h = tt
All-concat_map P f (x ∷ xs) h = All-append P (f x) (concat_map f xs) (h x) (All-concat_map P f xs h)

-- What holds of every image holds of all of a mapped list.
pub All-map_every {ℓ κ μ} :
    {A : Type ℓ} {B : Type κ} (P : B → Type μ) (f : A → B) (xs : List A)
    → ((x : A) → P (f x))
    → All P (map f xs)
All-map_every P f [] h = tt
All-map_every P f (x ∷ xs) h = (h x, All-map_every P f xs h)

-- Two predicates that imply each other, element by element.
pub All-iff {ℓ κ μ ν} :
    {A : Type ℓ} {B : Type κ} (P : B → Type μ) (Q : A → Type ν) (f : A → B) (xs : List A)
    → ((x : A) → P (f x) ↔ Q x)
    → All P (map f xs) ↔ All Q xs
All-iff P Q f [] h = (λ a. tt, λ a. tt)
All-iff P Q f (x ∷ xs) h = (
  (λ a. ((h x).0 a.0, (All-iff P Q f xs h).0 a.1)),
  (λ a. ((h x).1 a.0, (All-iff P Q f xs h).1 a.1)),
)

pub All-unappend {ℓ κ} :
    {A : Type ℓ} (P : A → Type κ) (xs ys : List A) → All P (xs ++ ys) → All P xs
All-unappend P [] ys h = tt
All-unappend P (x ∷ xs) ys h = (h.0, All-unappend P xs ys h.1)

pub length-map {ℓ κ} :
    {A : Type ℓ} {B : Type κ} (f : A → B) (xs : List A) → length (map f xs) ≡ length xs
length-map f [] = refl
length-map f (x ∷ xs) = ap suc (length-map f xs)

pub append-eq-nil {ℓ} : {A : Type ℓ} (xs ys : List A) → xs ++ ys ≡ [] → (xs ≡ []) × (ys ≡ [])
append-eq-nil [] ys h = (refl, h)
append-eq-nil (x ∷ xs) ys h = cc

module _ {ℓ κ} {A : Type ℓ} {B : Type κ} (f : A → List B) where
  -- A concatenation is empty when every part is.
  pub concat_map-nil_iff : (xs : List A) → (concat_map f xs ≡ []) ↔ All (λ x. f x ≡ []) xs
  concat_map-nil_iff [] = (λ _. tt, λ _. refl)
  concat_map-nil_iff (x ∷ xs) = (
    (λ h. let (p, q) = append-eq-nil (f x) _ h in (p, (concat_map-nil_iff xs).0 q)),
    (λ a. rw (a.0) ((concat_map-nil_iff xs).1 a.1)),
  )

module _ {ℓ κ} {A : Type ℓ} (P : A → Type κ) (prop : (a : A) → IsProp (P a)) where
  All-mem : (xs : List A) → All P xs → (x : A) → Mem x xs → P x
  All-mem [] h x m = absurd (not-mem-nil m)
  All-mem (y ∷ xs) h x m =
      Or.elim (prop x) (eq-or-mem_of_mem-cons m) (λ e. subst P (sym e) h.0) (All-mem xs h.1 x)

  All-of_mem : (xs : List A) → ((x : A) → Mem x xs → P x) → All P xs
  All-of_mem [] h = tt
  All-of_mem (x ∷ xs) h = (h x mem-cons_self, All-of_mem xs (λ y m. h y (mem-cons_of_mem x m)))

  -- What holds of all elements holds of all in any order.
  pub All-perm : {xs ys : List A} → Perm xs ys → All P ys → All P xs
  All-perm {xs} {ys} p h = All-of_mem xs (λ x m. All-mem ys h x ((Perm.mem_iff p).0 m))

-- Some element has the property.
abbrev pub is_empty {ℓ} : {A : Type ℓ} → List A → Bool
is_empty [] = true
is_empty (x ∷ xs) = false

pub any-none {ℓ} :
    {A : Type ℓ} (p : A → Bool) (xs : List A) → any p xs ≡ false → All (λ x. p x ≡ false) xs
any-none p [] h = tt
any-none p (x ∷ xs) h = (ground arith, any-none p xs (ground arith))

-- The element at an index.
abbrev pub get_elem? {ℓ} : {A : Type ℓ} → List A → ℕ → Option A
get_elem? [] i = none
get_elem? (x ∷ xs) zero = some x
get_elem? (x ∷ xs) (suc i) = get_elem? xs i

abbrev pub AnyOf : {A : Type 0} → (A → Type 0) → List A → Type 0
AnyOf P [] = ⊥
AnyOf P (x ∷ xs) = P x ⊎ AnyOf P xs

-- A family of properties that suffices when some element has it suffices at every element.
pub All-of_AnyOf :
    {A B : Type 0} (P : A → B → Type 0) (Q : B → Type 0) (xs : List A)
    → ((b : B) → AnyOf (λ a. P a b) xs → Q b)
    → All (λ a. (b : B) → P a b → Q b) xs
All-of_AnyOf P Q [] h = tt
All-of_AnyOf P Q (x ∷ xs) h = (λ b p. h b (inl p), All-of_AnyOf P Q xs (λ b s. h b (inr s)))

-- Lines of text are a set: two proofs of an equation between them are equal.
pub lines_set : IsSet (List String)
lines_set = hlevel IsScalar-prop
