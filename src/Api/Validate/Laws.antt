-- ===== src/Api/Validate/Laws.antt =====
-- When a check of api/oas_validators_gen.go finds nothing, and what ogen's checks of values are
-- documented to say.
use Prim.Native.Nat.{◌≤◌}
use apprun_dedicated_provisi.Base.{
  ℕ, suc, ◌+◌, ℤ, pos, String, ◌<>◌, true, false, Option, none, some, List, [], ◌∷◌, ◌++◌, ◌≡◌, ◌↔◌,
  refl, arith, All, length, append-eq-nil,
}
use apprun_dedicated_provisi.Base.Text.{show_nat}
use apprun_dedicated_provisi.Config.Validate.Laws.{InRange}
use apprun_dedicated_provisi.Api.Validate.{
  Checks, Errors, field, fields, elements, if_given, int_errors, string_errors, array_errors,
  optional_array, validate_version_number,
}

-- What the documentation of ogen's validators says: bounds are inclusive, and a text with a least
-- length of one or more is not empty.
pub record AreChecks (checks : Checks) : Type 0 where
  pub between :
      (lo hi : ℕ) (n : ℤ)
      → (checks.int_ok (some (pos lo)) (some (pos hi)) n ≡ true) ↔ InRange lo hi n
  pub at_least : (lo n : ℕ) → lo ≤ n → checks.int_ok (some (pos lo)) none (pos n) ≡ true
  pub at_most : (hi n : ℕ) → (checks.length_ok none (some hi) n ≡ true) ↔ (n ≤ hi)
  pub not_empty :
      (lo : ℕ) (hi : Option ℕ) (regex : Option String)
      → checks.string_ok (some (suc lo)) hi regex "" ≡ false

-- A property of the value, where there is one.
abbrev pub Given : {A : Type 0} → (A → Type 0) → Option A → Type 0
Given P none = Unit
Given P (some a) = P a

-- A check that finds nothing.
abbrev pub Accepts : {A : Type 0} → (A → Errors) → A → Type 0
Accepts validate a = validate a ≡ []

field-nil_iff : (name : String) (errors : Errors) → (field name errors ≡ []) ↔ (errors ≡ [])
unfolding field
field-nil_iff name [] = (λ _. refl, λ _. refl)
field-nil_iff name (e ∷ errors) = (λ h. cc, λ h. cc)

append-nil : (xs ys : Errors) → xs ≡ [] → ys ≡ [] → xs ++ ys ≡ []
append-nil xs ys p q = rw (p) q

-- A record is accepted when each of its fields is.
pub fields-nil_iff : (fs : List (String × Errors)) → (fields fs ≡ []) ↔ All (λ f. f.1 ≡ []) fs
unfolding fields
fields-nil_iff [] = (λ _. tt, λ _. refl)
fields-nil_iff ((name, errors) ∷ rest) = (
  λ h.
      let (now, later) = append-eq-nil (field name errors) (fields rest) h in
      ((field-nil_iff name errors).0 now, (fields-nil_iff rest).0 later),
  λ a.
      append-nil (field name errors) (fields rest) ((field-nil_iff name errors).1 a.0)
        ((fields-nil_iff rest).1 a.1),
)

module _ {A : Type 0} (validate : A → Errors) where
  pub elements-nil_iff :
      (i : ℕ) (xs : List A) → (elements validate i xs ≡ []) ↔ All (Accepts validate) xs
  unfolding elements
  elements-nil_iff i [] = (λ _. tt, λ _. refl)
  elements-nil_iff i (x ∷ xs) =
      let name = "[" <> show_nat i <> "]" in
      (
        λ h.
            let (now, later) = append-eq-nil (field name (validate x)) _ h in
            ((field-nil_iff name (validate x)).0 now, (elements-nil_iff (i + 1) xs).0 later),
        λ a.
            append-nil (field name (validate x)) _ ((field-nil_iff name (validate x)).1 a.0)
              ((elements-nil_iff (i + 1) xs).1 a.1),
      )

  pub if_given-nil_iff : (o : Option A) → (if_given validate o ≡ []) ↔ Given (Accepts validate) o
  unfolding if_given
  if_given-nil_iff none = (λ _. tt, λ _. refl)
  if_given-nil_iff (some a) = (λ h. h, λ h. h)

module _ (checks : Checks) where
  pub int_errors-nil_iff :
      (lo hi : Option ℤ) (n : ℤ) → (int_errors checks lo hi n ≡ []) ↔ (checks.int_ok lo hi n ≡ true)
  unfolding int_errors
  int_errors-nil_iff lo hi n = ground arith

  pub string_errors-nil_iff :
      (lo hi : Option ℕ) (regex : Option String) (s : String)
      → (string_errors checks lo hi regex s ≡ []) ↔ (checks.string_ok lo hi regex s ≡ true)
  unfolding string_errors
  string_errors-nil_iff lo hi regex s = ground arith

  pub array_errors-nil_iff :
      {A : Type 0} (lo hi : Option ℕ) (validate : A → Errors) (xs : List A)
      → (array_errors checks lo hi validate xs ≡ [])
        ↔ ((checks.length_ok lo hi (length xs) ≡ true) × All (Accepts validate) xs)
  unfolding array_errors
  array_errors-nil_iff lo hi validate xs =
      ground (arith, (elements-nil_iff validate 0 xs).0, (elements-nil_iff validate 0 xs).1)

module _ (checks : Checks) (laws : AreChecks checks) where
  pub version_number_positive : (n : ℕ) → 1 ≤ n → validate_version_number checks (pos n) ≡ []
  unfolding validate_version_number
  version_number_positive n h =
      (int_errors-nil_iff checks (some (pos 1)) none (pos n)).1 (laws.at_least 1 n h)

  pub optional_array-nil_iff :
      {A : Type 0} (hi : ℕ) (validate : A → Errors) (xs : List A)
      → (optional_array checks hi validate xs ≡ []) ↔ ((length xs ≤ hi) × All (Accepts validate) xs)
  unfolding optional_array
  optional_array-nil_iff hi validate [] = (λ h. (omega arith, tt), λ h. refl)
  optional_array-nil_iff hi validate (x ∷ xs) = ground (
    arith,
    array_errors-nil_iff checks none (some hi) validate (x ∷ xs),
    laws.at_most hi (length (x ∷ xs)),
  )

  pub bounded_array-nil_iff :
      {A : Type 0} (hi : ℕ) (validate : A → Errors) (xs : List A)
      → (array_errors checks none (some hi) validate xs ≡ [])
        ↔ ((length xs ≤ hi) × All (Accepts validate) xs)
  bounded_array-nil_iff hi validate xs =
      ground
        (arith, array_errors-nil_iff checks none (some hi) validate xs, laws.at_most hi (length xs))

  pub between-nil_iff :
      (lo hi : ℕ) (n : ℤ)
      → (int_errors checks (some (pos lo)) (some (pos hi)) n ≡ []) ↔ InRange lo hi n
  between-nil_iff lo hi n = (
    λ h.
        (laws.between lo hi n).0
          ((int_errors-nil_iff checks (some (pos lo)) (some (pos hi)) n).0 h),
    λ r.
        (int_errors-nil_iff checks (some (pos lo)) (some (pos hi)) n).1
          ((laws.between lo hi n).1 r),
  )
