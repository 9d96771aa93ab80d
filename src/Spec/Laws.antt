-- ===== src/Spec/Laws.antt =====
-- What the comparison relies on of r3labs/diff, and what follows for CompareSpecs.
use apprun_dedicated_provisi.Base.{String, Bool, true, List, [], ◌∷◌, ◌≡◌, refl, arith, All}
use apprun_dedicated_provisi.Result.{Reply, value, failure}
use apprun_dedicated_provisi.Spec.{
  NormalizedSpec, Change, Differ, is_image, format_changes, compare_specs,
}

-- `diff.Diff` finds nothing between equal values, and its changes lie below fields that differ: the
-- path of each change between specs that differ in their images at most starts with "Image".
pub record IsDiff (diff : Differ) : Type 0 where
  pub same : (a : NormalizedSpec) → diff a a ≡ value []
  pub located :
      (a : NormalizedSpec) (image : String) (log : List Change)
      → diff (record a { image = image }) a ≡ value log
      → All (λ c. is_image c.path ≡ true) log

-- The lines of CompareSpecs; an error, which compareVersion only logs, has none.
abbrev pub lines : Reply (List String) → List String
lines (failure e) = []
lines (value ls) = ls

format_changes-image :
    (log : List Change) → All (λ c. is_image c.path ≡ true) log → format_changes true log ≡ []
unfolding format_changes
format_changes-image [] h = refl
format_changes-image (c ∷ log) h = ground (arith, h.0, format_changes-image log h.1)

module _ (diff : Differ) (d : IsDiff diff) where
  pub compare_specs-same :
      (a : NormalizedSpec) (skip_image : Bool) → lines (compare_specs diff a a skip_image) ≡ []
  unfolding compare_specs format_changes
  compare_specs-same a skip_image = rw (d.same a, lines, compare_specs)

  pub compare_specs-image :
      (a : NormalizedSpec) (image : String)
      → lines (compare_specs diff (record a { image = image }) a true) ≡ []
  unfolding compare_specs
  compare_specs-image a image = go (diff (record a { image = image }) a) refl
    where
      go :
          (r : Reply (List Change))
          → diff (record a { image = image }) a ≡ r
          → lines (compare_specs diff (record a { image = image }) a true) ≡ []
      go (failure e) h = rw (h, compare_specs)
      go (value log) h = rw (h, compare_specs) (format_changes-image log (d.located a image log h))
