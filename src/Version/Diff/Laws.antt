-- ===== src/Version/Diff/Laws.antt =====
-- When two versions show no difference.
use apprun_dedicated_provisi.Base.{
  ℤ, false, ◌||◌, some, List, [], ◌++◌, ◌≡◌, refl, inl, inr, ◌↔◌, arith, All, All-imp, concat_map,
  concat_map-nil_iff, append-eq-nil, ap₂, Option-cases, string_eq,
}
use apprun_dedicated_provisi.Base.Dict.{lookup, index_by, DistinctBy, lookup-index_by_self}
use apprun_dedicated_provisi.Result.{value}
use apprun_dedicated_provisi.Api.{ReadEnvironmentVariable, ReadApplicationVersionDetail}
use apprun_dedicated_provisi.Spec.{Differ, normalize_from_api, compare_specs, format_changes}
use apprun_dedicated_provisi.Spec.Laws.{IsDiff}
use apprun_dedicated_provisi.Version.{current_key, nil_text, text_changes, removed_line}
use apprun_dedicated_provisi.Version.Diff.{
  VersionDiff, added, to_changes, from_changes, compare_version_env, has_registry, diff_details,
}

-- The earlier version has the variable, and one of the two is secret or their texts are equal.
abbrev pub Kept : List ReadEnvironmentVariable → ReadEnvironmentVariable → Type 0
Kept from e =
    (f : ReadEnvironmentVariable) × (lookup e.key (index_by current_key from) ≡ some f)
    × ((e.secret || f.secret) ≡ false → nil_text f.value ≡ nil_text e.value)

-- The later version has the variable.
abbrev pub StillThere : List ReadEnvironmentVariable → ReadEnvironmentVariable → Type 0
StillThere to f = (e : ReadEnvironmentVariable) × (lookup f.key (index_by current_key to) ≡ some e)

to_changes-nil_iff :
    (from : List ReadEnvironmentVariable) (e : ReadEnvironmentVariable)
    → (to_changes (index_by current_key from) e ≡ []) ↔ Kept from e
unfolding to_changes added text_changes
to_changes-nil_iff from e = (
  (λ h. elim (Option-cases (lookup e.key (index_by current_key from))) [
    | inl missing ↦ absurd (ground arith)
    | inr (f, found) ↦
        (f, found, λ plain. ground (arith, string_eq.beq_iff (nil_text f.value) (nil_text e.value)))
  ]),
  (λ (f, found, same).
      ground (arith, same, string_eq.beq_iff (nil_text f.value) (nil_text e.value))),
)

from_changes-nil_iff :
    (to : List ReadEnvironmentVariable) (f : ReadEnvironmentVariable)
    → (from_changes (index_by current_key to) f ≡ []) ↔ StillThere to f
unfolding from_changes removed_line
from_changes-nil_iff to f = (
  (λ h. elim (Option-cases (lookup f.key (index_by current_key to))) [
    | inl missing ↦ absurd (ground arith)
    | inr found ↦ found
  ]),
  (λ (e, found). ground arith),
)

-- compareVersionEnv reports no change exactly when each variable of the later version is in the
-- earlier one with the same text, or one of the two is secret, and each variable of the earlier
-- version is in the later one.
pub compare_version_env-nil_iff :
    (from to : List ReadEnvironmentVariable)
    → ((compare_version_env from to).0 ≡ []) ↔ (All (Kept from) to × All (StillThere to) from)
unfolding compare_version_env
compare_version_env-nil_iff from to =
    let tos = concat_map-nil_iff (to_changes (index_by current_key from)) to in
    let froms = concat_map-nil_iff (from_changes (index_by current_key to)) from in
    (
      (λ h.
          let (p, q) = append-eq-nil (concat_map (to_changes (index_by current_key from)) to) _ h in
          (
            All-imp _ _ to (λ e. (to_changes-nil_iff from e).0) (tos.0 p),
            All-imp _ _ from (λ f. (from_changes-nil_iff to f).0) (froms.0 q),
          )),
      (λ (kept, there).
          ap₂ ◌++◌ (tos.1 (All-imp _ _ to (λ e. (to_changes-nil_iff from e).1) kept))
            (froms.1 (All-imp _ _ from (λ f. (from_changes-nil_iff to f).1) there))),
    )

module _ (diff : Differ) (is_diff : IsDiff diff) where
  -- Let `diff` report no difference where there is none, and let no variable be listed twice in a
  -- version. Then GetVersionDiff of that version with itself, under any two numbers, succeeds and
  -- shows no change.
  pub diff_details_self :
      (from_version to_version : ℤ) (v : ReadApplicationVersionDetail)
      → DistinctBy current_key v.env
      → (d : VersionDiff) × (diff_details diff from_version to_version v v ≡ value d)
        × (d.changes ≡ [])
  unfolding diff_details compare_specs format_changes
  diff_details_self from_version to_version v distinct =
      let found = lookup-index_by_self current_key v.env distinct in
      let same = (compare_version_env-nil_iff v.env v.env).1 (
        All-imp _ (Kept v.env) v.env (λ e h. (e, h, λ plain. refl)) found,
        All-imp _ (StillThere v.env) v.env (λ e h. (e, h)) found,
      ) in
      (
        record {
          from_version = from_version;
          to_version = to_version;
          changes = (compare_version_env v.env v.env).0;
          has_secret_env = (compare_version_env v.env v.env).1;
          has_registry_pwd = has_registry v || has_registry v;
        },
        rw (is_diff.same (normalize_from_api v), diff_details, compare_specs) refl,
        same,
      )
