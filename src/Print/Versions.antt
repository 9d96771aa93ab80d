-- ===== src/Print/Versions.antt =====
-- cmd/apprun-dedicated-provisioner/main.go: printVersionList, printVersionDiff and truncateString.
pub mod Laws
use Prim.Native.String.{len, count, slice}
use apprun_dedicated_provisi.Base.{
  ℕ, zero, suc, ◌-◌, ℤ, pos, ltb_ℤ, leb, String, ◌<>◌, Bool, ◌||◌, Option, none, some, List, [],
  ◌∷◌, ◌++◌, map, length, get_elem?, is_empty, if◌then◌else◌,
}
use apprun_dedicated_provisi.Base.Text.{show_nat, show_int}
use apprun_dedicated_provisi.Version.Diff.{VersionDiff}
use apprun_dedicated_provisi.Provisioner.Versions.{VersionInfo, VersionList}
use apprun_dedicated_provisi.Shell.{Shell}

spaces : ℕ → String
spaces zero = ""
spaces (suc n) = " " <> spaces n

-- %-*s: blanks behind the text up to a width in characters.
padded : ℕ → String → String
unfolding spaces
padded width s = s <> spaces (width - count s)

-- truncateString, for a limit of three bytes or more. Where the cut is inside a character of several
-- bytes, the rest of that character is left out.
unfoldable pub truncate_string : String → ℕ → String
truncate_string s max_len =
    if leb (len s) max_len then s else "..." <> slice s (len s - (max_len - 3)) (len s)

module _ (shell : Shell) where
  -- One round of the loop over the versions.
  unfoldable pub version_row : VersionInfo → String
  unfolding padded truncate_string
  version_row v =
      padded 8 (show_int v.version)
      <> " "
      <> padded 30 (truncate_string v.image 30)
      <> " "
      <> padded 20 (shell.format_time v.created)
      <> " "
      <> padded 6 (show_int v.active_nodes)
      <> " "
      <> (if v.is_active then "active" else "")
      <> "\n"

  -- The loop from index `i - 1` down to 0.
  unfoldable pub rows_down : ℕ → List VersionInfo → List String
  unfolding version_row
  rows_down zero versions = []
  rows_down (suc i) versions = elim (get_elem? versions i) [
    | none ↦ []
    | some v ↦ version_row v ∷ rows_down i versions
  ]

  -- printVersionList
  unfoldable pub print_version_list : VersionList → List String
  unfolding rows_down padded
  print_version_list list =
      (("Application: "
          <> list.application_name
          <> " ("
          <> shell.show_uuid list.application_id
          <> ")\n\n")
        ∷ [])
      ++ (if is_empty list.versions
          then "No versions found.\n" ∷ []
          else ((padded 8 "VERSION"
                <> " "
                <> padded 30 "IMAGE"
                <> " "
                <> padded 20 "CREATED"
                <> " "
                <> padded 6 "NODES"
                <> " STATUS\n")
              ∷ [])
            ++ (rows_down (length list.versions) list.versions
                ++ ((("\nTotal: " <> show_nat (length list.versions) <> " versions\n") ∷ [])
                    ++ ((if ltb_ℤ (pos 0) list.active_version
                          then "Active version: " <> show_int list.active_version <> "\n"
                          else "Active version: (none)\n")
                        ∷ (if ltb_ℤ (pos 0) list.latest_version
                            then ("Latest version: " <> show_int list.latest_version <> "\n") ∷ []
                            else [])))))

-- printVersionDiff
unfoldable pub print_version_diff : String → VersionDiff → List String
print_version_diff app_name diff =
    (("Application: " <> app_name <> "\n")
      ∷ ("Comparing version "
          <> show_int diff.from_version
          <> " → "
          <> show_int diff.to_version
          <> "\n\n")
      ∷ [])
    ++ ((if is_empty diff.changes
          then "No differences found.\n" ∷ []
          else map (λ change. "  " <> change <> "\n") diff.changes)
        ++ (if diff.has_secret_env || diff.has_registry_pwd
            then "\n"
              ∷ "Note: secret env values and registryPassword cannot be compared (values not returned by API)\n"
              ∷ []
            else []))
