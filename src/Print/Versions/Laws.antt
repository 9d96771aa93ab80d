-- ===== src/Print/Versions/Laws.antt =====
-- In which order printVersionList prints the versions.
use mathlib.Core.List.{reverse, reverse_aux}
use apprun_dedicated_provisi.Base.{
  ℕ, suc, ◌+◌, some, List, [], ◌∷◌, map, length, get_elem?, ◌≡◌, refl, ap, ◌∙◌, arith,
}
use apprun_dedicated_provisi.Shell.{Shell}
use apprun_dedicated_provisi.Provisioner.Versions.{VersionInfo}
use apprun_dedicated_provisi.Print.Versions.{version_row, rows_down}

module _ (shell : Shell) where
  row_at :
      (versions : List VersionInfo) (n : ℕ) (v : VersionInfo)
      → get_elem? versions n ≡ some v
      → rows_down shell (suc n) versions ≡ version_row shell v ∷ rows_down shell n versions
  unfolding rows_down
  row_at versions n v found = rw (found, rows_down) refl

  -- The loop on from index `n`, where `rest` are the versions at `n` and above.
  rows_down_from :
      (versions rest : List VersionInfo) (n : ℕ)
      → ((i : ℕ) → get_elem? versions (n + i) ≡ get_elem? rest i)
      → rows_down shell (n + length rest) versions
        ≡ reverse_aux (map (version_row shell) rest) (rows_down shell n versions)
  rows_down_from versions [] n h = ap (λ m. rows_down shell m versions) (omega arith)
  rows_down_from versions (v ∷ rest) n h =
      ap (λ m. rows_down shell m versions) (omega arith)
      ∙ rows_down_from versions rest (suc n)
          (λ i. ap (get_elem? versions) (omega arith) ∙ h (suc i))
      ∙ ap (reverse_aux (map (version_row shell) rest))
          (row_at versions n v (ap (get_elem? versions) (omega arith) ∙ h 0))

  -- printVersionList prints a row for each listed version, none left out and none twice, in the
  -- reverse of the order in which the service listed them.
  pub rows_down-reverse :
      (versions : List VersionInfo)
      → rows_down shell (length versions) versions ≡ reverse (map (version_row shell) versions)
  unfolding rows_down
  rows_down-reverse versions =
      ap (λ m. rows_down shell m versions) (omega arith)
      ∙ rows_down_from versions versions 0 (λ i. ap (get_elem? versions) (omega arith))
