-- ===== src/Config/Load.antt =====
-- config/loader.go: Load and ToYAML.
use apprun_dedicated_provisi.Base.{String, none, some}
use apprun_dedicated_provisi.Result.{Reply, value, failure, wrapped, invalid_config}
use apprun_dedicated_provisi.Shell.{Shell}
use apprun_dedicated_provisi.Config.{ClusterConfig}
use apprun_dedicated_provisi.Config.Validate.{validate}

module _ (shell : Shell) where
  -- Load
  unfoldable pub load : String → Reply ClusterConfig
  unfolding validate
  load path = elim (shell.read_file path) [
    | failure e ↦ failure (wrapped "failed to read config file" e)
    | value data_ ↦ elim (shell.unmarshal_config data_) [
      | failure e ↦ failure (wrapped "failed to parse config file" e)
      | value config ↦ elim (validate config) [
        | some e ↦ failure (wrapped "invalid config" (invalid_config e))
        | none ↦ value config
      ]
    ]
  ]

  -- ToYAML
  unfoldable pub to_yaml : ClusterConfig → Reply String
  to_yaml config = elim (shell.encode_config config) [
    | failure e ↦ failure (wrapped "failed to marshal config" e)
    | value text ↦ value text
  ]
