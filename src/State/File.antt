-- ===== src/State/File.antt =====
-- state/state.go: GetStatePath and LoadState.
use Prim.Native.String.{len, slice}
use apprun_dedicated_provisi.Base.{◌-◌, String, ◌<>◌, none, some, [], if◌then◌else◌}
use apprun_dedicated_provisi.Result.{Reply, value, failure}
use apprun_dedicated_provisi.Shell.{Shell}
use apprun_dedicated_provisi.State.{State, new_state}

abbrev pub state_file_suffix : String
state_file_suffix = ".apprun-state.json"

module _ (shell : Shell) where
  -- GetStatePath
  unfoldable pub get_state_path : String → String
  get_state_path config_path =
      let base = shell.base config_path in
      let name = slice base 0 (len base - len (shell.ext base)) in
      shell.join_path (shell.dir config_path) (name <> state_file_suffix)

  -- LoadState
  unfoldable pub load_state : String → Reply State
  unfolding get_state_path
  load_state config_path = elim (shell.read_file (get_state_path config_path)) [
    | failure e ↦ if shell.is_not_exist e then value new_state else failure e
    | value text ↦ elim (shell.unmarshal_state text) [
      | failure e ↦ failure e
      | value file ↦ value (record {
        version = file.version;
        applications = elim file.applications [ some apps ↦ apps | none ↦ [] ];
      })
    ]
  ]
