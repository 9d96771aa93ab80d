-- ===== src/Shell.antt =====
-- What the command line runs in: the environment, the files, standard input, the libraries for
-- paths, YAML, JSON and texts, and the generated client's constructor. All of it is a parameter.
use apprun_dedicated_provisi.Base.{ℤ, String, Bool, Option}
use apprun_dedicated_provisi.Base.Dict.{Dict}
use apprun_dedicated_provisi.Result.{Error, Reply}
use apprun_dedicated_provisi.Config.{ClusterConfig}
use apprun_dedicated_provisi.Api.{Uuid}
use apprun_dedicated_provisi.State.{ApplicationState}
use apprun_dedicated_provisi.Client.{SecuritySource}

-- What json.Unmarshal makes of a state file: the map is nil where the file has none.
pub record StateFile : Type 0 where
  pub version : ℤ
  pub applications : Option (Dict String ApplicationState)

pub record Shell : Type 0 where
  -- os.Getenv, os.ReadFile, os.IsNotExist, and ReadString('\n') on standard input
  pub getenv : String → String
  pub read_file : String → Reply String
  pub is_not_exist : Error → Bool
  pub read_line : Reply String
  -- yaml.Unmarshal, Encode of yaml.NewEncoder with an indent of 2, and json.Unmarshal
  pub unmarshal_config : String → Reply ClusterConfig
  pub encode_config : ClusterConfig → Reply String
  pub unmarshal_state : String → Reply StateFile
  -- filepath.Dir, filepath.Base, filepath.Ext and filepath.Join
  pub dir : String → String
  pub base : String → String
  pub ext : String → String
  pub join_path : String → String → String
  -- api.NewClient
  pub dial : String → SecuritySource → Reply (Unit {0})
  -- strings.TrimSpace, strings.ToLower, %q, the text of a UUID and Format of a time
  pub trim_space : String → String
  pub to_lower : String → String
  pub quote : String → String
  pub show_uuid : Uuid → String
  pub format_time : ℤ → String
