-- ===== src/Command.antt =====
-- cmd/apprun-dedicated-provisioner/main.go: the commands. A flag that kong parses is an argument, and
-- what FatalIfErrorf prints of the error is left out.
pub mod Reads
pub mod Approval
use apprun_dedicated_provisi.Base.{
  ℤ, String, ◌<>◌, Bool, true, false, not, ◌&&◌, ◌||◌, List, [], ◌∷◌, ◌==◌, ◌!=◌, string_eq,
  if◌then◌else◌,
}
use apprun_dedicated_provisi.Base.Text.{show_int}
use apprun_dedicated_provisi.Result.{
  Error, Reply, value, failure, wrapped, config_required, credentials_required,
}
use apprun_dedicated_provisi.Shell.{Shell}
use apprun_dedicated_provisi.Client.{ClientConfig, new_client}
use apprun_dedicated_provisi.Config.{ClusterConfig}
use apprun_dedicated_provisi.Config.Load.{load, to_yaml}
use apprun_dedicated_provisi.State.{State, new_state}
use apprun_dedicated_provisi.State.File.{load_state}
use apprun_dedicated_provisi.Platform.{
  Platform, Action, pure, raise, of_reply, print, on_error, write_state, ◌>>=◌, ◌>>◌,
}
use apprun_dedicated_provisi.Provisioner.Plan.{ExecutionPlan, create_plan}
use apprun_dedicated_provisi.Provisioner.Apply.{apply}
use apprun_dedicated_provisi.Provisioner.Versions.{
  list_versions, get_version_diff, activate_version,
}
use apprun_dedicated_provisi.Provisioner.Dump.{dump_cluster_config}
use apprun_dedicated_provisi.Print.{print_plan, has_changes}
use apprun_dedicated_provisi.Print.Versions.{print_version_list, print_version_diff}

-- getEnvWithFallback
unfoldable pub get_env_with_fallback : Shell → List String → String
get_env_with_fallback shell [] = ""
get_env_with_fallback shell (key ∷ keys) =
    let rest = get_env_with_fallback shell keys in
    if shell.getenv key != "" then shell.getenv key else rest

-- What createProvisioner and createProvisionerSimple begin with.
unfoldable pub connect : Shell → Reply (Unit {0})
unfolding get_env_with_fallback new_client
connect shell =
    let access_token =
      get_env_with_fallback shell ("SAKURA_ACCESS_TOKEN" ∷ "SAKURACLOUD_ACCESS_TOKEN" ∷ []) in
    let access_token_secret =
      get_env_with_fallback shell
        ("SAKURA_ACCESS_TOKEN_SECRET" ∷ "SAKURACLOUD_ACCESS_TOKEN_SECRET" ∷ []) in
    if access_token == "" || access_token_secret == ""
    then failure credentials_required
    else elim (new_client shell.dial (record {
      access_token = access_token;
      access_token_secret = access_token_secret;
      base_url = "";
    })) [ failure e ↦ failure (wrapped "failed to create client" e) | value client ↦ value client ]

-- createProvisioner: the state of the new provisioner.
create_provisioner : Shell → String → Reply State
unfolding connect load_state
create_provisioner shell config_path = elim (connect shell) [
  | failure e ↦ failure e
  | value client ↦ elim (load_state shell config_path) [
    | failure e ↦ failure (wrapped "failed to load state file" e)
    | value st ↦ value st
  ]
]

-- createProvisionerSimple: the state of the new provisioner.
create_provisioner_simple : Shell → Reply State
unfolding connect
create_provisioner_simple shell = elim (connect shell) [
  | failure e ↦ failure e
  | value client ↦ value new_state
]

-- loadConfig
load_config : Shell → String → Reply ClusterConfig
unfolding load
load_config shell path = elim (load shell path) [
  | failure e ↦ failure (wrapped "failed to load config" e)
  | value cfg ↦ value cfg
]

-- What is typed, without the blanks around it and in small letters, is y or yes.
abbrev pub is_yes : Shell → String → Bool
is_yes shell input =
    let answer = shell.trim_space (shell.to_lower input) in answer == "y" || answer == "yes"

module _ (shell : Shell) (P : Platform) where
  -- What PlanCmd.Run and ApplyCmd.Run begin with.
  unfoldable pub with_provisioner :
      String → (ClusterConfig → Action P (Unit {0})) → Action P (Unit {0})
  unfolding load_config create_provisioner
  with_provisioner path run = if path == "" then raise config_required else do
    cfg ← of_reply (load_config shell path)
    state ← of_reply (create_provisioner shell path)
    write_state state
    run cfg

  -- What VersionsCmd.Run, DiffCmd.Run and ActivateCmd.Run begin with.
  unfoldable pub with_simple : String → (ClusterConfig → Action P (Unit {0})) → Action P (Unit {0})
  unfolding load_config create_provisioner_simple
  with_simple path run = if path == "" then raise config_required else do
    cfg ← of_reply (load_config shell path)
    state ← of_reply (create_provisioner_simple shell)
    write_state state
    run cfg

  -- PlanCmd.Run
  unfoldable pub plan_command : String → Action P (Unit {0})
  unfolding with_provisioner
  plan_command path = with_provisioner path (λ cfg. do
    plan ← on_error (wrapped "failed to create plan") (create_plan P cfg)
    print (print_plan shell.show_uuid plan))

  -- ApplyCmd.Run, once the changes are approved.
  unfoldable pub apply_approved :
      String → Bool → ClusterConfig → ExecutionPlan → Action P (Unit {0})
  apply_approved path activate cfg plan = do
    print ("\nApplying changes...\n" ∷ [])
    on_error (wrapped "failed to apply plan") (apply P path activate cfg plan)
    print ("\nApply complete!\n" ∷ [])

  -- ApplyCmd.Run, once the plan is printed.
  unfoldable pub apply_planned :
      String → Bool → Bool → ClusterConfig → ExecutionPlan → Action P (Unit {0})
  unfolding apply_approved
  apply_planned path activate auto_approve cfg plan =
      if has_changes plan
      then (if auto_approve then apply_approved path activate cfg plan else do
        print ("\nDo you want to apply these changes? [y/N]: " ∷ [])
        input ← on_error (wrapped "failed to read input") (of_reply shell.read_line)
        (if is_yes shell input
            then apply_approved path activate cfg plan
            else print ("Apply canceled.\n" ∷ [])))
      else print ("\nNo changes to apply.\n" ∷ [])

  -- ApplyCmd.Run
  unfoldable pub apply_command : String → Bool → Bool → Action P (Unit {0})
  unfolding with_provisioner apply_planned
  apply_command path activate auto_approve = with_provisioner path (λ cfg. do
    plan ← on_error (wrapped "failed to create plan") (create_plan P cfg)
    print (print_plan shell.show_uuid plan)
    apply_planned path activate auto_approve cfg plan)

  -- VersionsCmd.Run
  unfoldable pub versions_command : String → String → Action P (Unit {0})
  unfolding with_simple
  versions_command path app = with_simple path (λ cfg. do
    list ← on_error (wrapped "failed to list versions") (list_versions P cfg.cluster_name app)
    print (print_version_list shell list))

  -- DiffCmd.Run
  unfoldable pub diff_command : String → String → ℤ → ℤ → Action P (Unit {0})
  unfolding with_simple
  diff_command path app from to = with_simple path (λ cfg. do
    diff ←
        on_error (wrapped "failed to get version diff")
          (get_version_diff P cfg.cluster_name app from to)
    print (print_version_diff app diff))

  -- ActivateCmd.Run
  unfoldable pub activate_command : String → String → ℤ → Action P (Unit {0})
  unfolding with_simple
  activate_command path app target = with_simple path (λ cfg. do
    version ←
        on_error (wrapped "failed to activate version")
          (activate_version P cfg.cluster_name app target)
    print (
        ("Successfully activated version "
          <> show_int version
          <> " for application "
          <> shell.quote app
          <> "\n")
        ∷ []))

  -- DumpCmd.Run
  unfoldable pub dump_command : String → Action P (Unit {0})
  unfolding create_provisioner_simple to_yaml
  dump_command cluster_name = do
    state ← of_reply (create_provisioner_simple shell)
    write_state state
    config ← on_error (wrapped "failed to dump cluster config") (dump_cluster_config P cluster_name)
    yaml ← on_error (wrapped "failed to serialize config") (of_reply (to_yaml shell config))
    print (yaml ∷ [])
