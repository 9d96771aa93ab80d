-- ===== src/Command/Reads.antt =====
-- The commands that only read.
use apprun_dedicated_provisi.Base.{ℤ, String, Bool, false, [], ◌∷◌, ◌≡◌, ◌==◌, string_eq}
use apprun_dedicated_provisi.Result.{value}
use apprun_dedicated_provisi.Shell.{Shell}
use apprun_dedicated_provisi.Config.{ClusterConfig}
use apprun_dedicated_provisi.Platform.{Platform, Action}
use apprun_dedicated_provisi.Platform.Traces.{
  reading, writing, Does, Does-raise, Does-of_reply, Does-of_reply_known, Does-print,
  Does-write_state, Does-bind, Does-then, Does-on_error, Does-if, Does-weaken,
}
use apprun_dedicated_provisi.Provisioner.Listing.Reads.{IsRead}
use apprun_dedicated_provisi.Provisioner.Plan.{ExecutionPlan}
use apprun_dedicated_provisi.Provisioner.Plan.ReadOnly.{create_plan-reads}
use apprun_dedicated_provisi.Provisioner.Versions.Calls.{list_versions-get_version_diff-reads}
use apprun_dedicated_provisi.Provisioner.Dump.Reads.{dump_cluster_config-Does}
use apprun_dedicated_provisi.Print.{has_changes}
use apprun_dedicated_provisi.Command.{
  is_yes, with_provisioner, with_simple, plan_command, apply_planned, apply_command,
  versions_command, diff_command, dump_command,
}

module _ (shell : Shell) (P : Platform) where
  with_provisioner-Does :
      (path : String) (run : ClusterConfig → Action P (Unit {0}))
      → ((cfg : ClusterConfig) → Does writing IsRead (run cfg))
      → Does writing IsRead (with_provisioner shell P path run)
  unfolding with_provisioner
  with_provisioner-Does path run d = Does-if (path == "") (Does-raise _) (
      Does-bind (Does-of_reply _)
        (λ cfg. Does-bind (Does-of_reply _) (λ state. Does-then (Does-write_state state) (d cfg))))

  with_simple-Does :
      (path : String) (run : ClusterConfig → Action P (Unit {0}))
      → ((cfg : ClusterConfig) → Does writing IsRead (run cfg))
      → Does writing IsRead (with_simple shell P path run)
  unfolding with_simple
  with_simple-Does path run d = Does-if (path == "") (Does-raise _) (
      Does-bind (Does-of_reply _)
        (λ cfg. Does-bind (Does-of_reply _) (λ state. Does-then (Does-write_state state) (d cfg))))

  keep : {A : Type 0} {m : Action P A} → Does reading IsRead m → Does writing IsRead m
  keep d = Does-weaken (λ c q. q) d

  -- Whatever the files hold and the service answers: the commands plan, versions, diff and dump make
  -- no call but listings and gets, so they change nothing of the service and write no state file.
  pub commands-IsRead :
      (path app cluster : String) (from to : ℤ)
      → Does writing IsRead (plan_command shell P path)
        × (Does writing IsRead (versions_command shell P path app)
            × (Does writing IsRead (diff_command shell P path app from to)
                × Does writing IsRead (dump_command shell P cluster)))
  unfolding plan_command versions_command diff_command dump_command
  commands-IsRead path app cluster from to = (
    with_provisioner-Does path _ (λ cfg.
        Does-bind (Does-on_error _ (keep (create_plan-reads P cfg))) (λ plan. Does-print _)),
    (
      with_simple-Does path _ (λ cfg.
          Does-bind
            (Does-on_error _
              (keep (list_versions-get_version_diff-reads P cfg.cluster_name app from to).0))
            (λ list. Does-print _)),
      (
        with_simple-Does path _ (λ cfg.
            Does-bind
              (Does-on_error _
                (keep (list_versions-get_version_diff-reads P cfg.cluster_name app from to).1))
              (λ diff. Does-print _)),
        Does-bind (Does-of_reply _) (λ state. Does-then (Does-write_state state) (
            Does-bind (Does-on_error _ (keep (dump_cluster_config-Does P cluster)))
              (λ config. Does-bind (Does-on_error _ (Does-of_reply _)) (λ yaml. Does-print _)))),
      ),
    ),
  )

  unapproved-Does :
      (path : String) (activate : Bool) (cfg : ClusterConfig) (plan : ExecutionPlan)
      → ((input : String) → shell.read_line ≡ value input → is_yes shell input ≡ false)
      → Does writing IsRead (apply_planned shell P path activate false cfg plan)
  unfolding apply_planned
  unapproved-Does path activate cfg plan denied =
      Does-if (has_changes plan)
        (Does-then (Does-print _) (
          Does-of_reply_known _ shell.read_line
            (λ input e. rw (denied input e) (Does-print ("Apply canceled.\n" ∷ [])))))
        (Does-print _)

  -- Without --auto-approve, and unless y or yes is typed, the command apply makes no call but
  -- listings and gets, whatever the files hold and the service answers.
  pub apply_command-unapproved :
      (path : String) (activate : Bool)
      → ((input : String) → shell.read_line ≡ value input → is_yes shell input ≡ false)
      → Does writing IsRead (apply_command shell P path activate false)
  unfolding apply_command
  apply_command-unapproved path activate denied = with_provisioner-Does path _ (λ cfg.
      Does-bind (Does-on_error _ (keep (create_plan-reads P cfg)))
        (λ plan. Does-then (Does-print _) (unapproved-Does path activate cfg plan denied)))
