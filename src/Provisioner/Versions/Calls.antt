-- ===== src/Provisioner/Versions/Calls.antt =====
-- The calls that ListVersions, GetVersionDiff and ActivateVersion make.
use apprun_dedicated_provisi.Base.{
  ℤ, pos, String, Bool, true, false, Option, none, some, List, [], ◌∷◌, ◌≡◌, ◌≢◌, refl, arith, ap,
  ◌==◌, int_eq, if◌then◌else◌,
}
use apprun_dedicated_provisi.Api.{
  Uuid, opt_unset, nil_get, UpdateApplication, ReadApplicationDetail,
}
use apprun_dedicated_provisi.Platform.{
  Platform, Call, Action, list_versions as list_versions_page, get_version, update_application,
  pure, continue, ◌>>=◌,
}
use apprun_dedicated_provisi.Platform.Traces.{
  reading, Does, Does-pure, Does-raise, Does-of_reply, Does-call, Does-bind, Does-on_error, Does-if,
  Does-option, Does-weaken,
}
use apprun_dedicated_provisi.Platform.Steps.{
  Follows, Follows-none, Follows-call, Follows-bind, Follows-then, Follows-on_error, Follows-pure,
}
use apprun_dedicated_provisi.Provisioner.Listing.Reads.{
  is_read, IsRead, follow-Does, resolve_cluster_id-Does, find_application_by_name-Does,
  get_latest_version-Does,
}
use apprun_dedicated_provisi.Provisioner.Apply.{activation}
use apprun_dedicated_provisi.Provisioner.Versions.{
  latest_number, latest_or, active_or, version_detail, list_all_versions, list_versions,
  get_version_diff, activate_version,
}

module _ (P : Platform) where
  list_all_versions-Does : (app : Uuid) → Does reading IsRead (list_all_versions P app)
  unfolding list_all_versions
  list_all_versions-Does app =
      follow-Does P.fuel _ (opt_unset (pos 0)) []
        (λ cursor. Does-on_error _ (Does-call (list_versions_page app cursor) refl))

  latest-Does : (name : String) (app : Uuid) → Does reading IsRead (latest_number P name app)
  unfolding latest_number
  latest-Does name app =
      Does-bind (Does-on_error _ (get_latest_version-Does P app (λ _. refl) (λ _. refl)))
        (λ latest. Does-option latest (Does-raise _) (λ detail. Does-pure detail.version))

  latest_or-Does :
      (name : String) (app : Uuid) (version : ℤ)
      → Does reading IsRead (latest_or P name app version)
  unfolding latest_or
  latest_or-Does name app version =
      Does-if (version == pos 0) (latest-Does name app) (Does-pure version)

  active_or-Does :
      (name : String) (app : ReadApplicationDetail) (version : ℤ)
      → Does reading IsRead (active_or P name app version)
  unfolding active_or
  active_or-Does name app version =
      Does-if (version == pos 0)
        (Does-option (nil_get app.active_version) (Does-raise _) (λ active. Does-pure active))
        (Does-pure version)

  version_detail-Does :
      (app : Uuid) (version : ℤ) → Does reading IsRead (version_detail P app version)
  unfolding version_detail
  version_detail-Does app version = Does-on_error _ (Does-call (get_version app _) refl)

  -- Whatever the service answers: ListVersions and GetVersionDiff make no call but listings and gets,
  -- and the provisioner's state is the same afterwards.
  pub list_versions-get_version_diff-reads :
      (cluster app : String) (from to : ℤ)
      → Does reading IsRead (list_versions P cluster app)
        × Does reading IsRead (get_version_diff P cluster app from to)
  unfolding list_versions get_version_diff
  list_versions-get_version_diff-reads cluster app from to = (
    Does-bind (Does-on_error _ (resolve_cluster_id-Does P cluster)) (λ id.
        Does-bind (find_application_by_name-Does P id app)
          (λ found. Does-bind (list_all_versions-Does found.application_id) (λ all. Does-pure _))),
    Does-bind (Does-on_error _ (resolve_cluster_id-Does P cluster)) (λ id.
        Does-bind (find_application_by_name-Does P id app) (λ found.
          Does-bind (active_or-Does app found from) (λ from_version.
            Does-bind (latest_or-Does app found.application_id to) (λ to_version.
              Does-bind (version_detail-Does found.application_id from_version) (λ before.
                Does-bind (version_detail-Does found.application_id to_version)
                  (λ after. Does-of_reply _)))))),
  )

-- What a call changes: the update of an application, or anything else.
abbrev pub change_of : Call → Option (Option UpdateApplication)
change_of (update_application app req) = some (some req)
change_of c = if is_read c then none else some none

read_unchanged : (c : Call) → IsRead c → change_of c ≡ none
read_unchanged (update_application app req) h = cc
read_unchanged c h = ground arith

module _ {S : Type 0} (step_of : Call → Option S)
    (unread : (c : Call) → IsRead c → step_of c ≡ none) (P : Platform) where
  reads : {A : Type 0} {m : Action P A} → Does reading IsRead m → Follows step_of [] m
  reads d = Follows-none (Does-weaken unread d)

  -- A value that is looked up if a test holds, and is `v` otherwise.
  or_Follows :
      {A B : Type 0} {all : List S} {m : Action P A} {f : A → Action P B} (b : Bool) (v : A)
      → Does reading IsRead m
      → ((chosen : A) → (b ≡ false → chosen ≡ v) → Follows step_of all (f chosen))
      → Follows step_of all ((if b then m else pure v) >>= f)
  unfolding ◌>>=◌ pure continue
  or_Follows true v d h = Follows-bind (reads d) (λ chosen. h chosen (λ e. cc))
  or_Follows false v d h = h v (λ e. refl)

  -- ActivateVersion is one change, of the chosen version.
  activate-Follows :
      (cluster app : String) (version : ℤ) (s : S)
      → ((id : Uuid) (chosen : ℤ)
          → (version ≢ pos 0 → chosen ≡ version)
          → step_of (update_application id (activation chosen)) ≡ some s)
      → Follows step_of (s ∷ []) (activate_version P cluster app version)
  unfolding activate_version latest_or
  activate-Follows cluster app version s is_step =
      Follows-bind (reads (Does-on_error _ (resolve_cluster_id-Does P cluster))) (λ id.
        Follows-bind (reads (find_application_by_name-Does P id app)) (λ found.
          or_Follows (version == pos 0) version (latest-Does P app found.application_id)
            (λ chosen same.
              Follows-then
                (Follows-on_error _ (
                  Follows-call (update_application found.application_id (activation chosen)) s (
                    is_step found.application_id chosen
                      (λ given. same (ground (arith, int_eq.beq_iff version (pos 0)))))))
                (Follows-pure chosen))))

-- Whatever the service answers: if a version is given, that is not 0, the one change that
-- ActivateVersion asks the service for is to make this version, as an int32, the active one. It has
-- asked for it if it returns, and for nothing else if it fails.
pub activate_version-Follows :
    (P : Platform) (cluster app : String) (version : ℤ)
    → version ≢ pos 0
    → Follows change_of (some (activation version) ∷ []) (activate_version P cluster app version)
activate_version-Follows P cluster app version given =
    activate-Follows change_of read_unchanged P cluster app version (some (activation version))
      (λ id chosen same. ap (λ v. some (some (activation v))) (same given))
