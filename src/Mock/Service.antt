-- ===== src/Mock/Service.antt =====
-- testutil/mock_server.go as the service that the provisioner runs on: a call is answered by its
-- handler, with the fresh identifier of `uuid.New` and the time, if its request passes the checks that
-- the decoders of api.NewServer make before, and reaches the provisioner if it passes those that the
-- client makes of a response (Api.Validate). The operations that the mock does not
-- implement are refused by api.UnimplementedHandler. Requests carry the credentials that the mock
-- expects. What the client makes of a refusal is a parameter, and so are the identifiers.
pub mod Latest
pub mod Readable
pub mod Listed
pub mod Holds
pub mod Runs
pub mod Settles
pub mod Creates
pub mod Plans
pub mod Pipeline
pub mod Provisions
pub mod Updates
use apprun_dedicated_provisi.Base.{
  ℕ, suc, ◌+◌, ◌/◌, ℤ, pos, String, List, [], ◌∷◌, ◌++◌, false, ◌≡◌, refl,
}
use apprun_dedicated_provisi.Base.Dict.{RangeOrder, IsShuffle}
use apprun_dedicated_provisi.Result.{Error, Reply, value, failure}
use apprun_dedicated_provisi.Api.{Uuid, opt_to, opt_get, opt_unset}
use apprun_dedicated_provisi.Api.Validate.{
  Checks, Errors, field, elements, if_given, validate_version_number,
}
use apprun_dedicated_provisi.Api.Validate.Responses.{
  validate_read_application, validate_read_version, validate_deployment_status,
  validate_cluster_summary,
}
use apprun_dedicated_provisi.Api.Validate.Requests.{
  validate_create_application, validate_create_version, validate_create_asg, validate_create_lb,
}
use apprun_dedicated_provisi.Api.Validate.Laws.{AreChecks}
use apprun_dedicated_provisi.Spec.{Differ}
use apprun_dedicated_provisi.Platform.{
  Platform, Call, Response, list_clusters, list_asgs, get_asg, create_asg, delete_asg, list_lbs,
  get_lb, create_lb, delete_lb, list_applications, create_application, update_application,
  list_versions, get_version, create_version, save_state,
}
use apprun_dedicated_provisi.Mock as Server
use apprun_dedicated_provisi.Mock.{
  MockServer, MockError, Answer, answer, refused, list_auto_scaling_groups, list_load_balancers,
}
use apprun_dedicated_provisi.Mock.Applications as Handlers
use apprun_dedicated_provisi.Mock.Applications.{
  create_application_version, get_application_version, list_application_versions,
}

-- The mock, how many identifiers it has drawn, and the time in milliseconds.
pub record MockWorld : Type 0 where
  pub server : MockServer
  pub drawn : ℕ
  pub time : ℕ

abbrev pub seconds : MockWorld → ℤ
seconds w = pos (w.time / 1000)

-- An identifier is drawn for an application that is created.
abbrev pub drawn_after : Answer Uuid → ℕ → ℕ
drawn_after (answer id) n = suc n
drawn_after (refused e) n = n

-- What the mock and the provisioner leave open: the order of maps, the identifiers of `uuid.New`, the
-- single checks of ogen, what the client makes of a request or a response that is invalid, of a refusal and of an
-- operation that is not implemented, and diff.Diff.
pub record Setup : Type 1 where
  pub range : RangeOrder
  pub shuffle : IsShuffle range
  pub ids : ℕ → Uuid
  pub checks : Checks
  pub documented : AreChecks checks
  pub invalid : Errors → Error
  pub report : MockError → Error
  pub unimplemented : Error
  pub diff : Differ

module _ (setup : Setup) where
  -- What the client makes of a handler's answer.
  unfoldable pub reply : {A : Type 0} → Answer A → Reply A
  reply (answer a) = value a
  reply (refused e) = failure (setup.report e)

  -- A request that changes the mock.
  unfoldable pub changed : {A : Type 0} → MockWorld → Answer A × MockServer → Reply A × MockWorld
  unfolding reply
  changed w (a, server) = (reply a, record w { server = server })

  -- The checks that the generated decoders make of the parameters and the body of a request. A list of
  -- name servers that has no element is nil in the requests that the provisioner builds.
  unfoldable pub request_errors : Call → Errors
  unfolding if_given validate_version_number validate_create_application validate_create_version
      validate_create_asg validate_create_lb
  request_errors (create_application name cluster) =
      validate_create_application setup.checks (record { name = name; cluster_id = cluster })
  request_errors (create_version app req) = validate_create_version setup.checks req
  request_errors (get_version app version) = validate_version_number setup.checks version
  request_errors (list_versions app cursor) =
      if_given (validate_version_number setup.checks) (opt_get cursor)
  request_errors (create_asg cluster req) = validate_create_asg setup.checks false req
  request_errors (create_lb cluster asg req) = validate_create_lb setup.checks false req
  request_errors _ = []

  -- The handler of a call.
  unfoldable pub handle : (c : Call) → MockWorld → Reply (Response c) × MockWorld
  unfolding reply changed
  handle (list_clusters cursor) w = (
    value (record { items = Server.list_clusters setup.range w.server; next_cursor = opt_unset 0 }),
    w,
  )
  handle (list_asgs cluster cursor) w =
      (value (record { items = list_auto_scaling_groups w.server; next_cursor = opt_unset 0 }), w)
  handle (list_lbs cluster asg cursor) w =
      (value (record { items = list_load_balancers w.server; next_cursor = opt_unset 0 }), w)
  handle (list_applications cluster cursor) w = (
    value (record {
      items = Handlers.list_applications setup.range (opt_to cluster) w.server;
      next_cursor = opt_unset "";
    }),
    w,
  )
  handle (create_application name cluster) w =
      let made =
        Handlers.create_application (setup.ids w.drawn)
          (record { name = name; cluster_id = cluster }) w.server in
      changed (record w { drawn = drawn_after made.0 w.drawn }) made
  handle (update_application app req) w = changed w (Handlers.update_application req app w.server)
  handle (create_version app req) w =
      changed w (create_application_version (seconds w) req app w.server)
  handle (get_version app version) w = (reply (get_application_version app version w.server), w)
  handle (list_versions app cursor) w = (
    (elim (list_application_versions setup.range app w.server) [
      | refused e ↦ failure (setup.report e)
      | answer all ↦ value (record { items = all; next_cursor = opt_unset (pos 0) })
    ]),
    w,
  )
  handle (save_state path state) w = (value tt, w)
  handle (get_asg cluster asg) w = (failure setup.unimplemented, w)
  handle (create_asg cluster req) w = (failure setup.unimplemented, w)
  handle (delete_asg cluster asg) w = (failure setup.unimplemented, w)
  handle (get_lb cluster asg lb) w = (failure setup.unimplemented, w)
  handle (create_lb cluster asg req) w = (failure setup.unimplemented, w)
  handle (delete_lb cluster asg lb) w = (failure setup.unimplemented, w)

  -- An answer that is given where a request has no errors.
  unfoldable pub checked :
      {A : Type 0} → Errors → MockWorld → Reply A × MockWorld → Reply A × MockWorld
  checked [] w answered = answered
  checked (e ∷ rest) w answered = (failure (setup.invalid (e ∷ rest)), w)

  -- The checks that the generated decoders make of a response. The mock lists neither groups nor load
  -- balancers, and answers no other call about them.
  unfoldable pub response_errors : (c : Call) → Response c → Errors
  unfolding field elements if_given validate_cluster_summary validate_read_application
      validate_deployment_status validate_version_number validate_read_version
  response_errors (list_clusters cursor) page =
      field "clusters" (elements (validate_cluster_summary setup.checks) 0 page.items)
  response_errors (list_applications cluster cursor) page =
      field "applications" (elements (validate_read_application setup.checks) 0 page.items)
  response_errors (list_versions app cursor) page =
      field "versions" (elements (validate_deployment_status setup.checks) 0 page.items)
      ++ field "nextCursor"
          (if_given (validate_version_number setup.checks) (opt_get page.next_cursor))
  response_errors (get_version app version) v =
      field "applicationVersion" (validate_read_version setup.checks v)
  response_errors (create_version app req) number =
      field "applicationVersion" (validate_version_number setup.checks number)
  response_errors _ r = []

  -- What the client makes of a response, which may be invalid.
  unfoldable pub decoded : (c : Call) → Reply (Response c) → Reply (Response c)
  unfolding response_errors
  decoded c (value r) = elim (response_errors c r) [
    | [] ↦ value r
    | e ∷ rest ↦ failure (setup.invalid (e ∷ rest))
  ]
  decoded c (failure e) = failure e

  -- The server that StartTestServer starts checks a request and handles it, and the client checks the
  -- response.
  unfoldable pub serve : (c : Call) → MockWorld → Reply (Response c) × MockWorld
  unfolding request_errors handle checked decoded
  serve c w =
      let answered = checked (request_errors c) w (handle c w) in (decoded c answered.0, answered.1)

  pub serve-valid :
      (c : Call) (w w' : MockWorld) (r : Response c)
      → request_errors c ≡ []
      → response_errors c r ≡ []
      → handle c w ≡ (value r, w')
      → serve c w ≡ (value r, w')
  unfolding serve checked decoded
  serve-valid c w w' r valid readable handled = rw (valid, handled, readable, decoded, serve) refl

  module _ (fuel : ℕ) where
    abbrev pub mock_platform : Platform
    mock_platform = record {
      World = MockWorld;
      serve = serve;
      now = λ w. w.time;
      sleep = λ d w. record w { time = w.time + d };
      range = setup.range;
      diff = setup.diff;
      fuel = fuel;
    }
