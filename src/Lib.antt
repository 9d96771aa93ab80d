-- ===== src/Lib.antt =====
-- apprun-dedicated-provisioner: a command that brings a cluster of the AppRun dedicated service in line
-- with a YAML file. It plans (CreatePlan) by comparing what the service lists with the configuration,
-- and applies the plan (Apply): it deletes, creates and recreates auto scaling groups and load
-- balancers, creates and updates applications, and keeps in a state file the versions of the secrets
-- that it applied last.
--
-- The parts, and where they stand:
--   Base           numbers, lists, maps and texts that the parts share. A Go map is an association
--                  list; a function that ranges over a map takes the order of visit, and theorems
--                  hold for every order.
--   Config         config/config.go, and validate and validateApplication of config/loader.go.
--   Api            the records of api/oas_schemas_gen.go that the provisioner reads or sends.
--                  Api.Validate has what api/oas_validators_gen.go checks their requests and
--                  responses for, over the checks of single values of ogen, a parameter.
--   State          state/state.go: the stored versions and their getters and setters.
--   Infra, Asg, Lb the comparisons and the requests of provisioner/autoscaling.go and
--                  provisioner/loadbalancer.go. Name servers and IP pools are compared alike in both.
--   Result         errors as values, and wrapAPIError.
--   Spec           provisioner/normalized.go.
--   Version        compareVersion, compareEnv, updateSecretEnvVersions and the two builders of version
--                  requests in provisioner/sync.go (Version.Request).
--                  Version.Diff has compareVersionEnv and the comparison of two versions, and
--                  Version.Limits the specs whose requests the service accepts.
--   Platform       what the provisioner runs on: the service, the clock, the order of maps, diff.Diff.
--                  An action is a function of the world, the provisioner's state and the trace of
--                  calls and of prints to a result, an error or the end of the fuel. Platform.Traces
--                  and Platform.Steps have the rules for the calls that an action
--                  makes.
--   Provisioner    Listing (listAllASGs, listAllLBs, listAllApplications, resolveClusterID,
--                  getLatestVersion), Wait (waitForLBDeletion, waitForASGDeletion), AsgPlan and LbPlan
--                  (planASGChanges, planLBChanges), Plan (planUpdate, CreatePlan), Apply with
--                  createApplication and updateApplication, Versions (ListVersions, GetVersionDiff,
--                  ActivateVersion) and Dump (DumpClusterConfig).
--   Client, Shell  provisioner/client.go, and what the command line runs in: the environment, files,
--                  standard input and the libraries, all of it a parameter. Config.Load and
--                  State.File read the configuration and the state file with it.
--   Print, Command cmd/apprun-dedicated-provisioner/main.go: what is printed, and the commands.
--   Mock           testutil/mock_server.go: the mock of the service as a state machine, and its helpers.
--                  Mock.Service is the mock as the platform that the provisioner runs on: a call is
--                  answered by its handler, between the checks of the request and of the
--                  response (Api.Validate).
--   Tests          a small cluster and the theorems on it.
--
-- Integers are modelled without a bound, since they are only compared and passed on, but for the two
-- narrowing conversions: api.Port to 16 bits and int32 of a version number, which wrap. The loops that
-- follow cursors or poll run on the fuel of the platform. A poll waits three seconds and gives up
-- after ten minutes, so 202 rounds are enough for it; a service that never ends its pages is the only
-- one for which a listing needs more fuel than any bound.
--
-- Not modelled: the calls of the generated client and their HTTP, JSON and YAML (of the generated code
-- only the records and the checks are), the contents of files, the parsing of flags, and what is
-- logged.
-- diff.Diff of r3labs/diff is a parameter of which the theorems name what they need (Spec.Laws.IsDiff).
-- The order in which sort.Slice leaves equal ports is taken to be that of an insertion sort.
pub mod Base
pub mod Config
pub mod Api
pub mod State
pub mod Infra
pub mod Asg
pub mod Lb
pub mod Result
pub mod Client
pub mod Shell
pub mod Print
pub mod Command
pub mod Mock
pub mod Spec
pub mod Version
pub mod Platform
pub mod Provisioner
pub mod Tests
