-- ===== src/Platform.antt =====
-- What the provisioner runs on, and the actions that it is written in. The service is a parameter:
-- it answers each call from a world of which nothing is known. So are the clock, the file system
-- (which `State.Save` writes), the order of a `range` over a map and `diff.Diff`. An action returns a
-- result, an error, or that the fuel of a loop ran out, and leaves the world, the provisioner's state,
-- the trace of the calls so far and what was printed. What the program logs is left out.
pub mod Traces
pub mod Steps
pub mod Runs
use apprun_dedicated_provisi.Base.{ℕ, ℤ, String, Bool, Option, List, [], ◌∷◌, ◌++◌}
use apprun_dedicated_provisi.Base.Dict.{RangeOrder}
use apprun_dedicated_provisi.Result.{Error, Reply, value, failure, wrap_api_error}
use apprun_dedicated_provisi.Api.{
  Uuid, Opt, ReadAutoScalingGroupDetail, CreateAutoScalingGroup, ReadLoadBalancerSummary,
  ReadLoadBalancerDetail, CreateLoadBalancer, ReadApplicationDetail,
  ApplicationVersionDeploymentStatus, ReadApplicationVersionDetail, CreateApplicationVersion,
  UpdateApplication,
}
use apprun_dedicated_provisi.State.{State}
use apprun_dedicated_provisi.Spec.{Differ}

-- A cluster of ListClusters.
pub record ReadClusterSummary : Type 0 where
  pub name : String
  pub cluster_id : Uuid
  pub created : ℤ

-- The calls of api.Client with the parameters that the program varies, and the write of the state
-- file.
pub data Call : Type 0 where
  list_clusters : Opt Uuid → Call
  list_asgs : Uuid → Opt Uuid → Call
  get_asg : Uuid → Uuid → Call
  create_asg : Uuid → CreateAutoScalingGroup → Call
  delete_asg : Uuid → Uuid → Call
  list_lbs : Uuid → Uuid → Opt Uuid → Call
  get_lb : Uuid → Uuid → Uuid → Call
  create_lb : Uuid → Uuid → CreateLoadBalancer → Call
  delete_lb : Uuid → Uuid → Uuid → Call
  list_applications : Uuid → Opt String → Call
  create_application : String → Uuid → Call
  update_application : Uuid → UpdateApplication → Call
  list_versions : Uuid → Opt ℤ → Call
  get_version : Uuid → ℤ → Call
  create_version : Uuid → CreateApplicationVersion → Call
  save_state : String → State → Call

-- The responses of the listings: a page and the cursor of the next one.
pub record Page (A C : Type 0) : Type 0 where
  pub items : List A
  pub next_cursor : Opt C

-- The part of each response that the program reads.
abbrev pub Response : Call → Type 0
Response (list_clusters cursor) = Page ReadClusterSummary Uuid
Response (list_asgs cluster cursor) = Page ReadAutoScalingGroupDetail Uuid
Response (get_asg cluster asg) = ReadAutoScalingGroupDetail
Response (create_asg cluster req) = Uuid
Response (delete_asg cluster asg) = Unit {0}
Response (list_lbs cluster asg cursor) = Page ReadLoadBalancerSummary Uuid
Response (get_lb cluster asg lb) = ReadLoadBalancerDetail
Response (create_lb cluster asg req) = Uuid
Response (delete_lb cluster asg lb) = Unit {0}
Response (list_applications cluster cursor) = Page ReadApplicationDetail String
Response (create_application name cluster) = Uuid
Response (update_application app req) = Unit {0}
Response (list_versions app cursor) = Page ApplicationVersionDeploymentStatus ℤ
Response (get_version app version) = ReadApplicationVersionDetail
Response (create_version app req) = ℤ
Response (save_state path state) = Unit {0}

-- Times are in milliseconds. `fuel` bounds the rounds of each loop that follows cursors or waits.
pub record Platform : Type 1 where
  pub World : Type 0
  pub serve : (c : Call) → World → Reply (Response c) × World
  pub now : World → ℕ
  pub sleep : ℕ → World → World
  pub range : RangeOrder
  pub diff : Differ
  pub fuel : ℕ

pub data Outcome (A : Type 0) : Type 0 where
  ok : A → Outcome A
  fail : Error → Outcome A
  no_fuel : Outcome A

unfoldable pub as_outcome : {A : Type 0} → Reply A → Outcome A
as_outcome (value a) = ok a
as_outcome (failure e) = fail e

module _ (P : Platform) where
  pub record Env : Type 0 where
    pub world : P.World
    pub state : State
    pub trace : List Call
    pub printed : List String

  abbrev pub Action : Type 0 → Type 0
  Action A = Env → Outcome A × Env

module _ {P : Platform} where
  infixl 5 ◌>>=◌ ◌>>◌
  unfoldable pub pure : {A : Type 0} → A → Action P A
  pure a env = (ok a, env)

  unfoldable pub raise : {A : Type 0} → Error → Action P A
  raise e env = (fail e, env)

  unfoldable pub out_of_fuel : {A : Type 0} → Action P A
  out_of_fuel env = (no_fuel, env)

  -- The rest of an action after an outcome.
  unfoldable pub continue :
      {A B : Type 0} → Outcome A × Env P → (A → Action P B) → Outcome B × Env P
  continue (ok a, env) f = f a env
  continue (fail e, env) f = (fail e, env)
  continue (no_fuel, env) f = (no_fuel, env)

  unfoldable pub ◌>>=◌ : {A B : Type 0} → Action P A → (A → Action P B) → Action P B
  unfolding continue
  ◌>>=◌ m f env = continue (m env) f

  unfoldable pub ◌>>◌ : {B : Type 0} → Action P (Unit {0}) → Action P B → Action P B
  unfolding ◌>>=◌
  m >> k = m >>= λ _. k

  unfoldable pub rewritten : {A : Type 0} → (Error → Error) → Outcome A × Env P → Outcome A × Env P
  rewritten f (ok a, env) = (ok a, env)
  rewritten f (fail e, env) = (fail (f e), env)
  rewritten f (no_fuel, env) = (no_fuel, env)

  -- The error of an action, rewritten: `return fmt.Errorf("…: %w", err)`.
  unfoldable pub on_error : {A : Type 0} → (Error → Error) → Action P A → Action P A
  unfolding rewritten
  on_error f m env = rewritten f (m env)

  unfoldable pub attempted : {A : Type 0} → Outcome A × Env P → Outcome (Reply A) × Env P
  attempted (ok a, env) = (ok (value a), env)
  attempted (fail e, env) = (ok (failure e), env)
  attempted (no_fuel, env) = (no_fuel, env)

  -- The reply of an action that may fail, for code that looks at the error.
  unfoldable pub attempt : {A : Type 0} → Action P A → Action P (Reply A)
  unfolding attempted
  attempt m env = attempted (m env)

  unfoldable pub call : (c : Call) → Action P (Response c)
  unfolding as_outcome
  call c env =
      let (reply, world) = P.serve c env.world in
      (as_outcome reply, record env { world = world; trace = env.trace ++ (c ∷ []) })

  -- `return x, err` of a library's reply.
  unfoldable pub of_reply : {A : Type 0} → Reply A → Action P A
  unfolding as_outcome
  of_reply reply env = (as_outcome reply, env)

  -- fmt.Print, fmt.Printf and fmt.Println, one text for each.
  unfoldable pub print : List String → Action P (Unit {0})
  print texts env = (ok tt, record env { printed = env.printed ++ texts })

  unfoldable pub read_state : Action P State
  read_state env = (ok env.state, env)

  unfoldable pub write_state : State → Action P (Unit {0})
  write_state s env = (ok tt, record env { state = s })

  unfoldable pub read_clock : Action P ℕ
  read_clock env = (ok (P.now env.world), env)

  unfoldable pub pause : ℕ → Action P (Unit {0})
  pause d env = (ok tt, record env { world = P.sleep d env.world })
