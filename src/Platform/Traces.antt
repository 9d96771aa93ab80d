-- ===== src/Platform/Traces.antt =====
-- Which calls an action makes, and in which order, whatever the service answers. One rule for each
-- way to build an action.
use apprun_dedicated_provisi.Base.{
  String, ℕ, Bool, true, false, List, [], ◌∷◌, ◌++◌, ◌≡◌, refl, sym, ap, ◌∙◌, All, All-append,
  All-imp, Option, none, some, if◌then◌else◌,
}
use mathlib.Core.List.{append-nil, append_assoc}
use apprun_dedicated_provisi.Result.{Error, Reply, value, failure}
use apprun_dedicated_provisi.State.{State}
use apprun_dedicated_provisi.Platform.{
  Platform, Call, Action, Outcome, ok, fail, no_fuel, Env, pure, raise, out_of_fuel, on_error,
  attempt, call, read_state, write_state, of_reply, as_outcome, print, read_clock, pause, ◌>>=◌,
  ◌>>◌, continue, rewritten, attempted,
}

-- Whether an action may write the provisioner's state.
pub data Effect : Type 0 where
  reading writing : Effect

abbrev pub StateKept : Effect → State → State → Type 0
StateKept reading s s' = s' ≡ s
StateKept writing s s' = Unit {0}

StateKept-refl : (e : Effect) {s s' : State} → s' ≡ s → StateKept e s s'
StateKept-refl reading p = p
StateKept-refl writing p = tt

StateKept-trans :
    (e : Effect) (s s' s'' : State) → StateKept e s s' → StateKept e s' s'' → StateKept e s s''
StateKept-trans reading s s' s'' p q = q ∙ p
StateKept-trans writing s s' s'' p q = tt

module _ {P : Platform} {A : Type 0} where
  -- From `env` to `out` calls were made of which `Q` holds each, and the provisioner's state is kept
  -- if the effect says so.
  pub record Grown (effect : Effect) (Q : Call → Type 0) (env : Env P) (out : Outcome A × Env P)
      : Type 0 where
    pub calls : List Call
    pub grows : out.1.trace ≡ env.trace ++ calls
    pub all : All Q calls
    pub same : StateKept effect env.state out.1.state

  -- From every environment `m` adds calls to the trace of which `Q` holds each, and keeps the
  -- provisioner's state if the effect says so, whether it returns or fails.
  pub record Does (effect : Effect) (Q : Call → Type 0) (m : Action P A) : Type 0 where
    pub at : (env : Env P) → Grown effect Q env (m env)

abbrev unmoved :
    {P : Platform} {A : Type 0} {effect : Effect} {Q : Call → Type 0} (env : Env P) (r : Outcome A)
    → (env' : Env P) → env'.trace ≡ env.trace
    → env'.state ≡ env.state
    → Grown effect Q env (r, env')
unmoved {effect = effect} env r env' p q = record {
  calls = [];
  grows = p ∙ sym (append-nil env.trace);
  all = tt;
  same = StateKept-refl effect q;
}

module _ {P : Platform} {effect : Effect} {Q : Call → Type 0} where
  pub Does-pure : {A : Type 0} (a : A) → Does {P = P} effect Q (pure a)
  unfolding pure
  Does-pure a = record { at = λ env. unmoved env (ok a) env refl refl }

  pub Does-raise : {A : Type 0} (e : Error) → Does {P = P} {A = A} effect Q (raise e)
  unfolding raise
  Does-raise e = record { at = λ env. unmoved env (fail e) env refl refl }

  pub Does-out_of_fuel : {A : Type 0} → Does {P = P} {A = A} effect Q out_of_fuel
  unfolding out_of_fuel
  Does-out_of_fuel = record { at = λ env. unmoved env no_fuel env refl refl }

  pub Does-of_reply : {A : Type 0} (r : Reply A) → Does {P = P} effect Q (of_reply r)
  unfolding of_reply
  Does-of_reply r = record { at = λ env. unmoved env (as_outcome r) env refl refl }

  pub Does-print : (texts : List String) → Does {P = P} effect Q (print texts)
  unfolding print
  Does-print texts = record { at = λ env. unmoved env (ok tt) (print texts env).1 refl refl }

  pub Does-read_state : Does {P = P} effect Q read_state
  unfolding read_state
  Does-read_state = record { at = λ env. unmoved env (ok env.state) env refl refl }

  pub Does-read_clock : Does {P = P} effect Q read_clock
  unfolding read_clock
  Does-read_clock = record { at = λ env. unmoved env (ok (P.now env.world)) env refl refl }

  pub Does-pause : (d : ℕ) → Does {P = P} effect Q (pause d)
  unfolding pause
  Does-pause d = record { at = λ env. unmoved env (ok tt) (pause d env).1 refl refl }

  pub Does-call : (c : Call) → Q c → Does {P = P} effect Q (call c)
  unfolding call
  Does-call c q = record {
    at = λ env. record {
      calls = c ∷ [];
      grows = refl;
      all = (q, tt);
      same = StateKept-refl effect refl;
    };
  }

  Grown-continue :
      {A B : Type 0} (env : Env P) (out : Outcome A × Env P) (f : A → Action P B)
      → Grown effect Q env out
      → ((a : A) → Does effect Q (f a))
      → Grown effect Q env (continue out f)
  unfolding continue
  Grown-continue env (ok a, env') f g d =
      let h = (d a).at env' in
      record {
        calls = g.calls ++ h.calls;
        grows = h.grows ∙ ap (λ t. t ++ h.calls) g.grows ∙ append_assoc env.trace g.calls h.calls;
        all = All-append Q g.calls h.calls g.all h.all;
        same = StateKept-trans effect env.state env'.state (f a env').1.state g.same h.same;
      }
  Grown-continue env (fail e, env') f g d = record {
    calls = g.calls;
    grows = g.grows;
    all = g.all;
    same = g.same;
  }
  Grown-continue env (no_fuel, env') f g d = record {
    calls = g.calls;
    grows = g.grows;
    all = g.all;
    same = g.same;
  }

  pub Does-bind :
      {A B : Type 0} {m : Action P A} {f : A → Action P B}
      → Does effect Q m
      → ((a : A) → Does effect Q (f a))
      → Does effect Q (m >>= f)
  unfolding ◌>>=◌
  Does-bind {m = m} {f = f} dm df = record {
    at = λ env. Grown-continue env (m env) f (dm.at env) df;
  }

  pub Does-then :
      {B : Type 0} {m : Action P (Unit {0})} {k : Action P B}
      → Does effect Q m
      → Does effect Q k
      → Does effect Q (m >> k)
  unfolding ◌>>◌
  Does-then dm dk = Does-bind dm (λ _. dk)

  Grown-rewritten :
      {A : Type 0} (f : Error → Error) (env : Env P) (out : Outcome A × Env P)
      → Grown effect Q env out
      → Grown effect Q env (rewritten f out)
  unfolding rewritten
  Grown-rewritten f env (ok a, env') g = g
  Grown-rewritten f env (fail e, env') g = record {
    calls = g.calls;
    grows = g.grows;
    all = g.all;
    same = g.same;
  }
  Grown-rewritten f env (no_fuel, env') g = g

  pub Does-on_error :
      {A : Type 0} (f : Error → Error) {m : Action P A}
      → Does effect Q m
      → Does effect Q (on_error f m)
  unfolding on_error
  Does-on_error f {m = m} dm = record { at = λ env. Grown-rewritten f env (m env) (dm.at env) }

  Grown-attempted :
      {A : Type 0} (env : Env P) (out : Outcome A × Env P)
      → Grown effect Q env out
      → Grown effect Q env (attempted out)
  unfolding attempted
  Grown-attempted env (ok a, env') g = record {
    calls = g.calls;
    grows = g.grows;
    all = g.all;
    same = g.same;
  }
  Grown-attempted env (fail e, env') g = record {
    calls = g.calls;
    grows = g.grows;
    all = g.all;
    same = g.same;
  }
  Grown-attempted env (no_fuel, env') g = record {
    calls = g.calls;
    grows = g.grows;
    all = g.all;
    same = g.same;
  }

  pub Does-attempt : {A : Type 0} {m : Action P A} → Does effect Q m → Does effect Q (attempt m)
  unfolding attempt
  Does-attempt {m = m} dm = record { at = λ env. Grown-attempted env (m env) (dm.at env) }

  pub Does-if :
      {A : Type 0} {m k : Action P A} (b : Bool)
      → Does effect Q m
      → Does effect Q k
      → Does effect Q (if b then m else k)
  Does-if true dm dk = dm
  Does-if false dm dk = dk

  pub Does-option :
      {A B : Type 0} {m : Action P A} {k : B → Action P A} (o : Option B)
      → Does effect Q m
      → ((b : B) → Does effect Q (k b))
      → Does effect Q (elim o [ none ↦ m | some b ↦ k b ])
  Does-option none dm dk = dm
  Does-option (some b) dm dk = dk b

pub Does-write_state :
    {P : Platform} {Q : Call → Type 0} (s : State) → Does {P = P} writing Q (write_state s)
unfolding write_state
Does-write_state s = record {
  at = λ env. record { calls = []; grows = sym (append-nil env.trace); all = tt; same = tt };
}

-- The two tests again, for a proof that needs to know how the test came out.
module _ {P : Platform} {effect : Effect} {Q : Call → Type 0} {A : Type 0} where
  pub Does-if_known :
      {m k : Action P A} (b : Bool)
      → (b ≡ true → Does effect Q m)
      → Does effect Q k
      → Does effect Q (if b then m else k)
  Does-if_known true dm dk = dm refl
  Does-if_known false dm dk = dk

  pub Does-option_known :
      {B : Type 0} {m : Action P A} {k : B → Action P A} (o : Option B)
      → Does effect Q m
      → ((b : B) → o ≡ some b → Does effect Q (k b))
      → Does effect Q (elim o [ none ↦ m | some b ↦ k b ])
  Does-option_known none dm dk = dm
  Does-option_known (some b) dm dk = dk b refl

-- An action that keeps the state may stand where one that writes it may.
pub Does-weaken :
    {P : Platform} {A : Type 0} {Q R : Call → Type 0} {m : Action P A}
    → ((c : Call) → Q c → R c)
    → Does reading Q m
    → Does writing R m
Does-weaken {Q = Q} {R = R} imp dm = record {
  at = λ env.
      let g = dm.at env in
      record { calls = g.calls; grows = g.grows; all = All-imp Q R g.calls imp g.all; same = tt };
}

-- Does-bind on a reply whose error is rewritten, for a proof that needs to know what was replied.
pub Does-of_reply_known :
    {P : Platform} {effect : Effect} {Q : Call → Type 0} {A B : Type 0} (f : Error → Error)
    (r : Reply A) {k : A → Action P B}
    → ((a : A) → r ≡ value a → Does effect Q (k a))
    → Does effect Q (on_error f (of_reply r) >>= k)
unfolding ◌>>=◌ of_reply on_error continue as_outcome rewritten raise
Does-of_reply_known f (value a) d = d a refl
Does-of_reply_known f (failure e) d = Does-raise (f e)
