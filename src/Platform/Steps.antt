-- ===== src/Platform/Steps.antt =====
-- Actions that carry out a given sequence of steps. A step is what a call does, told apart by
-- `step_of`; a call that does nothing, such as a listing, is no step.
use apprun_dedicated_provisi.Base.{
  Bool, true, false, Option, none, some, List, [], ◌∷◌, ◌++◌, ◌≡◌, refl, sym, ap, ap₂, subst, ◌∙◌,
  All, if◌then◌else◌,
}
use mathlib.Core.List.{append-nil, append_assoc}
use apprun_dedicated_provisi.Result.{Error, Reply, value, failure}
use apprun_dedicated_provisi.Platform.{
  Platform, Call, Action, Outcome, ok, fail, no_fuel, Env, pure, raise, of_reply, as_outcome,
  on_error, call, ◌>>=◌, ◌>>◌, continue, rewritten,
}
use apprun_dedicated_provisi.Platform.Traces.{Effect, Does}
use native.Mathlib.Omega.{arith}

module _ {S : Type 0} (step_of : Call → Option S) where
  -- The steps of a sequence of calls.
  abbrev pub steps : List Call → List S
  steps [] = []
  steps (c ∷ cs) = elim (step_of c) [ none ↦ steps cs | some s ↦ s ∷ steps cs ]

  steps-append : (cs ds : List Call) → steps (cs ++ ds) ≡ steps cs ++ steps ds
  steps-append [] ds = refl
  steps-append (c ∷ cs) ds = ground (arith, steps-append cs ds)

  steps-none : (cs : List Call) → All (λ c. step_of c ≡ none) cs → steps cs ≡ []
  steps-none [] h = refl
  steps-none (c ∷ cs) h = ground (arith, h.0, steps-none cs h.1)

  -- A result comes after all the steps, an error after some first of them.
  abbrev pub Progress : {A : Type 0} → Outcome A → List S → List S → Type 0
  Progress (ok a) done all = done ≡ all
  Progress (fail e) done all = (rest : List S) × (done ++ rest ≡ all)
  Progress no_fuel done all = (rest : List S) × (done ++ rest ≡ all)

  Progress-none : {A : Type 0} (r : Outcome A) (done : List S) → done ≡ [] → Progress r done []
  Progress-none (ok a) done h = h
  Progress-none (fail e) done h = ([], append-nil done ∙ h)
  Progress-none no_fuel done h = ([], append-nil done ∙ h)

  Progress-one :
      {A : Type 0} (r : Outcome A) (done : List S) (s : S)
      → done ≡ s ∷ []
      → Progress r done (s ∷ [])
  Progress-one (ok a) done s h = h
  Progress-one (fail e) done s h = ([], append-nil done ∙ h)
  Progress-one no_fuel done s h = ([], append-nil done ∙ h)

  Progress-stop :
      (all more done : List S)
      → (rest : List S) × (done ++ rest ≡ all)
      → (rest : List S) × (done ++ rest ≡ all ++ more)
  Progress-stop all more done (rest, h) =
      (rest ++ more, sym (append_assoc done rest more) ∙ ap (λ t. t ++ more) h)

  resumed :
      (all more : List S) (done later : List Call) (rest : List S)
      → steps done ≡ all
      → steps later ++ rest ≡ more
      → steps (done ++ later) ++ rest ≡ all ++ more
  resumed all more done later rest h k =
      ap (λ t. t ++ rest) (steps-append done later)
      ∙ append_assoc (steps done) (steps later) rest
      ∙ ap₂ ◌++◌ h k

  Progress-continue :
      {B : Type 0} (r : Outcome B) (all more : List S) (done later : List Call)
      → steps done ≡ all
      → Progress r (steps later) more
      → Progress r (steps (done ++ later)) (all ++ more)
  Progress-continue (ok b) all more done later h k = steps-append done later ∙ ap₂ ◌++◌ h k
  Progress-continue (fail e) all more done later h (rest, k) =
      (rest, resumed all more done later rest h k)
  Progress-continue no_fuel all more done later h (rest, k) =
      (rest, resumed all more done later rest h k)

  module _ {P : Platform} {A : Type 0} where
    -- From `env` to `out` calls were made whose steps are those of `all`, as far as `out` came.
    pub record Advanced (all : List S) (env : Env P) (out : Outcome A × Env P) : Type 0 where
      pub calls : List Call
      pub grows : out.1.trace ≡ env.trace ++ calls
      pub progress : Progress out.0 (steps calls) all

    -- From every environment `m` takes the steps of `all` in their order: all of them if it returns,
    -- and some first of them if it fails.
    pub record Follows (all : List S) (m : Action P A) : Type 0 where
      pub at : (env : Env P) → Advanced all env (m env)

module _ {S : Type 0} {step_of : Call → Option S} {P : Platform} where
  -- An action none of whose calls is a step.
  pub Follows-none :
      {A : Type 0} {effect : Effect} {m : Action P A}
      → Does effect (λ c. step_of c ≡ none) m
      → Follows step_of [] m
  Follows-none {m = m} d = record {
    at = λ env.
        let g = d.at env in
        record {
          calls = g.calls;
          grows = g.grows;
          progress =
              Progress-none step_of (m env).0 (steps step_of g.calls)
                (steps-none step_of g.calls g.all);
        };
  }

  pub Follows-raise :
      {A : Type 0} (all : List S) (e : Error) → Follows step_of {P = P} {A = A} all (raise e)
  unfolding raise
  Follows-raise all e = record {
    at = λ env. record { calls = []; grows = sym (append-nil env.trace); progress = (all, refl) };
  }

  pub Follows-call :
      (c : Call) (s : S) → step_of c ≡ some s → Follows step_of {P = P} (s ∷ []) (call c)
  unfolding call
  Follows-call c s h = record {
    at = λ env. record {
      calls = c ∷ [];
      grows = refl;
      progress =
          Progress-one step_of (call {P = P} c env).0 (steps step_of (c ∷ [])) s
            (rw (h, steps) refl);
    };
  }

  Advanced-continue :
      {A B : Type 0} (all more : List S) (env : Env P) (out : Outcome A × Env P)
      (f : A → Action P B)
      → Advanced step_of all env out
      → ((a : A) → Follows step_of more (f a))
      → Advanced step_of (all ++ more) env (continue out f)
  unfolding continue
  Advanced-continue all more env (ok a, env') f g d =
      let h = (d a).at env' in
      record {
        calls = g.calls ++ h.calls;
        grows = h.grows ∙ ap (λ t. t ++ h.calls) g.grows ∙ append_assoc env.trace g.calls h.calls;
        progress =
            Progress-continue step_of (f a env').0 all more g.calls h.calls g.progress h.progress;
      }
  Advanced-continue all more env (fail e, env') f g d = record {
    calls = g.calls;
    grows = g.grows;
    progress = Progress-stop step_of all more (steps step_of g.calls) g.progress;
  }
  Advanced-continue all more env (no_fuel, env') f g d = record {
    calls = g.calls;
    grows = g.grows;
    progress = Progress-stop step_of all more (steps step_of g.calls) g.progress;
  }

  pub Follows-bind :
      {A B : Type 0} {all more : List S} {m : Action P A} {f : A → Action P B}
      → Follows step_of all m
      → ((a : A) → Follows step_of more (f a))
      → Follows step_of (all ++ more) (m >>= f)
  unfolding ◌>>=◌
  Follows-bind {all = all} {more = more} {m = m} {f = f} dm df = record {
    at = λ env. Advanced-continue all more env (m env) f (dm.at env) df;
  }

  pub Follows-then :
      {B : Type 0} {all more : List S} {m : Action P (Unit {0})} {k : Action P B}
      → Follows step_of all m
      → Follows step_of more k
      → Follows step_of (all ++ more) (m >> k)
  unfolding ◌>>◌
  Follows-then dm dk = Follows-bind dm (λ _. dk)

  Advanced-rewritten :
      {A : Type 0} (all : List S) (f : Error → Error) (env : Env P) (out : Outcome A × Env P)
      → Advanced step_of all env out
      → Advanced step_of all env (rewritten f out)
  unfolding rewritten
  Advanced-rewritten all f env (ok a, env') g = g
  Advanced-rewritten all f env (fail e, env') g = record {
    calls = g.calls;
    grows = g.grows;
    progress = g.progress;
  }
  Advanced-rewritten all f env (no_fuel, env') g = g

  pub Follows-on_error :
      {A : Type 0} {all : List S} (f : Error → Error) {m : Action P A}
      → Follows step_of all m
      → Follows step_of all (on_error f m)
  unfolding on_error
  Follows-on_error {all = all} f {m = m} dm = record {
    at = λ env. Advanced-rewritten all f env (m env) (dm.at env);
  }

  pub Follows-eq :
      {A : Type 0} {all all' : List S} {m : Action P A}
      → all ≡ all'
      → Follows step_of all m
      → Follows step_of all' m
  Follows-eq {m = m} h d = subst (λ t. Follows step_of t m) h d

  pub Follows-pure : {A : Type 0} (a : A) → Follows step_of {P = P} [] (pure a)
  unfolding pure
  Follows-pure a = record {
    at = λ env. record { calls = []; grows = sym (append-nil env.trace); progress = refl };
  }

  -- The two tests, with how they came out.
  pub Follows-if :
      {A : Type 0} {all : List S} {m k : Action P A} (b : Bool)
      → (b ≡ true → Follows step_of all m)
      → (b ≡ false → Follows step_of all k)
      → Follows step_of all (if b then m else k)
  Follows-if true dm dk = dm refl
  Follows-if false dm dk = dk refl

  pub Follows-option :
      {A B : Type 0} {all : List S} {m : Action P A} {k : B → Action P A} (o : Option B)
      → (o ≡ none → Follows step_of all m)
      → ((b : B) → o ≡ some b → Follows step_of all (k b))
      → Follows step_of all (elim o [ none ↦ m | some b ↦ k b ])
  Follows-option none dm dk = dm refl
  Follows-option (some b) dm dk = dk b refl

  -- The rest after a reply whose error is rewritten. Nothing is done if it is an error.
  pub Follows-of_reply :
      {A B : Type 0} {all : List S} (f : Error → Error) (r : Reply A) {k : A → Action P B}
      → ((a : A) → r ≡ value a → Follows step_of all (k a))
      → Follows step_of all (on_error f (of_reply r) >>= k)
  unfolding ◌>>=◌ of_reply on_error continue as_outcome rewritten raise
  Follows-of_reply f (value a) d = d a refl
  Follows-of_reply {all = all} f (failure e) d = Follows-raise all (f e)
