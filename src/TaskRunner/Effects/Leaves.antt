-- ===== src/TaskRunner/Effects/Leaves.antt =====
-- What an action of a task does to the experiment in memory: nothing, where its parts do nothing.
use etc.Prelude.{◌≡◌, refl, ◌∙◌, Bool, true, false, Option, none, some, List, String, if◌then◌else◌}
use etc.Controller.Effects.{Result, ok, err, Outcome, done, panic}
use etc.TaskRunner.Effects.{
  Call, Env, T, ◌>>=◌, pure, panics, continue, call, deref, get_experiment,
}

-- An action that leaves the experiment in memory as it is, whether it returns or panics.
pub record Leaves {A : Type 0} (m : T A) : Type 0 where
  pub at : (s : Env) → (m s).1.experiment ≡ s.experiment

module _ {A B : Type 0} where
  continue-Leaves :
      (o : Outcome A) (f : A → T B) (s : Env)
      → ((a : A) → Leaves (f a))
      → (continue o f s).1.experiment ≡ s.experiment
  continue-Leaves (done a) f s k = (k a).at s
  continue-Leaves panic f s k = refl

  pub Leaves-bind : (m : T A) (f : A → T B) → Leaves m → ((a : A) → Leaves (f a)) → Leaves (m >>= f)
  unfolding ◌>>=◌
  Leaves-bind m f h k = record { at = λ s. continue-Leaves (m s).0 f (m s).1 k ∙ h.at s }

module _ {A B : Type 0} where
  pub Leaves-none :
      (o : Option A) {m : T B} {f : A → T B}
      → Leaves m
      → ((a : A) → Leaves (f a))
      → Leaves (elim o [ none ↦ m | some a ↦ f a ])
  Leaves-none none h k = h
  Leaves-none (some a) h k = k a

  -- The same, where the code looks at the value first.
  pub Leaves-some :
      (o : Option A) {m : T B} {f : A → T B}
      → Leaves m
      → ((a : A) → Leaves (f a))
      → Leaves (elim o [ some a ↦ f a | none ↦ m ])
  Leaves-some none h k = h
  Leaves-some (some a) h k = k a

pub Leaves-pure : {A : Type 0} (a : A) → Leaves (pure a)
unfolding pure
Leaves-pure a = record { at = λ s. refl }

pub Leaves-panics : {A : Type 0} → Leaves (panics {A = A})
unfolding panics
Leaves-panics = record { at = λ s. refl }

pub Leaves-call : {A : Type 0} (c : Call) (answer : List Call → A) → Leaves (call c answer)
unfolding call
Leaves-call c answer = record { at = λ s. refl }

pub Leaves-deref : {A : Type 0} (o : Option A) → Leaves (deref o)
unfolding deref pure panics
Leaves-deref none = record { at = λ s. refl }
Leaves-deref (some a) = record { at = λ s. refl }

pub Leaves-experiment : Leaves get_experiment
unfolding get_experiment
Leaves-experiment = record { at = λ s. refl }

pub Leaves-if :
    {A : Type 0} (b : Bool) {m n : T A} → Leaves m → Leaves n → Leaves (if b then m else n)
Leaves-if true h k = h
Leaves-if false h k = k

module _ {A B : Type 0} where
  pub Leaves-result :
      (r : Result A) {m : A → T B} {f : String → T B}
      → ((a : A) → Leaves (m a))
      → ((e : String) → Leaves (f e))
      → Leaves (elim r [ ok a ↦ m a | err e ↦ f e ])
  Leaves-result (ok a) h k = h a
  Leaves-result (err e) h k = k e

pub ruleset leaves_rules = (
  Leaves-bind, Leaves-none, Leaves-some, Leaves-pure, Leaves-call, Leaves-deref, Leaves-experiment,
  Leaves-if, Leaves-result,
)
