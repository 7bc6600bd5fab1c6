-- ===== src/TaskRunner/Quiet.antt =====
-- Actions of the tasks other than the collect and the Slack task, against the experiment in memory.
pub mod Requests
pub mod Checks
use etc.Prelude.{
  arith, ◌≡◌, refl, true, false, ◌&&◌, not, str_eq, ℕ, zero, suc, Bool, Option, none, some, List,
  [], ◌∷◌, ◌++◌, String, All, get_elem?, if◌then◌else◌,
}
use etc.Prelude.Int.{ℤ}
use etc.Prelude.Text.{is_empty}
use etc.Api.Types.{TaskSpec, Json, Experiment}
use etc.Controller.Effects.{Result, ok, err}
use etc.TaskRunner.Effects.{
  sleep, Secret, Request, Tags, ContextValue, Context, Env, T, World, Task, call, pure, ◌>>=◌,
}
use etc.TaskRunner.Effects.Leaves.{
  Leaves, Leaves-panics, Leaves-none, Leaves-bind, Leaves-pure, Leaves-call, Leaves-deref,
  Leaves-if, Leaves-result, leaves_rules,
}
use etc.TaskRunner.Core.{
  is_a_run, is_a_task, experiment_or_error, experiment_in, get_experiment_from_context, attempt,
  num_attempt, get_typed_object, secret_name,
}
use etc.TaskRunner.Tags.{find_secret, read_secret}
use etc.TaskRunner.Action.{after_task, tested, with_experiment, run_action}
use etc.TaskRunner.Collect
use etc.TaskRunner.Collect.Aggregate.{Fortio}
use etc.TaskRunner.Slack
use etc.TaskRunner.Http
use etc.TaskRunner.Readiness
use etc.TaskRunner.RunScript
use etc.TaskRunner.Quiet.Requests.{Leaves-context, Leaves-http, Leaves-script}
use etc.TaskRunner.Quiet.Checks.{Leaves-readiness}
use etc.TaskRunner.Run.{
  Decoders, task_or_error, task_named, make_task, make_item, and_then, get_action,
}
use mathlib.Core.Path.{subst}

module _ ⦃w : World⦄ (ctx : Context) where
  Leaves-after :
      (rest : T (Option String))
      → Leaves rest
      → (r : Option String) → Leaves (after_task ctx rest r)
  Leaves-after rest k none = k
  Leaves-after rest k (some text) = Leaves-pure _

  Leaves-tested :
      (rest : T (Option String)) (t : Task) (r : Result Bool)
      → Leaves (t.run ctx)
      → Leaves rest
      → Leaves (tested ctx rest t r)
  Leaves-tested rest t (err text) h k = Leaves-pure _
  Leaves-tested rest t (ok b) h k =
      Leaves-bind _ _ (Leaves-if b h (Leaves-pure none)) (Leaves-after rest k)

  Leaves-with_experiment :
      (rest : T (Option String)) (t : Task) (r : Result Experiment)
      → Leaves (t.run ctx)
      → Leaves rest
      → Leaves (with_experiment ctx rest t r)
  Leaves-with_experiment rest t (err text) h k = Leaves-pure _
  Leaves-with_experiment rest t (ok e) h k = Leaves-tested rest t _ h k

  pub Leaves-run_action :
      (ts : List Task) → All (λ t. Leaves (t.run ctx)) ts → Leaves (run_action ctx ts)
  unfolding run_action
  Leaves-run_action [] h = Leaves-pure _
  Leaves-run_action (t ∷ ts) (h, hs) =
      Leaves-bind _ _ (Leaves-context ctx)
        (λ r. Leaves-with_experiment _ t r h (Leaves-run_action ts hs))

-- An item that is neither a collect nor a Slack task.
unfoldable pub is_quiet : Option String → Bool
is_quiet none = true
is_quiet (some name) = not (str_eq name Collect.task_name) && not (str_eq name Slack.task_name)

-- What holds of each branch holds of the choice.
pick :
    {A : Type 0} {P : Type 0} (b : Bool) {m n o : A}
    → (b ≡ true → m ≡ o → P)
    → (b ≡ false → n ≡ o → P)
    → (if b then m else n) ≡ o
    → P
pick true h k e = h refl e
pick false h k e = k refl e

module _ ⦃w : World⦄ ⦃fo : Fortio⦄ (ds : Decoders fo.Float) (ctx : Context) where
  abbrev Looks : Task → Type 0
  Looks task = Leaves (task.run ctx)

  Looks-made :
      {A : Type 0} (condition : Option String) (run : A → Context → T (Option String))
      (made : Option A × Option String) {task : Task}
      → ((a : A) → Leaves (run a ctx))
      → task_or_error condition run made ≡ ok task
      → Looks task
  unfolding task_or_error
  Looks-made condition run (made, some text) h e = absurd (cc)
  Looks-made condition run (none, none) h e = absurd (cc)
  Looks-made condition run (some a, none) {task} h e =
      let made : record { condition = condition; run = run a } ≡ task = cc in subst Looks made (h a)

  Looks-named :
      (t : TaskSpec) (name : String) {task : Task}
      → is_quiet (some name) ≡ true
      → task_named ds t name ≡ ok task
      → Looks task
  unfolding is_quiet
  Looks-named t name q =
      pick (str_eq name Collect.task_name) (λ c e. absurd (ground arith))
        (λ c.
          pick (str_eq name Http.task_name) (λ c e. Looks-made _ _ _ (λ a. Leaves-http _ a ctx) e)
            (λ c.
              pick (str_eq name Readiness.task_name)
                (λ c e. Looks-made _ _ _ (λ a. Leaves-readiness a ctx) e)
                (λ c.
                  pick (str_eq name Slack.task_name) (λ c e. absurd (ground arith))
                    (λ c e. absurd (cc)))))

  Looks-task :
      (t : TaskSpec) (o : Option String) {task : Task}
      → is_quiet o ≡ true
      → elim o [
        | none ↦ err "nil or empty task found"
        | some name ↦ if is_empty name then err "nil or empty task found" else task_named ds t name
      ]
        ≡ ok task
      → Looks task
  Looks-task t none q e = absurd (cc)
  Looks-task t (some name) q e =
      pick (is_empty name) (λ c e. absurd (cc)) (λ c. Looks-named t name q) e

  Looks-item :
      (t : TaskSpec) {task : Task} → is_quiet t.task ≡ true → make_item ds t ≡ ok task → Looks task
  unfolding make_item make_task
  Looks-item t q =
      pick (is_a_run t) (λ c e. Looks-made _ _ _ (λ a. Leaves-script a ctx) e)
        (λ c. pick (is_a_task t) (λ c. Looks-task t t.task q) (λ c e. absurd (cc)))

  Looks-and_then :
      (r : Result Task) (rs : Result (List Task)) (ts : List Task)
      → ((task : Task) → r ≡ ok task → Looks task)
      → ((us : List Task) → rs ≡ ok us → All Looks us)
      → and_then ds r rs ≡ ok ts
      → All Looks ts
  Looks-and_then (err text) rs ts h k e = absurd (cc)
  Looks-and_then (ok task) (err text) ts h k e = absurd (cc)
  Looks-and_then (ok task) (ok us) ts h k e =
      let made : (task ∷ us) ≡ ts = cc in subst (All Looks) made (h task refl, k us refl)

  Looks-action :
      (spec : List TaskSpec) (ts : List Task)
      → All (λ t. is_quiet t.task ≡ true) spec
      → get_action ds spec ≡ ok ts
      → All Looks ts
  unfolding get_action
  Looks-action [] ts q e = let made : [] ≡ ts = cc in subst (All Looks) made tt
  Looks-action (t ∷ spec) ts (q, qs) e =
      Looks-and_then (make_item ds t) (get_action ds spec) ts (λ task. Looks-item t q)
        (λ us. Looks-action spec us qs) e

  -- An action whose items are made into tasks, and that names neither the collect nor the Slack
  -- task, leaves the experiment in memory as it is, whatever the other systems answer, with an
  -- error and also where it panics.
  pub run_action-SameExperiment :
      (spec : List TaskSpec) (ts : List Task) (s : Env)
      → All (λ t. is_quiet t.task ≡ true) spec
      → get_action ds spec ≡ ok ts
      → (run_action ctx ts s).1.experiment ≡ s.experiment
  run_action-SameExperiment spec ts s q e =
      (Leaves-run_action ctx ts (Looks-action spec ts q e)).at s
