-- ===== src/TaskRunner/Action.antt =====
-- Action.Run of taskrunner/core/base.go: the tasks of an action, one after the other.
pub mod Completes
use etc.Prelude.{ℕ, Bool, true, false, Option, none, some, List, [], ◌∷◌, String, if◌then◌else◌}
use etc.Api.Types.{Experiment}
use etc.Controller.Effects.{Result, ok, err, Outcome, done, panic}
use etc.TaskRunner.Effects.{Context, T, World, Task, ◌>>=◌, pure}
use etc.TaskRunner.Core.{get_experiment_from_context}

module _ ⦃w : World⦄ (ctx : Context) where
  -- A task without a condition is run.
  unfoldable pub should_run : Experiment → Task → Result Bool
  should_run e t = elim t.condition [ none ↦ ok true | some cond ↦ w.evaluated cond e ]

  abbrev pub run_if : Bool → Task → T (Option String)
  run_if b t = if b then t.run ctx else pure none

  abbrev pub after_task : T (Option String) → Option String → T (Option String)
  after_task rest none = rest
  after_task rest (some text) = pure (some text)

  abbrev pub tested : T (Option String) → Task → Result Bool → T (Option String)
  tested rest t (err text) = pure (some text)
  tested rest t (ok b) = run_if b t >>= after_task rest

  abbrev pub with_experiment : T (Option String) → Task → Result Experiment → T (Option String)
  with_experiment rest t (err text) = pure (some text)
  with_experiment rest t (ok e) = tested rest t (should_run e t)

  -- The error, if any, of the first task that fails.
  unfoldable pub run_action : List Task → T (Option String)
  unfolding ◌>>=◌ pure get_experiment_from_context should_run
  run_action [] = pure none
  run_action (t ∷ ts) = do
    answer ← get_experiment_from_context ctx
    with_experiment (run_action ts) t answer
