-- ===== src/TaskRunner/Action/Completes.antt =====
-- Action.Run of taskrunner/core/base.go: what it means that an action completes.
use etc.Prelude.{
  ◌≡◌, ◌↔◌, refl, sym, ap, ◌∙◌, Bool, true, false, Option, none, some, List, [], ◌∷◌, String,
}
use etc.Controller.Effects.{Result, ok, err, Outcome, done, panic}
use etc.TaskRunner.Effects.{Context, Env, World, Task, ◌>>=◌, pure, continue}
use mathlib.Core.Path.{subst}
use etc.TaskRunner.Core.{HasExperiment, get_experiment_from_context_lem}
use etc.TaskRunner.Action.{should_run, after_task, tested, with_experiment, run_action}

module _ ⦃w : World⦄ (ctx : Context) where
  -- The tasks are run in order: one whose condition is false for the experiment as it is then is
  -- skipped, and each other one runs without an error on what the tasks before it left.
  pub data Completes : List Task → Env → Env → Type 0 where
    nothing : {s : Env} → Completes [] s s
    skipped :
        {t : Task} {ts : List Task} {s s' : Env}
        → should_run ctx s.experiment t ≡ ok false
        → Completes ts s s'
        → Completes (t ∷ ts) s s'
    ran :
        {t : Task} {ts : List Task} {s s₁ s' : Env}
        → should_run ctx s.experiment t ≡ ok true
        → t.run ctx s ≡ (done none, s₁)
        → Completes ts s₁ s'
        → Completes (t ∷ ts) s s'

  run_action-cons :
      HasExperiment ctx
      → (t : Task) (ts : List Task) (s : Env)
      → run_action ctx (t ∷ ts) s
        ≡ tested ctx (run_action ctx ts) t (should_run ctx s.experiment t) s
  unfolding run_action ◌>>=◌
  run_action-cons h t ts s =
      ap (λ r. continue r.0 (with_experiment ctx (run_action ctx ts) t) r.1)
        (get_experiment_from_context_lem ctx s h)

  Completes-run :
      HasExperiment ctx
      → {ts : List Task} {s s' : Env} → Completes ts s s'
      → run_action ctx ts s ≡ (done none, s')
  unfolding run_action ◌>>=◌ pure
  Completes-run h nothing = refl
  Completes-run h (skipped {t} {ts} {s} {s'} not_wanted rest) =
      run_action-cons h t ts s
      ∙ ap (λ r. tested ctx (run_action ctx ts) t r s) not_wanted
      ∙ Completes-run h rest
  Completes-run h (ran {t} {ts} {s} {s₁} {s'} wanted runs rest) =
      run_action-cons h t ts s
      ∙ ap (λ r. tested ctx (run_action ctx ts) t r s) wanted
      ∙ ap (λ r. continue r.0 (after_task ctx (run_action ctx ts)) r.1) runs
      ∙ Completes-run h rest

  module _ (t : Task) (ts : List Task) (s s' : Env)
      (ih : (s₁ : Env) → run_action ctx ts s₁ ≡ (done none, s') → Completes ts s₁ s') where
    after-Completes :
        (r : Outcome (Option String) × Env)
        → should_run ctx s.experiment t ≡ ok true
        → t.run ctx s ≡ r
        → continue r.0 (after_task ctx (run_action ctx ts)) r.1 ≡ (done none, s')
        → Completes (t ∷ ts) s s'
    unfolding pure
    after-Completes (done none, s₁) wanted runs eq = ran wanted runs (ih s₁ eq)
    after-Completes (done (some text), s₁) wanted runs eq = cc
    after-Completes (panic, s₁) wanted runs eq = cc

    tested-Completes :
        (r : Result Bool)
        → should_run ctx s.experiment t ≡ r
        → tested ctx (run_action ctx ts) t r s ≡ (done none, s')
        → Completes (t ∷ ts) s s'
    unfolding pure ◌>>=◌
    tested-Completes (err text) r eq = cc
    tested-Completes (ok false) not_wanted eq = skipped not_wanted (ih s eq)
    tested-Completes (ok true) wanted eq = after-Completes (t.run ctx s) wanted refl eq

  run-Completes :
      HasExperiment ctx
      → (ts : List Task) (s s' : Env) → run_action ctx ts s ≡ (done none, s')
      → Completes ts s s'
  unfolding run_action pure
  run-Completes h [] s s' e = subst (Completes [] s) (ap (λ r. r.1) e) nothing
  run-Completes h (t ∷ ts) s s' e =
      tested-Completes t ts s s' (λ s₁. run-Completes h ts s₁ s') (should_run ctx s.experiment t)
        refl (sym (run_action-cons h t ts s) ∙ e)

  -- Where the context has the experiment, an action ends without an error in some state exactly
  -- when its tasks lead there in order: each one whose condition is false for the experiment as it
  -- is by then is skipped, and each other one runs without an error on what the tasks before it
  -- left.
  pub run_action-Completes :
      HasExperiment ctx
      → (ts : List Task) (s s' : Env) → (run_action ctx ts s ≡ (done none, s')) ↔ Completes ts s s'
  run_action-Completes h ts s s' = (run-Completes h ts s s', Completes-run h)
