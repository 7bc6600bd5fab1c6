-- ===== src/Controller/Steps/Completion.antt =====
-- The steps of a request against the Completed condition and the stage of an experiment.
use etc.Prelude.{◌≡◌, ◌<◌, refl, sym, ◌∙◌, ap, Option, some, List, [], ◌∷◌, ◌++◌, String, ℕ, arith}
use etc.Api.Constants.{
  ExperimentConditionType, experiment_completed, experiment_failed, target_acquired, condition_eq,
  condition_true, condition_unknown, ExperimentStageType, completed,
}
use etc.Api.Types.{Experiment, ExperimentCondition, ExperimentStatus}
use etc.Api.Status.{find_condition}
use etc.Controller.Effects.{Call, Cluster, Env}
use etc.Controller.Reconcile.{reconcile}
use etc.Controller.Steps.{
  Step, called, marked, looked, advanced, defaulted, initialized, started, observed, analysed,
  recommended, iterated, metrics_read,
}
use etc.Controller.Steps.Changes.{stage_rank, SetsCondition}
use etc.Controller.Steps.Kept.{Step-KeepsStatus}
use etc.Controller.Steps.Requests.{reconcile-Reach}
use etc.Controller.Steps.Induction.{Reach-induction}

-- The Completed condition is true at the stage Completed only.
pub record IsTrueAtEnd (s : ExperimentStatus) : Type 0 where
  pub at_end :
      (c : ExperimentCondition)
      → find_condition experiment_completed s.conditions ≡ some c
      → c.status ≡ condition_true
      → s.stage ≡ some completed

-- A status with the same stage, whose Completed condition is the same or is not true.
IsTrueAtEnd-of :
    (s t : ExperimentStatus)
    → t.stage ≡ s.stage
    → ((c : ExperimentCondition)
        → find_condition experiment_completed t.conditions ≡ some c
        → c.status ≡ condition_true
        → find_condition experiment_completed s.conditions ≡ some c)
    → IsTrueAtEnd s
    → IsTrueAtEnd t
IsTrueAtEnd-of s t e f h = record { at_end = λ c p q. e ∙ h.at_end c (f c p q) q }

-- An appended condition that is not true is not the true one.
appended :
    (cs : List ExperimentCondition) (c d : ExperimentCondition)
    → find_condition experiment_completed (cs ++ (d ∷ [])) ≡ some c
    → c.status ≡ condition_true
    → d.status ≡ condition_unknown
    → find_condition experiment_completed cs ≡ some c
unfolding find_condition
appended [] c d p q r = ground arith
appended (x ∷ cs) c d p q r = ground (arith, appended cs c d)

-- A mark of another condition, and a mark that is not true, do not complete the experiment.
marked-IsTrueAtEnd :
    (kind : ExperimentConditionType) (d : ExperimentCondition) (s : ExperimentStatus)
    (cs : List ExperimentCondition) (text : Option String)
    → d.kind ≡ kind
    → SetsCondition d s.conditions cs
    → (kind ≡ experiment_completed → d.status ≡ condition_true → s.stage ≡ some completed)
    → IsTrueAtEnd s
    → IsTrueAtEnd (record s { conditions = cs; message = text })
marked-IsTrueAtEnd experiment_completed d s cs text k set end h = record {
  at_end = λ c p q.
      let same : d ≡ c = (let found = set.found in cc) in end refl (ap (λ x. x.status) same ∙ q);
}
marked-IsTrueAtEnd experiment_failed d s cs text k set end h = record {
  at_end = λ c p q.
      h.at_end c
        (sym (set.others experiment_completed (ap (λ x. condition_eq x experiment_completed) k))
          ∙ p)
        q;
}
marked-IsTrueAtEnd target_acquired d s cs text k set end h = record {
  at_end = λ c p q.
      h.at_end c
        (sym (set.others experiment_completed (ap (λ x. condition_eq x experiment_completed) k))
          ∙ p)
        q;
}

never_after :
    (from to : ExperimentStageType) → stage_rank from < stage_rank to → from ≡ completed → ⊥
never_after from to h e = ground arith

Step-IsTrueAtEnd :
    {s t : Env} {u : ℕ}
    → Step s t
    → s.instance_.status.init_time ≡ some u
    → IsTrueAtEnd s.instance_.status
    → IsTrueAtEnd t.instance_.status
Step-IsTrueAtEnd (called c s) i h = h
Step-IsTrueAtEnd (marked now kind status reason message cs text s set end) i h =
    marked-IsTrueAtEnd kind _ s.instance_.status cs text refl set end h
Step-IsTrueAtEnd (looked now kind s e) i h =
    IsTrueAtEnd-of _ _ refl (λ c p q. appended _ c _ p q refl) h
Step-IsTrueAtEnd (advanced to from s e g) i h = record {
  at_end = λ x p q. absurd (never_after from to g (let k = h.at_end x p q in cc));
}
Step-IsTrueAtEnd (defaulted spec s e) i h = h
Step-IsTrueAtEnd (initialized now s e) i h = cc
Step-IsTrueAtEnd (started now s e) i h = IsTrueAtEnd-of _ _ refl (λ x p q. p) h
Step-IsTrueAtEnd (observed ws s) i h = IsTrueAtEnd-of _ _ refl (λ x p q. p) h
Step-IsTrueAtEnd (analysed a s g) i h = IsTrueAtEnd-of _ _ refl (λ x p q. p) h
Step-IsTrueAtEnd (recommended v s) i h = IsTrueAtEnd-of _ _ refl (λ x p q. p) h
Step-IsTrueAtEnd (iterated n now s e) i h = IsTrueAtEnd-of _ _ refl (λ x p q. p) h
Step-IsTrueAtEnd (metrics_read ms s) i h = IsTrueAtEnd-of _ _ refl (λ x p q. p) h

module _ ⦃cl : Cluster⦄ (e : Experiment) (trace : List Call) where
  IsTrueAtEnd-step :
      (u : ℕ) (s t : Env)
      → Step s t
      → (s.instance_.status.init_time ≡ some u) × IsTrueAtEnd s.instance_.status
      → (t.instance_.status.init_time ≡ some u) × IsTrueAtEnd t.instance_.status
  IsTrueAtEnd-step u s t st (i, h) =
      ((Step-KeepsStatus st i).init_time ∙ i, Step-IsTrueAtEnd st i h)

  -- A request for an experiment with an initialization time whose Completed condition is true at
  -- the stage Completed only leaves it so, whatever the cluster answers and also where it panics.
  pub reconcile-IsTrueAtEnd :
      (u : ℕ)
      → e.status.init_time ≡ some u
      → IsTrueAtEnd e.status
      → IsTrueAtEnd (reconcile e trace).1.instance_.status
  reconcile-IsTrueAtEnd u i h =
      (Reach-induction
        (λ s. (s.instance_.status.init_time ≡ some u) × IsTrueAtEnd s.instance_.status)
        (IsTrueAtEnd-step u) (reconcile-Reach e trace) (i, h)).1
