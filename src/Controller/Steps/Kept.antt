-- ===== src/Controller/Steps/Kept.antt =====
-- The steps of a request against the status of an experiment.
use etc.Prelude.{sym, ap, ℕ, ◌≤◌, ◌≡◌, refl, ◌∙◌, some, List, arith}
use etc.Api.Constants.{ExperimentStageType}
use etc.Api.Types.{Experiment, ExperimentStatus, Analysis}
use etc.Api.Status.Kinds.{HasUniqueKinds, get_condition-HasUniqueKinds}
use etc.Controller.Effects.{Call, Cluster, Env}
use etc.Controller.Reconcile.{reconcile}
use etc.Controller.Steps.{
  Step, called, marked, looked, advanced, defaulted, initialized, started, observed, analysed,
  recommended, iterated, metrics_read,
}
use etc.Controller.Steps.Changes.{stage_rank, look_missing}
use etc.Controller.Steps.Requests.{reconcile-Reach}
use etc.Controller.Steps.Induction.{Reach-induction}

-- What a status keeps from the moment its initialization time is set.
pub record KeepsStatus (s t : ExperimentStatus) : Type 0 where
  pub init_time : t.init_time ≡ s.init_time
  pub start_time : (u : ℕ) → s.start_time ≡ some u → t.start_time ≡ some u
  pub hists :
      (a : Analysis)
      → s.analysis ≡ some a
      → (b : Analysis) × (t.analysis ≡ some b)
        × (b.aggregated_builtin_hists ≡ a.aggregated_builtin_hists)
  pub stage :
      (x : ExperimentStageType)
      → s.stage ≡ some x
      → (y : ExperimentStageType) × (t.stage ≡ some y) × (stage_rank x ≤ stage_rank y)
  pub unique : HasUniqueKinds s → HasUniqueKinds t

KeepsStatus-trans : (s t u : ExperimentStatus) → KeepsStatus s t → KeepsStatus t u → KeepsStatus s u
KeepsStatus-trans s t u h k = record {
  init_time = k.init_time ∙ h.init_time;
  start_time = λ x e. k.start_time x (h.start_time x e);
  hists = λ a e. let (b, p, q) = h.hists a e in let (c, p', q') = k.hists b p in (c, p', q' ∙ q);
  stage =
      λ x e. let (y, p, q) = h.stage x e in let (z, p', q') = k.stage y p in (z, p', omega arith);
  unique = λ x. k.unique (h.unique x);
}

-- A status that differs from `s` only in other fields.
keeps_all :
    (s t : ExperimentStatus)
    → t.init_time ≡ s.init_time
    → t.start_time ≡ s.start_time
    → t.analysis ≡ s.analysis
    → t.stage ≡ s.stage
    → (HasUniqueKinds s → HasUniqueKinds t)
    → KeepsStatus s t
keeps_all s t i st a g u = record {
  init_time = i;
  start_time = λ x e. st ∙ e;
  hists = λ x e. (x, a ∙ e, refl);
  stage = λ x e. (x, g ∙ e, omega arith);
  unique = u;
}

HasUniqueKinds-of :
    (s t : ExperimentStatus) → t.conditions ≡ s.conditions → HasUniqueKinds s → HasUniqueKinds t
HasUniqueKinds-of s t e h = record { at_kind = λ j. rw e (h.at_kind j) }

pub Step-KeepsStatus :
    {s t : Env} {u : ℕ}
    → Step s t
    → s.instance_.status.init_time ≡ some u
    → KeepsStatus s.instance_.status t.instance_.status
Step-KeepsStatus (called c s) i = keeps_all _ _ refl refl refl refl (λ h. h)
Step-KeepsStatus (marked now kind status reason message cs text s set end) i =
    keeps_all _ _ refl refl refl refl (λ q. record { at_kind = set.unique q.at_kind })
Step-KeepsStatus (looked now kind s e) i = keeps_all _ _ refl refl refl refl (λ q.
    HasUniqueKinds-of _ _
      (sym (ap (λ x. x.conditions) (look_missing now kind s.instance_.status e)))
      (get_condition-HasUniqueKinds now kind s.instance_.status q))
Step-KeepsStatus (advanced to from s e h) i = record {
  init_time = refl;
  start_time = λ x p. p;
  hists = λ x p. (x, p, refl);
  stage = λ x p. (to, refl, ground arith);
  unique = λ q. HasUniqueKinds-of _ _ refl q;
}
Step-KeepsStatus (defaulted spec s e) i = keeps_all _ _ refl refl refl refl (λ h. h)
Step-KeepsStatus (initialized now s e) i = cc
Step-KeepsStatus (started now s e) i = record {
  init_time = refl;
  start_time = λ x p. cc;
  hists = λ x p. (x, p, refl);
  stage = λ x p. (x, p, omega arith);
  unique = λ q. HasUniqueKinds-of _ _ refl q;
}
Step-KeepsStatus (observed ws s) i =
    keeps_all _ _ refl refl refl refl (λ q. HasUniqueKinds-of _ _ refl q)
Step-KeepsStatus (analysed a s h) i = record {
  init_time = refl;
  start_time = λ x p. p;
  hists = λ x p. (a, refl, h x p);
  stage = λ x p. (x, p, omega arith);
  unique = λ q. HasUniqueKinds-of _ _ refl q;
}
Step-KeepsStatus (recommended v s) i =
    keeps_all _ _ refl refl refl refl (λ q. HasUniqueKinds-of _ _ refl q)
Step-KeepsStatus (iterated n now s e) i =
    keeps_all _ _ refl refl refl refl (λ q. HasUniqueKinds-of _ _ refl q)
Step-KeepsStatus (metrics_read ms s) i =
    keeps_all _ _ refl refl refl refl (λ q. HasUniqueKinds-of _ _ refl q)

module _ ⦃cl : Cluster⦄ (e : Experiment) (trace : List Call) where
  KeepsStatus-step :
      (u : ℕ) (s t : Env)
      → Step s t
      → (s.instance_.status.init_time ≡ some u) × KeepsStatus e.status s.instance_.status
      → (t.instance_.status.init_time ≡ some u) × KeepsStatus e.status t.instance_.status
  KeepsStatus-step u s t st (i, h) =
      let k = Step-KeepsStatus st i in (k.init_time ∙ i, KeepsStatus-trans _ _ _ h k)

  -- A request for an experiment with an initialization time, whatever the cluster answers and also
  -- where it panics, keeps that time and a start time that is set, does not take the stage back,
  -- keeps the built-in histograms of a present analysis, and lists no condition type twice if none
  -- was.
  pub reconcile-KeepsStatus :
      (u : ℕ)
      → e.status.init_time ≡ some u
      → KeepsStatus e.status (reconcile e trace).1.instance_.status
  reconcile-KeepsStatus u i =
      (Reach-induction
        (λ s. (s.instance_.status.init_time ≡ some u) × KeepsStatus e.status s.instance_.status)
        (KeepsStatus-step u) (reconcile-Reach e trace)
        (i, keeps_all _ _ refl refl refl refl (λ h. h))).1
