-- ===== src/Controller/Steps/Identity.antt =====
-- The steps of a request against the identity and the spec of an experiment.
use etc.Prelude.{◌≡◌, refl, sym, ◌∙◌, ◌⊎◌, List, inl, inr}
use mathlib.Core.Path.{subst}
use etc.Api.Types.{Experiment, ExperimentSpec}
use etc.Api.Defaults.Laws.{IsLateInitialized, SameAnswers, SameAnswers-of}
use etc.Controller.Effects.{Call, Cluster, Env}
use etc.Controller.Reconcile.{reconcile}
use etc.Controller.Steps.{
  Step, called, marked, looked, advanced, defaulted, initialized, started, observed, analysed,
  recommended, iterated, metrics_read,
}
use etc.Controller.Steps.Requests.{reconcile-Reach}
use etc.Controller.Steps.Induction.{Reach-induction}

-- A step leaves the spec alone, or fills in its defaults.
Step-spec :
    {s t : Env}
    → Step s t
    → (t.instance_.name ≡ s.instance_.name)
      × (t.instance_.namespace ≡ s.instance_.namespace)
      × ((t.instance_.spec ≡ s.instance_.spec)
          ⊎ IsLateInitialized s.instance_.spec t.instance_.spec)
Step-spec (called c s) = (refl, refl, inl refl)
Step-spec (marked now kind status reason message cs text s set h) = (refl, refl, inl refl)
Step-spec (looked now kind s e) = (refl, refl, inl refl)
Step-spec (advanced to from s e h) = (refl, refl, inl refl)
Step-spec (defaulted spec s e) = (refl, refl, inr e)
Step-spec (initialized now s e) = (refl, refl, inl refl)
Step-spec (started now s e) = (refl, refl, inl refl)
Step-spec (observed ws s) = (refl, refl, inl refl)
Step-spec (analysed a s h) = (refl, refl, inl refl)
Step-spec (recommended b s) = (refl, refl, inl refl)
Step-spec (iterated n now s e) = (refl, refl, inl refl)
Step-spec (metrics_read ms s) = (refl, refl, inl refl)

-- What the spec of an experiment says, defaults included.
pub record SameSpec (s t : ExperimentSpec) : Type 0 where
  pub target : t.target ≡ s.target
  pub version_info : t.version_info ≡ s.version_info
  pub criteria : t.criteria ≡ s.criteria
  pub testing_pattern : t.strategy.testing_pattern ≡ s.strategy.testing_pattern
  pub actions : t.strategy.actions ≡ s.strategy.actions
  pub answers : SameAnswers s t

SameSpec-filled : (s t u : ExperimentSpec) → SameSpec s t → IsLateInitialized t u → SameSpec s u
SameSpec-filled s t u h filled =
    let same = SameAnswers-of filled in
    record {
      target = filled.target ∙ h.target;
      version_info = filled.version_info ∙ h.version_info;
      criteria = filled.criteria ∙ h.criteria;
      testing_pattern = filled.testing_pattern ∙ h.testing_pattern;
      actions = filled.actions ∙ h.actions;
      answers = record {
        max_candidate_weight = same.max_candidate_weight ∙ h.answers.max_candidate_weight;
        max_increment = same.max_increment ∙ h.answers.max_increment;
        deployment_pattern = same.deployment_pattern ∙ h.answers.deployment_pattern;
        interval_seconds = same.interval_seconds ∙ h.answers.interval_seconds;
        iterations_per_loop = same.iterations_per_loop ∙ h.answers.iterations_per_loop;
        max_loops = same.max_loops ∙ h.answers.max_loops;
      };
    }

SameSpec-refl : (s : ExperimentSpec) → SameSpec s s
SameSpec-refl s = record {
  target = refl;
  version_info = refl;
  criteria = refl;
  testing_pattern = refl;
  actions = refl;
  answers = record {
    max_candidate_weight = refl;
    max_increment = refl;
    deployment_pattern = refl;
    interval_seconds = refl;
    iterations_per_loop = refl;
    max_loops = refl;
  };
}

pub record SameIdentity (e f : Experiment) : Type 0 where
  pub name : f.name ≡ e.name
  pub namespace : f.namespace ≡ e.namespace
  pub spec : SameSpec e.spec f.spec

SameSpec-step :
    (a b c : ExperimentSpec) → SameSpec a b → (c ≡ b) ⊎ IsLateInitialized b c → SameSpec a c
SameSpec-step a b c h (inl e) = subst (λ x. SameSpec a x) (sym e) h
SameSpec-step a b c h (inr e) = SameSpec-filled a b c h e

SameIdentity-step :
    (e : Experiment) {s t : Env}
    → Step s t
    → SameIdentity e s.instance_
    → SameIdentity e t.instance_
SameIdentity-step e {s} {t} st h =
    let (name, namespace, spec) = Step-spec st in
    record {
      name = name ∙ h.name;
      namespace = namespace ∙ h.namespace;
      spec = SameSpec-step e.spec s.instance_.spec t.instance_.spec h.spec spec;
    }

module _ ⦃cl : Cluster⦄ (e : Experiment) (trace : List Call) where
  -- Whatever the cluster answers, and also where it panics, a request leaves the name, the
  -- namespace and the spec of the experiment, but for the defaults of late initialization, which
  -- change the answer of no getter.
  pub reconcile-SameIdentity : SameIdentity e (reconcile e trace).1.instance_
  reconcile-SameIdentity =
      Reach-induction (λ s. SameIdentity e s.instance_) (λ s t st. SameIdentity-step e st)
        (reconcile-Reach e trace)
        (record { name = refl; namespace = refl; spec = SameSpec-refl e.spec })
