-- ===== src/Iter8ctl/Describe/Returns.antt =====
-- PrintAnalysis of iter8ctl/describe/describe.go: when it panics.
use etc.Prelude.{◌≡◌, sym, ◌↔◌, refl, Bool, true, false, none, some, List, String, if◌then◌else◌}
use mathlib.Core.Path.{subst}
use etc.Api.Types.{Experiment}
use etc.Controller.Effects.{Outcome, done, panic}
use etc.Iter8ctl.Effects.{◌>>=◌, Decimals, Returns, first-Returns}
use etc.Iter8ctl.Experiment.{started}
use etc.Iter8ctl.Describe.{
  Description, builder, with_experiment, write, written, print_progress, print_winner_assessment,
  print_reward_assessment, print_objective_assessment, version_assessment, print_version_assessment,
  print_metrics, print_assessments, print_analysis, analysis_printed, printed, assess,
}
use etc.Iter8ctl.Describe.Texts.{progress_text, winner_assessment_text}
use etc.Iter8ctl.Describe.Texts.Winner.{HasNamedWinner, winner_assessment_text-Returns}
use etc.Iter8ctl.Describe.Tables.{has_objectives}
use etc.Iter8ctl.Describe.Tables.Reads.{
  reward_text-Returns, metrics_text-Returns, objective_text-Returns,
}

-- A description of `e` without an error.
abbrev Reads : Experiment → Description → Type 0
Reads e d = (d.experiment ≡ some e) × (d.error ≡ none)

-- A step returns, and still describes `e`.
abbrev Writes : Experiment → Outcome Description → Type 0
Writes e (done d) = Reads e d
Writes e panic = ⊥

written-Writes :
    (e : Experiment) (d : Description) (m : Outcome String)
    → Reads e d
    → Returns m
    → Writes e (written d m)
written-Writes e d (done text) h r = h
written-Writes e d panic h r = r

Writes-Returns : (e : Experiment) (m : Outcome Description) → Writes e m → Returns m
Writes-Returns e (done d) h = tt
Writes-Returns e panic h = h

written-Returns : (d : Description) (m : Outcome String) → Returns (written d m) → Returns m
written-Returns d (done text) r = tt
written-Returns d panic r = r

write-described :
    (e : Experiment) (f : Experiment → Outcome String) (d : Description)
    → Reads e d
    → write f d ≡ written d (f e)
unfolding write
write-described e f d h = rw (h.1, h.0)

write-Writes :
    (e : Experiment) (f : Experiment → Outcome String) (d : Description)
    → Reads e d
    → Returns (f e)
    → Writes e (write f d)
write-Writes e f d h r =
    subst (Writes e) (sym (write-described e f d h)) (written-Writes e d (f e) h r)

bind-Writes :
    (e : Experiment) (m : Outcome Description) (f : Description → Outcome Description)
    → Writes e m
    → ((d : Description) → Reads e d → Writes e (f d))
    → Writes e (m >>= f)
unfolding ◌>>=◌
bind-Writes e (done d) f h k = k d h
bind-Writes e panic f h k = h

module _ ⦃ds : Decimals⦄ (render : List String → List (List String) → String) (e : Experiment) where
  assessed-Writes :
      (d : Description) (b : Bool)
      → Reads e d
      → has_objectives render e.spec.criteria ≡ b
      → Writes e (elim b [ false ↦ done d | true ↦ print_objective_assessment render d ])
  unfolding print_objective_assessment
  assessed-Writes d false h eq = h
  assessed-Writes d true h eq =
      write-Writes e _ d h (objective_text-Returns render e e.status.analysis eq)

  print_version_assessment-Writes :
      (d : Description) → Reads e d → Writes e (print_version_assessment render d)
  unfolding print_version_assessment
  print_version_assessment-Writes d h =
      let eq : print_version_assessment render d ≡ version_assessment render d (some e) =
        rw (h.1, h.0) in
      subst (Writes e) (sym eq) (assessed-Writes d (has_objectives render e.spec.criteria) h refl)

  print_reward_assessment-Writes :
      (d : Description) → Reads e d → Writes e (print_reward_assessment render d)
  unfolding print_reward_assessment
  print_reward_assessment-Writes d h =
      write-Writes e _ d h (reward_text-Returns render e e.status.analysis refl)

  print_metrics-Writes : (d : Description) → Reads e d → Writes e (print_metrics render d)
  unfolding print_metrics
  print_metrics-Writes d h =
      write-Writes e _ d h (metrics_text-Returns render e e.status.analysis refl)

  print_assessments-Writes :
      (d : Description)
      → Reads e d
      → HasNamedWinner e.status.analysis
      → Writes e (print_assessments render d)
  unfolding print_assessments print_winner_assessment
  print_assessments-Writes d h named =
      bind-Writes e (print_winner_assessment d) _
        (write-Writes e _ d h ((winner_assessment_text-Returns e e.status.analysis).1 named))
        (λ d₁ h₁.
          bind-Writes e (print_reward_assessment render d₁) _ (print_reward_assessment-Writes d₁ h₁)
            (λ d₂ h₂.
              bind-Writes e (print_version_assessment render d₂) _
                (print_version_assessment-Writes d₂ h₂) (print_metrics-Writes)))

  print_assessments-HasNamedWinner :
      (d : Description)
      → Reads e d
      → Returns (print_assessments render d)
      → HasNamedWinner e.status.analysis
  unfolding print_assessments print_winner_assessment
  print_assessments-HasNamedWinner d h r =
      let r₁ : Returns (print_winner_assessment d) =
        first-Returns (print_winner_assessment d) _ r in
      let r₂ : Returns (written d (winner_assessment_text e e.status.analysis)) =
        subst Returns (write-described e _ d h) r₁ in
      (winner_assessment_text-Returns e e.status.analysis).0
        (written-Returns d (winner_assessment_text e e.status.analysis) r₂)

  print_progress-Writes : (d : Description) → Reads e d → Writes e (print_progress d)
  unfolding print_progress
  print_progress-Writes d h = write-Writes e (λ x. done (progress_text x)) d h tt

  assess_test-Returns :
      (d : Description) (b : Bool)
      → Reads e d
      → Returns (if b then print_assessments render d else done d)
        ↔ (b ≡ true → HasNamedWinner e.status.analysis)
  assess_test-Returns d true h = (
    λ r started. print_assessments-HasNamedWinner d h r,
    λ named. Writes-Returns e _ (print_assessments-Writes d h (named refl)),
  )
  assess_test-Returns d false h = (λ r started. cc, λ named. tt)

  assess-Returns :
      (d : Description)
      → Reads e d
      → Returns (assess render d d.experiment)
        ↔ (started (some e) ≡ true → HasNamedWinner e.status.analysis)
  assess-Returns d h =
      subst
        (λ o.
          Returns (assess render d o)
          ↔ (started (some e) ≡ true → HasNamedWinner e.status.analysis))
        (sym h.0) (assess_test-Returns d (started (some e)) h)

  bind_done-Returns :
      {A B : Type 0} (m : Outcome A) (f : A → B) → Returns (m >>= (λ a. done (f a))) ↔ Returns m
  unfolding ◌>>=◌
  bind_done-Returns (done a) f = (λ r. r, λ r. r)
  bind_done-Returns panic f = (λ r. r, λ r. r)

  analysis_printed-Returns :
      (m : Outcome Description)
      → Writes e m
      → Returns (analysis_printed render m)
        ↔ (started (some e) ≡ true → HasNamedWinner e.status.analysis)
  unfolding ◌>>=◌
  analysis_printed-Returns (done d) h =
      let ends = bind_done-Returns (assess render d d.experiment) (printed render) in
      let named = assess-Returns d h in (λ r. named.0 (ends.0 r), λ k. ends.1 (named.1 k))
  analysis_printed-Returns panic h = elim h [ ]

  -- The description of an experiment returns, without a panic, exactly when the experiment has not
  -- started or each winner that its analysis says was found is named.
  pub print_analysis-Returns :
      Returns (print_analysis render (with_experiment (some e) builder))
      ↔ (started (some e) ≡ true → HasNamedWinner e.status.analysis)
  unfolding print_analysis with_experiment
  print_analysis-Returns =
      analysis_printed-Returns (print_progress (with_experiment (some e) builder))
        (print_progress-Writes (with_experiment (some e) builder) (refl, refl))
