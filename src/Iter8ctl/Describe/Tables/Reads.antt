-- ===== src/Iter8ctl/Describe/Tables/Reads.antt =====
-- iter8ctl/describe/describe.go: when the tables can be read.
use etc.Prelude.{◌≡◌, true, Option, none, some, List, [], ◌∷◌, String}
use etc.Api.Types.{MetricInfo, Reward, Criteria, Analysis, Experiment}
use etc.Controller.Effects.{done}
use etc.Iter8ctl.Effects.{traverse, Decimals, Returns, bind-Returns, traverse-Returns}
use etc.Iter8ctl.Experiment.{get_versions, get_metric_strs, get_metric_str, get_metric_dec}
use etc.Iter8ctl.Experiment.Rewards.{get_annotated_metric_strs}
use etc.Iter8ctl.Describe.Tables.{
  reward_row, reward_table, criteria_text, reward_text, has_objectives, objective_table,
  objective_text, metric_row, metrics_table, metrics_text,
}

module _ ⦃ds : Decimals⦄ (render : List String → List (List String) → String) (e : Experiment) where
  module _ (a : Analysis) (h : e.status.analysis ≡ some a) where
    get_metric_dec-Returns : (metric version : String) → Returns (get_metric_dec e metric version)
    unfolding get_metric_dec
    get_metric_dec-Returns metric version = rw h tt

    get_metric_str-Returns : (metric version : String) → Returns (get_metric_str e metric version)
    unfolding get_metric_str
    get_metric_str-Returns metric version = rw h tt

    reward_row-Returns : (r : Reward) → Returns (reward_row render e r)
    unfolding reward_row get_annotated_metric_strs
    reward_row-Returns r =
        bind-Returns (get_annotated_metric_strs e r) _
          (bind-Returns (traverse (get_metric_dec e r.metric) (get_versions e)) _
            (traverse-Returns _ (get_versions e) (get_metric_dec-Returns r.metric)) (λ vals. tt))
          (λ vals. tt)

    metric_row-Returns : (info : MetricInfo) → Returns (metric_row render e info)
    unfolding metric_row get_metric_strs
    metric_row-Returns info =
        bind-Returns (get_metric_strs e info.name) _
          (traverse-Returns _ (get_versions e) (get_metric_str-Returns info.name)) (λ vals. tt)

  reward_table-Returns :
      (a : Analysis) (h : e.status.analysis ≡ some a) (rewards : List Reward)
      → Returns (reward_table render e rewards)
  reward_table-Returns a h [] = tt
  reward_table-Returns a h (r ∷ rs) =
      bind-Returns (traverse (reward_row render e) (r ∷ rs)) _
        (traverse-Returns _ (r ∷ rs) (reward_row-Returns a h)) (λ rows. tt)

  criteria_text-Returns :
      (a : Analysis) (h : e.status.analysis ≡ some a) (o : Option Criteria)
      → Returns (criteria_text render e o)
  criteria_text-Returns a h none = tt
  criteria_text-Returns a h (some c) = reward_table-Returns a h c.rewards

  pub reward_text-Returns :
      (o : Option Analysis) → e.status.analysis ≡ o → Returns (reward_text render e o)
  reward_text-Returns none h = tt
  reward_text-Returns (some a) h =
      elim a.version_assessments
        as (λ o.
          Returns {A = String}
            (elim o [ none ↦ done "" | some va ↦ criteria_text render e e.spec.criteria ])) [
              | none ↦ tt
              | some va ↦ criteria_text-Returns a h e.spec.criteria
            ]

  pub metrics_text-Returns :
      (o : Option Analysis) → e.status.analysis ≡ o → Returns (metrics_text render e o)
  metrics_text-Returns none h = tt
  metrics_text-Returns (some a) h =
      elim a.aggregated_metrics
        as (λ o.
          Returns {A = String} (elim o [ none ↦ done "" | some am ↦ metrics_table render e ])) [
            | none ↦ tt
            | some am ↦
                bind-Returns (traverse (metric_row render e) e.status.metrics) _
                  (traverse-Returns _ e.status.metrics (metric_row-Returns a h)) (λ rows. tt)
          ]

  objective_table-Returns :
      (o : Option Criteria) → has_objectives render o ≡ true → Returns (objective_table render e o)
  unfolding has_objectives
  objective_table-Returns none h = cc
  objective_table-Returns (some c) h = tt

  pub objective_text-Returns :
      (o : Option Analysis)
      → has_objectives render e.spec.criteria ≡ true
      → Returns (objective_text render e o)
  objective_text-Returns none h = tt
  objective_text-Returns (some a) h =
      elim a.version_assessments
        as (λ o.
          Returns {A = String}
            (elim o [ none ↦ done "" | some va ↦ objective_table render e e.spec.criteria ])) [
              | none ↦ tt
              | some va ↦ objective_table-Returns e.spec.criteria h
            ]
