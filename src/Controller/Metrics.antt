-- ===== src/Controller/Metrics.antt =====
-- controllers/metrics.go: the metrics of an experiment are read once and kept in its status.
pub mod Depth
use etc.Prelude.{
  ℕ, zero, suc, ◌==◌, ltb, Bool, true, false, ◌&&◌, not, Option, none, some, List, [], ◌∷◌, ◌++◌,
  String, length, lookup, insert, if◌then◌else◌,
}
use etc.Prelude.Text.{◌+++◌, split}
use etc.Api.Constants.Reason
use etc.Api.Types.{Metric, MetricInfo, Reward, Objective, Criteria, Experiment, ExperimentStatus}
use etc.Controller.Effects.{
  NamespacedName, Lookup, get_metric, Cluster, M, ◌>>=◌, ◌>>◌, pure, panics, deref, ask, set_status,
  get_instance,
}
use etc.Controller.Recorder.{record_experiment_failed}

-- map[string]*v2alpha2.Metric
abbrev pub MetricMap : Type 0
MetricMap = List (String × Metric)

abbrev qualified : NamespacedName → List String → NamespacedName
qualified ref (namespace ∷ (name ∷ [])) = record { namespace = namespace; name = name }
qualified ref _ = ref

-- A name "namespace/name" stands for itself; any other is looked for in `namespace`.
unfoldable pub metric_ref : String → String → NamespacedName
metric_ref namespace name =
    qualified (record { namespace = namespace; name = name }) (split b'/' name)

abbrev pub metric_key : NamespacedName → String
metric_key ref = ref.namespace +++ ("/" +++ ref.name)

abbrev pub is_present {ℓ} : {A : Type ℓ} → Option A → Bool
is_present none = false
is_present (some a) = true

abbrev pub append_metrics : List MetricInfo → ExperimentStatus → ExperimentStatus
append_metrics ms s = record s { metrics = s.metrics ++ ms }

module _ ⦃cl : Cluster⦄ where
  unfoldable pub unreadable : NamespacedName → String → String → M Bool
  unreadable ref reason text =
      record_experiment_failed reason (text +++ metric_key ref) >> pure false

  -- Whether the metric and those that it refers to are read, and the map with them. The recursion
  -- is as deep as the first argument allows.
  unfoldable pub read_metric : ℕ → String → String → MetricMap → M (Bool × MetricMap)
  read_metric zero namespace name metrics = panics
  read_metric (suc depth) namespace name metrics =
      let ref = metric_ref namespace name in
      let key = metric_key ref in
      elim (is_present (lookup key metrics)) [
        | true ↦ pure (true, metrics)
        | false ↦ ask (get_metric ref) (λ t. cl.metric t ref) >>= λ answer. elim answer [
          | Lookup.not_found ↦
              unreadable ref Reason.metric_unavailable "Unable to find metric " >>= λ b.
              pure (b, metrics)
          | Lookup.failed e ↦
              unreadable ref Reason.metrics_unreadable "Unable to load metric " >>= λ b.
              pure (b, metrics)
          | Lookup.found metric ↦
              let metrics' = insert key metric metrics in
              elim metric.spec.sample_size [
                | none ↦ pure (true, metrics')
                | some name' ↦ read_metric depth metric.namespace name' metrics'
              ]
        ]
      ]

  -- The loops of `ReadMetrics` over the names of a part of the criteria; a name that is a key of
  -- the map is not read again.
  unfoldable pub read_names : String → List String → MetricMap → M (Bool × MetricMap)
  read_names namespace [] metrics = pure (true, metrics)
  read_names namespace (name ∷ names) metrics =
      let first : M (Bool × MetricMap) =
        if is_present (lookup name metrics)
        then pure (true, metrics)
        else read_metric cl.stack_depth namespace name metrics in
      first >>= λ r. elim (r.0) [ true ↦ read_names namespace names r.1 | false ↦ pure r ]

  abbrev pub infos : MetricMap → List MetricInfo
  infos [] = []
  infos ((name, m) ∷ metrics) = record { name = name; metric_obj = m } ∷ infos metrics

  abbrev pub request_names : Option String → List String
  request_names none = []
  request_names (some r) = r ∷ []

  abbrev reward_names : List Reward → List String
  reward_names [] = []
  reward_names (r ∷ rs) = r.metric ∷ reward_names rs

  abbrev objective_names : List Objective → List String
  objective_names [] = []
  objective_names (o ∷ os) = o.metric ∷ objective_names os

  -- The names in the order in which `ReadMetrics` reads them.
  abbrev pub metric_names : Criteria → List String
  metric_names c =
      request_names c.request_count
      ++ (reward_names c.rewards ++ (c.indicators ++ objective_names c.objectives))

  unfoldable pub read_metrics : M Bool
  read_metrics = do
    i ← get_instance
    criteria ← deref i.spec.criteria
    r ← read_names i.namespace (metric_names criteria) []
    if r.0 then set_status (append_metrics (infos r.1)) >> pure true else pure false

unfoldable pub should_read_metrics : Experiment → Bool
should_read_metrics i = if ltb 0 (length i.status.metrics) then false else elim i.spec.criteria [
  | none ↦ false
  | some c ↦ not (
      not (is_present c.request_count)
      && length c.indicators == 0
      && length c.objectives == 0
      && length c.rewards == 0)
]
