-- ===== src/Controller/Metrics/Depth.antt =====
-- How deep ReadMetric recurses: controllers/metrics.go.
use etc.Prelude.{
  ℕ, zero, suc, ◌≤◌, ◌<◌, ◌≡◌, refl, sym, ap, ◌∙◌, Bool, true, false, Option, none, some, List, [],
  ◌∷◌, String, eq_iff, Any, arith, inl, inr, Bool-cases, lookup, insert, length, lookup-insert,
  if◌then◌else◌,
}
use etc.Api.Constants.Reason
use etc.Api.Types.{Criteria, Metric, Experiment}
use etc.Controller.Effects.{
  NamespacedName, Lookup, Call, Cluster, Env, M, ◌>>=◌, ◌>>◌, pure, deref, set_status,
}
use etc.Controller.Effects.RunsTo.{RunsTo, RunsTo-bind, RunsTo-pure, RunsTo-ask, RunsTo-gets}
use etc.Controller.Recorder.{record_experiment_failed}
use etc.Controller.Stages.Ends.{record_returns, RunsTo-set}
use etc.Controller.Metrics.{
  MetricMap, metric_ref, metric_key, is_present, unreadable, read_metric, read_names, read_metrics,
  infos, append_metrics, metric_names,
}

-- How many of the known keys are not in the map.
pub unread : List String → MetricMap → ℕ
unread [] metrics = 0
unread (key ∷ known) metrics =
    if is_present (lookup key metrics) then unread known metrics else suc (unread known metrics)

unread-insert :
    (known : List String) (key : String) (m : Metric) (metrics : MetricMap)
    → unread known (insert key m metrics) ≤ unread known metrics
unfolding unread
unread-insert [] key m metrics = omega arith
unread-insert (k ∷ known) key m metrics =
    ground (arith, lookup-insert key m metrics k, unread-insert known key m metrics)

unread_less :
    (known : List String) (key : String) (m : Metric) (metrics : MetricMap)
    → Any (λ k. k ≡ key) known
    → is_present (lookup key metrics) ≡ false
    → unread known (insert key m metrics) < unread known metrics
unfolding unread
unread_less [] key m metrics a h = absurd a
unread_less (k ∷ known) key m metrics (inl e) h =
    ground
      (arith, e, lookup-insert key m metrics k, eq_iff key k, unread-insert known key m metrics)
unread_less (k ∷ known) key m metrics (inr a) h =
    ground (arith, lookup-insert key m metrics k, unread_less known key m metrics a h)

shorter :
    (known : List String) (key : String) (m : Metric) (metrics : MetricMap) (depth : ℕ)
    → unread known (insert key m metrics) < unread known metrics
    → unread known metrics < suc depth
    → unread known (insert key m metrics) < depth
shorter known key m metrics depth h k = omega arith

-- The metrics that the cluster finds are among the known keys, at any time.
abbrev pub FindsOnly : Cluster → List String → Type 0
FindsOnly cl known =
    (t : List Call) (ref : NamespacedName) (m : Metric)
    → cl.metric t ref ≡ Lookup.found m
    → Any (λ k. k ≡ metric_key ref) known

unread-length : (known : List String) (metrics : MetricMap) → unread known metrics ≤ length known
unfolding unread
unread-length [] metrics = omega arith
unread-length (key ∷ known) metrics = ground (arith, unread-length known metrics)

deref_returns :
    {A : Type 0} (o : Option A) (a : A) (s : Env)
    → o ≡ some a
    → RunsTo (λ b i. Unit {0}) (deref o) s
unfolding deref
deref_returns none a s e = absurd (cc)
deref_returns (some b) a s e = record { returns = tt }

module _ ⦃cl : Cluster⦄ where
  abbrev Done : Bool × MetricMap → Experiment → Type 0
  Done r i = Unit {0}

  unreadable_returns :
      (ref : NamespacedName) (reason text : String) (metrics : MetricMap) (s : Env)
      → RunsTo Done (unreadable ref reason text >>= λ b. pure (b, metrics)) s
  unfolding unreadable record_experiment_failed
  unreadable_returns ref reason text metrics s =
      RunsTo-bind {Q = λ a i. Unit {0}} _ _ s
        (RunsTo-bind _ _ s (record_returns (λ x. Unit {0}) _ _ _ _ s tt)
          (λ a t h. RunsTo-pure false t tt))
        (λ b t h. RunsTo-pure _ t tt)

  sample_returns :
      (o : Option String) (next : String → M (Bool × MetricMap)) (metrics : MetricMap) (t : Env)
      → ((name : String) → RunsTo Done (next name) t)
      → RunsTo Done (elim o [ none ↦ pure (true, metrics) | some name ↦ next name ]) t
  sample_returns none next metrics t h = RunsTo-pure _ t tt
  sample_returns (some name) next metrics t h = h name

  -- The answer to the lookup of a metric, with the recursive call as `next`.
  answer_returns :
      (ref : NamespacedName) (next : Metric → String → M (Bool × MetricMap)) (metrics : MetricMap)
      (answer : Lookup Metric) (t : Env)
      → ((m : Metric) (name : String) → answer ≡ Lookup.found m → RunsTo Done (next m name) t)
      → RunsTo Done
          (elim answer [
            | Lookup.not_found ↦
                unreadable ref Reason.metric_unavailable "Unable to find metric " >>= λ b.
                pure (b, metrics)
            | Lookup.failed e ↦
                unreadable ref Reason.metrics_unreadable "Unable to load metric " >>= λ b.
                pure (b, metrics)
            | Lookup.found metric ↦ elim metric.spec.sample_size [
              | none ↦ pure (true, insert (metric_key ref) metric metrics)
              | some name' ↦ next metric name'
            ]
          ])
          t
  answer_returns ref next metrics Lookup.not_found t h = unreadable_returns ref _ _ metrics t
  answer_returns ref next metrics (Lookup.failed e) t h = unreadable_returns ref _ _ metrics t
  answer_returns ref next metrics (Lookup.found m) t h =
      sample_returns m.spec.sample_size (next m) _ t (λ name. h m name refl)

  -- Where the known metrics that are not in the map are fewer than the levels of recursion that are
  -- left, reading a metric returns; it does not exhaust the stack.
  pub read_metric-returns :
      (known : List String) (depth : ℕ) (namespace name : String) (metrics : MetricMap) (s : Env)
      → FindsOnly cl known
      → unread known metrics < depth
      → RunsTo (λ r i. Unit {0}) (read_metric depth namespace name metrics) s
  unfolding read_metric
  read_metric-returns known zero namespace name metrics s finds h = absurd (omega arith)
  read_metric-returns known (suc depth) namespace name metrics s finds h =
      let ref = metric_ref namespace name in
      let key = metric_key ref in
      elim (Bool-cases (is_present (lookup key metrics))) [
        | inl there ↦ rw (there, read_metric) (RunsTo-pure _ s tt)
        | inr new ↦
            rw (new, read_metric)
              (RunsTo-bind {Q = λ a i. a ≡ cl.metric s.trace ref} _ _ s (RunsTo-ask _ _ s refl)
                (λ answer t e.
                  answer_returns ref
                    (λ m name'. read_metric depth m.namespace name' (insert key m metrics)) metrics
                    answer t
                    (λ m name' f.
                      read_metric-returns known depth m.namespace name' (insert key m metrics) t
                        finds
                        (shorter known key m metrics depth
                          (unread_less known key m metrics (finds s.trace ref m (sym e ∙ f)) new)
                          h))))
      ]

  module _ (known : List String) (finds : FindsOnly cl known)
      (deep : length known < cl.stack_depth) where
    read_metric_returns :
        (namespace name : String) (metrics : MetricMap) (s : Env)
        → RunsTo Done (read_metric cl.stack_depth namespace name metrics) s
    read_metric_returns namespace name metrics s =
        read_metric-returns known cl.stack_depth namespace name metrics s finds
          (omega (arith, unread-length known metrics, deep))

    if_returns :
        (b : Bool) (m n : M (Bool × MetricMap)) (s : Env)
        → RunsTo Done m s
        → RunsTo Done n s
        → RunsTo Done (if b then m else n) s
    if_returns true m n s h k = h
    if_returns false m n s h k = k

    next_returns :
        (r : Bool × MetricMap) (next : M (Bool × MetricMap)) (s : Env)
        → RunsTo Done next s
        → RunsTo Done (elim (r.0) [ true ↦ next | false ↦ pure r ]) s
    next_returns (true, metrics) next s h = h
    next_returns (false, metrics) next s h = RunsTo-pure _ s tt

    read_names_returns :
        (namespace : String) (names : List String) (metrics : MetricMap) (s : Env)
        → RunsTo Done (read_names namespace names metrics) s
    unfolding read_names
    read_names_returns namespace [] metrics s = RunsTo-pure _ s tt
    read_names_returns namespace (name ∷ names) metrics s =
        RunsTo-bind {Q = Done} _ _ s
          (if_returns _ _ _ s (RunsTo-pure _ s tt) (read_metric_returns namespace name metrics s))
          (λ r t h.
            next_returns r (read_names namespace names r.1) t
              (read_names_returns namespace names r.1 t))

    stored_returns :
        (r : Bool × MetricMap) (s : Env)
        → RunsTo
            (λ b i. Unit {0})
            (if r.0 then set_status (append_metrics (infos r.1)) >> pure true else pure false)
            s
    stored_returns (true, metrics) s =
        RunsTo-bind {Q = λ a i. Unit {0}} _ _ s (RunsTo-set _ s tt) (λ a t h. RunsTo-pure true t tt)
    stored_returns (false, metrics) s = RunsTo-pure false s tt

-- Where the cluster finds no metrics but the known ones, at any time, and they are fewer than the
-- levels of recursion that the stack allows, reading the metrics of an experiment with criteria
-- returns, also where metrics refer to each other in a cycle.
pub read_metrics-returns :
    ⦃cl : Cluster⦄ (known : List String) (c : Criteria) (s : Env)
    → FindsOnly cl known
    → length known < cl.stack_depth
    → s.instance_.spec.criteria ≡ some c
    → RunsTo (λ b i. Unit {0}) read_metrics s
unfolding read_metrics
read_metrics-returns known c s finds deep e =
    RunsTo-bind {Q = λ i j. i ≡ s.instance_} _ _ s (RunsTo-gets _ s refl) (λ i t p.
      RunsTo-bind {Q = λ a j. Unit {0}} _ _ t
        (deref_returns i.spec.criteria c t (ap (λ j. j.spec.criteria) p ∙ e))
        (λ criteria u h.
          RunsTo-bind {Q = λ a j. Unit {0}} _ _ u
            (read_names_returns known finds deep i.namespace (metric_names criteria) [] u)
            (λ r v k. stored_returns known finds deep r v)))
