-- ===== src/TaskRunner/Collect.antt =====
-- taskrunner/tasks/collect/collect.go: the task that sends requests with Fortio and keeps what it
-- measured. Fortio, its output file, JSON, the formats %f and %q, and float64 are parameters.
pub mod Aggregate
pub mod Arguments
pub mod Merged
pub mod Stored
pub mod Runs
use etc.Prelude.{
  ℕ, zero, suc, Bool, true, false, not, Option, none, some, List, [], ◌∷◌, ◌++◌, String, str_eq,
  if◌then◌else◌, lookup, insert,
}
use etc.Prelude.Int.{ℤ, pos, ◌+ℤ◌, wrap64}
use etc.Prelude.Text.{◌+++◌, print_int}
use etc.Api.Types.{Time, Json, AggregatedBuiltinHists, Analysis, Experiment}
use etc.Controller.Effects.{Result, ok, err, Outcome, done, panic}
use etc.TaskRunner.Effects.{
  Iter8Log, Call, fortio, download, update_status, print_log, Context, T, World, ◌>>=◌, ◌>>◌, pure,
  panics, call, get_experiment, set_experiment, deref,
}
use etc.TaskRunner.Collect.Aggregate.{RunResult, Results, Fortio, aggregate}
use etc.TaskRunner.Collect.Arguments.{Version, CollectInputs, get_fortio_args}
use etc.TaskRunner.Core.{
  get_experiment_from_context, get_action_string_from_context, set_aggregated_builtin_hists,
  update_in_cluster_experiment_status, get_iter8_log_precedence,
}

abbrev pub task_name : String
task_name = "metrics/collect"

abbrev pub default_to : {A : Type 0} → A → Option A → Option A
default_to a none = some a
default_to a (some b) = some b

abbrev pub versions_or_empty : Option (List Version) → List Version
versions_or_empty none = []
versions_or_empty (some vs) = vs

module _ ⦃fo : Fortio⦄ where
  -- `decoded` is the JSON of the spec, read as inputs. The error of reading it is returned with the
  -- task, unless the versions are missing.
  abbrev made :
      Option String × CollectInputs fo.Float → Option (CollectInputs fo.Float) × Option String
  made (e, inputs) = elim inputs.versions [
    | none ↦ (none, some "collect task with nil versions")
    | some vs ↦ (some inputs, e)
  ]

  unfoldable pub make :
      String
      → Option String × CollectInputs fo.Float
      → Option (CollectInputs fo.Float) × Option String
  make task decoded =
      if str_eq task task_name then made decoded else (none, some "task need to be metrics/collect")

  abbrev defaulted_queries : Option String → Option ℤ → Option ℤ
  defaulted_queries time (some n) = some n
  defaulted_queries none none = some (pos 100)
  defaulted_queries (some t) none = none

  unfoldable pub initialize_defaults : CollectInputs fo.Float → CollectInputs fo.Float
  initialize_defaults inputs = record inputs {
    num_queries = defaulted_queries inputs.time inputs.num_queries;
    load_only = default_to false inputs.load_only;
    qps = default_to fo.default_qps inputs.qps;
    connections = default_to (pos 4) inputs.connections;
  }

  module _ ⦃w : World⦄ where
    abbrev pub read_output : Option String → T (Result (RunResult fo.Float))
    read_output none = λ s. (done (fo.output s.trace), s)
    read_output (some text) = pure (err text)

    abbrev pub run_fortio : Result (List String) → T (Result (RunResult fo.Float))
    run_fortio (err text) = pure (err text)
    run_fortio (ok args) = call (fortio args) (λ t. w.fortio_error t args) >>= read_output

    unfoldable pub result_for_version :
        CollectInputs fo.Float → Version → T (Result (RunResult fo.Float))
    unfolding ◌>>=◌ pure call get_fortio_args
    result_for_version inputs v = get_fortio_args inputs v >>= run_fortio

    -- The results of all versions, on top of those that were there; the first error ends the loop.
    abbrev pub aggregate_if :
        Bool → Option (Results fo.Float) → String → RunResult fo.Float → Option (Results fo.Float)
    aggregate_if load_only results version new =
        if load_only then results else some (aggregate results version new)

    abbrev pub keep :
        (Option (Results fo.Float) → T (Result (Option (Results fo.Float))))
        → Bool
        → Option (Results fo.Float)
        → String
        → Result (RunResult fo.Float)
        → T (Result (Option (Results fo.Float)))
    keep rest load_only results version (err text) = pure (err text)
    keep rest load_only results version (ok new) = rest (aggregate_if load_only results version new)

    unfoldable pub collect_versions :
        CollectInputs fo.Float
        → Bool
        → List Version
        → Option (Results fo.Float)
        → T (Result (Option (Results fo.Float)))
    unfolding ◌>>=◌ pure result_for_version aggregate
    collect_versions inputs load_only [] results = pure (ok results)
    collect_versions inputs load_only (v ∷ vs) results =
        result_for_version inputs v
        >>= keep (collect_versions inputs load_only vs) load_only results v.name

    -- The results that the experiment's status has, for a task that keeps them.
    abbrev hists_of : Option Analysis → Option AggregatedBuiltinHists
    hists_of none = none
    hists_of (some a) = a.aggregated_builtin_hists

    unfoldable pub earlier_results : Bool → Experiment → Option (Results fo.Float)
    earlier_results true e = some []
    earlier_results false e = elim (hists_of e.status.analysis) [
      | none ↦ some []
      | some h ↦ fo.decode_results h.content
    ]

    -- The error of the update is dropped.
    unfoldable pub store_results : Bool → Option (Results fo.Float) → T Unit
    unfolding ◌>>=◌ pure get_experiment set_experiment set_aggregated_builtin_hists
        update_in_cluster_experiment_status
    store_results true results = pure tt
    store_results false results = do
      e ← get_experiment
      now ← (λ s. (done (w.now s.trace), s))
      let e₁ = set_aggregated_builtin_hists now (fo.encode_results results) e
      set_experiment e₁
      failed ← update_in_cluster_experiment_status e₁
      pure tt

    abbrev precedence : Experiment → String → T ℤ
    precedence e action s = (get_iter8_log_precedence e action, s)

    abbrev pub completed_log : Experiment → ℤ → Iter8Log
    completed_log e n = record {
      is_iter8_log = true;
      experiment_name = e.name;
      experiment_namespace = e.namespace;
      source = "task-runner";
      priority = 3;
      message = "metrics collection completed for all versions";
      precedence = n;
    }

    abbrev pub log_for : Result String → T (Option String)
    log_for (err text) = pure (some text)
    log_for (ok action) = do
      e ← get_experiment
      n ← precedence e action
      call (print_log (completed_log e n)) (λ t. tt)
      pure none

    abbrev pub finish : Context → Bool → Result (Option (Results fo.Float)) → T (Option String)
    finish ctx load_only (err text) = pure (some text)
    finish ctx load_only (ok results) = do
      store_results load_only results
      log_for (get_action_string_from_context ctx)

    abbrev pub collect_for :
        CollectInputs fo.Float → Context → Bool → Result Experiment → T (Option String)
    collect_for inputs ctx load_only (err text) = pure (some text)
    collect_for inputs ctx load_only (ok e) =
        collect_versions inputs load_only (versions_or_empty inputs.versions)
          (earlier_results load_only e)
        >>= finish ctx load_only

    unfoldable pub run : CollectInputs fo.Float → Context → T (Option String)
    unfolding ◌>>=◌ pure call get_experiment deref get_experiment_from_context initialize_defaults
        collect_versions earlier_results store_results get_action_string_from_context
        get_iter8_log_precedence
    run inputs₀ ctx = do
      let inputs = initialize_defaults inputs₀
      answer ← get_experiment_from_context ctx
      load_only ← deref inputs.load_only
      collect_for inputs ctx load_only answer
