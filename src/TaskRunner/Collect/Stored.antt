-- ===== src/TaskRunner/Collect/Stored.antt =====
-- What the collect task starts from, and what it leaves: taskrunner/tasks/collect/collect.go, Run.
use etc.Prelude.{
  Option-cases, inl, inr, ◌≡◌, refl, ap, ◌∙◌, Bool, true, false, Option, none, some, List, [], ◌∷◌,
  String,
}
use etc.Prelude.Int.{ℤ}
use etc.Api.Types.{AggregatedBuiltinHists, Analysis, Time, Json, Experiment}
use etc.Controller.Effects.{ok, done}
use etc.TaskRunner.Effects.{
  Iter8Log, Call, update_status, print_log, Context, Env, World, ◌>>=◌, pure, continue, call,
  get_experiment, set_experiment,
}
use etc.TaskRunner.Core.{
  get_action_string_from_context, set_aggregated_builtin_hists, update_in_cluster_experiment_status,
  update_unless, get_iter8_log_precedence,
}
use etc.TaskRunner.Collect.Aggregate.{Results, Fortio}
use etc.TaskRunner.Collect.{earlier_results, store_results, finish, log_for}

abbrev pub Kept : ⦃fo : Fortio⦄ → Type 0
Kept ⦃fo⦄ = Option (Results fo.Float)

-- The histograms of the collect task, as they stand in an analysis.
abbrev hists_at : Time → Json → AggregatedBuiltinHists
hists_at now j = record {
  meta = record { provenance = "Builtin metrics collector"; timestamp = now; message = none };
  content = j;
}

-- An analysis with these histograms, and all else as it was.
abbrev pub with_hists : AggregatedBuiltinHists → Option Analysis → Analysis
with_hists h none = record {
  aggregated_builtin_hists = some h;
  aggregated_metrics = none;
  winner_assessment = none;
  version_assessments = none;
  weights = none;
}
with_hists h (some a) = record a { aggregated_builtin_hists = some h }

-- An experiment with these results, and all else as it was.
abbrev pub with_results : Time → Json → Experiment → Experiment
with_results now j e = record e {
  status = record e.status { analysis = some (with_hists (hists_at now j) e.status.analysis) };
}

with_results_lem :
    (now : Time) (j : Json) (e : Experiment)
    → set_aggregated_builtin_hists now j e ≡ with_results now j e
unfolding set_aggregated_builtin_hists
with_results_lem now j e = elim (Option-cases e.status.analysis) [
  | inl h ↦ rw h refl
  | inr (a, h) ↦ rw h refl
]

precedence_same :
    (now : Time) (j : Json) (e : Experiment) (action : String)
    → get_iter8_log_precedence (with_results now j e) action ≡ get_iter8_log_precedence e action
unfolding get_iter8_log_precedence
precedence_same now j e action = refl

module _ ⦃fo : Fortio⦄ where
  -- The results that an analysis has, if they count; none are decoded from text that cannot be read.
  abbrev pub results_before : Bool → Option Analysis → Kept
  results_before true a = some []
  results_before false none = some []
  results_before false (some a) = elim a.aggregated_builtin_hists [
    | none ↦ some []
    | some h ↦ fo.decode_results h.content
  ]

module _ ⦃fo : Fortio⦄ ⦃w : World⦄ where
  pub results_before_lem :
      (load_only : Bool) (e : Experiment)
      → earlier_results load_only e ≡ results_before load_only e.status.analysis
  unfolding earlier_results
  results_before_lem true e = refl
  results_before_lem false e = elim (Option-cases e.status.analysis) [
    | inl h ↦ rw h refl
    | inr (a, h) ↦ rw h refl
  ]

module _ ⦃fo : Fortio⦄ ⦃w : World⦄ (action : String) (n : ℤ) where
  abbrev log_of : Experiment → Iter8Log
  log_of e = record {
    is_iter8_log = true;
    experiment_name = e.name;
    experiment_namespace = e.namespace;
    source = "task-runner";
    priority = 3;
    message = "metrics collection completed for all versions";
    precedence = n;
  }

  -- The calls after the status was sent, if there is a client.
  abbrev sent : Option String → Experiment → List Call → List Call
  sent none e trace = update_status e ∷ trace
  sent (some text) e trace = trace

  -- The state that a run leaves: the results in the experiment, and the status sent if there is a
  -- client for the API server, unless the task is for load only; and a log with precedence `n`.
  unfoldable pub stored : Bool → Kept → Experiment → List Call → Env
  stored true r e trace = record { experiment = e; trace = print_log (log_of e) ∷ trace }
  stored false r e trace =
      let e₁ = with_results (w.now trace) (fo.encode_results r) e in
      record {
        experiment = e₁;
        trace = print_log (log_of e₁) ∷ sent (w.client_error trace) e₁ trace;
      }

  sent_lem :
      (o : Option String) (e : Experiment) (s : Env)
      → continue (update_unless o e s).0 (λ failed. pure (tt {0})) (update_unless o e s).1
        ≡ (done tt, record s { trace = sent o e s.trace })
  unfolding pure call
  sent_lem none e s = refl
  sent_lem (some text) e s = refl

  store_lem :
      (r : Kept) (u : Env)
      → let e = with_results (w.now u.trace) (fo.encode_results r) u.experiment in
        store_results false r u
        ≡ (done tt, record { experiment = e; trace = sent (w.client_error u.trace) e u.trace })
  unfolding ◌>>=◌ pure get_experiment set_experiment store_results
      update_in_cluster_experiment_status
  store_lem r u =
      let now = w.now u.trace in
      let j = fo.encode_results r in
      sent_lem (w.client_error u.trace) (set_aggregated_builtin_hists now j u.experiment)
        (record u { experiment = set_aggregated_builtin_hists now j u.experiment })
      ∙ ap
          (λ e.
            (done tt, record { experiment = e; trace = sent (w.client_error u.trace) e u.trace }))
          (with_results_lem now j u.experiment)

  log_lem :
      (ctx : Context) (s : Env)
      → get_action_string_from_context ctx ≡ ok action
      → get_iter8_log_precedence s.experiment action ≡ done n
      → log_for (get_action_string_from_context ctx) s
        ≡ (done none, record s { trace = print_log (log_of s.experiment) ∷ s.trace })
  unfolding ◌>>=◌ pure call get_experiment
  log_lem ctx s h p = rw h (rw p refl)

  pub finish_lem :
      (ctx : Context) (load_only : Bool) (r : Kept) (u : Env)
      → get_action_string_from_context ctx ≡ ok action
      → get_iter8_log_precedence u.experiment action ≡ done n
      → finish ctx load_only (ok r) u ≡ (done none, stored load_only r u.experiment u.trace)
  unfolding ◌>>=◌ pure store_results stored
  finish_lem ctx true r u h p = log_lem ctx u h p
  finish_lem ctx false r u h p =
      let e = with_results (w.now u.trace) (fo.encode_results r) u.experiment in
      ap (λ x. continue x.0 (λ y. log_for (get_action_string_from_context ctx)) x.1) (store_lem r u)
      ∙ log_lem ctx (record { experiment = e; trace = sent (w.client_error u.trace) e u.trace }) h
          (precedence_same (w.now u.trace) (fo.encode_results r) u.experiment action ∙ p)
