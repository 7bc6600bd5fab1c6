-- ===== src/TaskRunner/Collect/Runs.antt =====
-- CollectTask.Run of taskrunner/tasks/collect/collect.go: what a run without an error did.
use etc.Prelude.{
  if◌then◌else◌, ◌≡◌, ◌↔◌, refl, sym, ap, ◌∙◌, Bool, false, Option, none, some, List, [], ◌∷◌,
  String,
}
use mathlib.Core.Path.{subst}
use etc.Prelude.Int.{ℤ}
use etc.Controller.Effects.{Result, ok, err, Outcome, done, panic}
use etc.TaskRunner.Effects.{Context, Env, T, World, ◌>>=◌, pure, continue, deref}
use etc.TaskRunner.Effects.Leaves.{
  Leaves, Leaves-bind, Leaves-none, Leaves-some, Leaves-pure, Leaves-call, Leaves-deref,
}
use etc.TaskRunner.Core.{
  HasExperiment, get_experiment_from_context_lem, get_action_string_from_context,
  get_iter8_log_precedence,
}
use etc.TaskRunner.Collect.Aggregate.{RunResult, Fortio, aggregate}
use etc.TaskRunner.Collect.Arguments.{
  Version, CollectInputs, query_args, payload_args, get_fortio_args,
}
use etc.TaskRunner.Collect.Stored.{Kept, results_before, results_before_lem, stored, finish_lem}
use etc.TaskRunner.Collect.{
  read_output, run_fortio, default_to, versions_or_empty, initialize_defaults, result_for_version,
  aggregate_if, keep, collect_versions, earlier_results, finish, run,
}

module _ ⦃fo : Fortio⦄ ⦃w : World⦄ (inputs : CollectInputs fo.Float) (load_only : Bool) where
  -- Each version is measured, in order, and its result is aggregated with those before, unless the
  -- task is for load only.
  pub data Collects : List Version → Kept → Env → Kept → Env → Type 0 where
    nothing : {r : Kept} {s : Env} → Collects [] r s r s
    measured :
        {v : Version} {vs : List Version} {r r' : Kept} {new : RunResult fo.Float} {s t u : Env}
        → result_for_version inputs v s ≡ (done (ok new), t)
        → Collects vs (if load_only then r else some (aggregate r v.name new)) t r' u
        → Collects (v ∷ vs) r s r' u

  abbrev Loop : List Version → Kept → T (Result Kept)
  Loop = collect_versions inputs load_only

  Collects-loop :
      {vs : List Version} {r r' : Kept} {s u : Env}
      → Collects vs r s r' u
      → Loop vs r s ≡ (done (ok r'), u)
  unfolding collect_versions ◌>>=◌ pure
  Collects-loop nothing = refl
  Collects-loop (measured {v} {vs} {r} m rest) =
      ap (λ x. continue x.0 (keep (Loop vs) load_only r v.name) x.1) m ∙ Collects-loop rest

  module _ (v : Version) (vs : List Version) (r r' : Kept) (s u : Env)
      (ih : (new : RunResult fo.Float) (t : Env)
        → Loop vs (aggregate_if load_only r v.name new) t ≡ (done (ok r'), u)
        → Collects vs (aggregate_if load_only r v.name new) t r' u) where
    kept-Collects :
        (x : Outcome (Result (RunResult fo.Float)) × Env)
        → result_for_version inputs v s ≡ x
        → continue x.0 (keep (Loop vs) load_only r v.name) x.1 ≡ (done (ok r'), u)
        → Collects (v ∷ vs) r s r' u
    unfolding pure
    kept-Collects (done (ok new), t) m e = measured m (ih new t e)
    kept-Collects (done (err text), t) m e = cc
    kept-Collects (panic, t) m e = cc

  loop-Collects :
      (vs : List Version) (r r' : Kept) (s u : Env)
      → Loop vs r s ≡ (done (ok r'), u)
      → Collects vs r s r' u
  unfolding collect_versions ◌>>=◌ pure
  loop-Collects [] r r' s u e =
      let same : r ≡ r' = cc in
      let stays : s ≡ u = cc in
      subst (λ x. Collects [] r s x u) same (subst (Collects [] r s r) stays nothing)
  loop-Collects (v ∷ vs) r r' s u e =
      kept-Collects v vs r r' s u (λ new t. loop-Collects vs _ r' t u)
        (result_for_version inputs v s) refl e

abbrev pub load_only_of : Option Bool → Bool
load_only_of none = false
load_only_of (some b) = b

deref_default :
    (o : Option Bool) (s : Env) → deref (default_to false o) s ≡ (done (load_only_of o), s)
unfolding deref pure
deref_default none s = refl
deref_default (some b) s = refl

module _ ⦃fo : Fortio⦄ ⦃w : World⦄ (inputs : CollectInputs fo.Float) where
  Leaves-queries : Leaves (query_args inputs)
  Leaves-queries =
      Leaves-some inputs.num_queries
        (Leaves-bind _ _ (Leaves-deref inputs.time) (λ t. Leaves-pure _)) (λ n. Leaves-pure _)

  Leaves-payload : Leaves (payload_args inputs)
  Leaves-payload =
      Leaves-none inputs.payload_url (Leaves-pure _)
        (λ url. Leaves-bind _ _ (Leaves-call _ _) (λ a. Leaves-pure _))

  Leaves-args : (v : Version) → Leaves (get_fortio_args inputs v)
  unfolding get_fortio_args
  Leaves-args v = search (Leaves-bind, Leaves-deref, Leaves-pure, Leaves-queries, Leaves-payload)

  Leaves-output : (o : Option String) → Leaves (read_output o)
  Leaves-output none = record { at = λ s. refl }
  Leaves-output (some text) = Leaves-pure _

  Leaves-fortio : (r : Result (List String)) → Leaves (run_fortio r)
  Leaves-fortio (err text) = Leaves-pure _
  Leaves-fortio (ok args) = Leaves-bind _ _ (Leaves-call _ _) Leaves-output

  Leaves-version : (v : Version) → Leaves (result_for_version inputs v)
  unfolding result_for_version
  Leaves-version v = Leaves-bind _ _ (Leaves-args v) Leaves-fortio

  Collects-leaves :
      {load_only : Bool} {vs : List Version} {r r' : Kept} {s u : Env}
      → Collects inputs load_only vs r s r' u
      → u.experiment ≡ s.experiment
  Collects-leaves nothing = refl
  Collects-leaves (measured {v = v} {s = s} m rest) =
      Collects-leaves rest ∙ sym (ap (λ x. x.1.experiment) m) ∙ (Leaves-version v).at s

module _ ⦃fo : Fortio⦄ ⦃w : World⦄ (inputs₀ : CollectInputs fo.Float) (ctx : Context)
    (s t : Env) where
  -- The collect task with its defaults measured each version in order, and left what it stored.
  abbrev pub HasCollected : String → ℤ → Type 0
  HasCollected action n =
      (r : Kept) × (u : Env) × Collects (initialize_defaults inputs₀)
        (load_only_of inputs₀.load_only) (versions_or_empty inputs₀.versions)
        (results_before (load_only_of inputs₀.load_only) s.experiment.status.analysis) s r u
      × (t ≡ stored action n (load_only_of inputs₀.load_only) r s.experiment u.trace)

  module _ (action : String) (n : ℤ) (has : HasExperiment ctx)
      (acts : get_action_string_from_context ctx ≡ ok action)
      (counts : get_iter8_log_precedence s.experiment action ≡ done n) where
    abbrev rest : Result Kept → T (Option String)
    rest = finish ctx (load_only_of inputs₀.load_only)

    abbrev loop : Outcome (Result Kept) × Env
    loop =
        collect_versions (initialize_defaults inputs₀) (load_only_of inputs₀.load_only)
          (versions_or_empty inputs₀.versions)
          (earlier_results (load_only_of inputs₀.load_only) s.experiment) s

    run-loop : run inputs₀ ctx s ≡ continue loop.0 rest loop.1
    unfolding run initialize_defaults ◌>>=◌
    run-loop =
        rw (get_experiment_from_context_lem ctx s has) (rw (deref_default inputs₀.load_only s) refl)

    finished :
        (r : Kept) (u : Env)
        → u.experiment ≡ s.experiment
        → rest (ok r) u
          ≡ (done none, stored action n (load_only_of inputs₀.load_only) r s.experiment u.trace)
    finished r u e =
        finish_lem action n ctx (load_only_of inputs₀.load_only) r u acts
          (ap (λ x. get_iter8_log_precedence x action) e ∙ counts)
        ∙ ap (λ x. (done none, stored action n (load_only_of inputs₀.load_only) r x u.trace)) e

    abbrev From : Kept → Kept → Env → Type 0
    From b r u =
        Collects (initialize_defaults inputs₀) (load_only_of inputs₀.load_only)
          (versions_or_empty inputs₀.versions) b s r u

    from_before :
        (r : Kept) (u : Env)
        → From (results_before (load_only_of inputs₀.load_only) s.experiment.status.analysis) r u
        → From (earlier_results (load_only_of inputs₀.load_only) s.experiment) r u
    from_before r u = subst (λ b. From b r u) (sym (results_before_lem _ s.experiment))

    before :
        (r : Kept) (u : Env)
        → From (earlier_results (load_only_of inputs₀.load_only) s.experiment) r u
        → From (results_before (load_only_of inputs₀.load_only) s.experiment.status.analysis) r u
    before r u = subst (λ b. From b r u) (results_before_lem _ s.experiment)

    HasCollected-run : HasCollected action n → run inputs₀ ctx s ≡ (done none, t)
    HasCollected-run (r, u, c, e) =
        run-loop
        ∙ ap (λ x. continue x.0 rest x.1) (Collects-loop _ _ (from_before r u c))
        ∙ finished r u (Collects-leaves _ c)
        ∙ ap (λ x. (done none, x)) (sym e)

    loop-HasCollected :
        (x : Outcome (Result Kept) × Env)
        → loop ≡ x
        → continue x.0 rest x.1 ≡ (done none, t)
        → HasCollected action n
    unfolding pure
    loop-HasCollected (done (ok r), u) l e =
        let c = loop-Collects _ _ _ _ _ _ _ l in
        (r, u, before r u c, ap (λ x. x.1) (sym e ∙ finished r u (Collects-leaves _ c)))
    loop-HasCollected (done (err text), u) l e = cc
    loop-HasCollected (panic, u) l e = cc

    -- Where the context has the experiment and the action, and the precedence of its log is
    -- defined, a collect task with its defaults ends without an error in some state exactly when
    -- each of its versions was measured in order, its result aggregated with those that the
    -- experiment had, and what was left is the experiment with the new histograms in its analysis
    -- and all else as it was, its status sent if there is a client for the API server, and a log; a
    -- task for load only leaves the experiment as it was and only logs.
    pub run-HasCollected : (run inputs₀ ctx s ≡ (done none, t)) ↔ HasCollected action n
    run-HasCollected = (λ e. loop-HasCollected loop refl (sym run-loop ∙ e), HasCollected-run)
