-- ===== src/TaskRunner/Run/Ends.antt =====
-- taskrunner/cmd/run.go: the end of the command without an experiment.
use etc.Prelude.{
  ℕ, zero, suc, ◌≡◌, ◌⊎◌, inl, inr, refl, ap, ◌∙◌, true, none, some, List, ◌∷◌, String,
  Option-cases, arith,
}
use mathlib.Core.Path.{subst}
use etc.Prelude.Int.{pos}
use etc.Prelude.Text.{is_empty}
use etc.Controller.Effects.{NamespacedName, Result, ok, err, done, panic}
use etc.TaskRunner.Effects.{Call, sleep, Env, T, World, ◌>>=◌, ◌>>◌, pure, call, continue, panics}
use etc.TaskRunner.Collect.Aggregate.{Fortio}
use etc.TaskRunner.Core.{attempt, get_typed_object}
use etc.TaskRunner.Run.{
  Decoders, get_experiment_nn, read_experiment, from_cluster, run_experiment, run_named, run,
}

module _ {A : Type 0} (read : T (Result A))
    (fails : (s : Env) → (text : String) × ((read s).0 ≡ done (err text))) where
  -- An attempt after which there are `n` more goes on with them.
  attempt_goes_on :
      (n : ℕ) (last : Result A) (text : String) (s : Env)
      → (read s).0 ≡ done (err text)
      → attempt read (suc n) last s
        ≡ attempt read n
            (err text)
            (record (read s).1 { trace = sleep (pos 18) ∷ (read s).1.trace })
  unfolding attempt ◌>>=◌ pure call
  attempt_goes_on n last text s e =
      ap
        (λ o.
          continue o
            (λ answer. elim answer as (λ x. T (Result A)) [
              | ok a ↦ pure (ok a)
              | err text' ↦ call (sleep (pos 18)) (λ t. tt {0}) >> attempt read n answer
            ])
            (read s).1)
        e

  attempts_fail :
      (n : ℕ) (text : String) (s : Env)
      → (last : String) × ((attempt read n (err text) s).0 ≡ done (err last))
  unfolding attempt pure
  attempts_fail zero text s = (text, refl)
  attempts_fail (suc n) text s =
      let (text', e) = fails s in
      let (last, p) =
        attempts_fail n text' (record (read s).1 { trace = sleep (pos 18) ∷ (read s).1.trace }) in
      (last, ap (λ x. x.0) (attempt_goes_on n (err text) text' s e) ∙ p)

  get_fails :
      (empty : A) (s : Env)
      → (last : String) × ((get_typed_object none read empty s).0 ≡ done (err last))
  unfolding get_typed_object
  get_fails empty s =
      let (text, e) = fails s in
      let (last, p) =
        attempts_fail 1 text (record (read s).1 { trace = sleep (pos 18) ∷ (read s).1.trace }) in
      (last, ap (λ x. x.0) (attempt_goes_on 1 (ok empty) text s e) ∙ p)

module _ ⦃w : World⦄ ⦃fo : Fortio⦄ (ds : Decoders fo.Float) where
  -- The name or the namespace is empty, there is no client, or every answer for the experiment is an
  -- error.
  unfoldable pub LacksExperiment : String → Env → Type 0
  LacksExperiment name s =
      (name ≡ "")
      ⊎ (w.namespace ≡ "")
      ⊎ ((text : String) × (w.client_error s.trace ≡ some text))
      ⊎ ((t : List Call)
          → (text : String) × (w.cluster_experiment t
                (record { namespace = w.namespace; name = name })
              ≡ err text))

  -- The experiment cannot be read.
  abbrev Unread : NamespacedName → Env → Type 0
  Unread nn s = (text : String) × ((from_cluster ds nn s).0 ≡ done (err text))

  no_client :
      (nn : NamespacedName) (text : String) (s : Env)
      → w.client_error s.trace ≡ some text
      → Unread nn s
  unfolding from_cluster get_typed_object pure
  no_client nn text s e =
      (text, ap (λ o. (get_typed_object o (read_experiment ds nn) s.experiment s).0) e)

  no_answer :
      (nn : NamespacedName) (s : Env)
      → ((t : List Call) → (text : String) × (w.cluster_experiment t nn ≡ err text))
      → Unread nn s
  unfolding from_cluster
  no_answer nn s h = elim (Option-cases (w.client_error s.trace)) [
    | inr (text, e) ↦ no_client nn text s e
    | inl e ↦ (
      (get_fails (read_experiment ds nn) (λ t. ((h t.trace).0, ap done (h t.trace).1)) s.experiment
          s).0,
      ap (λ o. (get_typed_object o (read_experiment ds nn) s.experiment s).0) e
          ∙ (get_fails (read_experiment ds nn) (λ t. ((h t.trace).0, ap done (h t.trace).1))
              s.experiment s).1,
    )
  ]

  -- Without settings there is no name to read by; with them, the read fails.
  refused :
      (name action : String) (s : Env) (r : Result NamespacedName)
      → ((nn : NamespacedName) → r ≡ ok nn → Unread nn s)
      → (run_named ds action r s).0 ≡ panic
  unfolding ◌>>=◌ panics
  refused name action s (err text) h = refl
  refused name action s (ok nn) h =
      ap (λ o. (continue o (run_experiment ds action) (from_cluster ds nn s).1).0) (h nn refl).1

  named :
      (name : String) (s : Env) (nn : NamespacedName)
      → LacksExperiment name s
      → get_experiment_nn ds name ≡ ok nn
      → Unread nn s
  unfolding get_experiment_nn LacksExperiment
  named name s nn (inl e) k =
      let empty : is_empty name ≡ true = ap is_empty e in absurd (ground arith)
  named name s nn (inr (inl e)) k =
      let empty : is_empty w.namespace ≡ true = ap is_empty e in absurd (ground arith)
  named name s nn (inr (inr (inl (text, e)))) k = no_client nn text s e
  named name s nn (inr (inr (inr h))) k =
      let same : record { namespace = w.namespace; name = name } ≡ nn = ground arith in
      subst (λ x. Unread x s) same (no_answer _ s h)

  -- Where the setting for the name or for the namespace is empty, or there is no client for the API
  -- server, or each of its answers for the experiment is an error, the command that runs an action
  -- panics.
  pub run-panics :
      (name action : String) (s : Env) → LacksExperiment name s → (run ds name action s).0 ≡ panic
  unfolding run
  run-panics name action s h =
      refused name action s (get_experiment_nn ds name) (λ nn. named name s nn h)
