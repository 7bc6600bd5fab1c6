-- ===== src/Controller/Validation/Tasks.antt =====
-- Tasks of actions: controllers/validatation.go, AreTasksValid.
use etc.Prelude.{
  ◌≡◌, ◌≢◌, ◌↔◌, ◌⊎◌, inl, inr, refl, ap, ◌+◌, ◌==◌, Bool, true, false, Option, none, some, [], ◌∷◌,
  String, All, Bool-cases, arith, if◌then◌else◌,
}
use etc.Prelude.Text.{is_empty}
use etc.Api.Types.{TaskSpec, Action, ActionMap, Experiment}
use etc.Controller.Validation.{
  is_given, one_if, task_valid, action_valid, are_tasks_valid, is_experiment_valid,
}

-- There is a text, and it is not empty.
abbrev pub IsText : Option String → Type 0
IsText o = (text : String) × (o ≡ some text) × (text ≢ "")

-- A task has a task's name or a script, and not both.
abbrev pub IsTask : TaskSpec → Type 0
IsTask t = (IsText t.task × ¬ IsText t.run) ⊎ (¬ IsText t.task × IsText t.run)

pub is_empty_lem : (s : String) → (is_empty s ≡ true) ↔ (s ≡ "")
is_empty_lem String.[] = (λ h. refl, λ h. refl)
is_empty_lem (String.◌∷◌ c s) = (λ h. absurd (cc), λ h. ap is_empty h)

is_given-IsText : (o : Option String) → (is_given o ≡ true) ↔ IsText o
is_given-IsText none = (λ h. absurd (cc), λ h. absurd (cc))
is_given-IsText (some s) = (
  λ h. (s, refl, λ e. let empty = (is_empty_lem s).1 e in absurd (ground arith)),
  λ h. elim (Bool-cases (is_empty s)) [
    | inl e ↦
        let empty = (is_empty_lem s).0 e in
        let (text, same, full) = h in let same' : text ≡ "" = cc in absurd (full same')
    | inr e ↦ rw e refl
  ],
)

not_given : (o : Option String) → (is_given o ≡ false) ↔ (¬ IsText o)
not_given o = (
  λ h k. let given = (is_given-IsText o).1 k in cc,
  λ h. elim (Bool-cases (is_given o)) [ inl e ↦ absurd (h ((is_given-IsText o).0 e)) | inr e ↦ e ],
)

one_of :
    (a b : Bool)
    → ((one_if a + one_if b == 1) ≡ true)
      ↔ (((a ≡ true) × (b ≡ false)) ⊎ ((a ≡ false) × (b ≡ true)))
one_of a b = ground arith

task_valid-IsTask : (t : TaskSpec) → (task_valid t ≡ true) ↔ IsTask t
task_valid-IsTask t = (
  λ h. elim ((one_of (is_given t.task) (is_given t.run)).0 h) [
    | inl k ↦ inl ((is_given-IsText t.task).0 k.0, (not_given t.run).0 k.1)
    | inr k ↦ inr ((not_given t.task).0 k.0, (is_given-IsText t.run).0 k.1)
  ],
  λ h. (one_of (is_given t.task) (is_given t.run)).1 (elim h [
    | inl k ↦ inl ((is_given-IsText t.task).1 k.0, (not_given t.run).1 k.1)
    | inr k ↦ inr ((not_given t.task).1 k.0, (is_given-IsText t.run).1 k.1)
  ]),
)

both : (a b : Bool) → ((if a then b else false) ≡ true) ↔ ((a ≡ true) × (b ≡ true))
both a b = ground arith

action_valid-IsTask : (ts : Action) → (action_valid ts ≡ true) ↔ All IsTask ts
unfolding action_valid
action_valid-IsTask [] = (λ h. tt, λ h. refl)
action_valid-IsTask (t ∷ ts) =
    let parts = both (task_valid t) (action_valid ts) in
    let one = task_valid-IsTask t in
    let rest = action_valid-IsTask ts in
    (λ h. (one.0 (parts.0 h).0, rest.0 (parts.0 h).1), λ h. parts.1 (one.1 h.0, rest.1 h.1))

are_tasks_valid-IsTask :
    (m : ActionMap) → (are_tasks_valid m ≡ true) ↔ All (λ entry. All IsTask entry.1) m
unfolding are_tasks_valid
are_tasks_valid-IsTask [] = (λ h. tt, λ h. refl)
are_tasks_valid-IsTask ((name, a) ∷ m) =
    let parts = both (action_valid a) (are_tasks_valid m) in
    let one = action_valid-IsTask a in
    let rest = are_tasks_valid-IsTask m in
    (λ h. (one.0 (parts.0 h).0, rest.0 (parts.0 h).1), λ h. parts.1 (one.1 h.0, rest.1 h.1))

-- An experiment is accepted exactly when each task of each of its actions has a task text or a run
-- text that is not empty, and not both.
pub is_experiment_valid-IsTask :
    (i : Experiment)
    → (is_experiment_valid i ≡ true) ↔ All (λ entry. All IsTask entry.1) i.spec.strategy.actions
unfolding is_experiment_valid
is_experiment_valid-IsTask i = are_tasks_valid-IsTask i.spec.strategy.actions
