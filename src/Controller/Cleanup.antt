-- ===== src/Controller/Cleanup.antt =====
-- controllers/experiment_controller.go: the jobs of experiments that were deleted.
pub mod Groups
pub mod Orphans
use etc.Prelude.{
  ◌≡◌, Bool, true, false, Option, none, some, List, [], ◌∷◌, ◌++◌, String, str_eq, lookup,
  if◌then◌else◌,
}
use etc.Prelude.Text.{◌+++◌, split}
use etc.Api.Types.{Experiment}
use etc.Controller.Effects.{
  NamespacedName, Job, Lookup, Result, ok, err, Call, list_jobs, get_experiment, delete_job,
  Cluster, M, ◌>>=◌, ◌>>◌, pure, panics, ask,
}

-- map[string][]batchv1.Job
abbrev pub JobMap : Type 0
JobMap = List (String × List Job)

-- experimentToJobs[key] = append(experimentToJobs[key], job)
unfoldable pub append_job : String → Job → JobMap → JobMap
append_job key job [] = (key, job ∷ []) ∷ []
append_job key job (entry ∷ m) =
    let rest = append_job key job m in
    if str_eq entry.0 key then (entry.0, entry.1 ++ (job ∷ [])) ∷ m else entry ∷ rest

-- The key of the experiment that a job is labelled with; a job that lacks a label has none.
unfoldable pub job_key : Job → Option String
job_key job = elim (lookup "iter8/experimentName" job.labels) [
  | none ↦ none
  | some nm ↦ elim (lookup "iter8/experimentNamespace" job.labels) [
    | none ↦ none
    | some ns ↦ some (ns +++ ("/" +++ nm))
  ]
]

unfoldable pub add_job : Option String → Job → JobMap → JobMap
add_job none job m = m
add_job (some key) job m = append_job key job m

-- The loop of `identifyExperimentsFromHandlers`, with the map so far.
unfoldable pub group_jobs : List Job → JobMap → JobMap
group_jobs [] m = m
group_jobs (job ∷ jobs) m = group_jobs jobs (add_job (job_key job) job m)

abbrev grouped : Result (List Job) → JobMap
grouped (err e) = []
grouped (ok jobs) = group_jobs jobs []

-- The two parts of a key; `splitKey[1]` panics where there is no second one.
unfoldable pub key_ref : List String → M NamespacedName
key_ref (ns ∷ (nm ∷ more)) = pure (record { namespace = ns; name = nm })
key_ref _ = panics

abbrev pub is_gone : Lookup Experiment → Bool
is_gone Lookup.not_found = true
is_gone (Lookup.found e) = false
is_gone (Lookup.failed e) = false

module _ ⦃cl : Cluster⦄ where
  unfoldable pub identify_experiments_from_handlers : M JobMap
  identify_experiments_from_handlers = do
    jobs ← ask (list_jobs cl.config.namespace) (λ t. cl.jobs t cl.config.namespace)
    pure (grouped jobs)

  -- The entries whose experiment the API server does not find.
  unfoldable pub identify_deleted_experiments : JobMap → M JobMap
  identify_deleted_experiments [] = pure []
  identify_deleted_experiments ((key, jobs) ∷ m) =
      let others = identify_deleted_experiments m in
      key_ref (split b'/' key) >>= λ ref.
      ask (get_experiment ref) (λ t. cl.experiment t ref) >>= λ answer.
      others >>= λ rest. pure (if is_gone answer then (key, jobs) ∷ rest else rest)

  -- The error of a deletion is not looked at.
  unfoldable pub delete_jobs : List Job → M (Unit {0})
  delete_jobs [] = pure tt
  delete_jobs (job ∷ jobs) =
      let rest = delete_jobs jobs in ask (delete_job job) (λ t. tt) >>= λ e. rest

  unfoldable pub delete_all : JobMap → M (Unit {0})
  delete_all [] = pure tt
  delete_all ((key, jobs) ∷ m) = let rest = delete_all m in delete_jobs jobs >>= λ e. rest

  unfoldable pub cleanup_deleted_experiments : M (Unit {0})
  cleanup_deleted_experiments = do
    experiments ← identify_experiments_from_handlers
    deleted ← identify_deleted_experiments experiments
    delete_all deleted
