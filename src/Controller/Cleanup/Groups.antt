-- ===== src/Controller/Cleanup/Groups.antt =====
-- The jobs of an experiment among those of a namespace: controllers/experiment_controller.go,
-- identifyExperimentsFromHandlers.
use etc.Prelude.{Bool, false, Option, none, some, List, [], ◌∷◌, String, str_eq, if◌then◌else◌}
use etc.Controller.Effects.{Job}
use etc.Controller.Cleanup.{JobMap, job_key}

-- The jobs under a key: those of its first entry.
pub jobs_at : String → JobMap → List Job
jobs_at key [] = []
jobs_at key (entry ∷ m) = if str_eq entry.0 key then entry.1 else jobs_at key m

abbrev pub has_key : String → Option String → Bool
has_key key none = false
has_key key (some k) = str_eq k key

-- The jobs that are labelled with an experiment, in their order.
pub labelled : String → List Job → List Job
labelled key [] = []
labelled key (job ∷ jobs) =
    if has_key key (job_key job) then job ∷ labelled key jobs else labelled key jobs
