-- ===== src/Controller/Cleanup/Orphans.antt =====
-- Which jobs are deleted: controllers/experiment_controller.go, cleanupDeletedExperiments.
use etc.Prelude.{◌≡◌, some, List, ◌∷◌, String, All}
use etc.Prelude.Text.{split}
use etc.Controller.Effects.{NamespacedName, Job, Lookup, Call, delete_job, Cluster, Env, M}
use etc.Controller.Effects.Gives.{OnDone}
use etc.Controller.Cleanup.{JobMap, job_key}

-- A call deletes nothing, or a job that satisfies `P`.
abbrev pub Allowed : (Job → Type 0) → Call → Type 0
Allowed P (delete_job job) = P job
Allowed P _ = Unit {0}

-- The jobs under each key are labelled with it.
abbrev IsGrouped : JobMap → Type 0
IsGrouped m = All (λ e. All (λ j. job_key j ≡ some e.0) e.1) m

-- An action that makes only allowed calls, and what it returns, where it returns.
record Safe {A : Type 0} (P : Job → Type 0) (Q : A → Type 0) (m : M A) : Type 0 where
  at : (s : Env) → All (Allowed P) s.trace → All (Allowed P) (m s).1.trace × OnDone Q (m s).0

-- The name that a key stands for, and an answer of the API server that it is not there.
abbrev Names : List String → NamespacedName → Type 0
Names parts ref =
    (ns : String) × (nm : String) × (more : List String) × (parts ≡ ns ∷ (nm ∷ more))
    × (ref ≡ record { namespace = ns; name = nm })

abbrev pub Gone : Cluster → String → Type 0
Gone cl key =
    (ref : NamespacedName) × (t : List Call) × Names (split b'/' key) ref
    × (cl.experiment t ref ≡ Lookup.not_found)

-- A job that is labelled with an experiment that the API server did not find.
abbrev pub IsOrphan : Cluster → Job → Type 0
IsOrphan cl job = (key : String) × (job_key job ≡ some key) × Gone cl key

AllGone : Cluster → JobMap → Type 0
AllGone cl m = All (λ e. Gone cl e.0) m
