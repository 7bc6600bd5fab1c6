-- ===== src/Examples/Cleanup.antt =====
-- The theorems on the jobs of deleted experiments, on concrete data.
use etc.Prelude.{[], ◌∷◌}
use etc.Controller.Effects.{Cluster, Job, ok}
use etc.Controller.Handler.{empty_job}
use etc.Examples.Base.{test_cluster}

-- The job of an experiment that the cluster does not find.
abbrev start_job : Job
start_job = record empty_job {
  name = "default-gone-start";
  namespace = "iter8";
  labels = ("iter8/experimentName", "gone") ∷ ("iter8/experimentNamespace", "default") ∷ [];
}

abbrev job_cluster : Cluster
job_cluster = record test_cluster { jobs = λ t ns. ok (start_job ∷ empty_job ∷ []) }
