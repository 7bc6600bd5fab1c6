-- ===== src/Examples/Handlers.antt =====
-- The theorems on events and on the jobs of handlers, on concrete data.
use etc.Prelude.{◌≡◌, Option, none, [], ◌∷◌, String}
use etc.Api.Constants.{experiment_completed, condition_false}
use etc.Controller.Effects.{Cluster, Env, Job, event, ok}
use etc.Controller.Recorder.{record_event}
use etc.Controller.Recorder.Once.{record_event-news}
use etc.Controller.Handler.{launch_handler}
use etc.Controller.Handler.Created.{Launches, launch_handler-IsHandlerJob}
use etc.Api.Status.{find_condition}
use etc.Examples.Base.{test_cluster, waiting_experiment, env_of}

-- The condition was false with no reason; now it has one.
record_event-news_example :
    (record_event ⦃cl = test_cluster⦄ experiment_completed condition_false "StageAdvanced"
      "Advanced to Running"
      (env_of waiting_experiment)).1.trace
    ≡ event "StageAdvanced" "Advanced to Running" ∷ []
unfolding find_condition
record_event-news_example =
    record_event-news ⦃cl = test_cluster⦄ experiment_completed condition_false "StageAdvanced"
      "Advanced to Running" (env_of waiting_experiment)

abbrev once : Env
once =
    (record_event ⦃cl = test_cluster⦄ experiment_completed condition_false "StageAdvanced"
      "Advanced to Running" (env_of waiting_experiment)).1

-- The template has one container.
abbrev decoded : String → Job → Option String × Job
decoded yaml job = (none, record job { containers = [] ∷ [] })

abbrev launch_cluster : Cluster
launch_cluster = record test_cluster { file = λ t name. ok "kind: Job"; decode_job = decoded }

launch_handler-IsHandlerJob_example :
    Launches launch_cluster waiting_experiment "start" none []
      (launch_handler ⦃cl = launch_cluster⦄ "start" none (env_of waiting_experiment)).1.trace
launch_handler-IsHandlerJob_example =
    launch_handler-IsHandlerJob ⦃cl = launch_cluster⦄ "start" none (env_of waiting_experiment)
