-- ===== src/Lib.antt =====
-- The programs of iter8, which runs experiments on versions of an application in Kubernetes. The
-- controller reads an Experiment resource, takes the target, launches handler jobs, asks an analytics
-- service for assessments, shifts traffic weights by patches, and writes the status. A handler job is
-- the task runner, which runs the tasks of one action of the experiment. The command line tool iter8ctl
-- reads an experiment and describes it, or asserts conditions of it.
--
-- The parts, and where they are modelled:
--
--   Prelude            the library's names, passed on, with tests, lists and maps, int32 and texts
--   Api/Constants      api/v2alpha2/constants.go: the enumerations, the reasons, After on stages
--   Api/Types          api/v2alpha2/experiment_types.go, common_types.go, metric_types.go
--   Api/Defaults       api/v2alpha2/defaults.go: InitializeSpec, and in Getters the getters (GetMaxLoops is
--                      get_max_loops, and so on)
--   Api/Status         api/v2alpha2/status.go: GetCondition, MarkCondition, InitializeStatus,
--                      SetVersionRecommendedForPromotion
--   Api/Builders, MetricBuilder
--                      api/v2alpha2/experiment_builder.go and metric_builder.go
--   Controller/Effects the calls that leave the controller, and what a handler works on
--   Controller/Recorder, Target, Handler, Validation, Metrics, Weights
--                      controllers/recorder.go, target.go, handler.go, validatation.go, metrics.go and
--                      weights.go
--   Controller/Config, Analytics, Iterate
--                      controllers/config.go (ReadConfig), client.go (Invoke) and iterate.go (doIteration)
--   Controller/Stages, Launch, Reconcile
--                      controllers/experiment_controller.go: advanceStage to endExperiment; the checks
--                      and launches of handlers; Reconcile for an experiment that was read
--   Controller/Cleanup, Request
--                      the same file: cleanupDeletedExperiments, Reconcile by name, and the events of
--                      jobs
--   Controller/Steps   a step relation on the state of a request, which says what each step writes
--   TaskRunner/Effects the calls that leave the task runner, and what a task works on
--   TaskRunner/Core, Tags, Action
--                      taskrunner/core: experiment.go, utils.go and k8sclient.go, with commands.go in
--                      Commands; tags.go; and Action.Run of base.go
--   TaskRunner/Collect, Http, Readiness, RunScript, Slack
--                      the tasks: taskrunner/tasks/collect/collect.go, http/http.go and so on, with make
--                      for Make and run for Run
--   TaskRunner/Quiet   the other tasks than collect and Slack, against the experiment in memory
--   TaskRunner/Run     taskrunner/cmd/run.go: GetAction, MakeTask and run
--   Iter8ctl/Experiment
--                      iter8ctl/experiment/experiment.go, with GetAnnotatedMetricStrs in Rewards and
--                      Assert in Assertions
--   Iter8ctl/Describe  iter8ctl/describe/describe.go, with print_analysis for PrintAnalysis,
--                      its texts in Texts and its tables in Tables
--   Iter8ctl/Debug, Commands
--                      iter8ctl/debug/debug.go, and iter8ctl/cmd/assert.go and describe.go
--   Examples           a small cluster and experiments, and the theorems on them
--
-- State. Env holds the experiment in memory, the status as it was read (OriginalStatus), and the calls
-- made so far, the latest first. M A is a function from Env to an outcome and an Env; the outcome is a
-- value, or a panic: a nil pointer, an index out of range, a division by 0. A Go error is an option or
-- a Result. `reconcile e trace` is Reconcile for an experiment `e` that was read, after the calls
-- `trace` of earlier requests; `reconcile_request` reads the experiment by its name first.
--
-- Other systems. The record Cluster has a field for each: the API server (status updates, lists, jobs,
-- metrics, objects, patches), the discovery of kinds, JSONPath, the YAML and JSON decoders, the job
-- template's file, the analytics service, and the clock. An answer is a function of all the calls made
-- before, so the cluster may change between any two of them; the clock is read from the calls so far.
-- Nothing is assumed of them but, where a theorem names it, HasTimeOrder, how metav1.Time's Before
-- compares, and FindsOnly, that the metrics are among known ones. The status update does not change the experiment in memory.
--
-- The task runner has its own Env, the experiment that the context points to and the calls so far, its
-- own monad T, and the record World of its other systems; Fortio and Decoders hold what the collect task
-- and the JSON of the task specs need. iter8ctl reads an experiment, so its code is a function into an
-- Outcome; Decimals are the decimals of gopkg.in/inf.v0, and HasOrder says how Cmp compares;
-- a `sort` is the order that sort.Sort chooses, and Sorts says that it sorts.
--
-- Numbers. An int32 is an integer in its range, and its operations wrap (wrap32), as those
-- of an int wrap at 64 bits (wrap64). The floating point numbers of the collect task are a type with an
-- addition and a maximum. Nanoseconds of an
-- interval are not wrapped: an int32 of seconds fits an int64.
--
-- Fuel. ReadMetric recurses as deep as `stack_depth` of the cluster allows, and panics below it, as
-- the code does where its stack is exhausted. print_int has fuel for the 20
-- digits of a 64-bit number. All other loops are structural.
--
-- Differences. A nil slice and an empty one are one list, so the comparison of statuses does not tell
-- them apart. A map is an association list, and its order is one in which Go may visit it. Paths are
-- joined as they are written. Log lines are left out. Texts of enumerations that are not in the source
-- are `other`.
--
-- Differences of the task runner. The objects that the readiness task appends to itself are those of
-- one run. The pointers in a map of Fortio results are not nil. Where the source ends the process by
-- log.Fatal, the model has the error of the download.
--
-- Not modelled: the wiring of SetupWithManager and main.go, the loggers; the reading of experiments
-- from files; flags, exit codes and the configuration file of iter8ctl; generated code.
pub mod Prelude
pub mod Api
pub mod Controller
pub mod Iter8ctl
pub mod TaskRunner
pub mod Examples
