-- ===== src/Controller/Handler/Environment.antt =====
-- The environment of a handler's job: controllers/handler.go, setEnvVariable and handlerJob.
use etc.Prelude.{
  ◌≡◌, refl, Option, none, some, List, [], ◌∷◌, String, str_eq, eq_iff, arith, if◌then◌else◌,
}
use etc.Api.Types.{Experiment}
use etc.Controller.Effects.{EnvVar}
use etc.Controller.Handler.{set_env_variable, handler_env}

-- What a container reads under a name: the first variable of that name.
pub env_value : String → List EnvVar → Option String
env_value name [] = none
env_value name (e ∷ env) = if str_eq e.name name then some e.value else env_value name env

-- A variable that is set is read back, and every other name is read as before.
pub env_value-set :
    (name m value : String) (env : List EnvVar)
    → env_value m (set_env_variable env name value)
      ≡ (if str_eq name m then some value else env_value m env)
unfolding env_value set_env_variable
env_value-set name m value [] = refl
env_value-set name m value (e ∷ env) =
    ground
      (arith, eq_iff name m, eq_iff e.name name, eq_iff e.name m, env_value-set name m value env)

-- The container of a launched job reads the handler, the experiment's namespace and its name under
-- the three names that the launch sets, and all else as its template says.
pub env_value-handler :
    (i : Experiment) (handler m : String) (env : List EnvVar)
    → env_value m (handler_env i handler env) ≡ (
        if str_eq "ACTION" m
        then some handler
        else if str_eq "EXPERIMENT_NAMESPACE" m
        then some i.namespace
        else if str_eq "EXPERIMENT_NAME" m
        then some i.name
        else env_value m env)
unfolding handler_env
env_value-handler i handler m env =
    let one = set_env_variable env "EXPERIMENT_NAME" i.name in
    let two = set_env_variable one "EXPERIMENT_NAMESPACE" i.namespace in
    rw
      (
        env_value-set "ACTION" m handler two,
        env_value-set "EXPERIMENT_NAMESPACE" m i.namespace one,
        env_value-set "EXPERIMENT_NAME" m i.name env,
      )
      refl
