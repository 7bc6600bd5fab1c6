-- ===== src/TaskRunner/Readiness.antt =====
-- taskrunner/tasks/readiness/readiness.go: the task that waits for objects of the cluster.
pub mod Checks
pub mod Labels
use etc.Prelude.{
  ℕ, zero, suc, ◌+◌, ◌-◌, Bool, true, false, ◌&&◌, ◌||◌, not, Option, none, some, List, [], ◌∷◌,
  ◌++◌, String, str_eq, if◌then◌else◌, leb, ltb, ◌==◌, length, get_elem?,
}
use Prim.Native.Char.{Char, code}
use Prim.Native.String
use etc.Prelude.Int.{ℤ, pos, negsuc}
use etc.Prelude.Text.{◌+++◌}
use etc.Api.Types.{ObjectReference, VersionDetail, VersionInfo, TaskSpec, Experiment}
use etc.Controller.Effects.{Result, ok, err, Outcome, done, panic}
use etc.TaskRunner.Effects.{
  Call, sleep, shell, Context, T, World, ◌>>=◌, ◌>>◌, pure, panics, call, deref,
}
use etc.TaskRunner.Core.{get_experiment_from_context}

abbrev between : ℕ → ℕ → Char → Bool
between lo hi c = leb lo (code c) && leb (code c) hi

-- [a-z0-9]
unfoldable pub is_alphanumeric : Char → Bool
is_alphanumeric c = between 97 122 c || between 48 57 c

-- ([-a-z0-9]*[a-z0-9])?
unfoldable pub is_label_end : String → Bool
is_label_end String.[] = true
is_label_end (String.◌∷◌ c String.[]) = is_alphanumeric c
is_label_end (String.◌∷◌ c (String.◌∷◌ d s)) =
    (is_alphanumeric c || (code c == 45)) && is_label_end (String.◌∷◌ d s)

abbrev pub is_label : String → Bool
is_label String.[] = false
is_label (String.◌∷◌ c s) = is_alphanumeric c && is_label_end s

unfoldable pub text_length : String → ℕ
text_length String.[] = 0
text_length (String.◌∷◌ c s) = suc (text_length s)

abbrev dns_label_max_length : ℕ
dns_label_max_length = 63

-- The length in bytes is that in characters where the expression matches.
unfoldable pub is_dns_label : String → Bool
unfolding text_length is_label_end is_alphanumeric
is_dns_label value = leb (text_length value) dns_label_max_length && is_label value

pub record ObjRef : Type 0 where
  pub kind : String
  pub namespace : Option String
  pub name : String
  pub wait_for : Option String

pub record ReadinessInputs : Type 0 where
  pub initial_delay_seconds : Option ℤ
  pub num_retries : Option ℤ
  pub interval_seconds : Option ℤ
  pub obj_refs : List ObjRef

abbrev default_to : ℤ → Option ℤ → Option ℤ
default_to n none = some n
default_to n (some m) = some m

unfoldable pub set_defaults : ReadinessInputs → ReadinessInputs
set_defaults inputs = record inputs {
  initial_delay_seconds = default_to (pos 5) inputs.initial_delay_seconds;
  num_retries = default_to (pos 12) inputs.num_retries;
  interval_seconds = default_to (pos 5) inputs.interval_seconds;
}

unfoldable pub validate_names : List ObjRef → Option String
validate_names [] = none
validate_names (o ∷ os) =
    if is_dns_label o.name
    then validate_names os
    else some "object name is malformatted; needs to be a valid DNS label"

abbrev pub task_name : String
task_name = "common/readiness"

-- A task and the error beside it. `decoded` is the JSON of the spec, read as inputs.
abbrev made : Result ReadinessInputs → Option ReadinessInputs × Option String
made (err text) = (none, some text)
made (ok inputs) = (some (set_defaults inputs), validate_names inputs.obj_refs)

unfoldable pub make : String → Result ReadinessInputs → Option ReadinessInputs × Option String
unfolding set_defaults validate_names
make task decoded =
    if str_eq task task_name
    then made decoded
    else (none, some "library and task need to be 'common/readiness'")

abbrev weight_obj_ref : VersionDetail → List ObjRef
weight_obj_ref v = elim v.weight_obj_ref [
  | none ↦ []
  | some r ↦
      record { kind = r.kind; namespace = some r.namespace; name = r.name; wait_for = none } ∷ []
]

unfoldable pub version_obj_refs : List VersionDetail → List ObjRef
version_obj_refs [] = []
version_obj_refs (v ∷ vs) = weight_obj_ref v ++ version_obj_refs vs

abbrev pub experiment_obj_refs : Option VersionInfo → List ObjRef
experiment_obj_refs none = []
experiment_obj_refs (some info) = version_obj_refs (info.baseline ∷ info.candidates)

abbrev namespace_of : Experiment → ObjRef → String
namespace_of e o = elim o.namespace [ none ↦ e.namespace | some ns ↦ ns ]

unfoldable pub get_script : Experiment → ObjRef → String
get_script e o =
    "kubectl get " +++ (o.kind +++ (" " +++ (o.name +++ (" -n " +++ namespace_of e o))))

unfoldable pub wait_script : Experiment → ObjRef → String → String
wait_script e o condition =
    "kubectl wait "
    +++ (o.kind +++ ("/" +++ (o.name +++ (" -n " +++ namespace_of e o))))
    +++ (" --for=" +++ (condition +++ " --timeout=0s"))

module _ ⦃w : World⦄ (e : Experiment) where
  abbrev pub run_script : String → T (Option String)
  run_script script = call (shell script) (λ t. w.shell_error t script)

  abbrev pub wait_if : ObjRef → Option String → T (Option String)
  wait_if o (some text) = pure (some text)
  wait_if o none = elim o.wait_for [
    | none ↦ pure none
    | some condition ↦ run_script (wait_script e o condition)
  ]

  -- One object: it exists, and its condition holds if it has one.
  unfoldable pub check : ObjRef → T (Option String)
  unfolding ◌>>=◌ pure call
  check o = run_script (get_script e o) >>= wait_if o

  -- t.With.ObjRefs[i], the index of the outer loop.
  unfoldable pub check_at : List ObjRef → ℕ → T (Option String)
  unfolding panics check
  check_at objs i = elim (get_elem? objs i) [ none ↦ panics | some o ↦ check o ]

  -- The inner loop, with `left` objects between objIndex and the end: the new objIndex and the error.
  abbrev pub advance : T (ℕ × Option String) → ℕ → Option String → T (ℕ × Option String)
  advance next index none = next
  advance next index (some text) = pure (index, some text)

  unfoldable pub check_objects : List ObjRef → ℕ → ℕ → ℕ → T (ℕ × Option String)
  unfolding ◌>>=◌ pure check_at
  check_objects objs i zero index = pure (index, none)
  check_objects objs i (suc left) index =
      check_at objs i >>= advance (check_objects objs i left (suc index)) index

  -- It is entered only while the error is nil.
  unfoldable pub inner_loop : List ObjRef → ℕ → ℕ × Option String → T (ℕ × Option String)
  unfolding pure check_objects
  inner_loop objs i (index, none) = check_objects objs i (length objs - index) index
  inner_loop objs i (index, some text) = pure (index, some text)

  abbrev pub try_later : Option ℤ → T (Option String) → T (Option String)
  try_later interval again = do seconds ← deref interval; call (sleep seconds) (λ t. tt); again

  -- The outer loop with `left` of its rounds to go, of which the last one breaks. The error at the end.
  unfoldable pub retry_loop : List ObjRef → Option ℤ → ℕ → ℕ → ℕ × Option String → T (Option String)
  unfolding ◌>>=◌ pure call deref inner_loop
  retry_loop objs interval zero i state = pure state.1
  retry_loop objs interval (suc left) i state = inner_loop objs i state >>= λ state₁.
      if (left == 0) || (state₁.0 == length objs)
      then pure state₁.1
      else try_later interval (retry_loop objs interval left (suc i) state₁)

-- i <= int(*t.With.NumRetries), from 0.
unfoldable pub rounds : ℤ → ℕ
rounds (pos n) = suc n
rounds (negsuc n) = 0

module _ ⦃w : World⦄ where
  -- The weight references of the versions are appended to the task's objects.
  unfoldable pub run_checks : ReadinessInputs → Experiment → T (Option String)
  unfolding ◌>>=◌ pure call deref version_obj_refs retry_loop rounds
  run_checks inputs e = do
    let objs = inputs.obj_refs ++ experiment_obj_refs e.spec.version_info
    delay ← deref inputs.initial_delay_seconds
    call (sleep delay) (λ t. tt)
    retries ← deref inputs.num_retries
    retry_loop e objs inputs.interval_seconds (rounds retries) 0 (0, none)

  abbrev pub run_found : ReadinessInputs → Result Experiment → T (Option String)
  run_found inputs (err text) = pure (some text)
  run_found inputs (ok e) = run_checks inputs e

  unfoldable pub run : ReadinessInputs → Context → T (Option String)
  unfolding ◌>>=◌ pure get_experiment_from_context run_checks
  run inputs ctx = get_experiment_from_context ctx >>= run_found inputs
