-- ===== src/TaskRunner/Tags.antt =====
-- taskrunner/core: tags.go, GetDefaultTags of base.go, and GetSecret of experiment.go.
use etc.Prelude.{Option, none, some, [], String, insert}
use etc.Api.Types.{Json, Experiment}
use etc.Controller.Effects.{NamespacedName, Result, ok, err}
use etc.TaskRunner.Effects.{
  Secret, get_secret, TagValue, object, secret_fields, Tags, Template, executed, not_executed,
  not_created, Context, T, World, ◌>>=◌, pure, call,
}
use etc.TaskRunner.Core.{get_experiment_from_context, get_typed_object, secret_name}

unfoldable pub with_tag : String → TagValue → Tags → Tags
with_tag label obj tags = insert label obj tags

unfoldable pub with_secret : String → Option Secret → Tags → Tags
unfolding with_tag
with_secret label none tags = tags
with_secret label (some secret) tags = with_tag label (secret_fields secret) tags

module _ ⦃w : World⦄ where
  abbrev text_of : Template → Result String
  text_of (executed text) = ok text
  text_of not_executed = err "cannot interpolate string"
  text_of (not_created text) = err "cannot interpolate string"

  -- Tags that are nil, or whose map is, leave the text as it is.
  unfoldable pub interpolate : Option Tags → String → Result String
  interpolate none str = ok str
  interpolate (some tags) str = text_of (w.interpolated str tags)

  abbrev default_tags_of : Result Json → Tags
  default_tags_of (err text) = []
  default_tags_of (ok obj) = with_tag "this" (object obj) []

  abbrev tags_for : Result Experiment → Tags
  tags_for (err text) = []
  tags_for (ok e) = default_tags_of (w.experiment_map e)

  unfoldable pub get_default_tags : Context → T Tags
  unfolding ◌>>=◌ pure get_experiment_from_context with_tag
  get_default_tags ctx = do answer ← get_experiment_from_context ctx; pure (tags_for answer)

  abbrev pub read_secret : NamespacedName → T (Result Secret)
  read_secret nn = call (get_secret nn) (λ t. w.secret t nn)

  -- GetSecret: the name is `namespace/name`, or a name in the namespace of the experiment. The error
  -- of GetClient comes first.
  unfoldable pub find_secret : String → T (Result Secret)
  unfolding call get_typed_object secret_name
  find_secret namespacedname s =
      get_typed_object (w.client_error s.trace)
        (read_secret (secret_name w.namespace namespacedname)) [] s
