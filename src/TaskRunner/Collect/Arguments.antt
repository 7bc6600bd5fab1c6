-- ===== src/TaskRunner/Collect/Arguments.antt =====
-- getFortioArgs of taskrunner/tasks/collect/collect.go: the command line of Fortio.
use etc.Prelude.{Bool, Option, none, some, List, [], ◌∷◌, ◌++◌, String}
use etc.Prelude.Int.{ℤ}
use etc.Prelude.Text.{◌+++◌, print_int}
use etc.Controller.Effects.{Result, ok, err}
use etc.TaskRunner.Effects.{download, T, World, ◌>>=◌, pure, call, deref}
use etc.TaskRunner.Collect.Aggregate.{Fortio}

pub record Version : Type 0 where
  pub name : String
  pub headers : List (String × String)
  pub url : String

pub record CollectInputs (F : Type 0) : Type 0 where
  pub num_queries : Option ℤ
  pub time : Option String
  pub qps : Option F
  pub connections : Option ℤ
  pub load_only : Option Bool
  pub payload_str : Option String
  pub payload_url : Option String
  pub content_type : Option String
  pub versions : Option (List Version)

module _ ⦃fo : Fortio⦄ where
  unfoldable pub header_args : List (String × String) → List String
  header_args [] = []
  header_args (h ∷ hs) = "-H" ∷ (h.0 +++ (": " +++ h.1)) ∷ header_args hs

  abbrev content_type_args : Option String → List String
  content_type_args none = []
  content_type_args (some t) = "-content-type" ∷ fo.quote t ∷ []

  abbrev string_payload_args : Option String → List String
  string_payload_args none = []
  string_payload_args (some p) = "-payload" ∷ fo.quote p ∷ []

  module _ ⦃w : World⦄ where
    abbrev pub query_args : CollectInputs fo.Float → T (List String)
    query_args inputs = elim inputs.num_queries [
      | some n ↦ pure ("-n" ∷ print_int n ∷ [])
      | none ↦ deref inputs.time >>= λ time. pure ("-t" ∷ time ∷ [])
    ]

    abbrev file_args : Result String → Result (List String)
    file_args (err text) = err text
    file_args (ok name) = ok ("-payload-file" ∷ name ∷ [])

    -- A download that fails after the content is there ends the program; this is its error here.
    abbrev pub payload_args : CollectInputs fo.Float → T (Result (List String))
    payload_args inputs = elim inputs.payload_url [
      | none ↦ pure (ok (string_payload_args inputs.payload_str))
      | some url ↦
          call (download url) (λ t. w.downloaded t url) >>= λ answer. pure (file_args answer)
    ]

    abbrev all_args :
        CollectInputs fo.Float
        → Version
        → List String
        → String
        → String
        → Result (List String)
        → Result (List String)
    all_args inputs v queries qps connections (err text) = err text
    all_args inputs v queries qps connections (ok payload) = ok (
        ("load" ∷ queries)
        ++ ("-qps" ∷ qps ∷ "-c" ∷ connections ∷ [])
        ++ payload
        ++ content_type_args inputs.content_type
        ++ header_args v.headers
        ++ ("-json" ∷ "/tmp/output.json" ∷ v.url ∷ []))

    unfoldable pub get_fortio_args : CollectInputs fo.Float → Version → T (Result (List String))
    unfolding ◌>>=◌ pure call deref header_args
    get_fortio_args inputs v = do
      queries ← query_args inputs
      qps ← deref inputs.qps
      connections ← deref inputs.connections
      payload ← payload_args inputs
      pure (all_args inputs v queries (fo.print_f qps) (print_int connections) payload)
