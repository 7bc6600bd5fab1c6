-- ===== src/Iter8ctl/Experiment/Answers.antt =====
-- GetExperiment of iter8ctl/experiment/experiment.go: which experiment it answers with.
use etc.Prelude.{◌≡◌, Bool, true, false, Option, none, some, List, [], ◌∷◌, ◌++◌, String, All}
use etc.Api.Types.{Experiment}
use etc.Controller.Effects.{Result, ok, err}

abbrev pub IsNamed : String → String → Experiment → Type 0
IsNamed name ns e = (e.name ≡ name) × (e.namespace ≡ ns)

-- The last item of a list; the first with the name and the namespace.
abbrev pub IsLast : List Experiment → Experiment → Type 0
IsLast items e = (pre : List Experiment) × (items ≡ pre ++ (e ∷ []))

abbrev pub IsFirstNamed : String → String → List Experiment → Experiment → Type 0
IsFirstNamed name ns items e =
    (pre : List Experiment) × (post : List Experiment) × (items ≡ pre ++ (e ∷ post))
    × IsNamed name ns e
    × All (λ x. ¬ IsNamed name ns x) pre

-- An answer, by whether the latest is asked for and by what the API server lists.
unfoldable pub IsAnswer :
    Bool → String → String → Result (List Experiment) → Result Experiment → Type 0
IsAnswer latest name ns (err text) r = r ≡ err text
IsAnswer true name ns (ok items) (ok e) = IsLast items e
IsAnswer true name ns (ok items) (err text) = items ≡ []
IsAnswer false name ns (ok items) (ok e) = IsFirstNamed name ns items e
IsAnswer false name ns (ok items) (err text) = All (λ x. ¬ IsNamed name ns x) items

-- The search for the last item, and for a named one.
abbrev IsLastOrNone : List Experiment → Option Experiment → Type 0
IsLastOrNone items none = items ≡ []
IsLastOrNone items (some e) = IsLast items e

abbrev IsNamedOrNone : String → String → List Experiment → Option Experiment → Type 0
IsNamedOrNone name ns items none = All (λ x. ¬ IsNamed name ns x) items
IsNamedOrNone name ns items (some e) = IsFirstNamed name ns items e
