-- ===== src/TaskRunner/Core/Variables.antt =====
-- UpdateVariable and FindVariableInVersionDetail of taskrunner/core/commands.go.
use etc.Prelude.{
  ◌≡◌, refl, ap, ◌∙◌, Option, none, some, List, [], ◌∷◌, ◌++◌, String, str_eq, eq_iff,
  if◌then◌else◌, arith,
}
use etc.Api.Types.{NamedValue, VersionDetail}
use etc.Controller.Effects.{ok}
use etc.TaskRunner.Core.Commands.{
  find_variable, update_variable, find_variable_in_version_detail, add_variable, variable_or_error,
}

-- The value that a name keeps or gets.
abbrev pub kept_or : String → Option String → String
kept_or value none = value
kept_or value (some present) = present

find_variable-append :
    (other name value : String) (vs : List NamedValue)
    → find_variable name vs ≡ none
    → find_variable other (vs ++ (record { name = name; value = value } ∷ []))
      ≡ (if str_eq name other then some value else find_variable other vs)
unfolding find_variable
find_variable-append other name value [] h = refl
find_variable-append other name value (v ∷ vs) h = ground (
  arith,
  find_variable-append other name value vs,
  eq_iff v.name other,
  eq_iff v.name name,
  eq_iff name other,
)

add_variable_lem :
    (v : VersionDetail) (name value other : String) (o : Option String)
    → find_variable name v.variables ≡ o
    → find_variable other (add_variable v name value o).variables
      ≡ (if str_eq name other then some (kept_or value o) else find_variable other v.variables)
add_variable_lem v name value other none h = find_variable-append other name value v.variables h
add_variable_lem v name value other (some present) h = ground (arith, eq_iff name other)

-- After a variable is updated, looking its name up gives the value that it had before, or the new
-- one where it had none, and every other name is found as before.
pub find_variable-update :
    (v : VersionDetail) (name value other : String)
    → find_variable_in_version_detail (update_variable (some v) name value).0 other ≡ (
        if str_eq name other
        then ok (kept_or value (find_variable name v.variables))
        else find_variable_in_version_detail (some v) other)
unfolding update_variable find_variable_in_version_detail
find_variable-update v name value other =
    ap variable_or_error (add_variable_lem v name value other (find_variable name v.variables) refl)
    ∙ ground arith
