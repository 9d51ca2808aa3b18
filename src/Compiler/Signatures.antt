-- ===== src/Compiler/Signatures.antt =====
-- foresee/signatures.py: the operations that the language supports.
use project_f.Base.{
  String, Bool, true, false, Option, none, some, List, [], ◌∷◌, ◌==◌, ◌||◌, if◌then◌else◌,
}
use project_f.Model.{
  Kind, int, string, bool, snapshot, plan, plans, simulated, trials, selected, outcome, error,
}

abbrev pub kind_eq : Kind → Kind → Bool
kind_eq int int = true
kind_eq string string = true
kind_eq bool bool = true
kind_eq snapshot snapshot = true
kind_eq plan plan = true
kind_eq plans plans = true
kind_eq simulated simulated = true
kind_eq trials trials = true
kind_eq selected selected = true
kind_eq outcome outcome = true
kind_eq error error = true
kind_eq _ _ = false

-- The kind of an argument; a state is a snapshot or a simulation.
pub data Want : Type 0 where
  state : Want
  exactly : Kind → Want

unfoldable pub accepts : Want → Kind → Bool
accepts state got = kind_eq got snapshot || kind_eq got simulated
accepts (exactly k) got = kind_eq k got

abbrev pub resource_type : String
resource_type = "Catalog"

abbrev pub model_type : String
model_type = "Planner"

abbrev pub return_type : String
return_type = "DecisionResult"

abbrev pub plan_type : String
plan_type = "Patch"

pub data EffectTarget : Type 0 where
  resource model : EffectTarget

-- EFFECTS.get(kind)
unfoldable pub effect_target : String → Option EffectTarget
effect_target kind =
    if kind == "Snapshot"
    then some resource
    else if kind == "Infer"
    then some model
    else if kind == "Explore"
    then some resource
    else if kind == "Commit"
    then some resource
    else none

-- METHODS.get(method): the kinds of the arguments, and of the result
unfoldable pub methods : String → Option (List Want × Kind)
methods method =
    if method == "source_fields_unchanged"
    then some (state ∷ state ∷ [], bool)
    else if method == "valid_unit_arithmetic"
    then some (state ∷ [], bool)
    else if method == "unresolved_units"
    then some (state ∷ [], int)
    else none

abbrev pub propose_args : List Want
propose_args = exactly snapshot ∷ exactly string ∷ exactly int ∷ []

abbrev pub simulate_args : List Want
simulate_args = exactly plan ∷ []
