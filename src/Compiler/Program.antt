-- ===== src/Compiler/Program.antt =====
-- foresee/compiler.py: `Checker.check` and the refusal of `compile_program`.
use project_f.Base.{
  ℕ, ◌+◌, String, Bool, true, false, not, ◌&&◌, ◌||◌, none, some, List, [], ◌∷◌, ◌++◌, ◌==◌, map,
  nat_eq, length, contains, if◌then◌else◌,
}
use project_f.Model.{
  Span, ResourceDecl, ModelDecl, DecisionDecl, Program, Statement, give, Block, done, stmt,
}
use project_f.Compiler.Signatures.{resource_type, model_type, EffectTarget, effect_target}
use project_f.Compiler.State.{
  Effect, Diagnostic, Code, State, Check, pure, ◌>>=◌, ◌>>◌, report, error_if,
}
use project_f.Compiler.Parts.{set_env}
use project_f.Compiler.Checker.{check_block}

abbrev pub effect_eq : Effect → Effect → Bool
effect_eq (k, t) (k', t') = k == k' && t == t'

-- effect in effects
abbrev pub has_effect : List Effect → Effect → Bool
has_effect [] e = false
has_effect (d ∷ ds) e = effect_eq d e || has_effect ds e

-- set(effects)
abbrev pub distinct : List Effect → List Effect
distinct [] = []
distinct (d ∷ ds) = if has_effect ds d then distinct ds else d ∷ distinct ds

-- used - declared
abbrev pub missing_effects : List Effect → List Effect → List Effect
missing_effects [] declared = []
missing_effects (e ∷ used) declared =
    if has_effect declared e
    then missing_effects used declared
    else e ∷ missing_effects used declared

abbrev pub each {ℓ} : {A : Type ℓ} → (A → Check (Unit {0})) → List A → Check (Unit {0})
each f [] = pure tt
each f (x ∷ xs) = f x >> each f xs

abbrev pub start_of_file : Span
start_of_file = record { start = 0; end = 0; line = 1; column = 1 }

abbrev pub has_duplicate : List String → Bool
has_duplicate [] = false
has_duplicate (name ∷ names) = contains names name || has_duplicate names

abbrev pub resource_names : Program → List String
resource_names p = map (λ d. d.name) p.resources

abbrev pub model_names : Program → List String
model_names p = map (λ d. d.name) p.models

abbrev pub top_level_names : Program → List String
top_level_names p = resource_names p ++ (model_names p ++ map (λ d. d.name) p.decisions)

abbrev pub check_resource : ResourceDecl → Check (Unit {0})
check_resource d = error_if (not (d.type_name == resource_type)) Code.f3201 d.span

abbrev pub check_model : ModelDecl → Check (Unit {0})
check_model d = error_if (not (d.type_name == model_type)) Code.f3201 d.span

abbrev pub valid_effect : List String → List String → Effect → Bool
valid_effect resources models (kind, target) = elim (effect_target kind) [
  | none ↦ false
  | some EffectTarget.resource ↦ contains resources target
  | some EffectTarget.model ↦ contains models target
]

abbrev pub is_return : Statement → Bool
is_return (give value at) = true
is_return _ = false

-- [i for i, s in enumerate(body) if s.kind == "return"], from the index i
abbrev pub returns : ℕ → Block → List ℕ
returns i done = []
returns i (stmt s rest) = if is_return s then i ∷ returns (i + 1) rest else returns (i + 1) rest

abbrev pub statements : Block → ℕ
statements done = 0
statements (stmt s rest) = statements rest + 1

-- returns == [len(body) - 1]; the index -1 is not a return's.
abbrev pub ends_with_return : Block → Bool
ends_with_return body = elim (returns 0 body) [
  | [] ↦ false
  | i ∷ [] ↦ nat_eq (i + 1) (statements body)
  | i ∷ j ∷ more ↦ false
]

-- The targets of the declared effects that nothing in the file declares.
abbrev pub unknown_targets : List String → List String → List Effect → List String
unknown_targets resources models [] = []
unknown_targets resources models ((kind, target) ∷ effects) =
    let rest = unknown_targets resources models effects in
    if contains resources target || contains models target || contains rest target
    then rest
    else target ∷ rest

abbrev pub get_used : Check (List Effect)
get_used s = (s.used, s)

abbrev pub set_used : List Effect → Check (Unit {0})
set_used used s = (tt, record s { used = used })

-- A diagnostic keeps no name, so the order within a set of effects or of targets is not seen.
unfoldable pub check_decision : List String → List String → DecisionDecl → Check (Unit {0})
check_decision resources models d = do
  each (λ e. error_if (not (valid_effect resources models e)) Code.f3202 d.span)
      (distinct d.effects)
  error_if (not (ends_with_return d.body)) Code.f3203 d.span
  set_env []
  set_used []
  check_block resources models d.body none
  used ← get_used
  each (λ e. report Code.f3001 d.span) (distinct (missing_effects used d.effects))
  each (λ t. report Code.f3002 d.span) (unknown_targets resources models (distinct d.effects))

abbrev pub one_of_each : Program → Bool
one_of_each p =
    nat_eq (length p.decisions) 1 && nat_eq (length p.resources) 1 && nat_eq (length p.models) 1

unfoldable pub check_program : Program → Check (Unit {0})
check_program p = do
  error_if (not (one_of_each p)) Code.f3200 start_of_file
  each check_resource p.resources
  each check_model p.models
  error_if (has_duplicate (top_level_names p)) Code.f3000 start_of_file
  each (check_decision (resource_names p) (model_names p)) p.decisions

abbrev pub new_checker : State
new_checker = record {
  diagnostics = [];
  env = [];
  used = [];
  snapshot_count = 0;
  branch_base = none;
  consumed_selections = [];
  allocated = 0;
}

-- The diagnostics of `CompileFailure`; the program is compiled where there are none.
unfoldable pub compile_program : Program → List Diagnostic
compile_program p = (check_program p new_checker).1.diagnostics
