-- ===== src/Compiler/Tests.antt =====
-- Tests of the checker on the programs of the repository's tests, and the witnesses of its theorems.
use project_f.Base.{String, none, List, [], ◌∷◌, map, ◌≡◌, refl, true, false}
use project_f.Model.{
  Span, Expr, Args, no_args, arg, Statement, bind, give, check, measure, Block, done, stmt,
  DecisionDecl, Program,
}
use project_f.Compiler.State.{
  Code, Effect, ◌>>=◌, report, error_if, make, use_effect, find_binding, bind_name, same_origin,
}
use project_f.Compiler.Signatures.{accepts, effect_target, methods}
use project_f.Compiler.Parts.{
  refuse_in_branch, simulations, check_var, consume, take_snapshot, enter_branch, check_call,
}
use project_f.Compiler.Checker.{infer_expr, infer_args, check_statement, check_block, check_branch}
use project_f.Compiler.Program.{
  check_decision, check_program, compile_program, start_of_file, resource_names, model_names,
  has_effect,
}
use project_f.Compiler.Allowed.{AllowedBlock, effects_of_block}
use project_f.Compiler.Accepts.Whole.{
  compile_program-AllowedBlock, compile_program-effects_of_block, compile_program-OnlyReturn,
  OnlyReturn,
}

abbrev at : Span
at = start_of_file

abbrev name : String → Expr
name x = Expr.var x at

abbrev args : List Expr → Args
args [] = no_args
args (e ∷ es) = arg e (args es)

abbrev block : List Statement → Block
block [] = done
block (s ∷ ss) = stmt s (block ss)

abbrev experiment : Block
experiment = block (
    bind "after" none (Expr.simulate "catalog" "apply" (args (name "plan" ∷ [])) at) at
    ∷ check
        (Expr.call "catalog" "source_fields_unchanged" (args (name "after" ∷ name "base" ∷ [])) at)
        "Source fields changed" at
    ∷ check (Expr.call "catalog" "valid_unit_arithmetic" (args (name "after" ∷ [])) at)
        "Unit price arithmetic is invalid" at
    ∷ measure "unresolved" "Int"
        (Expr.call "catalog" "unresolved_units" (args (name "after" ∷ [])) at) at
    ∷ [])

abbrev repair_body : Block
repair_body = block (
    bind "base" none (Expr.snapshot "catalog" at) at
    ∷ bind "plans" none
        (Expr.propose "planner" "Patch"
          (args (name "base" ∷ Expr.string "Fill only derived unit prices" at ∷ Expr.int 4 at ∷ []))
          at)
        at
    ∷ bind "trials" none (Expr.explore "plan" (name "plans") (name "base") experiment at) at
    ∷ bind "chosen" none (Expr.select (name "trials") "unresolved" at) at
    ∷ give (Expr.commit (name "chosen") "catalog" at) at
    ∷ [])

abbrev decision : List Effect → Block → DecisionDecl
decision effects body = record {
  name = "repair_catalog";
  effects = effects;
  body = body;
  span = at;
}

abbrev repair_effects : List Effect
repair_effects =
    ("Snapshot", "catalog")
    ∷ ("Infer", "planner")
    ∷ ("Explore", "catalog")
    ∷ ("Commit", "catalog")
    ∷ []

abbrev program : List Effect → Block → Program
program effects body = record {
  resources = record { name = "catalog"; type_name = "Catalog"; span = at } ∷ [];
  models = record { name = "planner"; type_name = "Planner"; span = at } ∷ [];
  decisions = decision effects body ∷ [];
}

-- examples/repair.fore
abbrev repair : Program
repair = program repair_effects repair_body

codes : Program → List Code
unfolding compile_program check_program check_decision infer_expr infer_args check_statement
    check_block check_branch refuse_in_branch simulations check_var consume take_snapshot
    enter_branch check_call ◌>>=◌ report error_if make use_effect find_binding bind_name same_origin
    accepts effect_target methods
codes p = map (λ d. d.code) (compile_program p)

repair-accepted : compile_program repair ≡ []
unfolding compile_program check_program check_decision infer_expr infer_args check_statement
    check_block check_branch refuse_in_branch simulations check_var consume take_snapshot
    enter_branch check_call ◌>>=◌ report error_if make use_effect find_binding bind_name same_origin
    accepts effect_target methods
repair-accepted = refl

codes_without_commit :
    codes (
      program
        (("Snapshot", "catalog") ∷ ("Infer", "planner") ∷ ("Explore", "catalog") ∷ [])
        repair_body)
    ≡ Code.f3001 ∷ []
unfolding codes
codes_without_commit = refl

codes_two_commits :
    codes (
      program repair_effects (
        block (
          bind "base" none (Expr.snapshot "catalog" at) at
          ∷ bind "plans" none
              (Expr.propose "planner" "Patch"
                (args (name "base" ∷ Expr.string "" at ∷ Expr.int 4 at ∷ []))
                at)
              at
          ∷ bind "trials" none (Expr.explore "plan" (name "plans") (name "base") experiment at) at
          ∷ bind "chosen" none (Expr.select (name "trials") "unresolved" at) at
          ∷ bind "alias" none (name "chosen") at
          ∷ bind "first" none (Expr.commit (name "chosen") "catalog" at) at
          ∷ give (Expr.commit (name "alias") "catalog" at) at
          ∷ [])))
    ≡ Code.f3400 ∷ []
unfolding codes
codes_two_commits = refl

compile_program-AllowedBlock_example :
    (d : DecisionDecl) × (repair.decisions ≡ d ∷ [])
    × AllowedBlock (resource_names repair) (model_names repair) false d.body
compile_program-AllowedBlock_example = compile_program-AllowedBlock repair repair-accepted

compile_program-effects_of_block_example :
    (d : DecisionDecl) × (repair.decisions ≡ d ∷ [])
    × ((e : Effect) → has_effect (effects_of_block d.body) e ≡ true → has_effect d.effects e ≡ true)
compile_program-effects_of_block_example = compile_program-effects_of_block repair repair-accepted

compile_program-OnlyReturn_example :
    (d : DecisionDecl) × (repair.decisions ≡ d ∷ []) × OnlyReturn d.body
compile_program-OnlyReturn_example = compile_program-OnlyReturn repair repair-accepted
