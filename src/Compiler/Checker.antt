-- ===== src/Compiler/Checker.antt =====
-- foresee/compiler.py: `Checker.check_statement`, `Checker.infer_expr` and `Checker.arguments`, on
-- the state of `State.antt`. `branch` is `branch_resource`.
use project_f.Base.{
  ℕ, String, Bool, true, not, ◌&&◌, ◌||◌, Option, none, some, List, [], ◌∷◌, ◌++◌, ◌==◌, nat_eq,
  contains,
}
use project_f.Model.{
  Binding, Kind, Expr, Args, no_args, arg, Statement, bind, give, check, measure, Block, done, stmt,
}
use project_f.Compiler.Signatures.{kind_eq, methods, propose_args, simulate_args, plan_type}
use project_f.Compiler.State.{
  Code, Check, pure, ◌>>=◌, ◌>>◌, error_if, make, use_effect, bind_name, in_env, text_eq?,
  same_origin, is_reserved,
}
use project_f.Compiler.Parts.{
  is_branch, refuse_in_branch, simulations_block, arguments_fit, count_out_of_range,
  check_annotation, check_call, first_binding, explorable, explored, get_env, set_env, get_base,
  set_base, check_var, simulated_origin, consume, take_snapshot, enter_branch,
}

abbrev pub same_resource : Option String → String → Bool
same_resource none r = true
same_resource (some branch) r = r == branch

abbrev pub lineage_of : Option Binding → Option ℕ
lineage_of none = none
lineage_of (some b) = b.lineage

module _ (resources models : List String) where
  unfoldable mutual
    -- `check_expr` stores what this infers in a table that only the lowering reads.
    pub infer_expr : Expr → Option String → Check Binding
    infer_expr (Expr.string value at) branch = make Kind.string none [] none
    infer_expr (Expr.int value at) branch = make Kind.int none [] none
    infer_expr (Expr.var name at) branch = check_var name at
    infer_expr (Expr.snapshot resource at) branch = do
      refuse_in_branch branch (Expr.snapshot resource at)
      error_if (not (contains resources resource)) Code.f3005 at
      use_effect "Snapshot" resource
      take_snapshot resource
    infer_expr (Expr.propose model plan args at) branch = do
      refuse_in_branch branch (Expr.propose model plan args at)
      error_if (not (contains models model)) Code.f3006 at
      use_effect "Infer" model
      gots ← infer_args args branch
      error_if (not (arguments_fit propose_args gots)) Code.f3206 at
      error_if (not (plan == plan_type)) Code.f3208 at
      error_if (count_out_of_range args) Code.f3208 at
      base ← first_binding gots
      make Kind.plans base.resource [] base.lineage
    infer_expr (Expr.explore item plans base body at) branch = do
      refuse_in_branch branch (Expr.explore item plans base body at)
      error_if (not (nat_eq (simulations_block body) 1)) Code.f3401 at
      plans' ← infer_expr plans branch
      base' ← infer_expr base branch
      error_if (not (explorable plans' base')) Code.f3101 at
      use_effect "Explore" (explored plans' base')
      same_origin plans' base' at
      outer ← get_env
      previous ← get_base
      enter_branch item (explored plans' base') base' (is_reserved resources models item) at
      metrics ← check_branch body (explored plans' base') []
      set_base previous
      set_env outer
      make Kind.trials (some (explored plans' base')) metrics base'.lineage
    infer_expr (Expr.simulate resource method args at) branch = do
      error_if (not (is_branch branch)) Code.f3103 at
      error_if (not (same_resource branch resource)) Code.f3104 at
      error_if (not (method == "apply") || not (contains resources resource)) Code.f3210 at
      gots ← infer_args args branch
      error_if (not (arguments_fit simulate_args gots)) Code.f3206 at
      base ← get_base
      simulated_origin gots base at
      make Kind.simulated (some resource) [] (lineage_of base)
    infer_expr (Expr.call target method args at) branch =
        check_call (methods method) (contains resources target) (infer_args args branch) target at
    infer_expr (Expr.select trials metric at) branch = do
      refuse_in_branch branch (Expr.select trials metric at)
      found ← infer_expr trials branch
      error_if (not (kind_eq found.kind Kind.trials)) Code.f3105 at
      error_if (kind_eq found.kind Kind.trials && not (contains found.metric_names metric))
          Code.f3106 at
      make Kind.selected found.resource [] found.lineage
    infer_expr (Expr.commit selected resource at) branch = do
      refuse_in_branch branch (Expr.commit selected resource at)
      error_if (is_branch branch) Code.f3102 at
      chosen ← infer_expr selected branch
      consume chosen
      error_if
          (not (kind_eq chosen.kind Kind.selected)
            || not (text_eq? chosen.resource (some resource)))
          Code.f3107 at
      use_effect "Commit" resource
      make Kind.outcome (some resource) [] chosen.lineage

    pub infer_args : Args → Option String → Check (List Binding)
    infer_args no_args branch = pure []
    infer_args (arg e args) branch = do
      got ← infer_expr e branch
      gots ← infer_args args branch
      pure (got ∷ gots)

    pub check_statement : Statement → Option String → Check (Unit {0})
    check_statement (bind name annotation value at) branch = do
      error_if (is_reserved resources models name) Code.f3204 at
      env ← get_env
      error_if (in_env name env) Code.f3003 at
      inferred ← infer_expr value branch
      env' ← get_env
      set_env (bind_name name inferred env')
      check_annotation annotation inferred at
    check_statement (give value at) branch = do
      result ← infer_expr value branch
      error_if (is_branch branch || not (kind_eq result.kind Kind.outcome)) Code.f3203 at
    check_statement (check condition message at) branch = do
      error_if (not (is_branch branch)) Code.f3100 at
      result ← infer_expr condition branch
      error_if (not (kind_eq result.kind Kind.bool)) Code.f3205 at
    check_statement (measure name type value at) branch = do
      error_if (not (is_branch branch)) Code.f3100 at
      result ← infer_expr value branch
      error_if (not (kind_eq result.kind Kind.int) || not (type == "Int")) Code.f3205 at

    -- The body of a decision.
    pub check_block : Block → Option String → Check (Unit {0})
    check_block done branch = pure tt
    check_block (stmt s rest) branch = do check_statement s branch; check_block rest branch

    -- The body of an exploration: the names of its metrics, in order.
    pub check_branch : Block → String → List String → Check (List String)
    check_branch done resource metrics = pure metrics
    check_branch (stmt (measure name type value at) rest) resource metrics = do
      check_statement (measure name type value at) (some resource)
      error_if (contains metrics name) Code.f3209 at
      check_branch rest resource (metrics ++ name ∷ [])
    check_branch (stmt s rest) resource metrics = do
      check_statement s (some resource)
      check_branch rest resource metrics
