-- ===== src/Compiler/Allowed.antt =====
-- What the checker of foresee/compiler.py is for, said of the syntax tree alone: where each
-- operation may stand, what it may name, and the effects that a body has on live data.
use project_f.Base.{String, Bool, true, false, none, List, [], ◌∷◌, ◌++◌, ◌==◌, ◌≡◌, ◌≢◌, contains}
use project_f.Model.{
  Expr, Args, no_args, arg, Statement, bind, give, check, measure, Block, done, stmt,
}
use project_f.Compiler.Signatures.{methods, plan_type}
use project_f.Compiler.State.{Effect, is_reserved}
use project_f.Compiler.Parts.{simulations_block, count_out_of_range}

-- The effects that a body has outside the database of a branch.
unfoldable mutual
  pub effects_of : Expr → List Effect
  effects_of (Expr.string value at) = []
  effects_of (Expr.int value at) = []
  effects_of (Expr.var name at) = []
  effects_of (Expr.snapshot resource at) = ("Snapshot", resource) ∷ []
  effects_of (Expr.propose model plan args at) = ("Infer", model) ∷ effects_of_args args
  effects_of (Expr.explore item plans base body at) =
      effects_of plans ++ (effects_of base ++ effects_of_block body)
  effects_of (Expr.simulate resource method args at) = effects_of_args args
  effects_of (Expr.call target method args at) = effects_of_args args
  effects_of (Expr.select trials metric at) = effects_of trials
  effects_of (Expr.commit selected resource at) = effects_of selected ++ ("Commit", resource) ∷ []

  pub effects_of_args : Args → List Effect
  effects_of_args no_args = []
  effects_of_args (arg e args) = effects_of e ++ effects_of_args args

  pub effects_of_statement : Statement → List Effect
  effects_of_statement (bind name annotation value at) = effects_of value
  effects_of_statement (give value at) = effects_of value
  effects_of_statement (check condition message at) = effects_of condition
  effects_of_statement (measure name type value at) = effects_of value

  pub effects_of_block : Block → List Effect
  effects_of_block done = []
  effects_of_block (stmt s rest) = effects_of_statement s ++ effects_of_block rest

-- `inside` tells a body of an exploration from the body of a decision.
module _ (resources models : List String) where
  unfoldable mutual
    pub Allowed : Bool → Expr → Type 0
    Allowed inside (Expr.string value at) = Unit
    Allowed inside (Expr.int value at) = Unit
    Allowed inside (Expr.var name at) = Unit
    Allowed inside (Expr.snapshot resource at) =
        (inside ≡ false) × (contains resources resource ≡ true)
    Allowed inside (Expr.propose model plan args at) =
        (inside ≡ false)
        × (contains models model ≡ true)
        × ((plan == plan_type) ≡ true)
        × (count_out_of_range args ≡ false)
        × AllowedArgs inside args
    Allowed inside (Expr.explore item plans base body at) =
        (inside ≡ false)
        × (simulations_block body ≡ 1)
        × (is_reserved resources models item ≡ false)
        × Allowed inside plans
        × Allowed inside base
        × AllowedBlock true body
    Allowed inside (Expr.simulate resource method args at) =
        (inside ≡ true)
        × ((method == "apply") ≡ true)
        × (contains resources resource ≡ true)
        × AllowedArgs inside args
    Allowed inside (Expr.call target method args at) =
        (methods method ≢ none) × (contains resources target ≡ true) × AllowedArgs inside args
    Allowed inside (Expr.select trials metric at) = (inside ≡ false) × Allowed inside trials
    Allowed inside (Expr.commit selected resource at) = (inside ≡ false) × Allowed inside selected

    pub AllowedArgs : Bool → Args → Type 0
    AllowedArgs inside no_args = Unit
    AllowedArgs inside (arg e args) = Allowed inside e × AllowedArgs inside args

    pub AllowedStatement : Bool → Statement → Type 0
    AllowedStatement inside (bind name annotation value at) =
        (is_reserved resources models name ≡ false) × Allowed inside value
    AllowedStatement inside (give value at) = (inside ≡ false) × Allowed inside value
    AllowedStatement inside (check condition message at) =
        (inside ≡ true) × Allowed inside condition
    AllowedStatement inside (measure name type value at) =
        (inside ≡ true) × ((type == "Int") ≡ true) × Allowed inside value

    pub AllowedBlock : Bool → Block → Type 0
    AllowedBlock inside done = Unit
    AllowedBlock inside (stmt s rest) = AllowedStatement inside s × AllowedBlock inside rest
