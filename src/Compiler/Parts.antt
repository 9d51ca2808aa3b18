-- ===== src/Compiler/Parts.antt =====
-- foresee/compiler.py: the tests and steps of `Checker` that look at no subexpression.
use project_f.Base.{
  ℕ, suc, ◌+◌, String, Bool, true, false, not, ◌&&◌, ◌||◌, Option, none, some, List, [], ◌∷◌, ◌++◌,
  ◌==◌, nat_eq, leb, length, if◌then◌else◌,
}
use project_f.Model.{
  Span, Binding, Kind, Expr, Args, no_args, arg, Statement, bind, give, check, measure, Block, done,
  stmt, Annotation,
}
use project_f.Compiler.Signatures.{kind_eq, Want, accepts}
use project_f.Compiler.State.{
  Code, Check, pure, ◌>>=◌, ◌>>◌, report, error_if, make, find_binding, bind_name, in_env, member,
  text_eq?, same_origin,
}

-- kind in BRANCH_FORBIDDEN, and the code of the diagnostic
abbrev pub forbidden : Expr → Option (Code × Span)
forbidden (Expr.snapshot r at) = some (Code.f3207, at)
forbidden (Expr.propose m t args at) = some (Code.f3207, at)
forbidden (Expr.explore item plans base body at) = some (Code.f3207, at)
forbidden (Expr.select trials metric at) = some (Code.f3207, at)
forbidden (Expr.commit selected r at) = some (Code.f3102, at)
forbidden _ = none

abbrev pub is_branch : Option String → Bool
is_branch none = false
is_branch (some _) = true

unfoldable pub refuse_in_branch : Option String → Expr → Check (Unit {0})
refuse_in_branch none e = pure tt
refuse_in_branch (some _) e = elim (forbidden e) [
  | none ↦ pure tt
  | some (code, at) ↦ report code at
]

-- The simulations that stand anywhere in a body.
unfoldable mutual
  pub simulations : Expr → ℕ
  simulations (Expr.simulate r method args at) = suc (simulations_args args)
  simulations (Expr.propose m t args at) = simulations_args args
  simulations (Expr.explore item plans base body at) =
      simulations plans + (simulations base + simulations_block body)
  simulations (Expr.call target method args at) = simulations_args args
  simulations (Expr.select trials metric at) = simulations trials
  simulations (Expr.commit selected r at) = simulations selected
  simulations _ = 0

  pub simulations_args : Args → ℕ
  simulations_args no_args = 0
  simulations_args (arg e args) = simulations e + simulations_args args

  pub simulations_statement : Statement → ℕ
  simulations_statement (bind name annotation value at) = simulations value
  simulations_statement (give value at) = simulations value
  simulations_statement (check condition message at) = simulations condition
  simulations_statement (measure name type value at) = simulations value

  pub simulations_block : Block → ℕ
  simulations_block done = 0
  simulations_block (stmt s rest) = simulations_statement s + simulations_block rest

-- any(not accepts(want, got.kind) for want, got in zip(expected, args))
abbrev pub all_accepted : List Want → List Binding → Bool
all_accepted (want ∷ wants) (got ∷ gots) = accepts want got.kind && all_accepted wants gots
all_accepted _ _ = true

abbrev pub arguments_fit : List Want → List Binding → Bool
arguments_fit wants gots = nat_eq (length gots) (length wants) && all_accepted wants gots

-- len(args) == 3 and (args[2].kind != "int" or not 1 <= args[2].data["value"] <= 4)
abbrev pub count_out_of_range : Args → Bool
count_out_of_range (arg a (arg b (arg (Expr.int n at) no_args))) = not (leb 1 n && leb n 4)
count_out_of_range (arg a (arg b (arg _ no_args))) = true
count_out_of_range _ = false

abbrev pub annotated_kind : String → Option Kind
annotated_kind name =
    if name == "Int"
    then some Kind.int
    else if name == "String"
    then some Kind.string
    else if name == "Bool"
    then some Kind.bool
    else if name == "Snapshot"
    then some Kind.snapshot
    else if name == "Plan"
    then some Kind.plan
    else if name == "Plans"
    then some Kind.plans
    else if name == "Simulated"
    then some Kind.simulated
    else if name == "Trials"
    then some Kind.trials
    else if name == "Selected"
    then some Kind.selected
    else if name == "DecisionResult"
    then some Kind.outcome
    else none

-- Kinds that belong to no resource in an annotation.
abbrev pub is_plain : Kind → Bool
is_plain Kind.int = true
is_plain Kind.string = true
is_plain Kind.bool = true
is_plain Kind.outcome = true
is_plain _ = false

abbrev pub annotation_fits : Annotation → Binding → Bool
annotation_fits annotation inferred = elim (annotated_kind annotation.name) [
  | none ↦ false
  | some expected ↦
      kind_eq expected inferred.kind
      && text_eq? annotation.resource (if is_plain expected then none else inferred.resource)
]

abbrev pub check_annotation : Option Annotation → Binding → Span → Check (Unit {0})
check_annotation none inferred at = pure tt
check_annotation (some annotation) inferred at =
    error_if (not (annotation_fits annotation inferred)) Code.f3300 at

-- if self.branch_base: self.same_origin(arg, self.branch_base, expr.span)
abbrev pub base_origin : Binding → Span → Check (Unit {0})
base_origin b at s = elim s.branch_base [ none ↦ (tt, s) | some base ↦ same_origin b base at s ]

-- The loop of a resource method over its arguments.
abbrev pub method_origins : String → Option Binding → List Binding → Span → Check (Unit {0})
method_origins target first [] at = pure tt
method_origins target first (b ∷ bs) at =
    let rest = method_origins target (elim first [ none ↦ some b | some f ↦ some f ]) bs at in
    do
      error_if (not (text_eq? b.resource (some target))) Code.f3301 at
      same_origin b (elim first [ none ↦ b | some f ↦ f ]) at
      base_origin b at
      rest

abbrev pub first_binding : List Binding → Check Binding
first_binding [] = make Kind.error none [] none
first_binding (b ∷ bs) = pure b

-- The resource of an exploration: `<error>` where its plans or its base do not fit.
abbrev pub explorable : Binding → Binding → Bool
explorable plans base =
    kind_eq plans.kind Kind.plans && kind_eq base.kind Kind.snapshot && is_branch base.resource

abbrev pub explored : Binding → Binding → String
explored plans base =
    if explorable plans base
    then elim base.resource [ none ↦ "<error>" | some r ↦ r ]
    else "<error>"

abbrev pub get_env : Check (List (String × Binding))
get_env s = (s.env, s)

abbrev pub set_env : List (String × Binding) → Check (Unit {0})
set_env env s = (tt, record s { env = env })

abbrev pub get_base : Check (Option Binding)
get_base s = (s.branch_base, s)

abbrev pub set_base : Option Binding → Check (Unit {0})
set_base base s = (tt, record s { branch_base = base })

unfoldable pub check_var : String → Span → Check Binding
check_var name at s = elim (find_binding name s.env) [
  | none ↦ (report Code.f3004 at >> make Kind.error none [] none) s
  | some b ↦
      (error_if (kind_eq b.kind Kind.selected && member b.identity s.consumed_selections) Code.f3400
            at
          >> pure b)
        s
]

-- self.consumed_selections.add(id(selected))
unfoldable pub consume : Binding → Check (Unit {0})
consume b s =
    if kind_eq b.kind Kind.selected
    then (tt, record s { consumed_selections = s.consumed_selections ++ b.identity ∷ [] })
    else (tt, s)

unfoldable pub take_snapshot : String → Check Binding
take_snapshot resource s =
    make Kind.snapshot (some resource) [] (some (s.snapshot_count + 1))
      (record s { snapshot_count = s.snapshot_count + 1 })

-- What an exploration does before its body: the plan of the branch is bound in a copy of the
-- names, and the base of the branch is noted.
unfoldable pub enter_branch : String → String → Binding → Bool → Span → Check (Unit {0})
enter_branch item resource base reserved at = do
  env ← get_env
  error_if (in_env item env || reserved) Code.f3204 at
  plan ← make Kind.plan (some resource) [] base.lineage
  set_env (bind_name item plan env)
  set_base (some base)

-- The simulation's argument belongs to the snapshot that the branch explores.
abbrev pub simulated_origin : List Binding → Option Binding → Span → Check (Unit {0})
simulated_origin (b ∷ bs) (some base) at = same_origin b base at
simulated_origin _ _ at = pure tt

-- `signature` is METHODS.get(method), and `args` checks the arguments.
unfoldable pub check_call :
    Option (List Want × Kind) → Bool → Check (List Binding) → String → Span → Check Binding
check_call (some (wants, result)) true args target at = do
  gots ← args
  error_if (not (arguments_fit wants gots)) Code.f3206 at
  method_origins target none gots at
  make result none [] none
check_call _ _ args target at = report Code.f3210 at >> make Kind.error none [] none
