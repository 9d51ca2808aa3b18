-- ===== src/Runtime/Logic.antt =====
-- Relations between two runtimes that the evaluation keeps: the rules that one has to have, and
-- that they are enough for every decision.
use mathlib.Core.Path.{subst}
use project_f.Base.{
  ℕ, String, ◌≡◌, sym, Bool, true, false, not, Option, none, some, List, [], ◌∷◌, refl,
}
use project_f.Base.Result.{Result, ok, err, runtime_error}
use project_f.Json.{Value}
use project_f.Model.{
  Expr, Args, no_args, arg, Statement, bind, give, check, measure, Block, done, stmt,
}
use project_f.Runtime.{Trial, Fault, StopStatus, stop, raised}
use project_f.Runtime.State.{
  Datum, Env, Run, ◌>>=◌, pure, raise, lift, or_stop, require, get_env, set_env, catch, Hooks,
}
use project_f.Runtime.Steps.{
  forbid_in_branch, is_forbidden, read_name, bind_name, note_check, note_metric, count_simulation,
  explorable_plans, require_simulation, close_trial, run_trial, run_trials, keep_trials,
}
use project_f.Runtime.Eval.{
  take_snapshot, ask_plans, simulate_plan, select_trial, commit_selected, eval_expr, eval_args,
  exec_statement, exec_branch, exec_body,
}

-- The Boolean is that of `branch`.
abbrev pub Relation : Type 0 → Type 0 → Type 1
Relation W V = (A : Type 0) → Bool → Run W A → Run V A → Type 0

-- Closed under what the interpreter is built of.
pub record Logic {W V : Type 0} (R : Relation W V) : Type 1 where
  pub of_pure : {A : Type 0} (b : Bool) (a : A) → R A b (pure a) (pure a)
  pub of_raise : {A : Type 0} (b : Bool) (e : Fault) → R A b (raise e) (raise e)
  pub of_get : (b : Bool) → R Env b get_env get_env
  pub of_set : (b : Bool) (env : Env) → R (Unit {0}) b (set_env env) (set_env env)
  pub of_catch :
      (b : Bool) (m : Run W (Unit {0})) (n : Run V (Unit {0}))
      → R (Unit {0}) true m n
      → R (Option Fault) b (catch m) (catch n)
  pub of_bind :
      {A B : Type 0} (b : Bool) (m : Run W A) (n : Run V A) (f : A → Run W B) (g : A → Run V B)
      → R A b m n
      → ((a : A) → R B b (f a) (g a))
      → R B b (m >>= f) (n >>= g)

-- Closed under the operations that a branch may not use.
pub record Operations {W V : Type 0} (R : Relation W V) (h : Hooks W) (k : Hooks V)
    (stable_digest : Value → String) (resource_names : List String) : Type 0 where
  pub of_snapshot :
      (resource : String)
      → R Datum false
          (take_snapshot h stable_digest resource_names resource)
          (take_snapshot k stable_digest resource_names resource)
  pub of_propose :
      (model : String) (args : List Datum)
      → R Datum false
          (ask_plans h stable_digest resource_names model args)
          (ask_plans k stable_digest resource_names model args)
  pub of_explore :
      (trials : List Trial) → R Datum false (keep_trials h trials) (keep_trials k trials)
  pub of_select :
      (metric : String) (token : Datum)
      → R Datum false
          (select_trial h stable_digest resource_names metric token)
          (select_trial k stable_digest resource_names metric token)
  pub of_commit :
      (resource : String) (token : Datum)
      → R Datum false
          (commit_selected h stable_digest resource_names resource token)
          (commit_selected k stable_digest resource_names resource token)

module _ {W V : Type 0} {R : Relation W V} (l : Logic R) where
  join :
      {A B : Type 0} (b : Bool) {m : Run W A} {n : Run V A} {f : A → Run W B} {g : A → Run V B}
      → R A b m n
      → ((a : A) → R B b (f a) (g a))
      → R B b (m >>= f) (n >>= g)
  join b r h = l.of_bind b _ _ _ _ r h

  pub of_lift : {A : Type 0} (b : Bool) (r : Result A) → R A b (lift r) (lift r)
  unfolding lift
  of_lift b (ok a) = l.of_pure b a
  of_lift b (err e) = l.of_raise b (raised e)

  of_require : (b test : Bool) (why : String) → R (Unit {0}) b (require test why) (require test why)
  unfolding require
  of_require b true why = l.of_pure b tt
  of_require b false why = l.of_raise b (raised (runtime_error why))

  refused :
      {A : Type 0} (test : Bool) (why : String) (m : Run W A) (n : Run V A)
      → test ≡ true
      → R A true (require (not test) why >>= λ _. m) (require (not test) why >>= λ _. n)
  unfolding require ◌>>=◌ raise
  refused true why m n y = l.of_raise true (raised (runtime_error why))
  refused false why m n y = cc

  -- What a branch may not do is related if it is related outside of one.
  of_forbidden :
      {A : Type 0} (b : Bool) (e : Expr) (m : Run W A) (n : Run V A)
      → is_forbidden e ≡ true
      → (b ≡ false → R A b m n)
      → R A b (forbid_in_branch b e >>= λ _. m) (forbid_in_branch b e >>= λ _. n)
  unfolding forbid_in_branch
  of_forbidden true e m n y h = refused (is_forbidden e) _ m n y
  of_forbidden false e m n y h = join false (of_require false true _) (λ _. h refl)

  of_read_name : (b : Bool) (x : String) → R Datum b (read_name x) (read_name x)
  unfolding read_name
  of_read_name b x = join b (l.of_get b) (λ env. of_lift b _)

  of_bind_name :
      (b : Bool) (x : String) (v : Datum) → R (Unit {0}) b (bind_name x v) (bind_name x v)
  unfolding bind_name
  of_bind_name b x v = join b (l.of_get b) (λ env. l.of_set b _)

  of_note_check :
      (b passed : Bool) (message : String)
      → R (Unit {0}) b (note_check passed message) (note_check passed message)
  unfolding note_check
  of_note_check b passed message = join b (l.of_get b) (λ env. l.of_set b _)

  of_note_metric :
      (b : Bool) (x : String) (n : ℕ) → R (Unit {0}) b (note_metric x n) (note_metric x n)
  unfolding note_metric
  of_note_metric b x n = join b (l.of_get b) (λ env. l.of_set b _)

  of_count_simulation : (b : Bool) → R (Unit {0}) b count_simulation count_simulation
  unfolding count_simulation
  of_count_simulation b = join b (l.of_get b) (λ env. join b (l.of_set b _) (λ _. of_require b _ _))

  of_or_stop :
      {A : Type 0} (b : Bool) (o : Option A) (status : StopStatus)
      → R A b (or_stop o status) (or_stop o status)
  unfolding or_stop
  of_or_stop b none status = l.of_raise b (stop status)
  of_or_stop b (some a) status = l.of_pure b a

  pub of_require_simulation : (b : Bool) → R (Unit {0}) b require_simulation require_simulation
  unfolding require_simulation
  of_require_simulation b = join b (l.of_get b) (λ env. of_require b _ _)

  of_close_trial :
      (b : Bool) (outer : Env) (base : Datum) (plan : String × Value) (error : Option Fault)
      → R Trial b (close_trial outer base plan error) (close_trial outer base plan error)
  unfolding close_trial
  of_close_trial b outer base plan error =
      join b (l.of_get b)
        λ local. join b (l.of_set b _) λ _. join b (of_lift b _) λ start. l.of_pure b _

  module _ {m : Run W (Unit {0})} {n : Run V (Unit {0})} (body : R (Unit {0}) true m n)
      (item : String) (base : Datum) where
    of_trial :
        (b : Bool) (plan : String × Value)
        → R Trial b (run_trial m item base plan) (run_trial n item base plan)
    unfolding run_trial
    of_trial b plan = join b (l.of_get b) λ outer. join b (l.of_set b _) λ _.
        join b (l.of_catch b _ _ (join true body (λ _. of_require_simulation true)))
          λ error. of_close_trial b outer base plan error

    of_trials :
        (b : Bool) (plans : List (String × Value))
        → R (List Trial) b (run_trials m item base plans) (run_trials n item base plans)
    unfolding run_trials
    of_trials b [] = l.of_pure b []
    of_trials b (plan ∷ plans) =
        join b (of_trial b plan) λ t. join b (of_trials b plans) λ ts. l.of_pure b (t ∷ ts)

-- A relation closed under both keeps to what the two runtimes evaluate.
module _ {W V : Type 0} {R : Relation W V} (l : Logic R) (h : Hooks W) (k : Hooks V)
    (stable_digest : Value → String) (resource_names : List String)
    (o : Operations R h k stable_digest resource_names) where
  abbrev eval_h : Bool → Expr → Run W Datum
  eval_h = eval_expr h stable_digest resource_names

  abbrev eval_k : Bool → Expr → Run V Datum
  eval_k = eval_expr k stable_digest resource_names

  of_simulate_plan :
      (b : Bool) (args : List Datum)
      → R Datum b
          (simulate_plan h stable_digest resource_names args)
          (simulate_plan k stable_digest resource_names args)
  unfolding simulate_plan
  of_simulate_plan b args =
      join l b (of_count_simulation l b) λ _. join l b (l.of_get b) λ env. of_lift l b _

  outside_branch :
      {A : Type 0} {b : Bool} {m : Run W A} {n : Run V A} → b ≡ false → R A false m n → R A b m n
  outside_branch {m} {n} e r = subst (λ b. R _ b m n) (sym e) r

  mutual
    unfolding eval_expr explorable_plans

    eval_expr_related : (b : Bool) (e : Expr) → R Datum b (eval_h b e) (eval_k b e)
    eval_expr_related b (Expr.string s at) = l.of_pure b _
    eval_expr_related b (Expr.int n at) = l.of_pure b _
    eval_expr_related b (Expr.var x at) = of_read_name l b x
    eval_expr_related b (Expr.snapshot resource at) =
        of_forbidden l b (Expr.snapshot resource at) _ _ refl
          λ e. outside_branch e (o.of_snapshot resource)
    eval_expr_related b (Expr.propose model plan_type args at) =
        of_forbidden l b (Expr.propose model plan_type args at) _ _ refl
          λ e. join l b (eval_args_related b args) λ vs. outside_branch e (o.of_propose model vs)
    eval_expr_related b (Expr.simulate target method args at) =
        join l b (of_require l b _ _) λ _. join l b (eval_args_related b args) (of_simulate_plan b)
    eval_expr_related b (Expr.call target method args at) =
        join l b (of_require l b _ _)
          λ _. join l b (eval_args_related b args) λ values. of_lift l b _
    eval_expr_related b (Expr.explore item plans base body at) =
        of_forbidden l b (Expr.explore item plans base body at) _ _ refl λ e.
          join l b (eval_expr_related b plans) λ candidates.
            join l b (eval_expr_related b base) λ start. join l b (of_or_stop l b _ _) λ found.
              join l b (of_trials l (exec_branch_related body) item start b found)
                λ ts. outside_branch e (o.of_explore ts)
    eval_expr_related b (Expr.select trials metric at) =
        of_forbidden l b (Expr.select trials metric at) _ _ refl
          λ e. join l b (eval_expr_related b trials) λ v. outside_branch e (o.of_select metric v)
    eval_expr_related b (Expr.commit choice resource at) =
        of_forbidden l b (Expr.commit choice resource at) _ _ refl
          λ e. join l b (eval_expr_related b choice) λ v. outside_branch e (o.of_commit resource v)

    eval_args_related :
        (b : Bool) (args : Args)
        → R
            (List Datum)
            b
            (eval_args h stable_digest resource_names b args)
            (eval_args k stable_digest resource_names b args)
    eval_args_related b no_args = l.of_pure b []
    eval_args_related b (arg e args) =
        join l b (eval_expr_related b e)
          λ v. join l b (eval_args_related b args) λ vs. l.of_pure b (v ∷ vs)

    exec_statement_related :
        (b : Bool) (s : Statement)
        → R Datum b
            (exec_statement h stable_digest resource_names b s)
            (exec_statement k stable_digest resource_names b s)
    exec_statement_related b (bind x annotation e at) =
        join l b (eval_expr_related b e) λ v. join l b (of_bind_name l b x v) λ _. l.of_pure b v
    exec_statement_related b (give e at) = join l b (of_require l b _ _) λ _. eval_expr_related b e
    exec_statement_related b (check e message at) = join l b (of_require l b _ _) λ _.
        join l b (eval_expr_related b e) λ v.
          join l b (of_lift l b _)
            λ passed. join l b (of_note_check l b passed message) λ _. l.of_pure b _
    exec_statement_related b (measure x unit e at) = join l b (of_require l b _ _) λ _.
        join l b (eval_expr_related b e)
          λ v. join l b (of_lift l b _) λ n. join l b (of_note_metric l b x n) λ _. l.of_pure b _

    pub exec_branch_related :
        (block : Block)
        → R
            (Unit {0})
            true
            (exec_branch h stable_digest resource_names block)
            (exec_branch k stable_digest resource_names block)
    exec_branch_related done = l.of_pure true tt
    exec_branch_related (stmt s block) =
        join l true (exec_statement_related true s) λ v. exec_branch_related block

  pub exec_body_related :
      (block : Block)
      → R
          (Option Datum)
          false
          (exec_body h stable_digest resource_names block)
          (exec_body k stable_digest resource_names block)
  unfolding exec_body
  exec_body_related done = l.of_pure false none
  exec_body_related (stmt (give e at) block) =
      join l false (exec_statement_related false (give e at)) λ v. l.of_pure false (some v)
  exec_body_related (stmt (bind x a e at) block) =
      join l false (exec_statement_related false (bind x a e at)) λ v. exec_body_related block
  exec_body_related (stmt (check e message at) block) =
      join l false (exec_statement_related false (check e message at)) λ v. exec_body_related block
  exec_body_related (stmt (measure x unit e at) block) =
      join l false (exec_statement_related false (measure x unit e at)) λ v. exec_body_related block
