-- ===== src/Runtime/Eval.antt =====
-- foresee/runtime.py: `Runtime.exec_statement`, `Runtime.eval_expr` and `Runtime.run`, over the
-- operations that `OfflineRuntime` overrides.
use project_f.Base.{
  String, Bool, true, false, not, ◌&&◌, Option, none, some, List, [], ◌∷◌, ◌==◌, contains,
}
use project_f.Json.{Value}
use project_f.Model.{
  Expr, Args, no_args, arg, Statement, bind, give, check, measure, Block, done, stmt,
}
use project_f.Runtime.{select}
use project_f.Runtime.State.{
  Datum, text, number, truth, json, snap, committed, Run, ◌>>=◌, ◌>>◌, pure, lift, require, outside,
  get_env, Hooks, snapshot_read, plans_proposed,
}
use project_f.Runtime.Steps.{
  forbid_in_branch, read_name, bind_name, as_truth, as_number, note_check, note_metric,
  count_simulation, proposal_of, snapshots_of, call_method, is_method, simulate_on,
  explorable_plans, run_trials, keep_trials, trials_of, keep_selection, spend,
}

module _ {W : Type 0} (hooks : Hooks W) (stable_digest : Value → String)
    (resource_names : List String) where
  -- op == "snapshot"
  unfoldable pub take_snapshot : String → Run W Datum
  take_snapshot resource = do
    base ← outside (hooks.read_snapshot resource)
    outside (hooks.observe (snapshot_read resource base))
    pure (snap base)

  -- op == "propose", after its arguments
  unfoldable pub ask_plans : String → List Datum → Run W Datum
  ask_plans model args = do
    (base, (prompt, limit)) ← lift (proposal_of args)
    plans ← outside (hooks.propose_plans model base prompt limit)
    outside (hooks.observe (plans_proposed model base.digest prompt limit plans))
    pure (json plans)

  -- op == "simulate", after its arguments
  unfoldable pub simulate_plan : List Datum → Run W Datum
  simulate_plan args = do
    count_simulation
    env ← get_env
    lift (simulate_on stable_digest env.base args)

  -- op == "select", after the trials
  unfoldable pub select_trial : String → Datum → Run W Datum
  select_trial metric token = do
    trials ← trials_of token
    choice ← lift (select metric trials)
    keep_selection hooks resource_names metric choice

  -- op == "commit", after the selection
  unfoldable pub commit_selected : String → Datum → Run W Datum
  commit_selected resource token = do
    payload ← spend resource token
    outcome ← outside (hooks.apply_selection payload)
    pure (committed outcome)

  unfoldable mutual
    pub eval_expr : Bool → Expr → Run W Datum
    eval_expr branch (Expr.string s span) = pure (text s)
    eval_expr branch (Expr.int n span) = pure (number n)
    eval_expr branch (Expr.var x span) = read_name x
    eval_expr branch (Expr.snapshot resource span) =
        forbid_in_branch branch (Expr.snapshot resource span) >> take_snapshot resource
    eval_expr branch (Expr.propose model plan_type args span) = do
      forbid_in_branch branch (Expr.propose model plan_type args span)
      values ← eval_args branch args
      ask_plans model values
    eval_expr branch (Expr.simulate target method args span) = do
      require (branch && method == "apply") "simulate requires explore and the apply method"
      values ← eval_args branch args
      simulate_plan values
    eval_expr branch (Expr.call target method args span) = do
      require (is_method method && contains resource_names target) "unknown resource method"
      values ← eval_args branch args
      lift (call_method method (snapshots_of values))
    eval_expr branch (Expr.explore item plans base body span) = do
      forbid_in_branch branch (Expr.explore item plans base body span)
      candidates ← eval_expr branch plans
      start ← eval_expr branch base
      found ← explorable_plans candidates
      trials ← run_trials (exec_branch body) item start found
      keep_trials hooks trials
    eval_expr branch (Expr.select trials metric span) = do
      forbid_in_branch branch (Expr.select trials metric span)
      token ← eval_expr branch trials
      select_trial metric token
    eval_expr branch (Expr.commit choice resource span) = do
      forbid_in_branch branch (Expr.commit choice resource span)
      token ← eval_expr branch choice
      commit_selected resource token

    pub eval_args : Bool → Args → Run W (List Datum)
    eval_args branch no_args = pure []
    eval_args branch (arg e args) = do
      v ← eval_expr branch e
      vs ← eval_args branch args
      pure (v ∷ vs)

    pub exec_statement : Bool → Statement → Run W Datum
    exec_statement branch (bind x annotation e span) = do
      v ← eval_expr branch e
      bind_name x v
      pure v
    exec_statement branch (give e span) = do
      require (not branch) "return is forbidden inside explore"
      eval_expr branch e
    exec_statement branch (check e message span) = do
      require branch "check requires exploration"
      v ← eval_expr branch e
      passed ← lift (as_truth v)
      note_check passed message
      pure (truth passed)
    exec_statement branch (measure x unit e span) = do
      require branch "measure requires exploration"
      v ← eval_expr branch e
      n ← lift (as_number v)
      note_metric x n
      pure (number n)

    -- for statement in expr["body"]
    pub exec_branch : Block → Run W (Unit {0})
    exec_branch done = pure tt
    exec_branch (stmt s block) = do v ← exec_statement true s; exec_branch block

  -- The loop of `Runtime.run`: the value of a return, or none at the end of the body.
  unfoldable pub exec_body : Block → Run W (Option Datum)
  exec_body done = pure none
  exec_body (stmt (give e span) block) = do v ← exec_statement false (give e span); pure (some v)
  exec_body (stmt s block) = do v ← exec_statement false s; exec_body block
