-- ===== src/Runtime/Runs.antt =====
-- A decision that runs on the demo rows, live and offline, and the theorems at concrete inputs.
use project_f.Base.{String, Bool, true, false, none, List, [], ◌∷◌, ◌≡◌, map}
use project_f.Json.{str, arr, cons, nil}
use project_f.Model.{Expr, no_args, arg, bind, give, check, measure, Block, done, stmt, Span}
use project_f.Catalog.Tests.{shop, digest, repair, repaired_outcome}
use project_f.Catalog.Snapshot.{Snapshot}
use project_f.Catalog.Target
use project_f.Catalog.Target.{applied, applied_patches, idle_at, row_fields, snapshot}
use project_f.Catalog.Commit
use project_f.Catalog.Commit.{Outcome, commit}
use project_f.Runtime.{Fault, select}
use project_f.Runtime.State
use project_f.Runtime.State.{Event, Log, State, Hooks, snap, Ended, value, fault, Payload}
use project_f.Runtime.Steps.{run_trials}
use project_f.Runtime.Eval.{exec_branch}
use project_f.Runtime.Live
use project_f.Runtime.Live.{World, Setting, plans, live}
use project_f.Runtime.Decision.{Report, nothing, new_runtime, run}
use project_f.Runtime.Offline
use project_f.Runtime.Offline.{Recorded, as_recorded, rerun}
use project_f.Runtime.Branch.{alone, run_trials_lem}

abbrev at : Span
at = record { start = 0; end = 0; line = 1; column = 1 }

abbrev plan_named : String → Expr
plan_named x = Expr.var x at

abbrev branch_body : Block
branch_body =
    stmt
      (bind "after" none (Expr.simulate "catalog" "apply" (arg (plan_named "plan") no_args) at) at)
      (stmt
        (check (Expr.call "catalog" "valid_unit_arithmetic" (arg (plan_named "after") no_args) at)
          "arithmetic" at)
        (stmt
          (measure "unresolved" "Count"
            (Expr.call "catalog" "unresolved_units" (arg (plan_named "after") no_args) at) at)
          done))

abbrev decision_body : Block
decision_body = stmt (bind "base" none (Expr.snapshot "catalog" at) at) (
    stmt
      (bind "plans" none
        (Expr.propose "planner" "Plan"
          (arg (plan_named "base") (arg (Expr.string "fix" at) (arg (Expr.int 2 at) no_args))) at)
        at)
      (stmt
        (bind "trials" none
          (Expr.explore "plan" (plan_named "plans") (plan_named "base") branch_body at) at)
        (stmt (bind "best" none (Expr.select (plan_named "trials") "unresolved" at) at)
          (stmt (give (Expr.commit (plan_named "best") "catalog" at) at) done))))

abbrev setting : Setting (Unit {0})
setting = record {
  stable_digest = digest;
  decimal = λ n. "2";
  new_id = λ n. "id";
  program_digest = "program";
  target_path = "catalog.db";
  fault_hook = λ stage. none;
  max_evidence_bytes = none;
  bytes = λ events entry. 0;
  propose = λ base prompt limit p. (plans (arr (cons repair nil)), p);
}

abbrev world : World (Unit {0})
world = record {
  connection = idle_at shop;
  journal = none;
  run_id = none;
  simulate_stale = false;
  provider = tt;
  issued = 0;
}

abbrev text_of_fault : Fault → String
text_of_fault e = "error"

abbrev live_run : Ended Report × Log (World (Unit {0}))
live_run =
    run (live setting) digest (λ n. "2") text_of_fault ("catalog" ∷ []) decision_body
      (record { events = []; world = world })

abbrev base : Snapshot
base = record { revision = 7; rows = map row_fields shop.rows; digest = "snapshot" }

abbrev payload : Payload
payload = record { plan = repair; base = base; metric = "unresolved"; score = 0 }

abbrev outcome : Outcome
outcome = record (repaired_outcome) { commit_id = "snapshot" }

abbrev offline_run : Ended Report × List Recorded
offline_run =
    rerun digest (λ n. "2") text_of_fault "program" ("catalog" ∷ []) decision_body
      (map as_recorded live_run.1.events)

abbrev report_in : Ended Report → Report
report_in (value r) = r
report_in (fault e) = record {
  exploration = [];
  selection = none;
  outcome = nothing;
  events = [];
  complete = false;
}

abbrev is_value : Ended Report → Bool
is_value (value r) = true
is_value (fault e) = false

abbrev before_trials : State (World (Unit {0}))
before_trials = new_runtime (record { events = []; world = world })

run_trials_lem_example :
    run_trials
      (exec_branch (live setting) digest ("catalog" ∷ []) branch_body)
      "plan"
      (snap base)
      (("repair", repair) ∷ ("broken", str "broken") ∷ [])
      before_trials
    ≡ (
      value (
          map
            (alone (live setting) digest ("catalog" ∷ []) before_trials branch_body "plan" base)
            (("repair", repair) ∷ ("broken", str "broken") ∷ [])),
      before_trials,
    )
run_trials_lem_example =
    run_trials_lem (live setting) digest ("catalog" ∷ []) branch_body "plan" base
      (("repair", repair) ∷ ("broken", str "broken") ∷ []) before_trials
