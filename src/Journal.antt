-- ===== src/Journal.antt =====
-- foresee/journal.py: the two tables of the journal, its methods as functions of them, and the
-- reconciliation, which reads targets and writes the journal alone. A stored payload is the value
-- that json.loads gives back; a base digest that is no text counts as unreadable evidence.
pub mod Stored
pub mod Known
pub mod Reconciled
pub mod Committed
mod Tests
use project_f.Base.{
  String, Bool, true, false, not, ◌&&◌, ◌||◌, Option, none, some, List, [], ◌∷◌, ◌++◌, ◌==◌,
  if◌then◌else◌,
}
use project_f.Base.Result.{Result, ok, err, value_error, key_error}
use project_f.Json.{Value, obj, str, lookup}
use project_f.Catalog.Request.{commit_identity, base_of, plan_of}
use project_f.Catalog.Plan.{name_of}
use project_f.Catalog.Target.{Status, Receipt}
use project_f.Journal.Stored.{StoredReceipt, StoredTarget, find_stored, receipt_of}

-- What `receipt_outcome` returns: the receipt, or why it is unresolved.
pub data Evidence : Type 0 where
  known : Receipt → Evidence
  unresolved : String → Evidence

pub data OperationState : Type 0 where
  prepared : OperationState
  settled : Status → OperationState
  unknown : OperationState

-- operations
pub record Operation : Type 0 where
  pub operation_id : String
  pub run_id : String
  pub target_path : String
  pub target_id : String
  pub program_digest : String
  pub payload : Value
  pub commit_id : String
  pub intent_digest : String
  pub state : OperationState
  pub outcome : Option Value

pub data RunState : Type 0 where
  started prepared completed reconciled unresolved : RunState

-- runs
pub record Run : Type 0 where
  pub run_id : String
  pub state : RunState
  pub outcome : Option Value

pub record Journal : Type 0 where
  pub path : String
  pub runs : List Run
  pub operations : List Operation

-- `Journal.start`; `run_id` is a fresh UUID.
unfoldable pub start : String → Journal → Journal
start run_id j = record j {
  runs = j.runs ++ record { run_id = run_id; state = RunState.started; outcome = none } ∷ [];
}

-- UPDATE runs SET state=? WHERE run_id=?
abbrev pub set_state : RunState → String → List Run → List Run
set_state state run_id [] = []
set_state state run_id (r ∷ rs) =
    (if r.run_id == run_id then record r { state = state } else r) ∷ set_state state run_id rs

abbrev pub text_of : Option Value → Option String
text_of none = none
text_of (some (str s)) = some s
text_of (some _) = none

abbrev pub has_plan : Value → Bool
has_plan (obj payload) = elim (lookup "plan" payload) [ none ↦ false | some plan ↦ true ]
has_plan _ = false

-- payload["base"]["digest"], when payload["plan"] is there too
abbrev pub digest_of : Value → Option String
digest_of payload =
    if has_plan payload
    then elim (base_of payload) [ none ↦ none | some base ↦ text_of (lookup "digest" base) ]
    else none

module _ (stable_digest : Value → String) where
  -- The row that `Journal.prepare` inserts.
  abbrev pub prepared_operation :
      String → String → String → String → String → Value → String → Operation
  prepared_operation operation_id run_id path target_id program payload before =
      let ids =
        commit_identity stable_digest before (plan_of payload) program (some operation_id) in
      record {
        operation_id = operation_id;
        run_id = run_id;
        target_path = path;
        target_id = target_id;
        program_digest = program;
        payload = payload;
        commit_id = ids.0;
        intent_digest = ids.1;
        state = OperationState.prepared;
        outcome = none;
      }

  -- `Journal.prepare`; `operation_id` is a fresh UUID, and the target has this path and id.
  unfoldable pub prepare :
      String → String → String → String → String → Value → Journal → Result Journal
  prepare operation_id run_id path target_id program payload j =
      if j.path == path
      then err (value_error "journal and target must be separate databases")
      else elim (digest_of payload) [
        | none ↦ err (key_error "payload")
        | some before ↦ ok (record j {
          runs = set_state RunState.prepared run_id j.runs;
          operations =
              j.operations
              ++ prepared_operation operation_id run_id path target_id program payload before ∷ [];
        })
      ]

  -- The tests on a receipt that compare it with the intent
  abbrev pub consistent : Operation → String → StoredReceipt → Bool
  consistent op before r = r.intent_digest == op.intent_digest && r.snapshot_digest == before

  -- The tests of its status and its revision
  abbrev pub evidence_in : Option Receipt → Evidence
  evidence_in (some r) = known r
  evidence_in none = unresolved "target receipt inconsistent with intent"

  -- What the target, opened to be read only, says of an operation.
  unfoldable pub target_evidence : Operation → String → Option StoredTarget → Evidence
  target_evidence op before none = unresolved "evidence unavailable"
  target_evidence op before (some t) =
      if not (t.target_id == op.target_id)
      then unresolved "target identity mismatch"
      else elim (find_stored op.commit_id t.receipts) [
        | none ↦ unresolved "no target receipt; no effect inferred or retried"
        | some s ↦
            if consistent op before s
            then evidence_in (receipt_of s)
            else unresolved "target receipt inconsistent with intent"
      ]

  -- `receipt_outcome`: `reader` reads the committed state of the database at a path.
  unfoldable pub receipt_outcome : (String → Option StoredTarget) → Operation → Evidence
  receipt_outcome reader op = elim (digest_of op.payload) [
    | none ↦ unresolved "evidence unavailable"
    | some before ↦
        let (commit_id, intent_digest) =
          commit_identity stable_digest before (plan_of op.payload) op.program_digest
            (some op.operation_id) in
        if commit_id == op.commit_id && intent_digest == op.intent_digest
        then target_evidence op before (reader op.target_path)
        else unresolved "journal intent identity mismatch"
  ]

abbrev pub state_of : Evidence → OperationState
state_of (known r) = OperationState.settled r.status
state_of (unresolved why) = OperationState.unknown

-- `Journal.record`: UPDATE operations SET state=?, outcome=? WHERE operation_id=?
unfoldable pub record_operation : String → OperationState → Value → List Operation → List Operation
record_operation id state outcome [] = []
record_operation id state outcome (op ∷ ops) =
    (if op.operation_id == id then record op { state = state; outcome = some outcome } else op)
    ∷ record_operation id state outcome ops

-- `Journal.complete`
unfoldable pub complete : String → Value → List Run → List Run
complete run_id outcome [] = []
complete run_id outcome (r ∷ rs) =
    (if r.run_id == run_id
      then record r { state = RunState.completed; outcome = some outcome }
      else r)
    ∷ complete run_id outcome rs

-- SELECT * FROM operations WHERE run_id=?
abbrev pub operations_of : String → List Operation → List Operation
operations_of run_id [] = []
operations_of run_id (op ∷ ops) =
    if op.run_id == run_id then op ∷ operations_of run_id ops else operations_of run_id ops

-- o["status"] != "unresolved"
abbrev pub is_known : Evidence → Bool
is_known (known r) = true
is_known (unresolved why) = false

abbrev pub all_known : List Evidence → Bool
all_known [] = true
all_known (e ∷ es) = is_known e && all_known es

abbrev pub is_empty {ℓ} : {A : Type ℓ} → List A → Bool
is_empty [] = true
is_empty (x ∷ xs) = false

abbrev is_completed : RunState → Bool
is_completed RunState.completed = true
is_completed _ = false

-- The state of a run after the evidence of its operations.
unfoldable pub next_state : RunState → List Evidence → RunState
next_state before outcomes =
    let resolved = not (is_empty outcomes) && all_known outcomes in
    if is_completed before && (resolved || is_empty outcomes)
    then RunState.completed
    else (if resolved then RunState.reconciled else RunState.unresolved)

pub record Report : Type 0 where
  pub run_id : String
  pub state : RunState
  pub outcomes : List Evidence

-- `as_json` makes the dict of an outcome.
module _ (stable_digest : Value → String) (as_json : Evidence → Value)
    (reader : String → Option StoredTarget) where
  abbrev pub evidence_of : List Operation → List Evidence
  evidence_of [] = []
  evidence_of (op ∷ ops) = receipt_outcome stable_digest reader op ∷ evidence_of ops

  abbrev pub record_all : List Operation → List Operation → List Operation
  record_all [] stored = stored
  record_all (op ∷ ops) stored = record_all ops (
      let e = receipt_outcome stable_digest reader op in
      record_operation op.operation_id (state_of e) (as_json e) stored)

  -- One turn of the loop over the runs.
  unfoldable pub reconcile_run : Run → Journal → Report × Journal
  reconcile_run run j =
      let ops = operations_of run.run_id j.operations in
      let state = next_state run.state (evidence_of ops) in
      (
        record { run_id = run.run_id; state = state; outcomes = evidence_of ops },
        record j {
          runs = set_state state run.run_id j.runs;
          operations = record_all ops j.operations;
        },
      )

  unfoldable pub reconcile_runs : List Run → Journal → List Report × Journal
  reconcile_runs [] j = ([], j)
  reconcile_runs (run ∷ runs) j =
      let (report, j') = reconcile_run run j in
      let (reports, j'') = reconcile_runs runs j' in (report ∷ reports, j'')

  abbrev pub matching : Option String → List Run → List Run
  matching none runs = runs
  matching (some id) [] = []
  matching (some id) (r ∷ rs) =
      if r.run_id == id then r ∷ matching (some id) rs else matching (some id) rs

  -- `reconcile`
  unfoldable pub reconcile : Option String → Journal → Result (List Report × Journal)
  reconcile run_id j =
      let runs = matching run_id j.runs in
      if is_empty runs
      then err (value_error "no matching journal runs")
      else ok (reconcile_runs runs j)
