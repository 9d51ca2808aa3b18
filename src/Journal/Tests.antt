-- ===== src/Journal/Tests.antt =====
-- The journal of one commit of the demo plan, and the theorems at concrete inputs.
use project_f.Base.{
  String, Option, none, some, List, [], ◌∷◌, ◌≡◌, refl, inl, map, ◌==◌, if◌then◌else◌,
}
use project_f.Json.{Value, null}
use project_f.Catalog.Request.{commit_identity}
use project_f.Catalog.Target.{Receipt, find_receipt, idle_at}
use project_f.Catalog.Commit.Atomic.{told}
use project_f.Catalog.Tests.{
  digest, shop, repair, selection, repaired, repaired_outcome, repair_receipt, repair-IsPlan,
  shop-IsOrdered, passes, run, run_applied,
}
use project_f.Journal.{
  Evidence, known, prepared_operation, receipt_outcome, target_evidence, Operation, OperationState,
  RunState, Journal, reconcile, reconcile_runs, reconcile_run, next_state, record_operation, Report,
}
use project_f.Journal.Stored.{StoredTarget, stored, find_stored, receipt_of}
use project_f.Journal.Known.{HasReceipt, receipt_outcome-known}
use project_f.Journal.Reconciled.{intent_of, reconcile-known}
use project_f.Journal.Committed.{receipt_outcome-commit}

abbrev disk : String → Option StoredTarget
disk path = if path == "shop.db" then some (stored repaired) else none

abbrev operation : Operation
operation = record {
  operation_id = "op-1";
  run_id = "run-1";
  target_path = "shop.db";
  target_id = "t";
  program_digest = "program";
  payload = selection;
  commit_id = "operation";
  intent_digest = "repair";
  state = OperationState.prepared;
  outcome = none;
}

operation-known : receipt_outcome digest disk operation ≡ known repair_receipt
unfolding receipt_outcome target_evidence commit_identity find_receipt find_stored receipt_of
operation-known = refl

receipt_outcome-known_example : HasReceipt digest disk operation repair_receipt
receipt_outcome-known_example =
    receipt_outcome-known digest disk operation repair_receipt operation-known

receipt_outcome-commit_example :
    (r : Receipt) × (receipt_outcome digest disk
        (prepared_operation digest "op-1" "run-1" "shop.db" "t" "program" selection "snapshot")
      ≡ known r)
    × (repaired_outcome ≡ told r)
unfolding run
receipt_outcome-commit_example =
    receipt_outcome-commit digest disk "op-1" "run-1" "shop.db" "program" selection "snapshot"
      repair shop repair-IsPlan repaired_outcome (idle_at repaired) shop-IsOrdered passes refl
      run_applied refl

abbrev journal : Journal
journal = record {
  path = "journal.db";
  runs = record { run_id = "run-1"; state = RunState.prepared; outcome = none } ∷ [];
  operations = operation ∷ [];
}

abbrev as_json : Evidence → Value
as_json e = null

abbrev after : List Report × Journal
unfolding reconcile_runs reconcile_run next_state receipt_outcome target_evidence commit_identity
    find_receipt find_stored receipt_of record_operation
after = reconcile_runs digest as_json disk journal.runs journal

after_state : map (λ r. r.state) after.0 ≡ RunState.reconciled ∷ []
unfolding reconcile_runs reconcile_run next_state receipt_outcome target_evidence commit_identity
    find_receipt find_stored receipt_of record_operation
after_state = refl

reconcile-known_example :
    ((receipt : Receipt) × (receipt_outcome digest disk operation ≡ known receipt))
    × (map intent_of after.1.operations ≡ map intent_of journal.operations)
unfolding reconcile reconcile_runs reconcile_run next_state receipt_outcome target_evidence
    commit_identity find_receipt find_stored receipt_of record_operation
reconcile-known_example =
    reconcile-known digest as_json disk none journal after.0 after.1
      (record {
        run_id = "run-1";
        state = RunState.reconciled;
        outcomes = known repair_receipt ∷ [];
      })
      operation refl (inl refl) refl (inl refl) refl
