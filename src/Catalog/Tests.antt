-- ===== src/Catalog/Tests.antt =====
-- Runs of the catalog on the demo rows, and the theorems at concrete inputs.
use project_f.Base.{
  ℕ, String, ◌≡◌, ◌↔◌, ◌≢◌, refl, ap, true, false, none, some, List, [], ◌∷◌, inl, inr, arith,
  eq_iff,
}
use project_f.Base.Int.{pos}
use project_f.Base.Result.{Result, ok, err, injected, runtime_error}
use project_f.Json.{Value, int, str, obj, arr, Items, nil, cons, Fields, field, end, lookup}
use project_f.Catalog.Snapshot.{
  content, make_snapshot, apply_to_snapshot, index_rows, put, find, assign, apply_patch,
  apply_patches, sort_table, insert_sorted, valid_unit_arithmetic, arithmetic_holds,
}
use project_f.Catalog.Plan.{
  validate_plan, validate_plan-eq-ok_iff, IsPlan, Reads, no_more, one_more,
}
use project_f.Catalog.Request.{check_request, commit_identity}
use project_f.Catalog.Target.{
  Target, Connection, Receipt, applied, seed_rows, idle_at, applied_patches, find_receipt,
  read_snapshot, snapshot, set_price, count_id, insert_receipt,
}
use project_f.Catalog.Prices.{IsOrdered, set_prices}
use project_f.Catalog.Prices.Live.{live, apply_to_snapshot-live}
use project_f.Catalog.Commit.{
  Outcome, before_commit, after_commit, Hook, commit, transact, look_up, replay_receipt, commit_new,
  decide, apply_plan, simulate_plan, write_verified, write_plan, update_prices, update_price,
  verify_written, record_outcome, refuse_stale, finish,
}
use project_f.Catalog.Commit.Steps.{no_hook}
use project_f.Catalog.Commit.Atomic.{Receipted, Settled, commit-Settled}
use project_f.Catalog.Commit.Retry.{commit_twice, commit_lost, commit_reused, replayed}
use project_f.Catalog.Commit.Refines.{commit-refines, commit_spec, at_rest}

-- A digest that tells the intents of the tests apart.
abbrev pub digest : Value → String
digest (obj d) = elim (lookup "plan" d) [
  | none ↦ elim (lookup "operation" d) [ none ↦ "snapshot" | some _ ↦ "operation" ]
  | some plan ↦ plan_name plan
]
  where
    plan_name : Value → String
    plan_name (obj p) = elim (lookup "id" p) [
      | none ↦ "none"
      | some v ↦ elim v [ str s ↦ s | _ ↦ "none" ]
    ]
    plan_name _ = "none"
digest _ = "scalar"

abbrev pub shop : Target
shop = record { target_id = "t"; revision = 7; rows = seed_rows; receipts = [] }

abbrev coffee_patch : Fields
coffee_patch = field "id" (str "coffee") (field "unit_price_cents" (int (pos 150)) end)

abbrev filters_patch : Fields
filters_patch = field "unit_price_cents" (int (pos 100)) (field "id" (str "filters") end)

abbrev patches : Items
patches = cons (obj coffee_patch) (cons (obj filters_patch) nil)

abbrev pub repair : Value
repair = obj (field "id" (str "repair") (field "patches" (arr patches) end))

abbrev pub selection : Value
selection = obj (field "base" (obj (field "digest" (str "snapshot") end)) (field "plan" repair end))

abbrev prices : List (String × ℕ)
prices = ("coffee", 150) ∷ ("filters", 100) ∷ []

pub repair-Reads : Reads [] patches prices
repair-Reads =
    one_more (inl refl) refl refl (omega arith)
      (one_more (inr refl) refl refl (omega arith) no_more)

abbrev pub repair-IsPlan : IsPlan repair prices
repair-IsPlan = record {
  name = "repair";
  patches = patches;
  nonempty = refl;
  shape = inl refl;
  reads = repair-Reads;
}

pub shop-IsOrdered : IsOrdered seed_rows
shop-IsOrdered = ((refl, refl, (refl, refl, tt)), ((refl, refl, tt), (tt, tt)))

pub passes : check_request selection "program" (some "op-1") ≡ ok ("snapshot", repair)
unfolding check_request validate_plan
passes = refl

-- To unfold `run` is to unfold all that a commit calls.
unfoldable pub run : Hook → Connection → Result Outcome × Connection
unfolding commit transact look_up replay_receipt commit_new decide apply_plan simulate_plan
    write_verified write_plan update_prices update_price verify_written record_outcome refuse_stale
    insert_receipt finish snapshot read_snapshot make_snapshot content find_receipt set_price
    count_id commit_identity check_request validate_plan apply_to_snapshot index_rows put find
    assign apply_patch apply_patches sort_table insert_sorted valid_unit_arithmetic arithmetic_holds
run hook = commit digest hook selection "program" (some "op-1")

abbrev pub repaired_outcome : Outcome
repaired_outcome = record {
  status = applied;
  commit_id = "operation";
  revision = 8;
  idempotent_replay = false;
  detail = applied_patches 2;
}

abbrev pub repair_receipt : Receipt
repair_receipt = record {
  commit_id = "operation";
  intent_digest = "repair";
  status = applied;
  snapshot_digest = "snapshot";
  resulting_revision = 8;
  detail = applied_patches 2;
}

abbrev pub repaired : Target
repaired = record shop {
  revision = 8;
  rows = set_prices prices seed_rows;
  receipts = repair_receipt ∷ [];
}

-- The commit applies both prices.
pub run_applied : run no_hook (idle_at shop) ≡ (ok repaired_outcome, idle_at repaired)
unfolding run
run_applied = refl

-- The acknowledgment is lost after the commit.
abbrev lossy : Hook
lossy after_commit = some (injected "after_commit")
lossy _ = none

run_lost : run lossy (idle_at shop) ≡ (err (injected "after_commit"), idle_at repaired)
unfolding run
run_lost = refl

-- A fault before the commit leaves the target as it was.
abbrev faulty : Hook
faulty before_commit = some (injected "before_commit")
faulty _ = none

run-faulty : run faulty (idle_at shop) ≡ (err (injected "before_commit"), idle_at shop)
unfolding run
run-faulty = refl

commit-refines_example :
    commit digest no_hook selection "program" (some "op-1") (idle_at shop)
    ≡ at_rest (commit_spec digest shop ("operation", "repair") "snapshot" 2 prices)
unfolding commit_identity
commit-refines_example =
    commit-refines digest selection "program" (some "op-1") "snapshot" repair shop repair-IsPlan
      shop-IsOrdered passes

commit-Settled_example :
    Settled lossy
      ("operation", "repair")
      shop
      (commit digest lossy selection "program" (some "op-1") (idle_at shop))
unfolding commit_identity
commit-Settled_example =
    commit-Settled digest lossy selection "program" (some "op-1") "snapshot" repair (idle_at shop)
      refl passes

commit_twice_example :
    commit digest no_hook selection "program" (some "op-1") (idle_at repaired)
    ≡ (ok (record repaired_outcome { idempotent_replay = true }), idle_at repaired)
unfolding run
commit_twice_example =
    commit_twice digest no_hook selection "program" (some "op-1") "snapshot" repair shop passes
      run_applied

moved : repaired ≢ shop
moved e = absurd (omega (arith, ap (λ (t : Target). t.revision) e))

commit_lost_example :
    (r : Receipt) × Receipted "operation" "repair" repaired r
    × (commit digest no_hook selection "program" (some "op-1") (idle_at repaired)
        ≡ (ok (replayed r), idle_at repaired))
unfolding run
commit_lost_example =
    commit_lost digest lossy selection "program" (some "op-1") "snapshot" repair shop passes
      run_lost moved

-- The demo plan under another name, for the same operation
abbrev other_repair : Value
other_repair = obj (field "id" (str "other") (field "patches" (arr patches) end))

abbrev other_selection : Value
other_selection =
    obj (field "base" (obj (field "digest" (str "snapshot") end)) (field "plan" other_repair end))

other_passes : check_request other_selection "program" (some "op-1") ≡ ok ("snapshot", other_repair)
unfolding run
other_passes = refl

other_intent : ◌≢◌ {A = String} "repair" "other"
other_intent = ground (arith, eq_iff "repair" "other")

commit_reused_example :
    commit digest no_hook other_selection "program" (some "op-1") (idle_at repaired)
    ≡ (err (runtime_error "operation ID reused with different intent"), idle_at repaired)
unfolding run
commit_reused_example =
    commit_reused digest no_hook selection "program" (some "op-1") "snapshot" repair shop
      other_selection "program" (some "op-1") "snapshot" other_repair passes run_applied
      other_passes refl other_intent

validate_plan-eq-ok_iff_example :
    (validate_plan repair ≡ ok tt) ↔ ((ps : List (String × ℕ)) × IsPlan repair ps)
validate_plan-eq-ok_iff_example = validate_plan-eq-ok_iff repair

apply_to_snapshot-live_example :
    apply_to_snapshot digest (live digest shop) repair
    ≡ ok (live digest (record shop { rows = set_prices prices seed_rows }))
apply_to_snapshot-live_example =
    apply_to_snapshot-live digest shop repair repair-IsPlan shop-IsOrdered
