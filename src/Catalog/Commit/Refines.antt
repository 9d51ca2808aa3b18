-- ===== src/Catalog/Commit/Refines.antt =====
-- What `commit` promises, as one function of the target, and that it does that.
use project_f.Base.{
  ℕ, ◌+◌, String, ◌≡◌, ◌≢◌, ◌∙◌, refl, ap, true, false, ◌&&◌, Option, none, some, List, [], ◌∷◌,
  ◌++◌, map, ◌==◌, nat_eq, arith, eq_iff, if◌then◌else◌, Bool-cases, Option-cases, inl, inr,
}
use project_f.Base.Result.{Result, ok, err, value_error, runtime_error, guard}
use project_f.Json.{Value}
use project_f.Catalog.Plan.{IsPlan}
use project_f.Catalog.Request.{commit_identity, check_request}
use project_f.Catalog.Target.{
  Status, Detail, applied, stale, target_changed, applied_patches, Receipt, Target, Connection,
  lift, ◌>>◌, find_receipt, idle_at, insert_receipt, snapshot, write, CatalogRow, row_fields,
}
use project_f.Catalog.Target.Rules.{>>=-eq_of_ok}
use project_f.Catalog.Prices.{IsOrdered, set_prices, all_known, all_fit}
use project_f.Catalog.Prices.Live.{live, snapshot-live, simulate_plan-live}
use project_f.Catalog.Prices.Written.{writing, update_prices-Reads, rows_eq_refl}
use project_f.Catalog.Commit.{
  Outcome, finish, update_prices, replay_receipt, record_outcome, refuse_stale, write_plan, rows_eq,
  verify_written, write_verified, apply_plan, decide, commit_new, look_up, commit, count_items,
  undo,
}
use project_f.Catalog.Commit.Steps.{no_hook, begun_at, look_up_found, look_up_new, commit_lem}
use project_f.Catalog.Commit.Retry.{replayed, replay_receipt_lem, replay_receipt_conflict}
use project_f.Catalog.Commit.Atomic.{told, insert_receipt_lem}

abbrev pub receipt_of : Status → String × String → String → ℕ → Detail → Receipt
receipt_of status (commit_id, intent_digest) before revision detail = record {
  commit_id = commit_id;
  intent_digest = intent_digest;
  status = status;
  snapshot_digest = before;
  resulting_revision = revision;
  detail = detail;
}

-- The target with one more receipt, and the outcome that the receipt tells.
abbrev pub receipted : Target → Receipt → Result Outcome × Target
receipted t r = (ok (told r), record t { receipts = t.receipts ++ r ∷ [] })

-- A receipt of the same commit id decides by its intent.
abbrev pub known_spec : Target → String → Receipt → Result Outcome × Target
known_spec t intent_digest r =
    if r.intent_digest == intent_digest
    then (ok (replayed r), t)
    else (err (runtime_error "operation ID reused with different intent"), t)

abbrev pub plan_spec :
    Target → String × String → String → ℕ → List (String × ℕ) → Result Outcome × Target
plan_spec t k before patches ps =
    if all_known ps t.rows
    then (if all_fit (set_prices ps t.rows)
        then receipted (record t { rows = set_prices ps t.rows; revision = t.revision + 1 })
            (receipt_of applied k before (t.revision + 1) (applied_patches patches))
        else (err (value_error "unit price arithmetic is invalid"), t))
    else (err (value_error "unknown catalog row"), t)

abbrev pub new_spec :
    (Value → String)
    → Target
    → String × String
    → String
    → ℕ
    → List (String × ℕ)
    → Result Outcome × Target
new_spec sd t k before patches ps =
    if (live sd t).digest == before
    then plan_spec t k before patches ps
    else receipted t (receipt_of stale k before t.revision target_changed)

-- Specification of a commit of the patches `ps` to the target, under the commit id and the intent
-- `k`, for a snapshot of the digest `before`:
-- a receipt decides if there is one; a target that has changed since gets a stale receipt and keeps
-- its rows and revision; a plan that names an unknown row or breaks the price arithmetic is an
-- error without effect; and any other is applied under the next revision.
abbrev pub commit_spec :
    (Value → String)
    → Target
    → String × String
    → String
    → ℕ
    → List (String × ℕ)
    → Result Outcome × Target
commit_spec sd t k before patches ps = elim (find_receipt k.0 t.receipts) [
  | some r ↦ known_spec t k.1 r
  | none ↦ new_spec sd t k before patches ps
]

abbrev pub at_rest : Result Outcome × Target → Result Outcome × Connection
at_rest (r, t) = (r, idle_at t)

-- With no receipt yet, a receipt is written and everything becomes durable.
record_outcome_lem :
    (sd : Value → String) (r : Receipt) (d t : Target)
    → find_receipt r.commit_id t.receipts ≡ none
    → record_outcome sd no_hook r (writing d t) ≡ at_rest (receipted t r)
unfolding record_outcome finish
record_outcome_lem sd r d t fresh =
    >>=-eq_of_ok (insert_receipt r) (λ _. finish no_hook >> lift (ok (told r))) (writing d t)
      (insert_receipt_lem r (writing d t) refl fresh)

write_plan_lem :
    (d t : Target) (v : Value) {ps : List (String × ℕ)} (plan : IsPlan v ps) (n : ℕ)
    → IsOrdered t.rows
    → all_known ps t.rows ≡ true
    → write_plan plan.patches n (writing d t)
      ≡ (ok tt, writing d (record t { rows = set_prices ps t.rows; revision = n }))
unfolding write_plan
write_plan_lem d t v {ps} plan n ordered there =
    >>=-eq_of_ok (update_prices plan.patches) (λ _. write (λ t. record t { revision = n }))
      (writing d t) (update_prices-Reads d t plan.reads ordered there)

-- The comparison after the writes succeeds: it can only fail where SQLite breaks its contract.
verify_written_lem :
    (sd : Value → String) (d t : Target) (rows : List CatalogRow)
    → verify_written sd
        (live sd (record t { rows = rows }))
        (t.revision + 1)
        (writing d (record t { rows = rows; revision = t.revision + 1 }))
      ≡ (ok tt, writing d (record t { rows = rows; revision = t.revision + 1 }))
unfolding verify_written
verify_written_lem sd d t rows =
    let t' : Target = record t { rows = rows; revision = t.revision + 1 } in
    >>=-eq_of_ok (snapshot sd)
      (λ actual. lift (
        guard (rows_eq actual.rows (map row_fields rows) && nat_eq actual.revision (t.revision + 1))
          (runtime_error "commit postcondition failed")))
      (writing d t') (snapshot-live sd d t')
    ∙ rw (rows_eq_refl rows) (ground arith)

module _ (sd : Value → String) (before : String) (v : Value) (t : Target)
    (k : String × String) where
  apply_plan_lem :
      {ps : List (String × ℕ)} (plan : IsPlan v ps)
      → IsOrdered t.rows
      → find_receipt k.0 t.receipts ≡ none
      → all_known ps t.rows ≡ true
      → all_fit (set_prices ps t.rows) ≡ true
      → apply_plan sd no_hook k.0 k.1 before v (live sd t) (begun_at t)
        ≡ at_rest (
            receipted
              (record t { rows = set_prices ps t.rows; revision = t.revision + 1 })
              (receipt_of applied k before
                (t.revision + 1)
                (applied_patches (count_items plan.patches))))
  unfolding apply_plan write_verified
  apply_plan_lem {ps} plan ordered fresh there fit =
      let r =
        receipt_of applied k before (t.revision + 1) (applied_patches (count_items plan.patches)) in
      let written : Target = record t { rows = set_prices ps t.rows; revision = t.revision + 1 } in
      let expected = live sd (record t { rows = set_prices ps t.rows }) in
      rw (simulate_plan-live sd t v plan ordered) (
        rw (there, fit)
          (>>=-eq_of_ok (write_plan plan.patches (t.revision + 1))
              (λ _. verify_written sd expected (t.revision + 1) >> record_outcome sd no_hook r)
              (begun_at t) (write_plan_lem t t v plan (t.revision + 1) ordered there)
            ∙ >>=-eq_of_ok (verify_written sd expected (t.revision + 1))
                (λ _. record_outcome sd no_hook r) (writing t written)
                (verify_written_lem sd t t (set_prices ps t.rows))
            ∙ record_outcome_lem sd r t written fresh))

  applies :
      {ps : List (String × ℕ)} (plan : IsPlan v ps)
      → IsOrdered t.rows
      → find_receipt k.0 t.receipts ≡ none
      → undo (apply_plan sd no_hook k.0 k.1 before v (live sd t) (begun_at t))
        ≡ at_rest (plan_spec t k before (count_items plan.patches) ps)
  unfolding apply_plan
  applies {ps} plan ordered fresh = elim (Bool-cases (all_known ps t.rows)) [
    | inr absent ↦ rw (simulate_plan-live sd t v plan ordered) (rw absent refl)
    | inl there ↦ elim (Bool-cases (all_fit (set_prices ps t.rows))) [
      | inr misfit ↦ rw (simulate_plan-live sd t v plan ordered) (rw (there, misfit) refl)
      | inl fit ↦ rw (there, fit) (ap undo (apply_plan_lem plan ordered fresh there fit))
    ]
  ]

  decide-spec :
      {ps : List (String × ℕ)} (plan : IsPlan v ps)
      → IsOrdered t.rows
      → find_receipt k.0 t.receipts ≡ none
      → undo (decide sd no_hook k.0 k.1 before v (live sd t) (begun_at t))
        ≡ at_rest (new_spec sd t k before (count_items plan.patches) ps)
  unfolding decide refuse_stale
  decide-spec {ps} plan ordered fresh = elim (Bool-cases ((live sd t).digest == before)) [
    | inr e ↦ rw e (
        ap undo
          (record_outcome_lem sd (receipt_of stale k before t.revision target_changed) t t fresh))
    | inl e ↦ rw e (applies plan ordered fresh)
  ]

  commit_new-spec :
      {ps : List (String × ℕ)} (plan : IsPlan v ps)
      → IsOrdered t.rows
      → find_receipt k.0 t.receipts ≡ none
      → undo (commit_new sd no_hook k.0 k.1 before v (begun_at t))
        ≡ at_rest (new_spec sd t k before (count_items plan.patches) ps)
  unfolding commit_new
  commit_new-spec {ps} plan ordered fresh =
      ap undo (
        >>=-eq_of_ok (snapshot sd) (decide sd no_hook k.0 k.1 before v) (begun_at t)
          (snapshot-live sd t t))
      ∙ decide-spec plan ordered fresh

  replay_receipt-spec :
      (r : Receipt)
      → undo (replay_receipt sd no_hook k.1 r (begun_at t)) ≡ at_rest (known_spec t k.1 r)
  replay_receipt-spec r = elim (Bool-cases (r.intent_digest == k.1)) [
    | inl same ↦
        let again : replay_receipt sd no_hook k.1 r (begun_at t) ≡ (ok (replayed r), idle_at t) =
          rw (← (eq_iff r.intent_digest k.1).0 same) (replay_receipt_lem sd r (begun_at t)) in
        rw same (ap undo again)
    | inr other ↦
        rw other (ap undo (replay_receipt_conflict sd no_hook k.1 r (begun_at t) (differ r other)))
  ]
    where
      differ : (r : Receipt) → (r.intent_digest == k.1) ≡ false → r.intent_digest ≢ k.1
      differ r other e = ground (arith, (eq_iff r.intent_digest k.1).1 e)

  look_up-spec :
      {ps : List (String × ℕ)} (plan : IsPlan v ps)
      → IsOrdered t.rows
      → undo (look_up sd no_hook before v k.0 k.1 (begun_at t))
        ≡ at_rest (commit_spec sd t k before (count_items plan.patches) ps)
  look_up-spec {ps} plan ordered = elim (Option-cases (find_receipt k.0 t.receipts)) [
    | inl fresh ↦
        rw (fresh, commit_spec)
          (ap undo (look_up_new sd no_hook before v k.0 k.1 (begun_at t) fresh)
            ∙ commit_new-spec plan ordered fresh)
    | inr (r, found) ↦
        rw (found, commit_spec)
          (ap undo (look_up_found sd no_hook before v k.0 k.1 (begun_at t) found)
            ∙ replay_receipt-spec r)
  ]

-- From an idle connection to a target whose rows are in the order of their ids, with no fault
-- hook, `commit` does for every request that passes the guards exactly what `commit_spec` says,
-- and closes its transaction; `IsPlan` reads the patches off the plan.
pub commit-refines :
    (sd : Value → String) (selection : Value) (program : String) (operation : Option String)
    (before : String) (v : Value) (t : Target) {ps : List (String × ℕ)} (plan : IsPlan v ps)
    → IsOrdered t.rows
    → check_request selection program operation ≡ ok (before, v)
    → commit sd no_hook selection program operation (idle_at t)
      ≡ at_rest (
          commit_spec sd t
            (commit_identity sd before v program operation)
            before
            (count_items plan.patches)
            ps)
commit-refines sd selection program operation before v t plan ordered passes =
    commit_lem sd selection program operation before v t passes
    ∙ look_up-spec sd before v t (commit_identity sd before v program operation) plan ordered
