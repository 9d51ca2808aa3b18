-- ===== src/Runtime/Written.antt =====
-- foresee/runtime.py: what the runtime keeps, as the JSON values that evidence and digests hold.
-- `decimal` is Python's text of a number, and `message` the text of an exception.
use Prim.Native.String.{◌++◌ as append_text}
use project_f.Base.{
  ℕ, String, Bool, false, Option, none, some, List, [], ◌∷◌, map, not, ◌==◌, if◌then◌else◌,
}
use project_f.Base.Int.{pos}
use project_f.Json.{Value, null, int, str, bool, arr, obj, Fields, end, field, as_items}
use project_f.Catalog.Snapshot.{Snapshot}
use project_f.Catalog.Target.{Status, applied, stale, Detail, target_changed, applied_patches}
use project_f.Catalog.Commit.{Outcome}
use project_f.Runtime.{Fault, stop, StopStatus, all_passed}
use project_f.Runtime.State.{
  Payload, Choice, Summary, EventOf, snapshot_read, plans_proposed, explored, chose, commit_made,
}

-- `snapshot_json`
unfoldable pub snapshot_json : Snapshot → Value
snapshot_json s = obj (
    field "revision" (int (pos s.revision))
      (field "rows" (arr (as_items (map obj s.rows))) (field "digest" (str s.digest) end)))

-- selection
unfoldable pub payload_json : Payload → Value
unfolding snapshot_json
payload_json p = obj (
    field "plan" p.plan (
      field "base" (snapshot_json p.base)
        (field "metric" (str p.metric) (field "score" (int (pos p.score)) end))))

abbrev pub status_text : Status → String
status_text applied = "applied"
status_text stale = "stale"

abbrev pub stop_text : StopStatus → String
stop_text StopStatus.provider_error = "provider_error"
stop_text (StopStatus.proposal_failed code) = "provider_error"
stop_text StopStatus.evidence_limit = "evidence_limit"
stop_text StopStatus.commit_unresolved = "commit_unresolved"
stop_text StopStatus.invalid_plans = "invalid_plans"
stop_text StopStatus.no_eligible_candidate = "no_eligible_candidate"

abbrev pub check_json : Bool × String → Value
check_json (passed, message) =
    obj (field "passed" (bool passed) (field "message" (str message) end))

abbrev pub metrics_json : List (String × ℕ) → Fields
metrics_json [] = end
metrics_json ((x, n) ∷ metrics) = field x (int (pos n)) (metrics_json metrics)

-- self.selection
unfoldable pub choice_json : Choice → Value
choice_json c = obj (
    field "plan_id" (str c.plan_id)
      (field "metric" (str c.metric) (field "score" (int (pos c.score)) end)))

abbrev pub operation_json : Option String → Value
operation_json none = null
operation_json (some id) = str id

module _ (decimal : ℕ → String) where
  unfoldable pub detail_text : Detail → String
  detail_text target_changed = "target changed after snapshot; no patches applied"
  detail_text (applied_patches n) =
      append_text "applied " (append_text (decimal n) " derived-field patches")

  -- What `Catalog.commit` returns
  unfoldable pub outcome_json : Outcome → Value
  outcome_json o = obj (
      field "status" (str (status_text o.status)) (
        field "commit_id" (str o.commit_id) (
          field "revision" (int (pos o.revision)) (
            field "idempotent_replay" (bool o.idempotent_replay)
              (field "detail" (str (detail_text o.detail)) end)))))

  -- The provider_code of an outcome
  abbrev pub code_field : StopStatus → Fields
  code_field (StopStatus.proposal_failed code) = field "provider_code" (str code) end
  code_field _ = end

  -- The outcome of a `DecisionStop`
  unfoldable pub stop_json : (Fault → String) → StopStatus → Value
  stop_json message status = obj (
      field "status" (str (stop_text status))
        (field "detail" (str (message (stop status))) (code_field status)))

  module _ (message : Fault → String) where
    abbrev pub error_json : Option Fault → Value
    error_json none = null
    error_json (some e) = str (message e)

    -- bool(error): a text that is not empty
    abbrev pub has_text : Option Fault → Bool
    has_text none = false
    has_text (some e) = not (message e == "")

    -- trial["status"]
    abbrev pub trial_status : Summary → String
    trial_status s =
        if has_text s.error
        then "evaluation_failed"
        else if all_passed s.checks
        then "eligible"
        else "rejected"

    -- An entry of self.exploration
    unfoldable pub summary_json : Summary → Value
    summary_json s = obj (
        field "plan_id" (str s.plan_id) (
          field "eligible" (bool s.eligible) (
            field "checks" (arr (as_items (map check_json s.checks))) (
              field "metrics" (obj (metrics_json s.metrics))
                (field "error" (error_json s.error) (field "status" (str (trial_status s)) end))))))

    -- The data of an event
    unfoldable pub event_json : {O : Type 0} → (O → Value) → EventOf O → Value
    event_json as_json (snapshot_read resource s) =
        obj (field "resource" (str resource) (field "snapshot" (snapshot_json s) end))
    event_json as_json (plans_proposed model digest prompt limit plans) = obj (
        field "model" (str model) (
          field "snapshot_digest" (str digest) (
            field "prompt" (str prompt)
              (field "limit" (int (pos limit)) (field "plans" plans end)))))
    event_json as_json (explored summaries) = arr (as_items (map summary_json summaries))
    event_json as_json (chose c) = choice_json c
    event_json as_json (commit_made payload operation outcome) = obj (
        field "payload" (payload_json payload)
          (field "operation_id" (operation_json operation) (field "outcome" (as_json outcome) end)))
