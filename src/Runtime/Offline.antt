-- ===== src/Runtime/Offline.antt =====
-- foresee/replay.py: `OfflineRuntime`, whose operations read the recorded events. These are events
-- of the kinds that the runtime records, the outcome of a commit with any status and revision; the
-- world is what follows the cursor.
use project_f.Base.{
  ℕ, ◌+◌, String, Bool, true, Option, none, some, List, [], ◌∷◌, ◌++◌, ◌==◌, nat_eq, if◌then◌else◌,
}
use project_f.Base.Result.{ok, err, value_error}
use project_f.Json.{Value, str, int, bool, obj, field, end}
use project_f.Model.{Block}
use project_f.Catalog.Snapshot.{Snapshot, make_snapshot, content}
use project_f.Catalog.Request.{commit_identity}
use project_f.Catalog.Target.{Status, applied, stale, Detail}
use project_f.Journal.Stored.{status_of, revision_of}
use project_f.Base.Int.{pos}
use project_f.Catalog.Commit.{Outcome}
use project_f.Runtime.{Fault, raised}
use project_f.Runtime.State.{
  EventOf, Event, snapshot_read, plans_proposed, explored, chose, commit_made, Payload, Log, Ended,
  value, fault, Action, Hooks,
}
use project_f.Runtime.Written.{event_json, payload_json, outcome_json, status_text, detail_text}
use project_f.Runtime.Decision.{Report, run}

-- The outcome of a commit as it is recorded: its status is a text, and its revision any value.
pub record RecordedOutcome : Type 0 where
  pub status : String
  pub commit_id : String
  pub revision : Value
  pub idempotent_replay : Bool
  pub detail : Detail

abbrev pub Recorded : Type 0
Recorded = EventOf RecordedOutcome

-- The outcome, when its status and its revision are of the kinds that a commit returns.
abbrev pub typed_outcome : RecordedOutcome → Option Status → Option ℕ → Option Outcome
typed_outcome o (some status) (some revision) = some (record {
  status = status;
  commit_id = o.commit_id;
  revision = revision;
  idempotent_replay = o.idempotent_replay;
  detail = o.detail;
})
typed_outcome o (some status) none = none
typed_outcome o none revision = none

unfoldable pub outcome_of : RecordedOutcome → Option Outcome
outcome_of o = typed_outcome o (status_of o.status) (revision_of o.revision)

-- What is recorded of an event.
abbrev pub record_outcome : Outcome → RecordedOutcome
record_outcome o = record {
  status = status_text o.status;
  commit_id = o.commit_id;
  revision = int (pos o.revision);
  idempotent_replay = o.idempotent_replay;
  detail = o.detail;
}

abbrev pub as_recorded : Event → Recorded
as_recorded (snapshot_read r s) = snapshot_read r s
as_recorded (plans_proposed m d p n plans) = plans_proposed m d p n plans
as_recorded (explored summaries) = explored summaries
as_recorded (chose c) = chose c
as_recorded (commit_made payload operation outcome) =
    commit_made payload operation (record_outcome outcome)

abbrev pub kind_of : {O : Type 0} → EventOf O → String
kind_of (snapshot_read r s) = "snapshot"
kind_of (plans_proposed m d p n plans) = "proposal"
kind_of (explored summaries) = "exploration"
kind_of (chose c) = "selection"
kind_of (commit_made payload operation outcome) = "commit"

unfoldable pub then_give :
    {A : Type 0} → A → Ended (Unit {0}) × Log (List Recorded) → Ended A × Log (List Recorded)
then_give a (value u, l) = (value a, l)
then_give a (fault e, l) = (fault e, l)

-- self.recorded[self.cursor:]
abbrev pub Left : Type 0
Left = List Recorded

abbrev pub refuse : {A : Type 0} → String → Action Left A
refuse why l = (fault (raised (value_error why)), l)

module _ (stable_digest : Value → String) (decimal : ℕ → String) (message : Fault → String)
    (program_digest : String) where
  abbrev pub data_digest : Event → String
  data_digest e = stable_digest (event_json decimal message (outcome_json decimal) e)

  -- The JSON of a recorded outcome
  abbrev pub recorded_json : RecordedOutcome → Value
  recorded_json o = obj (
      field "status" (str o.status) (
        field "commit_id" (str o.commit_id) (
          field "revision" o.revision (
            field "idempotent_replay" (bool o.idempotent_replay)
              (field "detail" (str (detail_text decimal o.detail)) end)))))

  abbrev pub recorded_digest : Recorded → String
  recorded_digest e = stable_digest (event_json decimal message recorded_json e)

  -- `observe`, against what is recorded at the cursor
  unfoldable pub observe : Event → Action Left (Unit {0})
  observe e l = elim l.world [
    | [] ↦ refuse "missing or out-of-order evidence" l
    | recorded ∷ left ↦
        if kind_of recorded == kind_of e
        then (if data_digest e == recorded_digest recorded
            then (value tt, record { events = l.events ++ e ∷ []; world = left })
            else refuse "reproduced data differs from recorded evidence" l)
        else refuse "missing or out-of-order evidence" l
  ]

  -- What follows `expected("snapshot")`
  unfoldable pub recorded_snapshot : Snapshot → Action Left Snapshot
  recorded_snapshot s l =
      if stable_digest (content s.revision s.rows) == s.digest
      then elim (make_snapshot s.revision s.rows s.digest) [
        | ok s' ↦ (value s', l)
        | err e ↦ (fault (raised e), l)
      ]
      else refuse "snapshot content digest mismatch" l

  unfoldable pub read_snapshot : String → Action Left Snapshot
  read_snapshot resource l = elim l.world [
    | snapshot_read r s ∷ left ↦ recorded_snapshot s l
    | _ ↦ refuse "missing or out-of-order snapshot evidence" l
  ]

  unfoldable pub propose_plans : String → Snapshot → String → ℕ → Action Left Value
  propose_plans model base prompt limit l = elim l.world [
    | plans_proposed m d p n plans ∷ left ↦ (value plans, l)
    | _ ↦ refuse "missing or out-of-order proposal evidence" l
  ]

  -- outcome["commit_id"] == commit_id
  abbrev pub same_commit : Payload → Option String → Outcome → Bool
  same_commit payload operation outcome =
      outcome.commit_id
      == (commit_identity stable_digest payload.base.digest payload.plan program_digest operation).0

  -- outcome["status"] != "applied" or outcome["revision"] == payload["base"]["revision"] + 1
  abbrev pub consistent : Payload → Outcome → Bool
  consistent payload outcome = elim outcome.status [
    | applied ↦ nat_eq outcome.revision (payload.base.revision + 1)
    | stale ↦ true
  ]

  -- What follows the test of the payload
  unfoldable pub recorded_receipt : Payload → Option String → Option Outcome → Action Left Outcome
  recorded_receipt payload operation none l = refuse "recorded receipt reference is inconsistent" l
  recorded_receipt payload operation (some outcome) l =
      if same_commit payload operation outcome
      then (if consistent payload outcome
          then then_give outcome (observe (commit_made payload operation outcome) l)
          else refuse "applied receipt revision is inconsistent" l)
      else refuse "recorded receipt reference is inconsistent" l

  unfoldable pub recorded_commit :
      Payload → Payload → Option String → RecordedOutcome → Action Left Outcome
  recorded_commit payload recorded operation outcome l =
      if stable_digest (payload_json recorded) == stable_digest (payload_json payload)
      then recorded_receipt payload operation (outcome_of outcome) l
      else refuse "commit payload differs from reproduced selection" l

  unfoldable pub apply_selection : Payload → Action Left Outcome
  apply_selection payload l = elim l.world [
    | commit_made recorded operation outcome ∷ left ↦
        recorded_commit payload recorded operation outcome l
    | _ ↦ refuse "missing or out-of-order commit evidence" l
  ]

  unfoldable pub offline : Hooks Left
  offline = record {
    observe = observe;
    read_snapshot = read_snapshot;
    propose_plans = propose_plans;
    apply_selection = apply_selection;
  }

  -- OfflineRuntime(ir, events).run(), and the events that it has not consumed
  unfoldable pub rerun : List String → Block → List Recorded → Ended Report × Left
  rerun resource_names body events =
      let (r, log) =
        run offline stable_digest decimal message resource_names body
          (record { events = []; world = events }) in
      (r, log.world)
