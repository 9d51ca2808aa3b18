-- ===== src/Runtime/Decision.antt =====
-- foresee/runtime.py: what `Runtime.run` makes of the evaluation of a decision.
use project_f.Base.{
  ℕ, String, Bool, true, false, not, Option, none, some, List, [], ◌∷◌, ◌==◌, map, contains,
  if◌then◌else◌,
}
use project_f.Base.Int.{pos, int_eq}
use project_f.Base.Result.{Result, ok, err, attribute_error, type_error}
use project_f.Json.{Value, null, int, str, bool, arr, obj, nil, cons, end, field, lookup}
use project_f.Model.{Block}
use project_f.Runtime.{Fault, stop, raised, StopStatus}
use project_f.Runtime.State.{
  Datum, text, number, truth, json, committed, Env, Choice, Summary, summary_of, Event, Log, State,
  Ended, value, fault, Hooks,
}
use project_f.Runtime.Eval.{exec_body}
use project_f.Runtime.Written.{outcome_json, stop_json, stop_text}

-- outcome
pub data Decided : Type 0 where
  nothing : Decided
  returned : Datum → Decided
  stopped : StopStatus → Decided

pub record Report : Type 0 where
  pub exploration : List Summary
  pub selection : Option Choice
  pub outcome : Decided
  pub events : List Event
  pub complete : Bool

abbrev pub start_env : Env
start_env = record { names = []; base = none; checks = []; metrics = []; simulations = 0 }

-- A new runtime, whose log is this one.
abbrev pub new_runtime : {W : Type 0} → Log W → State W
new_runtime log = record {
  env = start_env;
  exploration = [];
  selection = none;
  selections = [];
  trials = [];
  fresh = 0;
  log = log;
}

-- The loop over decision["body"]: a `DecisionStop` is the outcome, and other exceptions are raised.
unfoldable pub decided_of : Ended (Option Datum) → Ended Decided
decided_of (value none) = value nothing
decided_of (value (some v)) = value (returned v)
decided_of (fault (stop status)) = value (stopped status)
decided_of (fault (raised e)) = fault (raised e)

abbrev pub incomplete : List String
incomplete = "provider_error" ∷ "evidence_limit" ∷ "commit_unresolved" ∷ []

-- bool(value)
abbrev pub is_truthy : Value → Bool
is_truthy null = false
is_truthy (bool b) = b
is_truthy (int z) = not (int_eq z (pos 0))
is_truthy (str s) = not (s == "")
is_truthy (arr nil) = false
is_truthy (arr (cons v vs)) = true
is_truthy (obj end) = false
is_truthy (obj (field k v d)) = true

abbrev no_get : Result Bool
no_get = err (attribute_error "get")

abbrev pub status_complete : Option Value → Result Bool
status_complete none = ok true
status_complete (some (str s)) = ok (not (contains incomplete s))
status_complete (some (arr vs)) = err (type_error "unhashable type")
status_complete (some (obj d)) = err (type_error "unhashable type")
status_complete (some _) = ok true

abbrev pub value_complete : Value → Result Bool
value_complete (obj d) = status_complete (lookup "status" d)
value_complete v = if is_truthy v then no_get else ok true

-- not outcome or outcome.get("status") not in {...}
unfoldable pub is_complete : Decided → Result Bool
is_complete nothing = ok true
is_complete (stopped status) = ok (not (contains incomplete (stop_text status)))
is_complete (returned (committed outcome)) = ok true
is_complete (returned (json v)) = value_complete v
is_complete (returned (text s)) = value_complete (str s)
is_complete (returned (number n)) = value_complete (int (pos n))
is_complete (returned (truth b)) = value_complete (bool b)
is_complete (returned _) = no_get

-- The JSON of an outcome, if it has one.
unfoldable pub decided_json : (ℕ → String) → (Fault → String) → Decided → Result Value
decided_json decimal message nothing = ok null
decided_json decimal message (stopped status) = ok (stop_json decimal message status)
decided_json decimal message (returned (committed outcome)) = ok (outcome_json decimal outcome)
decided_json decimal message (returned (json v)) = ok v
decided_json decimal message (returned (text s)) = ok (str s)
decided_json decimal message (returned (number n)) = ok (int (pos n))
decided_json decimal message (returned (truth b)) = ok (bool b)
decided_json decimal message (returned _) = err (type_error "not JSON serializable")

abbrev pub report_on : {W : Type 0} → Decided → Bool → State W → Report
report_on outcome complete s = record {
  exploration = map summary_of s.exploration;
  selection = s.selection;
  outcome = outcome;
  events = s.log.events;
  complete = complete;
}

-- The report, when its outcome has a status and its digest can be taken.
unfoldable pub close :
    {W : Type 0} → Result Bool → Result Value → Decided → State W → Ended Report × Log W
close (err e) written outcome s = (fault (raised e), s.log)
close (ok complete) (err e) outcome s = (fault (raised e), s.log)
close (ok complete) (ok v) outcome s = (value (report_on outcome complete s), s.log)

unfoldable pub reported :
    {W : Type 0} → (ℕ → String) → (Fault → String) → Ended Decided → State W → Ended Report × Log W
reported decimal message (value outcome) s =
    close (is_complete outcome) (decided_json decimal message outcome) outcome s
reported decimal message (fault e) s = (fault e, s.log)

-- `run`, on a decision and apart from the journal
unfoldable pub run :
    {W : Type 0}
    → Hooks W
    → (Value → String)
    → (ℕ → String)
    → (Fault → String)
    → List String
    → Block
    → Log W
    → Ended Report × Log W
run hooks stable_digest decimal message resource_names body log =
    let (r, s) = exec_body hooks stable_digest resource_names body (new_runtime log) in
    reported decimal message (decided_of r) s
