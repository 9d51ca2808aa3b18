-- ===== src/Evidence/Workflow.antt =====
-- foresee/bounded_replay.py and foresee/evidence_workflow.py: the replay of a report in a worker, and
-- what signs and verifies a report around it. The process of the worker is a parameter, and the bytes
-- of its answer are a text.
pub mod Prepared
pub mod Verified
use Prim.Native.String.{◌++◌ as append_text}
use project_f.Base.{
  ℕ, leb, String, Bool, true, false, ◌&&◌, Option, none, some, ◌==◌, length, if◌then◌else◌,
}
use project_f.Base.Int.{pos}
use project_f.Base.Result.{Result, ok, err, value_error, or_raise, guard, ◌>>=◌, ◌>>◌}
use project_f.Proposal.{Code}
use project_f.Evidence.{Bytes, Doc, text, whole, float, Codec}
use project_f.Evidence.Format.{key_id, prepare_statement}
use project_f.Evidence.Trust.{Authenticated, authenticate_envelope, sign_statement}

abbrev pub max_report_bytes : ℕ
max_report_bytes = 8000000

-- The codes of `ReplayFailure`
pub data ReplayCode : Type 0 where
  input_limit unsupported_platform timeout worker_protocol worker_failed : ReplayCode
  invalid_report resource_limit limits_unavailable : ReplayCode

abbrev pub code_name : ReplayCode → String
code_name input_limit = "input_limit"
code_name unsupported_platform = "unsupported_platform"
code_name timeout = "timeout"
code_name worker_protocol = "worker_protocol"
code_name worker_failed = "worker_failed"
code_name invalid_report = "invalid_report"
code_name resource_limit = "resource_limit"
code_name limits_unavailable = "limits_unavailable"

-- `ReplayedReport`, or the code of a `ReplayFailure`
pub data Replayed : Type 0 where
  reproduced : Replayed
  replay_failed : ReplayCode → Replayed

pub record ReplayBudget : Type 0 where
  pub max_report : ℕ
  pub wall_seconds : Doc
  pub cpu_seconds : ℕ
  pub memory_bytes : ℕ

abbrev pub default_budget : ReplayBudget
default_budget = record {
  max_report = max_report_bytes;
  wall_seconds = whole (pos 10);
  cpu_seconds = 3;
  memory_bytes = 536870912;
}

-- type(value) is int and minimum <= value <= maximum
abbrev pub between : ℕ → ℕ → Doc → Option ℕ
between minimum maximum (whole (pos n)) = if leb minimum n && leb n maximum then some n else none
between minimum maximum _ = none

-- The test of the seconds; whether a float is finite, positive and at most 60 is a parameter.
abbrev pub is_duration : (String → Bool) → Doc → Bool
is_duration fits (whole (pos n)) = leb 1 n && leb n 60
is_duration fits (float s) = fits s
is_duration fits _ = false

-- `ReplayBudget.__post_init__`
abbrev pub make_replay_budget :
    (String → Bool) → (max_report wall_seconds cpu_seconds memory_bytes : Doc) → Result ReplayBudget
make_replay_budget fits max_report wall_seconds cpu_seconds memory_bytes = do
  report ←
      or_raise (between 1 max_report_bytes max_report)
        (value_error "invalid replay budget: max_report_bytes")
  cpu ← or_raise (between 1 30 cpu_seconds) (value_error "invalid replay budget: cpu_seconds")
  memory ←
      or_raise (between 67108864 1073741824 memory_bytes)
        (value_error "invalid replay budget: memory_bytes")
  guard (is_duration fits wall_seconds) (value_error "invalid replay budget: wall_seconds")
  ok (record {
    max_report = report;
    wall_seconds = wall_seconds;
    cpu_seconds = cpu;
    memory_bytes = memory;
  })

-- What `ProcessTransport.exchange` returns, or the code of the failure that it raises
pub data Exchanged : Type 0 where
  answer : String → Exchanged
  failed : Code → Exchanged

abbrev pub Worker : Type 0
Worker = ReplayBudget → Bytes → Exchanged

abbrev pub success : String
success = "{\"version\":1,\"decision_reproduced\":true}"

-- _ERRORS.get(response, "worker_protocol")
abbrev pub error_of_answer : String → ReplayCode
error_of_answer response =
    if response == "{\"error\":\"invalid_report\"}"
    then invalid_report
    else if response == "{\"error\":\"resource_limit\"}"
    then resource_limit
    else if response == "{\"error\":\"limits_unavailable\"}"
    then limits_unavailable
    else worker_protocol

abbrev pub code_of_failure : Code → ReplayCode
code_of_failure Code.timeout = timeout
code_of_failure Code.response_limit = worker_protocol
code_of_failure _ = worker_failed

abbrev pub replayed : Exchanged → Replayed
replayed (failed code) = replay_failed (code_of_failure code)
replayed (answer response) =
    if response == success then reproduced else replay_failed (error_of_answer response)

abbrev pub budget_or_default : Option ReplayBudget → ReplayBudget
budget_or_default none = default_budget
budget_or_default (some b) = b

-- `replay_bounded`, on Linux or another platform
unfoldable pub replay_bounded : (is_linux : Bool) → Worker → Bytes → Option ReplayBudget → Replayed
replay_bounded is_linux worker report budget =
    if leb (length report) (budget_or_default budget).max_report
    then if is_linux
      then replayed (worker (budget_or_default budget) report)
      else replay_failed unsupported_platform
    else replay_failed input_limit

-- A `ReplayFailure` is a ValueError.
abbrev pub raise_failure : Replayed → Result (Unit {0})
raise_failure reproduced = ok tt
raise_failure (replay_failed code) =
    err (value_error (append_text "bounded replay failed: " (code_name code)))

-- `EvidenceVerification`
pub record Verification : Type 0 where
  pub authentication : Authenticated
  pub decision_reproduced : Bool
  pub replay_error : Option ReplayCode

-- `requirements_satisfied`; the origin of what is authenticated is always authenticated.
abbrev pub requirements_satisfied : Verification → Bool
requirements_satisfied v = v.decision_reproduced

abbrev pub verification : Authenticated → Replayed → Verification
verification a reproduced = record {
  authentication = a;
  decision_reproduced = true;
  replay_error = none;
}
verification a (replay_failed code) = record {
  authentication = a;
  decision_reproduced = false;
  replay_error = some code;
}

module _ (codec : Codec) (is_linux : Bool) (worker : Worker) where
  -- `sign_report`, with the public key of the signer and its `sign`
  unfoldable pub sign_report :
      Bytes
      → (public_key : Bytes) → (Bytes → Bytes)
      → (issuer audience issued_at expires_at : Doc) → Option ReplayBudget
      → Result Bytes
  sign_report report public_key sign issuer audience issued_at expires_at budget = do
    keyid ← key_id codec public_key
    payload ← prepare_statement codec report issuer audience (text keyid) issued_at expires_at
    raise_failure (replay_bounded is_linux worker report (some (budget_or_default budget)))
    sign_statement codec payload public_key sign

  -- `verify_report`
  unfoldable pub verify_report :
      Bytes
      → Bytes
      → (issuer audience : String) → (now max_lifetime : ℕ) → Option ReplayBudget
      → Result Verification
  verify_report envelope policy issuer audience now max_lifetime budget = do
    a ← authenticate_envelope codec envelope policy issuer audience now max_lifetime
    ok (
        verification a
          (replay_bounded is_linux worker a.statement.report (some (budget_or_default budget))))
