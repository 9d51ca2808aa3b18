-- ===== src/Catalog/Request.antt =====
-- foresee/catalog.py: `commit_identity`, and the guards of `Catalog.commit` on its arguments.
use Prim.Native.String.{count}
use project_f.Base.{String, ◌≡◌, arith, Bool, true, not, ◌&&◌, Option, none, some, ◌==◌, leb}
use project_f.Base.Int.{pos}
use project_f.Base.Result.{Result, ok, value_error, guard, or_raise, ◌>>=◌, ◌>>◌}
use project_f.Json.{Value, null, int, str, obj, Fields, end, field, lookup}
use project_f.Catalog.Plan.{name_of, validate_plan}

-- {"protocol": 2, ...}: of the operation alone, or else of the program and the snapshot
abbrev pub identity : String → String → Option String → Value
identity program before (some operation) =
    obj (field "protocol" (int (pos 2)) (field "operation" (str operation) end))
identity program before none = obj (
    field "protocol" (int (pos 2)) (
      field "program" (str program)
        (field "snapshot" (str before) (field "resource" (str "catalog") end))))

abbrev pub intent : String → String → Value → Value
intent program before plan = obj (
    field "program_digest" (str program) (
      field "resource" (str "catalog")
        (field "snapshot_digest" (str before) (field "plan" plan end))))

-- `commit_identity`, on selection["base"]["digest"] and selection["plan"]
unfoldable pub commit_identity :
    (Value → String) → String → Value → String → Option String → String × String
commit_identity stable_digest before plan program operation =
    (stable_digest (identity program before operation), stable_digest (intent program before plan))

abbrev pub base_of : Value → Option Fields
base_of (obj selection) = elim (lookup "base" selection) [
  | none ↦ none
  | some v ↦ elim v [ obj base ↦ some base | _ ↦ none ]
]
base_of _ = none

-- selection.get("plan")
abbrev pub plan_of : Value → Value
plan_of (obj selection) = elim (lookup "plan" selection) [ none ↦ null | some v ↦ v ]
plan_of _ = null

abbrev pub operation_ok : Option String → Bool
operation_ok none = true
operation_ok (some operation) = not (operation == "") && leb (count operation) 256

-- What passes is the digest of the base snapshot and the plan.
unfoldable pub check_request : Value → String → Option String → Result (String × Value)
check_request selection program operation = do
  base ← or_raise (base_of selection) (value_error "selection requires a base snapshot")
  guard (not (program == "")) (value_error "program digest is required")
  before ← or_raise (name_of (lookup "digest" base)) (value_error "snapshot digest is required")
  validate_plan (plan_of selection)
  guard (operation_ok operation)
      (value_error "operation ID must be a nonempty string of at most 256 characters")
  ok (before, plan_of selection)

-- A request that passes has a valid plan.
pub check_request-validate_plan :
    (selection : Value) (program : String) (operation : Option String) {before : String}
    {plan : Value}
    → check_request selection program operation ≡ ok (before, plan)
    → validate_plan plan ≡ ok tt
unfolding check_request
check_request-validate_plan selection program operation h = ground arith
