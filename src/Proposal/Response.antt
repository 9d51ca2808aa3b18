-- ===== src/Proposal/Response.antt =====
-- foresee/model_provider.py: the tests of `BoundedModelProvider._propose` on an answer.
use project_f.Base.{
  ℕ, ◌+◌, String, Bool, false, not, ◌&&◌, Option, none, some, List, [], ◌∷◌, ◌==◌, nat_eq, leb,
  contains,
}
use project_f.Base.Int.{pos}
use project_f.Base.Result.{Result, ok, err, value_error, key_error, or_raise, guard, ◌>>=◌, ◌>>◌}
use project_f.Json.{Value, int, str, arr, obj, Items, nil, cons, Fields, lookup, has, size}
use project_f.Catalog.Plan.{name_of, validate_plan}

abbrev pub item_count : Items → ℕ
item_count nil = 0
item_count (cons v vs) = item_count vs + 1

abbrev pub patches_fit : ℕ → Value → Bool
patches_fit max_patches (obj plan) = elim (lookup "patches" plan) [
  | none ↦ false
  | some v ↦ elim v [ arr patches ↦ leb (item_count patches) max_patches | _ ↦ false ]
]
patches_fit max_patches _ = false

abbrev pub id_of : Value → Option String
id_of (obj plan) = name_of (lookup "id" plan)
id_of _ = none

-- The loop over value["plans"], with the set of the ids.
unfoldable pub check_plans : ℕ → List String → Items → Result (Unit {0})
check_plans max_patches ids nil = ok tt
check_plans max_patches ids (cons plan plans) = do
  guard (patches_fit max_patches plan) (value_error "invalid patch count")
  validate_plan plan
  id ← or_raise (id_of plan) (key_error "id")
  guard (not (contains ids id)) (value_error "duplicate candidate")
  check_plans max_patches (id ∷ ids) plans

abbrev pub is_version : Option Value → Bool
is_version (some (int (pos n))) = nat_eq n 1
is_version _ = false

abbrev pub is_digest : String → Option Value → Bool
is_digest digest (some (str s)) = s == digest
is_digest digest _ = false

abbrev pub plans_of : Option Value → Option Items
plans_of (some (arr plans)) = some plans
plans_of _ = none

-- set(value) == {"version", "request_digest", "plans"}
abbrev pub has_envelope_keys : Fields → Bool
has_envelope_keys d =
    nat_eq (size d) 3 && has "version" d && has "request_digest" d && has "plans" d

-- The `try` block on the value that was read: its plans
unfoldable pub check_response : ℕ → ℕ → String → Value → Result Items
check_response max_patches limit digest (obj d) = do
  guard
      (has_envelope_keys d
        && is_version (lookup "version" d)
        && is_digest digest (lookup "request_digest" d))
      (value_error "invalid response envelope")
  plans ← or_raise (plans_of (lookup "plans" d)) (value_error "invalid response envelope")
  guard (leb (item_count plans) limit) (value_error "invalid response envelope")
  check_plans max_patches [] plans
  ok plans
check_response max_patches limit digest _ = err (value_error "invalid response envelope")
