-- ===== src/Runtime/Steps.antt =====
-- foresee/runtime.py: the parts of `exec_statement` and `eval_expr` that evaluate no subexpression.
use project_f.Base.{
  ℕ, ◌+◌, String, Bool, true, false, not, ◌&&◌, ◌||◌, Option, none, some, List, [], ◌∷◌, ◌++◌, ◌==◌,
  map, nat_eq, leb, contains, if◌then◌else◌,
}
use project_f.Base.Result.{
  Result, Error, ok, err, key_error, type_error, index_error, attribute_error, runtime_error,
}
use project_f.Base.Result
use project_f.Json.{Value, obj, arr, str, Items, nil, cons, lookup}
use project_f.Model.{Expr}
use project_f.Compiler.Parts.{forbidden}
use project_f.Compiler.Signatures.{methods}
use project_f.Catalog.Snapshot.{
  Snapshot, apply_to_snapshot, source_fields_unchanged, valid_unit_arithmetic, unresolved_units,
}
use project_f.Runtime.{Trial, Fault, stop, raised, StopStatus, Selection, nothing_eligible, chosen}
use project_f.Runtime.State.{
  Datum, text, number, truth, json, snap, trial_set, selected, Env, Payload, Choice, summary_of,
  Ended, Run, ◌>>=◌, ◌>>◌, pure, raise, lift, or_stop, require, outside, get_env, set_env, Hooks,
  explored, chose, find_name, set_name, find_token, drop_token, catch,
}

-- if branch and op in BRANCH_FORBIDDEN: raise RuntimeError(...)
abbrev pub is_forbidden : Expr → Bool
is_forbidden e = elim (forbidden e) [ none ↦ false | some _ ↦ true ]

unfoldable pub forbid_in_branch : {W : Type 0} → Bool → Expr → Run W (Unit {0})
forbid_in_branch branch e = require (not (branch && is_forbidden e)) "forbidden inside explore"

-- env[name]
unfoldable pub read_name : {W : Type 0} → String → Run W Datum
read_name x = get_env >>= λ env. lift (Result.or_raise (find_name x env.names) (key_error x))

-- env[name] = value
unfoldable pub bind_name : {W : Type 0} → String → Datum → Run W (Unit {0})
bind_name x v = get_env >>= λ env. set_env (record env { names = set_name x v env.names })

abbrev pub as_truth : Datum → Result Bool
as_truth (truth b) = ok b
as_truth _ = err (runtime_error "check requires a Boolean")

abbrev pub as_number : Datum → Result ℕ
as_number (number n) = ok n
as_number _ = err (runtime_error "measure requires an integer")

-- env.setdefault("__checks__", []).append(...)
unfoldable pub note_check : {W : Type 0} → Bool → String → Run W (Unit {0})
note_check passed message =
    get_env >>= λ env. set_env (record env { checks = env.checks ++ (passed, message) ∷ [] })

abbrev pub set_metric : String → ℕ → List (String × ℕ) → List (String × ℕ)
set_metric x n [] = (x, n) ∷ []
set_metric x n ((y, m) ∷ metrics) =
    if y == x then (y, n) ∷ metrics else (y, m) ∷ set_metric x n metrics

unfoldable pub note_metric : {W : Type 0} → String → ℕ → Run W (Unit {0})
note_metric x n = get_env >>= λ env. set_env (record env { metrics = set_metric x n env.metrics })

-- env["__simulations__"] = env.get("__simulations__", 0) + 1, and its limit
unfoldable pub count_simulation : {W : Type 0} → Run W (Unit {0})
count_simulation = do
  env ← get_env
  set_env (record env { simulations = env.simulations + 1 })
  require (nat_eq (env.simulations + 1) 1) "only one simulation is permitted per branch"

-- Three arguments: a snapshot, a text and a number from 1 to 4
abbrev pub proposal_of : List Datum → Result (Snapshot × (String × ℕ))
proposal_of (snap base ∷ text prompt ∷ number limit ∷ []) =
    if leb 1 limit && leb limit 4
    then ok (base, (prompt, limit))
    else err (runtime_error "invalid fixture proposal arguments")
proposal_of _ = err (runtime_error "invalid fixture proposal arguments")

abbrev pub snapshots_of : List Datum → Option (List Snapshot)
snapshots_of [] = some []
snapshots_of (snap s ∷ vs) = elim (snapshots_of vs) [ none ↦ none | some ss ↦ some (s ∷ ss) ]
snapshots_of _ = none

-- CATALOG_METHODS[name](*args), on as many snapshots as METHODS[name] says
abbrev pub call_method : String → Option (List Snapshot) → Result Datum
call_method method (some (a ∷ b ∷ [])) =
    if method == "source_fields_unchanged"
    then Result.◌>>=◌ (source_fields_unchanged a b) (λ r. ok (truth r))
    else err (runtime_error "invalid resource method arguments")
call_method method (some (a ∷ [])) =
    if method == "valid_unit_arithmetic"
    then Result.◌>>=◌ (valid_unit_arithmetic a) (λ r. ok (truth r))
    else if method == "unresolved_units"
    then Result.◌>>=◌ (unresolved_units a) (λ n. ok (number n))
    else err (runtime_error "invalid resource method arguments")
call_method method _ = err (runtime_error "invalid resource method arguments")

abbrev pub is_method : String → Bool
is_method method = elim (methods method) [ none ↦ false | some _ ↦ true ]

-- Catalog.apply_to_snapshot(env.get("__base__"), args[0])
unfoldable pub simulate_on : (Value → String) → Option Datum → List Datum → Result Datum
simulate_on stable_digest (some (snap base)) (json plan ∷ more) =
    Result.◌>>=◌ (apply_to_snapshot stable_digest base plan) λ s. ok (snap s)
simulate_on stable_digest _ _ = err (type_error "simulation arguments")

-- isinstance(p, dict) and isinstance(p.get("id"), str) and isinstance(p.get("patches"), list)
abbrev pub text_of : Option Value → Option String
text_of (some (str s)) = some s
text_of _ = none

abbrev pub is_list : Option Value → Bool
is_list (some (arr vs)) = true
is_list _ = false

abbrev pub plan_id_of : Value → Option String
plan_id_of (obj d) = if is_list (lookup "patches" d) then text_of (lookup "id" d) else none
plan_id_of _ = none

abbrev pub named_plans : Items → Option (List (String × Value))
named_plans nil = some []
named_plans (cons v vs) = elim (plan_id_of v) [
  | none ↦ none
  | some id ↦ elim (named_plans vs) [ none ↦ none | some rest ↦ some ((id, v) ∷ rest) ]
]

abbrev pub has_duplicate : List (String × Value) → Bool
has_duplicate [] = false
has_duplicate ((id, v) ∷ plans) = contains (map (λ p. p.0) plans) id || has_duplicate plans

-- The plans of an exploration, with their ids
abbrev pub plans_in : Datum → Option (List (String × Value))
plans_in (json (arr vs)) = elim (named_plans vs) [
  | none ↦ none
  | some plans ↦ if has_duplicate plans then none else some plans
]
plans_in _ = none

unfoldable pub explorable_plans : {W : Type 0} → Datum → Run W (List (String × Value))
explorable_plans v = or_stop (plans_in v) StopStatus.invalid_plans

-- snapshot_json(base) reads the fields of a snapshot
abbrev pub as_snapshot : Datum → Result Snapshot
as_snapshot (snap base) = ok base
as_snapshot _ = err (attribute_error "revision")

abbrev pub enter : String → Value → Datum → Env → Env
enter item plan base env = record {
  names = set_name item (json plan) env.names;
  base = some base;
  checks = [];
  metrics = [];
  simulations = 0;
}

unfoldable pub require_simulation : {W : Type 0} → Run W (Unit {0})
require_simulation = do
  env ← get_env
  require (nat_eq env.simulations 1) "branch must execute one simulation"

-- trial = {...}
abbrev pub trial_of : String × Value → Snapshot → Env → Option Fault → Trial
trial_of (id, plan) base local error = record {
  plan_id = id;
  plan = plan;
  base = base;
  checks = local.checks;
  metrics = local.metrics;
  error = error;
}

-- The end of the branch, whose names are left for the ones outside.
unfoldable pub close_trial :
    {W : Type 0} → Env → Datum → String × Value → Option Fault → Run W Trial
close_trial outer base plan error = do
  local ← get_env
  set_env outer
  start ← lift (as_snapshot base)
  pure (trial_of plan start local error)

-- One turn of the loop of an exploration, whose body is `body`: what it raises is the trial's error.
unfoldable pub run_trial :
    {W : Type 0} → Run W (Unit {0}) → String → Datum → String × Value → Run W Trial
run_trial body item base plan = do
  outer ← get_env
  set_env (enter item plan.1 base outer)
  error ← catch (body >> require_simulation)
  close_trial outer base plan error

unfoldable pub run_trials :
    {W : Type 0} → Run W (Unit {0}) → String → Datum → List (String × Value) → Run W (List Trial)
run_trials body item base [] = pure []
run_trials body item base (plan ∷ plans) = do
  t ← run_trial body item base plan
  ts ← run_trials body item base plans
  pure (t ∷ ts)

unfoldable pub set_exploration : {W : Type 0} → List Trial → Run W (Unit {0})
set_exploration trials s = (Ended.value tt, record s { exploration = trials })

-- token = TrialSet(); self._trials[token] = trials
unfoldable pub hold_trials : {W : Type 0} → List Trial → Run W Datum
hold_trials trials s = (
  Ended.value (trial_set s.fresh),
  record s { trials = (s.fresh, trials) ∷ s.trials; fresh = s.fresh + 1 },
)

-- self.exploration = ..., and the token of the trials
unfoldable pub keep_trials : {W : Type 0} → Hooks W → List Trial → Run W Datum
keep_trials hooks trials = do
  set_exploration trials
  outside (hooks.observe (explored (map summary_of trials)))
  hold_trials trials

abbrev unknown_trials : Error
unknown_trials = runtime_error "selection requires a completed exploration from this runtime"

abbrev pub known_trials : Datum → List (ℕ × List Trial) → Result (List Trial)
known_trials (trial_set n) trials = Result.or_raise (find_token n trials) unknown_trials
known_trials _ trials = err unknown_trials

unfoldable pub trials_of : {W : Type 0} → Datum → Run W (List Trial)
trials_of token s = lift (known_trials token s.trials) s

-- names[0]
abbrev pub first_name : List String → Result String
first_name [] = err (index_error "list index out of range")
first_name (name ∷ names) = ok name

-- selection, and what self.selection keeps of it
abbrev pub payload_of : String → ℕ → Trial → Payload
payload_of metric score t = record { plan = t.plan; base = t.base; metric = metric; score = score }

abbrev pub choice_of : String → ℕ → Trial → Choice
choice_of metric score t = record { plan_id = t.plan_id; metric = metric; score = score }

unfoldable pub set_selection : {W : Type 0} → Choice → Run W (Unit {0})
set_selection choice s = (Ended.value tt, record s { selection = some choice })

-- capability = Selected(); self._selections[capability] = (resource, selection)
unfoldable pub hold : {W : Type 0} → String → Payload → Run W Datum
hold resource payload s = (
  Ended.value (selected s.fresh),
  record s { selections = (s.fresh, (resource, payload)) ∷ s.selections; fresh = s.fresh + 1 },
)

-- self.selection = ..., and the token that holds the payload
unfoldable pub keep_selection :
    {W : Type 0} → Hooks W → List String → String → Selection → Run W Datum
keep_selection hooks resource_names metric nothing_eligible =
    raise (stop StopStatus.no_eligible_candidate)
keep_selection hooks resource_names metric (chosen score t) = do
  set_selection (choice_of metric score t)
  outside (hooks.observe (chose (choice_of metric score t)))
  resource ← lift (first_name resource_names)
  hold resource (payload_of metric score t)

-- del self._selections[selected], if the resource is the one of the selection
unfoldable pub release : {W : Type 0} → Bool → ℕ → Payload → Run W Payload
release true n payload s =
    (Ended.value payload, record s { selections = drop_token n s.selections })
release false n payload s =
    raise (raised (runtime_error "selection belongs to a different resource")) s

abbrev pub with_token : ℕ → Option (String × Payload) → Option (ℕ × (String × Payload))
with_token n none = none
with_token n (some p) = some (n, p)

abbrev pub find_held : Datum → List (ℕ × (String × Payload)) → Option (ℕ × (String × Payload))
find_held (selected n) held = with_token n (find_token n held)
find_held _ held = none

unfoldable pub release_found :
    {W : Type 0} → String → Option (ℕ × (String × Payload)) → Run W Payload
release_found resource none =
    raise (raised (runtime_error "selection is forged, foreign, or already consumed"))
release_found resource (some (n, (owner, payload))) = release (owner == resource) n payload

-- The payload of a selection that this runtime holds, which is taken from it.
unfoldable pub spend : {W : Type 0} → String → Datum → Run W Payload
spend resource token s = release_found resource (find_held token s.selections) s
