-- ===== src/Proposal/Tests.antt =====
-- Runs of a provider with a transport that answers at once, and the theorems at concrete inputs.
use Prim.Native.String.{count}
use project_f.Base.{
  ℕ, ◌*◌, ◌+◌, ◌≤◌, arith, String, ◌≡◌, refl, true, false, none, some, List, [], ◌∷◌, ◌==◌,
  if◌then◌else◌,
}
use project_f.Base.Int.{pos}
use project_f.Json.{int, Items, nil, cons, str, arr, obj, field, end}
use project_f.Catalog.Plan.{validate_plan}
use project_f.Catalog.Snapshot.{Snapshot}
use project_f.Proposal.{Budget, answer, failure, call_limit, busy, make_budget}
use project_f.Base.Result.{ok}
use project_f.Proposal.Strict.{
  Raw, raw_obj, raw_arr, raw_str, raw_int, raw_pair, raw_end, raw_cons, raw_nil, build,
}
use project_f.Proposal.Response.{item_count, check_response, check_plans}
use project_f.Proposal.Bounded.{
  Encoding, Transport, Provider, received, propose, acquire, release_lock, call, limited, exchange,
  accept, prepare_request, gather,
}
use project_f.Proposal.Accepted.{ArePlans, propose-ArePlans}
use project_f.Proposal.Limits.{propose_all, calls_bound}
use project_f.Proposal.OpenAi.{Config, Ledger}
use project_f.Proposal.Spending.{Metering, exchange_all, price_bound}

abbrev budget : Budget
budget = record {
  max_calls = 1;
  max_candidates = 4;
  max_patches = 10;
  max_request_bytes = 100;
  max_response_bytes = 100;
}

abbrev raw_answer : Raw
raw_answer = raw_obj (
    raw_pair "version" (raw_int (pos 1)) (
      raw_pair "request_digest" (raw_str "digest") (
        raw_pair "plans"
          (raw_arr (
            raw_cons
              (raw_obj
                (raw_pair "id" (raw_str "repair") (raw_pair "patches" (raw_arr raw_nil) raw_end)))
              raw_nil))
          raw_end)))

abbrev plans : Items
plans = cons (obj (field "id" (str "repair") (field "patches" (arr nil) end))) nil

abbrev encoding : Encoding
encoding = record {
  chunks = λ v. some "request" ∷ [];
  read = λ s. if s == "answer" then some raw_answer else none;
  sha256 = λ s. "digest";
  byte_count = λ s. count s;
}

abbrev transport : Transport ℕ
transport = record { exchange = λ request n. (received false "answer", n + 1) }

abbrev base : Snapshot
base = record { revision = 0; rows = []; digest = "snapshot" }

abbrev fresh : Provider ℕ
fresh = record { calls = 0; locked = false; transport = 0 }

answered_once :
    propose encoding transport budget base "fix" 2 fresh
    ≡ (answer plans, record { calls = 1; locked = false; transport = 1 })
unfolding propose acquire release_lock call limited exchange accept prepare_request gather build
    check_response check_plans validate_plan
answered_once = refl

-- The second call is over the budget.
refused_twice :
    (propose encoding transport budget base "fix" 2
      (record { calls = 1; locked = false; transport = 1 })).0
    ≡ failure call_limit
unfolding propose acquire release_lock call limited exchange prepare_request gather
refused_twice = refl

refused_locked :
    (propose encoding transport budget base "fix" 2
      (record { calls = 0; locked = true; transport = 0 })).0
    ≡ failure busy
unfolding propose acquire
refused_locked = refl

budget_of_values :
    make_budget (int (pos 1)) (int (pos 4)) (int (pos 10)) (int (pos 100)) (int (pos 100)) true
    ≡ ok budget
unfolding make_budget
budget_of_values = refl

first_answer : (propose encoding transport budget base "fix" 2 fresh).0 ≡ answer plans
unfolding propose acquire release_lock call limited exchange accept prepare_request gather build
    check_response check_plans validate_plan
first_answer = refl

propose-ArePlans_example : (2 ≤ 4) × (item_count plans ≤ 2) × ArePlans 10 [] plans
propose-ArePlans_example =
    propose-ArePlans encoding transport budget base "fix" 2 fresh plans first_answer

abbrev requests : List (Snapshot × (String × ℕ))
requests = (base, ("fix", 2)) ∷ (base, ("again", 1)) ∷ (base, ("none", 0)) ∷ []

abbrev after_requests : Provider (ℕ × ℕ)
after_requests =
    propose_all encoding transport budget requests
      (record { calls = 0; locked = false; transport = (0, 0) })

calls_bound_example :
    (after_requests.transport.1 ≡ after_requests.calls) × (after_requests.calls ≤ 1)
calls_bound_example = calls_bound encoding transport budget requests 0

abbrev config : Config
config = record {
  model = "model";
  max_input_tokens = 1000;
  max_output_tokens = 100;
  input_price = 3000000;
  output_price = 12000000;
  max_reserved = 9000;
}

abbrev metering : Metering ℕ config
metering = record {
  process = transport;
  input = λ job n. 1000;
  output = λ job n. 7;
  input_within = λ job n. omega arith;
  output_within = λ job n. omega arith;
}

abbrev after_exchanges : Ledger (ℕ × ℕ)
after_exchanges =
    exchange_all encoding (λ v. some "job") 100 config (int (pos 10)) metering
      ("one" ∷ "two" ∷ "three" ∷ []) (record { reserved = 0; worker_state = (0, 0) })

price_bound_example :
    (after_exchanges.worker_state.1 ≤ after_exchanges.reserved * 1000000)
    × (after_exchanges.reserved ≤ 9000)
price_bound_example =
    price_bound encoding (λ v. some "job") 100 config (int (pos 10)) metering
      ("one" ∷ "two" ∷ "three" ∷ []) 0
