-- ===== src/Proposal.antt =====
-- foresee/model_provider.py: the budget of a model provider, and the errors of a proposal.
pub mod Strict
pub mod Response
pub mod Bounded
pub mod OpenAi
pub mod Accepted
pub mod Limits
pub mod Spending
mod Tests
use project_f.Base.{ℕ, ◌≤◌, String, Bool, true, false, ◌&&◌, Option, none, some, leb, if◌then◌else◌}
use project_f.Base.Int.{ℤ, pos}
use project_f.Base.Result.{Result, ok, err, value_error, guard, or_raise, ◌>>=◌, ◌>>◌}
use project_f.Json.{Value, int}

-- `ProposalFailure.code`; a worker has codes of its own.
pub data Code : Type 0 where
  busy invalid_request request_limit call_limit transport_error timeout : Code
  invalid_response response_limit spend_limit : Code
  worker : String → Code

pub data Answer {ℓ} (A : Type ℓ) : Type ℓ where
  failure : Code → Answer A
  answer : A → Answer A

pub record Budget : Type 0 where
  pub max_calls : ℕ
  pub max_candidates : ℕ
  pub max_patches : ℕ
  pub max_request_bytes : ℕ
  pub max_response_bytes : ℕ

-- type(value) is int and 1 <= value <= ceiling
abbrev pub whole : Value → ℕ → Option ℕ
whole (int (pos n)) ceiling = if leb 1 n && leb n ceiling then some n else none
whole _ ceiling = none

-- `__post_init__`; `timeout_fits` is the test of the timeout, which is a float.
unfoldable pub make_budget :
    (calls candidates patches request response : Value) (timeout_fits : Bool) → Result Budget
make_budget calls candidates patches request response timeout_fits = do
  c ← or_raise (whole calls 100) (value_error "max_calls must be an integer from 1 to 100")
  n ← or_raise (whole candidates 4) (value_error "max_candidates must be an integer from 1 to 4")
  p ← or_raise (whole patches 1000) (value_error "max_patches must be an integer from 1 to 1000")
  q ←
      or_raise (whole request 2000000)
        (value_error "max_request_bytes must be an integer from 1 to 2000000")
  r ←
      or_raise (whole response 2000000)
        (value_error "max_response_bytes must be an integer from 1 to 2000000")
  guard timeout_fits (value_error "timeout_seconds must be finite, positive, and at most 120")
  ok (record {
    max_calls = c;
    max_candidates = n;
    max_patches = p;
    max_request_bytes = q;
    max_response_bytes = r;
  })
