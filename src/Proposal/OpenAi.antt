-- ===== src/Proposal/OpenAi.antt =====
-- foresee/openai_provider.py: `OpenAIConfig`, and `OpenAITransport` with its ledger of reservations.
-- The worker process is a transport; `fullmatch` is that of Python's re.
use project_f.Base.{
  ℕ, ◌+◌, ◌*◌, ◌/◌, ltb, nat_eq, String, Bool, ◌&&◌, Option, none, some, List, [], ◌∷◌, contains,
  if◌then◌else◌,
}
use project_f.Base.Int.{pos}
use project_f.Base.Result.{Result, ok, value_error, or_raise, ◌>>=◌}
use project_f.Json.{Value, int, str, obj, Fields, end, field, lookup, has, size}
use project_f.Proposal.{worker, invalid_response, response_limit, spend_limit, whole}
use project_f.Proposal.Strict.{built}
use project_f.Proposal.Bounded.{
  Reply, received, not_bytes, refused, timed_out, failed, Transport, Encoding,
}

abbrev pub error_codes : List String
error_codes =
    "missing_credentials" ∷ "authentication_error" ∷ "rate_limit" ∷ "http_error" ∷ "transport_error"
    ∷ "timeout" ∷ "response_limit" ∷ "invalid_response" ∷ "input_token_limit" ∷ "usage_limit"
    ∷ "model_refusal" ∷ "incomplete_response" ∷ []

pub record Config : Type 0 where
  pub model : String
  pub max_input_tokens : ℕ
  pub max_output_tokens : ℕ
  pub input_price : ℕ
  pub output_price : ℕ
  pub max_reserved : ℕ

abbrev pub model_of : (String → String → Bool) → Value → Option String
model_of fullmatch (str s) =
    if fullmatch "[a-zA-Z0-9][a-zA-Z0-9._:-]{0,199}" s then some s else none
model_of fullmatch _ = none

-- `__post_init__`
unfoldable pub make_config :
    (String → String → Bool)
    → (model input_tokens output_tokens input_price output_price reserved : Value) → Result Config
make_config fullmatch model input_tokens output_tokens input_price output_price reserved = do
  m ← or_raise (model_of fullmatch model) (value_error "an explicit model ID is required")
  i ← or_raise (whole input_tokens 1000000) (value_error "max_input_tokens")
  o ← or_raise (whole output_tokens 100000) (value_error "max_output_tokens")
  p ← or_raise (whole input_price 1000000000000) (value_error "input_price_micro_usd_per_million")
  q ← or_raise (whole output_price 1000000000000) (value_error "output_price_micro_usd_per_million")
  r ← or_raise (whole reserved 1000000000000) (value_error "max_reserved_micro_usd")
  ok (record {
    model = m;
    max_input_tokens = i;
    max_output_tokens = o;
    input_price = p;
    output_price = q;
    max_reserved = r;
  })

-- In micro-USD, times a million
unfoldable pub cost : Config → ℕ → ℕ → ℕ
cost config input output = input * config.input_price + output * config.output_price

-- `reservation_per_call`
unfoldable pub reservation_per_call : Config → ℕ
unfolding cost
reservation_per_call config =
    (cost config config.max_input_tokens config.max_output_tokens + 999999) / 1000000

-- self._reserved, beside the worker
pub record Ledger (W : Type 0) : Type 0 where
  pub reserved : ℕ
  pub worker_state : W

-- json.dumps of the result, `none` where it raises
abbrev pub Writer : Type 0
Writer = Value → Option String

abbrev pub job_value : Config → Value → String → Value
job_value config timeout request = obj (
    field "config"
      (obj (
        field "model" (str config.model) (
          field "max_input_tokens" (int (pos config.max_input_tokens)) (
            field "max_output_tokens" (int (pos config.max_output_tokens)) (
              field "input_price_micro_usd_per_million" (int (pos config.input_price)) (
                field "output_price_micro_usd_per_million" (int (pos config.output_price))
                  (field "max_reserved_micro_usd" (int (pos config.max_reserved)) end)))))))
      (field "request" (str request) (field "timeout_seconds" timeout end)))

-- value["error"] in ERROR_CODES
abbrev pub error_of : Fields → Option String
error_of d = elim (lookup "error" d) [
  | none ↦ none
  | some v ↦ elim v [ str s ↦ if contains error_codes s then some s else none | _ ↦ none ]
]

abbrev pub proposal_in : Fields → Option Value
proposal_in d = elim (lookup "proposal" d) [
  | none ↦ none
  | some v ↦ elim v [ obj p ↦ some (obj p) | _ ↦ none ]
]

module _ (encoding : Encoding) (write : Writer) (max_response_bytes : ℕ) where
  abbrev pub deliver : Bool → Option String → Reply
  deliver late none = refused invalid_response
  deliver late (some result) =
      if ltb max_response_bytes (encoding.byte_count result)
      then refused response_limit
      else received late result

  abbrev pub written : Option Value → Option String
  written none = none
  written (some v) = write v

  -- The `try` block on what the worker has written
  unfoldable pub unwrap : Bool → Result Value → Reply
  unwrap late (ok (obj d)) =
      if nat_eq (size d) 1 && has "error" d
      then elim (error_of d) [ none ↦ refused invalid_response | some code ↦ refused (worker code) ]
      else if nat_eq (size d) 1 && has "proposal" d
      then deliver late (written (proposal_in d))
      else refused invalid_response
  unwrap late _ = refused invalid_response

  unfoldable pub relay : Reply → Reply
  relay (received late raw) = unwrap late (built (encoding.read raw))
  relay (not_bytes late) = failed
  relay (refused code) = refused code
  relay timed_out = timed_out
  relay failed = failed

module _ {W : Type 0} (encoding : Encoding) (write : Writer) (max_response_bytes : ℕ)
    (config : Config) (timeout : Value) (process : Transport W) where
  -- json.dumps(...).encode()
  abbrev pub job_text : String → Option String
  job_text request = write (job_value config timeout request)

  abbrev pub send : Option String → Ledger W → Reply × Ledger W
  send none l = (failed, l)
  send (some job) l =
      let (reply, w) = process.exchange job l.worker_state in
      (relay encoding write max_response_bytes reply, record l { worker_state = w })

  -- `exchange`; what is reserved is never given back.
  unfoldable pub exchange_reserved : String → Ledger W → Reply × Ledger W
  exchange_reserved request l =
      if ltb config.max_reserved (l.reserved + reservation_per_call config)
      then (refused spend_limit, l)
      else send (job_text request)
          (record l { reserved = l.reserved + reservation_per_call config })

  -- `OpenAITransport`, for `BoundedModelProvider`
  unfoldable pub openai_transport : Transport (Ledger W)
  openai_transport = record { exchange = exchange_reserved }
