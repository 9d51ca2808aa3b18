-- ===== src/Proposal/Spending.antt =====
-- foresee/openai_provider.py: what is reserved covers the tokens that the configuration allows.
use project_f.Base.{
  ℕ, ◌+◌, ◌*◌, ◌/◌, ◌≤◌, ltb, String, Option, none, some, List, [], ◌∷◌, inl, inr, Bool-cases,
  arith,
}
use project_f.Json.{Value}
use project_f.Proposal.Bounded.{Transport, Encoding}
use project_f.Proposal.OpenAi.{
  Config, cost, reservation_per_call, Ledger, Writer, job_text, send, exchange_reserved,
}

times_le : (a b p : ℕ) → a ≤ b → a * p ≤ b * p
times_le a b p h = grind arith

ceiling_le : (n : ℕ) → n ≤ ((n + 999999) / 1000000) * 1000000
ceiling_le n = omega arith

-- The tokens of a call at the prices of the configuration, in millionths of a micro-USD.
abbrev pub price : Config → ℕ → ℕ → ℕ
price config input output = config.input_price * input + config.output_price * output

-- What no more than the configured tokens cost is no more than is reserved for a call.
price_le :
    (config : Config) (input output : ℕ)
    → input ≤ config.max_input_tokens
    → output ≤ config.max_output_tokens
    → price config input output ≤ reservation_per_call config * 1000000
unfolding cost reservation_per_call
price_le config input output h k = omega (
  arith,
  times_le input config.max_input_tokens config.input_price h,
  times_le output config.max_output_tokens config.output_price k,
  ceiling_le (
      config.max_input_tokens * config.input_price
      + config.max_output_tokens * config.output_price),
)

-- A worker that uses no more tokens than the configuration has at each of its exchanges; its state
-- has the sum of their prices.
pub record Metering (W : Type 0) (config : Config) : Type 0 where
  pub process : Transport W
  pub input : String → W → ℕ
  pub output : String → W → ℕ
  pub input_within : (job : String) (w : W) → input job w ≤ config.max_input_tokens
  pub output_within : (job : String) (w : W) → output job w ≤ config.max_output_tokens

abbrev pub metered : {W : Type 0} {config : Config} → Metering W config → Transport (W × ℕ)
metered {config} b = record {
  exchange = λ job (w, n).
      let (reply, w') = b.process.exchange job w in
      (reply, (w', n + price config (b.input job w) (b.output job w)));
}

module _ {W : Type 0} (encoding : Encoding) (write : Writer) (max_response_bytes : ℕ)
    (config : Config) (timeout : Value) (b : Metering W config) where
  abbrev step : String → Ledger (W × ℕ) → Ledger (W × ℕ)
  step request l =
      (exchange_reserved encoding write max_response_bytes config timeout (metered b) request l).1

  -- One exchange after another, whatever they give.
  unfoldable pub exchange_all : List String → Ledger (W × ℕ) → Ledger (W × ℕ)
  exchange_all [] l = l
  exchange_all (request ∷ requests) l = exchange_all requests (step request l)

  abbrev Covered : Ledger (W × ℕ) → Type 0
  Covered l = (l.worker_state.1 ≤ l.reserved * 1000000) × (l.reserved ≤ config.max_reserved)

  send-Covered :
      (job : Option String) (l : Ledger (W × ℕ))
      → l.worker_state.1 + reservation_per_call config * 1000000 ≤ l.reserved * 1000000
      → l.reserved ≤ config.max_reserved
      → Covered (send encoding write max_response_bytes config timeout (metered b) job l).1
  send-Covered none l h k = (omega (arith, h), k)
  send-Covered (some job) l h k =
      let w = l.worker_state.0 in
      (
        omega (
          arith,
          h,
          price_le config (b.input job w) (b.output job w) (b.input_within job w)
              (b.output_within job w),
        ),
        k,
      )

  step-Covered : (request : String) (l : Ledger (W × ℕ)) → Covered l → Covered (step request l)
  unfolding exchange_reserved
  step-Covered request l c =
      elim (Bool-cases (ltb config.max_reserved (l.reserved + reservation_per_call config))) [
        | inl y ↦ rw (y, step) c
        | inr n ↦
            rw (n, step)
              (send-Covered
                (job_text encoding write max_response_bytes config timeout (metered b) request)
                (record l { reserved = l.reserved + reservation_per_call config })
                (omega (arith, c.0)) (ground (arith, n)))
      ]

  exchange_all-Covered :
      (requests : List String) (l : Ledger (W × ℕ)) → Covered l → Covered (exchange_all requests l)
  unfolding exchange_all
  exchange_all-Covered [] l c = c
  exchange_all-Covered (request ∷ requests) l c =
      exchange_all-Covered requests (step request l) (step-Covered request l c)

  -- Over any sequence of exchanges of a new transport, if no call of the worker uses more tokens
  -- than configured, the input tokens at the input price and the output tokens at the output price,
  -- in millionths of a micro-USD, sum up to at most a million times what is reserved, and that is at
  -- most what the configuration allows to be reserved.
  pub price_bound :
      (requests : List String) (w : W)
      → let l : Ledger (W × ℕ) =
          exchange_all requests (record { reserved = 0; worker_state = (w, 0) }) in
        (l.worker_state.1 ≤ l.reserved * 1000000) × (l.reserved ≤ config.max_reserved)
  price_bound requests w = exchange_all-Covered requests _ (omega arith, omega arith)
