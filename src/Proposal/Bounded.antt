-- ===== src/Proposal/Bounded.antt =====
-- foresee/model_provider.py: `BoundedModelProvider`. The JSON encoder gives the request in chunks,
-- or raises (`none`); texts stand for the bytes that they are encoded as.
use Prim.Native.String.{count, ◌++◌ as append_text}
use project_f.Base.{
  ℕ, ◌+◌, ltb, leb, String, Bool, true, false, ◌&&◌, Option, none, some, List, [], ◌∷◌,
  if◌then◌else◌,
}
use project_f.Base.Int.{pos}
use project_f.Base.Result.{Result, ok, err}
use project_f.Json.{Value, int, str, Items, end, field, obj}
use project_f.Catalog.Snapshot.{Snapshot}
use project_f.Runtime.Written.{snapshot_json}
use project_f.Proposal.{
  Code, busy, invalid_request, request_limit, call_limit, transport_error, timeout,
  invalid_response, response_limit, Answer, failure, answer, Budget,
}
use project_f.Proposal.Strict.{Raw, built}
use project_f.Proposal.Response.{check_response}

-- What `transport.exchange` does; `late` tells that the deadline has passed when it returns.
pub data Reply : Type 0 where
  received : (late : Bool) → String → Reply
  not_bytes : (late : Bool) → Reply
  refused : Code → Reply
  timed_out failed : Reply

pub record Transport (T : Type 0) : Type 0 where
  pub exchange : String → T → Reply × T

-- What is not under src: the encoder, the decoder, SHA-256 and the size in bytes.
pub record Encoding : Type 0 where
  pub chunks : Value → List (Option String)
  pub read : String → Option Raw
  pub sha256 : String → String
  pub byte_count : String → ℕ

-- self._calls and the lock, beside the state of the transport
pub record Provider (T : Type 0) : Type 0 where
  pub calls : ℕ
  pub locked : Bool
  pub transport : T

abbrev pub request_value : Snapshot → String → ℕ → Value
request_value base prompt limit = obj (
    field "version" (int (pos 1)) (
      field "snapshot" (snapshot_json base)
        (field "prompt" (str prompt) (field "limit" (int (pos limit)) end))))

module _ {T : Type 0} (encoding : Encoding) (transport : Transport T) (budget : Budget) where
  -- for chunk in ...: request.extend(...)
  unfoldable pub gather : String → List (Option String) → Answer String
  gather request [] = answer request
  gather request (none ∷ chunks) = failure invalid_request
  gather request (some chunk ∷ chunks) =
      let longer = append_text request chunk in
      if ltb budget.max_request_bytes (encoding.byte_count longer)
      then failure request_limit
      else gather longer chunks

  -- The tests before the call is counted, and the request
  unfoldable pub prepare_request : Snapshot → String → ℕ → Answer String
  prepare_request base prompt limit =
      if leb 1 limit && leb limit budget.max_candidates
      then (if ltb budget.max_request_bytes (count prompt)
          then failure request_limit
          else gather "" (encoding.chunks (request_value base prompt limit)))
      else failure invalid_request

  abbrev pub answered : Result Items → Answer Items
  answered (ok plans) = answer plans
  answered (err e) = failure invalid_response

  abbrev pub read_response : String → ℕ → Option Raw → Result Value → Answer Items
  read_response request limit none v = failure invalid_response
  read_response request limit (some raw) (err e) = failure invalid_response
  read_response request limit (some raw) (ok v) =
      answered (check_response budget.max_patches limit (encoding.sha256 request) v)

  -- The rest of `_propose`, on the outcome of the exchange
  unfoldable pub accept : String → ℕ → Reply → Answer Items
  accept request limit (refused code) = failure code
  accept request limit timed_out = failure timeout
  accept request limit failed = failure transport_error
  accept request limit (not_bytes late) = if late then failure timeout else failure invalid_response
  accept request limit (received late response) =
      if late
      then failure timeout
      else if ltb budget.max_response_bytes (encoding.byte_count response)
      then failure response_limit
      else read_response request limit (encoding.read response) (built (encoding.read response))

  unfoldable pub exchange : String → ℕ → Provider T → Answer Items × Provider T
  exchange request limit p =
      let (reply, t) = transport.exchange request p.transport in
      (accept request limit reply, record p { calls = p.calls + 1; transport = t })

  -- if self._calls >= budget.max_calls: ...
  unfoldable pub limited : Bool → String → ℕ → Provider T → Answer Items × Provider T
  limited true request limit p = (failure call_limit, p)
  limited false request limit p = exchange request limit p

  -- `_propose`, from the request on
  unfoldable pub call : ℕ → Answer String → Provider T → Answer Items × Provider T
  call limit (failure code) p = (failure code, p)
  call limit (answer request) p = limited (leb budget.max_calls p.calls) request limit p

  -- self._lock.release()
  unfoldable pub release_lock : Answer Items × Provider T → Answer Items × Provider T
  release_lock (r, p) = (r, record p { locked = false })

  -- if not self._lock.acquire(blocking=False): ...
  unfoldable pub acquire : Bool → Snapshot → String → ℕ → Provider T → Answer Items × Provider T
  acquire true base prompt limit p = (failure busy, p)
  acquire false base prompt limit p =
      release_lock (call limit (prepare_request base prompt limit) (record p { locked = true }))

  -- `propose`
  unfoldable pub propose : Snapshot → String → ℕ → Provider T → Answer Items × Provider T
  propose base prompt limit p = acquire p.locked base prompt limit p
