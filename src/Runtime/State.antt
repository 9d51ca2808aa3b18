-- ===== src/Runtime/State.antt =====
-- foresee/runtime.py: the values of a decision, the state of `Runtime`, and its methods as actions
-- that return the state also when they raise.
use project_f.Base.{
  ℕ, String, Bool, true, false, Option, none, some, List, [], ◌∷◌, ◌==◌, nat_eq, if◌then◌else◌,
}
use project_f.Base.Result.{Result, ok, err, runtime_error}
use project_f.Json.{Value}
use project_f.Catalog.Snapshot.{Snapshot}
use project_f.Catalog.Commit.{Outcome}
use project_f.Runtime.{Trial, Fault, raised, stop, StopStatus, is_eligible}

-- A token is the identity of a `TrialSet` or a `Selected`: a number of the runtime that made it.
pub data Datum : Type 0 where
  text : String → Datum
  number : ℕ → Datum
  truth : Bool → Datum
  json : Value → Datum
  snap : Snapshot → Datum
  trial_set selected : ℕ → Datum
  committed : Outcome → Datum

-- `env`, with what it keeps in a branch under the names `__base__`, `__checks__`, `__metrics__`
-- and `__simulations__`.
pub record Env : Type 0 where
  pub names : List (String × Datum)
  pub base : Option Datum
  pub checks : List (Bool × String)
  pub metrics : List (String × ℕ)
  pub simulations : ℕ

-- selection, what `commit` is given
pub record Payload : Type 0 where
  pub plan : Value
  pub base : Snapshot
  pub metric : String
  pub score : ℕ

-- self.selection
pub record Choice : Type 0 where
  pub plan_id : String
  pub metric : String
  pub score : ℕ

-- An entry of self.exploration
pub record Summary : Type 0 where
  pub plan_id : String
  pub eligible : Bool
  pub checks : List (Bool × String)
  pub metrics : List (String × ℕ)
  pub error : Option Fault

abbrev pub summary_of : Trial → Summary
summary_of t = record {
  plan_id = t.plan_id;
  eligible = is_eligible t;
  checks = t.checks;
  metrics = t.metrics;
  error = t.error;
}

-- The kind and the data of an event, with the outcome of a commit as it is kept.
pub data EventOf (O : Type 0) : Type 0 where
  snapshot_read : String → Snapshot → EventOf O
  plans_proposed : String → String → String → ℕ → Value → EventOf O
  explored : List Summary → EventOf O
  chose : Choice → EventOf O
  commit_made : Payload → Option String → O → EventOf O

abbrev pub Event : Type 0
Event = EventOf Outcome

-- self.events, and what the operations of the runtime reach outside it.
pub record Log (W : Type 0) : Type 0 where
  pub events : List Event
  pub world : W

pub record State (W : Type 0) : Type 0 where
  pub env : Env
  pub exploration : List Trial
  pub selection : Option Choice
  -- self._selections and self._trials
  pub selections : List (ℕ × (String × Payload))
  pub trials : List (ℕ × List Trial)
  pub fresh : ℕ
  pub log : Log W

pub data Ended (A : Type 0) : Type 0 where
  value : A → Ended A
  fault : Fault → Ended A

-- The operations that `OfflineRuntime` overrides act on the log alone.
abbrev pub Action : Type 0 → Type 0 → Type 0
Action W A = Log W → Ended A × Log W

pub record Hooks (W : Type 0) : Type 0 where
  pub observe : Event → Action W (Unit {0})
  pub read_snapshot : String → Action W Snapshot
  pub propose_plans : String → Snapshot → String → ℕ → Action W Value
  pub apply_selection : Payload → Action W Outcome

abbrev pub Run : Type 0 → Type 0 → Type 0
Run W A = State W → Ended A × State W

-- What raises ends the block.
unfoldable pub next : {W A B : Type 0} → (A → Run W B) → Ended A × State W → Ended B × State W
next f (value a, s) = f a s
next f (fault e, s) = (fault e, s)

infixl 5 ◌>>=◌ ◌>>◌
unfoldable pub ◌>>=◌ : {W A B : Type 0} → Run W A → (A → Run W B) → Run W B
unfolding next
◌>>=◌ m f s = next f (m s)

abbrev pub ◌>>◌ : {W B : Type 0} → Run W (Unit {0}) → Run W B → Run W B
m >> k = m >>= λ _. k

unfoldable pub pure : {W A : Type 0} → A → Run W A
pure a s = (value a, s)

unfoldable pub raise : {W A : Type 0} → Fault → Run W A
raise e s = (fault e, s)

unfoldable pub lift : {W A : Type 0} → Result A → Run W A
unfolding pure raise
lift (ok a) = pure a
lift (err e) = raise (raised e)

-- What is missing stops the decision.
unfoldable pub or_stop : {W A : Type 0} → Option A → StopStatus → Run W A
unfolding pure raise
or_stop (some a) status = pure a
or_stop none status = raise (stop status)

-- if not allowed: raise RuntimeError(message)
unfoldable pub require : {W : Type 0} → Bool → String → Run W (Unit {0})
unfolding pure raise
require true message = pure tt
require false message = raise (raised (runtime_error message))

-- An operation on the log.
unfoldable pub outside : {W A : Type 0} → Action W A → Run W A
outside m s = let (r, log) = m s.log in (r, record s { log = log })

unfoldable pub get_env : {W : Type 0} → Run W Env
get_env s = (value s.env, s)

unfoldable pub set_env : {W : Type 0} → Env → Run W (Unit {0})
set_env env s = (value tt, record s { env = env })

-- try: ... except Exception
unfoldable pub caught : {W : Type 0} → Ended (Unit {0}) × State W → Ended (Option Fault) × State W
caught (value a, s) = (value none, s)
caught (fault e, s) = (value (some e), s)

unfoldable pub catch : {W : Type 0} → Run W (Unit {0}) → Run W (Option Fault)
unfolding caught
catch m s = caught (m s)

unfoldable pub find_name : String → List (String × Datum) → Option Datum
find_name x [] = none
find_name x ((y, v) ∷ names) = if y == x then some v else find_name x names

unfoldable pub set_name : String → Datum → List (String × Datum) → List (String × Datum)
set_name x v [] = (x, v) ∷ []
set_name x v ((y, w) ∷ names) = if y == x then (y, v) ∷ names else (y, w) ∷ set_name x v names

unfoldable pub find_token {ℓ} : {A : Type ℓ} → ℕ → List (ℕ × A) → Option A
find_token n [] = none
find_token n ((k, a) ∷ held) = if nat_eq k n then some a else find_token n held

-- del held[n]
unfoldable pub drop_token {ℓ} : {A : Type ℓ} → ℕ → List (ℕ × A) → List (ℕ × A)
drop_token n [] = []
drop_token n ((k, a) ∷ held) = if nat_eq k n then held else (k, a) ∷ drop_token n held
