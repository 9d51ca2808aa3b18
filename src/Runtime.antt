-- ===== src/Runtime.antt =====
-- foresee/runtime.py: the trials of an exploration, and the selection of one in `Runtime.eval_expr`.
-- A score is natural: the only integers of a checked program are literals and counts.
pub mod Select
pub mod State
pub mod Steps
pub mod Eval
pub mod Written
pub mod Live
pub mod Decision
pub mod Offline
pub mod Logic
pub mod Branch
pub mod Reproduced
pub mod Commits
mod Tests
mod Runs
use project_f.Base.{
  ℕ, String, Bool, true, false, ◌&&◌, ◌||◌, not, Option, none, some, List, [], ◌∷◌, ◌==◌, ltb,
  nat_eq, str_leb, if◌then◌else◌,
}
use project_f.Json.{Value}
use project_f.Catalog.Snapshot.{Snapshot}
use project_f.Base.Result.{Result, Error, ok, err, key_error, or_raise, ◌>>=◌}

-- The statuses of `DecisionStop`.
pub data StopStatus : Type 0 where
  provider_error evidence_limit commit_unresolved invalid_plans no_eligible_candidate : StopStatus
  -- provider_error, with the code of a `ProposalFailure` as its provider_code
  proposal_failed : String → StopStatus

-- An exception: a `DecisionStop`, or another.
pub data Fault : Type 0 where
  stop : StopStatus → Fault
  raised : Error → Fault

-- The dict of a trial; its `eligible` and `status` follow from its checks and its error.
pub record Trial : Type 0 where
  pub plan_id : String
  pub plan : Value
  pub base : Snapshot
  pub checks : List (Bool × String)
  pub metrics : List (String × ℕ)
  -- none, or what ended the evaluation
  pub error : Option Fault

abbrev pub all_passed : List (Bool × String) → Bool
all_passed [] = true
all_passed ((passed, message) ∷ checks) = passed && all_passed checks

abbrev pub is_none {ℓ} : {A : Type ℓ} → Option A → Bool
is_none none = true
is_none (some a) = false

-- trial["eligible"]
abbrev pub is_eligible : Trial → Bool
is_eligible t = is_none t.error && all_passed t.checks

-- item["metrics"][metric]
abbrev pub metric_of : String → List (String × ℕ) → Option ℕ
metric_of metric [] = none
metric_of metric ((k, n) ∷ metrics) = if k == metric then some n else metric_of metric metrics

abbrev pub eligible_of : List Trial → List Trial
eligible_of [] = []
eligible_of (t ∷ ts) = if is_eligible t then t ∷ eligible_of ts else eligible_of ts

-- The keys that `min` computes; a missing metric raises.
unfoldable pub scores : String → List Trial → Result (List (ℕ × Trial))
scores metric [] = ok []
scores metric (t ∷ ts) = do
  n ← or_raise (metric_of metric t.metrics) (key_error metric)
  rest ← scores metric ts
  ok ((n, t) ∷ rest)

-- The order of the pairs of a score and a plan id.
abbrev pub key_lt : ℕ × Trial → ℕ × Trial → Bool
key_lt (m, t) (n, u) = ltb m n || (nat_eq m n && not (str_leb u.plan_id t.plan_id))

-- `min`: the first of the least
unfoldable pub least : ℕ × Trial → List (ℕ × Trial) → ℕ × Trial
least best [] = best
least best (x ∷ xs) = if key_lt x best then least x xs else least best xs

pub data Selection : Type 0 where
  nothing_eligible : Selection
  chosen : ℕ → Trial → Selection

abbrev pub pick : List (ℕ × Trial) → Selection
pick [] = nothing_eligible
pick (x ∷ xs) = let (n, t) = least x xs in chosen n t

unfoldable pub select : String → List Trial → Result Selection
select metric trials = do scored ← scores metric (eligible_of trials); ok (pick scored)
