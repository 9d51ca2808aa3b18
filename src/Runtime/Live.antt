-- ===== src/Runtime/Live.antt =====
-- foresee/runtime.py: the operations of `Runtime` on the live target, its model provider and its
-- journal, and the whole of `Runtime.run`.
use project_f.Base.{
  ℕ, ◌+◌, String, Bool, true, false, Option, none, some, List, [], ◌∷◌, ◌++◌, leb, if◌then◌else◌,
}
use project_f.Base.Result.{Result, Error, ok, err, value_error, runtime_error, sqlite_error}
use project_f.Json.{Value}
use project_f.Catalog.Snapshot.{Snapshot}
use project_f.Catalog.Target.{Connection, current, snapshot, mutate_for_stale_test}
use project_f.Catalog.Commit.{Outcome, Hook, commit}
use project_f.Journal.{Journal, OperationState, prepare, record_operation}
use project_f.Runtime.{Fault, stop, raised, StopStatus}
use project_f.Runtime.State.{Event, Payload, commit_made, Log, Ended, value, fault, Action, Hooks}
use project_f.Runtime.Written.{payload_json, outcome_json}

-- What the runtime reaches: the target at its path, the journal, and the state of the provider.
-- The n-th fresh UUID is `new_id n`.
pub record World (P : Type 0) : Type 0 where
  pub connection : Connection
  pub journal : Option Journal
  pub run_id : Option String
  pub simulate_stale : Bool
  pub provider : P
  pub issued : ℕ

-- What `ModelProvider.propose` gives: plans, the code of a `ProposalFailure`, or another error.
pub data Proposed : Type 0 where
  plans : Value → Proposed
  refused : String → Proposed
  failed : Error → Proposed

-- The arguments of `Runtime` that it does not change; `bytes` is the size of the evidence that
-- ends with this entry.
pub data Entry : Type 0 where
  event : Event → Entry
  intent : Payload → Entry

pub record Setting (P : Type 0) : Type 0 where
  pub stable_digest : Value → String
  pub decimal : ℕ → String
  pub new_id : ℕ → String
  pub program_digest : String
  pub target_path : String
  pub fault_hook : Hook
  pub max_evidence_bytes : Option ℕ
  pub bytes : List Event → Entry → ℕ
  pub propose : Snapshot → String → ℕ → P → Proposed × P

-- except (OSError, ValueError, RuntimeError, sqlite3.Error)
abbrev pub is_adapter_error : Error → Bool
is_adapter_error (value_error m) = true
is_adapter_error (runtime_error m) = true
is_adapter_error (sqlite_error m) = true
is_adapter_error _ = false

-- except (OSError, ValueError, RuntimeError)
abbrev pub is_provider_error : Error → Bool
is_provider_error (value_error m) = true
is_provider_error (runtime_error m) = true
is_provider_error _ = false

abbrev pub stop_if : Bool → StopStatus → Error → Fault
stop_if caught status e = if caught then stop status else raised e

unfoldable pub next : {W A B : Type 0} → (A → Action W B) → Ended A × Log W → Ended B × Log W
next f (value a, l) = f a l
next f (fault e, l) = (fault e, l)

infixl 5 ◌>>=◌ ◌>>◌
unfoldable pub ◌>>=◌ : {W A B : Type 0} → Action W A → (A → Action W B) → Action W B
unfolding next
◌>>=◌ m f l = next f (m l)

abbrev pub ◌>>◌ : {W B : Type 0} → Action W (Unit {0}) → Action W B → Action W B
m >> k = m >>= λ _. k

abbrev pub give : {W A : Type 0} → A → Action W A
give a l = (value a, l)

module _ {P : Type 0} (setting : Setting P) where
  abbrev Act : Type 0 → Type 0
  Act A = Action (World P) A

  -- `reserve_evidence`
  unfoldable pub reserve_evidence : Entry → ℕ → Act (Unit {0})
  reserve_evidence entry reserve l = elim setting.max_evidence_bytes [
    | none ↦ (value tt, l)
    | some most ↦
        if leb (setting.bytes l.events entry + reserve) most
        then (value tt, l)
        else (fault (stop StopStatus.evidence_limit), l)
  ]

  abbrev pub append_event : Event → Act (Unit {0})
  append_event e l = (value tt, record l { events = l.events ++ e ∷ [] })

  -- `observe`
  unfoldable pub observe : Event → Act (Unit {0})
  observe e = reserve_evidence (event e) 0 >> append_event e

  abbrev pub of_result : {A : Type 0} → (Error → Fault) → Result A → Ended A
  of_result caught (ok a) = value a
  of_result caught (err e) = fault (caught e)

  -- `read_snapshot`
  unfoldable pub read_snapshot : String → Act Snapshot
  read_snapshot resource l =
      let (r, c) = snapshot setting.stable_digest l.world.connection in
      (
        of_result (λ e. stop_if (is_adapter_error e) StopStatus.provider_error e) r,
        record l { world = record (l.world) { connection = c } },
      )

  abbrev pub of_proposed : Proposed → Ended Value
  of_proposed (plans v) = value v
  of_proposed (refused code) = fault (stop (StopStatus.proposal_failed code))
  of_proposed (failed e) = fault (stop_if (is_provider_error e) StopStatus.provider_error e)

  -- `propose_plans`
  unfoldable pub propose_plans : String → Snapshot → String → ℕ → Act Value
  propose_plans model base prompt limit l =
      let (r, p) = setting.propose base prompt limit l.world.provider in
      (of_proposed r, record l { world = record (l.world) { provider = p } })

  unfoldable pub keep_prepared : String → Result Journal → Act (Option String)
  keep_prepared id (ok j) l = (
    value (some id),
    record l { world = record (l.world) { journal = some j; issued = l.world.issued + 1 } },
  )
  keep_prepared id (err e) l = (fault (raised e), l)

  -- self.journal.prepare(...), under the next fresh id
  unfoldable pub prepare_in : Option Journal → Option String → Payload → Act (Option String)
  prepare_in none run_id payload l = (value none, l)
  prepare_in (some j) none payload l =
      (fault (raised (runtime_error "journaled operations require run()")), l)
  prepare_in (some j) (some run_id) payload l =
      let id = setting.new_id l.world.issued in
      keep_prepared id
        (prepare setting.stable_digest id run_id setting.target_path
          (current l.world.connection).target_id setting.program_digest (payload_json payload) j)
        l

  -- if self.journal: ...
  unfoldable pub prepare_operation : Payload → Act (Option String)
  prepare_operation payload l = prepare_in l.world.journal l.world.run_id payload l

  -- if self.simulate_stale: ...
  unfoldable pub make_stale : Act (Unit {0})
  make_stale l =
      if l.world.simulate_stale
      then (let (_, c) = mutate_for_stale_test l.world.connection in
          (
            value tt,
            record l { world = record (l.world) { connection = c; simulate_stale = false } },
          ))
      else (value tt, l)

  abbrev pub commit_fault : Option Journal → Error → Fault
  commit_fault none e = raised e
  commit_fault (some j) e = stop_if (is_adapter_error e) StopStatus.commit_unresolved e

  -- try: outcome = self.catalog.commit(...)
  unfoldable pub commit_target : Payload → Option String → Act Outcome
  commit_target payload operation l =
      let (r, c) =
        commit setting.stable_digest setting.fault_hook (payload_json payload)
          setting.program_digest operation l.world.connection in
      (
        of_result (commit_fault l.world.journal) r,
        record l { world = record (l.world) { connection = c } },
      )

  -- if self.journal: self.journal.record(operation_id, outcome)
  unfoldable pub record_commit : Option String → Outcome → Act (Unit {0})
  record_commit none outcome l = (value tt, l)
  record_commit (some id) outcome l = elim l.world.journal [
    | none ↦ (value tt, l)
    | some j ↦ (
      value tt,
      record l {
        world = record (l.world) {
          journal = some (record j {
            operations =
                record_operation id (OperationState.settled outcome.status)
                  (outcome_json setting.decimal outcome) j.operations;
          });
        };
      },
    )
  ]

  -- `apply_selection`
  unfoldable pub apply_selection : Payload → Act Outcome
  apply_selection payload = do
    reserve_evidence (intent payload) 4096
    operation ← prepare_operation payload
    make_stale
    outcome ← commit_target payload operation
    record_commit operation outcome
    observe (commit_made payload operation outcome)
    give outcome

  unfoldable pub live : Hooks (World P)
  live = record {
    observe = observe;
    read_snapshot = read_snapshot;
    propose_plans = propose_plans;
    apply_selection = apply_selection;
  }
