-- ===== src/Catalog/Commit/Retry.antt =====
-- What a commit does when its commit id already has a receipt in the target.
use project_f.Base.{
  String, ◌≡◌, ◌≢◌, refl, sym, ◌∙◌, ap, true, Option, none, some, ==_refl, ==_false,
}
use mathlib.Core.Path.{subst, ap₂}
use mathlib.Core.Logic.{inl, inr}
use project_f.Base.Result.{Error, ok, err, runtime_error}
use project_f.Json.{Value}
use project_f.Catalog.Request.{commit_identity, check_request}
use project_f.Catalog.Target.{Receipt, Target, Connection, current, find_receipt, idle_at}
use project_f.Catalog.Commit.{Outcome, Hook, finish, replay_receipt, commit}
use project_f.Catalog.Commit.Steps.{no_hook, begun_at, look_up_found, commit_of_ok, commit_of_err}
use project_f.Catalog.Commit.Atomic.{Receipted, Tells, Settled, commit-Settled}

-- The outcome that a receipt tells again.
abbrev pub replayed : Receipt → Outcome
replayed r = record {
  status = r.status;
  commit_id = r.commit_id;
  revision = r.resulting_revision;
  idempotent_replay = true;
  detail = r.detail;
}

pub replay_receipt_lem :
    (sd : Value → String) (r : Receipt) (c : Connection)
    → replay_receipt sd no_hook r.intent_digest r c
      ≡ (ok (replayed r), record { durable = current c; pending = none })
unfolding replay_receipt finish
replay_receipt_lem sd r c = rw (==_refl r.intent_digest)

pub replay_receipt_conflict :
    (sd : Value → String) (hook : Hook) (intent_digest : String) (r : Receipt) (c : Connection)
    → r.intent_digest ≢ intent_digest
    → replay_receipt sd hook intent_digest r c
      ≡ (err (runtime_error "operation ID reused with different intent"), c)
unfolding replay_receipt
replay_receipt_conflict sd hook i r c h = rw (==_false r.intent_digest i h)

module _ (sd : Value → String) (selection : Value) (program : String) (operation : Option String)
    (before : String) (plan : Value) (t : Target) (r : Receipt) where
  -- With a receipt of its commit id and its intent in the target, a commit returns what the
  -- receipt tells, marked as a replay, and changes nothing.
  pub commit-replay :
      let (commit_id, intent_digest) = commit_identity sd before plan program operation in
      check_request selection program operation ≡ ok (before, plan)
      → Receipted commit_id intent_digest t r
      → commit sd no_hook selection program operation (idle_at t) ≡ (ok (replayed r), idle_at t)
  commit-replay passes (found, named, meant) =
      commit_of_ok sd selection program operation before plan t passes (
        look_up_found sd no_hook before plan _ _ (begun_at t) found
        ∙ rw (← meant) (replay_receipt_lem sd r (begun_at t)))

  -- With a receipt of its commit id for another intent, a commit raises and changes nothing.
  commit_conflict :
      let (commit_id, intent_digest) = commit_identity sd before plan program operation in
      check_request selection program operation ≡ ok (before, plan)
      → find_receipt commit_id t.receipts ≡ some r
      → r.intent_digest ≢ intent_digest
      → commit sd no_hook selection program operation (idle_at t)
        ≡ (err (runtime_error "operation ID reused with different intent"), idle_at t)
  commit_conflict passes found other =
      commit_of_err sd selection program operation before plan t passes (
        look_up_found sd no_hook before plan _ _ (begun_at t) found
        ∙ replay_receipt_conflict sd no_hook _ r (begun_at t) other)

retold :
    (r : Receipt) (o : Outcome) → Tells r o → replayed r ≡ record o { idempotent_replay = true }
retold r o tells = λ i. record {
  status = tells.status i;
  commit_id = tells.commit_id i;
  revision = tells.revision i;
  idempotent_replay = true;
  detail = tells.detail i;
}

-- A commit that returned, tried again with the same arguments, returns the same status, commit
-- id, revision and detail, marked as a replay, and changes nothing.
pub commit_twice :
    (sd : Value → String) (hook : Hook) (selection : Value) (program : String)
    (operation : Option String) (before : String) (plan : Value) (t : Target) {o : Outcome}
    {c : Connection}
    → check_request selection program operation ≡ ok (before, plan)
    → commit sd hook selection program operation (idle_at t) ≡ (ok o, c)
    → commit sd no_hook selection program operation c
      ≡ (ok (record o { idempotent_replay = true }), c)
commit_twice sd hook selection program operation before plan t {o} {c} passes first =
    let k = commit_identity sd before plan program operation in
    let (idle, _, (r, receipted, tells)) =
      subst (Settled hook k t) first
        (commit-Settled sd hook selection program operation before plan (idle_at t) refl passes) in
    let at_rest : c ≡ idle_at c.durable = λ i. record { durable = c.durable; pending = idle i } in
    ap (commit sd no_hook selection program operation) at_rest
    ∙ commit-replay sd selection program operation before plan c.durable r passes receipted
    ∙ ap₂ (λ o' c'. (ok o', c')) (retold r o tells) (sym at_rest)

-- A commit whose hook raised after the commit is recoverable: if its raise did not leave the
-- target as it was, then the target holds a receipt of its commit id and its intent, and a retry
-- returns the status, commit id, revision and detail of that receipt and changes nothing.
pub commit_lost :
    (sd : Value → String) (hook : Hook) (selection : Value) (program : String)
    (operation : Option String) (before : String) (plan : Value) (t : Target) {x : Error}
    {c : Connection}
    → check_request selection program operation ≡ ok (before, plan)
    → commit sd hook selection program operation (idle_at t) ≡ (err x, c)
    → c.durable ≢ t
    → let (commit_id, intent_digest) = commit_identity sd before plan program operation in
      (r : Receipt) × Receipted commit_id intent_digest c.durable r
      × (commit sd no_hook selection program operation (idle_at c.durable)
          ≡ (ok (replayed r), idle_at c.durable))
commit_lost sd hook selection program operation before plan t {x} {c} passes first moved =
    let k = commit_identity sd before plan program operation in
    let settled : Settled hook k t (err x, c) =
      subst (Settled hook k t) first
        (commit-Settled sd hook selection program operation before plan (idle_at t) refl passes) in
    elim settled [
      | inl same ↦ absurd (moved same)
      | inr (_, (r, receipted)) ↦ (
        r,
        receipted,
        commit-replay sd selection program operation before plan c.durable r passes receipted,
      )
    ]

-- After a commit that returned, a commit of another request whose commit id is the same and whose
-- intent is another one raises, and changes nothing.
pub commit_reused :
    (sd : Value → String) (hook : Hook) (selection : Value) (program : String)
    (operation : Option String) (before : String) (plan : Value) (t : Target) {o : Outcome}
    {c : Connection} (selection' : Value) (program' : String) (operation' : Option String)
    (before' : String) (plan' : Value)
    → check_request selection program operation ≡ ok (before, plan)
    → commit sd hook selection program operation (idle_at t) ≡ (ok o, c)
    → check_request selection' program' operation' ≡ ok (before', plan')
    → (commit_identity sd before' plan' program' operation').0
      ≡ (commit_identity sd before plan program operation).0
    → (commit_identity sd before plan program operation).1
      ≢ (commit_identity sd before' plan' program' operation').1
    → commit sd no_hook selection' program' operation' c
      ≡ (err (runtime_error "operation ID reused with different intent"), c)
commit_reused sd hook selection program operation before plan t {o} {c} selection' program'
      operation' before' plan' passes first passes' same other =
    let k = commit_identity sd before plan program operation in
    let k' = commit_identity sd before' plan' program' operation' in
    let (idle, _, (r, (found, named, meant), tells)) =
      subst (Settled hook k t) first
        (commit-Settled sd hook selection program operation before plan (idle_at t) refl passes) in
    let at_rest : c ≡ idle_at c.durable = λ i. record { durable = c.durable; pending = idle i } in
    ap (commit sd no_hook selection' program' operation') at_rest
    ∙ commit_conflict sd selection' program' operation' before' plan' c.durable r passes'
        (subst (λ id. find_receipt id c.durable.receipts ≡ some r) (sym same) found)
        (λ e. other (sym meant ∙ e))
    ∙ ap (λ c'. (err (runtime_error "operation ID reused with different intent"), c')) (sym at_rest)
