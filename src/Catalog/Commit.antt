-- ===== src/Catalog/Commit.antt =====
-- foresee/catalog.py: `Catalog.commit`.
pub mod Within
pub mod Steps
pub mod Atomic
pub mod Retry
pub mod Refines
use project_f.Base.{
  ℕ, ◌+◌, String, Bool, true, false, not, ◌&&◌, Option, none, some, List, [], ◌∷◌, ◌==◌, nat_eq,
  if◌then◌else◌,
}
use project_f.Base.Int.{ℤ}
use project_f.Base.Result.{Result, Error, ok, err, value_error, runtime_error, type_error, guard}
use project_f.Base.Result
use project_f.Json.{
  Value, int, str, obj, Items, nil, cons, Fields, end, field, lookup, get_item, scalar_eq, size,
}
use project_f.Catalog.Snapshot.{Snapshot, apply_to_snapshot, valid_unit_arithmetic, patches_of}
use project_f.Catalog.Request.{commit_identity, check_request}
use project_f.Catalog.Target.{
  Status, applied, stale, Detail, target_changed, applied_patches, Receipt, Target, Connection,
  current, in_transaction, Exec, lift, ◌>>=◌, ◌>>◌, begin, commit_transaction, rollback, write,
  snapshot, find_receipt, set_price, count_id, insert_receipt,
}

pub record Outcome : Type 0 where
  pub status : Status
  pub commit_id : String
  pub revision : ℕ
  pub idempotent_replay : Bool
  pub detail : Detail

pub data Stage : Type 0 where
  before_transaction before_commit after_commit : Stage

-- A fault hook raises at a stage, or does nothing.
abbrev pub Hook : Type 0
Hook = Stage → Option Error

abbrev pub run_hook : Hook → Stage → Exec (Unit {0})
run_hook hook stage = lift (elim (hook stage) [ none ↦ ok tt | some e ↦ err e ])

unfoldable pub finish : Hook → Exec (Unit {0})
finish hook = do run_hook hook before_commit; commit_transaction; run_hook hook after_commit

-- The parameters of the UPDATE: a validated patch has an integer and a text.
abbrev pub params : Value → Value → Result (String × ℤ)
params (int z) (str row_id) = ok (row_id, z)
params _ _ = err (type_error "parameter")

abbrev pub bind_price : Fields → Result (String × ℤ)
bind_price patch =
    Result.◌>>=◌ (get_item "unit_price_cents" patch)
      λ v. Result.◌>>=◌ (get_item "id" patch) λ w. params v w

unfoldable pub update_price : Fields → Exec (Unit {0})
update_price patch = do
  (row_id, price) ← lift (bind_price patch)
  λ c.
      let affected = count_id row_id (current c).rows in
      let (_, c') = write (λ t. record t { rows = set_price row_id price t.rows }) c in
      (guard (nat_eq affected 1) (runtime_error "commit target disappeared"), c')

unfoldable pub update_prices : Items → Exec (Unit {0})
update_prices nil = lift (ok tt)
update_prices (cons (obj patch) rest) = do update_price patch; update_prices rest
update_prices (cons _ rest) = lift (err (type_error "patch"))

-- dict ==, on rows of scalars
abbrev pub all_in : Fields → Fields → Bool
all_in end d = true
all_in (field k v rest) d =
    elim (lookup k d) [ none ↦ false | some w ↦ scalar_eq v w ] && all_in rest d

abbrev pub dict_eq : Fields → Fields → Bool
dict_eq a b = nat_eq (size a) (size b) && all_in a b

abbrev pub rows_eq : List Fields → List Fields → Bool
rows_eq [] [] = true
rows_eq (a ∷ as') (b ∷ bs) = dict_eq a b && rows_eq as' bs
rows_eq _ _ = false

abbrev pub count_items : Items → ℕ
count_items nil = 0
count_items (cons v vs) = count_items vs + 1

unfoldable pub write_plan : Items → ℕ → Exec (Unit {0})
write_plan patches next_revision = do
  update_prices patches
  write (λ t. record t { revision = next_revision })

module _ (stable_digest : Value → String) where
  -- What the plan makes of the live state, and its patches.
  unfoldable pub simulate_plan : Value → Snapshot → Result (Snapshot × Items)
  simulate_plan plan now = Result.◌>>=◌ (apply_to_snapshot stable_digest now plan) λ expected.
      Result.◌>>=◌ (valid_unit_arithmetic expected) λ fits.
        Result.◌>>◌ (guard fits (value_error "unit price arithmetic is invalid"))
          (Result.◌>>=◌ (patches_of plan) λ patches. ok (expected, patches))

  -- The live state after the writes is compared with the simulation.
  unfoldable pub verify_written : Snapshot → ℕ → Exec (Unit {0})
  verify_written expected next_revision = do
    actual ← snapshot stable_digest
    lift (
        guard (rows_eq actual.rows expected.rows && nat_eq actual.revision next_revision)
          (runtime_error "commit postcondition failed"))

-- `except Exception: rollback; raise`
abbrev pub undo : Result Outcome × Connection → Result Outcome × Connection
undo (ok o, c) = (ok o, c)
undo (err e, c) = (err e, rollback c)

module _ (stable_digest : Value → String) (hook : Hook) where
  -- A receipt of the same commit id: the same intent replays it, another one is refused.
  unfoldable pub replay_receipt : String → Receipt → Exec Outcome
  replay_receipt intent_digest existing =
      if existing.intent_digest == intent_digest
      then (do
        finish hook
        lift (
            ok (record {
              status = existing.status;
              commit_id = existing.commit_id;
              revision = existing.resulting_revision;
              idempotent_replay = true;
              detail = existing.detail;
            })))
      else lift (err (runtime_error "operation ID reused with different intent"))

  unfoldable pub record_outcome : Receipt → Exec Outcome
  record_outcome r = do
    insert_receipt r
    finish hook
    lift (
        ok (record {
          status = r.status;
          commit_id = r.commit_id;
          revision = r.resulting_revision;
          idempotent_replay = false;
          detail = r.detail;
        }))

  unfoldable pub refuse_stale : String → String → String → ℕ → Exec Outcome
  refuse_stale commit_id intent_digest before revision = record_outcome (record {
    commit_id = commit_id;
    intent_digest = intent_digest;
    status = stale;
    snapshot_digest = before;
    resulting_revision = revision;
    detail = target_changed;
  })

  unfoldable pub write_verified : Receipt → Snapshot → Items → Exec Outcome
  write_verified r expected patches = do
    write_plan patches r.resulting_revision
    verify_written stable_digest expected r.resulting_revision
    record_outcome r

  unfoldable pub apply_plan : String → String → String → Value → Snapshot → Exec Outcome
  apply_plan commit_id intent_digest before plan now = do
    (expected, patches) ← lift (simulate_plan stable_digest plan now)
    write_verified
        (record {
          commit_id = commit_id;
          intent_digest = intent_digest;
          status = applied;
          snapshot_digest = before;
          resulting_revision = now.revision + 1;
          detail = applied_patches (count_items patches);
        })
        expected patches

  -- The live snapshot decides: the plan was made for it, or it is stale.
  unfoldable pub decide : String → String → String → Value → Snapshot → Exec Outcome
  decide commit_id intent_digest before plan now =
      if now.digest == before
      then apply_plan commit_id intent_digest before plan now
      else refuse_stale commit_id intent_digest before now.revision

  unfoldable pub commit_new : String → String → String → Value → Exec Outcome
  commit_new commit_id intent_digest before plan = do
    now ← snapshot stable_digest
    decide commit_id intent_digest before plan now

  unfoldable pub look_up : String → Value → String → String → Exec Outcome
  look_up before plan commit_id intent_digest c =
      elim (find_receipt commit_id (current c).receipts) [
        | some existing ↦ replay_receipt intent_digest existing c
        | none ↦ commit_new commit_id intent_digest before plan c
      ]

  -- The `try` block.
  unfoldable pub transact : String → Value → String × String → Exec Outcome
  transact before plan (commit_id, intent_digest) = do
    run_hook hook before_transaction
    begin
    look_up before plan commit_id intent_digest

  unfoldable pub commit : Value → String → Option String → Exec Outcome
  commit selection program operation c =
      if in_transaction c
      then (err (runtime_error "commit requires an idle connection"), c)
      else elim (check_request selection program operation) [
        | err e ↦ (err e, c)
        | ok (before, plan) ↦
            undo
              (transact before plan (commit_identity stable_digest before plan program operation) c)
      ]
