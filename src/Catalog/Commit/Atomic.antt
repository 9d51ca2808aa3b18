-- ===== src/Catalog/Commit/Atomic.antt =====
-- `commit` takes effect as a whole: how it ends, and what it leaves in the target.
use project_f.Base.{
  String, ◌≡◌, refl, ◌⊎◌, inl, inr, true, false, Option, none, some, List, [], ◌∷◌, ◌++◌, ◌==◌,
  arith, eq_iff, Bool-cases, Option-cases,
}
use project_f.Base.Result.{Result, Error, ok, err, Result-cases}
use project_f.Json.{Value, Items}
use project_f.Catalog.Snapshot.{Snapshot}
use project_f.Catalog.Request.{commit_identity, check_request}
use project_f.Catalog.Target.{
  Receipt, Target, Connection, current, lift, ◌>>◌, snapshot, find_receipt, insert_receipt, begin,
}
use project_f.Catalog.Commit.Within.{Within, snapshot_lem, write_plan-Within, verify_written-Within}
use project_f.Catalog.Target.Rules.{>>=-holds, >>=-holds_of_ok, >>=-holds_of_err}
use project_f.Catalog.Commit.{
  Outcome, before_transaction, before_commit, after_commit, Hook, finish, replay_receipt,
  record_outcome, refuse_stale, apply_plan, commit_new, write_verified, simulate_plan, write_plan,
  verify_written, decide, look_up, transact, commit, undo,
}

-- A receipt tells the outcome that it was written for.
pub record Tells (r : Receipt) (o : Outcome) : Type 0 where
  pub status : r.status ≡ o.status
  pub commit_id : r.commit_id ≡ o.commit_id
  pub revision : r.resulting_revision ≡ o.revision
  pub detail : r.detail ≡ o.detail

-- The receipts hold one for this commit id and intent.
abbrev pub Receipted : String → String → Target → Receipt → Type 0
Receipted commit_id intent_digest t r =
    (find_receipt commit_id t.receipts ≡ some r)
    × (r.commit_id ≡ commit_id)
    × (r.intent_digest ≡ intent_digest)

-- How a commit may end. It returns with its receipt in the target; or it raises, and then it has changed nothing durable, or the hook raised after the commit and the
-- receipt is in the target.
abbrev pub Settled : Hook → String × String → Target → Result Outcome × Connection → Type 0
Settled hook (commit_id, intent_digest) before (ok o, c) =
    (c.pending ≡ none)
    × (hook after_commit ≡ none)
    × ((r : Receipt) × Receipted commit_id intent_digest c.durable r × Tells r o)
Settled hook (commit_id, intent_digest) before (err e, c) =
    (c.durable ≡ before)
    ⊎ ((hook after_commit ≡ some e)
        × ((r : Receipt) × Receipted commit_id intent_digest c.durable r))

pub find_receipt-append :
    (k : String) (rs : List Receipt) (r : Receipt)
    → find_receipt k rs ≡ none
    → r.commit_id ≡ k
    → find_receipt k (rs ++ r ∷ []) ≡ some r
unfolding find_receipt
find_receipt-append k [] r h e = ground (arith, eq_iff r.commit_id k)
find_receipt-append k (s ∷ rs) r h e = ground (arith, find_receipt-append k rs r)

find_receipt-commit_id :
    (k : String) (rs : List Receipt) (r : Receipt) → find_receipt k rs ≡ some r → r.commit_id ≡ k
unfolding find_receipt
find_receipt-commit_id k [] r h = cc
find_receipt-commit_id k (s ∷ rs) r h =
    ground (arith, eq_iff s.commit_id k, find_receipt-commit_id k rs r)

-- The outcome of a commit that has just written its receipt.
abbrev pub told : Receipt → Outcome
told r = record {
  status = r.status;
  commit_id = r.commit_id;
  revision = r.resulting_revision;
  idempotent_replay = false;
  detail = r.detail;
}

pub insert_receipt_lem :
    (r : Receipt) (c : Connection) {t : Target}
    → c.pending ≡ some t
    → find_receipt r.commit_id t.receipts ≡ none
    → insert_receipt r c
      ≡ (ok tt, record c { pending = some (record t { receipts = t.receipts ++ r ∷ [] }) })
unfolding insert_receipt
insert_receipt_lem r c open_ fresh = ground arith

module _ (hook : Hook) (c : Connection) where
  finish_stopped : {e : Error} → hook before_commit ≡ some e → finish hook c ≡ (err e, c)
  unfolding finish
  finish_stopped h = ground arith

  finish_quiet :
      hook before_commit ≡ none
      → hook after_commit ≡ none
      → finish hook c ≡ (ok tt, record { durable = current c; pending = none })
  unfolding finish
  finish_quiet h h' = ground arith

  finish_lost :
      {e : Error}
      → hook before_commit ≡ none
      → hook after_commit ≡ some e
      → finish hook c ≡ (err e, record { durable = current c; pending = none })
  unfolding finish
  finish_lost h h' = ground arith

module _ (hook : Hook) (commit_id intent_digest : String) (d : Target) where
  finish-Settled :
      (o : Outcome) (r : Receipt) (c : Connection)
      → c.durable ≡ d
      → Receipted commit_id intent_digest (current c) r
      → Tells r o
      → Settled hook (commit_id, intent_digest) d ((finish hook >> lift (ok o)) c)
  finish-Settled o r c same receipted tells =
      let P = Settled hook (commit_id, intent_digest) d in
      elim (Option-cases (hook before_commit)) [
        | inl quiet ↦ elim (Option-cases (hook after_commit)) [
          | inl quiet' ↦
              >>=-holds_of_ok (finish hook) (λ _. lift (ok o)) c P
                (finish_quiet hook c quiet quiet') (refl, quiet', (r, receipted, tells))
          | inr (e, raised) ↦
              >>=-holds_of_err (finish hook) (λ _. lift (ok o)) c P
                (finish_lost hook c quiet raised) (inr (raised, (r, receipted)))
        ]
        | inr (e, raised) ↦
            >>=-holds_of_err (finish hook) (λ _. lift (ok o)) c P (finish_stopped hook c raised)
              (inl same)
      ]

  record_outcome-Settled :
      (sd : Value → String) (r : Receipt) (c : Connection)
      → Within d c
      → find_receipt commit_id d.receipts ≡ none
      → r.commit_id ≡ commit_id
      → r.intent_digest ≡ intent_digest
      → Settled hook (commit_id, intent_digest) d (record_outcome sd hook r c)
  unfolding record_outcome
  record_outcome-Settled sd r c (same, (t, open_, rs)) fresh named meant =
      >>=-holds_of_ok (insert_receipt r) (λ _. finish hook >> lift (ok (told r))) c
        (Settled hook (commit_id, intent_digest) d)
        (insert_receipt_lem r c open_ (rw (rs, named) fresh))
        (finish-Settled (told r) r
          (record c { pending = some (record t { receipts = t.receipts ++ r ∷ [] }) }) same
          (find_receipt-append commit_id t.receipts r (rw rs fresh) named, named, meant)
          (record { status = refl; commit_id = refl; revision = refl; detail = refl }))

  replay_receipt-Settled :
      (sd : Value → String) (r : Receipt) (c : Connection)
      → c.durable ≡ d
      → (current c).receipts ≡ d.receipts
      → find_receipt commit_id d.receipts ≡ some r
      → Settled hook (commit_id, intent_digest) d (replay_receipt sd hook intent_digest r c)
  unfolding replay_receipt
  replay_receipt-Settled sd r c same rs found =
      let named = find_receipt-commit_id commit_id d.receipts r found in
      elim (Bool-cases (r.intent_digest == intent_digest)) [
        | inl e ↦ rw e (
            finish-Settled (record (told r) { idempotent_replay = true }) r c same
              (rw rs found, named, (eq_iff r.intent_digest intent_digest).0 e)
              (record { status = refl; commit_id = refl; revision = refl; detail = refl }))
        | inr e ↦ rw e (inl same)
      ]

  write_verified-Settled :
      (sd : Value → String) (r : Receipt) (expected : Snapshot) (patches : Items) (c : Connection)
      → Within d c
      → find_receipt commit_id d.receipts ≡ none
      → r.commit_id ≡ commit_id
      → r.intent_digest ≡ intent_digest
      → Settled hook (commit_id, intent_digest) d (write_verified sd hook r expected patches c)
  unfolding write_verified
  write_verified-Settled sd r expected patches c w fresh named meant =
      let P = Settled hook (commit_id, intent_digest) d in
      let w' = write_plan-Within d patches r.resulting_revision c w in
      >>=-holds (write_plan patches r.resulting_revision)
        (λ _. verify_written sd expected r.resulting_revision >> record_outcome sd hook r) c P
        (λ _ _.
          >>=-holds (verify_written sd expected r.resulting_revision)
            (λ _. record_outcome sd hook r) (write_plan patches r.resulting_revision c).1 P
            (λ _ _.
              record_outcome-Settled sd r _ (verify_written-Within sd d expected _ _ w') fresh named
                meant)
            (λ _ _. inl (verify_written-Within sd d expected _ _ w').0))
        (λ _ _. inl w'.0)

  apply_plan-Settled :
      (sd : Value → String) (before : String) (plan : Value) (now : Snapshot) (c : Connection)
      → Within d c
      → find_receipt commit_id d.receipts ≡ none
      → Settled hook
          (commit_id, intent_digest)
          d
          (apply_plan sd hook commit_id intent_digest before plan now c)
  unfolding apply_plan
  apply_plan-Settled sd before plan now c w fresh =
      elim (Result-cases (simulate_plan sd plan now)) [
        | inl ((expected, patches), e) ↦
            rw e (write_verified-Settled sd _ expected patches c w fresh refl refl)
        | inr (x, e) ↦ rw e (inl w.0)
      ]

  decide-Settled :
      (sd : Value → String) (before : String) (plan : Value) (now : Snapshot) (c : Connection)
      → Within d c
      → find_receipt commit_id d.receipts ≡ none
      → Settled hook
          (commit_id, intent_digest)
          d
          (decide sd hook commit_id intent_digest before plan now c)
  unfolding decide refuse_stale
  decide-Settled sd before plan now c w fresh = elim (Bool-cases (now.digest == before)) [
    | inl e ↦ rw e (apply_plan-Settled sd before plan now c w fresh)
    | inr e ↦ rw e (record_outcome-Settled sd _ c w fresh refl refl)
  ]

  commit_new-Settled :
      (sd : Value → String) (before : String) (plan : Value) (c : Connection)
      → Within d c
      → find_receipt commit_id d.receipts ≡ none
      → Settled hook
          (commit_id, intent_digest)
          d
          (commit_new sd hook commit_id intent_digest before plan c)
  unfolding commit_new
  commit_new-Settled sd before plan c (same, (t, open_, rs)) fresh =
      let here : Within d (snapshot sd c).1 = rw (snapshot_lem sd c open_) (same, (t, open_, rs)) in
      >>=-holds (snapshot sd) (decide sd hook commit_id intent_digest before plan) c
        (Settled hook (commit_id, intent_digest) d)
        (λ now _. decide-Settled sd before plan now _ here fresh) (λ _ _. inl here.0)

  look_up-Settled :
      (sd : Value → String) (before : String) (plan : Value) (c : Connection)
      → Within d c
      → Settled hook
          (commit_id, intent_digest)
          d
          (look_up sd hook before plan commit_id intent_digest c)
  unfolding look_up
  look_up-Settled sd before plan c (same, (t, open_, rs)) =
      let seen : (current c).receipts ≡ d.receipts = rw open_ rs in
      elim (Option-cases (find_receipt commit_id (current c).receipts)) [
        | inl e ↦
            rw (e, look_up)
              (commit_new-Settled sd before plan c (same, (t, open_, rs)) (rw seen at e))
        | inr (r, e) ↦ rw (e, look_up) (replay_receipt-Settled sd r c same seen (rw seen at e))
      ]

module _ (sd : Value → String) (hook : Hook) (before : String) (plan : Value) where
  transact-Settled :
      (commit_id intent_digest : String) (c : Connection)
      → c.pending ≡ none
      → Settled hook
          (commit_id, intent_digest)
          c.durable
          (transact sd hook before plan (commit_id, intent_digest) c)
  unfolding transact
  transact-Settled commit_id intent_digest c idle = elim (Option-cases (hook before_transaction)) [
    | inl e ↦ rw e (
        look_up-Settled hook commit_id intent_digest c.durable sd before plan (begin c).1
          (refl, (c.durable, rw idle refl, refl)))
    | inr (x, e) ↦ rw e (inl refl)
  ]

undo-Settled :
    (hook : Hook) (k : String × String) (d : Target) (x : Result Outcome × Connection)
    → Settled hook k d x
    → Settled hook k d (undo x)
undo-Settled hook k d (ok o, c) h = h
undo-Settled hook k d (err e, c) h = h

-- A commit from an idle connection, whose request passes the guards and whose hook may raise at
-- any stage: if it returns, its transaction is closed, the target holds a receipt of its commit id and intent that tells its
-- outcome, and the hook raised nothing after the commit. If it raises, then the target is as it
-- was, or the error is the one that the hook raised after the commit and the receipt is there.
pub commit-Settled :
    (sd : Value → String) (hook : Hook) (selection : Value) (program : String)
    (operation : Option String) (before : String) (plan : Value) (c : Connection)
    → c.pending ≡ none
    → check_request selection program operation ≡ ok (before, plan)
    → Settled hook
        (commit_identity sd before plan program operation)
        c.durable
        (commit sd hook selection program operation c)
unfolding commit
commit-Settled sd hook selection program operation before plan c idle passes =
    let k = commit_identity sd before plan program operation in
    rw (idle, passes, commit)
      (undo-Settled hook k c.durable (transact sd hook before plan k c)
        (transact-Settled sd hook before plan k.0 k.1 c idle))
