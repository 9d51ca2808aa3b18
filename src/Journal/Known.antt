-- ===== src/Journal/Known.antt =====
-- foresee/journal.py: an operation is known exactly by the receipt in its target.
use mathlib.Core.Path.{ap₂}
use project_f.Base.{
  String, Bool, true, false, ◌&&◌, Option, none, some, List, ◌==◌, ◌≡◌, refl, ap, inl, inr, arith,
  Bool-cases, Option-cases, ==_true, ==_refl,
}
use project_f.Json.{Value}
use project_f.Catalog.Request.{commit_identity, plan_of}
use project_f.Catalog.Target.{Receipt, Target, find_receipt}
use project_f.Journal.Stored.{
  StoredReceipt, StoredTarget, find_stored, receipt_of, stored, receipt_of-stored_receipt,
  find_stored-stored_receipt,
}
use project_f.Journal.{
  Evidence, known, unresolved, Operation, digest_of, prepared_operation, consistent, evidence_in,
  target_evidence, receipt_outcome, RunState, next_state, is_empty, all_known,
}

-- The receipt of an operation stands in its target, and the intent is the one of the payload.
pub record HasReceipt (sd : Value → String) (reader : String → Option StoredTarget) (op : Operation)
    (r : Receipt) : Type 0 where
  pub before : String
  pub read : digest_of op.payload ≡ some before
  pub identified :
      commit_identity sd before (plan_of op.payload) op.program_digest (some op.operation_id)
      ≡ (op.commit_id, op.intent_digest)
  pub target : StoredTarget
  pub receipt : StoredReceipt
  pub opened : reader op.target_path ≡ some target
  pub named : target.target_id ≡ op.target_id
  pub found : find_stored op.commit_id target.receipts ≡ some receipt
  pub meant : receipt.intent_digest ≡ op.intent_digest
  pub based : receipt.snapshot_digest ≡ before
  pub typed : receipt_of receipt ≡ some r

pub and_true : (a b : Bool) → (a && b) ≡ true → (a ≡ true) × (b ≡ true)
and_true true b h = (refl, h)
and_true false b h = cc

module _ (sd : Value → String) where
  evidence_in-known : (o : Option Receipt) (r : Receipt) → evidence_in sd o ≡ known r → o ≡ some r
  evidence_in-known (some q) r h = ap of_known h
    where
      of_known : Evidence → Option Receipt
      of_known (known x) = some x
      of_known (unresolved why) = none
  evidence_in-known none r h = cc

  target_evidence-known :
      (op : Operation) (before : String) (t : StoredTarget) (r : Receipt)
      → target_evidence sd op before (some t) ≡ known r
      → (s : StoredReceipt) × (t.target_id ≡ op.target_id)
        × (find_stored op.commit_id t.receipts ≡ some s)
        × (s.intent_digest ≡ op.intent_digest)
        × (s.snapshot_digest ≡ before)
        × (receipt_of s ≡ some r)
  unfolding target_evidence
  target_evidence-known op before t r h = elim (Bool-cases (t.target_id == op.target_id)) [
    | inr n ↦ let h' : unresolved "target identity mismatch" ≡ known r = rw n at h in cc
    | inl y ↦ elim (Option-cases (find_stored op.commit_id t.receipts)) [
      | inl n ↦
          let h' : unresolved "no target receipt; no effect inferred or retried" ≡ known r =
            rw (y, n) at h in
          cc
      | inr (s, f) ↦ elim (Bool-cases (consistent sd op before s)) [
        | inr n ↦
            let h' : unresolved "target receipt inconsistent with intent" ≡ known r =
              rw (y, f, n) at h in
            cc
        | inl z ↦
            let typed : evidence_in sd (receipt_of s) ≡ known r = rw (y, f, z) at h in
            (
              s,
              ==_true _ _ y,
              f,
              ==_true _ _ (and_true _ _ z).0,
              ==_true _ _ (and_true _ _ z).1,
              evidence_in-known (receipt_of s) r typed,
            )
      ]
    ]
  ]

  -- An operation is reported as known only where its commit id and its intent in the journal are
  -- the ones that its payload has, and where the target at its path has its target id and holds
  -- for its commit id a receipt of its intent and its snapshot, whose status and revision are of
  -- the kinds that a commit writes.
  pub receipt_outcome-known :
      (reader : String → Option StoredTarget) (op : Operation) (r : Receipt)
      → receipt_outcome sd reader op ≡ known r
      → HasReceipt sd reader op r
  unfolding receipt_outcome target_evidence
  receipt_outcome-known reader op r h = elim (Option-cases (digest_of op.payload)) [
    | inl n ↦
        let h' : unresolved "evidence unavailable" ≡ known r = rw (n, receipt_outcome) at h in cc
    | inr (before, d) ↦
        let ids =
          commit_identity sd before (plan_of op.payload) op.program_digest (some op.operation_id) in
        elim (Bool-cases (ids.0 == op.commit_id && ids.1 == op.intent_digest)) [
          | inr n ↦
              let h' : unresolved "journal intent identity mismatch" ≡ known r =
                rw (d, n, receipt_outcome) at h in
              cc
          | inl y ↦
              let h' : target_evidence sd op before (reader op.target_path) ≡ known r =
                rw (d, y, receipt_outcome) at h in
              elim (Option-cases (reader op.target_path)) [
                | inl n ↦ unopened before n h'
                | inr (t, o) ↦
                    let (s, named, found, meant, based, typed) =
                      target_evidence-known op before t r (rw o at h') in
                    let (same, same') = and_true _ _ y in
                    record {
                      before = before;
                      read = d;
                      identified = ap₂ (λ a b. (a, b)) (==_true _ _ same) (==_true _ _ same');
                      target = t;
                      receipt = s;
                      opened = o;
                      named = named;
                      found = found;
                      meant = meant;
                      based = based;
                      typed = typed;
                    }
              ]
        ]
  ]
    where
      unopened :
          (before : String)
          → reader op.target_path ≡ none
          → target_evidence sd op before (reader op.target_path) ≡ known r
          → HasReceipt sd reader op r
      unopened before n h = let h' : unresolved "evidence unavailable" ≡ known r = rw n at h in cc

  -- The intent that the journal prepared, and a target with its receipt.
  pub receipt_outcome-prepared :
      (reader : String → Option StoredTarget) (id run path program before : String)
      (payload : Value) (t : Target) (r : Receipt)
      → let op = prepared_operation sd id run path t.target_id program payload before in
        digest_of payload ≡ some before
        → reader path ≡ some (stored t)
        → find_receipt op.commit_id t.receipts ≡ some r
        → r.intent_digest ≡ op.intent_digest
        → r.snapshot_digest ≡ before
        → receipt_outcome sd reader op ≡ known r
  unfolding receipt_outcome target_evidence
  receipt_outcome-prepared reader id run path program before payload t r d o f m b =
      rw
        (
          d,
          o,
          ==_refl (commit_identity sd before (plan_of payload) program (some id)).0,
          ==_refl (commit_identity sd before (plan_of payload) program (some id)).1,
          ==_refl t.target_id,
          find_stored-stored_receipt _ t.receipts f,
          receipt_of-stored_receipt r,
          m,
          b,
          ==_refl (commit_identity sd before (plan_of payload) program (some id)).1,
          ==_refl before,
        )
        refl

-- A run is reconciled only with an operation, and with evidence of each.
pub next_state-reconciled :
    (before : RunState) (es : List Evidence)
    → next_state before es ≡ RunState.reconciled
    → (is_empty es ≡ false) × (all_known es ≡ true)
unfolding next_state
next_state-reconciled before es h = ground arith
