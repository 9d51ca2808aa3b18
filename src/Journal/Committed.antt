-- ===== src/Journal/Committed.antt =====
-- foresee/journal.py and foresee/catalog.py: a commit of a prepared operation is known afterwards.
use project_f.Base.{
  ℕ, ◌+◌, String, not, Option, none, some, List, [], ◌∷◌, ◌++◌, ◌==◌, ◌≡◌, refl, sym, ◌∙◌, ap, inl,
  inr, true, false, Bool-cases,
}
use project_f.Base.Result.{>>=-eq-ok, guard, or_raise, Result, Error, ok, err, value_error}
use project_f.Json.{Value, Fields, lookup}
use project_f.Catalog.Plan.{IsPlan, name_of, validate_plan}
use project_f.Catalog.Request.{base_of, operation_ok, commit_identity, plan_of, check_request}
use project_f.Catalog.Target.{Receipt, Target, Connection, find_receipt, idle_at}
use project_f.Catalog.Prices.{IsOrdered, set_prices, all_known, all_fit}
use project_f.Catalog.Prices.Live.{live}
use project_f.Catalog.Commit.{Outcome, count_items, commit}
use project_f.Catalog.Commit.Steps.{no_hook}
use project_f.Catalog.Commit.Atomic.{told, find_receipt-append}
use project_f.Catalog.Commit.Refines.{commit-refines, commit_spec, new_spec, receipted, at_rest}
use project_f.Journal.{has_plan, digest_of, text_of, prepared_operation, receipt_outcome, known}
use project_f.Journal.Stored.{StoredTarget, stored}
use project_f.Journal.Known.{receipt_outcome-prepared}

-- The target after a commit that wrote its receipt.
record Written (k : String × String) (before : String) (t t' : Target) (o : Outcome) : Type 0 where
  receipt : Receipt
  same_target : t'.target_id ≡ t.target_id
  found : find_receipt k.0 t'.receipts ≡ some receipt
  meant : receipt.intent_digest ≡ k.1
  based : receipt.snapshot_digest ≡ before
  tells : o ≡ told receipt

module _ (k : String × String) (before : String) (t : Target)
    (fresh : find_receipt k.0 t.receipts ≡ none) where
  receipted-Written :
      {o : Outcome} {t' : Target} (u : Target) (r : Receipt)
      → u.target_id ≡ t.target_id
      → u.receipts ≡ t.receipts
      → r.commit_id ≡ k.0
      → r.intent_digest ≡ k.1
      → r.snapshot_digest ≡ before
      → receipted u r ≡ (ok o, t')
      → Written k before t t' o
  receipted-Written {o} {t'} u r same rs named meant based e =
      let left : record u { receipts = u.receipts ++ r ∷ [] } ≡ t' = ap (λ x. x.1) e in
      record {
        receipt = r;
        same_target = ap (λ (x : Target). x.target_id) (sym left) ∙ same;
        found = rw (← left, rs) (find_receipt-append k.0 t.receipts r fresh named);
        meant = meant;
        based = based;
        tells = told_of (ap (λ x. x.0) e);
      }
    where
      told_of : ok (told r) ≡ ok o → o ≡ told r
      told_of h = cc

  new_spec-Written :
      {o : Outcome} {t' : Target} (sd : Value → String) (patches : ℕ) (ps : List (String × ℕ))
      → new_spec sd t k before patches ps ≡ (ok o, t')
      → Written k before t t' o
  new_spec-Written {o} {t'} sd patches ps e = elim (Bool-cases ((live sd t).digest == before)) [
    | inr n ↦ receipted-Written t _ refl refl refl refl refl (rw n at e)
    | inl y ↦ elim (Bool-cases (all_known ps t.rows)) [
      | inr n ↦
          let e' : (err (value_error "unknown catalog row"), t) ≡ (ok o, t') = rw (y, n) at e in
          absurd (raised _ (ap (λ x. x.0) e'))
      | inl z ↦ elim (Bool-cases (all_fit (set_prices ps t.rows))) [
        | inr n ↦
            let e' : (err (value_error "unit price arithmetic is invalid"), t) ≡ (ok o, t') =
              rw (y, z, n) at e in
            absurd (raised _ (ap (λ x. x.0) e'))
        | inl w ↦
            receipted-Written (record t { rows = set_prices ps t.rows; revision = t.revision + 1 })
              _ refl refl refl refl refl (rw (y, z, w) at e)
      ]
    ]
  ]
    where
      raised : (x : Error) → ¬ (◌≡◌ {A = Result Outcome} (err x) (ok o))
      raised x h = cc

or_raise-eq-ok {ℓ} :
    {A : Type ℓ} (m : Option A) (e : Error) {a : A} → or_raise m e ≡ ok a → m ≡ some a
or_raise-eq-ok none e h = cc
or_raise-eq-ok (some a) e h = cc

name_of-text : (v : Option Value) {s : String} → name_of v ≡ some s → text_of v ≡ some s
name_of-text none h = cc
name_of-text (some (Value.str s)) h = elim (Bool-cases (s == "")) [
  | inl y ↦ let h' : none ≡ some _ = rw y at h in cc
  | inr n ↦ rw n at h
]
name_of-text (some Value.null) h = cc
name_of-text (some (Value.bool b)) h = cc
name_of-text (some (Value.int z)) h = cc
name_of-text (some (Value.arr vs)) h = cc
name_of-text (some (Value.obj d)) h = cc

digest_of_base :
    (selection : Value) (base : Fields)
    → has_plan selection ≡ true
    → base_of selection ≡ some base
    → digest_of selection ≡ text_of (lookup "digest" base)
digest_of_base selection base planned h = rw (planned, h, digest_of) refl

-- A valid plan is one that is there.
validate_plan-has_plan :
    (selection : Value) {u : Unit {0}}
    → validate_plan (plan_of selection) ≡ ok u
    → has_plan selection ≡ true
unfolding validate_plan
validate_plan-has_plan (Value.obj d) {u} h = planned (lookup "plan" d) h
  where
    planned :
        (o : Option Value)
        → validate_plan (elim o [ none ↦ Value.null | some v ↦ v ]) ≡ ok u
        → (elim o [ none ↦ false | some v ↦ true ]) ≡ true
    planned none h = cc
    planned (some v) h = refl
validate_plan-has_plan Value.null h = cc
validate_plan-has_plan (Value.bool b) h = cc
validate_plan-has_plan (Value.int z) h = cc
validate_plan-has_plan (Value.str s) h = cc
validate_plan-has_plan (Value.arr vs) h = cc

ok_pair :
    {a c : String} {b d : Value}
    → ◌≡◌ {A = Result (String × Value)} (ok (a, b)) (ok (c, d))
    → (a ≡ c) × (b ≡ d)
ok_pair h = (cc, cc)

-- A request that passes has its base digest and its plan in the payload.
check_request-payload :
    {before : String} {plan : Value} (selection : Value) (program : String)
    (operation : Option String)
    → check_request selection program operation ≡ ok (before, plan)
    → (digest_of selection ≡ some before) × (plan_of selection ≡ plan)
unfolding check_request
check_request-payload selection program operation h =
    let (base, eb, h1) = >>=-eq-ok (or_raise (base_of selection) _) _ h in
    let (_, _, h2) = >>=-eq-ok (guard (not (program == "")) _) _ h1 in
    let (before', en, h3) = >>=-eq-ok (or_raise (name_of (lookup "digest" base)) _) _ h2 in
    let (_, valid, h4) = >>=-eq-ok (validate_plan (plan_of selection)) _ h3 in
    let (_, _, h5) = >>=-eq-ok (guard (operation_ok operation) _) _ h4 in
    let (same, same') = ok_pair h5 in
    (
      digest_of_base selection base (validate_plan-has_plan selection valid)
            (or_raise-eq-ok (base_of selection) _ eb)
          ∙ name_of-text (lookup "digest" base) (or_raise-eq-ok _ _ en)
          ∙ ap some same,
      same',
    )

Written-known :
    (sd : Value → String) (reader : String → Option StoredTarget) (id run path program : String)
    (selection : Value) (before : String) (v : Value) (t t' : Target) {o : Outcome}
    → Written (commit_identity sd before v program (some id)) before t t' o
    → digest_of selection ≡ some before
    → plan_of selection ≡ v
    → reader path ≡ some (stored t')
    → (r : Receipt) × (receipt_outcome sd reader
          (prepared_operation sd id run path t.target_id program selection before)
        ≡ known r)
      × (o ≡ told r)
Written-known sd reader id run path program selection before v t t' w d same opened = (
  w.receipt,
  rw (← w.same_target) (
      receipt_outcome-prepared sd reader id run path program before selection t' w.receipt d opened
        (rw same w.found) (rw same w.meant) w.based),
  w.tells,
)

-- A valid commit of an operation that the journal has prepared, to a target whose rows are in order
-- and that has no receipt of the operation: when the commit returns, the evidence that the
-- reconciliation finds at the target's path is a receipt of the outcome that was returned.
pub receipt_outcome-commit :
    (sd : Value → String) (reader : String → Option StoredTarget) (id run path program : String)
    (selection : Value) (before : String) (v : Value) (t : Target) {ps : List (String × ℕ)}
    (plan : IsPlan v ps) (o : Outcome) (c : Connection)
    → IsOrdered t.rows
    → check_request selection program (some id) ≡ ok (before, v)
    → find_receipt (commit_identity sd before v program (some id)).0 t.receipts ≡ none
    → commit sd no_hook selection program (some id) (idle_at t) ≡ (ok o, c)
    → reader path ≡ some (stored c.durable)
    → (r : Receipt) × (receipt_outcome sd reader
          (prepared_operation sd id run path t.target_id program selection before)
        ≡ known r)
      × (o ≡ told r)
receipt_outcome-commit sd reader id run path program selection before v t {ps} plan o c ordered
      passes fresh returned opened =
    let k = commit_identity sd before v program (some id) in
    let n = count_items plan.patches in
    let spec : at_rest (commit_spec sd t k before n ps) ≡ (ok o, c) =
      sym (commit-refines sd selection program (some id) before v t plan ordered passes)
      ∙ returned in
    let anew : at_rest (new_spec sd t k before n ps) ≡ (ok o, c) =
      rw (fresh, commit_spec) at spec in
    let w =
      new_spec-Written k before t fresh sd n ps
        (ap (λ (p : Result Outcome × Connection). (p.0, p.1.durable)) anew) in
    let (d, same) = check_request-payload selection program (some id) passes in
    Written-known sd reader id run path program selection before v t c.durable w d same opened
