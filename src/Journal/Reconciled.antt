-- ===== src/Journal/Reconciled.antt =====
-- foresee/journal.py: what `reconcile` concludes, and what it leaves alone.
use mathlib.Core.Path.{subst}
use project_f.Base.{
  String, true, false, Option, none, List, [], ◌∷◌, ◌==◌, ==_refl, ◌&&◌, ◌≡◌, refl, sym, ◌∙◌, ap,
  inl, inr, map, Bool-cases,
}
use project_f.Base.Result.{Result, ok, err, value_error, ok_injective}
use project_f.Json.{Value}
use project_f.Catalog.Target.{Receipt}
use project_f.Journal.Stored.{StoredTarget}
use project_f.Journal.{
  Evidence, known, unresolved, is_known, receipt_outcome, target_evidence, evidence_of,
  OperationState, Operation, Journal, record_operation, record_all, RunState, is_empty, all_known,
  Report, Run, operations_of, reconcile_run, reconcile_runs, reconcile, matching,
}
use project_f.Journal.Known.{next_state-reconciled, and_true}
use project_f.Runtime.Select.{In}

-- An operation without its state and its outcome.
abbrev pub intent_of : Operation → Operation
intent_of op = record op { state = OperationState.prepared; outcome = none }

record_operation-intent_of :
    (id : String) (state : OperationState) (outcome : Value) (ops : List Operation)
    → map intent_of (record_operation id state outcome ops) ≡ map intent_of ops
unfolding record_operation
record_operation-intent_of id state outcome [] = refl
record_operation-intent_of id state outcome (op ∷ ops) = elim (Bool-cases (op.operation_id == id)) [
  | inl y ↦ rw (y, record_operation-intent_of id state outcome ops) refl
  | inr n ↦ rw (n, record_operation-intent_of id state outcome ops) refl
]

-- What is like one of a list stands in another list of the same images.
In-map :
    (f : Operation → Operation) (x : Operation) (xs ys : List Operation)
    → map f xs ≡ map f ys
    → In x xs
    → (y : Operation) × In y ys × (f y ≡ f x)
In-map f x (a ∷ xs) (b ∷ ys) h (inl e) = (b, inl refl, (heads h ∙ ap f (sym e)))
  where
    heads : {u v : Operation} {us vs : List Operation} → u ∷ us ≡ v ∷ vs → v ≡ u
    heads e = cc
In-map f x (a ∷ xs) (b ∷ ys) h (inr i) =
    let (y, k, e) = In-map f x xs ys (tails h) i in (y, inr k, e)
  where
    tails : {u v : Operation} {us vs : List Operation} → u ∷ us ≡ v ∷ vs → us ≡ vs
    tails e = cc
In-map f x (a ∷ xs) [] h i = cc
In-map f x [] ys h i = absurd i

is_known_lem : (e : Evidence) → is_known e ≡ true → (r : Receipt) × (e ≡ known r)
is_known_lem (known r) h = (r, refl)
is_known_lem (unresolved why) h = cc

module _ (sd : Value → String) (as_json : Evidence → Value)
    (reader : String → Option StoredTarget) where
  record_all-intent_of :
      (ops stored : List Operation)
      → map intent_of (record_all sd as_json reader ops stored) ≡ map intent_of stored
  record_all-intent_of [] stored = refl
  record_all-intent_of (op ∷ ops) stored =
      record_all-intent_of ops _ ∙ record_operation-intent_of op.operation_id _ _ stored

  -- What a receipt tells of an operation does not depend on its state and its outcome.
  receipt_outcome-intent_of :
      (op : Operation) → receipt_outcome sd reader (intent_of op) ≡ receipt_outcome sd reader op
  unfolding receipt_outcome target_evidence
  receipt_outcome-intent_of op = refl

  -- If the evidence of all operations of a run is known, each has a receipt.
  evidence_of-known :
      (id : String) (ops : List Operation) (op : Operation)
      → all_known (evidence_of sd as_json reader (operations_of id ops)) ≡ true
      → In op ops
      → op.run_id ≡ id
      → (r : Receipt) × (receipt_outcome sd reader op ≡ known r)
  evidence_of-known id [] op h i mine = absurd i
  evidence_of-known id (o ∷ ops) op h i mine = elim (Bool-cases (o.run_id == id)) [
    | inl y ↦
        let all : is_known (receipt_outcome sd reader o)
              && all_known (evidence_of sd as_json reader (operations_of id ops))
            ≡ true =
          rw y at h in
        let (one, rest) = and_true _ _ all in
        elim i [
          | inl e ↦
              let (r, told) = is_known_lem (receipt_outcome sd reader o) one in
              (r, ap (receipt_outcome sd reader) e ∙ told)
          | inr k ↦ evidence_of-known id ops op rest k mine
        ]
    | inr n ↦ elim i [
      | inl e ↦ absurd (other o op n e mine)
      | inr k ↦ evidence_of-known id ops op (rw n at h) k mine
    ]
  ]
    where
      clash : true ≡ false → ⊥
      clash e = cc

      other : (o op : Operation) → (o.run_id == id) ≡ false → op ≡ o → op.run_id ≡ id → ⊥
      other o op n e mine = clash (
          sym (==_refl id)
          ∙ ap (λ s. s == id) (sym (ap (λ (x : Operation). x.run_id) (sym e) ∙ mine))
          ∙ n)

  -- In a journal with the same intents as this one, the run of a report.
  reconcile_runs-known :
      (runs : List Run) (j first : Journal) (r : Report) (op : Operation)
      → map intent_of j.operations ≡ map intent_of first.operations
      → In r (reconcile_runs sd as_json reader runs j).0
      → r.state ≡ RunState.reconciled
      → In op first.operations
      → op.run_id ≡ r.run_id
      → (receipt : Receipt) × (receipt_outcome sd reader op ≡ known receipt)
  unfolding reconcile_runs reconcile_run
  reconcile_runs-known [] j first r op same i state found mine = absurd i
  reconcile_runs-known (run ∷ runs) j first r op same (inr i) state found mine =
      reconcile_runs-known runs (reconcile_run sd as_json reader run j).1 first r op
        (record_all-intent_of (operations_of run.run_id j.operations) j.operations ∙ same) i state
        found mine
  reconcile_runs-known (run ∷ runs) j first r op same (inl e) state found mine =
      let (op', i, like) = In-map intent_of op first.operations j.operations (sym same) found in
      let (receipt, told) =
        evidence_of-known run.run_id j.operations op'
          (next_state-reconciled run.state _ (sym (ap (λ (q : Report). q.state) e) ∙ state)).1 i
          (ap (λ (o : Operation). o.run_id) like ∙ mine ∙ ap (λ (q : Report). q.run_id) e) in
      (
        receipt,
        sym (receipt_outcome-intent_of op)
            ∙ ap (receipt_outcome sd reader) (sym like)
            ∙ receipt_outcome-intent_of op'
            ∙ told,
      )

  reconcile_runs-intent_of :
      (runs : List Run) (j : Journal)
      → map intent_of (reconcile_runs sd as_json reader runs j).1.operations
        ≡ map intent_of j.operations
  unfolding reconcile_runs reconcile_run
  reconcile_runs-intent_of [] j = refl
  reconcile_runs-intent_of (run ∷ runs) j =
      reconcile_runs-intent_of runs (reconcile_run sd as_json reader run j).1
      ∙ record_all-intent_of (operations_of run.run_id j.operations) j.operations

  -- If a reconciliation that returns reports a run as reconciled, then every operation of that run
  -- in the journal has a receipt in its target; and the reconciliation leaves every recorded
  -- operation but its state and its outcome as it was, and adds and drops none.
  pub reconcile-known :
      (run_id : Option String) (j : Journal) (reports : List Report) (j' : Journal) (r : Report)
      (op : Operation)
      → reconcile sd as_json reader run_id j ≡ ok (reports, j')
      → In r reports
      → r.state ≡ RunState.reconciled
      → In op j.operations
      → op.run_id ≡ r.run_id
      → ((receipt : Receipt) × (receipt_outcome sd reader op ≡ known receipt))
        × (map intent_of j'.operations ≡ map intent_of j.operations)
  unfolding reconcile
  reconcile-known run_id j reports j' r op h i state found mine =
      elim (Bool-cases (is_empty (matching sd as_json reader run_id j.runs))) [
        | inl y ↦
            let h' : ◌≡◌ {A = Result (List Report × Journal)}
                (err (value_error "no matching journal runs")) (ok (reports, j')) =
              rw y at h in
            cc
        | inr n ↦
            let runs = matching sd as_json reader run_id j.runs in
            let e = ok_injective (rw n at h) in
            (
              reconcile_runs-known runs j j r op refl
                  (subst (λ (p : List Report × Journal). In r p.0) (sym e) i) state found mine,
              ap (λ (p : List Report × Journal). map intent_of p.1.operations) (sym e)
                  ∙ reconcile_runs-intent_of runs j,
            )
      ]
