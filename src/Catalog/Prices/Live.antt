-- ===== src/Catalog/Prices/Live.antt =====
-- The snapshot of a target, and what a valid plan's simulation on it gives.
use project_f.Base.{
  ℕ, String, ◌≡◌, refl, inl, inr, true, some, List, [], ◌∷◌, map, arith, if◌then◌else◌, Bool-cases,
  Option-cases,
}
use project_f.Base.Result.{ok, err, value_error}
use project_f.Json.{Value}
use project_f.Catalog.Snapshot.{
  Snapshot, make_snapshot, content, apply_to_snapshot, valid_unit_arithmetic, arithmetic_holds,
  patches_of, all_rows_scalar, all_hold,
}
use project_f.Catalog.Plan.{IsPlan}
use project_f.Catalog.Target.{CatalogRow, Target, Connection, row_fields, read_snapshot, snapshot}
use project_f.Catalog.Commit.{simulate_plan}
use project_f.Catalog.Prices.{IsOrdered, set_prices, all_known, fits, all_fit, set_prices-IsOrdered}
use project_f.Catalog.Prices.Simulated.{
  index_rows-entries, apply_patches-Reads, sort_table-entries, values-entries,
}

-- What `snapshot` returns at a target.
abbrev pub live : (Value → String) → Target → Snapshot
live sd t = record {
  revision = t.revision;
  rows = map row_fields t.rows;
  digest = sd (content t.revision (map row_fields t.rows));
}

all_rows_scalar-map : (rows : List CatalogRow) → all_rows_scalar (map row_fields rows) ≡ true
all_rows_scalar-map [] = refl
all_rows_scalar-map (r ∷ rs) = elim (Option-cases r.unit_price_cents) [
  | inl e ↦ rw (e, all_rows_scalar-map rs)
  | inr (z, e) ↦ rw (e, all_rows_scalar-map rs)
]

make_snapshot-map :
    (n : ℕ) (rows : List CatalogRow) (digest : String)
    → make_snapshot n (map row_fields rows) digest
      ≡ ok (record { revision = n; rows = map row_fields rows; digest = digest })
unfolding make_snapshot
make_snapshot-map n rows digest = rw (all_rows_scalar-map rows)

pub read_snapshot-live : (sd : Value → String) (t : Target) → read_snapshot sd t ≡ ok (live sd t)
unfolding read_snapshot
read_snapshot-live sd t = make_snapshot-map t.revision t.rows _

-- Inside a transaction a snapshot reads what the transaction has written.
pub snapshot-live :
    (sd : Value → String) (d t : Target)
    → let c : Connection = record { durable = d; pending = some t } in
      snapshot sd c ≡ (ok (live sd t), c)
unfolding snapshot
snapshot-live sd d t = rw (read_snapshot-live sd t)

patches_of-IsPlan :
    (v : Value) {ps : List (String × ℕ)} (plan : IsPlan v ps) → patches_of v ≡ ok plan.patches
patches_of-IsPlan v plan = elim plan.shape [ inl e ↦ rw e | inr e ↦ rw e ]

-- The simulation of a valid plan on the live snapshot is the live snapshot after its UPDATEs.
pub apply_to_snapshot-live :
    (sd : Value → String) (t : Target) (v : Value) {ps : List (String × ℕ)}
    → IsPlan v ps
    → IsOrdered t.rows
    → apply_to_snapshot sd (live sd t) v ≡ (
        if all_known ps t.rows
        then ok (live sd (record t { rows = set_prices ps t.rows }))
        else err (value_error "unknown catalog row"))
unfolding apply_to_snapshot
apply_to_snapshot-live sd t v {ps} plan ordered = elim (Bool-cases (all_known ps t.rows)) [
  | inl there ↦
      let after = set_prices-IsOrdered ps t.rows ordered in
      rw (index_rows-entries t.rows ordered) (
        rw (patches_of-IsPlan v plan) (
          rw (apply_patches-Reads t.rows plan.reads ordered, there)
            (rw (sort_table-entries (set_prices ps t.rows) after) (
              rw (values-entries (set_prices ps t.rows))
                (make_snapshot-map t.revision (set_prices ps t.rows) _)))))
  | inr absent ↦ rw (index_rows-entries t.rows ordered) (
      rw (patches_of-IsPlan v plan)
        (rw (apply_patches-Reads t.rows plan.reads ordered, absent) refl))
]

arithmetic_holds-fits : (r : CatalogRow) → arithmetic_holds (row_fields r) ≡ ok (fits r)
unfolding arithmetic_holds
arithmetic_holds-fits r = elim (Option-cases r.unit_price_cents) [
  | inl e ↦ rw e
  | inr (z, e) ↦ rw e
]

all_hold-fits :
    (rows : List CatalogRow) → all_hold arithmetic_holds (map row_fields rows) ≡ ok (all_fit rows)
all_hold-fits [] = refl
all_hold-fits (r ∷ rs) = rw (arithmetic_holds-fits r, all_hold-fits rs) (ground arith)

pub valid_unit_arithmetic-live :
    (sd : Value → String) (t : Target) → valid_unit_arithmetic (live sd t) ≡ ok (all_fit t.rows)
unfolding valid_unit_arithmetic
valid_unit_arithmetic-live sd t = all_hold-fits t.rows

-- What a commit simulates before it writes.
pub simulate_plan-live :
    (sd : Value → String) (t : Target) (v : Value) {ps : List (String × ℕ)} (plan : IsPlan v ps)
    → IsOrdered t.rows
    → simulate_plan sd v (live sd t) ≡ (
        if all_known ps t.rows
        then (if all_fit (set_prices ps t.rows)
            then ok (live sd (record t { rows = set_prices ps t.rows }), plan.patches)
            else err (value_error "unit price arithmetic is invalid"))
        else err (value_error "unknown catalog row"))
unfolding simulate_plan
simulate_plan-live sd t v {ps} plan ordered = elim (Bool-cases (all_known ps t.rows)) [
  | inl there ↦
      rw (apply_to_snapshot-live sd t v plan ordered, there)
        (rw (valid_unit_arithmetic-live sd (record t { rows = set_prices ps t.rows }))
          (rw (patches_of-IsPlan v plan) (ground arith)))
  | inr absent ↦ rw (apply_to_snapshot-live sd t v plan ordered, absent)
]
