-- ===== src/Catalog/Commit/Within.antt =====
-- Inside the transaction of a commit: what each step leaves alone until the transaction ends.
use project_f.Base.{ℕ, String, ◌≡◌, refl, inl, inr, some, ◌&&◌, nat_eq, arith}
use project_f.Base.Result.{runtime_error, guard, Result-cases}
use project_f.Json.{Value, obj, Items, nil, cons, Fields}
use project_f.Catalog.Snapshot.{Snapshot}
use project_f.Catalog.Target.{Target, Connection, current, lift, snapshot, set_price, write}
use project_f.Catalog.Target.Rules.{>>=-holds}
use project_f.Catalog.Commit.{
  update_price, update_prices, bind_price, write_plan, verify_written, rows_eq,
}

-- Inside the transaction: nothing is durable yet, and no receipt has been written.
abbrev pub Within : Target → Connection → Type 0
Within d c = (c.durable ≡ d) × ((t : Target) × (c.pending ≡ some t) × (t.receipts ≡ d.receipts))

update_price-Within :
    (d : Target) (patch : Fields) (c : Connection) → Within d c → Within d (update_price patch c).1
unfolding update_price
update_price-Within d patch c (same, (t, open_, rs)) = elim (Result-cases (bind_price patch)) [
  | inl ((row_id, price), e) ↦
      rw (e, open_) (same, (record t { rows = set_price row_id price t.rows }, refl, rs))
  | inr (x, e) ↦ rw e (same, (t, open_, rs))
]

update_prices-Within :
    (d : Target) (items : Items) (c : Connection) → Within d c → Within d (update_prices items c).1
unfolding update_prices
update_prices-Within d nil c w = w
update_prices-Within d (cons (obj patch) rest) c w =
    let w' = update_price-Within d patch c w in
    >>=-holds (update_price patch) (λ _. update_prices rest) c (λ x. Within d x.1)
      (λ _ _. update_prices-Within d rest (update_price patch c).1 w') (λ _ _. w')
update_prices-Within d (cons v rest) c w = w

pub snapshot_lem :
    (sd : Value → String) (c : Connection) {t : Target} → c.pending ≡ some t → (snapshot sd c).1 ≡ c
unfolding snapshot
snapshot_lem sd c h = ground arith

pub write_plan-Within :
    (d : Target) (patches : Items) (n : ℕ) (c : Connection)
    → Within d c
    → Within d (write_plan patches n c).1
unfolding write_plan
write_plan-Within d patches n c w =
    >>=-holds (update_prices patches) (λ _. write (λ t. record t { revision = n })) c
      (λ x. Within d x.1)
      (λ _ _. write-Within d n (update_prices patches c).1 (update_prices-Within d patches c w))
      (λ _ _. update_prices-Within d patches c w)
  where
    write-Within :
        (d : Target) (n : ℕ) (c : Connection)
        → Within d c
        → Within d (record c { pending = some (record (current c) { revision = n }) })
    write-Within d n c (same, (t, open_, rs)) =
        rw open_ (same, (record t { revision = n }, refl, rs))

pub verify_written-Within :
    (sd : Value → String) (d : Target) (expected : Snapshot) (n : ℕ) (c : Connection)
    → Within d c
    → Within d (verify_written sd expected n c).1
unfolding verify_written
verify_written-Within sd d expected n c (same, (t, open_, rs)) =
    let here : Within d (snapshot sd c).1 = rw (snapshot_lem sd c open_) (same, (t, open_, rs)) in
    >>=-holds (snapshot sd)
      (λ actual. lift (
        guard (rows_eq actual.rows expected.rows && nat_eq actual.revision n)
          (runtime_error "commit postcondition failed")))
      c (λ x. Within d x.1) (λ _ _. here) (λ _ _. here)
