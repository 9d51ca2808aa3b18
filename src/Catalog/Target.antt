-- ===== src/Catalog/Target.antt =====
-- foresee/catalog.py: the tables of the SQLite target, one connection to it with its open
-- transaction, and the statements that `Catalog` executes. A method is an action: it returns the
-- connection beside its result, also when it raises.
pub mod Rules
use Prim.Native.String.{◌++◌ as append_text}
use project_f.Base.{
  ℕ, zero, suc, ◌+◌, String, ◌≡◌, Bool, true, false, not, Option, none, some, List, [], ◌∷◌, ◌++◌,
  map, ◌==◌, str_leb, if◌then◌else◌,
}
use project_f.Base.Int.{ℤ, pos}
use project_f.Base.Result.{Result, Error, ok, err, sqlite_error, ◌>>=◌ as then_result}
use project_f.Json.{Value, null, int, str, Fields, end, field}
use project_f.Catalog.Snapshot.{Snapshot, make_snapshot, content}

pub data Status : Type 0 where
  applied stale : Status

-- The texts that `commit` writes into the column `detail`.
pub data Detail : Type 0 where
  target_changed : Detail
  applied_patches : ℕ → Detail

-- catalog_rows, with what the column checks give
pub record CatalogRow : Type 0 where
  pub id : String
  pub title : String
  pub pack_price_cents : ℕ
  pub units_per_pack : ℕ
  pub unit_price_cents : Option ℤ

-- foresee_receipts
pub record Receipt : Type 0 where
  pub commit_id : String
  pub intent_digest : String
  pub status : Status
  pub snapshot_digest : String
  pub resulting_revision : ℕ
  pub detail : Detail

-- The database; `rows` stands in the order of `ORDER BY id`.
pub record Target : Type 0 where
  pub target_id : String
  pub revision : ℕ
  pub rows : List CatalogRow
  pub receipts : List Receipt

-- `pending` is what an open transaction sees; `durable` is what everybody else does.
pub record Connection : Type 0 where
  pub durable : Target
  pub pending : Option Target

-- A connection with no open transaction.
abbrev pub idle_at : Target → Connection
idle_at t = record { durable = t; pending = none }

abbrev pub current : Connection → Target
current c = elim c.pending [ none ↦ c.durable | some t ↦ t ]

abbrev pub in_transaction : Connection → Bool
in_transaction c = elim c.pending [ none ↦ false | some _ ↦ true ]

abbrev pub Exec {ℓ} : Type ℓ → Type ℓ
Exec A = Connection → Result A × Connection

abbrev pub lift {ℓ} : {A : Type ℓ} → Result A → Exec A
lift r c = (r, c)

infixl 5 ◌>>=◌ ◌>>◌
abbrev pub ◌>>=◌ {ℓ κ} : {A : Type ℓ} {B : Type κ} → Exec A → (A → Exec B) → Exec B
◌>>=◌ m f c = let (r, c') = m c in elim r [ ok a ↦ f a c' | err e ↦ (err e, c') ]

abbrev pub ◌>>◌ {ℓ} : {B : Type ℓ} → Exec (Unit {0}) → Exec B → Exec B
m >> k = m >>= λ _. k

abbrev pub begin : Exec (Unit {0})
begin c = (ok tt, record c { pending = some (current c) })

abbrev pub commit_transaction : Exec (Unit {0})
commit_transaction c = (ok tt, record { durable = current c; pending = none })

abbrev pub rollback : Connection → Connection
rollback c = record c { pending = none }

-- A statement that writes opens a transaction if none is open.
abbrev pub write : (Target → Target) → Exec (Unit {0})
write f c = (ok tt, record c { pending = some (f (current c)) })

abbrev unit_price : Option ℤ → Value
unit_price none = null
unit_price (some z) = int z

-- dict(row)
abbrev pub row_fields : CatalogRow → Fields
row_fields r = field "id" (str r.id) (
    field "title" (str r.title) (
      field "pack_price_cents" (int (pos r.pack_price_cents)) (
        field "units_per_pack" (int (pos r.units_per_pack))
          (field "unit_price_cents" (unit_price r.unit_price_cents) end))))

-- `Catalog._read_snapshot`
unfoldable pub read_snapshot : (Value → String) → Target → Result Snapshot
unfolding make_snapshot content
read_snapshot stable_digest t =
    make_snapshot t.revision (map row_fields t.rows)
      (stable_digest (content t.revision (map row_fields t.rows)))

-- `Catalog.snapshot`: it ends the transaction only if it has begun it.
unfoldable pub snapshot : (Value → String) → Exec Snapshot
unfolding read_snapshot
snapshot stable_digest c =
    if in_transaction c
    then (read_snapshot stable_digest (current c), c)
    else elim (read_snapshot stable_digest c.durable) [
      | ok s ↦ (ok s, (commit_transaction (begin c).1).1)
      | err e ↦ (err e, rollback (begin c).1)
    ]

-- SELECT * FROM foresee_receipts WHERE commit_id = ?
unfoldable pub find_receipt : String → List Receipt → Option Receipt
find_receipt k [] = none
find_receipt k (r ∷ rs) = if r.commit_id == k then some r else find_receipt k rs

-- UPDATE catalog_rows SET unit_price_cents = ? WHERE id = ?, and its row count
unfoldable pub set_price : String → ℤ → List CatalogRow → List CatalogRow
set_price k z [] = []
set_price k z (r ∷ rs) =
    (if r.id == k then record r { unit_price_cents = some z } else r) ∷ set_price k z rs

unfoldable pub count_id : String → List CatalogRow → ℕ
count_id k [] = 0
count_id k (r ∷ rs) = if r.id == k then count_id k rs + 1 else count_id k rs

-- INSERT INTO foresee_receipts: `commit_id` is the primary key.
unfoldable pub insert_receipt : Receipt → Exec (Unit {0})
unfolding find_receipt
insert_receipt r c = elim (find_receipt r.commit_id (current c).receipts) [
  | none ↦ write (λ t. record t { receipts = t.receipts ++ r ∷ [] }) c
  | some _ ↦ (err (sqlite_error "UNIQUE constraint failed: foresee_receipts.commit_id"), c)
]

-- `Catalog.__init__` on a new database; `target_id` is a fresh UUID.
unfoldable pub create_schema : String → Target
create_schema target_id = record { target_id = target_id; revision = 0; rows = []; receipts = [] }

abbrev pub seed_rows : List CatalogRow
seed_rows =
    record {
      id = "coffee";
      title = "Coffee beans";
      pack_price_cents = 1800;
      units_per_pack = 12;
      unit_price_cents = none;
    }
    ∷ record {
      id = "filters";
      title = "Paper filters";
      pack_price_cents = 2400;
      units_per_pack = 24;
      unit_price_cents = none;
    }
    ∷ record {
      id = "mugs";
      title = "Stoneware mugs";
      pack_price_cents = 3600;
      units_per_pack = 6;
      unit_price_cents = some (pos 600);
    }
    ∷ []

unfoldable pub seed : Exec (Unit {0})
seed c = elim (current c).rows [
  | [] ↦ commit_transaction (write (λ t. record t { rows = seed_rows }) c).1
  | _ ∷ _ ↦ (ok tt, c)
]

abbrev retitle : CatalogRow → CatalogRow
retitle r = if r.id == "mugs" then record r { title = append_text r.title " (updated)" } else r

unfoldable pub mutate_for_stale_test : Exec (Unit {0})
mutate_for_stale_test c =
    commit_transaction
      (write (λ t. record t { rows = map retitle t.rows; revision = t.revision + 1 }) c).1
