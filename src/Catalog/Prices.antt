-- ===== src/Catalog/Prices.antt =====
-- The rows of the target as the simulation and the UPDATE statements see them: what a valid plan
-- does to the table, and that both do the same.

pub mod Simulated
pub mod Live
pub mod Written
use project_f.Base.{
  ℕ, zero, suc, ◌+◌, String, ◌≡◌, refl, ap, Bool, true, false, ◌&&◌, ◌||◌, Option, none, some, List,
  [], ◌∷◌, ◌++◌, map, ◌==◌, str_leb, arith, eq_iff, if◌then◌else◌, ==_comm,
}
use project_f.Base.Int.{ℤ, pos, ◌*ℤ◌, int_eq}
use project_f.Json.{Value, Fields}
use project_f.Catalog.Target.{CatalogRow, row_fields, set_price, count_id}

-- The ids of `rows` come after `k`, and differ from it.
abbrev pub AllAfter : String → List CatalogRow → Type 0
AllAfter k [] = Unit
AllAfter k (r ∷ rs) = ((k == r.id) ≡ false) × (str_leb k r.id ≡ true) × AllAfter k rs

-- The order of `ORDER BY id`, with distinct ids (the primary key).
abbrev pub IsOrdered : List CatalogRow → Type 0
IsOrdered [] = Unit
IsOrdered (r ∷ rs) = AllAfter r.id rs × IsOrdered rs

-- Specification: the table after a plan's patches.
abbrev pub set_prices : List (String × ℕ) → List CatalogRow → List CatalogRow
set_prices [] rows = rows
set_prices ((k, n) ∷ ps) rows = set_prices ps (set_price k (pos n) rows)

abbrev pub known : String → List CatalogRow → Bool
known k [] = false
known k (r ∷ rs) = r.id == k || known k rs

abbrev pub all_known : List (String × ℕ) → List CatalogRow → Bool
all_known [] rows = true
all_known ((k, n) ∷ ps) rows = known k rows && all_known ps rows

-- The unit price is open, or times the units it is the price of the pack.
abbrev pub fits : CatalogRow → Bool
fits r = elim r.unit_price_cents [
  | none ↦ true
  | some z ↦ int_eq (z *ℤ pos r.units_per_pack) (pos r.pack_price_cents)
]

abbrev pub all_fit : List CatalogRow → Bool
all_fit [] = true
all_fit (r ∷ rs) = fits r && all_fit rs

pub set_price-AllAfter :
    (j k : String) (z : ℤ) (rows : List CatalogRow)
    → AllAfter j rows
    → AllAfter j (set_price k z rows)
unfolding set_price
set_price-AllAfter j k z [] h = tt
set_price-AllAfter j k z (r ∷ rs) h = ground (arith, set_price-AllAfter j k z rs h.2)

pub set_price-IsOrdered :
    (k : String) (z : ℤ) (rows : List CatalogRow) → IsOrdered rows → IsOrdered (set_price k z rows)
unfolding set_price
set_price-IsOrdered k z [] h = tt
set_price-IsOrdered k z (r ∷ rs) h =
    ground (arith, set_price-AllAfter r.id k z rs h.0, set_price-IsOrdered k z rs h.1)

pub set_prices-IsOrdered :
    (ps : List (String × ℕ)) (rows : List CatalogRow)
    → IsOrdered rows
    → IsOrdered (set_prices ps rows)
set_prices-IsOrdered [] rows h = h
set_prices-IsOrdered ((k, n) ∷ ps) rows h =
    set_prices-IsOrdered ps (set_price k (pos n) rows) (set_price-IsOrdered k (pos n) rows h)

pub known-set_price :
    (j k : String) (z : ℤ) (rows : List CatalogRow) → known j (set_price k z rows) ≡ known j rows
unfolding set_price
known-set_price j k z [] = refl
known-set_price j k z (r ∷ rs) = ground (arith, known-set_price j k z rs)

pub all_known-set_price :
    (ps : List (String × ℕ)) (k : String) (z : ℤ) (rows : List CatalogRow)
    → all_known ps (set_price k z rows) ≡ all_known ps rows
all_known-set_price [] k z rows = refl
all_known-set_price ((j, n) ∷ ps) k z rows =
    rw (known-set_price j k z rows, all_known-set_price ps k z rows)

known-AllAfter : (k : String) (rows : List CatalogRow) → AllAfter k rows → known k rows ≡ false
known-AllAfter k [] h = refl
known-AllAfter k (r ∷ rs) h = ground (arith, ==_comm k r.id, known-AllAfter k rs h.2)

-- An id that no row has changes no row.
pub set_price_unknown :
    (k : String) (z : ℤ) (rows : List CatalogRow) → known k rows ≡ false → set_price k z rows ≡ rows
unfolding set_price
set_price_unknown k z [] h = refl
set_price_unknown k z (r ∷ rs) h = ground (arith, set_price_unknown k z rs)

count_id_unknown :
    (k : String) (rows : List CatalogRow) → known k rows ≡ false → count_id k rows ≡ 0
unfolding count_id
count_id_unknown k [] h = refl
count_id_unknown k (r ∷ rs) h = ground (arith, count_id_unknown k rs)

pub known_after :
    (k : String) (r : CatalogRow) (rs : List CatalogRow)
    → (r.id == k) ≡ true
    → AllAfter r.id rs
    → known k rs ≡ false
known_after k r rs e h = rw (← (eq_iff r.id k).0 e) (known-AllAfter r.id rs h)

-- One UPDATE changes exactly one row, or none.
pub count_id-known :
    (k : String) (rows : List CatalogRow)
    → IsOrdered rows
    → count_id k rows ≡ (if known k rows then 1 else 0)
unfolding count_id
count_id-known k [] h = refl
count_id-known k (r ∷ rs) h =
    ground (arith, known_after k r rs, count_id_unknown k rs, count_id-known k rs h.1)
