-- ===== src/Catalog/Prices/Simulated.antt =====
-- `apply_to_snapshot` on the rows of the target, for the patches of a valid plan.
use project_f.Base.{
  ℕ, String, ◌≡◌, ◌∙◌, refl, ap, inl, inr, true, false, none, some, List, [], ◌∷◌, ◌++◌, map, ◌==◌,
  arith, if◌then◌else◌, Bool-cases,
}
use mathlib.Core.List.{append-nil, append_assoc}
use project_f.Base.Int.{pos}
use project_f.Base.Result.{ok, err, value_error}
use project_f.Json.{int, str, Items, Fields, set_item, get_item}
use project_f.Catalog.Snapshot.{
  Table, put, find, index_rows, assign, apply_patch, apply_patches, insert_sorted, sort_table,
  values,
}
use project_f.Catalog.Plan.{IsPatch, Reads, no_more, one_more}
use project_f.Catalog.Target.{CatalogRow, row_fields, set_price}
use project_f.Catalog.Prices.{
  AllAfter, IsOrdered, set_prices, known, all_known, set_price-IsOrdered, all_known-set_price,
  set_price_unknown, known_after,
}

-- The dict of the rows by id.
abbrev pub entries : List CatalogRow → Table
entries [] = []
entries (r ∷ rs) = (r.id, row_fields r) ∷ entries rs

-- No key of `t` is an id of `rows`.
abbrev NotAmong : String → Table → Type 0
NotAmong k [] = Unit
NotAmong k ((j, row) ∷ t) = ((j == k) ≡ false) × NotAmong k t

abbrev Apart : Table → List CatalogRow → Type 0
Apart t [] = Unit
Apart t (r ∷ rs) = NotAmong r.id t × Apart t rs

put-NotAmong :
    (k : String) (row : Fields) (t : Table) → NotAmong k t → put k row t ≡ t ++ (k, row) ∷ []
unfolding put
put-NotAmong k row [] h = refl
put-NotAmong k row ((j, old) ∷ t) h = ground (arith, put-NotAmong k row t h.1)

NotAmong-append :
    (k j : String) (row : Fields) (t : Table)
    → NotAmong k t
    → (j == k) ≡ false
    → NotAmong k (t ++ (j, row) ∷ [])
NotAmong-append k j row [] h e = (e, tt)
NotAmong-append k j row (x ∷ t) h e = (h.0, NotAmong-append k j row t h.1 e)

Apart-append :
    (t : Table) (j : String) (row : Fields) (rs : List CatalogRow)
    → Apart t rs
    → AllAfter j rs
    → Apart (t ++ (j, row) ∷ []) rs
Apart-append t j row [] h after = tt
Apart-append t j row (r ∷ rs) h after =
    (NotAmong-append r.id j row t h.0 after.0, Apart-append t j row rs h.1 after.2)

index_rows_from :
    (t : Table) (rows : List CatalogRow)
    → Apart t rows
    → IsOrdered rows
    → index_rows (map row_fields rows) t ≡ ok (t ++ entries rows)
unfolding index_rows
index_rows_from t [] apart h = rw append-nil
index_rows_from t (r ∷ rs) apart h = rw (put-NotAmong r.id (row_fields r) t apart.0) (
    index_rows_from (t ++ (r.id, row_fields r) ∷ []) rs
      (Apart-append t r.id (row_fields r) rs apart.1 h.0) h.1
    ∙ rw append_assoc)

Apart-empty : (rows : List CatalogRow) → Apart [] rows
Apart-empty [] = tt
Apart-empty (r ∷ rs) = (tt, Apart-empty rs)

pub index_rows-entries :
    (rows : List CatalogRow)
    → IsOrdered rows
    → index_rows (map row_fields rows) [] ≡ ok (entries rows)
index_rows-entries rows h = index_rows_from [] rows (Apart-empty rows) h

-- The assignments of a valid patch set the unit price.
assign-IsPatch :
    (d : Fields) (k : String) (n : ℕ) (row : Fields)
    → IsPatch d k n
    → assign d row ≡ set_item "unit_price_cents" (int (pos n)) row
unfolding assign
assign-IsPatch d k n row (inl e) = rw e
assign-IsPatch d k n row (inr e) = rw e

find-known :
    (k : String) (rows : List CatalogRow)
    → known k rows ≡ true
    → (r : CatalogRow) × (find k (entries rows) ≡ some (row_fields r))
unfolding find
find-known k [] h = cc
find-known k (r ∷ rs) h = elim (Bool-cases (r.id == k)) [
  | inl e ↦ (r, rw e)
  | inr e ↦ let (s, f) = find-known k rs (ground arith) in (s, rw e f)
]

find_unknown :
    (k : String) (rows : List CatalogRow) → known k rows ≡ false → find k (entries rows) ≡ none
unfolding find
find_unknown k [] h = refl
find_unknown k (r ∷ rs) h = ground (arith, find_unknown k rs)

put-set_price :
    (k : String) (n : ℕ) (rows : List CatalogRow) (row : Fields)
    → IsOrdered rows
    → find k (entries rows) ≡ some row
    → put k (set_item "unit_price_cents" (int (pos n)) row) (entries rows)
      ≡ entries (set_price k (pos n) rows)
unfolding put find set_price
put-set_price k n [] row h e = cc
put-set_price k n (r ∷ rs) row h e = elim (Bool-cases (r.id == k)) [
  | inl same ↦
      let found : row_fields r ≡ row = ground arith in
      rw (same, ← found, set_price_unknown k (pos n) rs (known_after k r rs same h.0))
  | inr other ↦
      rw other (
        ap (λ (t : Table). (r.id, row_fields r) ∷ t) (put-set_price k n rs row h.1 (rw other at e)))
]

IsPatch-id : (d : Fields) (k : String) (n : ℕ) → IsPatch d k n → get_item "id" d ≡ ok (str k)
IsPatch-id d k n (inl e) = rw e
IsPatch-id d k n (inr e) = rw e

module _ (k : String) (n : ℕ) (d : Fields) (patch : IsPatch d k n) (rows : List CatalogRow) where
  apply_patch_lem : apply_patch d (entries rows) ≡ elim (find k (entries rows)) [
    | none ↦ err (value_error "unknown catalog row")
    | some row ↦ ok (put k (assign d row) (entries rows))
  ]
  unfolding apply_patch
  apply_patch_lem = rw (IsPatch-id d k n patch)

  -- A patch of a known row sets its price, as one UPDATE does.
  apply_patch-known :
      IsOrdered rows
      → known k rows ≡ true
      → apply_patch d (entries rows) ≡ ok (entries (set_price k (pos n) rows))
  apply_patch-known h there =
      let (r, found) = find-known k rows there in
      rw (apply_patch_lem, found, assign-IsPatch d k n (row_fields r) patch)
        (ap ok (put-set_price k n rows (row_fields r) h found))

  apply_patch_unknown :
      known k rows ≡ false → apply_patch d (entries rows) ≡ err (value_error "unknown catalog row")
  apply_patch_unknown absent = rw (apply_patch_lem, find_unknown k rows absent)

pub apply_patches-Reads :
    {seen : List String} {items : Items} {ps : List (String × ℕ)} (rows : List CatalogRow)
    → Reads seen items ps
    → IsOrdered rows
    → apply_patches items (entries rows) ≡ (
        if all_known ps rows
        then ok (entries (set_prices ps rows))
        else err (value_error "unknown catalog row"))
unfolding apply_patches
apply_patches-Reads rows no_more h = refl
apply_patches-Reads rows
      (one_more {d = d} {row_id = k} {price = n} {rest = rest} {ps = ps} patch _ _ _ reads) h =
    elim (Bool-cases (known k rows)) [
      | inl there ↦
          rw (there, apply_patch-known k n d patch rows h there)
            (apply_patches-Reads (set_price k (pos n) rows) reads
                (set_price-IsOrdered k (pos n) rows h)
              ∙ rw (all_known-set_price ps k (pos n) rows))
      | inr absent ↦ rw (absent, apply_patch_unknown k n d patch rows absent)
    ]

insert_sorted-AllAfter :
    (r : CatalogRow) (rs : List CatalogRow)
    → AllAfter r.id rs
    → insert_sorted (r.id, row_fields r) (entries rs) ≡ (r.id, row_fields r) ∷ entries rs
unfolding insert_sorted
insert_sorted-AllAfter r [] h = refl
insert_sorted-AllAfter r (s ∷ rs) h = rw h.1

pub sort_table-entries :
    (rows : List CatalogRow) → IsOrdered rows → sort_table (entries rows) ≡ entries rows
unfolding sort_table
sort_table-entries [] h = refl
sort_table-entries (r ∷ rs) h = rw (sort_table-entries rs h.1) (insert_sorted-AllAfter r rs h.0)

pub values-entries : (rows : List CatalogRow) → values (entries rows) ≡ map row_fields rows
values-entries [] = refl
values-entries (r ∷ rs) = ap (λ (t : List Fields). row_fields r ∷ t) (values-entries rs)
