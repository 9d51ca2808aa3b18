-- ===== src/Catalog/Snapshot.antt =====
-- foresee/catalog.py: `Snapshot`, `apply_to_snapshot` and the three catalog methods. Row ids are
-- texts, as in the table that snapshots are read from.
use Prim.Native.String.{◌++◌ as append_text}
use project_f.Base.{
  ℕ, zero, suc, ◌+◌, String, Bool, true, false, ◌&&◌, Option, none, some, List, [], ◌∷◌, map, ◌==◌,
  str_leb, if◌then◌else◌,
}
use project_f.Base.Int.{ℤ, pos, negsuc, ◌*ℤ◌}
use project_f.Base.Result.{Result, ok, err, value_error, type_error, key_error, ◌>>=◌, ◌>>◌, guard}
use project_f.Json.{
  Value, null, int, str, arr, obj, Items, nil, cons, Fields, end, field, get_item, set_item,
  is_scalar, as_int, scalar_eq, as_items,
}

pub record Snapshot : Type 0 where
  pub revision : ℕ
  pub rows : List Fields
  pub digest : String

abbrev pub all_scalars : Fields → Bool
all_scalars end = true
all_scalars (field k v d) = is_scalar v && all_scalars d

abbrev pub all_rows_scalar : List Fields → Bool
all_rows_scalar [] = true
all_rows_scalar (row ∷ rows) = all_scalars row && all_rows_scalar rows

-- `Snapshot.__post_init__`: the copies are read-only, as every value here is.
unfoldable pub make_snapshot : ℕ → List Fields → String → Result Snapshot
make_snapshot revision rows digest = do
  guard (all_rows_scalar rows) (value_error "snapshot row values must be immutable scalars")
  ok (record { revision = revision; rows = rows; digest = digest })

-- {"revision": revision, "rows": rows}, of which a snapshot's digest is taken
unfoldable pub content : ℕ → List Fields → Value
content revision rows =
    obj (field "revision" (int (pos revision)) (field "rows" (arr (as_items (map obj rows))) end))

abbrev pub as_text : Value → Result String
as_text (str s) = ok s
as_text _ = err (type_error "row id")

-- Rows by id: the dict that `apply_to_snapshot` builds, in insertion order.
abbrev pub Table : Type 0
Table = List (String × Fields)

unfoldable pub put : String → Fields → Table → Table
put k row [] = (k, row) ∷ []
put k row ((j, old) ∷ t) = if j == k then (j, row) ∷ t else (j, old) ∷ put k row t

-- {row["id"]: dict(row) for row in rows}
unfoldable pub index_rows : List Fields → Table → Result Table
index_rows [] t = ok t
index_rows (row ∷ rows) t = do
  v ← get_item "id" row
  row_id ← as_text v
  index_rows rows (put row_id row t)

unfoldable pub find : String → Table → Option Fields
find k [] = none
find k ((j, row) ∷ t) = if j == k then some row else find k t

-- for field, value in patch.items(): if field != "id": row[field] = value
unfoldable pub assign : Fields → Fields → Fields
assign end row = row
assign (field k v patch) row = assign patch (if k == "id" then row else set_item k v row)

unfoldable pub apply_patch : Fields → Table → Result Table
apply_patch patch t = do
  v ← get_item "id" patch
  row_id ← as_text v
  elim (find row_id t) [
    | none ↦ err (value_error "unknown catalog row")
    | some row ↦ ok (put row_id (assign patch row) t)
  ]

unfoldable pub apply_patches : Items → Table → Result Table
apply_patches nil t = ok t
apply_patches (cons (obj patch) rest) t = do t' ← apply_patch patch t; apply_patches rest t'
apply_patches (cons _ rest) t = err (type_error "patch")

unfoldable pub insert_sorted : String × Fields → Table → Table
insert_sorted e [] = e ∷ []
insert_sorted e (f ∷ t) = if str_leb e.0 f.0 then e ∷ f ∷ t else f ∷ insert_sorted e t

-- sorted(rows): a dict's keys are distinct, so its entries are sorted by key
unfoldable pub sort_table : Table → Table
sort_table [] = []
sort_table (e ∷ t) = insert_sorted e (sort_table t)

abbrev pub values : Table → List Fields
values [] = []
values ((_, row) ∷ t) = row ∷ values t

-- plan["patches"]: every caller has seen that it is a list
abbrev pub patches_of : Value → Result Items
patches_of (obj plan) = do
  v ← get_item "patches" plan
  elim v [ arr items ↦ ok items | _ ↦ err (type_error "patches") ]
patches_of _ = err (type_error "plan")

-- What a plan would make of a snapshot; `stable_digest` is the SHA-256 of the canonical JSON.
unfoldable pub apply_to_snapshot : (Value → String) → Snapshot → Value → Result Snapshot
apply_to_snapshot stable_digest snapshot plan = do
  rows ← index_rows snapshot.rows []
  patches ← patches_of plan
  patched ← apply_patches patches rows
  let ordered = values (sort_table patched)
  make_snapshot snapshot.revision ordered (stable_digest (content snapshot.revision ordered))

-- The fields that no plan may change, as `tuple(row[key] for key in source)`.
abbrev pub source_fields : List String
source_fields = "id" ∷ "title" ∷ "pack_price_cents" ∷ "units_per_pack" ∷ []

abbrev pub items_of : List String → Fields → Result (List Value)
items_of [] row = ok []
items_of (k ∷ ks) row = do v ← get_item k row; vs ← items_of ks row; ok (v ∷ vs)

abbrev pub all_eq : List Value → List Value → Bool
all_eq [] [] = true
all_eq (v ∷ vs) (w ∷ ws) = scalar_eq v w && all_eq vs ws
all_eq _ _ = false

unfoldable pub source_unchanged : Table → Fields → Result Bool
unfolding find
source_unchanged old row = do
  new ← items_of source_fields row
  v ← get_item "id" row
  row_id ← as_text v
  elim (find row_id old) [
    | none ↦ err (key_error row_id)
    | some before ↦ do was ← items_of source_fields before; ok (all_eq new was)
  ]

-- `all(...)` stops at the first row that fails.
abbrev pub all_hold : (Fields → Result Bool) → List Fields → Result Bool
all_hold test [] = ok true
all_hold test (row ∷ rows) =
    let rest = all_hold test rows in do b ← test row; if b then rest else ok false

unfoldable pub source_fields_unchanged : Snapshot → Snapshot → Result Bool
unfolding index_rows source_unchanged
source_fields_unchanged after before = do
  old ← index_rows before.rows []
  all_hold (source_unchanged old) after.rows

abbrev pub repeat : ℕ → String → String
repeat zero s = ""
repeat (suc n) s = append_text s (repeat n s)

abbrev pub repeat_int : ℤ → String → String
repeat_int (pos n) s = repeat n s
repeat_int (negsuc n) s = ""

-- `v * w` on scalars
abbrev pub times : Value → Value → Result Value
times (str s) w = elim (as_int w) [
  | none ↦ err (type_error "*")
  | some z ↦ ok (str (repeat_int z s))
]
times v (str s) = elim (as_int v) [
  | none ↦ err (type_error "*")
  | some z ↦ ok (str (repeat_int z s))
]
times v w = elim (as_int v) [
  | none ↦ err (type_error "*")
  | some y ↦ elim (as_int w) [ none ↦ err (type_error "*") | some z ↦ ok (int (y *ℤ z)) ]
]

abbrev pub is_null : Value → Bool
is_null null = true
is_null _ = false

unfoldable pub arithmetic_holds : Fields → Result Bool
arithmetic_holds row = do
  unit ← get_item "unit_price_cents" row
  if is_null unit then ok true else do
    units ← get_item "units_per_pack" row
    product ← times unit units
    price ← get_item "pack_price_cents" row
    ok (scalar_eq product price)

unfoldable pub valid_unit_arithmetic : Snapshot → Result Bool
valid_unit_arithmetic snapshot = all_hold arithmetic_holds snapshot.rows

unfoldable pub count_null : List Fields → Result ℕ
count_null [] = ok 0
count_null (row ∷ rows) = do
  unit ← get_item "unit_price_cents" row
  n ← count_null rows
  ok (if is_null unit then n + 1 else n)

unfoldable pub unresolved_units : Snapshot → Result ℕ
unfolding count_null
unresolved_units snapshot = count_null snapshot.rows
