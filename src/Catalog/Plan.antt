-- ===== src/Catalog/Plan.antt =====
-- foresee/catalog.py: `Catalog._validate_plan`, and what a plan that passes it looks like.
use project_f.Base.{
  ◌↔◌, ℕ, ◌-◌, ◌^◌, ◌≤◌, String, ◌≡◌, refl, ◌⊎◌, inl, inr, true, false, Option, none, some, List,
  [], ◌∷◌, ◌==◌, leb, Option-cases, contains, if◌then◌else◌, arith, eq_iff,
}
use project_f.Base.Int.{pos}
use project_f.Base.Result.{Result, ok, err, value_error}
use project_f.Json.{
  Value, int, str, arr, obj, Items, nil, cons, Fields, end, field, lookup, keys_are,
}

-- SQLite's largest integer
abbrev pub max_price : ℕ
max_price = 2 ^ 63 - 1

-- A nonempty text.
abbrev pub name_of : Option Value → Option String
name_of none = none
name_of (some (str s)) = if s == "" then none else some s
name_of (some _) = none

abbrev pub list_of : Option Value → Option Items
list_of none = none
list_of (some (arr vs)) = some vs
list_of (some _) = none

-- type(value) is int and 0 <= value <= 2**63 - 1
abbrev pub price_of : Option Value → Option ℕ
price_of none = none
price_of (some (int (pos n))) = if leb n max_price then some n else none
price_of (some _) = none

validate_patches : List String → Items → Result (Unit {0})
validate_patches seen nil = ok tt
validate_patches seen (cons (obj patch) rest) =
    if keys_are "id" "unit_price_cents" patch
    then elim (name_of (lookup "id" patch)) [
      | none ↦ err (value_error "invalid or duplicate patch row ID")
      | some row_id ↦
          if contains seen row_id
          then err (value_error "invalid or duplicate patch row ID")
          else elim (price_of (lookup "unit_price_cents" patch)) [
            | none ↦ err (value_error "unit price must be a nonnegative SQLite integer")
            | some _ ↦ validate_patches (row_id ∷ seen) rest
          ]
    ]
    else err (value_error "patch must contain only id and unit_price_cents")
validate_patches seen (cons _ rest) =
    err (value_error "patch must contain only id and unit_price_cents")

unfoldable pub validate_plan : Value → Result (Unit {0})
unfolding validate_patches
validate_plan (obj plan) =
    if keys_are "id" "patches" plan
    then elim (name_of (lookup "id" plan)) [
      | none ↦ err (value_error "invalid plan structure")
      | some _ ↦ elim (list_of (lookup "patches" plan)) [
        | none ↦ err (value_error "invalid plan structure")
        | some patches ↦ validate_patches [] patches
      ]
    ]
    else err (value_error "invalid plan structure")
validate_plan _ = err (value_error "invalid plan structure")

-- A patch that passes: an id and a price, in either order.
abbrev pub IsPatch : Fields → String → ℕ → Type 0
IsPatch d row_id price =
    (d ≡ field "id" (str row_id) (field "unit_price_cents" (int (pos price)) end))
    ⊎ (d ≡ field "unit_price_cents" (int (pos price)) (field "id" (str row_id) end))

-- The patches of a plan, read as pairs of a row id and a price.
pub data Reads : List String → Items → List (String × ℕ) → Type 0 where
  no_more : {seen : List String} → Reads seen nil []
  one_more :
      {seen : List String} {d : Fields} {row_id : String} {price : ℕ} {rest : Items}
      {ps : List (String × ℕ)}
      → IsPatch d row_id price
      → (row_id == "") ≡ false
      → contains seen row_id ≡ false
      → price ≤ max_price
      → Reads (row_id ∷ seen) rest ps
      → Reads seen (cons (obj d) rest) ((row_id, price) ∷ ps)

name_of-eq :
    (v : Value) (s : String) → name_of (some v) ≡ some s → (v ≡ str s) × ((s == "") ≡ false)
name_of-eq (str t) s h = ground arith
name_of-eq Value.null s h = cc
name_of-eq (Value.bool b) s h = cc
name_of-eq (int z) s h = cc
name_of-eq (arr vs) s h = cc
name_of-eq (obj d) s h = cc

price_of-eq : (v : Value) (n : ℕ) → price_of (some v) ≡ some n → (v ≡ int (pos n)) × (n ≤ max_price)
price_of-eq (int (pos m)) n h = ground arith
price_of-eq _ n h = cc

-- The only dicts of two keys are the two orders of their fields.
two_keys :
    (a b : String) (d : Fields) (v w : Value)
    → (a == b) ≡ false
    → keys_are a b d ≡ true
    → lookup a d ≡ some v
    → lookup b d ≡ some w
    → (d ≡ field a v (field b w end)) ⊎ (d ≡ field b w (field a v end))
two_keys a b end v w ne k p q = cc
two_keys a b (field j x end) v w ne k p q = ground arith
two_keys a b (field i x (field j y end)) v w ne k p q =
    ground (arith, eq_iff i a, eq_iff j b, eq_iff i b, eq_iff j a, eq_iff a b)
two_keys a b (field i x (field j y (field k z d))) v w ne h p q = ground arith

-- What one round of the loop has established when it goes on.
step :
    (seen : List String) (d : Fields) (rest : Items)
    → validate_patches seen (cons (obj d) rest) ≡ ok tt
    → (row_id : String) × (price : ℕ) × (keys_are "id" "unit_price_cents" d ≡ true)
      × (name_of (lookup "id" d) ≡ some row_id)
      × (price_of (lookup "unit_price_cents" d) ≡ some price)
      × (contains seen row_id ≡ false)
      × (validate_patches (row_id ∷ seen) rest ≡ ok tt)
unfolding validate_patches
step seen d rest h = elim (Option-cases (name_of (lookup "id" d))) [
  | inl e ↦ ground arith
  | inr (row_id, e) ↦ elim (Option-cases (price_of (lookup "unit_price_cents" d))) [
    | inl f ↦ absurd (ground arith)
    | inr (price, f) ↦ (row_id, price, ground arith, e, f, ground arith, ground arith)
  ]
]

name_of-lookup :
    (k : String) (d : Fields) {s : String}
    → name_of (lookup k d) ≡ some s
    → (lookup k d ≡ some (str s)) × ((s == "") ≡ false)
name_of-lookup k d {s} h = elim (Option-cases (lookup k d)) [
  | inl e ↦ ground arith
  | inr (v, e) ↦ let f = name_of-eq v s (rw e at h) in (rw (e, f.0), f.1)
]

price_of-lookup :
    (k : String) (d : Fields) {n : ℕ}
    → price_of (lookup k d) ≡ some n
    → (lookup k d ≡ some (int (pos n))) × (n ≤ max_price)
price_of-lookup k d {n} h = elim (Option-cases (lookup k d)) [
  | inl e ↦ ground arith
  | inr (v, e) ↦ let f = price_of-eq v n (rw e at h) in (rw (e, f.0), f.1)
]

validate_patches-Reads :
    (seen : List String) (items : Items)
    → validate_patches seen items ≡ ok tt
    → (ps : List (String × ℕ)) × Reads seen items ps
validate_patches-Reads seen nil h = ([], no_more)
validate_patches-Reads seen (cons (obj d) rest) h =
    let (row_id, price, keys, name, cost, fresh, more) = step seen d rest h in
    let (ps, reads) = validate_patches-Reads (row_id ∷ seen) rest more in
    let (has_id, nonempty) = name_of-lookup "id" d name in
    let (has_price, bounded) = price_of-lookup "unit_price_cents" d cost in
    (
      (row_id, price) ∷ ps,
      one_more
          (two_keys "id" "unit_price_cents" d (str row_id) (int (pos price)) refl keys has_id
            has_price)
          nonempty fresh bounded reads,
    )
validate_patches-Reads seen (cons v rest) h = absurd (unfold validate_patches in cc)

-- A plan that passes: a nonempty id and patches of pairwise distinct rows, in either order.
pub record IsPlan (v : Value) (ps : List (String × ℕ)) : Type 0 where
  pub name : String
  pub patches : Items
  pub nonempty : (name == "") ≡ false
  pub shape :
      (v ≡ obj (field "id" (str name) (field "patches" (arr patches) end)))
      ⊎ (v ≡ obj (field "patches" (arr patches) (field "id" (str name) end)))
  pub reads : Reads [] patches ps

Reads-validate_patches :
    {seen : List String} {items : Items} {ps : List (String × ℕ)}
    → Reads seen items ps
    → validate_patches seen items ≡ ok tt
unfolding validate_patches
Reads-validate_patches no_more = refl
Reads-validate_patches (one_more (inl e) nonempty fresh bounded reads) =
    ground (arith, Reads-validate_patches reads)
Reads-validate_patches (one_more (inr e) nonempty fresh bounded reads) =
    ground (arith, Reads-validate_patches reads)

list_of-lookup :
    (k : String) (d : Fields) {items : Items}
    → list_of (lookup k d) ≡ some items
    → lookup k d ≡ some (arr items)
list_of-lookup k d h = elim (Option-cases (lookup k d)) [
  | inl e ↦ ground arith
  | inr (v, e) ↦ ground arith
]

plan_step :
    (d : Fields)
    → validate_plan (obj d) ≡ ok tt
    → (name : String) × (patches : Items) × (keys_are "id" "patches" d ≡ true)
      × (name_of (lookup "id" d) ≡ some name)
      × (list_of (lookup "patches" d) ≡ some patches)
      × (validate_patches [] patches ≡ ok tt)
unfolding validate_plan
plan_step d h = elim (Option-cases (name_of (lookup "id" d))) [
  | inl e ↦ absurd (ground arith)
  | inr (name, e) ↦ elim (Option-cases (list_of (lookup "patches" d))) [
    | inl f ↦ absurd (ground arith)
    | inr (patches, f) ↦ (name, patches, ground arith, e, f, ground arith)
  ]
]

pub validate_plan-IsPlan :
    (v : Value) → validate_plan v ≡ ok tt → (ps : List (String × ℕ)) × IsPlan v ps
validate_plan-IsPlan (obj d) h =
    let (n, items, keys, named, listed, more) = plan_step d h in
    let (ps, read) = validate_patches-Reads [] items more in
    let (has_id, fine) = name_of-lookup "id" d named in
    let found =
      two_keys "id" "patches" d (str n) (arr items) refl keys has_id
        (list_of-lookup "patches" d listed) in
    (
      ps,
      record {
        name = n;
        patches = items;
        nonempty = fine;
        reads = read;
        shape = ground (arith, found);
      },
    )
validate_plan-IsPlan Value.null h = absurd (unfold validate_plan in cc)
validate_plan-IsPlan _ h = absurd (unfold validate_plan in cc)

-- `_validate_plan` accepts a value exactly when it is a dict of a nonempty id and a list of
-- patches, each of them a dict of a nonempty row id and an integer price of at most 2 ^ 63 - 1,
-- where no row id is named twice.
pub validate_plan-eq-ok_iff :
    (v : Value) → (validate_plan v ≡ ok tt) ↔ ((ps : List (String × ℕ)) × IsPlan v ps)
unfolding validate_plan
validate_plan-eq-ok_iff v = (
  validate_plan-IsPlan v,
  λ (ps, plan). elim plan.shape [
    | inl e ↦ rw e (ground (arith, plan.nonempty, Reads-validate_patches plan.reads))
    | inr e ↦ rw e (ground (arith, plan.nonempty, Reads-validate_patches plan.reads))
  ],
)
