-- ===== src/Json.antt =====
-- The values that the Python code keeps in dicts: rows, candidate plans, selections, events. They
-- are JSON values whose numbers are integers; a dict is a list of fields in insertion order.
use project_f.Base.{
  ℕ, suc, String, Bool, true, false, ◌&&◌, Option, none, some, List, [], ◌∷◌, ◌==◌, nat_eq,
  if◌then◌else◌,
}
use project_f.Base.Int.{ℤ, pos, int_eq}
use project_f.Base.Result.{Result, ok, err, key_error}

mutual
  -- a dict
  pub data Fields : Type 0 where
    field : String → Value → Fields → Fields
    end : Fields

  -- a list
  pub data Items : Type 0 where
    cons : Value → Items → Items
    nil : Items

  pub data Value : Type 0 where
    str : String → Value
    int : ℤ → Value
    bool : Bool → Value
    null : Value
    obj : Fields → Value
    arr : Items → Value

-- d.get(k)
abbrev pub lookup : String → Fields → Option Value
lookup k end = none
lookup k (field j v d) = if j == k then some v else lookup k d

-- d[k]
abbrev pub get_item : String → Fields → Result Value
get_item k d = elim (lookup k d) [ none ↦ err (key_error k) | some v ↦ ok v ]

-- d[k] = v
abbrev pub set_item : String → Value → Fields → Fields
set_item k v end = field k v end
set_item k v (field j w d) = if j == k then field j v d else field j w (set_item k v d)

abbrev pub has : String → Fields → Bool
has k end = false
has k (field j v d) = if j == k then true else has k d

abbrev pub size : Fields → ℕ
size end = 0
size (field k v d) = suc (size d)

-- set(d) == {a, b}: a dict names no key twice
abbrev pub keys_are : String → String → Fields → Bool
keys_are a b d = nat_eq (size d) 2 && has a d && has b d

abbrev pub as_items : List Value → Items
as_items [] = nil
as_items (v ∷ vs) = cons v (as_items vs)

-- The immutable scalars: `type(value) in (str, int, float, bool, NoneType)`.
abbrev pub is_scalar : Value → Bool
is_scalar (arr vs) = false
is_scalar (obj d) = false
is_scalar _ = true

-- A bool is a number to `==` and `*`.
abbrev pub as_int : Value → Option ℤ
as_int (bool true) = some (pos 1)
as_int (bool false) = some (pos 0)
as_int (int z) = some z
as_int _ = none

-- `==` on two scalars
abbrev pub scalar_eq : Value → Value → Bool
scalar_eq null null = true
scalar_eq (str s) (str t) = s == t
scalar_eq (bool a) w = elim (as_int w) [
  | none ↦ false
  | some z ↦ int_eq (if a then pos 1 else pos 0) z
]
scalar_eq (int y) w = elim (as_int w) [ none ↦ false | some z ↦ int_eq y z ]
scalar_eq _ _ = false
