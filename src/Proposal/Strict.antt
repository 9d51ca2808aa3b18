-- ===== src/Proposal/Strict.antt =====
-- foresee/model_provider.py: `strict_object` and `reject_constant`, which json.loads calls on what
-- it reads. A number that is no integer is refused where it is read: no accepted answer has one.
use project_f.Base.{String, Bool, Option, none, some, if◌then◌else◌}
use project_f.Base.Int.{ℤ}
use project_f.Base.Result.{Result, ok, err, value_error, ◌>>=◌}
use project_f.Json.{
  Value, str, int, bool, null, arr, obj, Items, nil, cons, Fields, end, field, has,
}

-- What json.loads reads, before its hooks.
mutual
  pub data Raw : Type 0 where
    raw_str : String → Raw
    raw_int : ℤ → Raw
    raw_float raw_constant : Raw
    raw_bool : Bool → Raw
    raw_null : Raw
    raw_arr : RawItems → Raw
    raw_obj : RawPairs → Raw

  pub data RawItems : Type 0 where
    raw_nil : RawItems
    raw_cons : Raw → RawItems → RawItems

  pub data RawPairs : Type 0 where
    raw_end : RawPairs
    raw_pair : String → Raw → RawPairs → RawPairs

-- The loop of `strict_object`, on the pairs in reverse: a key that is there again raises.
abbrev pub strict_object : String → Value → Fields → Result Fields
strict_object k v d = if has k d then err (value_error "duplicate JSON key") else ok (field k v d)

-- json.loads(..., object_pairs_hook=strict_object, parse_constant=reject_constant)
unfoldable mutual
  pub build : Raw → Result Value
  build (raw_str s) = ok (str s)
  build (raw_int z) = ok (int z)
  build raw_float = err (value_error "not an integer")
  build raw_constant = err (value_error "non-finite JSON number")
  build (raw_bool b) = ok (bool b)
  build raw_null = ok null
  build (raw_arr vs) = do items ← build_items vs; ok (arr items)
  build (raw_obj ps) = do d ← build_pairs ps; ok (obj d)

  pub build_items : RawItems → Result Items
  build_items raw_nil = ok nil
  build_items (raw_cons r rs) = do v ← build r; vs ← build_items rs; ok (cons v vs)

  pub build_pairs : RawPairs → Result Fields
  build_pairs raw_end = ok end
  build_pairs (raw_pair k r ps) = do v ← build r; d ← build_pairs ps; strict_object k v d

-- What cannot be read raises.
abbrev pub built : Option Raw → Result Value
built none = err (value_error "not JSON")
built (some raw) = build raw
