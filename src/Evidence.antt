-- ===== src/Evidence.antt =====
-- foresee/evidence_format.py: the JSON documents of the evidence, and the limit of their nesting.
-- A byte is a number. What json.loads reads is a document with all its pairs, floats and constants.
pub mod Format
pub mod Trust
pub mod Signed
pub mod Authentic
pub mod Envelope
pub mod Workflow
mod Tests
mod RoundTests
use project_f.Base.{
  ℕ, zero, suc, map, ◌+◌, ◌-◌, leb, ltb, nat_eq, String, Bool, true, false, not, ◌&&◌, ◌||◌, Option,
  none, some, List, [], ◌∷◌, ◌==◌, length, if◌then◌else◌,
}
use project_f.Base.Int.{ℤ, pos, negsuc}
use project_f.Base.Result.{Result, ok, err, value_error, guard, or_raise, ◌>>=◌, ◌>>◌}

abbrev pub Bytes : Type 0
Bytes = List ℕ

mutual
  pub data Doc : Type 0 where
    text : String → Doc
    whole : ℤ → Doc
    float : String → Doc
    constant : Doc
    truth : Bool → Doc
    null : Doc
    list : Docs → Doc
    dict : Entries → Doc

  pub data Docs : Type 0 where
    empty : Docs
    item : Doc → Docs → Docs

  pub data Entries : Type 0 where
    no_entry : Entries
    entry : String → Doc → Entries → Entries

-- value.get(name)
abbrev pub find : String → Entries → Option Doc
find name no_entry = none
find name (entry k d es) = if k == name then some d else find name es

abbrev pub has_entry : String → Entries → Bool
has_entry name no_entry = false
has_entry name (entry k d es) = k == name || has_entry name es

abbrev pub entry_count : Entries → ℕ
entry_count no_entry = 0
entry_count (entry k d es) = suc (entry_count es)

abbrev pub doc_count : Docs → ℕ
doc_count empty = 0
doc_count (item d ds) = suc (doc_count ds)

-- set(value) == {...}, on a dict and names that differ
abbrev all_present : List String → Entries → Bool
all_present [] es = true
all_present (name ∷ names) es = has_entry name es && all_present names es

abbrev pub has_fields : List String → Entries → Bool
has_fields names es = nat_eq (entry_count es) (length names) && all_present names es

-- value.pop(name, None), of what remains
abbrev pub without : String → Entries → Entries
without name no_entry = no_entry
without name (entry k d es) = if k == name then es else entry k d (without name es)

-- What is not under src.
pub record Codec : Type 0 where
  pub read : Bytes → Option Doc
  pub write : Doc → Bytes
  pub finite : String → Bool
  pub encode_base64 : Bytes → String
  pub decode_base64 : String → Option Bytes
  pub sha256 : Bytes → String
  pub utf8 : String → Bytes
  pub decimal : ℕ → Bytes
  pub fullmatch : String → String → Bool
  pub stable_digest : Entries → String
  pub verify : Bytes → Bytes → Bytes → Bool

abbrev pub max_depth : ℕ
max_depth = 64

-- depth + 1 and depth - 1
abbrev pub deeper : ℤ → ℤ
deeper (pos n) = pos (suc n)
deeper (negsuc zero) = pos 0
deeper (negsuc (suc n)) = negsuc n

abbrev pub shallower : ℤ → ℤ
shallower (pos zero) = negsuc 0
shallower (pos (suc n)) = pos n
shallower (negsuc n) = negsuc (suc n)

abbrev pub too_deep : ℤ → Bool
too_deep (pos n) = ltb max_depth n
too_deep (negsuc n) = false

-- What a byte is to the scan: ", \, [ or {, ] or }, or another.
pub data Mark : Type 0 where
  quote backslash opening closing other : Mark

abbrev pub mark_of : ℕ → Mark
mark_of b =
    if nat_eq b 34
    then quote
    else if nat_eq b 92
    then backslash
    else if nat_eq b 91 || nat_eq b 123
    then opening
    else if nat_eq b 93 || nat_eq b 125
    then closing
    else other

-- The loop of `_json` over the bytes: no opening goes deeper than `max_depth`.
unfoldable pub scan : List Mark → (depth : ℤ) → (quoted escaped : Bool) → Bool
scan [] depth quoted escaped = true
scan (mark ∷ marks) depth true true = scan marks depth true false
scan (backslash ∷ marks) depth true false = scan marks depth true true
scan (quote ∷ marks) depth true false = scan marks depth false false
scan (opening ∷ marks) depth true false = scan marks depth true false
scan (closing ∷ marks) depth true false = scan marks depth true false
scan (other ∷ marks) depth true false = scan marks depth true false
scan (quote ∷ marks) depth false escaped = scan marks depth true escaped
scan (opening ∷ marks) depth false escaped =
    let deep = scan marks (deeper depth) false escaped in
    if too_deep (deeper depth) then false else deep
scan (closing ∷ marks) depth false escaped = scan marks (shallower depth) false escaped
scan (backslash ∷ marks) depth false escaped = scan marks depth false escaped
scan (other ∷ marks) depth false escaped = scan marks depth false escaped

module _ (codec : Codec) where
  -- `_pairs`, `_constant` and `_float` accept all that was read.
  unfoldable mutual
    pub accepts : Doc → Bool
    accepts (float s) = codec.finite s
    accepts constant = false
    accepts (list ds) = accepts_all ds
    accepts (dict es) = accepts_entries es
    accepts (text s) = true
    accepts (whole z) = true
    accepts (truth b) = true
    accepts null = true

    pub accepts_all : Docs → Bool
    accepts_all empty = true
    accepts_all (item d ds) = accepts d && accepts_all ds

    pub accepts_entries : Entries → Bool
    accepts_entries no_entry = true
    accepts_entries (entry k d es) = not (has_entry k es) && accepts d && accepts_entries es

  -- `_json`
  unfoldable pub read_json : ℕ → Bytes → Result Doc
  read_json maximum raw = do
    guard (leb (length raw) maximum) (value_error "invalid input type or byte limit exceeded")
    guard (scan (map mark_of raw) (pos 0) false false) (value_error "JSON nesting limit exceeded")
    d ← or_raise (codec.read raw) (value_error "invalid JSON encoding or depth")
    guard (accepts d) (value_error "duplicate JSON key or non-finite JSON number")
    ok d
