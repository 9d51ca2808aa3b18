-- ===== src/Compiler/State.antt =====
-- foresee/compiler.py: the state of `Checker`, and its small operations. A diagnostic keeps its
-- code and its span.
use text.Mathlib.Text.{starts_with}
use project_f.Base.{
  ℕ, ◌+◌, String, Bool, true, false, not, ◌&&◌, ◌||◌, Option, none, some, List, [], ◌∷◌, ◌++◌, ◌==◌,
  nat_eq, contains, if◌then◌else◌,
}
use project_f.Model.{Span, Binding, Kind}

pub data Code : Type 0 where
  f3000 f3001 f3002 f3003 f3004 f3005 f3006 : Code
  f3100 f3101 f3102 f3103 f3104 f3105 f3106 f3107 : Code
  f3200 f3201 f3202 f3203 f3204 f3205 f3206 f3207 f3208 f3209 f3210 : Code
  f3300 f3301 f3400 f3401 : Code

pub record Diagnostic : Type 0 where
  pub code : Code
  pub span : Span

abbrev pub Effect : Type 0
Effect = String × String

-- `env` is the dict of the block that is being checked, and `used` the set that the checks of one
-- decision share. `allocated` counts the bindings made so far.
pub record State : Type 0 where
  pub diagnostics : List Diagnostic
  pub env : List (String × Binding)
  pub used : List Effect
  pub snapshot_count : ℕ
  pub branch_base : Option Binding
  pub consumed_selections : List ℕ
  pub allocated : ℕ

abbrev pub Check {ℓ} : Type ℓ → Type ℓ
Check A = State → A × State

abbrev pub pure {ℓ} : {A : Type ℓ} → A → Check A
pure a s = (a, s)

infixl 5 ◌>>=◌ ◌>>◌
unfoldable pub ◌>>=◌ {ℓ κ} : {A : Type ℓ} {B : Type κ} → Check A → (A → Check B) → Check B
◌>>=◌ m f s = let (a, s') = m s in f a s'

abbrev pub ◌>>◌ {ℓ} : {B : Type ℓ} → Check (Unit {0}) → Check B → Check B
m >> k = m >>= λ _. k

-- `Checker.error`
unfoldable pub report : Code → Span → Check (Unit {0})
report code span s =
    (tt, record s { diagnostics = s.diagnostics ++ record { code = code; span = span } ∷ [] })

-- if condition: self.error(code, ..., span)
unfoldable pub error_if : Bool → Code → Span → Check (Unit {0})
unfolding report
error_if condition code span = if condition then report code span else pure tt

-- Binding(kind, resource, metric_names, lineage), a new object
unfoldable pub make : Kind → Option String → List String → Option ℕ → Check Binding
make kind resource metric_names lineage s = (
  record {
    kind = kind;
    resource = resource;
    metric_names = metric_names;
    lineage = lineage;
    identity = s.allocated;
  },
  record s { allocated = s.allocated + 1 },
)

-- used.add(effect)
unfoldable pub use_effect : String → String → Check (Unit {0})
use_effect kind target s = (tt, record s { used = s.used ++ (kind, target) ∷ [] })

unfoldable pub find_binding : String → List (String × Binding) → Option Binding
find_binding name [] = none
find_binding name ((k, b) ∷ env) = if k == name then some b else find_binding name env

-- env[name] = binding
unfoldable pub bind_name : String → Binding → List (String × Binding) → List (String × Binding)
bind_name name b [] = (name, b) ∷ []
bind_name name b ((k, old) ∷ env) =
    if k == name then (k, b) ∷ env else (k, old) ∷ bind_name name b env

abbrev pub in_env : String → List (String × Binding) → Bool
in_env name env = elim (find_binding name env) [ none ↦ false | some _ ↦ true ]

abbrev pub member : ℕ → List ℕ → Bool
member n [] = false
member n (k ∷ ks) = nat_eq k n || member n ks

abbrev pub text_eq? : Option String → Option String → Bool
text_eq? none none = true
text_eq? (some a) (some b) = a == b
text_eq? _ _ = false

abbrev pub nat_eq? : Option ℕ → Option ℕ → Bool
nat_eq? none none = true
nat_eq? (some a) (some b) = nat_eq a b
nat_eq? _ _ = false

abbrev pub same_origin? : Binding → Binding → Bool
same_origin? a b = text_eq? a.resource b.resource && nat_eq? a.lineage b.lineage

-- `Checker.same_origin`
unfoldable pub same_origin : Binding → Binding → Span → Check (Unit {0})
unfolding error_if
same_origin left right span = error_if (not (same_origin? left right)) Code.f3301 span

-- name.startswith("__") or name in self.resources | self.models
abbrev pub is_reserved : List String → List String → String → Bool
is_reserved resources models name =
    starts_with name "__" || contains resources name || contains models name
