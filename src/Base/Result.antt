-- ===== src/Base/Result.antt =====
-- The outcome of code that may raise. An error keeps the exception's class and the fixed part of
-- its message.
use Prim.Native.String.{String}
use mathlib.Core.Path.{◌≡◌, refl, subst}
use mathlib.Core.Logic.{◌⊎◌, inl, inr}
use mathlib.Core.Bool.{Bool, true, false}
use mathlib.Core.Option.{Option, none, some}

pub data Error : Type 0 where
  value_error runtime_error key_error type_error index_error attribute_error sqlite_error :
      String → Error
  -- raised by a fault hook
  injected : String → Error

pub data Result {ℓ} (A : Type ℓ) : Type ℓ where
  err : Error → Result A
  ok : A → Result A

-- A value that may be missing: `none` raises.
abbrev pub or_raise {ℓ} : {A : Type ℓ} → Option A → Error → Result A
or_raise (some value) e = ok value
or_raise none e = err e

-- `if not allowed: raise e`
abbrev pub guard : (allowed : Bool) → Error → Result (Unit {0})
guard false e = err e
guard true e = ok tt

-- What raises ends the block.
infixl 5 ◌>>=◌
abbrev pub ◌>>=◌ {κ ℓ} : {X : Type κ} {Y : Type ℓ} → Result X → (X → Result Y) → Result Y
err e >>= next = err e
ok value >>= next = next value

infixl 5 ◌>>◌
abbrev pub ◌>>◌ {ℓ} : {Y : Type ℓ} → Result (Unit {0}) → Result Y → Result Y
first >> second = first >>= λ done. second

pub Result-cases {ℓ} :
    {A : Type ℓ} (m : Result A) → ((a : A) × (m ≡ ok a)) ⊎ ((e : Error) × (m ≡ err e))
Result-cases (err e) = inr (e, refl)
Result-cases (ok a) = inl (a, refl)

pub >>=-eq-ok {κ ℓ} :
    {X : Type κ} {Y : Type ℓ} (first : Result X) (next : X → Result Y) {y : Y}
    → (first >>= next) ≡ ok y
    → (x : X) × (first ≡ ok x) × (next x ≡ ok y)
>>=-eq-ok (err e) next h = cc
>>=-eq-ok (ok value) next h = (value, refl, h)

pub or_raise-some {ℓ} :
    {A : Type ℓ} (o : Option A) (e : Error) {a : A} → or_raise o e ≡ ok a → o ≡ some a
or_raise-some none e h = cc
or_raise-some (some a) e h = cc

-- What follows a guard is reached only if it holds.
pub guard->>-eq-ok {ℓ} :
    {Y : Type ℓ} (allowed : Bool) (e : Error) (second : Result Y) {y : Y}
    → (guard allowed e >> second) ≡ ok y
    → (allowed ≡ true) × (second ≡ ok y)
guard->>-eq-ok true e second h = (refl, h)
guard->>-eq-ok false e second h = cc

-- What is returned, if anything is, satisfies this.
abbrev pub Post {ℓ} : {A : Type ℓ} → (A → Type ℓ) → Result A → Type ℓ
Post good (err e) = Unit
Post good (ok a) = good a

pub Post->>= {κ ℓ} :
    {X : Type κ} {Y : Type ℓ} (good : Y → Type ℓ) (first : Result X) (next : X → Result Y)
    → ((x : X) → first ≡ ok x → Post good (next x))
    → Post good (first >>= next)
Post->>= good (err e) next h = tt
Post->>= good (ok x) next h = h x refl

pub Post-guard {ℓ} :
    {Y : Type ℓ} (good : Y → Type ℓ) (allowed : Bool) (e : Error) (second : Result Y)
    → (allowed ≡ true → Post good second)
    → Post good (guard allowed e >> second)
Post-guard good true e second h = h refl
Post-guard good false e second h = tt

pub ok_injective {ℓ} : {A : Type ℓ} {x y : A} → ◌≡◌ {A = Result A} (ok x) (ok y) → x ≡ y
ok_injective e = cc

pub Post-ok {ℓ} :
    {A : Type ℓ} (good : A → Type ℓ) (r : Result A) {a : A} → Post good r → r ≡ ok a → good a
Post-ok good (err e) h same = cc
Post-ok good (ok x) h same = subst good (ok_injective same) h

pub Post-weaken {ℓ} :
    {A : Type ℓ} (good better : A → Type ℓ) (r : Result A)
    → ((a : A) → good a → better a)
    → Post good r
    → Post better r
Post-weaken good better (err e) k h = tt
Post-weaken good better (ok a) k h = k a h
