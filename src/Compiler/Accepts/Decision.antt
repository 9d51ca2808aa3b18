-- ===== src/Compiler/Accepts/Decision.antt =====
-- foresee/compiler.py: what `Checker.check` has checked of a program that it reports nothing of.
use project_f.Base.{
  String, Bool, true, false, not, none, List, [], ◌∷◌, ◌≡◌, refl, sym, inl, inr, Bool-cases,
  ==_true, ◌==◌,
}
use project_f.Model.{Span, DecisionDecl}
use project_f.Compiler.State.{Effect, Code, State, Check, ◌>>=◌, ◌>>◌, report, error_if}
use project_f.Compiler.Checker.{check_block}
use project_f.Compiler.Program.{
  has_effect, effect_eq, distinct, missing_effects, each, get_used, set_used, unknown_targets,
  valid_effect, ends_with_return, check_decision,
}
use project_f.Compiler.Allowed.{AllowedBlock, effects_of_block}
use project_f.Compiler.Accepts.{
  Accepts, report-Accepts, error_if-Accepts, >>=-Accepts, Accepts_with, Accepts_forget, Within,
}
use project_f.Compiler.Accepts.Steps.{pure-Accepts, set_env-Accepts, not-false}
use project_f.Compiler.Accepts.Bodies.{check_block-Accepts}

-- The effects that may be forgotten: a decision starts with none.
pub record Clears {ℓ} {A : Type ℓ} (m : Check A) (Fact : Type 0) : Type 0 where
  pub clean : (s : State) → (m s).1.diagnostics ≡ [] → s.diagnostics ≡ []
  pub fact : (s : State) → (m s).1.diagnostics ≡ [] → Fact

pub Clears_of_Accepts {ℓ} :
    {A : Type ℓ} {m : Check A} {n : List Effect} {F : Type 0} → Accepts m n F → Clears m F
Clears_of_Accepts p = record { clean = p.clean; fact = p.fact }

pub >>=-Clears {ℓ κ} :
    {A : Type ℓ} {B : Type κ} {m : Check A} {f : A → Check B} {F F' : Type 0}
    → Clears m F
    → ((a : A) → Clears (f a) F')
    → Clears (m >>= f) (F × F')
unfolding ◌>>=◌
>>=-Clears {m} {f} p q = record {
  clean = λ s h. p.clean s ((q (m s).0).clean (m s).1 h);
  fact = λ s h. (p.fact s ((q (m s).0).clean (m s).1 h), (q (m s).0).fact (m s).1 h);
}

pub Clears_with {ℓ} :
    {A : Type ℓ} {m : Check A} {F F' : Type 0} → Clears m F → (F → F') → Clears m F'
Clears_with p f = record { clean = p.clean; fact = λ s h. f (p.fact s h) }

distinct_empty : (es : List Effect) → distinct es ≡ [] → es ≡ []
distinct_empty [] h = refl
distinct_empty (e ∷ es) h = elim (Bool-cases (has_effect es e)) [
  | inl y ↦
      let none_left : es ≡ [] = distinct_empty es (rw y at h) in
      let here : has_effect [] e ≡ true = rw none_left at y in cc
  | inr n ↦ let h' : (e ∷ distinct es) ≡ [] = rw n at h in cc
]

effect_eq-true : (d e : Effect) → effect_eq d e ≡ true → d ≡ e
effect_eq-true (k, t) (k', t') h = elim (Bool-cases (k == k')) [
  | inl y ↦
      let z : (t == t') ≡ true = rw y at h in
      let a : k ≡ k' = ==_true k k' y in let b : t ≡ t' = ==_true t t' z in rw (a, b) refl
  | inr n ↦ let z : false ≡ true = rw n at h in cc
]

missing_effects_empty :
    (used declared : List Effect) → missing_effects used declared ≡ [] → Within used declared
missing_effects_empty [] declared h e x = cc
missing_effects_empty (u ∷ used) declared h e x = elim (Bool-cases (has_effect declared u)) [
  | inl y ↦ elim (Bool-cases (effect_eq u e)) [
    | inl z ↦ rw (sym (effect_eq-true u e z)) y
    | inr n ↦ missing_effects_empty used declared (rw y at h) e (rw n at x)
  ]
  | inr n ↦ let h' : (u ∷ missing_effects used declared) ≡ [] = rw n at h in cc
]

each-report-Accepts :
    {A : Type 0} (code : Code) (at : Span) (xs : List A)
    → Accepts (each (λ x. report code at) xs) [] (xs ≡ [])
each-report-Accepts code at [] = Accepts_with (pure-Accepts tt) (λ _. refl)
each-report-Accepts code at (x ∷ xs) =
    Accepts_with (>>=-Accepts (report-Accepts code at [] ⊥) λ _. each-report-Accepts code at xs)
      (λ x. absurd x.0)

pub each_error_if-Accepts {ℓ} :
    {A : Type ℓ} (b : A → Bool) (code : Code) (at : A → Span) (xs : List A)
    → Accepts (each (λ x. error_if (b x) code (at x)) xs) [] (Unit {0})
each_error_if-Accepts b code at [] = pure-Accepts tt
each_error_if-Accepts b code at (x ∷ xs) =
    Accepts_forget (>>=-Accepts (error_if-Accepts _ _ _) λ _. each_error_if-Accepts b code at xs)

-- What a decision without diagnostics is.
pub record Checked (resources models : List String) (d : DecisionDecl) : Type 0 where
  pub allowed : AllowedBlock resources models false d.body
  pub declared : Within (effects_of_block d.body) d.effects
  pub ends : ends_with_return d.body ≡ true

-- The checks of a decision after its body, on the effects that the body used.
finish_decision : List String → List String → DecisionDecl → Check (Unit {0})
finish_decision resources models d = do
  used ← get_used
  each (λ e. report Code.f3001 d.span) (distinct (missing_effects used d.effects))
  each (λ t. report Code.f3002 d.span) (unknown_targets resources models (distinct d.effects))

finish_decision-used :
    (resources models : List String) (d : DecisionDecl) (s : State)
    → (finish_decision resources models d s).1.diagnostics ≡ []
    → (s.diagnostics ≡ []) × Within s.used d.effects
unfolding finish_decision ◌>>=◌
finish_decision-used resources models d s h =
    let missing =
      each-report-Accepts Code.f3001 d.span (distinct (missing_effects s.used d.effects)) in
    let unknown =
      each-report-Accepts Code.f3002 d.span
        (unknown_targets resources models (distinct d.effects)) in
    let h' = unknown.clean _ h in
    (
      missing.clean s h',
      missing_effects_empty s.used d.effects (distinct_empty _ (missing.fact s h')),
    )

check_body-Clears :
    (resources models : List String) (d : DecisionDecl)
    → Clears
        (check_block resources models d.body none >> finish_decision resources models d)
        (AllowedBlock resources models false d.body × Within (effects_of_block d.body) d.effects)
unfolding ◌>>=◌
check_body-Clears resources models d =
    let p = check_block-Accepts resources models d.body none in
    let q = λ (s : State).
      finish_decision-used resources models d (check_block resources models d.body none s).1 in
    record {
      clean = λ s h. p.clean s (q s h).0;
      fact = λ s h. (p.fact s (q s h).0, λ e x. (q s h).1 e (p.uses s (q s h).0 e x));
    }

pub check_decision-Clears :
    (resources models : List String) (d : DecisionDecl)
    → Clears (check_decision resources models d) (Checked resources models d)
unfolding check_decision finish_decision
check_decision-Clears resources models d =
    Clears_with
      (>>=-Clears
        (Clears_of_Accepts (
          each_error_if-Accepts (λ e. not (valid_effect resources models e)) Code.f3202
            (λ e. d.span) (distinct d.effects)))
        λ _. >>=-Clears (Clears_of_Accepts (error_if-Accepts _ _ _)) λ _.
          >>=-Clears (Clears_of_Accepts (set_env-Accepts []))
            λ _. >>=-Clears forget_used λ _. check_body-Clears resources models d)
      (λ (_, (ends, (_, (_, (allowed, declared))))). record {
        allowed = allowed;
        declared = declared;
        ends = not-false _ ends;
      })
  where
    forget_used : Clears (set_used []) (Unit {0})
    forget_used = record { clean = λ s h. h; fact = λ s h. tt }
