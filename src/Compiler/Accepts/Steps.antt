-- ===== src/Compiler/Accepts/Steps.antt =====
-- foresee/compiler.py: what the small steps of `Checker` have checked when they report nothing.
use project_f.Base.{
  ℕ, String, Bool, true, false, not, ◌&&◌, ◌||◌, Option, none, some, List, [], ◌∷◌, ◌++◌, ◌≡◌, ◌≢◌,
  refl, inl, inr, Option-cases, Bool-cases,
}
use project_f.Compiler.Signatures.{kind_eq, Want}
use project_f.Model.{Span, Binding, Kind, Expr, Annotation}
use project_f.Compiler.State.{
  Effect, Code, Check, pure, ◌>>◌, report, error_if, make, find_binding, member, same_origin,
  in_env,
}
use project_f.Compiler.Parts.{
  check_call, simulated_origin, base_origin, is_branch, forbidden, refuse_in_branch,
  check_annotation, method_origins, first_binding, get_env, set_env, get_base, set_base, check_var,
  consume, take_snapshot, enter_branch,
}
use project_f.Compiler.Accepts.{
  Accepts, Accepts_with, Accepts_forget, Accepts_by_state, Accepts_of_keeping, Accepts_weaken,
  report-Accepts, error_if-Accepts, >>=-Accepts, Within-append_left,
}

pub not-false : (b : Bool) → not b ≡ false → b ≡ true
not-false true h = refl
not-false false h = cc

pub or_false_left : (a b : Bool) → (a || b) ≡ false → a ≡ false
or_false_left false b h = refl
or_false_left true b h = cc

pub or_false : (a b : Bool) → (a || b) ≡ false → b ≡ false
or_false false b h = h
or_false true b h = cc

pub refuse_in_branch-Accepts :
    (branch : Option String) (e : Expr) (x : Code × Span)
    → forbidden e ≡ some x
    → Accepts (refuse_in_branch branch e) [] (is_branch branch ≡ false)
unfolding refuse_in_branch
refuse_in_branch-Accepts none e x h =
    Accepts_with (Accepts_of_keeping _ (λ s. refl) (λ s. refl)) (λ _. refl)
refuse_in_branch-Accepts (some r) e x h = rw (h, refuse_in_branch) (report-Accepts x.0 x.1 [] _)

pub pure-Accepts {ℓ} : {A : Type ℓ} (a : A) → Accepts (pure a) [] (Unit {0})
pure-Accepts a = Accepts_of_keeping _ (λ s. refl) (λ s. refl)

pub make-Accepts :
    (kind : Kind) (resource : Option String) (metric_names : List String) (lineage : Option ℕ)
    → Accepts (make kind resource metric_names lineage) [] (Unit {0})
unfolding make
make-Accepts k r m l = Accepts_of_keeping _ (λ s. refl) (λ s. refl)

pub get_env-Accepts : Accepts get_env [] (Unit {0})
get_env-Accepts = Accepts_of_keeping _ (λ s. refl) (λ s. refl)

pub set_env-Accepts : (env : List (String × Binding)) → Accepts (set_env env) [] (Unit {0})
set_env-Accepts env = Accepts_of_keeping _ (λ s. refl) (λ s. refl)

pub get_base-Accepts : Accepts get_base [] (Unit {0})
get_base-Accepts = Accepts_of_keeping _ (λ s. refl) (λ s. refl)

pub set_base-Accepts : (base : Option Binding) → Accepts (set_base base) [] (Unit {0})
set_base-Accepts base = Accepts_of_keeping _ (λ s. refl) (λ s. refl)

pub take_snapshot-Accepts : (resource : String) → Accepts (take_snapshot resource) [] (Unit {0})
unfolding take_snapshot make
take_snapshot-Accepts r = Accepts_of_keeping _ (λ s. refl) (λ s. refl)

pub consume-Accepts : (b : Binding) → Accepts (consume b) [] (Unit {0})
unfolding consume
consume-Accepts b = Accepts_by_state λ s. elim (Bool-cases (kind_eq b.kind Kind.selected)) [
  | inl y ↦ (
    (λ s'. (tt, record s' { consumed_selections = s'.consumed_selections ++ b.identity ∷ [] })),
    rw y refl,
    Accepts_of_keeping _ (λ s'. refl) (λ s'. refl),
  )
  | inr n ↦ (pure tt, rw n refl, Accepts_of_keeping _ (λ s'. refl) (λ s'. refl))
]

pub check_var-Accepts : (name : String) (at : Span) → Accepts (check_var name at) [] (Unit {0})
unfolding check_var
check_var-Accepts name at = Accepts_by_state λ s. elim (Option-cases (find_binding name s.env)) [
  | inl n ↦ (
    report Code.f3004 at >> make Kind.error none [] none,
    rw (n, check_var) refl,
    Accepts_forget (>>=-Accepts (report-Accepts _ _ [] (Unit {0})) (λ _. make-Accepts _ _ _ _)),
  )
  | inr (b, y) ↦ (
    error_if (kind_eq b.kind Kind.selected && member b.identity s.consumed_selections) Code.f3400 at
        >> pure b,
    rw (y, check_var) refl,
    Accepts_forget (>>=-Accepts (error_if-Accepts _ _ _) (λ _. pure-Accepts b)),
  )
]

pub same_origin-Accepts : (a b : Binding) (at : Span) → Accepts (same_origin a b at) [] (Unit {0})
unfolding same_origin
same_origin-Accepts a b at = Accepts_forget (error_if-Accepts _ _ _)

base_origin-Accepts : (b : Binding) (at : Span) → Accepts (base_origin b at) [] (Unit {0})
base_origin-Accepts b at = Accepts_by_state λ s. elim (Option-cases s.branch_base) [
  | inl n ↦ (pure tt, rw n refl, pure-Accepts tt)
  | inr (base, y) ↦ (same_origin b base at, rw y refl, same_origin-Accepts b base at)
]

pub method_origins-Accepts :
    (target : String) (first : Option Binding) (bs : List Binding) (at : Span)
    → Accepts (method_origins target first bs at) [] (Unit {0})
method_origins-Accepts target first [] at = Accepts_of_keeping _ (λ s. refl) (λ s. refl)
method_origins-Accepts target first (b ∷ bs) at = Accepts_forget (
    >>=-Accepts (error_if-Accepts _ _ _) λ _.
      >>=-Accepts (same_origin-Accepts _ _ _)
        λ _. >>=-Accepts (base_origin-Accepts b at) λ _. method_origins-Accepts _ _ bs at)

pub check_annotation-Accepts :
    (a : Option Annotation) (b : Binding) (at : Span)
    → Accepts (check_annotation a b at) [] (Unit {0})
check_annotation-Accepts none b at = Accepts_of_keeping _ (λ s. refl) (λ s. refl)
check_annotation-Accepts (some a) b at = Accepts_forget (error_if-Accepts _ _ _)

pub enter_branch-Accepts :
    (item resource : String) (base : Binding) (reserved : Bool) (at : Span)
    → Accepts (enter_branch item resource base reserved at) [] (reserved ≡ false)
unfolding enter_branch
enter_branch-Accepts item resource base reserved at =
    Accepts_with
      (>>=-Accepts get_env-Accepts λ env.
        Accepts_with
          (>>=-Accepts (error_if-Accepts _ _ _) λ _.
            >>=-Accepts (make-Accepts _ _ _ _)
              λ plan. >>=-Accepts (set_env-Accepts _) λ _. set_base-Accepts _)
          (λ x. or_false (in_env item env) reserved x.0))
      (λ x. x.1)

pub first_binding-Accepts : (bs : List Binding) → Accepts (first_binding bs) [] (Unit {0})
first_binding-Accepts [] = make-Accepts _ _ _ _
first_binding-Accepts (b ∷ bs) = pure-Accepts b

pub simulated_origin-Accepts :
    (bs : List Binding) (base : Option Binding) (at : Span)
    → Accepts (simulated_origin bs base at) [] (Unit {0})
simulated_origin-Accepts (b ∷ bs) (some base) at = same_origin-Accepts b base at
simulated_origin-Accepts [] base at = pure-Accepts tt
simulated_origin-Accepts (b ∷ bs) none at = pure-Accepts tt

unknown_method-Accepts :
    (at : Span) (n : List Effect) (F : Type 0)
    → Accepts (report Code.f3210 at >> make Kind.error none [] none) n F
unknown_method-Accepts at n F =
    Accepts_weaken (>>=-Accepts (report-Accepts _ _ n F) λ _. make-Accepts _ _ _ _)
      (Within-append_left n _) (λ x. x.0)

pub check_call-Accepts :
    (signature : Option (List Want × Kind)) (known : Bool) {args : Check (List Binding)}
    → (target : String) (at : Span) {n : List Effect} {F : Type 0} → Accepts args n F
    → Accepts
        (check_call signature known args target at)
        n
        ((signature ≢ none) × (known ≡ true) × F)
unfolding check_call
check_call-Accepts (some (wants, result)) true target at {n} p =
    Accepts_weaken
      (>>=-Accepts p λ gots.
        >>=-Accepts (Accepts_forget (error_if-Accepts _ _ _))
          λ _. >>=-Accepts (method_origins-Accepts target none gots at) λ _. make-Accepts _ _ _ _)
      (Within-append_left n _) (λ (inner, _). ((λ h. cc), refl, inner))
check_call-Accepts (some (wants, result)) false target at {n} p = unknown_method-Accepts at n _
check_call-Accepts none true target at {n} p = unknown_method-Accepts at n _
check_call-Accepts none false target at {n} p = unknown_method-Accepts at n _
