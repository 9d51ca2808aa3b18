-- ===== src/Compiler/Accepts/Whole.antt =====
-- foresee/compiler.py: what `compile_program` accepts.
use project_f.Base.{
  ℕ, ◌+◌, String, Bool, true, false, not, ◌&&◌, ◌==◌, List, [], ◌∷◌, ◌≡◌, refl, inl, inr, nat_eq,
  length, arith, Bool-cases,
}
use project_f.Model.{Block, done, stmt, DecisionDecl, Program}
use project_f.Compiler.Signatures.{resource_type, model_type}
use project_f.Compiler.State.{Effect}
use project_f.Compiler.Program.{
  has_effect, each, resource_names, model_names, ends_with_return, check_decision, check_program,
  is_return, returns, statements, one_of_each, new_checker, compile_program,
}
use project_f.Compiler.Allowed.{AllowedBlock, effects_of_block}
use project_f.Compiler.Accepts.{error_if-Accepts}
use project_f.Compiler.Accepts.Steps.{not-false, pure-Accepts}
use project_f.Compiler.Accepts.Decision.{
  Clears, Clears_of_Accepts, Clears_with, >>=-Clears, each_error_if-Accepts, Checked,
  check_decision-Clears,
}

-- The decision of a program without diagnostics.
Accepted : Program → Type 0
Accepted p =
    (d : DecisionDecl) × (p.decisions ≡ d ∷ []) × Checked (resource_names p) (model_names p) d

and_left : (a b : Bool) → (a && b) ≡ true → a ≡ true
and_left true b h = refl
and_left false b h = cc

single : (ds : List DecisionDecl) → nat_eq (length ds) 1 ≡ true → (d : DecisionDecl) × (ds ≡ d ∷ [])
single [] h = cc
single (d ∷ []) h = (d, refl)
single (d ∷ d' ∷ ds) h = ground arith

AllChecked : List String → List String → List DecisionDecl → Type 0
AllChecked resources models [] = Unit
AllChecked resources models (d ∷ ds) = Checked resources models d × AllChecked resources models ds

each_decision-Clears :
    (resources models : List String) (ds : List DecisionDecl)
    → Clears (each (check_decision resources models) ds) (AllChecked resources models ds)
unfolding AllChecked
each_decision-Clears resources models [] = Clears_of_Accepts (pure-Accepts tt)
each_decision-Clears resources models (d ∷ ds) =
    >>=-Clears (check_decision-Clears resources models d)
      λ _. each_decision-Clears resources models ds

check_program-Clears :
    (p : Program)
    → Clears
        (check_program p)
        ((one_of_each p ≡ true) × AllChecked (resource_names p) (model_names p) p.decisions)
unfolding check_program
check_program-Clears p =
    Clears_with
      (>>=-Clears (Clears_of_Accepts (error_if-Accepts _ _ _)) λ _.
        >>=-Clears
          (Clears_of_Accepts (
            each_error_if-Accepts (λ d. not (d.type_name == resource_type)) _ (λ d. d.span)
              p.resources))
          λ _.
            >>=-Clears
              (Clears_of_Accepts (
                each_error_if-Accepts (λ d. not (d.type_name == model_type)) _ (λ d. d.span)
                  p.models))
              λ _.
                >>=-Clears (Clears_of_Accepts (error_if-Accepts _ _ _))
                  λ _. each_decision-Clears (resource_names p) (model_names p) p.decisions)
      (λ (one, (_, (_, (_, all)))). (not-false _ one, all))

compile_program-Accepted : (p : Program) → compile_program p ≡ [] → Accepted p
unfolding compile_program AllChecked Accepted
compile_program-Accepted p h =
    let (one, all) = (check_program-Clears p).fact new_checker h in
    let (d, e) = single p.decisions (and_left _ _ (and_left _ _ one)) in
    let (checked, _) : AllChecked (resource_names p) (model_names p) (d ∷ []) = rw e at all in
    (d, e, checked)

-- A program that the compiler accepts has one decision, and every operation of its body stands
-- where it may: a snapshot, a proposal, an exploration, a selection, a commit and the return stand
-- outside every exploration, and a simulation, a check and a measure inside one; an exploration has
-- one simulation; each snapshot, simulation and method names a declared resource, each proposal a
-- declared model and the plan type, with a third argument of three that is a literal from 1 to 4;
-- and no name that is bound is reserved.
pub compile_program-AllowedBlock :
    (p : Program)
    → compile_program p ≡ []
    → (d : DecisionDecl) × (p.decisions ≡ d ∷ [])
      × AllowedBlock (resource_names p) (model_names p) false d.body
unfolding Accepted
compile_program-AllowedBlock p h =
    let (d, one, checked) = compile_program-Accepted p h in (d, one, checked.allowed)

-- A program that the compiler accepts has one decision, and each snapshot, inference and commit in
-- its body, at any depth, is an effect that the decision declares.
pub compile_program-effects_of_block :
    (p : Program)
    → compile_program p ≡ []
    → (d : DecisionDecl) × (p.decisions ≡ d ∷ [])
      × ((e : Effect)
          → has_effect (effects_of_block d.body) e ≡ true
          → has_effect d.effects e ≡ true)
unfolding Accepted
compile_program-effects_of_block p h =
    let (d, one, checked) = compile_program-Accepted p h in (d, one, checked.declared)

-- A body that ends with a return has no other.
pub OnlyReturn : Block → Type 0
OnlyReturn done = ⊥
OnlyReturn (stmt s done) = is_return s ≡ true
OnlyReturn (stmt s (stmt s' rest)) = (is_return s ≡ false) × OnlyReturn (stmt s' rest)

returns_head : (k l : ℕ) (ks : List ℕ) → (k ∷ ks) ≡ (l ∷ []) → k ≡ l
returns_head k l ks h = cc

returns-OnlyReturn :
    (i k : ℕ) (b : Block) → returns i b ≡ k ∷ [] → k + 1 ≡ i + statements b → OnlyReturn b
unfolding OnlyReturn
returns-OnlyReturn i k done h l = cc
returns-OnlyReturn i k (stmt s done) h l = elim (Bool-cases (is_return s)) [
  | inl y ↦ y
  | inr n ↦ let h' : [] ≡ k ∷ [] = rw n at h in cc
]
returns-OnlyReturn i k (stmt s (stmt s' rest)) h l = elim (Bool-cases (is_return s)) [
  | inl y ↦
      let same : i ≡ k = returns_head i k (returns (i + 1) (stmt s' rest)) (rw y at h) in
      let no : ⊥ = omega (arith, same, l) in absurd no
  | inr n ↦ (n, returns-OnlyReturn (i + 1) k (stmt s' rest) (rw n at h) (omega (arith, l)))
]

ends_with_return-OnlyReturn : (b : Block) → ends_with_return b ≡ true → OnlyReturn b
ends_with_return-OnlyReturn b h = go (returns 0 b) refl
  where
    go : (ks : List ℕ) → returns 0 b ≡ ks → OnlyReturn b
    go [] e = let h' : false ≡ true = rw (e, ends_with_return) at h in cc
    go (k ∷ []) e =
        let h' : nat_eq (k + 1) (statements b) ≡ true = rw (e, ends_with_return) at h in
        returns-OnlyReturn 0 k b e (ground (arith, h'))
    go (k ∷ l ∷ ks) e = let h' : false ≡ true = rw (e, ends_with_return) at h in cc

-- A program that the compiler accepts has one decision, whose last statement is a return, and no
-- statement before it is one.
pub compile_program-OnlyReturn :
    (p : Program)
    → compile_program p ≡ []
    → (d : DecisionDecl) × (p.decisions ≡ d ∷ []) × OnlyReturn d.body
unfolding Accepted
compile_program-OnlyReturn p h =
    let (d, one, checked) = compile_program-Accepted p h in
    (d, one, ends_with_return-OnlyReturn d.body checked.ends)
