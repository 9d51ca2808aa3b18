-- ===== src/Compiler/Accepts.antt =====
-- foresee/compiler.py: what holds when a step of the checker ends with no diagnostic.
pub mod Steps
pub mod Bodies
pub mod Decision
pub mod Whole
use project_f.Base.{
  String, Bool, true, false, not, ◌&&◌, ◌||◌, List, [], ◌∷◌, ◌++◌, ◌==◌, ◌≡◌, refl, ◌⊎◌, inl, inr,
  ap, sym, ◌∙◌, arith, Bool-cases,
}
use project_f.Model.{Span}
use project_f.Compiler.State.{
  Effect, Diagnostic, Code, State, Check, pure, ◌>>=◌, ◌>>◌, report, error_if, use_effect,
}
use project_f.Compiler.Program.{has_effect, effect_eq}

-- Each effect of one set is in the other.
abbrev pub Within : List Effect → List Effect → Type 0
Within a b = (e : Effect) → has_effect a e ≡ true → has_effect b e ≡ true

pub Within-refl : (a : List Effect) → Within a a
Within-refl a e h = h

pub Within-trans : (a b c : List Effect) → Within a b → Within b c → Within a c
Within-trans a b c f g e h = g e (f e h)

has_effect-append_cases :
    (a b : List Effect) (e : Effect)
    → has_effect (a ++ b) e ≡ true
    → (has_effect a e ≡ true) ⊎ (has_effect b e ≡ true)
has_effect-append_cases [] b e h = inr h
has_effect-append_cases (d ∷ a) b e h = elim (Bool-cases (effect_eq d e)) [
  | inl y ↦ inl (rw y refl)
  | inr n ↦
      let h' : has_effect (a ++ b) e ≡ true = rw n at h in
      elim (has_effect-append_cases a b e h') [ inl x ↦ inl (rw n x) | inr x ↦ inr x ]
]

pub Within-append_left : (a b : List Effect) → Within a (a ++ b)
Within-append_left (d ∷ a) b e h = elim (Bool-cases (effect_eq d e)) [
  | inl y ↦ rw y refl
  | inr n ↦ rw n (Within-append_left a b e (rw n at h))
]
Within-append_left [] b e h = cc

pub Within-append_right : (a b : List Effect) → Within b (a ++ b)
Within-append_right [] b e h = h
Within-append_right (d ∷ a) b e h = elim (Bool-cases (effect_eq d e)) [
  | inl y ↦ rw y refl
  | inr n ↦ rw n (Within-append_right a b e h)
]

pub Within-cons_append_left : (d : Effect) (a b : List Effect) → Within (d ∷ a) (d ∷ (a ++ b))
Within-cons_append_left d a b = Within-append_left (d ∷ a) b

pub Within-append : (a b c : List Effect) → Within a c → Within b c → Within (a ++ b) c
Within-append a b c f g e h = elim (has_effect-append_cases a b e h) [
  | inl x ↦ f e x
  | inr x ↦ g e x
]

pub Within-append_under : (a b c : List Effect) → Within b c → Within (a ++ b) (a ++ c)
Within-append_under a b c w =
    Within-append a b (a ++ c) (Within-append_left a c)
      (Within-trans _ _ _ w (Within-append_right a c))

pub Within-append_nil : (a b : List Effect) → Within (a ++ b) (a ++ (b ++ []))
Within-append_nil a b = Within-append_under a b (b ++ []) (Within-append_left b [])

-- A step that ends with no diagnostic began with none, kept the effects that were used, used those
-- of `need`, and its `Fact` holds.
pub record Accepts {ℓ} {A : Type ℓ} (m : Check A) (need : List Effect) (Fact : Type 0)
    : Type 0 where
  pub clean : (s : State) → (m s).1.diagnostics ≡ [] → s.diagnostics ≡ []
  pub kept : (s : State) → (m s).1.diagnostics ≡ [] → Within s.used (m s).1.used
  pub uses : (s : State) → (m s).1.diagnostics ≡ [] → Within need (m s).1.used
  pub fact : (s : State) → (m s).1.diagnostics ≡ [] → Fact

append-cons_nonempty :
    (a : List Diagnostic) (d : Diagnostic) (b : List Diagnostic) → ¬ (a ++ (d ∷ b) ≡ [])
append-cons_nonempty [] d b h = cc
append-cons_nonempty (x ∷ a) d b h = cc

pub Within-nil : (a : List Effect) → Within [] a
Within-nil a e h = cc

-- A step that leaves diagnostics and effects as they are.
pub Accepts_of_keeping {ℓ} :
    {A : Type ℓ} (m : Check A)
    → ((s : State) → (m s).1.diagnostics ≡ s.diagnostics)
    → ((s : State) → (m s).1.used ≡ s.used)
    → Accepts m [] (Unit {0})
Accepts_of_keeping m d u = record {
  clean = λ s h. sym (d s) ∙ h;
  kept = λ s h e x. rw (u s) x;
  uses = λ s h. Within-nil _;
  fact = λ s h. tt;
}

pub report-Accepts :
    (code : Code) (at : Span) (n : List Effect) (F : Type 0) → Accepts (report code at) n F
unfolding report
report-Accepts code at n F =
    let no : (s : State) → ¬ (s.diagnostics ++ record { code = code; span = at } ∷ [] ≡ []) =
      λ s. append-cons_nonempty s.diagnostics _ [] in
    record {
      clean = λ s h. absurd (no s h);
      kept = λ s h. absurd (no s h);
      uses = λ s h. absurd (no s h);
      fact = λ s h. absurd (no s h);
    }

pub error_if-Accepts :
    (b : Bool) (code : Code) (at : Span) → Accepts (error_if b code at) [] (b ≡ false)
unfolding error_if
error_if-Accepts true code at = report-Accepts code at [] _
error_if-Accepts false code at = record {
  clean = λ s h. h;
  kept = λ s h. Within-refl _;
  uses = λ s h. Within-nil _;
  fact = λ s h. refl;
}

pub use_effect-Accepts :
    (kind target : String) → Accepts (use_effect kind target) ((kind, target) ∷ []) (Unit {0})
unfolding use_effect
use_effect-Accepts kind target = record {
  clean = λ s h. h;
  kept = λ s h. Within-append_left s.used _;
  uses = λ s h. Within-append_right s.used _;
  fact = λ s h. tt;
}

pub >>=-Accepts {ℓ κ} :
    {A : Type ℓ} {B : Type κ} {m : Check A} {f : A → Check B} {n n' : List Effect} {F F' : Type 0}
    → Accepts m n F
    → ((a : A) → Accepts (f a) n' F')
    → Accepts (m >>= f) (n ++ n') (F × F')
unfolding ◌>>=◌
>>=-Accepts {m} {f} {n} {n'} p q =
    let r = λ (s : State). q (m s).0 in
    record {
      clean = λ s h. p.clean s ((r s).clean (m s).1 h);
      kept = λ s h. Within-trans _ _ _ (p.kept s ((r s).clean (m s).1 h)) ((r s).kept (m s).1 h);
      uses = λ s h.
          Within-append n n' _
            (Within-trans _ _ _ (p.uses s ((r s).clean (m s).1 h)) ((r s).kept (m s).1 h))
            ((r s).uses (m s).1 h);
      fact = λ s h. (p.fact s ((r s).clean (m s).1 h), (r s).fact (m s).1 h);
    }

pub Accepts_weaken {ℓ} :
    {A : Type ℓ} {m : Check A} {n n' : List Effect} {F F' : Type 0}
    → Accepts m n F
    → Within n' n
    → (F → F')
    → Accepts m n' F'
Accepts_weaken p w f = record {
  clean = p.clean;
  kept = p.kept;
  uses = λ s h. Within-trans _ _ _ w (p.uses s h);
  fact = λ s h. f (p.fact s h);
}

-- The effects that are needed may be left unsaid.
pub Accepts_with {ℓ} :
    {A : Type ℓ} {m : Check A} {n : List Effect} {F F' : Type 0}
    → Accepts m n F
    → (F → F')
    → Accepts m [] F'
Accepts_with p f = Accepts_weaken p (Within-nil _) f

pub Accepts_forget {ℓ} :
    {A : Type ℓ} {m : Check A} {n : List Effect} {F : Type 0}
    → Accepts m n F
    → Accepts m [] (Unit {0})
Accepts_forget p = Accepts_with p (λ _. tt)

-- A step that looks at its state first.
pub Accepts_by_state {ℓ} :
    {A : Type ℓ} {m : Check A} {n : List Effect} {F : Type 0}
    → ((s : State) → (m' : Check A) × (m s ≡ m' s) × Accepts m' n F)
    → Accepts m n F
Accepts_by_state p = record {
  clean = λ s h. let (m', e, q) = p s in q.clean s (rw (sym e) h);
  kept = λ s h. let (m', e, q) = p s in rw e (q.kept s (rw (sym e) h));
  uses = λ s h. let (m', e, q) = p s in rw e (q.uses s (rw (sym e) h));
  fact = λ s h. let (m', e, q) = p s in q.fact s (rw (sym e) h);
}
