-- ===== src/Runtime/Select.antt =====
-- foresee/runtime.py: the selected trial is eligible, and no eligible one has a lower score.
use mathlib.Core.Path.{subst}
use project_f.Base.{
  ℕ, ◌≤◌, String, true, false, some, List, [], ◌∷◌, ◌≡◌, refl, sym, ◌∙◌, if◌then◌else◌, ap, ◌⊎◌,
  inl, inr, arith, Bool-cases,
}
use project_f.Base.Result.{Result, ok, or_raise, or_raise-some, >>=-eq-ok}
use project_f.Runtime.{
  is_eligible, Trial, metric_of, eligible_of, scores, key_lt, least, Selection, chosen, pick,
  select,
}

abbrev pub In : {A : Type 0} → A → List A → Type 0
In a [] = ⊥
In a (b ∷ bs) = (a ≡ b) ⊎ In a bs

key_lt-le : (x y : ℕ × Trial) → key_lt x y ≡ true → x.0 ≤ y.0
key_lt-le (m, t) (n, u) h = ground arith

key_lt-ge : (x y : ℕ × Trial) → key_lt x y ≡ false → y.0 ≤ x.0
key_lt-ge (m, t) (n, u) h = ground arith

least-In : (best : ℕ × Trial) (xs : List (ℕ × Trial)) → In (least best xs) (best ∷ xs)
unfolding least
least-In best [] = inl refl
least-In best (x ∷ xs) = elim (Bool-cases (key_lt x best)) [
  | inl y ↦
      let e : least best (x ∷ xs) ≡ least x xs = rw y refl in
      subst (λ p. In p (best ∷ x ∷ xs)) (sym e) (inr (least-In x xs))
  | inr n ↦
      let e : least best (x ∷ xs) ≡ least best xs = rw n refl in
      subst (λ p. In p (best ∷ x ∷ xs)) (sym e)
        (elim (least-In best xs) [ inl e' ↦ inl e' | inr i ↦ inr (inr i) ])
]

least-le :
    (best : ℕ × Trial) (xs : List (ℕ × Trial)) (y : ℕ × Trial)
    → In y (best ∷ xs)
    → (least best xs).0 ≤ y.0
unfolding least
least-le best [] y (inl e) = omega (arith, ap (λ (p : ℕ × Trial). p.0) e)
least-le best [] y (inr i) = absurd i
least-le best (x ∷ xs) y i = elim (Bool-cases (key_lt x best)) [
  | inl less ↦ rw less (from_x (least-le x xs) (key_lt-le x best less) i)
  | inr more ↦ rw more (from_best (least-le best xs) (key_lt-ge x best more) i)
]
  where
    score : {p q : ℕ × Trial} → p ≡ q → p.0 ≡ q.0
    score e = ap (λ (p : ℕ × Trial). p.0) e

    from_x :
        ((z : ℕ × Trial) → In z (x ∷ xs) → (least x xs).0 ≤ z.0)
        → x.0 ≤ best.0
        → In y (best ∷ x ∷ xs)
        → (least x xs).0 ≤ y.0
    from_x below l (inl e) = omega (arith, l, score e, below x (inl refl))
    from_x below l (inr i) = below y i

    from_best :
        ((z : ℕ × Trial) → In z (best ∷ xs) → (least best xs).0 ≤ z.0)
        → best.0 ≤ x.0
        → In y (best ∷ x ∷ xs)
        → (least best xs).0 ≤ y.0
    from_best below l (inl e) = below y (inl e)
    from_best below l (inr (inl e)) = omega (arith, l, score e, below best (inl refl))
    from_best below l (inr (inr i)) = below y (inr i)

kept :
    (t : Trial) (ts : List Trial) → is_eligible t ≡ true → eligible_of (t ∷ ts) ≡ t ∷ eligible_of ts
kept t ts y = ap (λ b. if b then t ∷ eligible_of ts else eligible_of ts) y

left_out :
    (t : Trial) (ts : List Trial) → is_eligible t ≡ false → eligible_of (t ∷ ts) ≡ eligible_of ts
left_out t ts n = ap (λ b. if b then t ∷ eligible_of ts else eligible_of ts) n

eligible_of-In :
    (ts : List Trial) (u : Trial) → In u (eligible_of ts) → In u ts × (is_eligible u ≡ true)
eligible_of-In [] u i = absurd i
eligible_of-In (t ∷ ts) u i = elim (Bool-cases (is_eligible t)) [
  | inl y ↦ first (eligible_of-In ts u) y (subst (In u) (kept t ts y) i)
  | inr n ↦
      let i' : In u (eligible_of ts) = subst (In u) (left_out t ts n) i in
      let (there, good) = eligible_of-In ts u i' in (inr there, good)
]
  where
    first :
        (In u (eligible_of ts) → In u ts × (is_eligible u ≡ true))
        → is_eligible t ≡ true
        → In u (t ∷ eligible_of ts)
        → In u (t ∷ ts) × (is_eligible u ≡ true)
    first rest y (inl e) = (inl e, ap (λ (x : Trial). is_eligible x) e ∙ y)
    first rest y (inr j) = let (there, good) = rest j in (inr there, good)

In-eligible_of :
    (ts : List Trial) (u : Trial) → In u ts → is_eligible u ≡ true → In u (eligible_of ts)
In-eligible_of [] u i good = absurd i
In-eligible_of (t ∷ ts) u (inl e) good =
    let y : is_eligible t ≡ true = ap (λ (x : Trial). is_eligible x) (sym e) ∙ good in
    subst (In u) (sym (kept t ts y)) (inl e)
In-eligible_of (t ∷ ts) u (inr i) good = elim (Bool-cases (is_eligible t)) [
  | inl y ↦ subst (In u) (sym (kept t ts y)) (inr (In-eligible_of ts u i good))
  | inr n ↦ subst (In u) (sym (left_out t ts n)) (In-eligible_of ts u i good)
]

-- A step of `scores`.
scores_step :
    (metric : String) (t : Trial) (ts : List Trial) (ss : List (ℕ × Trial))
    → scores metric (t ∷ ts) ≡ ok ss
    → (n : ℕ) × (rest : List (ℕ × Trial)) × (metric_of metric t.metrics ≡ some n)
      × (scores metric ts ≡ ok rest)
      × (ss ≡ (n, t) ∷ rest)
unfolding scores
scores_step metric t ts ss h =
    let (n, en, h1) = >>=-eq-ok (or_raise (metric_of metric t.metrics) _) _ h in
    let (rest, er, h2) = >>=-eq-ok (scores metric ts) _ h1 in
    (n, rest, or_raise-some _ _ en, er, last h2)
  where
    last : {x y : List (ℕ × Trial)} → ok x ≡ ok y → y ≡ x
    last e = cc

scores-In :
    (metric : String) (ts : List Trial) (ss : List (ℕ × Trial)) (n : ℕ) (u : Trial)
    → scores metric ts ≡ ok ss
    → In (n, u) ss
    → In u ts × (metric_of metric u.metrics ≡ some n)
unfolding scores
scores-In metric [] ss n u h i = absurd (subst (In (n, u)) (empty h) i)
  where
    empty : ◌≡◌ {A = Result (List (ℕ × Trial))} (ok []) (ok ss) → ss ≡ []
    empty e = cc
scores-In metric (t ∷ ts) ss n u h i =
    let (k, rest, ek, er, es) = scores_step metric t ts ss h in
    cases k rest ek (scores-In metric ts rest n u er) (subst (In (n, u)) es i)
  where
    cases :
        (k : ℕ) (rest : List (ℕ × Trial))
        → metric_of metric t.metrics ≡ some k
        → (In (n, u) rest → In u ts × (metric_of metric u.metrics ≡ some n))
        → In (n, u) ((k, t) ∷ rest)
        → In u (t ∷ ts) × (metric_of metric u.metrics ≡ some n)
    cases k rest ek below (inl e) = (
      inl (ap (λ p. p.1) e),
      ap (λ (p : ℕ × Trial). metric_of metric p.1.metrics) e
          ∙ ek
          ∙ ap (λ (p : ℕ × Trial). some p.0) (sym e),
    )
    cases k rest ek below (inr j) = let (there, score) = below j in (inr there, score)

In-scores :
    (metric : String) (ts : List Trial) (ss : List (ℕ × Trial)) (u : Trial)
    → scores metric ts ≡ ok ss
    → In u ts
    → (n : ℕ) × (metric_of metric u.metrics ≡ some n) × In (n, u) ss
In-scores metric [] ss u h i = absurd i
In-scores metric (t ∷ ts) ss u h i =
    let (k, rest, ek, er, es) = scores_step metric t ts ss h in
    cases k rest ek es (In-scores metric ts rest u er) i
  where
    cases :
        (k : ℕ) (rest : List (ℕ × Trial))
        → metric_of metric t.metrics ≡ some k
        → ss ≡ (k, t) ∷ rest
        → (In u ts → (n : ℕ) × (metric_of metric u.metrics ≡ some n) × In (n, u) rest)
        → In u (t ∷ ts)
        → (n : ℕ) × (metric_of metric u.metrics ≡ some n) × In (n, u) ss
    cases k rest ek es below (inl e) = (
      k,
      ap (λ (x : Trial). metric_of metric x.metrics) e ∙ ek,
      subst (In (k, u)) (sym es) (inl (ap (λ (x : Trial). (k, x)) e)),
    )
    cases k rest ek es below (inr j) =
        let (n, score, there) = below j in (n, score, subst (In (n, u)) (sym es) (inr there))

-- A selection that chooses a trial chooses one of the trials that is eligible and has the score for
-- the metric, and every eligible trial has a score for the metric that is no lower.
pub select-least :
    (metric : String) (trials : List Trial) (n : ℕ) (t : Trial)
    → select metric trials ≡ ok (chosen n t)
    → (In t trials × (is_eligible t ≡ true) × (metric_of metric t.metrics ≡ some n))
      × ((u : Trial)
          → In u trials
          → is_eligible u ≡ true
          → (k : ℕ) × (metric_of metric u.metrics ≡ some k) × (n ≤ k))
unfolding select
select-least metric trials n t h =
    let (ss, es, picked) = >>=-eq-ok (scores metric (eligible_of trials)) _ h in
    of_scores ss es picked
  where
    of_scores :
        (ss : List (ℕ × Trial))
        → scores metric (eligible_of trials) ≡ ok ss
        → ◌≡◌ {A = Result Selection} (ok (pick ss)) (ok (chosen n t))
        → (In t trials × (is_eligible t ≡ true) × (metric_of metric t.metrics ≡ some n))
          × ((u : Trial)
              → In u trials
              → is_eligible u ≡ true
              → (k : ℕ) × (metric_of metric u.metrics ≡ some k) × (n ≤ k))
    of_scores [] es picked = cc
    of_scores (x ∷ xs) es picked =
        let (there, score) =
          scores-In metric (eligible_of trials) (x ∷ xs) n t es (found (same_pick picked)) in
        let (among, good) = eligible_of-In trials t there in
        (
          (among, good, score),
          λ u i good'.
              let (k, score', there') =
                In-scores metric (eligible_of trials) (x ∷ xs) u es
                  (In-eligible_of trials u i good') in
              (
                k,
                score',
                omega (
                  arith,
                  least-le x xs (k, u) there',
                  ap (λ (p : ℕ × Trial). p.0) (same_pick picked),
                ),
              ),
        )
      where
        same_pick :
            ◌≡◌ {A = Result Selection} (ok (pick (x ∷ xs))) (ok (chosen n t)) → least x xs ≡ (n, t)
        same_pick e = ap key e
          where
            key : Result Selection → ℕ × Trial
            key (ok (chosen m u)) = (m, u)
            key _ = (n, t)

        found : least x xs ≡ (n, t) → In (n, t) (x ∷ xs)
        found e = subst (λ p. In p (x ∷ xs)) e (least-In x xs)
