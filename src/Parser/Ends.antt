-- ===== src/Parser/Ends.antt =====
-- foresee/parser.py: the parser ends. Every step of it consumes tokens or fails, so the fuel of
-- `parse` is enough.
use project_f.Base.{
  ℕ, ◌+◌, ◌-◌, ◌*◌, ◌≤◌, String, false, ◌==◌, ◌≡◌, ◌≢◌, refl, inl, inr, arith, Bool-cases,
}
use project_f.Model.{Span, Expr, Args, Block}
use project_f.Parser.{
  TokenKind, Tokens, at_end, next, out_of_fuel, Parsed, parsed, failed, Parse, ◌>>=◌, give_back,
  current, fail, kind_is, parse_propose, parse_explore, parse_simulate, parse_select, parse_commit,
  parse_name, if_match, if_kind, expect, expect_kind, name, count,
}

-- What is left after a step: at least `d` tokens fewer, or a failure that is not for want of fuel.
abbrev pub After {ℓ} : {A : Type ℓ} → ℕ → ℕ → Parsed A → Type 0
After d m (parsed a rest) = count rest + d ≤ m
After d m (failed e) = e ≢ out_of_fuel

-- On at most `n` tokens, the step ends and consumes `d`.
pub record Ends {ℓ} {A : Type ℓ} (d n : ℕ) (p : Parse A) : Type 0 where
  pub after : (ts : Tokens) → count ts ≤ n → After d (count ts) (p ts)

>>=-After {ℓ κ} :
    {A : Type ℓ} {B : Type κ} (d d' n m : ℕ) (r : Parsed A) (f : A → Parse B)
    → m ≤ n
    → After d m r
    → (d ≤ n → (a : A) → Ends d' (n - d) (f a))
    → After (d + d') m (elim r [ failed e ↦ failed e | parsed a rest ↦ f a rest ])
>>=-After d d' n m (failed e) f l h q = h
>>=-After {B = B} d d' n m (parsed a rest) f l h q =
    let e = q (omega (arith, l, h)) a in
    After_then (f a rest) (omega (arith, l, h)) (e.after rest (omega (arith, l, h)))
  where
    After_then : (r : Parsed B) → count rest + d ≤ m → After d' (count rest) r → After (d + d') m r
    After_then (parsed b rest') l h = omega (arith, l, h)
    After_then (failed e) l h = h

pub >>=-Ends {ℓ κ} :
    {A : Type ℓ} {B : Type κ} (d d' : ℕ) {n : ℕ} {p : Parse A} {f : A → Parse B}
    → Ends d n p
    → (d ≤ n → (a : A) → Ends d' (n - d) (f a))
    → Ends (d + d') n (p >>= f)
unfolding ◌>>=◌
>>=-Ends d d' {n} {p} {f} e q = record {
  after = λ ts l. >>=-After d d' n (count ts) (p ts) f l (e.after ts l) q;
}

pub fail-Ends {ℓ} : {A : Type ℓ} (d n : ℕ) → Ends d n (fail {A = A})
unfolding fail
fail-Ends d n = record { after = λ ts l h. cc }

pub give_back-Ends {ℓ} : {A : Type ℓ} (n : ℕ) (a : A) → Ends 0 n (give_back a)
give_back-Ends n a = record { after = λ ts l. omega arith }

pub After_next {ℓ} :
    {A : Type ℓ} (d : ℕ) (ts : Tokens) (r : Parsed A)
    → After (d - 1) (count ts) r
    → After d (count ts + 1) r
After_next d ts (parsed a rest) h = omega (arith, h)
After_next d ts (failed e) h = h

After_weaken {ℓ} : {A : Type ℓ} (d d' m : ℕ) (r : Parsed A) → d' ≤ d → After d m r → After d' m r
After_weaken d d' m (parsed a rest) l h = omega (arith, l, h)
After_weaken d d' m (failed e) l h = h

if_match-After {ℓ} :
    {A : Type ℓ} (v : String) (p q : Parse A) (d n : ℕ)
    → ("" == v) ≡ false
    → (1 ≤ n → Ends (d - 1) (n - 1) p)
    → Ends d n q
    → (ts : Tokens) → count ts ≤ n
    → After d (count ts) (if_match v p q ts)
unfolding if_match ◌>>=◌
if_match-After v p q d n h e e' (at_end at) l = rw (h, if_match) (e'.after (at_end at) l)
if_match-After v p q d n h e e' (next t ts) l = elim (Bool-cases (t.value == v)) [
  | inl y ↦
      let inner = e (omega (arith, l)) in
      rw (y, if_match) (After_next d ts (p ts) (inner.after ts (omega (arith, l))))
  | inr x ↦ rw (x, if_match) (e'.after (next t ts) l)
]

pub if_match-Ends {ℓ} :
    {A : Type ℓ} (v : String) {p q : Parse A} (d : ℕ) {n : ℕ}
    → ("" == v) ≡ false
    → (1 ≤ n → Ends (d - 1) (n - 1) p)
    → Ends d n q
    → Ends d n (if_match v p q)
if_match-Ends v {p} {q} d {n} h e e' = record { after = if_match-After v p q d n h e e' }

pub if_kind-Ends {ℓ} :
    {A : Type ℓ} (k : TokenKind) {p q : Parse A} (d : ℕ) {n : ℕ}
    → Ends d n p
    → Ends d n q
    → Ends d n (if_kind k p q)
unfolding if_kind
if_kind-Ends k {p} {q} d e e' = record {
  after = λ ts l. elim (Bool-cases (kind_is (current ts).kind k)) [
    | inl y ↦ rw (y, if_kind) (e.after ts l)
    | inr x ↦ rw (x, if_kind) (e'.after ts l)
  ];
}

pub expect-Ends : (v : String) {n : ℕ} → ("" == v) ≡ false → Ends 1 n (expect v)
unfolding expect
expect-Ends v {n} h = if_match-Ends v 1 h (λ l. give_back-Ends _ tt) (fail-Ends 1 n)

pub expect_kind-Ends :
    (k : TokenKind) {n : ℕ} → kind_is TokenKind.eof k ≡ false → Ends 1 n (expect_kind k)
unfolding expect_kind if_kind ◌>>=◌ fail
expect_kind-Ends k {n} h = record { after = go }
  where
    go : (ts : Tokens) → count ts ≤ n → After 1 (count ts) (expect_kind k ts)
    go (at_end at) l = rw (h, expect_kind, if_kind) (λ e. cc)
    go (next t ts) l = elim (Bool-cases (kind_is t.kind k)) [
      | inl y ↦ rw (y, expect_kind, if_kind) (omega arith)
      | inr x ↦ rw (x, expect_kind, if_kind) (λ e. cc)
    ]

pub name-Ends : {n : ℕ} → Ends 1 n name
unfolding name
name-Ends = expect_kind-Ends TokenKind.ident refl

pub Ends-weaken {ℓ} :
    {A : Type ℓ} {p : Parse A} (d d' : ℕ) {n : ℕ} → Ends d n p → d' ≤ d → Ends d' n p
Ends-weaken {p} d d' e l = record {
  after = λ ts h. After_weaken d d' (count ts) (p ts) l (e.after ts h);
}

pub Ends-of_less {ℓ} : {A : Type ℓ} {p : Parse A} {d n m : ℕ} → Ends d n p → m ≤ n → Ends d m p
Ends-of_less e l = record { after = λ ts h. e.after ts (omega (arith, h, l)) }

-- What follows a step that consumes a token has one token fewer.
pub then-Ends {ℓ κ} :
    {A : Type ℓ} {B : Type κ} {n : ℕ} {p : Parse A} {f : A → Parse B}
    → Ends 1 n p
    → ((m : ℕ) → m + 1 ≤ n → (a : A) → Ends 0 m (f a))
    → Ends 1 n (p >>= f)
then-Ends {n} e q =
    Ends-weaken _ 1 (>>=-Ends 1 0 e λ l a. q (n - 1) (omega (arith, l)) a) (omega arith)

pub free {ℓ} : {A : Type ℓ} {p : Parse A} {n : ℕ} → Ends 1 n p → Ends 0 n p
free e = Ends-weaken 1 0 e (omega arith)

pub option-Ends {ℓ κ} :
    {A : Type ℓ} {B : Type κ} {n : ℕ} {p : Parse A} {f : A → Parse B}
    → Ends 0 n p
    → ((a : A) → Ends 0 n (f a))
    → Ends 0 n (p >>= f)
option-Ends {n} e q = >>=-Ends 0 0 e λ l a. Ends-of_less (q a) (omega arith)

pub keyword-Ends {ℓ} :
    {A : Type ℓ} (v : String) {p q : Parse A} {n : ℕ}
    → ("" == v) ≡ false
    → ((m : ℕ) → m + 1 ≤ n → Ends 0 m p)
    → Ends 1 n q
    → Ends 1 n (if_match v p q)
keyword-Ends v {p} {q} {n} h e e' = if_match-Ends v 1 h (λ l. e (n - 1) (omega (arith, l))) e'

-- A parser with enough fuel: at most two calls for a token, and one more.
abbrev pub Enough {ℓ} : {A : Type ℓ} → ℕ → Parse A → Type 0
Enough fuel p = (m : ℕ) → m * 3 + 2 ≤ fuel → Ends 1 m p

module _ (fuel : ℕ) {arguments : Parse Args} {expression : Parse Expr} {block : Parse Block}
    (args-Ends : Enough fuel arguments) (expr-Ends : Enough fuel expression)
    (block-Ends : Enough fuel block) where
  pub parse_propose-Ends :
      (m : ℕ) (at : Span) → m * 3 + 2 ≤ fuel → Ends 0 m (parse_propose arguments at)
  unfolding parse_propose
  parse_propose-Ends m at l = free (
      then-Ends name-Ends λ m1 l1 model. free (
        then-Ends (expect-Ends _ refl) λ m2 l2 u. free (
          then-Ends name-Ends λ m3 l3 plan_type. free (
            then-Ends (expect-Ends _ refl) λ m4 l4 v. free (
              then-Ends (args-Ends m4 (omega (arith, l, l1, l2, l3, l4)))
                λ m5 l5 args. give_back-Ends m5 _)))))

  pub parse_explore-Ends :
      (m : ℕ) (at : Span) → m * 3 + 2 ≤ fuel → Ends 0 m (parse_explore expression block at)
  unfolding parse_explore
  parse_explore-Ends m at l = free (
      then-Ends name-Ends λ m1 l1 item. free (
        then-Ends (expect-Ends _ refl) λ m2 l2 u. free (
          then-Ends (expr-Ends m2 (omega (arith, l, l1, l2))) λ m3 l3 plans. free (
            then-Ends (expect-Ends _ refl) λ m4 l4 v. free (
              then-Ends (expr-Ends m4 (omega (arith, l, l1, l2, l3, l4))) λ m5 l5 base. free (
                then-Ends (block-Ends m5 (omega (arith, l, l1, l2, l3, l4, l5)))
                  λ m6 l6 body. give_back-Ends m6 _))))))

  pub parse_simulate-Ends :
      (m : ℕ) (at : Span) → m * 3 + 2 ≤ fuel → Ends 0 m (parse_simulate arguments at)
  unfolding parse_simulate
  parse_simulate-Ends m at l = free (
      then-Ends name-Ends λ m1 l1 resource. free (
        then-Ends (expect-Ends _ refl) λ m2 l2 u. free (
          then-Ends name-Ends λ m3 l3 method. free (
            then-Ends (args-Ends m3 (omega (arith, l, l1, l2, l3)))
              λ m4 l4 args. give_back-Ends m4 _))))

  pub parse_select-Ends :
      (m : ℕ) (at : Span) → m * 3 + 2 ≤ fuel → Ends 0 m (parse_select expression at)
  unfolding parse_select
  parse_select-Ends m at l = free (
      then-Ends (expr-Ends m l) λ m1 l1 trials. free (
        then-Ends (expect-Ends _ refl)
          λ m2 l2 u. free (then-Ends name-Ends λ m3 l3 metric. give_back-Ends m3 _)))

  pub parse_commit-Ends :
      (m : ℕ) (at : Span) → m * 3 + 2 ≤ fuel → Ends 0 m (parse_commit expression at)
  unfolding parse_commit
  parse_commit-Ends m at l = free (
      then-Ends (expr-Ends m l) λ m1 l1 selected. free (
        then-Ends (expect-Ends _ refl)
          λ m2 l2 u. free (then-Ends name-Ends λ m3 l3 resource. give_back-Ends m3 _)))

  pub parse_name-Ends :
      (m : ℕ) (at : Span) → m * 3 + 2 ≤ fuel + 3 → Ends 1 m (parse_name arguments at)
  unfolding parse_name
  parse_name-Ends m at l = then-Ends name-Ends λ m1 l1 target.
      if_match-Ends _ 0 refl
        (λ l2. free (
          then-Ends name-Ends λ m3 l3 method. free (
            then-Ends (args-Ends m3 (omega (arith, l, l1, l2, l3)))
              λ m4 l4 args. give_back-Ends m4 _)))
        (give_back-Ends m1 _)
