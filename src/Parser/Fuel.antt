-- ===== src/Parser/Fuel.antt =====
-- foresee/parser.py: the fuel of `parse` is enough, by induction on it.
use project_f.Base.{
  ℕ, zero, suc, ◌+◌, ◌*◌, ◌≤◌, String, Option, ◌≡◌, ◌≢◌, refl, inl, inr, arith, Bool-cases,
  Option-cases, true, false, Bool, if◌then◌else◌,
}
use project_f.Model.{Span, Expr, Statement, Program}
use project_f.Parser.{
  Token, ◌>>=◌, ◌>>◌, Tokens, at_end, next, TokenKind, out_of_fuel, Failure, give_back, expect,
  Parsed, failed, parsed, Parse, current, count, is_value, kind_is, int_value, annotation,
  annotation_resource, parse_expr, parse_args, more_args, parse_statement, parse_block,
  parse_statements, parse_effects, parse_decision, parse_program, parse, return_type, declaration,
  advance, if_kind,
}
use project_f.Parser.Ends.{
  After, After_next, Ends, >>=-Ends, fail-Ends, give_back-Ends, if_match-Ends, if_kind-Ends,
  expect-Ends, expect_kind-Ends, name-Ends, then-Ends, free, Ends-weaken, option-Ends, keyword-Ends,
  Enough, Ends-of_less, parse_propose-Ends, parse_explore-Ends, parse_simulate-Ends,
  parse_select-Ends, parse_commit-Ends, parse_name-Ends,
}

-- A parser that looks at the tokens first.
by_tokens {ℓ} :
    {A : Type ℓ} {d n : ℕ} {p : Parse A} (q : Tokens → Parse A)
    → ((ts : Tokens) → p ts ≡ q ts ts)
    → ((ts : Tokens) → Ends d n (q ts))
    → Ends d n p
by_tokens q e h = record { after = λ ts l. rw (e ts) ((h ts).after ts l) }

either-Ends {ℓ} :
    {A : Type ℓ} {d n : ℕ} (b : Bool) {p q : Parse A}
    → Ends d n p
    → Ends d n q
    → Ends d n (λ ts. if b then p ts else q ts)
either-Ends true e e' = e
either-Ends false e e' = e'

choose-Ends {ℓ} :
    {A : Type ℓ} {d n : ℕ} (b : Bool) {p q : Parse A}
    → Ends d n p
    → Ends d n q
    → Ends d n (if b then p else q)
choose-Ends true e e' = e
choose-Ends false e e' = e'

take-Ends {ℓ} :
    {A : Type ℓ} {n : ℕ} (k : TokenKind) {f : Token → Parse A} {q : Parse A}
    → kind_is TokenKind.eof k ≡ false
    → ((m : ℕ) → (t : Token) → Ends 0 m (f t))
    → Ends 1 n q
    → Ends 1 n (if_kind k (advance >>= f) q)
unfolding if_kind ◌>>=◌
take-Ends {A = A} {n} k {f} {q} h e e' = record { after = go }
  where
    go : (ts : Tokens) → count ts ≤ n → After 1 (count ts) (if_kind k (advance >>= f) q ts)
    go (at_end at) l = rw (h, if_kind) (e'.after (at_end at) l)
    go (next t ts) l = elim (Bool-cases (kind_is t.kind k)) [
      | inl y ↦ rw (y, if_kind) (After_next 1 ts (f t ts) ((e (count ts) t).after ts (omega arith)))
      | inr x ↦ rw (x, if_kind) (e'.after (next t ts) l)
    ]

none_left : (m : ℕ) → m * 3 + 2 ≤ 0 → ⊥
none_left m l = omega (arith, l)

annotation-Ends : {n : ℕ} → Ends 0 n annotation
unfolding annotation annotation_resource
annotation-Ends {n} =
    if_match-Ends _ 0 refl
      (λ l. free (
        then-Ends name-Ends λ m l' type.
          option-Ends
            (if_match-Ends _ 0 refl
              (λ l2. free (
                then-Ends name-Ends λ m3 l3 resource.
                  free (then-Ends (expect-Ends _ refl) λ m4 l4 u. give_back-Ends m4 _)))
              (give_back-Ends m _))
            λ resource. give_back-Ends m _))
      (give_back-Ends n _)

int_value-Ends :
    (to_int : String → Option ℕ) (value : String) (at : Span) (n : ℕ)
    → Ends 0 n (int_value to_int value at)
unfolding int_value
int_value-Ends to_int value at n = elim (Option-cases (to_int value)) [
  | inl x ↦
      by_tokens (λ ts ts'. failed Failure.value_error) (λ ts. rw (x, int_value) refl)
        λ ts. record { after = λ ts' l h. cc }
  | inr (k, x) ↦
      by_tokens (λ ts. give_back (Expr.int k at)) (λ ts. rw (x, int_value) refl)
        λ ts. give_back-Ends n _
]

-- A value and its semicolon, at the end of a statement.
value-Ends :
    (fuel : ℕ) {p : Parse Expr}
    → Enough fuel p
    → (m : ℕ) → m * 3 + 2 ≤ fuel
    → (make : Expr → Statement) → Ends 0 m (p >>= λ value. expect ";" >> give_back (make value))
value-Ends fuel e m l make = free (
    then-Ends (e m l)
      λ m1 l1 value. free (then-Ends (expect-Ends _ refl) λ m2 l2 u. give_back-Ends m2 _))

module _ (to_int : String → Option ℕ) where
  mutual
    unfolding parse_expr parse_args more_args parse_statement parse_block parse_statements

    expr-Ends : (fuel : ℕ) → Enough fuel (parse_expr to_int fuel)
    expr-Ends zero m l = absurd (none_left m l)
    expr-Ends (suc f) m l =
        by_tokens _ (λ ts. refl)
          λ ts.
            let at = (current ts).span in
            keyword-Ends _ refl
              (λ m1 l1. free (then-Ends name-Ends λ m2 l2 resource. give_back-Ends m2 _))
              (keyword-Ends _ refl
                (λ m1 l1.
                  parse_propose-Ends f (args-Ends f) (expr-Ends f) (block-Ends f) m1 at
                    (omega (arith, l, l1)))
                (keyword-Ends _ refl
                  (λ m1 l1.
                    parse_explore-Ends f (args-Ends f) (expr-Ends f) (block-Ends f) m1 at
                      (omega (arith, l, l1)))
                  (keyword-Ends _ refl
                    (λ m1 l1.
                      parse_simulate-Ends f (args-Ends f) (expr-Ends f) (block-Ends f) m1 at
                        (omega (arith, l, l1)))
                    (keyword-Ends _ refl
                      (λ m1 l1.
                        parse_select-Ends f (args-Ends f) (expr-Ends f) (block-Ends f) m1 at
                          (omega (arith, l, l1)))
                      (keyword-Ends _ refl
                        (λ m1 l1.
                          parse_commit-Ends f (args-Ends f) (expr-Ends f) (block-Ends f) m1 at
                            (omega (arith, l, l1)))
                        (take-Ends _ refl (λ m1 t. give_back-Ends m1 _)
                          (take-Ends _ refl (λ m1 t. int_value-Ends to_int t.value at m1)
                            (if_kind-Ends _ 1
                              (parse_name-Ends f (args-Ends f) (expr-Ends f) (block-Ends f) m at
                                (omega (arith, l)))
                              (fail-Ends 1 m)))))))))

    args-Ends : (fuel : ℕ) → Enough fuel (parse_args to_int fuel)
    args-Ends zero m l = absurd (none_left m l)
    args-Ends (suc f) m l = then-Ends (expect-Ends _ refl) λ m1 l1 u.
        by_tokens _ (λ ts. refl)
          λ ts.
            either-Ends (is_value ")" ts)
              (free (then-Ends (expect-Ends _ refl) λ m2 l2 v. give_back-Ends m2 _))
              (free (
                then-Ends (more_args-Ends f m1 (omega (arith, l, l1))) λ m2 l2 args.
                  free (then-Ends (expect-Ends _ refl) λ m3 l3 v. give_back-Ends m3 _)))

    more_args-Ends : (fuel m : ℕ) → m * 3 + 3 ≤ fuel → Ends 1 m (more_args to_int fuel)
    more_args-Ends zero m l = absurd (none_left m (omega (arith, l)))
    more_args-Ends (suc f) m l = then-Ends (expr-Ends f m (omega (arith, l))) λ m1 l1 e.
        if_match-Ends _ 0 refl
          (λ l2. free (
            then-Ends (more_args-Ends f _ (omega (arith, l, l1, l2)))
              λ m3 l3 rest. give_back-Ends m3 _))
          (give_back-Ends m1 _)

    statement-Ends : (fuel : ℕ) → Enough fuel (parse_statement to_int fuel)
    statement-Ends zero m l = absurd (none_left m l)
    statement-Ends (suc f) m l =
        by_tokens _ (λ ts. refl)
          λ ts.
            keyword-Ends _ refl
              (λ m1 l1. free (
                then-Ends name-Ends λ m2 l2 x. option-Ends annotation-Ends λ type. free (
                  then-Ends (expect-Ends _ refl)
                    λ m3 l3 u. value-Ends f (expr-Ends f) m3 (omega (arith, l, l1, l2, l3)) _)))
              (keyword-Ends _ refl (λ m1 l1. value-Ends f (expr-Ends f) m1 (omega (arith, l, l1)) _)
                (keyword-Ends _ refl
                  (λ m1 l1. free (
                    then-Ends (expr-Ends f m1 (omega (arith, l, l1))) λ m2 l2 condition. free (
                      then-Ends (expect-Ends _ refl) λ m3 l3 u. free (
                        then-Ends (expect_kind-Ends _ refl) λ m4 l4 message.
                          free (then-Ends (expect-Ends _ refl) λ m5 l5 v. give_back-Ends m5 _)))))
                  (keyword-Ends _ refl
                    (λ m1 l1. free (
                      then-Ends name-Ends λ m2 l2 x. free (
                        then-Ends (expect-Ends _ refl) λ m3 l3 u. free (
                          then-Ends name-Ends λ m4 l4 type. free (
                            then-Ends (expect-Ends _ refl) λ m5 l5 v.
                              value-Ends f (expr-Ends f) m5 (omega (arith, l, l1, l2, l3, l4, l5))
                                _)))))
                    (fail-Ends 1 m))))

    block-Ends : (fuel : ℕ) → Enough fuel (parse_block to_int fuel)
    block-Ends zero m l = absurd (none_left m l)
    block-Ends (suc f) m l = then-Ends (expect-Ends _ refl) λ m1 l1 u.
        option-Ends (statements-Ends f m1 (omega (arith, l, l1)))
          λ body. free (then-Ends (expect-Ends _ refl) λ m3 l3 v. give_back-Ends m3 _)

    statements-Ends : (fuel m : ℕ) → m * 3 + 3 ≤ fuel → Ends 0 m (parse_statements to_int fuel)
    statements-Ends zero m l = absurd (none_left m (omega (arith, l)))
    statements-Ends (suc f) m l =
        by_tokens _ (λ ts. refl)
          λ ts. either-Ends (is_value "}" ts) (give_back-Ends m _) (
            either-Ends (kind_is (current ts).kind TokenKind.eof) (fail-Ends 0 m) (
              free (
                then-Ends (statement-Ends f m (omega (arith, l))) λ m1 l1 s.
                  option-Ends (statements-Ends f m1 (omega (arith, l, l1)))
                    λ rest. give_back-Ends m1 _)))

  effects-Ends : (fuel m : ℕ) → m + 1 ≤ fuel → Ends 0 m (parse_effects to_int fuel)
  unfolding parse_effects
  effects-Ends zero m l = let no_fuel : ⊥ = omega (arith, l) in absurd no_fuel
  effects-Ends (suc f) m l =
      by_tokens _ (λ ts. refl)
        λ ts. either-Ends (is_value "}" ts) (give_back-Ends m _) (
          free (
            then-Ends name-Ends λ m1 l1 kind. free (
              then-Ends (expect-Ends _ refl) λ m2 l2 u. free (
                then-Ends name-Ends λ m3 l3 target. free (
                  then-Ends (expect-Ends _ refl) λ m4 l4 v.
                    if_match-Ends _ 0 refl
                      (λ l5.
                        option-Ends (effects-Ends f _ (omega (arith, l, l1, l2, l3, l4, l5)))
                          λ rest. give_back-Ends _ _)
                      (give_back-Ends m4 _))))))

  return_type-Ends : (m : ℕ) → Ends 0 m (return_type to_int)
  unfolding return_type
  return_type-Ends m =
      if_match-Ends _ 0 refl
        (λ l. if_match-Ends _ 0 refl (λ l'. give_back-Ends _ _) (fail-Ends 0 _))
        (give_back-Ends m _)

  decision-Ends : (fuel m : ℕ) → m * 3 + 2 ≤ fuel → Ends 1 m (parse_decision to_int fuel)
  unfolding parse_decision
  decision-Ends fuel m l =
      Ends-weaken _ 1
        (>>=-Ends 0 1 (record { after = λ ts l. omega arith })
          λ l0 at.
            Ends-of_less {n = m}
              (then-Ends (expect-Ends _ refl) λ m1 l1 u1. free (
                then-Ends name-Ends λ m2 l2 x. free (
                  then-Ends (expect-Ends _ refl) λ m3 l3 u3. free (
                    then-Ends (expect-Ends _ refl) λ m4 l4 u4.
                      option-Ends (return_type-Ends m4) λ u5. free (
                        then-Ends (expect-Ends _ refl) λ m6 l6 u6. free (
                          then-Ends (expect-Ends _ refl) λ m7 l7 u7.
                            option-Ends
                              (effects-Ends fuel m7 (omega (arith, l, l1, l2, l3, l4, l6, l7)))
                              λ effects. free (
                                then-Ends (expect-Ends _ refl) λ m8 l8 u8. free (
                                  then-Ends
                                    (block-Ends fuel m8
                                      (omega (arith, l, l1, l2, l3, l4, l6, l7, l8)))
                                    λ m9 l9 body. give_back-Ends m9 _))))))))
              (omega arith))
        (omega arith)

  declaration-Ends : (m : ℕ) → Ends 1 m (declaration to_int)
  unfolding declaration
  declaration-Ends m = then-Ends name-Ends λ m1 l1 x. free (
      then-Ends (expect-Ends _ refl) λ m2 l2 u. free (
        then-Ends name-Ends
          λ m3 l3 type. free (then-Ends (expect-Ends _ refl) λ m4 l4 v. give_back-Ends m4 _)))

  program-Ends : (fuel m : ℕ) → m * 3 + 3 ≤ fuel → Ends 0 m (parse_program to_int fuel)
  unfolding parse_program
  program-Ends zero m l = absurd (none_left m (omega (arith, l)))
  program-Ends (suc f) m l =
      by_tokens _ (λ ts. refl)
        λ ts. either-Ends (kind_is (current ts).kind TokenKind.eof) (give_back-Ends m _) (
          if_match-Ends _ 0 refl
            (λ l1. free (
              then-Ends (declaration-Ends _) λ m2 l2 d.
                option-Ends (program-Ends f m2 (omega (arith, l, l1, l2)))
                  λ p. give_back-Ends m2 _))
            (if_match-Ends _ 0 refl
              (λ l1. free (
                then-Ends (declaration-Ends _) λ m2 l2 d.
                  option-Ends (program-Ends f m2 (omega (arith, l, l1, l2)))
                    λ p. give_back-Ends m2 _))
              (choose-Ends (is_value "decision" ts)
                (free (
                  then-Ends (decision-Ends f m (omega (arith, l))) λ m1 l1 d.
                    option-Ends (program-Ends f m1 (omega (arith, l, l1)))
                      λ p. give_back-Ends m1 _))
                (fail-Ends 0 m))))

  -- The parser ends on every list of tokens, whatever `int` makes of their texts: with the fuel
  -- that `parse` gives it, three times the number of tokens and four, it never runs out.
  pub parse_ends : (ts : Tokens) → parse to_int ts ≢ failed out_of_fuel
  unfolding parse
  parse_ends ts h =
      ended _ h ((program-Ends (count ts * 3 + 4) (count ts) (omega arith)).after ts (omega arith))
    where
      ended : (r : Parsed Program) → r ≡ failed out_of_fuel → After 0 (count ts) r → ⊥
      ended (parsed p rest) e a = cc
      ended (failed x) e a = a (inner e)
        where
          inner : ◌≡◌ {A = Parsed Program} (failed x) (failed out_of_fuel) → x ≡ out_of_fuel
          inner e = cc
