-- ===== src/Compiler/Accepts/Bodies.antt =====
-- foresee/compiler.py: what `infer_expr` and `check_statement` have checked when they report nothing,
-- by induction on the syntax tree.
use project_f.Base.{
  ℕ, String, true, false, not, Option, some, List, [], ◌∷◌, ◌++◌, ◌≡◌, refl, nat_eq, arith,
}
use project_f.Model.{
  Kind, Expr, Args, no_args, arg, Statement, bind, give, check, measure, Block, done, stmt,
}
use project_f.Compiler.Signatures.{kind_eq}
use project_f.Compiler.Parts.{is_branch, explored}
use project_f.Compiler.Checker.{infer_expr, infer_args, check_statement, check_block, check_branch}
use project_f.Compiler.Allowed.{
  Allowed, AllowedArgs, AllowedStatement, AllowedBlock, effects_of, effects_of_args,
  effects_of_statement, effects_of_block,
}
use project_f.Compiler.Accepts.{
  Accepts, Accepts_weaken, Accepts_with, Accepts_forget, error_if-Accepts, use_effect-Accepts,
  >>=-Accepts, Within-append_left, Within-cons_append_left, Within-append_nil, Within-append_under,
}
use project_f.Compiler.Accepts.Steps.{
  not-false, or_false, or_false_left, refuse_in_branch-Accepts, pure-Accepts, make-Accepts,
  get_env-Accepts, set_env-Accepts, get_base-Accepts, set_base-Accepts, take_snapshot-Accepts,
  consume-Accepts, check_var-Accepts, same_origin-Accepts, check_call-Accepts,
  check_annotation-Accepts, enter_branch-Accepts, first_binding-Accepts, simulated_origin-Accepts,
}

nat_eq_true : (a b : ℕ) → not (nat_eq a b) ≡ false → a ≡ b
nat_eq_true a b h = ground arith

module _ (resources models : List String) where
  mutual
    unfolding infer_expr infer_args check_statement check_block check_branch effects_of
        effects_of_args effects_of_statement effects_of_block Allowed AllowedArgs AllowedStatement
        AllowedBlock

    pub infer_expr-Accepts :
        (e : Expr) (branch : Option String)
        → Accepts
            (infer_expr resources models e branch)
            (effects_of e)
            (Allowed resources models (is_branch branch) e)
    infer_expr-Accepts (Expr.string value at) branch = make-Accepts _ _ _ _
    infer_expr-Accepts (Expr.int value at) branch = make-Accepts _ _ _ _
    infer_expr-Accepts (Expr.var name at) branch = check_var-Accepts name at
    infer_expr-Accepts (Expr.snapshot resource at) branch =
        Accepts_weaken
          (>>=-Accepts (refuse_in_branch-Accepts branch (Expr.snapshot resource at) _ refl) λ _.
            >>=-Accepts (error_if-Accepts _ _ _)
              λ _. >>=-Accepts (use_effect-Accepts _ _) λ _. take_snapshot-Accepts resource)
          (λ e h. h) (λ (outside, (known, _)). (outside, not-false _ known))
    infer_expr-Accepts (Expr.propose model plan args at) branch =
        Accepts_weaken
          (>>=-Accepts (refuse_in_branch-Accepts branch (Expr.propose model plan args at) _ refl)
            λ _. >>=-Accepts (error_if-Accepts _ _ _) λ _. >>=-Accepts (use_effect-Accepts _ _) λ _.
              >>=-Accepts (infer_args-Accepts args branch) λ gots.
                >>=-Accepts (Accepts_forget (error_if-Accepts _ _ _)) λ _.
                  >>=-Accepts (error_if-Accepts _ _ _) λ _.
                    >>=-Accepts (error_if-Accepts _ _ _)
                      λ _. >>=-Accepts (first_binding-Accepts gots) λ base. make-Accepts _ _ _ _)
          (Within-cons_append_left _ (effects_of_args args) _)
          (λ (outside, (known, (_, (inner, (_, (plans, (count, _))))))).
            (outside, not-false _ known, not-false _ plans, count, inner))
    infer_expr-Accepts (Expr.explore item plans base body at) branch =
        Accepts_weaken
          (>>=-Accepts
            (refuse_in_branch-Accepts branch (Expr.explore item plans base body at) _ refl)
            λ _. >>=-Accepts (error_if-Accepts _ _ _) λ _.
              >>=-Accepts (infer_expr-Accepts plans branch) λ plans'.
                >>=-Accepts (infer_expr-Accepts base branch) λ base'.
                  >>=-Accepts (Accepts_forget (error_if-Accepts _ _ _)) λ _.
                    >>=-Accepts (Accepts_forget (use_effect-Accepts _ _)) λ _.
                      >>=-Accepts (same_origin-Accepts plans' base' at) λ _.
                        >>=-Accepts get_env-Accepts λ outer.
                          >>=-Accepts get_base-Accepts λ previous.
                            >>=-Accepts (enter_branch-Accepts item _ base' _ at) λ _.
                              >>=-Accepts (check_branch-Accepts body (explored plans' base') [])
                                λ metrics. >>=-Accepts (set_base-Accepts previous) λ _.
                                  >>=-Accepts (set_env-Accepts outer) λ _. make-Accepts _ _ _ _)
          (Within-append_under (effects_of plans) _ _
            (Within-append_nil (effects_of base) (effects_of_block body)))
          (λ (outside, (one, (inner, (inner', (_, (_, (_, (_, (_, (free, (inner'', _))))))))))).
            (outside, nat_eq_true _ _ one, free, inner, inner', inner''))
    infer_expr-Accepts (Expr.simulate resource method args at) branch =
        Accepts_weaken
          (>>=-Accepts (error_if-Accepts _ _ _) λ _. >>=-Accepts (error_if-Accepts _ _ _) λ _.
            >>=-Accepts (error_if-Accepts _ _ _) λ _.
              >>=-Accepts (infer_args-Accepts args branch) λ gots.
                >>=-Accepts (Accepts_forget (error_if-Accepts _ _ _)) λ _.
                  >>=-Accepts get_base-Accepts λ base.
                    >>=-Accepts (simulated_origin-Accepts gots base at) λ _. make-Accepts _ _ _ _)
          (Within-append_left (effects_of_args args) _)
          (λ (inside, (_, (apply, (inner, _)))). (
            not-false _ inside,
            not-false _ (or_false_left _ _ apply),
            not-false _ (or_false _ _ apply),
            inner,
          ))
    infer_expr-Accepts (Expr.call target method args at) branch =
        check_call-Accepts _ _ target at (infer_args-Accepts args branch)
    infer_expr-Accepts (Expr.select trials metric at) branch =
        Accepts_weaken
          (>>=-Accepts (refuse_in_branch-Accepts branch (Expr.select trials metric at) _ refl) λ _.
            >>=-Accepts (infer_expr-Accepts trials branch) λ found.
              >>=-Accepts (Accepts_forget (error_if-Accepts _ _ _)) λ _.
                >>=-Accepts (Accepts_forget (error_if-Accepts _ _ _)) λ _. make-Accepts _ _ _ _)
          (Within-append_left (effects_of trials) _) (λ (outside, (inner, _)). (outside, inner))
    infer_expr-Accepts (Expr.commit selected resource at) branch =
        Accepts_weaken
          (>>=-Accepts (refuse_in_branch-Accepts branch (Expr.commit selected resource at) _ refl)
            λ _. >>=-Accepts (error_if-Accepts _ _ _) λ _.
              >>=-Accepts (infer_expr-Accepts selected branch) λ chosen.
                >>=-Accepts (consume-Accepts chosen) λ _.
                  >>=-Accepts (Accepts_forget (error_if-Accepts _ _ _))
                    λ _. >>=-Accepts (use_effect-Accepts _ _) λ _. make-Accepts _ _ _ _)
          (λ e h. h) (λ (outside, (_, (inner, _))). (outside, inner))

    pub infer_args-Accepts :
        (args : Args) (branch : Option String)
        → Accepts
            (infer_args resources models args branch)
            (effects_of_args args)
            (AllowedArgs resources models (is_branch branch) args)
    infer_args-Accepts no_args branch = pure-Accepts []
    infer_args-Accepts (arg e args) branch =
        Accepts_weaken
          (>>=-Accepts (infer_expr-Accepts e branch)
            λ got. >>=-Accepts (infer_args-Accepts args branch) λ gots. pure-Accepts _)
          (Within-append_nil (effects_of e) (effects_of_args args))
          (λ (inner, (inner', _)). (inner, inner'))

    pub check_statement-Accepts :
        (s : Statement) (branch : Option String)
        → Accepts
            (check_statement resources models s branch)
            (effects_of_statement s)
            (AllowedStatement resources models (is_branch branch) s)
    check_statement-Accepts (bind name annotation value at) branch =
        Accepts_weaken
          (>>=-Accepts (error_if-Accepts _ _ _) λ _. >>=-Accepts get_env-Accepts λ env.
            >>=-Accepts (Accepts_forget (error_if-Accepts _ _ _)) λ _.
              >>=-Accepts (infer_expr-Accepts value branch) λ inferred.
                >>=-Accepts get_env-Accepts λ env'.
                  >>=-Accepts (set_env-Accepts _)
                    λ _. check_annotation-Accepts annotation inferred at)
          (Within-append_left (effects_of value) _) (λ (free, (_, (_, (inner, _)))). (free, inner))
    check_statement-Accepts (give value at) branch =
        Accepts_weaken
          (>>=-Accepts (infer_expr-Accepts value branch)
            λ result. Accepts_with (error_if-Accepts _ _ _) (or_false_left (is_branch branch) _))
          (Within-append_left (effects_of value) _) (λ (inner, outside). (outside, inner))
    check_statement-Accepts (check condition message at) branch =
        Accepts_weaken
          (>>=-Accepts (error_if-Accepts _ _ _) λ _.
            >>=-Accepts (infer_expr-Accepts condition branch)
              λ result. Accepts_forget (error_if-Accepts _ _ _))
          (Within-append_left (effects_of condition) _)
          (λ (inside, (inner, _)). (not-false _ inside, inner))
    check_statement-Accepts (measure name type value at) branch =
        Accepts_weaken
          (>>=-Accepts (error_if-Accepts _ _ _) λ _.
            >>=-Accepts (infer_expr-Accepts value branch) λ result.
              Accepts_with (error_if-Accepts _ _ _)
                (or_false (not (kind_eq result.kind Kind.int)) _))
          (Within-append_left (effects_of value) _)
          (λ (inside, (inner, is_int)). (not-false _ inside, not-false _ is_int, inner))

    pub check_block-Accepts :
        (b : Block) (branch : Option String)
        → Accepts
            (check_block resources models b branch)
            (effects_of_block b)
            (AllowedBlock resources models (is_branch branch) b)
    check_block-Accepts done branch = pure-Accepts tt
    check_block-Accepts (stmt s rest) branch =
        >>=-Accepts (check_statement-Accepts s branch) λ _. check_block-Accepts rest branch

    pub check_branch-Accepts :
        (b : Block) (resource : String) (metrics : List String)
        → Accepts
            (check_branch resources models b resource metrics)
            (effects_of_block b)
            (AllowedBlock resources models true b)
    check_branch-Accepts done resource metrics = pure-Accepts metrics
    check_branch-Accepts (stmt (measure name type value at) rest) resource metrics =
        Accepts_weaken
          (>>=-Accepts (check_statement-Accepts (measure name type value at) (some resource)) λ _.
            >>=-Accepts (error_if-Accepts _ _ _)
              λ _. check_branch-Accepts rest resource (metrics ++ name ∷ []))
          (λ e h. h) (λ (inner, (_, inner')). (inner, inner'))
    check_branch-Accepts (stmt (bind name annotation value at) rest) resource metrics =
        >>=-Accepts (check_statement-Accepts (bind name annotation value at) (some resource))
          λ _. check_branch-Accepts rest resource metrics
    check_branch-Accepts (stmt (give value at) rest) resource metrics =
        >>=-Accepts (check_statement-Accepts (give value at) (some resource))
          λ _. check_branch-Accepts rest resource metrics
    check_branch-Accepts (stmt (check condition message at) rest) resource metrics =
        >>=-Accepts (check_statement-Accepts (check condition message at) (some resource))
          λ _. check_branch-Accepts rest resource metrics
