-- ===== src/Parser/Tests.antt =====
-- Runs of the parser on tokens that the lexer gives.
use project_f.Base.{
  ℕ, String, Option, none, some, List, [], ◌∷◌, ◌==◌, ◌≡◌, ◌≢◌, refl, if◌then◌else◌,
}
use project_f.Model.{Span, Expr, no_args, arg}
use project_f.Parser.{
  TokenKind, Tokens, at_end, next, Failure, Parsed, parsed, failed, ◌>>=◌, fail, if_match, if_kind,
  expect, expect_kind, name, annotation, int_value, parse_expr, parse_propose, parse_explore,
  parse_simulate, parse_select, parse_commit, parse_name, parse, out_of_fuel,
}
use project_f.Parser.Fuel.{parse_ends}

abbrev at : Span
at = record { start = 0; end = 0; line = 1; column = 1 }

abbrev tokens : List (TokenKind × String) → Tokens
tokens [] = at_end at
tokens ((kind, value) ∷ rest) =
    next (record { kind = kind; value = value; span = at }) (tokens rest)

abbrev word : String → TokenKind × String
word value = (TokenKind.ident, value)

abbrev mark : String → TokenKind × String
mark value = (TokenKind.punctuation, value)

abbrev digit : String → Option ℕ
digit value = if value == "4" then some 4 else none

expression : List (TokenKind × String) → Parsed Expr
unfolding parse_expr ◌>>=◌ fail if_match if_kind expect expect_kind name annotation int_value
    parse_propose parse_explore parse_simulate parse_select parse_commit parse_name
expression ts = parse_expr digit 20 (tokens ts)

propose_parsed :
    expression (
      word "propose"
      ∷ word "planner"
      ∷ mark "<"
      ∷ word "Patch"
      ∷ mark ">"
      ∷ mark "("
      ∷ word "base"
      ∷ mark ","
      ∷ (TokenKind.string, "fill")
      ∷ mark ","
      ∷ (TokenKind.int, "4")
      ∷ mark ")"
      ∷ [])
    ≡ parsed
        (Expr.propose "planner" "Patch"
          (arg (Expr.var "base" at) (arg (Expr.string "fill" at) (arg (Expr.int 4 at) no_args)))
          at)
        (at_end at)
unfolding expression
propose_parsed = refl

-- A text that is spelled like a keyword is read as the keyword.
quoted_keyword : expression ((TokenKind.string, "snapshot") ∷ []) ≡ failed (Failure.f2001 at)
unfolding expression
quoted_keyword = refl

commit_parsed :
    expression (word "commit" ∷ word "chosen" ∷ word "to" ∷ word "catalog" ∷ [])
    ≡ parsed (Expr.commit (Expr.var "chosen" at) "catalog" at) (at_end at)
unfolding expression
commit_parsed = refl

abbrev declarations : Tokens
declarations = tokens (
    word "resource"
    ∷ word "catalog"
    ∷ mark ":"
    ∷ word "Catalog"
    ∷ mark ";"
    ∷ word "model"
    ∷ word "planner"
    ∷ mark ":"
    ∷ word "Planner"
    ∷ mark ";"
    ∷ [])

parse_ends_example : parse digit declarations ≢ failed out_of_fuel
parse_ends_example = parse_ends digit declarations
