-- ===== src/Parser.antt =====
-- foresee/parser.py: recursive descent over the tokens that the lexer gives. The list of tokens ends
-- with its only EOF token, which is never consumed. A test of a token's value does not look at its
-- kind, as in the code.
pub mod Ends
pub mod Fuel
mod Tests
use project_f.Base.{
  ℕ, zero, suc, ◌+◌, ◌*◌, String, Bool, true, false, ◌&&◌, Option, none, some, List, [], ◌∷◌, ◌++◌,
  ◌==◌, if◌then◌else◌,
}
use project_f.Model.{
  Span, Expr, Args, no_args, arg, Statement, bind, give, check, measure, Block, done, stmt,
  Annotation, ResourceDecl, ModelDecl, DecisionDecl, Program,
}

pub data TokenKind : Type 0 where
  ident int string punctuation eof : TokenKind

pub record Token : Type 0 where
  pub kind : TokenKind
  pub value : String
  pub span : Span

pub data Tokens : Type 0 where
  at_end : Span → Tokens
  next : Token → Tokens → Tokens

-- F2001 at the current token, or the ValueError of `int`.
pub data Failure : Type 0 where
  f2001 : Span → Failure
  value_error : Failure
  out_of_fuel : Failure

pub data Parsed {ℓ} (A : Type ℓ) : Type ℓ where
  parsed : A → Tokens → Parsed A
  failed : Failure → Parsed A

abbrev pub Parse {ℓ} : Type ℓ → Type ℓ
Parse A = Tokens → Parsed A

infixl 5 ◌>>=◌ ◌>>◌
unfoldable pub ◌>>=◌ {ℓ κ} : {A : Type ℓ} {B : Type κ} → Parse A → (A → Parse B) → Parse B
◌>>=◌ p f ts = elim (p ts) [ failed e ↦ failed e | parsed a rest ↦ f a rest ]

abbrev pub ◌>>◌ {ℓ κ} : {A : Type ℓ} {B : Type κ} → Parse A → Parse B → Parse B
p >> q = p >>= λ a. q

abbrev pub give_back {ℓ} : {A : Type ℓ} → A → Parse A
give_back a ts = parsed a ts

-- `Parser.current`
abbrev pub current : Tokens → Token
current (at_end at) = record { kind = TokenKind.eof; value = ""; span = at }
current (next token rest) = token

-- `Parser.advance`
abbrev pub advance : Parse Token
advance (at_end at) = parsed (current (at_end at)) (at_end at)
advance (next token rest) = parsed token rest

abbrev pub here : Parse Span
here ts = parsed (current ts).span ts

abbrev pub is_value : String → Tokens → Bool
is_value value ts = (current ts).value == value

-- `Parser.fail`
unfoldable pub fail {ℓ} : {A : Type ℓ} → Parse A
fail ts = failed (f2001 (current ts).span)

abbrev pub kind_is : TokenKind → TokenKind → Bool
kind_is TokenKind.ident TokenKind.ident = true
kind_is TokenKind.int TokenKind.int = true
kind_is TokenKind.string TokenKind.string = true
kind_is TokenKind.punctuation TokenKind.punctuation = true
kind_is TokenKind.eof TokenKind.eof = true
kind_is _ _ = false

-- if self.match(value): ... else: ...
unfoldable pub if_match {ℓ} : {A : Type ℓ} → String → Parse A → Parse A → Parse A
if_match value p q ts = if is_value value ts then (advance >> p) ts else q ts

unfoldable pub if_kind {ℓ} : {A : Type ℓ} → TokenKind → Parse A → Parse A → Parse A
if_kind kind p q ts = if kind_is (current ts).kind kind then p ts else q ts

-- `Parser.expect`
unfoldable pub expect : String → Parse (Unit {0})
expect value = if_match value (give_back tt) fail

-- `Parser.expect_kind`, and the value of the token
unfoldable pub expect_kind : TokenKind → Parse String
expect_kind kind = if_kind kind (advance >>= λ token. give_back token.value) fail

unfoldable pub name : Parse String
name = expect_kind TokenKind.ident

unfoldable pub annotation_resource : Parse (Option String)
annotation_resource =
    if_match "<" (do resource ← name; expect ">"; give_back (some resource)) (give_back none)

-- `: name<resource>` after the name of a binding
unfoldable pub annotation : Parse (Option Annotation)
annotation =
    if_match ":"
      (do
        type ← name
        resource ← annotation_resource
        give_back (some (record { name = type; resource = resource })))
      (give_back none)

-- The forms of `parse_expr` after their keyword.
unfoldable pub parse_propose : Parse Args → Span → Parse Expr
parse_propose arguments start = do
  model ← name
  expect "<"
  plan_type ← name
  expect ">"
  args ← arguments
  give_back (Expr.propose model plan_type args start)

unfoldable pub parse_explore : Parse Expr → Parse Block → Span → Parse Expr
parse_explore expression block start = do
  item ← name
  expect "in"
  plans ← expression
  expect "from"
  base ← expression
  body ← block
  give_back (Expr.explore item plans base body start)

unfoldable pub parse_simulate : Parse Args → Span → Parse Expr
parse_simulate arguments start = do
  resource ← name
  expect "."
  method ← name
  args ← arguments
  give_back (Expr.simulate resource method args start)

unfoldable pub parse_select : Parse Expr → Span → Parse Expr
parse_select expression start = do
  trials ← expression
  expect "minimize"
  metric ← name
  give_back (Expr.select trials metric start)

unfoldable pub parse_commit : Parse Expr → Span → Parse Expr
parse_commit expression start = do
  selected ← expression
  expect "to"
  resource ← name
  give_back (Expr.commit selected resource start)

unfoldable pub parse_name : Parse Args → Span → Parse Expr
parse_name arguments start = do
  target ← name
  if_match "." (do method ← name; args ← arguments; give_back (Expr.call target method args start))
      (give_back (Expr.var target start))

-- `int` of a token's value: `to_int` gives none where it raises.
module _ (to_int : String → Option ℕ) where
  unfoldable pub int_value : String → Span → Parse Expr
  int_value value start ts = elim (to_int value) [
    | none ↦ failed value_error
    | some n ↦ parsed (Expr.int n start) ts
  ]

  -- `Parser.parse_expr`, `parse_args`, `parse_block` and `parse_statement`
  unfoldable mutual
    pub parse_expr : ℕ → Parse Expr
    parse_expr zero ts = failed out_of_fuel
    parse_expr (suc fuel) ts =
        let start = (current ts).span in
        if_match "snapshot" (do resource ← name; give_back (Expr.snapshot resource start))
          (if_match "propose" (parse_propose (parse_args fuel) start) (
            if_match "explore" (parse_explore (parse_expr fuel) (parse_block fuel) start) (
              if_match "simulate" (parse_simulate (parse_args fuel) start) (
                if_match "select" (parse_select (parse_expr fuel) start) (
                  if_match "commit" (parse_commit (parse_expr fuel) start) (
                    if_kind TokenKind.string
                      (do token ← advance; give_back (Expr.string token.value start))
                      (if_kind TokenKind.int (do token ← advance; int_value token.value start)
                        (if_kind TokenKind.ident (parse_name (parse_args fuel) start) fail))))))))
          ts

    pub parse_args : ℕ → Parse Args
    parse_args zero ts = failed out_of_fuel
    parse_args (suc fuel) ts =
        (expect "(" >> λ ts'.
        if is_value ")" ts'
        then (do expect ")"; give_back no_args) ts'
        else (do args ← more_args fuel; expect ")"; give_back args) ts')
          ts

    -- The loop over the arguments.
    pub more_args : ℕ → Parse Args
    more_args zero ts = failed out_of_fuel
    more_args (suc fuel) ts =
        (do
          e ← parse_expr fuel
          if_match "," (do rest ← more_args fuel; give_back (arg e rest))
              (give_back (arg e no_args)))
          ts

    pub parse_statement : ℕ → Parse Statement
    parse_statement zero ts = failed out_of_fuel
    parse_statement (suc fuel) ts =
        let start = (current ts).span in
        if_match "let"
          (do
            x ← name
            type ← annotation
            expect "="
            value ← parse_expr fuel
            expect ";"
            give_back (bind x type value start))
          (if_match "return" (do value ← parse_expr fuel; expect ";"; give_back (give value start))
            (if_match "check"
              (do
                condition ← parse_expr fuel
                expect "else"
                message ← expect_kind TokenKind.string
                expect ";"
                give_back (check condition message start))
              (if_match "measure"
                (do
                  x ← name
                  expect ":"
                  type ← name
                  expect "="
                  value ← parse_expr fuel
                  expect ";"
                  give_back (measure x type value start))
                fail)))
          ts

    pub parse_block : ℕ → Parse Block
    parse_block zero ts = failed out_of_fuel
    parse_block (suc fuel) ts =
        (do expect "{"; body ← parse_statements fuel; expect "}"; give_back body) ts

    -- The loop over the statements of a block; at the end of the file it fails.
    pub parse_statements : ℕ → Parse Block
    parse_statements zero ts = failed out_of_fuel
    parse_statements (suc fuel) ts =
        if is_value "}" ts
        then parsed done ts
        else if kind_is (current ts).kind TokenKind.eof
        then fail ts
        else (do s ← parse_statement fuel; rest ← parse_statements fuel; give_back (stmt s rest)) ts

  unfoldable pub return_type : Parse (Unit {0})
  return_type = if_match "->" (if_match "DecisionResult" (give_back tt) fail) (give_back tt)

  -- The effects of a decision, from the one at hand: `fuel` bounds their number.
  unfoldable pub parse_effects : ℕ → Parse (List (String × String))
  parse_effects zero ts = failed out_of_fuel
  parse_effects (suc fuel) ts =
      if is_value "}" ts
      then parsed [] ts
      else (do
        kind ← name
        expect "("
        target ← name
        expect ")"
        if_match "," (do rest ← parse_effects fuel; give_back ((kind, target) ∷ rest))
            (give_back ((kind, target) ∷ [])))
          ts

  -- `Parser.parse_decision`
  unfoldable pub parse_decision : ℕ → Parse DecisionDecl
  parse_decision fuel = do
    start ← here
    expect "decision"
    x ← name
    expect "("
    expect ")"
    return_type
    expect "!"
    expect "{"
    effects ← parse_effects fuel
    expect "}"
    body ← parse_block fuel
    give_back (record { name = x; effects = effects; body = body; span = start })

  -- The name and the type of a resource or of a model
  unfoldable pub declaration : Parse (String × String)
  declaration = do x ← name; expect ":"; type ← name; expect ";"; give_back (x, type)

  abbrev add_resource : ResourceDecl → Program → Program
  add_resource d p = record p { resources = d ∷ p.resources }

  abbrev add_model : ModelDecl → Program → Program
  add_model d p = record p { models = d ∷ p.models }

  abbrev add_decision : DecisionDecl → Program → Program
  add_decision d p = record p { decisions = d ∷ p.decisions }

  -- `Parser.parse`; `fuel` bounds the depth of the calls.
  unfoldable pub parse_program : ℕ → Parse Program
  parse_program zero ts = failed out_of_fuel
  parse_program (suc fuel) ts =
      let start = (current ts).span in
      if kind_is (current ts).kind TokenKind.eof
      then parsed (record { resources = []; models = []; decisions = [] }) ts
      else if_match "resource"
          (do
            d ← declaration
            p ← parse_program fuel
            give_back (add_resource (record { name = d.0; type_name = d.1; span = start }) p))
          (if_match "model"
            (do
              d ← declaration
              p ← parse_program fuel
              give_back (add_model (record { name = d.0; type_name = d.1; span = start }) p))
            (if is_value "decision" ts
              then (do
                d ← parse_decision fuel
                p ← parse_program fuel
                give_back (add_decision d p))
              else fail))
          ts

abbrev pub count : Tokens → ℕ
count (at_end at) = 0
count (next token rest) = count rest + 1

-- `parse`
unfoldable pub parse : (String → Option ℕ) → Tokens → Parsed Program
parse to_int ts = parse_program to_int (count ts * 3 + 4) ts
