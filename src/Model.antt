-- ===== src/Model.antt =====
-- foresee/model.py: the syntax tree, spans and bindings.
use project_f.Base.{ℕ, String, Option, List}

pub record Span : Type 0 where
  pub start : ℕ
  pub end : ℕ
  pub line : ℕ
  pub column : ℕ

pub record ResourceDecl : Type 0 where
  pub name : String
  pub type_name : String
  pub span : Span

pub record ModelDecl : Type 0 where
  pub name : String
  pub type_name : String
  pub span : Span

-- The dict that `let` keeps of `: name<resource>`.
pub record Annotation : Type 0 where
  pub name : String
  pub resource : Option String

-- `Expr` and `Statement`: a constructor for each kind, with what its `data` holds.
mutual
  pub data Expr : Type 0 where
    string : String → Span → Expr
    int : ℕ → Span → Expr
    var : String → Span → Expr
    snapshot : String → Span → Expr
    propose : String → String → Args → Span → Expr
    explore : String → Expr → Expr → Block → Span → Expr
    simulate : String → String → Args → Span → Expr
    call : String → String → Args → Span → Expr
    select : Expr → String → Span → Expr
    commit : Expr → String → Span → Expr

  pub data Args : Type 0 where
    no_args : Args
    arg : Expr → Args → Args

  pub data Statement : Type 0 where
    bind : String → Option Annotation → Expr → Span → Statement
    give : Expr → Span → Statement
    check : Expr → String → Span → Statement
    measure : String → String → Expr → Span → Statement

  pub data Block : Type 0 where
    done : Block
    stmt : Statement → Block → Block

pub record DecisionDecl : Type 0 where
  pub name : String
  pub effects : List (String × String)
  pub body : Block
  pub span : Span

pub record Program : Type 0 where
  pub resources : List ResourceDecl
  pub models : List ModelDecl
  pub decisions : List DecisionDecl

-- The kinds of `Binding`, under the names that the checker gives them.
pub data Kind : Type 0 where
  int string bool snapshot plan plans simulated trials selected outcome error : Kind

-- A binding, with the identity of the Python object (`id`): an alias keeps it, and no two objects
-- that the checker makes share one. A lineage is the number of the snapshot.
pub record Binding : Type 0 where
  pub kind : Kind
  pub resource : Option String
  pub metric_names : List String
  pub lineage : Option ℕ
  pub identity : ℕ
