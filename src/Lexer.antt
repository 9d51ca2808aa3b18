-- ===== src/Lexer.antt =====
-- foresee/lexer.py: the tokens of a source, which is the list of its characters. The tests of Python
-- on the class of a character (isalpha, isalnum and isdigit of str) are parameters.
pub mod Spans
mod Tests
use Prim.Native.Char.{Char, code}
use text.Mathlib.TextBridge.{of_list}
use mathlib.Core.Option.{map as map_option}
use project_f.Base.{
  ℕ, zero, suc, ◌+◌, nat_eq, String, Bool, true, false, ◌&&◌, ◌||◌, Option, none, some, List, [],
  ◌∷◌, ◌++◌, length, if◌then◌else◌,
}
use project_f.Model.{Span}
use project_f.Parser.{Token, TokenKind}

pub record Place : Type 0 where
  pub index : ℕ
  pub line : ℕ
  pub column : ℕ

pub data LexCode : Type 0 where
  f1001 f1002 f1003 : LexCode

pub record LexDiagnostic : Type 0 where
  pub code : LexCode
  pub span : Span

-- The next position of the loop of `lex`, and what its body has appended.
pub record Scanned : Type 0 where
  pub rest : List Char
  pub place : Place
  pub tokens : List Token
  pub diagnostics : List LexDiagnostic

abbrev pub is_char : ℕ → Char → Bool
is_char n c = nat_eq (code c) n

abbrev pub is_one_of : List ℕ → Char → Bool
is_one_of [] c = false
is_one_of (n ∷ ns) c = is_char n c || is_one_of ns c

-- ch in " \t\r"
abbrev pub is_blank : Char → Bool
is_blank c = is_one_of (32 ∷ 9 ∷ 13 ∷ []) c

-- ch in PUNCT or ch == "="
abbrev pub is_punctuation : Char → Bool
is_punctuation c =
    is_one_of
      (123 ∷ 125 ∷ 40 ∷ 41 ∷ 59 ∷ 44 ∷ 58 ∷ 46 ∷ 60 ∷ 62 ∷ 91 ∷ 93 ∷ 33 ∷ 43 ∷ 45 ∷ 42 ∷ 47 ∷ 37
        ∷ 61 ∷ [])
      c

-- pair in DOUBLE: -> == != <= >= && || =>
abbrev pub is_double : Char → Char → Bool
is_double c d =
    (is_char 45 c && is_char 62 d)
    || ((is_one_of (61 ∷ 33 ∷ 60 ∷ 62 ∷ []) c && is_char 61 d)
        || ((is_char 38 c && is_char 38 d)
            || ((is_char 124 c && is_char 124 d) || (is_char 61 c && is_char 62 d))))

-- i += 1 and column += 1
abbrev pub forward : Place → Place
forward p = record p { index = p.index + 1; column = p.column + 1 }

-- i += 1, line += 1 and column = 1
abbrev pub next_line : Place → Place
next_line p = record { index = p.index + 1; line = p.line + 1; column = 1 }

-- `make_span`
abbrev pub make_span : Place → Place → Span
make_span start p = record {
  start = start.index;
  end = p.index;
  line = start.line;
  column = start.column;
}

abbrev pub moved : List Char → Place → Scanned
moved rest p = record { rest = rest; place = p; tokens = []; diagnostics = [] }

abbrev pub token_at : TokenKind → List Char → Place → List Char → Place → Scanned
token_at kind chars start rest p = record {
  rest = rest;
  place = p;
  tokens = record { kind = kind; value = of_list chars; span = make_span start p } ∷ [];
  diagnostics = [];
}

-- The loops of a comment, a name and a number: the characters that pass, what is left, and where.
pub record Run : Type 0 where
  pub chars : List Char
  pub rest : List Char
  pub place : Place

abbrev pub keep : Char → Run → Run
keep c r = record r { chars = c ∷ r.chars }

abbrev pub run_of : (Char → Bool) → List Char → Place → Run
run_of test [] p = record { chars = []; rest = []; place = p }
run_of test (c ∷ cs) p =
    let r = run_of test cs (forward p) in
    if test c then keep c r else record { chars = []; rest = c ∷ cs; place = p }

-- What the loop of a string has read: where each unsupported escape stands is kept in `refused`.
pub record Quoted : Type 0 where
  pub rest : List Char
  pub place : Place
  pub closed : Bool
  pub chars : List Char
  pub refused : List Place

abbrev pub add_char : Char → Quoted → Quoted
add_char c q = record q { chars = c ∷ q.chars }

abbrev pub add_refused : Place → Quoted → Quoted
add_refused p q = record q { refused = p ∷ q.refused }

abbrev pub quoted_end : Bool → List Char → Place → Quoted
quoted_end closed rest p = record {
  rest = rest;
  place = p;
  closed = closed;
  chars = [];
  refused = [];
}

-- mapping[escaped]
abbrev pub mapping : Char → Option Char
mapping c =
    if is_char 110 c
    then some (Char.char 10 tt)
    else if is_char 114 c
    then some (Char.char 13 tt)
    else if is_char 116 c
    then some (Char.char 9 tt)
    else if is_char 34 c || is_char 92 c
    then some c
    else none

pub data Part : Type 0 where
  closing broken escape plain : Part

abbrev pub part_of : Char → Part
part_of c =
    if is_char 34 c
    then closing
    else if is_char 10 c
    then broken
    else if is_char 92 c
    then escape
    else plain

abbrev pub add_escape : Char → Option Char → Place → Quoted → Quoted
add_escape c (some d) p q = add_char d q
add_escape c none p q = add_refused p q

-- The loop of a string, after a backslash or not
unfoldable pub quoted : (escaped : Bool) → List Char → Place → Quoted
quoted escaped [] p = quoted_end false [] p
quoted true (c ∷ cs) p = add_escape c (mapping c) p (quoted false cs (forward p))
quoted false (c ∷ cs) p = elim (part_of c) [
  | closing ↦ quoted_end true cs (forward p)
  | broken ↦ quoted_end false (c ∷ cs) p
  | escape ↦ quoted true cs (forward p)
  | plain ↦ add_char c (quoted false cs (forward p))
]

abbrev pub refusals : Place → List Place → List LexDiagnostic
refusals start [] = []
refusals start (p ∷ ps) = record { code = f1003; span = make_span start p } ∷ refusals start ps

abbrev pub string_at : Place → Quoted → Scanned
string_at start q =
    if q.closed
    then record (token_at TokenKind.string q.chars start q.rest q.place) {
      diagnostics = refusals start q.refused;
    }
    else record {
      rest = q.rest;
      place = q.place;
      tokens = [];
      diagnostics =
          refusals start q.refused
          ++ (record { code = f1002; span = make_span start q.place } ∷ []);
    }

abbrev pub word_at : TokenKind → Char → Place → Run → Scanned
word_at kind c start r = token_at kind (c ∷ r.chars) start r.rest r.place

abbrev pub not_newline : Char → Bool
not_newline c = if is_char 10 c then false else true

abbrev pub comment_at : Run → Scanned
comment_at r = moved r.rest r.place

pub record Classes : Type 0 where
  pub is_alpha : Char → Bool
  pub is_alnum : Char → Bool
  pub is_digit : Char → Bool

pub record Lexed : Type 0 where
  pub tokens : List Token
  pub diagnostics : List LexDiagnostic

abbrev pub prepend : Scanned → Lexed → Lexed
prepend s l = record { tokens = s.tokens ++ l.tokens; diagnostics = s.diagnostics ++ l.diagnostics }

abbrev pub end_of_file : Place → Lexed
end_of_file p = record {
  tokens = record { kind = TokenKind.eof; value = ""; span = make_span p p } ∷ [];
  diagnostics = [];
}

-- What `lex` returns, or the diagnostics of the CompileFailure that it raises
pub data Outcome : Type 0 where
  lexed : List Token → Outcome
  compile_failure : List LexDiagnostic → Outcome

abbrev pub outcome : List Token → List LexDiagnostic → Outcome
outcome tokens [] = lexed tokens
outcome tokens (d ∷ ds) = compile_failure (d ∷ ds)

abbrev pub outcome_of : Lexed → Outcome
outcome_of l = outcome l.tokens l.diagnostics

abbrev pub start_place : Place
start_place = record { index = 0; line = 1; column = 1 }

module _ (classes : Classes) where
  -- From the test for a name on
  unfoldable pub scan_word : Char → List Char → Place → Scanned
  scan_word c cs p =
      if classes.is_alpha c || is_char 95 c
      then word_at TokenKind.ident c p
          (run_of (λ d. classes.is_alnum d || is_char 95 d) cs (forward p))
      else if classes.is_digit c
      then word_at TokenKind.int c p (run_of classes.is_digit cs (forward p))
      else if is_char 34 c
      then string_at p (quoted false cs (forward p))
      else if is_punctuation c
      then token_at TokenKind.punctuation (c ∷ []) p cs (forward p)
      else record {
        rest = cs;
        place = forward p;
        tokens = [];
        diagnostics = record { code = f1001; span = make_span p (forward p) } ∷ [];
      }

  -- The tests that look at two characters
  unfoldable pub scan_pair : Char → List Char → Place → Scanned
  scan_pair c [] p = scan_word c [] p
  scan_pair c (d ∷ cs) p =
      if is_char 47 c && is_char 47 d
      then comment_at (run_of not_newline (c ∷ d ∷ cs) p)
      else if is_double c d
      then token_at TokenKind.punctuation (c ∷ d ∷ []) p cs (forward (forward p))
      else scan_word c (d ∷ cs) p

  -- The body of the loop of `lex`
  unfoldable pub scan_one : Char → List Char → Place → Scanned
  scan_one c cs p =
      if is_blank c
      then moved cs (forward p)
      else if is_char 10 c
      then moved cs (next_line p)
      else scan_pair c cs p

  -- The loop of `lex` on fuel; none if the fuel does not suffice
  unfoldable pub lex_from : (fuel : ℕ) → List Char → Place → Option Lexed
  lex_from fuel [] p = some (end_of_file p)
  lex_from zero (c ∷ cs) p = none
  lex_from (suc fuel) (c ∷ cs) p =
      map_option (prepend (scan_one c cs p))
        (lex_from fuel (scan_one c cs p).rest (scan_one c cs p).place)

  -- `lex`
  unfoldable pub lex : List Char → Option Outcome
  lex source = map_option outcome_of (lex_from (length source) source start_place)
