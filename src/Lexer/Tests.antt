-- ===== src/Lexer/Tests.antt =====
-- A source that is read into tokens, one that is refused, and the theorem on the first.
use Prim.Native.Char.{Char}
use project_f.Base.{ℕ, ◌+◌, String, ◌≡◌, refl, ◌||◌, some, List, [], ◌∷◌, length}
use project_f.Parser.{Token, TokenKind}
use project_f.Lexer.{
  Classes, is_char, lexed, compile_failure, LexDiagnostic, f1002, f1003, outcome, quoted, scan_word,
  scan_pair, scan_one, lex_from, lex,
}
use project_f.Lexer.Spans.{InOrder, lex-InOrder}

-- The letter x and the digit 1
abbrev classes : Classes
classes = record {
  is_alpha = λ c. is_char 120 c;
  is_alnum = λ c. is_char 120 c || is_char 49 c;
  is_digit = λ c. is_char 49 c;
}

-- x1 ==1//x
abbrev assignment : List Char
assignment =
    Char.char 120 tt
    ∷ Char.char 49 tt
    ∷ Char.char 32 tt
    ∷ Char.char 61 tt
    ∷ Char.char 61 tt
    ∷ Char.char 49 tt
    ∷ Char.char 47 tt
    ∷ Char.char 47 tt
    ∷ Char.char 120 tt
    ∷ []

-- "\q
abbrev open_string : List Char
open_string = Char.char 34 tt ∷ Char.char 92 tt ∷ Char.char 113 tt ∷ []

abbrev token : TokenKind → String → ℕ → ℕ → Token
token kind value from to = record {
  kind = kind;
  value = value;
  span = record { start = from; end = to; line = 1; column = from + 1 };
}

lex-assignment :
    lex classes assignment
    ≡ some (
        lexed (
          token TokenKind.ident "x1" 0 2
          ∷ token TokenKind.punctuation "==" 3 5
          ∷ token TokenKind.int "1" 5 6
          ∷ token TokenKind.eof "" 9 9
          ∷ []))
unfolding lex lex_from scan_one scan_pair scan_word
lex-assignment = refl

-- The escape is refused where it stands, and the string has no end.
lex-string :
    lex classes open_string
    ≡ some (
        compile_failure (
          record { code = f1003; span = record { start = 0; end = 2; line = 1; column = 1 } }
          ∷ record { code = f1002; span = record { start = 0; end = 3; line = 1; column = 1 } }
          ∷ []))
unfolding lex lex_from scan_one scan_pair scan_word quoted
lex-string = refl

lex-InOrder_example :
    (tokens : List Token) × (ds : List LexDiagnostic) × (lex classes assignment
      ≡ some (outcome tokens ds))
    × InOrder 0 (length assignment) tokens
lex-InOrder_example = lex-InOrder classes assignment
