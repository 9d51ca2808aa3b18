-- ===== src/Lexer/Spans.antt =====
-- foresee/lexer.py: where tokens stand, and that the loop ends.
use Prim.Native.Char.{Char}
use mathlib.Core.Path.{subst}
use mathlib.Core.Option.{map as map_option}
use project_f.Base.{
  ℕ, zero, suc, ◌+◌, ◌≤◌, ◌<◌, nat_eq, ◌≡◌, refl, ap, Bool, true, false, Bool-cases, inl, inr, ◌&&◌,
  ◌||◌, Option, none, some, List, [], ◌∷◌, ◌++◌, length, if◌then◌else◌, arith,
}
use project_f.Parser.{Token, TokenKind}
use project_f.Lexer.{
  f1001, make_span, Place, Scanned, is_char, is_blank, is_double, is_punctuation, forward,
  next_line, moved, token_at, run_of, Quoted, quoted_end, mapping, Part, closing, broken, escape,
  plain, part_of, add_char, add_escape, quoted, string_at, word_at, Classes, scan_word, not_newline,
  comment_at, scan_pair, scan_one, Lexed, prepend, end_of_file, lex_from, start_place, lex, outcome,
  outcome_of, LexDiagnostic,
}

-- The tokens stand from a on and end at b at the latest, one after another.
abbrev pub InOrder : ℕ → ℕ → List Token → Type 0
InOrder a b [] = a ≤ b
InOrder a b (t ∷ ts) = (a ≤ t.span.start) × (t.span.start ≤ t.span.end) × InOrder t.span.end b ts

InOrder-le : (a b c : ℕ) (ts : List Token) → a ≤ b → InOrder b c ts → InOrder a c ts
InOrder-le a b c [] h k = omega (arith, h, k)
InOrder-le a b c (t ∷ ts) h (k, l, m) = (omega (arith, h, k), l, m)

InOrder-++ :
    (a b c : ℕ) (ts us : List Token) → InOrder a b ts → InOrder b c us → InOrder a c (ts ++ us)
InOrder-++ a b c [] us h k = InOrder-le a b c us h k
InOrder-++ a b c (t ∷ ts) us (h, k, l) m = (h, k, InOrder-++ t.span.end b c ts us l m)

-- From n characters at p on, m characters are left at q.
abbrev Moves : ℕ → ℕ → ℕ → ℕ → Type 0
Moves p n q m = (q + m ≡ p + n) × (p ≤ q)

run_of-Moves :
    (test : Char → Bool) (cs : List Char) (p : Place)
    → Moves p.index (length cs) (run_of test cs p).place.index (length (run_of test cs p).rest)
run_of-Moves test [] p = (refl, omega arith)
run_of-Moves test (c ∷ cs) p =
    let (h, k) = run_of-Moves test cs (forward p) in
    elim (Bool-cases (test c)) [
      | inl e ↦ rw (e) (omega (arith, h), omega (arith, k))
      | inr e ↦ rw (e) (refl, omega arith)
    ]

quoted-Moves :
    (escaped : Bool) (cs : List Char) (p : Place)
    → Moves p.index
        (length cs)
        (quoted escaped cs p).place.index
        (length (quoted escaped cs p).rest)
unfolding quoted
quoted-Moves true [] p = (refl, omega arith)
quoted-Moves false [] p = (refl, omega arith)
quoted-Moves true (c ∷ cs) p =
    let (h, k) = quoted-Moves false cs (forward p) in
    escaped-Moves (mapping c) (quoted false cs (forward p)) h k
  where
    escaped-Moves :
        (d : Option Char) (q : Quoted)
        → q.place.index + length q.rest ≡ p.index + 1 + length cs
        → p.index + 1 ≤ q.place.index
        → Moves p.index
            (suc (length cs))
            (add_escape c d p q).place.index
            (length (add_escape c d p q).rest)
    escaped-Moves (some d) q h k = (omega (arith, h), omega (arith, k))
    escaped-Moves none q h k = (omega (arith, h), omega (arith, k))
quoted-Moves false (c ∷ cs) p = part-Moves (part_of c) (λ e. quoted-Moves e cs (forward p))
  where
    part : Part → Quoted
    part m = elim m [
      | closing ↦ quoted_end true cs (forward p)
      | broken ↦ quoted_end false (c ∷ cs) p
      | escape ↦ quoted true cs (forward p)
      | plain ↦ add_char c (quoted false cs (forward p))
    ]

    Rest : Type 0
    Rest =
        (e : Bool)
        → Moves (p.index + 1) (length cs) (quoted e cs (forward p)).place.index
            (length (quoted e cs (forward p)).rest)

    part-Moves :
        (m : Part)
        → Rest
        → Moves p.index (suc (length cs)) (part m).place.index (length (part m).rest)
    part-Moves closing k = (omega arith, omega arith)
    part-Moves broken k = (refl, omega arith)
    part-Moves escape r = let (h, k) = r true in (omega (arith, h), omega (arith, k))
    part-Moves plain r = let (h, k) = r false in (omega (arith, h), omega (arith, k))

-- One step of the loop reads something, and its tokens stand in what it has read.
record Reads (p n : ℕ) (s : Scanned) : Type 0 where
  sums : s.place.index + length s.rest ≡ p + n
  grows : p < s.place.index
  stand : InOrder p s.place.index s.tokens

Reads-if :
    (p n : ℕ) (b : Bool) (s t : Scanned)
    → (b ≡ true → Reads p n s)
    → Reads p n t
    → Reads p n (if b then s else t)
Reads-if p n true s t h k = h refl
Reads-if p n false s t h k = k

moved-Reads :
    (cs : List Char) (p q : Place)
    → q.index ≡ p.index + 1
    → Reads p.index (suc (length cs)) (moved cs q)
moved-Reads cs p q h = record {
  sums = omega (arith, h);
  grows = omega (arith, h);
  stand = omega (arith, h);
}

token_at-Reads :
    (kind : TokenKind) (chars rest : List Char) (p q : Place) (n : ℕ)
    → q.index + length rest ≡ p.index + n
    → p.index < q.index
    → Reads p.index n (token_at kind chars p rest q)
token_at-Reads kind chars rest p q n h k = record {
  sums = h;
  grows = k;
  stand = (omega arith, omega (arith, k), omega arith);
}

unexpected-Reads :
    (cs : List Char) (p : Place) (ds : List LexDiagnostic)
    → Reads p.index
        (suc (length cs))
        (record { rest = cs; place = forward p; tokens = []; diagnostics = ds })
unexpected-Reads cs p ds = record { sums = omega arith; grows = omega arith; stand = omega arith }

comment_at-Reads :
    (test : Char → Bool) (c : Char) (cs : List Char) (p : Place)
    → test c ≡ true
    → Reads p.index (suc (length cs)) (comment_at (run_of test (c ∷ cs) p))
comment_at-Reads test c cs p e =
    let (h, k) = run_of-Moves test cs (forward p) in
    rw (e) (record { sums = omega (arith, h); grows = omega (arith, k); stand = omega (arith, k) })

slash-not_newline :
    (m n : ℕ) → nat_eq m 47 && nat_eq n 47 ≡ true → (if nat_eq m 10 then false else true) ≡ true
slash-not_newline m n h = ground arith

module _ (classes : Classes) where
  scan_word-Reads :
      (c : Char) (cs : List Char) (p : Place)
      → Reads p.index (suc (length cs)) (scan_word classes c cs p)
  unfolding scan_word
  scan_word-Reads c cs p =
      Reads-if _ _ (classes.is_alpha c || is_char 95 c) _ _
        (λ _. word-Reads TokenKind.ident (λ d. classes.is_alnum d || is_char 95 d))
        (Reads-if _ _ (classes.is_digit c) _ _ (λ _. word-Reads TokenKind.int classes.is_digit)
          (Reads-if _ _ (is_char 34 c) _ _
            (λ _. string-Reads (quoted false cs (forward p)) (quoted-Moves false cs (forward p)))
            (Reads-if _ _ (is_punctuation c) _ _
              (λ _.
                token_at-Reads TokenKind.punctuation (c ∷ []) cs p (forward p) _ (omega arith)
                  (omega arith))
              (unexpected-Reads cs p
                (record { code = f1001; span = make_span p (forward p) } ∷ [])))))
    where
      word-Reads :
          (kind : TokenKind) (test : Char → Bool)
          → Reads p.index (suc (length cs)) (word_at kind c p (run_of test cs (forward p)))
      word-Reads kind test =
          let (h, k) = run_of-Moves test cs (forward p) in
          record {
            sums = omega (arith, h);
            grows = omega (arith, k);
            stand = (omega arith, omega (arith, k), omega arith);
          }

      string-Reads :
          (q : Quoted)
          → Moves (p.index + 1) (length cs) q.place.index (length q.rest)
          → Reads p.index (suc (length cs)) (string_at p q)
      string-Reads q (h, k) =
          Reads-if _ _ q.closed _ _
            (λ _. record {
              sums = omega (arith, h);
              grows = omega (arith, k);
              stand = (omega arith, omega (arith, k), omega arith);
            })
            (record { sums = omega (arith, h); grows = omega (arith, k); stand = omega (arith, k) })

  scan_pair-Reads :
      (c : Char) (cs : List Char) (p : Place)
      → Reads p.index (suc (length cs)) (scan_pair classes c cs p)
  unfolding scan_pair
  scan_pair-Reads c [] p = scan_word-Reads c [] p
  scan_pair-Reads c (d ∷ cs) p =
      Reads-if _ _ (is_char 47 c && is_char 47 d) _ _
        (λ e. comment_at-Reads not_newline c (d ∷ cs) p (slash-not_newline _ _ e))
        (Reads-if _ _ (is_double c d) _ _
          (λ _.
            token_at-Reads TokenKind.punctuation (c ∷ d ∷ []) cs p (forward (forward p)) _
              (omega arith) (omega arith))
          (scan_word-Reads c (d ∷ cs) p))

  scan_one-Reads :
      (c : Char) (cs : List Char) (p : Place)
      → Reads p.index (suc (length cs)) (scan_one classes c cs p)
  unfolding scan_one
  scan_one-Reads c cs p =
      Reads-if _ _ (is_blank c) _ _ (λ _. moved-Reads cs p (forward p) refl)
        (Reads-if _ _ (is_char 10 c) _ _ (λ _. moved-Reads cs p (next_line p) refl)
          (scan_pair-Reads c cs p))

  lex_from-InOrder :
      (fuel : ℕ) (cs : List Char) (p : Place)
      → length cs ≤ fuel
      → (l : Lexed) × (lex_from classes fuel cs p ≡ some l)
        × InOrder p.index (p.index + length cs) l.tokens
  unfolding lex_from
  lex_from-InOrder fuel [] p h = (end_of_file p, refl, (omega arith, omega arith, omega arith))
  lex_from-InOrder zero (c ∷ cs) p h = absurd (omega (arith, h))
  lex_from-InOrder (suc fuel) (c ∷ cs) p h =
      let r = scan_one-Reads c cs p in
      let (l, e, placed) =
        lex_from-InOrder fuel (scan_one classes c cs p).rest (scan_one classes c cs p).place
          (omega (arith, h, r.sums, r.grows)) in
      (
        prepend (scan_one classes c cs p) l,
        ap (map_option (prepend (scan_one classes c cs p))) e,
        joined (scan_one classes c cs p) l r.sums r.stand placed,
      )
    where
      joined :
          (s : Scanned) (l : Lexed)
          → s.place.index + length s.rest ≡ p.index + suc (length cs)
          → InOrder p.index s.place.index s.tokens
          → InOrder s.place.index (s.place.index + length s.rest) l.tokens
          → InOrder p.index (p.index + suc (length cs)) (s.tokens ++ l.tokens)
      joined s l h k m =
          subst (λ n. InOrder p.index n (s.tokens ++ l.tokens)) h
            (InOrder-++ p.index s.place.index _ s.tokens l.tokens k m)

  -- The lexer ends on every source, and its tokens stand one after another within the source; they
  -- are returned when there is no diagnostic.
  pub lex-InOrder :
      (source : List Char)
      → (tokens : List Token) × (ds : List LexDiagnostic) × (lex classes source
          ≡ some (outcome tokens ds))
        × InOrder 0 (length source) tokens
  unfolding lex
  lex-InOrder source =
      let (l, e, placed) = lex_from-InOrder (length source) source start_place (omega arith) in
      (
        l.tokens,
        l.diagnostics,
        ap (map_option outcome_of) e,
        subst (λ n. InOrder 0 n l.tokens) (omega arith) placed,
      )
