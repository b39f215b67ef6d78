-- ===== src/Compiler/Totality/Expressions.antt =====
-- Names, symbols, types and expressions: their parsers of crates/compiler/src/lib.rs end on every input.
use ppsc.Base.{
  none, some, Option, ℕ, zero, suc, ◌+◌, ◌≤◌, ◌<◌, ◌*◌, ◌≡◌, refl, Bool, true, false, [], ◌∷◌,
  length, arith, String,
}
use ppsc.Compiler.Syntax.{Token, Tokens, TokenKind, ident, number, symbol, eof}
use ppsc.Compiler.Outcome.{Finishes, with_value, with_error, Finishes-bind, Finishes-choice}
use ppsc.Compiler.Parser.{
  Parser, is_eof_kind, is_symbol_kind, is_keyword_kind, fail, fail_at, consume_symbol, parse_symbol,
  consume_keyword, parse_keyword, parse_ident, value_type, expression, after_name, arguments,
}
use ppsc.Compiler.Totality.Tokens.{EndsEof}
use ppsc.Compiler.Syntax.{Message}
use ppsc.Compiler.Outcome.{Finishes-if, Finishes-weaken}
use ppsc.Base.{if◌then◌else◌}
use ppsc.Compiler.Syntax.{expected_keyword, expected_symbol}
use ppsc.Compiler.Syntax.{parse_type}
use ppsc.Compiler.Outcome.{done}
use ppsc.Base.{Option}
use ppsc.Manifest.Types.{ValueType}
use ppsc.Compiler.Parser.{type_named}

-- The rest ends with the end of the input, and is shorter than `n` by what the value tells.
abbrev pub Took : {A : Type 0} → (A → ℕ) → ℕ → A × Tokens → Type 0
Took k n (a, rest) = (length rest + k a ≤ n) × EndsEof rest

abbrev pub Total : {A : Type 0} → (A → ℕ) → Parser A → Type 0
Total k p = (ts : Tokens) → EndsEof ts → Finishes (Took k (length ts)) (p ts)

abbrev pub one_if : Bool → ℕ
one_if true = 1
one_if false = 0

abbrev pub one_token : {A : Type 0} → A → ℕ
one_token a = 1

pub EndsEof-tail :
    (t : Token) (ts : Tokens) → is_eof_kind t.kind ≡ false → EndsEof (t ∷ ts) → EndsEof ts
EndsEof-tail t [] other h = absurd (ground arith)
EndsEof-tail t (u ∷ ts) other h = h

symbol_not_eof : (c : ℕ) (k : TokenKind) → is_symbol_kind c k ≡ true → is_eof_kind k ≡ false
symbol_not_eof c (ident s) h = refl
symbol_not_eof c (number s) h = refl
symbol_not_eof c (symbol d) h = refl
symbol_not_eof c eof h = absurd (ground arith)

keyword_not_eof : (w : String) (k : TokenKind) → is_keyword_kind w k ≡ true → is_eof_kind k ≡ false
keyword_not_eof w (ident s) h = refl
keyword_not_eof w (number s) h = refl
keyword_not_eof w (symbol d) h = refl
keyword_not_eof w eof h = absurd (ground arith)

pub consume_symbol-Total : (c : ℕ) → Total one_if (consume_symbol c)
unfolding consume_symbol
consume_symbol-Total c [] e = absurd (ground arith)
consume_symbol-Total c (t ∷ ts) e =
    Finishes-if (is_symbol_kind c t.kind)
      (λ found. with_value (omega arith, EndsEof-tail t ts (symbol_not_eof c t.kind found) e))
      λ _. with_value (omega arith, e)

pub consume_keyword-Total : (w : String) → Total one_if (consume_keyword w)
unfolding consume_keyword
consume_keyword-Total w [] e = absurd (ground arith)
consume_keyword-Total w (t ∷ ts) e =
    Finishes-if (is_keyword_kind w t.kind)
      (λ found. with_value (omega arith, EndsEof-tail t ts (keyword_not_eof w t.kind found) e))
      λ _. with_value (omega arith, e)

pub Fails :
    {A : Type 0} {P : A × Tokens → Type 0} (m : Message) (ts : Tokens)
    → EndsEof ts
    → Finishes P (fail m ts)
unfolding fail
Fails m [] e = absurd (ground arith)
Fails m (t ∷ ts) e = with_error

-- A test that consumed its token.
pub took_one : (b : Bool) {r n : ℕ} → r + one_if b ≤ n → b ≡ true → suc r ≤ n
took_one b h taken = ground (arith, h, taken)

pub parse_symbol-Total : (c : ℕ) → Total one_token (parse_symbol c)
unfolding parse_symbol
parse_symbol-Total c ts e = Finishes-bind (consume_symbol-Total c ts e) λ (found, rest) (short, e').
    elim found
        as (λ b.
          length rest + one_if b ≤ length ts
          → Finishes (Took one_token (length ts))
              ((if b then (λ ts. done (tt, ts)) else fail (expected_symbol c)) rest)) [
                | true ↦ λ h. with_value (h, e')
                | false ↦ λ h. Fails _ rest e'
              ]
      short

pub parse_keyword-Total : (w : String) → Total one_token (parse_keyword w)
unfolding parse_keyword
parse_keyword-Total w ts e =
    Finishes-bind (consume_keyword-Total w ts e) λ (found, rest) (short, e').
      elim found
          as (λ b.
            length rest + one_if b ≤ length ts
            → Finishes (Took one_token (length ts))
                ((if b then (λ ts. done (tt, ts)) else fail (expected_keyword w)) rest)) [
                  | true ↦ λ h. with_value (h, e')
                  | false ↦ λ h. Fails _ rest e'
                ]
        short

-- A token by its kind.
abbrev at_kind : TokenKind → ℕ → Tokens → Tokens
at_kind kind offset ts = record { kind = kind; offset = offset } ∷ ts

ident-Finishes :
    (k : TokenKind) (o : ℕ) (ts : Tokens)
    → EndsEof (at_kind k o ts)
    → Finishes (Took one_token (suc (length ts))) (parse_ident (at_kind k o ts))
unfolding parse_ident
ident-Finishes (ident s) o ts e =
    with_value (omega arith, EndsEof-tail (record { kind = ident s; offset = o }) ts refl e)
ident-Finishes (number s) o ts e = with_error
ident-Finishes (symbol c) o ts e = with_error
ident-Finishes eof o ts e = with_error

pub parse_ident-Total : Total one_token parse_ident
parse_ident-Total [] e = absurd (ground arith)
parse_ident-Total (t ∷ ts) e = ident-Finishes t.kind t.offset ts e

named-Finishes :
    (o : Option ValueType) (s : String) (offset : ℕ) (n : ℕ) (ts : Tokens)
    → Took one_token n (s, ts)
    → Finishes (Took one_token n) (type_named o s offset ts)
unfolding fail_at
named-Finishes none s offset n ts took = with_error
named-Finishes (some ty) s offset n ts took = with_value took

pub value_type-Total : Total one_token value_type
unfolding value_type
value_type-Total [] e = absurd (ground arith)
value_type-Total (t ∷ ts) e =
    Finishes-bind (parse_ident-Total (t ∷ ts) e)
      λ (s, rest) took. named-Finishes (parse_type s) s t.offset (suc (length ts)) rest took

kind-Finishes :
    (f : ℕ) (k : TokenKind) (o : ℕ) (ts : Tokens)
    → EndsEof (at_kind k o ts)
    → ((s : String) → EndsEof ts → Finishes (Took (λ _. 0) (length ts)) (after_name f s ts))
    → Finishes (Took one_token (suc (length ts))) (expression (suc f) (at_kind k o ts))
unfolding expression after_name
kind-Finishes f (ident s) o ts e next =
    Finishes-weaken (next s (EndsEof-tail (record { kind = ident s; offset = o }) ts refl e))
      λ (a, rest) (short, e'). (omega arith, e')
kind-Finishes f (number s) o ts e next =
    with_value (omega arith, EndsEof-tail (record { kind = number s; offset = o }) ts refl e)
kind-Finishes f (symbol c) o ts e next = with_error
kind-Finishes f eof o ts e next = with_error

mutual
  unfolding expression after_name arguments

  pub expression-Finishes :
      (f : ℕ) (ts : Tokens)
      → EndsEof ts
      → 3 * length ts < f
      → Finishes (Took one_token (length ts)) (expression f ts)
  expression-Finishes zero ts e h = absurd (omega arith)
  expression-Finishes (suc f) [] e h = absurd (ground arith)
  expression-Finishes (suc f) (t ∷ ts) e h =
      kind-Finishes f t.kind t.offset ts e λ s e'. after_name-Finishes f s ts e' (omega arith)

  after_name-Finishes :
      (f : ℕ) (s : String) (ts : Tokens)
      → EndsEof ts
      → 3 * length ts + 2 < f
      → Finishes (Took (λ _. 0) (length ts)) (after_name f s ts)
  after_name-Finishes zero s ts e h = absurd (omega arith)
  after_name-Finishes (suc f) s ts e h =
      Finishes-bind (consume_symbol-Total b'(' ts e) λ (called, t1) (l1, e1).
        Finishes-choice called
          (λ taken. Finishes-bind (consume_symbol-Total b')' t1 e1) λ (closed, t2) (l2, e2).
            Finishes-choice closed
              (λ _. with_value (omega (arith, took_one called l1 taken, l2), e2))
              λ _.
                Finishes-bind
                  (arguments-Finishes f t2 e2 (omega (arith, took_one called l1 taken, l2)))
                  λ (xs, t3) (l3, e3).
                    with_value (omega (arith, took_one called l1 taken, l2, l3), e3))
          λ _. Finishes-bind (consume_symbol-Total b'[' t1 e1) λ (indexed, t2) (l2, e2).
            Finishes-choice indexed
              (λ taken.
                Finishes-bind
                  (expression-Finishes f t2 e2 (omega (arith, took_one indexed l2 taken, l1)))
                  λ (key, t3) (l3, e3).
                    Finishes-bind (parse_symbol-Total b']' t3 e3)
                      λ (_, t4) (l4, e4). with_value (omega (arith, l1, l2, l3, l4), e4))
              λ _. with_value (omega (arith, l1, l2), e2)

  arguments-Finishes :
      (f : ℕ) (ts : Tokens)
      → EndsEof ts
      → 3 * length ts + 1 < f
      → Finishes (Took one_token (length ts)) (arguments f ts)
  arguments-Finishes zero ts e h = absurd (omega arith)
  arguments-Finishes (suc f) ts e h =
      Finishes-bind (expression-Finishes f ts e (omega arith)) λ (a, t1) (l1, e1).
        Finishes-bind (consume_symbol-Total b')' t1 e1) λ (closed, t2) (l2, e2).
          Finishes-choice closed (λ _. with_value (omega (arith, l1, l2), e2))
            λ _. Finishes-bind (parse_symbol-Total b',' t2 e2) λ (_, t3) (l3, e3).
              Finishes-bind (arguments-Finishes f t3 e3 (omega (arith, l1, l2, l3)))
                λ (more, t4) (l4, e4). with_value (omega (arith, l1, l2, l3, l4), e4)
