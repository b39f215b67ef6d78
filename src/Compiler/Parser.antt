-- ===== src/Compiler/Parser.antt =====
-- `Parser` of crates/compiler/src/lib.rs: recursive descent on the tokens from the cursor on.
use ppsc.Base.{
  ℕ, zero, suc, Bool, true, false, Option, none, some, [], ◌∷◌, String, ◌==◌, if◌then◌else◌,
  string_eq,
}
use ppsc.Manifest.Types.{ValueType}
use ppsc.Compiler.Syntax
use ppsc.Compiler.Syntax.{
  parse_type, TokenKind, ident, number, symbol, eof, Token, Tokens, Expression, Arguments,
  no_arguments, argument, Statement, Param, StateDecl, Function, Program, Message,
  expected_declaration, unexpected_input, expected_expression, expected_identifier, unknown_type,
  expected_keyword, expected_symbol, CompileError,
}
use ppsc.Compiler.Outcome.{Outcome, done, failed, panicked, out_of_fuel, bind}
use Prim.Native.String.{String}

-- A parser reads an `A` and returns it with the tokens from the new cursor on.
abbrev pub Parser : Type 0 → Type 0
Parser A = Tokens → Outcome (A × Tokens)

abbrev pub pure : {A : Type 0} → A → Parser A
pure a ts = done (a, ts)

module _ {A B : Type 0} where
  infixl 1 ◌>>=◌ ◌>>◌
  abbrev pub ◌>>=◌ : Parser A → (A → Parser B) → Parser B
  p >>= f = λ ts. bind (p ts) λ (a, rest). f a rest

  abbrev pub ◌>>◌ : Parser A → Parser B → Parser B
  p >> q = p >>= λ _. q

unfoldable pub fail_at : {A : Type 0} → Message → ℕ → Outcome A
fail_at message offset = failed (record { message = message; offset = offset })

-- `current` reads the token at the cursor, which panics past the end.
unfoldable pub fail : {A : Type 0} → Message → Parser A
unfolding fail_at
fail message [] = panicked
fail message (t ∷ ts) = fail_at message t.offset

abbrev pub is_symbol_kind : ℕ → TokenKind → Bool
is_symbol_kind c (ident s) = false
is_symbol_kind c (number s) = false
is_symbol_kind c (symbol d) = d == c
is_symbol_kind c eof = false

abbrev pub is_keyword_kind : String → TokenKind → Bool
is_keyword_kind word (ident s) = string_eq.beq s word
is_keyword_kind word (number s) = false
is_keyword_kind word (symbol d) = false
is_keyword_kind word eof = false

abbrev pub is_eof_kind : TokenKind → Bool
is_eof_kind (ident s) = false
is_eof_kind (number s) = false
is_eof_kind (symbol d) = false
is_eof_kind eof = true

unfoldable pub consume_symbol : ℕ → Parser Bool
consume_symbol c [] = panicked
consume_symbol c (t ∷ ts) =
    if is_symbol_kind c t.kind then done (true, ts) else done (false, t ∷ ts)

unfoldable pub parse_symbol : ℕ → Parser (Unit {0})
unfolding consume_symbol fail
parse_symbol c = do found ← consume_symbol c; if found then pure tt else fail (expected_symbol c)

unfoldable pub consume_keyword : String → Parser Bool
consume_keyword word [] = panicked
consume_keyword word (t ∷ ts) =
    if is_keyword_kind word t.kind then done (true, ts) else done (false, t ∷ ts)

unfoldable pub parse_keyword : String → Parser (Unit {0})
unfolding consume_keyword fail
parse_keyword word = do
  found ← consume_keyword word
  if found then pure tt else fail (expected_keyword word)

abbrev ident_of : Token → Tokens → Outcome (String × Tokens)
ident_of t ts = elim t.kind [ ident s ↦ done (s, ts) | _ ↦ fail_at expected_identifier t.offset ]

unfoldable pub parse_ident : Parser String
unfolding fail_at
parse_ident [] = panicked
parse_ident (t ∷ ts) = ident_of t ts

abbrev pub type_named : Option ValueType → String → ℕ → Parser ValueType
type_named none s offset ts = fail_at (unknown_type s) offset
type_named (some ty) s offset ts = done (ty, ts)

unfoldable pub value_type : Parser ValueType
unfolding parse_ident fail_at parse_type
value_type [] = panicked
value_type (t ∷ ts) =
    bind (parse_ident (t ∷ ts)) λ (s, rest). type_named (parse_type s) s t.offset rest

-- The body of a call is a loop, `arguments`, which the code enters unless `)` follows.
unfoldable mutual
  unfolding fail_at consume_symbol parse_symbol

  pub expression : ℕ → Parser Expression
  expression zero ts = out_of_fuel
  expression (suc f) [] = panicked
  expression (suc f) (t ∷ ts) = elim t.kind [
    | number s ↦ done (Syntax.Expression.number s, ts)
    | ident s ↦ after_name f s ts
    | symbol c ↦ fail_at expected_expression t.offset
    | eof ↦ fail_at expected_expression t.offset
  ]

  pub after_name : ℕ → String → Parser Expression
  after_name zero s ts = out_of_fuel
  after_name (suc f) s ts = bind (consume_symbol b'(' ts) λ (called, rest). elim called [
    | true ↦ bind (consume_symbol b')' rest) λ (closed, rest). elim closed [
      | true ↦ done (Syntax.call s no_arguments, rest)
      | false ↦ bind (arguments f rest) λ (arguments, rest). done (Syntax.call s arguments, rest)
    ]
    | false ↦ bind (consume_symbol b'[' rest) λ (indexed, rest). elim indexed [
      | true ↦
          bind (expression f rest) λ (key, rest).
            bind (parse_symbol b']' rest) λ (_, rest). done (Syntax.index s key, rest)
      | false ↦ done (Syntax.Expression.name s, rest)
    ]
  ]

  pub arguments : ℕ → Parser Arguments
  arguments zero ts = out_of_fuel
  arguments (suc f) ts = bind (expression f ts) λ (e, rest).
      bind (consume_symbol b')' rest) λ (closed, rest). elim closed [
        | true ↦ done (argument e no_arguments, rest)
        | false ↦
            bind (parse_symbol b',' rest)
              λ (_, rest). bind (arguments f rest) λ (more, rest). done (argument e more, rest)
      ]
