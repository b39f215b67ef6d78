-- ===== src/Compiler/Declarations.antt =====
-- The statements and declarations of `Parser` in crates/compiler/src/lib.rs, and `Parser::parse`.
use ppsc.Base.{
  ℕ, zero, suc, ◌+◌, ◌*◌, Bool, true, false, Option, none, some, List, [], ◌∷◌, ◌++◌, if◌then◌else◌,
  length,
}
use ppsc.Base.Bytes.{Bytes}
use ppsc.Manifest.Types.{ValueType}
use ppsc.Compiler.Syntax.{
  parse_type, TokenKind, ident, Tokens, Statement, local, assign, require, return_value, evaluate,
  Param, StateDecl, Function, Program, expected_declaration, unexpected_input,
}
use ppsc.Compiler.Outcome.{Outcome, done, panicked, out_of_fuel, bind}
use ppsc.Compiler.Lexer.{lex}
use ppsc.Compiler.Parser.{
  Parser, pure, ◌>>=◌, ◌>>◌, fail, is_eof_kind, consume_symbol, parse_symbol, consume_keyword,
  parse_keyword, parse_ident, value_type, expression,
}

abbrev pub key_type : Bool → Parser (Option ValueType)
key_type true = do key ← value_type; parse_symbol b']'; pure (some key)
key_type false = pure none

unfoldable pub state_decl : Parser StateDecl
unfolding value_type parse_ident consume_symbol parse_symbol
state_decl = do
  ty ← value_type
  name ← parse_ident
  keyed ← consume_symbol b'['
  key ← key_type keyed
  parse_symbol b';'
  pure (record { name = name; ty = ty; key_ty = key })

unfoldable pub param : Parser Param
unfolding value_type parse_ident
param = do ty ← value_type; name ← parse_ident; pure (record { name = name; ty = ty })

unfoldable pub more_params : ℕ → Parser (List Param)
unfolding param consume_symbol parse_symbol
more_params zero = λ ts. out_of_fuel
more_params (suc f) = do
  p ← param
  closed ← consume_symbol b')'
  elim closed [
    | true ↦ pure (p ∷ [])
    | false ↦ do parse_symbol b','; ps ← more_params f; pure (p ∷ ps)
  ]

abbrev pub requirement : ℕ → Parser Statement
requirement f = do
  parse_symbol b'('
  value ← expression f
  parse_symbol b')'
  parse_symbol b';'
  pure (require value)

abbrev pub returned : ℕ → Parser Statement
returned f = do value ← expression f; parse_symbol b';'; pure (return_value value)

abbrev pub local_declaration : ℕ → ValueType → Parser Statement
local_declaration f ty = do
  name ← parse_ident
  parse_symbol b'='
  value ← expression f
  parse_symbol b';'
  pure (local ty name value)

abbrev pub assigned : ℕ → Parser Statement
assigned f = do
  left ← expression f
  assigns ← consume_symbol b'='
  if assigns
      then (do right ← expression f; parse_symbol b';'; pure (assign left right))
      else (do parse_symbol b';'; pure (evaluate left))

-- The type that an identifier at the cursor names, which is then passed over.
abbrev pub named_type : TokenKind → Option ValueType
named_type kind = elim kind [ ident s ↦ parse_type s | _ ↦ none ]

abbrev pub local_or_assigned : ℕ → Option ValueType → Parser Statement
local_or_assigned f none ts = assigned f ts
local_or_assigned f (some ty) [] = panicked
local_or_assigned f (some ty) (t ∷ ts) = local_declaration f ty ts

abbrev pub unreserved_statement : ℕ → Parser Statement
unreserved_statement f [] = panicked
unreserved_statement f (t ∷ ts) = local_or_assigned f (named_type t.kind) (t ∷ ts)

unfoldable pub statement : ℕ → Parser Statement
unfolding consume_keyword parse_ident parse_symbol consume_symbol parse_type expression
statement f = do
  requires ← consume_keyword "require"
  if requires then requirement f else (do
    returns ← consume_keyword "return"
    if returns then returned f else unreserved_statement f)

unfoldable pub statements : ℕ → Parser (List Statement)
unfolding consume_symbol statement
statements zero = λ ts. out_of_fuel
statements (suc f) = do
  closed ← consume_symbol b'}'
  elim closed [ true ↦ pure [] | false ↦ do s ← statement f; rest ← statements f; pure (s ∷ rest) ]

unfoldable pub params : ℕ → Parser (List Param)
unfolding consume_symbol more_params
params f = do closed ← consume_symbol b')'; if closed then pure [] else more_params f

unfoldable pub function : ℕ → Parser Function
unfolding parse_ident parse_symbol params parse_keyword statements
function f = do
  name ← parse_ident
  parse_symbol b'('
  ps ← params f
  parse_keyword "public"
  parse_symbol b'{'
  body ← statements f
  pure (record { name = name; params = ps; body = body })

unfoldable pub declarations :
    ℕ → List StateDecl → List Function → Parser (List StateDecl × List Function)
unfolding consume_symbol consume_keyword state_decl function fail
declarations zero states functions = λ ts. out_of_fuel
declarations (suc f) states functions = do
  closed ← consume_symbol b'}'
  elim closed [
    | true ↦ pure (states, functions)
    | false ↦ do
      private ← consume_keyword "private"
      elim private [
        | true ↦ do s ← state_decl; declarations f (states ++ s ∷ []) functions
        | false ↦ do
          starts ← consume_keyword "function"
          elim starts [
            | true ↦ do g ← function f; declarations f states (functions ++ g ∷ [])
            | false ↦ fail expected_declaration
          ]
      ]
  ]

abbrev pub end_of_input : Parser (Unit {0})
end_of_input [] = panicked
end_of_input (t ∷ ts) =
    if is_eof_kind t.kind then done (tt, t ∷ ts) else fail unexpected_input (t ∷ ts)

unfoldable pub program : ℕ → Parser Program
unfolding parse_keyword parse_ident parse_symbol declarations fail
program f = do
  parse_keyword "privacy"
  parse_keyword "contract"
  name ← parse_ident
  parse_symbol b'{'
  (states, functions) ← declarations f [] []
  end_of_input
  pure (record { name = name; states = states; functions = functions })

-- Three units for each token are enough, and four more.
unfoldable pub parse : Tokens → Outcome Program
unfolding program
parse ts = bind (program (3 * length ts + 4) ts) λ (p, rest). done p

-- `Parser::new(source)?.parse()`
unfoldable pub parse_source : Bytes → Outcome Program
unfolding lex parse
parse_source source = bind (lex source) parse
