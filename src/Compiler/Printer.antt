-- ===== src/Compiler/Printer.antt =====
-- The tokens that spell the syntax trees of crates/compiler/src/lib.rs.
mod Expressions
mod Statements
pub mod Programs
use ppsc.Base.{
  ℕ, Bool, true, false, ◌&&◌, not, Option, none, some, List, [], ◌∷◌, ◌++◌, String, length,
  length-append, arith, ◌≡◌, ◌+◌,
}
use ppsc.Manifest.Types.{
  ValueType, address, uint, fhe_uint, fhe_bool, sint, secret_bool, opened, void,
}
use ppsc.Compiler.Syntax
use ppsc.Compiler.Syntax.{
  TokenKind, ident, symbol, eof, Token, Tokens, Expression, Arguments, name, index, call,
  no_arguments, argument, Statement, local, assign, require, return_value, evaluate, Param,
  StateDecl, Function, Program,
}
use Prim.Native.String.{String}

abbrev pub Kinds : Type 0
Kinds = List TokenKind

pub length-kinds : (xs ys : Kinds) → length (xs ++ ys) ≡ length xs + length ys
length-kinds xs ys = length-append xs ys

pub ruleset lengths = (arith, length-kinds)

-- The tokens of these kinds, at offsets given by the number of the tokens that follow.
abbrev pub stamp : (ℕ → ℕ) → Kinds → Tokens
stamp o [] = []
stamp o (k ∷ ks) = record { kind = k; offset = o (length ks) } ∷ stamp o ks

unfoldable mutual
  pub print_expression : Expression → Kinds
  print_expression (name n) = ident n ∷ []
  print_expression (Syntax.Expression.number v) = Syntax.TokenKind.number v ∷ []
  print_expression (index n key) =
      ident n ∷ symbol b'[' ∷ (print_expression key ++ symbol b']' ∷ [])
  print_expression (call n args) = ident n ∷ symbol b'(' ∷ print_arguments args

  -- With the closing bracket.
  pub print_arguments : Arguments → Kinds
  print_arguments no_arguments = symbol b')' ∷ []
  print_arguments (argument e more) = print_expression e ++ print_more more

  pub print_more : Arguments → Kinds
  print_more no_arguments = symbol b')' ∷ []
  print_more (argument e more) = symbol b',' ∷ (print_expression e ++ print_more more)

-- The types that a source can name, and their names.
abbrev pub is_spelled : ValueType → Bool
is_spelled address = true
is_spelled uint = true
is_spelled fhe_uint = true
is_spelled fhe_bool = false
is_spelled sint = true
is_spelled secret_bool = true
is_spelled opened = false
is_spelled void = false

abbrev pub type_text : ValueType → String
type_text address = "address"
type_text uint = "uint256"
type_text fhe_uint = "FheUint"
type_text fhe_bool = "FheBool"
type_text sint = "Sint"
type_text secret_bool = "SecretBool"
type_text opened = "Opened"
type_text void = "Void"

unfoldable pub print_statement : Statement → Kinds
unfolding print_expression
print_statement (local ty n e) =
    ident (type_text ty) ∷ ident n ∷ symbol b'=' ∷ (print_expression e ++ symbol b';' ∷ [])
print_statement (assign left right) =
    print_expression left ++ symbol b'=' ∷ (print_expression right ++ symbol b';' ∷ [])
print_statement (require e) =
    ident "require" ∷ symbol b'(' ∷ (print_expression e ++ symbol b')' ∷ symbol b';' ∷ [])
print_statement (return_value e) = ident "return" ∷ (print_expression e ++ symbol b';' ∷ [])
print_statement (evaluate e) = print_expression e ++ symbol b';' ∷ []

unfoldable pub print_statements : List Statement → Kinds
unfolding print_statement
print_statements [] = symbol b'}' ∷ []
print_statements (s ∷ rest) = print_statement s ++ print_statements rest

unfoldable pub print_more_params : List Param → Kinds
print_more_params [] = symbol b')' ∷ []
print_more_params (p ∷ ps) =
    symbol b',' ∷ ident (type_text p.ty) ∷ ident p.name ∷ print_more_params ps

unfoldable pub print_params : List Param → Kinds
unfolding print_more_params
print_params [] = symbol b')' ∷ []
print_params (p ∷ ps) = ident (type_text p.ty) ∷ ident p.name ∷ print_more_params ps

abbrev pub print_key : Option ValueType → Kinds
print_key none = []
print_key (some ty) = symbol b'[' ∷ ident (type_text ty) ∷ symbol b']' ∷ []

unfoldable pub print_state : StateDecl → Kinds
print_state d = ident (type_text d.ty) ∷ ident d.name ∷ (print_key d.key_ty ++ symbol b';' ∷ [])

unfoldable pub print_states : List StateDecl → Kinds
unfolding print_state
print_states [] = []
print_states (d ∷ ds) = ident "private" ∷ (print_state d ++ print_states ds)

unfoldable pub print_function : Function → Kinds
unfolding print_params print_statements
print_function g =
    ident g.name
    ∷ symbol b'('
    ∷ (print_params g.params ++ ident "public" ∷ symbol b'{' ∷ print_statements g.body)

unfoldable pub print_functions : List Function → Kinds
unfolding print_function
print_functions [] = []
print_functions (g ∷ gs) = ident "function" ∷ (print_function g ++ print_functions gs)

unfoldable pub print_program : Program → Kinds
unfolding print_states print_functions
print_program p =
    ident "privacy"
    ∷ ident "contract"
    ∷ ident p.name
    ∷ symbol b'{'
    ∷ (print_states p.states ++ (print_functions p.functions ++ symbol b'}' ∷ eof ∷ []))
