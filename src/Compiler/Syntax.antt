-- ===== src/Compiler/Syntax.antt =====
-- The tokens, the syntax trees and the errors of crates/compiler/src/lib.rs, and the tables of its
-- value types.
use ppsc.Base.{ℕ, ◌||◌, Option, none, some, List, String, if◌then◌else◌, string_eq}
use Prim.Native.String.{String}
use ppsc.Manifest.Types.{
  ValueType, address, uint, fhe_uint, fhe_bool, sint, secret_bool, opened, void, Representation,
  public, fhe, secret_sharing,
}

-- `ValueType::parse`
unfoldable pub parse_type : String → Option ValueType
parse_type name =
    if string_eq.beq name "address"
    then some address
    else if string_eq.beq name "uint" || string_eq.beq name "uint256"
    then some uint
    else if string_eq.beq name "FheUint"
    then some fhe_uint
    else if string_eq.beq name "Sint"
    then some sint
    else if string_eq.beq name "SecretBool"
    then some secret_bool
    else none

unfoldable pub abi_type : ValueType → String
abi_type address = "address"
abi_type uint = "uint256"
abi_type fhe_uint = "bytes32"
abi_type fhe_bool = "bytes32"
abi_type sint = "bytes32"
abi_type secret_bool = "bytes32"
abi_type opened = "bytes32"
abi_type void = ""

unfoldable pub representation_of : ValueType → Representation
representation_of address = public
representation_of uint = public
representation_of fhe_uint = fhe
representation_of fhe_bool = fhe
representation_of sint = secret_sharing
representation_of secret_bool = secret_sharing
representation_of opened = public
representation_of void = public

-- A symbol is the number of its character.
pub data TokenKind : Type 0 where
  ident number : String → TokenKind
  symbol : ℕ → TokenKind
  eof : TokenKind

pub record Token : Type 0 where
  pub kind : TokenKind
  pub offset : ℕ

abbrev pub Tokens : Type 0
Tokens = List Token

-- `Arguments` is the list inside a call.
mutual
  pub data Expression : Type 0 where
    name number : String → Expression
    index : String → Expression → Expression
    call : String → Arguments → Expression

  pub data Arguments : Type 0 where
    no_arguments : Arguments
    argument : Expression → Arguments → Arguments

pub data Statement : Type 0 where
  local : ValueType → String → Expression → Statement
  assign : Expression → Expression → Statement
  require : Expression → Statement
  return_value : Expression → Statement
  evaluate : Expression → Statement

pub record Param : Type 0 where
  pub name : String
  pub ty : ValueType

pub record StateDecl : Type 0 where
  pub name : String
  pub ty : ValueType
  pub key_ty : Option ValueType

pub record Function : Type 0 where
  pub name : String
  pub params : List Param
  pub body : List Statement

pub record Program : Type 0 where
  pub name : String
  pub states : List StateDecl
  pub functions : List Function

-- The messages of the errors, with the values that they show.
pub data Message : Type 0 where
  unexpected_character : ℕ → Message
  expected_declaration unexpected_input expected_expression expected_identifier : Message
  unknown_type expected_keyword : String → Message
  expected_symbol : ℕ → Message
  unknown_value unknown_operation unknown_private_state : String → Message
  only_opened_returned scalar_indexed mapping_not_indexed not_assignable h2s_argument : Message
  wrong_type : String → ValueType → ValueType → Message
  wrong_count : String → ℕ → ℕ → Message
  wrong_argument : ℕ → String → ValueType → ValueType → Message
  state_type state_key_type duplicate_state : String → Message
  in_function : String → Message → Message

pub record CompileError : Type 0 where
  pub message : Message
  pub offset : ℕ
