-- ===== src/Compiler/Printer/Statements.antt =====
-- Printed statements are read back by the parser of crates/compiler/src/lib.rs.
use ppsc.Base.{
  ℕ, zero, suc, ◌*◌, ◌<◌, ◌≡◌, refl, ◌∙◌, Bool, true, false, ◌&&◌, not, Option, none, some, List,
  [], ◌∷◌, ◌++◌, length, arith, String, string_eq, All,
}
use mathlib.Core.List.{append_assoc}
use Prim.Native.String.{String}
use ppsc.Manifest.Types.{
  ValueType, address, uint, fhe_uint, fhe_bool, sint, secret_bool, opened, void,
}
use ppsc.Compiler.Syntax
use ppsc.Compiler.Syntax.{
  parse_type, TokenKind, ident, symbol, eof, Token, Tokens, Expression, Arguments, name, index,
  call, no_arguments, argument, Statement, local, assign, require, return_value, evaluate,
}
use ppsc.Compiler.Outcome.{done}
use ppsc.Compiler.Parser.{consume_symbol, parse_symbol, consume_keyword, parse_ident}
use ppsc.Compiler.Declarations.{statement, statements, assigned}
use ppsc.Compiler.Printer.{
  Kinds, stamp, lengths, print_expression, print_arguments, is_spelled, type_text, print_statement,
  print_statements,
}
use ppsc.Compiler.Printer.Expressions.{expression-Reads}
use ppsc.Compiler.Printer.{lengths}
use ppsc.Base.{◌∙◌}

abbrev is_none : {A : Type 0} → Option A → Bool
is_none none = true
is_none (some a) = false

-- A word that no statement begins with.
abbrev pub is_free : String → Bool
is_free s =
    not (string_eq.beq s "require") && (not (string_eq.beq s "return") && is_none (parse_type s))

abbrev pub starts_free : Expression → Bool
starts_free (name n) = is_free n
starts_free (Syntax.Expression.number v) = true
starts_free (index n key) = is_free n
starts_free (call n xs) = is_free n

abbrev pub is_printable : Statement → Bool
is_printable (local ty n e) = is_spelled ty
is_printable (assign left right) = starts_free left
is_printable (require e) = true
is_printable (return_value e) = true
is_printable (evaluate e) = starts_free e

pub parse_type-type_text :
    (ty : ValueType) → is_spelled ty ≡ true → parse_type (type_text ty) ≡ some ty
unfolding parse_type
parse_type-type_text address h = refl
parse_type-type_text uint h = refl
parse_type-type_text fhe_uint h = refl
parse_type-type_text fhe_bool h = absurd (ground arith)
parse_type-type_text sint h = refl
parse_type-type_text secret_bool h = refl
parse_type-type_text opened h = absurd (ground arith)
parse_type-type_text void h = absurd (ground arith)

type_text_not_reserved :
    (ty : ValueType)
    → (string_eq.beq (type_text ty) "require" ≡ false)
      × (string_eq.beq (type_text ty) "return" ≡ false)
type_text_not_reserved address = (refl, refl)
type_text_not_reserved uint = (refl, refl)
type_text_not_reserved fhe_uint = (refl, refl)
type_text_not_reserved fhe_bool = (refl, refl)
type_text_not_reserved sint = (refl, refl)
type_text_not_reserved secret_bool = (refl, refl)
type_text_not_reserved opened = (refl, refl)
type_text_not_reserved void = (refl, refl)

module _ (o : ℕ → ℕ) (ks : Kinds) (f : ℕ) where
  free_word :
      (s : String)
      → is_free s ≡ true
      → statement f (stamp o (ident s ∷ ks)) ≡ assigned f (stamp o (ident s ∷ ks))
  unfolding statement consume_keyword
  free_word s h = ground arith

  reads_require :
      (e : Expression)
      → 3 * length (print_statement (require e)) < f
      → statement f (stamp o (print_statement (require e) ++ ks)) ≡ done (require e, stamp o ks)
  unfolding statement consume_keyword print_statement parse_symbol consume_symbol
  reads_require e h =
      rw append_assoc (
        rw (expression-Reads e o (symbol b')' ∷ symbol b';' ∷ ks) f (omega (lengths, h)) refl) refl)

  reads_return :
      (e : Expression)
      → 3 * length (print_statement (return_value e)) < f
      → statement f (stamp o (print_statement (return_value e) ++ ks))
        ≡ done (return_value e, stamp o ks)
  unfolding statement consume_keyword print_statement parse_symbol consume_symbol
  reads_return e h =
      rw append_assoc
        (rw (expression-Reads e o (symbol b';' ∷ ks) f (omega (lengths, h)) refl) refl)

  reads_local :
      (ty : ValueType) (n : String) (e : Expression)
      → is_spelled ty ≡ true
      → 3 * length (print_statement (local ty n e)) < f
      → statement f (stamp o (print_statement (local ty n e) ++ ks))
        ≡ done (local ty n e, stamp o ks)
  unfolding statement consume_keyword print_statement parse_symbol consume_symbol parse_ident
  reads_local ty n e spelled h =
      let (r1, r2) = type_text_not_reserved ty in
      rw append_assoc (
        rw r1 (
          rw r2 (
            rw (parse_type-type_text ty spelled)
              (rw (expression-Reads e o (symbol b';' ∷ ks) f (omega (lengths, h)) refl) refl))))

  reads_assigned :
      (l r : Expression)
      → 3 * length (print_statement (assign l r)) < f
      → assigned f (stamp o (print_statement (assign l r) ++ ks)) ≡ done (assign l r, stamp o ks)
  unfolding print_statement parse_symbol consume_symbol
  reads_assigned l r h = rw append_assoc (
      rw
        (expression-Reads l o (symbol b'=' ∷ ((print_expression r ++ symbol b';' ∷ []) ++ ks)) f
          (omega (lengths, h)) refl)
        (rw append_assoc
          (rw (expression-Reads r o (symbol b';' ∷ ks) f (omega (lengths, h)) refl) refl)))

  reads_evaluated :
      (e : Expression)
      → 3 * length (print_statement (evaluate e)) < f
      → assigned f (stamp o (print_statement (evaluate e) ++ ks)) ≡ done (evaluate e, stamp o ks)
  unfolding print_statement parse_symbol consume_symbol
  reads_evaluated e h =
      rw append_assoc
        (rw (expression-Reads e o (symbol b';' ∷ ks) f (omega (lengths, h)) refl) refl)

free_expression :
    (o : ℕ → ℕ) (f : ℕ) (e : Expression) (ks : Kinds)
    → starts_free e ≡ true
    → statement f (stamp o (print_expression e ++ ks))
      ≡ assigned f (stamp o (print_expression e ++ ks))
unfolding print_expression
free_expression o f (name n) ks h = free_word o ks f n h
free_expression o f (Syntax.Expression.number v) ks h = unfold statement consume_keyword in refl
free_expression o f (index n key) ks h =
    free_word o (symbol b'[' ∷ ((print_expression key ++ symbol b']' ∷ []) ++ ks)) f n h
free_expression o f (call n xs) ks h = free_word o (symbol b'(' ∷ (print_arguments xs ++ ks)) f n h

free_statement :
    (o : ℕ → ℕ) (f : ℕ) (s : Statement) (l : Expression) (tail ks : Kinds)
    → print_statement s ≡ print_expression l ++ tail
    → starts_free l ≡ true
    → statement f (stamp o (print_statement s ++ ks))
      ≡ assigned f (stamp o (print_statement s ++ ks))
free_statement o f s l tail ks same h =
    rw (same, append_assoc) (free_expression o f l (tail ++ ks) h)

statement-Reads :
    (s : Statement) (o : ℕ → ℕ) (ks : Kinds) (f : ℕ)
    → is_printable s ≡ true
    → 3 * length (print_statement s) < f
    → statement f (stamp o (print_statement s ++ ks)) ≡ done (s, stamp o ks)
unfolding print_statement
statement-Reads (local ty n e) o ks f p h = reads_local o ks f ty n e p h
statement-Reads (assign l r) o ks f p h =
    free_statement o f (assign l r) l (symbol b'=' ∷ (print_expression r ++ symbol b';' ∷ [])) ks
      refl p
    ∙ reads_assigned o ks f l r h
statement-Reads (require e) o ks f p h = reads_require o ks f e h
statement-Reads (return_value e) o ks f p h = reads_return o ks f e h
statement-Reads (evaluate e) o ks f p h =
    free_statement o f (evaluate e) e (symbol b';' ∷ []) ks refl p ∙ reads_evaluated o ks f e h

-- A printed statement does not look like a closing brace.
starts_open :
    (o : ℕ → ℕ) (e : Expression) (ks : Kinds)
    → consume_symbol b'}' (stamp o (print_expression e ++ ks))
      ≡ done (false, stamp o (print_expression e ++ ks))
unfolding print_expression consume_symbol
starts_open o (name n) ks = refl
starts_open o (Syntax.Expression.number n) ks = refl
starts_open o (index n k) ks = refl
starts_open o (call n k) ks = refl

not_ended :
    (o : ℕ → ℕ) (s : Statement) (ks : Kinds)
    → consume_symbol b'}' (stamp o (print_statement s ++ ks))
      ≡ done (false, stamp o (print_statement s ++ ks))
unfolding print_statement consume_symbol
not_ended o (local ty n e) ks = refl
not_ended o (assign l r) ks = rw append_assoc (starts_open o l _)
not_ended o (require e) ks = refl
not_ended o (return_value e) ks = refl
not_ended o (evaluate e) ks = rw append_assoc (starts_open o e _)

length-print_expression : (e : Expression) → 0 < length (print_expression e)
unfolding print_expression
length-print_expression (name n) = omega arith
length-print_expression (Syntax.Expression.number v) = omega arith
length-print_expression (index n key) = omega arith
length-print_expression (call n xs) = omega arith

length-print_statement : (s : Statement) → 0 < length (print_statement s)
unfolding print_statement
length-print_statement (local ty n e) = omega arith
length-print_statement (assign l r) = omega (lengths, length-print_expression l)
length-print_statement (require e) = omega arith
length-print_statement (return_value e) = omega arith
length-print_statement (evaluate e) = omega (lengths, length-print_expression e)

length-print_statements : (body : List Statement) → 0 < length (print_statements body)
unfolding print_statements
length-print_statements [] = omega arith
length-print_statements (s ∷ body) = omega (lengths, length-print_statements body)

pub statements-Reads :
    (body : List Statement) (o : ℕ → ℕ) (ks : Kinds) (f : ℕ)
    → All (λ s. is_printable s ≡ true) body
    → 3 * length (print_statements body) < f
    → statements f (stamp o (print_statements body ++ ks)) ≡ done (body, stamp o ks)
unfolding statements print_statements
statements-Reads body o ks zero p h = absurd (omega arith)
statements-Reads [] o ks (suc f) p h = unfold consume_symbol in refl
statements-Reads (s ∷ body) o ks (suc f) (p, ps) h =
    let more = length-print_statements body in
    rw append_assoc (
      rw (not_ended o s (print_statements body ++ ks)) (
        rw (statement-Reads s o (print_statements body ++ ks) f p (omega (lengths, h, more))) (
          rw (statements-Reads body o ks f ps (omega (lengths, h, length-print_statement s)))
            refl)))
