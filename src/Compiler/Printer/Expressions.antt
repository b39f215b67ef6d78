-- ===== src/Compiler/Printer/Expressions.antt =====
-- Printed expressions are read back by the parser of crates/compiler/src/lib.rs.
use ppsc.Base.{
  ℕ, zero, suc, ◌+◌, ◌*◌, ◌<◌, ◌≡◌, refl, Bool, true, false, ◌&&◌, not, [], ◌∷◌, ◌++◌, length,
  length-append, arith,
}
use mathlib.Core.List.{append_assoc}
use ppsc.Compiler.Syntax
use ppsc.Compiler.Syntax.{
  TokenKind, ident, symbol, eof, Token, Tokens, Expression, Arguments, name, index, call,
  no_arguments, argument,
}
use ppsc.Compiler.Outcome.{done}
use ppsc.Compiler.Parser.{
  consume_symbol, parse_symbol, is_symbol_kind, expression, after_name, arguments,
}
use ppsc.Compiler.Printer.{Kinds, stamp, print_expression, print_arguments, print_more}
use ppsc.Base.{String}

-- Nothing that could continue a name.
abbrev pub ends_expression : Kinds → Bool
ends_expression [] = false
ends_expression (k ∷ ks) = not (is_symbol_kind b'(' k) && not (is_symbol_kind b'[' k)

-- What holds after the first unit of fuel is taken holds of every amount above a bound.
with_fuel : (P : ℕ → Type 0) {n : ℕ} (step : (g : ℕ) → n < suc g → P (suc g)) (f : ℕ) → n < f → P f
with_fuel P {n} step f = elim f as (λ g. n < g → P g) [
  | zero ↦ λ h. absurd (omega (arith, h))
  | suc g ↦ λ h. step g h
]

not_called :
    (o : ℕ → ℕ) (ks : Kinds)
    → ends_expression ks ≡ true
    → consume_symbol b'(' (stamp o ks) ≡ done (false, stamp o ks)
unfolding consume_symbol
not_called o [] h = absurd (ground arith)
not_called o (k ∷ ks) h = ground arith

not_indexed :
    (o : ℕ → ℕ) (ks : Kinds)
    → ends_expression ks ≡ true
    → consume_symbol b'[' (stamp o ks) ≡ done (false, stamp o ks)
unfolding consume_symbol
not_indexed o [] h = absurd (ground arith)
not_indexed o (k ∷ ks) h = ground arith

-- The parser reads the printed expression back and stops before what follows.
abbrev pub ReadsExpression : Expression → Type 0
ReadsExpression e =
    (o : ℕ → ℕ) (ks : Kinds) (f : ℕ)
    → 3 * length (print_expression e) < f
    → ends_expression ks ≡ true
    → expression f (stamp o (print_expression e ++ ks)) ≡ done (e, stamp o ks)

abbrev ReadsArguments : Arguments → Type 0
ReadsArguments no_arguments = Unit
ReadsArguments (argument e more) =
    (o : ℕ → ℕ) (ks : Kinds) (f : ℕ)
    → 3 * length (print_arguments (argument e more)) < f
    → arguments f (stamp o (print_arguments (argument e more) ++ ks))
      ≡ done (argument e more, stamp o ks)

-- A printed expression does not look like a closing bracket.
not_closed :
    (o : ℕ → ℕ) (e : Expression) (ks : Kinds)
    → consume_symbol b')' (stamp o (print_expression e ++ ks))
      ≡ done (false, stamp o (print_expression e ++ ks))
unfolding print_expression consume_symbol
not_closed o (name n) ks = refl
not_closed o (Syntax.Expression.number n) ks = refl
not_closed o (index n k) ks = refl
not_closed o (call n k) ks = refl

after_name-name :
    (n : String) (o : ℕ → ℕ) (ks : Kinds) (f : ℕ)
    → 0 < f
    → ends_expression ks ≡ true
    → after_name f n (stamp o ks) ≡ done (name n, stamp o ks)
unfolding after_name
after_name-name n o ks zero h e = absurd (omega arith)
after_name-name n o ks (suc f) h e = rw (not_called o ks e) (rw (not_indexed o ks e) refl)

after_name-index :
    (n : String) (key : Expression) (o : ℕ → ℕ) (ks : Kinds) (f : ℕ)
    → ReadsExpression key
    → 3 * length (print_expression key) + 1 < f
    → after_name f n (stamp o (symbol b'[' ∷ (print_expression key ++ symbol b']' ∷ ks)))
      ≡ done (index n key, stamp o ks)
unfolding after_name consume_symbol parse_symbol
after_name-index n key o ks zero ih h = absurd (omega arith)
after_name-index n key o ks (suc f) ih h =
    rw (ih o (symbol b']' ∷ ks) f (omega (arith, h)) refl) refl

after_name-call :
    (n : String) (xs : Arguments) (o : ℕ → ℕ) (ks : Kinds) (f : ℕ)
    → ReadsArguments xs
    → 3 * length (print_arguments xs) + 1 < f
    → after_name f n (stamp o (symbol b'(' ∷ (print_arguments xs ++ ks)))
      ≡ done (call n xs, stamp o ks)
unfolding after_name consume_symbol print_arguments
after_name-call n xs o ks zero ih h = absurd (omega arith)
after_name-call n no_arguments o ks (suc f) ih h = refl
after_name-call n (argument x more) o ks (suc f) ih h = rw append_assoc (
    rw (not_closed o x (print_more more ++ ks))
      (rw (rw append_assoc at (ih o ks f (omega (arith, h)))) refl))

arguments-more :
    (x : Expression) (more : Arguments) (o : ℕ → ℕ) (ks : Kinds) (f : ℕ)
    → ReadsExpression x
    → ReadsArguments more
    → 3 * length (print_arguments (argument x more)) < suc f
    → arguments (suc f) (stamp o (print_arguments (argument x more) ++ ks))
      ≡ done (argument x more, stamp o ks)
unfolding arguments consume_symbol parse_symbol print_arguments
arguments-more x no_arguments o ks f ih ihs h = rw append_assoc (
    rw
      (ih o (symbol b')' ∷ ks) f
        (omega (arith, length-append (print_expression x) (symbol b')' ∷ []))) refl)
      refl)
arguments-more x (argument y more) o ks f ih ihs h = rw append_assoc (
    rw
      (ih o (print_more (argument y more) ++ ks) f
        (omega (arith, length-append (print_expression x) (print_more (argument y more)))) refl)
      (rw
        (ihs o ks f
          (omega (arith, h, length-append (print_expression x) (print_more (argument y more)))))
        refl))

pub expression-Reads : (e : Expression) → ReadsExpression e
unfolding expression print_expression
expression-Reads e = elim e as ReadsExpression ReadsArguments [
  | name n ↦ λ o ks. with_fuel _ λ f h follows. after_name-name n o ks f (omega (arith, h)) follows
  | Syntax.Expression.number v ↦ λ o ks. with_fuel _ λ f h follows. refl
  | index n (key → ih) ↦ λ o ks. with_fuel _ λ f h follows. rw append_assoc (
      after_name-index n key o ks f ih
        (omega (arith, h, length-append (print_expression key) (symbol b']' ∷ []))))
  | call n (xs → ih) ↦
      λ o ks. with_fuel _ λ f h follows. after_name-call n xs o ks f ih (omega (arith, h))
  | no_arguments ↦ tt
  | argument (x → ih) (more → ihs) ↦
      λ o ks. with_fuel _ λ f h. arguments-more x more o ks f ih ihs h
]
