-- ===== src/Compiler/Totality/Statements.antt =====
-- Statements and parameters: their parsers of crates/compiler/src/lib.rs end on every input.
use ppsc.Base.{
  inl, inr, ◌⊎◌, ℕ, zero, suc, ◌≤◌, ◌<◌, ◌*◌, ◌≡◌, refl, Bool, true, false, [], ◌∷◌, length, arith,
  if◌then◌else◌, none, some, Option,
}
use ppsc.Manifest.Types.{ValueType}
use ppsc.Compiler.Syntax.{TokenKind, ident, number, symbol, eof, Token, Tokens}
use ppsc.Compiler.Outcome.{bind, Finishes, with_value, Finishes-bind, Finishes-weaken, done}
use ppsc.Compiler.Parser.{Parser, is_eof_kind, parse_symbol}
use ppsc.Compiler.Declarations.{
  state_decl, key_type, param, more_params, params, requirement, returned, local_declaration,
  assigned, named_type, local_or_assigned, unreserved_statement, statement,
}
use ppsc.Compiler.Totality.Tokens.{EndsEof}
use ppsc.Compiler.Totality.Expressions.{
  Took, Total, one_token, took_one, EndsEof-tail, consume_symbol-Total, consume_keyword-Total,
  parse_symbol-Total, parse_ident-Total, value_type-Total, expression-Finishes,
}
use ppsc.Compiler.Outcome.{done}

pub Parser-choice :
    {A : Type 0} {Q : A × Tokens → Type 0} (p q : Parser A) (b : Bool) (ts : Tokens)
    → (b ≡ true → Finishes Q (p ts))
    → (b ≡ false → Finishes Q (q ts))
    → Finishes Q ((elim b as (λ _. Parser A) [ true ↦ p | false ↦ q ]) ts)
Parser-choice p q true ts hp hq = hp refl
Parser-choice p q false ts hp hq = hq refl

Parser-if :
    {A : Type 0} {Q : A × Tokens → Type 0} (p q : Parser A) (b : Bool) (ts : Tokens)
    → (b ≡ true → Finishes Q (p ts))
    → (b ≡ false → Finishes Q (q ts))
    → Finishes Q ((if b then p else q) ts)
Parser-if p q true ts hp hq = hp refl
Parser-if p q false ts hp hq = hq refl

-- The last step of a parser: it consumes a symbol and returns a value.
closing :
    {A : Type 0} (c : ℕ) (a : A) (n : ℕ) (ts : Tokens)
    → EndsEof ts
    → length ts ≤ n
    → Finishes (Took one_token n) (bind (parse_symbol c ts) λ (_, rest). done (a, rest))
closing c a n ts e h =
    Finishes-bind (parse_symbol-Total c ts e)
      λ (_, rest) (l, e'). with_value (omega (arith, l, h), e')

key_type-Finishes :
    (b : Bool) (ts : Tokens) → EndsEof ts → Finishes (Took (λ _. 0) (length ts)) (key_type b ts)
key_type-Finishes true ts e = Finishes-bind (value_type-Total ts e) λ (key, t1) (l1, e1).
    Finishes-bind (parse_symbol-Total b']' t1 e1)
      λ (_, t2) (l2, e2). with_value (omega (arith, l1, l2), e2)
key_type-Finishes false ts e = with_value (omega arith, e)

pub state_decl-Total : Total one_token state_decl
unfolding state_decl
state_decl-Total ts e = Finishes-bind (value_type-Total ts e) λ (ty, t1) (l1, e1).
    Finishes-bind (parse_ident-Total t1 e1) λ (n, t2) (l2, e2).
      Finishes-bind (consume_symbol-Total b'[' t2 e2) λ (keyed, t3) (l3, e3).
        Finishes-bind (key_type-Finishes keyed t3 e3)
          λ (key, t4) (l4, e4). closing _ _ (length ts) t4 e4 (omega (arith, l1, l2, l3, l4))

param-Total : Total one_token param
unfolding param
param-Total ts e = Finishes-bind (value_type-Total ts e) λ (ty, t1) (l1, e1).
    Finishes-bind (parse_ident-Total t1 e1)
      λ (n, t2) (l2, e2). with_value (omega (arith, l1, l2), e2)

more_params-Finishes :
    (f : ℕ) (ts : Tokens)
    → EndsEof ts
    → length ts < f
    → Finishes (Took one_token (length ts)) (more_params f ts)
unfolding more_params
more_params-Finishes zero ts e h = absurd (omega arith)
more_params-Finishes (suc f) ts e h = Finishes-bind (param-Total ts e) λ (p, t1) (l1, e1).
    Finishes-bind (consume_symbol-Total b')' t1 e1) λ (closed, t2) (l2, e2).
      Parser-choice _ _ closed t2 (λ _. with_value (omega (arith, l1, l2), e2))
        λ _. Finishes-bind (parse_symbol-Total b',' t2 e2) λ (_, t3) (l3, e3).
          Finishes-bind (more_params-Finishes f t3 e3 (omega (arith, l1, l2, l3)))
            λ (ps, t4) (l4, e4). with_value (omega (arith, l1, l2, l3, l4), e4)

pub params-Finishes :
    (f : ℕ) (ts : Tokens)
    → EndsEof ts
    → length ts < f
    → Finishes (Took one_token (length ts)) (params f ts)
unfolding params
params-Finishes f ts e h = Finishes-bind (consume_symbol-Total b')' ts e) λ (closed, t1) (l1, e1).
    Parser-if _ _ closed t1 (λ taken. with_value (omega (arith, took_one closed l1 taken), e1))
      λ _.
        Finishes-weaken (more_params-Finishes f t1 e1 (omega (arith, l1, h)))
          λ (ps, t2) (l2, e2). (omega (arith, l1, l2), e2)

-- Only an identifier names a type.
named-cases : (k : TokenKind) → (named_type k ≡ none) ⊎ (is_eof_kind k ≡ false)
named-cases (ident s) = inr refl
named-cases (number s) = inl refl
named-cases (symbol c) = inl refl
named-cases eof = inl refl

module _ (f : ℕ) where
  requirement-Finishes :
      (ts : Tokens)
      → EndsEof ts
      → 3 * length ts < f
      → Finishes (Took one_token (length ts)) (requirement f ts)
  requirement-Finishes ts e h = Finishes-bind (parse_symbol-Total b'(' ts e) λ (_, t1) (l1, e1).
      Finishes-bind (expression-Finishes f t1 e1 (omega (arith, l1, h))) λ (v, t2) (l2, e2).
        Finishes-bind (parse_symbol-Total b')' t2 e2)
          λ (_, t3) (l3, e3). closing _ _ (length ts) t3 e3 (omega (arith, l1, l2, l3))

  returned-Finishes :
      (ts : Tokens)
      → EndsEof ts
      → 3 * length ts < f
      → Finishes (Took one_token (length ts)) (returned f ts)
  returned-Finishes ts e h =
      Finishes-bind (expression-Finishes f ts e h)
        λ (v, t1) (l1, e1). closing _ _ (length ts) t1 e1 (omega (arith, l1))

  local_declaration-Finishes :
      (ty : ValueType) (ts : Tokens)
      → EndsEof ts
      → 3 * length ts < f
      → Finishes (Took one_token (length ts)) (local_declaration f ty ts)
  local_declaration-Finishes ty ts e h = Finishes-bind (parse_ident-Total ts e) λ (n, t1) (l1, e1).
      Finishes-bind (parse_symbol-Total b'=' t1 e1) λ (_, t2) (l2, e2).
        Finishes-bind (expression-Finishes f t2 e2 (omega (arith, l1, l2, h)))
          λ (v, t3) (l3, e3). closing _ _ (length ts) t3 e3 (omega (arith, l1, l2, l3))

  assigned-Finishes :
      (ts : Tokens)
      → EndsEof ts
      → 3 * length ts < f
      → Finishes (Took one_token (length ts)) (assigned f ts)
  assigned-Finishes ts e h = Finishes-bind (expression-Finishes f ts e h) λ (v, t1) (l1, e1).
      Finishes-bind (consume_symbol-Total b'=' t1 e1) λ (assigns, t2) (l2, e2).
        Parser-if _ _ assigns t2
          (λ _.
            Finishes-bind (expression-Finishes f t2 e2 (omega (arith, l1, l2, h)))
              λ (w, t3) (l3, e3). closing _ _ (length ts) t3 e3 (omega (arith, l1, l2, l3)))
          λ _. closing _ _ (length ts) t2 e2 (omega (arith, l1, l2))

  typed-Finishes :
      (o : Option ValueType) (t : Token) (ts : Tokens)
      → EndsEof (t ∷ ts)
      → (o ≡ none) ⊎ EndsEof ts
      → 3 * length (t ∷ ts) < f
      → Finishes (Took one_token (length (t ∷ ts))) (local_or_assigned f o (t ∷ ts))
  typed-Finishes none t ts e later h = assigned-Finishes (t ∷ ts) e h
  typed-Finishes (some ty) t ts e (inl none_named) h = absurd (ground arith)
  typed-Finishes (some ty) t ts e (inr later) h =
      Finishes-weaken (local_declaration-Finishes ty ts later (omega (arith, h)))
        λ (a, rest) (l, e'). (omega (arith, l), e')

  unreserved-Finishes :
      (ts : Tokens)
      → EndsEof ts
      → 3 * length ts < f
      → Finishes (Took one_token (length ts)) (unreserved_statement f ts)
  unreserved-Finishes [] e h = absurd (ground arith)
  unreserved-Finishes (t ∷ ts) e h =
      typed-Finishes (named_type t.kind) t ts e
        (elim (named-cases t.kind) [
          | inl none_named ↦ inl none_named
          | inr other ↦ inr (EndsEof-tail t ts other e)
        ])
        h

  pub statement-Finishes :
      (ts : Tokens)
      → EndsEof ts
      → 3 * length ts < f
      → Finishes (Took one_token (length ts)) (statement f ts)
  unfolding statement
  statement-Finishes ts e h =
      Finishes-bind (consume_keyword-Total "require" ts e) λ (requires, t1) (l1, e1).
        Parser-if _ _ requires t1
          (λ _.
            Finishes-weaken (requirement-Finishes t1 e1 (omega (arith, l1, h)))
              λ (s, r) (l, e'). (omega (arith, l, l1), e'))
          λ _. Finishes-bind (consume_keyword-Total "return" t1 e1) λ (returns, t2) (l2, e2).
            Parser-if _ _ returns t2
              (λ _.
                Finishes-weaken (returned-Finishes t2 e2 (omega (arith, l1, l2, h)))
                  λ (s, r) (l, e'). (omega (arith, l, l1, l2), e'))
              λ _.
                Finishes-weaken (unreserved-Finishes t2 e2 (omega (arith, l1, l2, h)))
                  λ (s, r) (l, e'). (omega (arith, l, l1, l2), e')
