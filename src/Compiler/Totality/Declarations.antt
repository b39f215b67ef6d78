-- ===== src/Compiler/Totality/Declarations.antt =====
-- Declarations and programs: their parsers of crates/compiler/src/lib.rs end on every input.
use ppsc.Base.{inl, inr, ◌⊎◌, ◌++◌, ℕ, zero, suc, ◌+◌, ◌<◌, ◌*◌, ◌≡◌, List, [], ◌∷◌, length, arith}
use ppsc.Base.Bytes.{Bytes}
use ppsc.Compiler.Syntax.{CompileError, Tokens, StateDecl, Function, Program}
use ppsc.Compiler.Outcome.{
  Finishes, with_value, Finishes-bind, Finishes-weaken, Finishes-if, Finishes-result, done, failed,
}
use ppsc.Compiler.Parser.{is_eof_kind}
use ppsc.Compiler.Declarations.{
  statements, function, declarations, end_of_input, program, parse, parse_source,
}
use ppsc.Compiler.Totality.Tokens.{EndsEof, lex-Finishes}
use ppsc.Compiler.Totality.Expressions.{
  Took, Total, one_token, took_one, Fails, consume_symbol-Total, consume_keyword-Total,
  parse_symbol-Total, parse_keyword-Total, parse_ident-Total,
}
use ppsc.Compiler.Outcome.{done}
use ppsc.Compiler.Totality.Statements.{Parser-choice, params-Finishes}
use ppsc.Compiler.Totality.Statements.{state_decl-Total, statement-Finishes}

statements-Finishes :
    (f : ℕ) (ts : Tokens)
    → EndsEof ts
    → 3 * length ts + 1 < f
    → Finishes (Took one_token (length ts)) (statements f ts)
unfolding statements
statements-Finishes zero ts e h = absurd (omega arith)
statements-Finishes (suc f) ts e h =
    Finishes-bind (consume_symbol-Total b'}' ts e) λ (closed, t1) (l1, e1).
      Parser-choice _ _ closed t1
        (λ taken. with_value (omega (arith, took_one closed l1 taken), e1))
        λ _. Finishes-bind (statement-Finishes f t1 e1 (omega (arith, l1, h))) λ (s, t2) (l2, e2).
          Finishes-bind (statements-Finishes f t2 e2 (omega (arith, l1, l2, h)))
            λ (rest, t3) (l3, e3). with_value (omega (arith, l1, l2, l3), e3)

function-Finishes :
    (f : ℕ) (ts : Tokens)
    → EndsEof ts
    → 3 * length ts < f
    → Finishes (Took one_token (length ts)) (function f ts)
unfolding function
function-Finishes f ts e h = Finishes-bind (parse_ident-Total ts e) λ (n, t1) (l1, e1).
    Finishes-bind (parse_symbol-Total b'(' t1 e1) λ (_, t2) (l2, e2).
      Finishes-bind (params-Finishes f t2 e2 (omega (arith, l1, l2, h))) λ (ps, t3) (l3, e3).
        Finishes-bind (parse_keyword-Total "public" t3 e3) λ (_, t4) (l4, e4).
          Finishes-bind (parse_symbol-Total b'{' t4 e4) λ (_, t5) (l5, e5).
            Finishes-bind (statements-Finishes f t5 e5 (omega (arith, l1, l2, l3, l4, l5, h)))
              λ (body, t6) (l6, e6). with_value (omega (arith, l1, l2, l3, l4, l5, l6), e6)

declarations-Finishes :
    (f : ℕ) (ss : List StateDecl) (fs : List Function) (ts : Tokens)
    → EndsEof ts
    → 3 * length ts + 1 < f
    → Finishes (Took one_token (length ts)) (declarations f ss fs ts)
unfolding declarations
declarations-Finishes zero ss fs ts e h = absurd (omega arith)
declarations-Finishes (suc f) ss fs ts e h =
    Finishes-bind (consume_symbol-Total b'}' ts e) λ (closed, t1) (l1, e1).
      Parser-choice _ _ closed t1
        (λ taken. with_value (omega (arith, took_one closed l1 taken), e1))
        λ _. Finishes-bind (consume_keyword-Total "private" t1 e1) λ (private, t2) (l2, e2).
          Parser-choice _ _ private t2
            (λ _. Finishes-bind (state_decl-Total t2 e2) λ (s, t3) (l3, e3).
              Finishes-weaken
                (declarations-Finishes f (ss ++ s ∷ []) fs t3 e3 (omega (arith, l1, l2, l3, h)))
                λ (a, rest) (l, e'). (omega (arith, l, l1, l2, l3), e'))
            λ _. Finishes-bind (consume_keyword-Total "function" t2 e2) λ (starts, t3) (l3, e3).
              Parser-choice _ _ starts t3
                (λ taken.
                  Finishes-bind
                    (function-Finishes f t3 e3 (omega (arith, took_one starts l3 taken, l1, l2, h)))
                    λ (g, t4) (l4, e4).
                      Finishes-weaken
                        (declarations-Finishes f ss (fs ++ g ∷ []) t4 e4
                          (omega (arith, l1, l2, l3, l4, h)))
                        λ (a, rest) (l, e'). (omega (arith, l, l1, l2, l3, l4), e'))
                λ _. Fails _ t3 e3

end_of_input-Total : Total (λ _. 0) end_of_input
end_of_input-Total [] e = absurd (ground arith)
end_of_input-Total (t ∷ ts) e =
    Finishes-if (is_eof_kind t.kind) (λ _. with_value (omega arith, e)) λ _. Fails _ (t ∷ ts) e

program-Finishes :
    (f : ℕ) (ts : Tokens)
    → EndsEof ts
    → 3 * length ts + 1 < f
    → Finishes (Took one_token (length ts)) (program f ts)
unfolding program
program-Finishes f ts e h = Finishes-bind (parse_keyword-Total "privacy" ts e) λ (_, t1) (l1, e1).
    Finishes-bind (parse_keyword-Total "contract" t1 e1) λ (_, t2) (l2, e2).
      Finishes-bind (parse_ident-Total t2 e2) λ (n, t3) (l3, e3).
        Finishes-bind (parse_symbol-Total b'{' t3 e3) λ (_, t4) (l4, e4).
          Finishes-bind (declarations-Finishes f [] [] t4 e4 (omega (arith, l1, l2, l3, l4, h)))
            λ (d, t5) (l5, e5).
              Finishes-bind (end_of_input-Total t5 e5)
                λ (_, t6) (l6, e6). with_value (omega (arith, l1, l2, l3, l4, l5, l6), e6)

parse-Finishes : (ts : Tokens) → EndsEof ts → Finishes (λ _. Unit {0}) (parse ts)
unfolding parse
parse-Finishes ts e =
    Finishes-bind (program-Finishes (3 * length ts + 4) ts e (omega arith)) λ _ _. with_value tt

-- On every source, the lexer and the parser end with a program or with a compile error: no token
-- is read past the end of the input, and every loop and recursion stops within the fuel that
-- `lex` and `parse` give.
pub parse_source_ends :
    (source : Bytes)
    → ((p : Program) × (parse_source source ≡ done p))
      ⊎ ((e : CompileError) × (parse_source source ≡ failed e))
unfolding parse_source
parse_source_ends source =
    elim (Finishes-result (Finishes-bind (lex-Finishes source) λ ts e. parse-Finishes ts e)) [
      | inl (p, same, _) ↦ inl (p, same)
      | inr stopped ↦ inr stopped
    ]
