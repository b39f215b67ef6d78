-- ===== src/Compiler/Totality/Tokens.antt =====
-- The lexer of crates/compiler/src/lib.rs ends on every input, and its last token is `Eof`.
use ppsc.Base.{
  ℕ, zero, suc, ◌+◌, ◌≤◌, ◌<◌, ◌≡◌, refl, Bool, true, false, [], ◌∷◌, length, drop, arith,
}
use ppsc.Base.Bytes.{Bytes}
use ppsc.Compiler.Syntax.{Token, Tokens, TokenKind}
use ppsc.Compiler.Outcome.{
  Outcome, Finishes, with_value, with_error, Finishes-bind, Finishes-choice,
}
use ppsc.Compiler.Lexer.{
  span, lex_from, lex, in_comment, continues_ident, is_ascii_digit, is_whitespace, starts_ident,
  is_symbol, opens_comment,
}
use ppsc.Compiler.Parser.{is_eof_kind}
use ppsc.Compiler.Lexer.{emit}
use ppsc.Compiler.Lexer.{token_at}

-- The last token is the end of the input.
abbrev pub ends_eof : Tokens → Bool
ends_eof [] = false
ends_eof (t ∷ []) = is_eof_kind t.kind
ends_eof (t ∷ u ∷ ts) = ends_eof (u ∷ ts)

length-span : (p : ℕ → Bool) (bs : Bytes) → length (span p bs).1 ≤ length bs
unfolding span
length-span p [] = omega arith
length-span p (b ∷ bs) = ground (arith, length-span p bs)

length-drop : (bs : Bytes) → length (drop 1 bs) ≤ length bs
length-drop [] = omega arith
length-drop (b ∷ bs) = omega arith

ends_eof-cons : (t : Token) (ts : Tokens) → ends_eof ts ≡ true → ends_eof (t ∷ ts) ≡ true
ends_eof-cons t [] h = absurd (ground arith)
ends_eof-cons t (u ∷ ts) h = h

abbrev pub EndsEof : Tokens → Type 0
EndsEof ts = ends_eof ts ≡ true

emit-Finishes :
    (i : ℕ) (kind : TokenKind) {r : Outcome Tokens}
    → Finishes EndsEof r
    → Finishes EndsEof (emit i kind r)
emit-Finishes i kind h = Finishes-bind h λ ts e. with_value (ends_eof-cons (token_at i kind) ts e)

lex_from-Finishes : (f i : ℕ) (bs : Bytes) → length bs < f → Finishes EndsEof (lex_from f i bs)
unfolding lex_from
lex_from-Finishes zero i bs h = absurd (omega arith)
lex_from-Finishes (suc f) i [] h = with_value refl
lex_from-Finishes (suc f) i (c ∷ bs) h =
    let next : Finishes EndsEof (lex_from f (i + 1) bs) =
      lex_from-Finishes f (i + 1) bs (omega arith) in
    Finishes-choice (is_whitespace c) (λ _. next)
      λ _.
        Finishes-choice (opens_comment c bs)
          (λ _.
            lex_from-Finishes f _ _
              (omega (arith, length-span in_comment (drop 1 bs), length-drop bs)))
          λ _.
            Finishes-choice (starts_ident c)
              (λ _.
                emit-Finishes _ _
                  (lex_from-Finishes f _ _ (omega (arith, length-span continues_ident bs))))
              λ _.
                Finishes-choice (is_ascii_digit c)
                  (λ _.
                    emit-Finishes _ _
                      (lex_from-Finishes f _ _ (omega (arith, length-span is_ascii_digit bs))))
                  λ _. Finishes-choice (is_symbol c) (λ _. emit-Finishes _ _ next) λ _. with_error

pub lex-Finishes : (source : Bytes) → Finishes EndsEof (lex source)
unfolding lex
lex-Finishes source = lex_from-Finishes (suc (length source)) 0 source (omega arith)
