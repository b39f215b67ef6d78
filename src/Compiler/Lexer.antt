-- ===== src/Compiler/Lexer.antt =====
-- `lex` of crates/compiler/src/lib.rs, on the bytes of the source.
use ppsc.Base.{
  ℕ, zero, suc, ◌+◌, Bool, true, false, ◌&&◌, ◌||◌, not, [], ◌∷◌, leb, ◌==◌, if◌then◌else◌, length,
  drop,
}
use ppsc.Base.Bytes.{Bytes}
use ppsc.Compiler.Outcome.{Outcome, done, failed, out_of_fuel, bind}
use ppsc.Compiler.Syntax.{
  TokenKind, ident, number, symbol, eof, Token, Tokens, unexpected_character,
}
use ppsc.Compiler.Text.{text_of}

-- `char::is_whitespace` on a byte read as a character: tab to carriage return, space, and the two
-- of the second half.
unfoldable pub is_whitespace : ℕ → Bool
is_whitespace c = leb 9 c && leb c 13 || (c == 32 || (c == 133 || c == 160))

unfoldable pub is_ascii_alphabetic : ℕ → Bool
is_ascii_alphabetic c = leb b'A' c && leb c b'Z' || leb b'a' c && leb c b'z'

unfoldable pub is_ascii_digit : ℕ → Bool
is_ascii_digit c = leb b'0' c && leb c b'9'

unfoldable pub starts_ident : ℕ → Bool
unfolding is_ascii_alphabetic
starts_ident c = is_ascii_alphabetic c || c == b'_'

unfoldable pub continues_ident : ℕ → Bool
unfolding is_ascii_alphabetic is_ascii_digit
continues_ident c = (is_ascii_alphabetic c || is_ascii_digit c) || (c == b'_' || c == b'.')

unfoldable pub is_symbol : ℕ → Bool
is_symbol c =
    ((c == b'{' || c == b'}') || (c == b'(' || c == b')'))
    || (((c == b'[' || c == b']') || c == b';') || (c == b',' || c == b'='))

-- The bytes before the first that fails a test, and from it on.
unfoldable pub span : (ℕ → Bool) → Bytes → Bytes × Bytes
span p [] = ([], [])
span p (b ∷ bs) = let (front, rest) = span p bs in if p b then (b ∷ front, rest) else ([], b ∷ bs)

abbrev pub in_comment : ℕ → Bool
in_comment b = not (b == 10)

abbrev pub token_at : ℕ → TokenKind → Token
token_at offset kind = record { kind = kind; offset = offset }

abbrev pub opens_comment : ℕ → Bytes → Bool
opens_comment c [] = false
opens_comment c (b ∷ bs) = c == b'/' && b == b'/'

abbrev pub emit : ℕ → TokenKind → Outcome Tokens → Outcome Tokens
emit offset kind rest = bind rest λ ts. done (token_at offset kind ∷ ts)

-- The tokens of the bytes from an offset on, one unit of fuel for each turn of the loop.
unfoldable pub lex_from : ℕ → ℕ → Bytes → Outcome Tokens
unfolding is_whitespace starts_ident continues_ident is_ascii_digit is_symbol span
lex_from zero i bytes = out_of_fuel
lex_from (suc fuel) i [] = done (token_at i eof ∷ [])
lex_from (suc fuel) i (c ∷ bytes) = elim (is_whitespace c) [
  | true ↦ lex_from fuel (i + 1) bytes
  | false ↦ elim (opens_comment c bytes) [
    | true ↦
        let (comment, rest) = span in_comment (drop 1 bytes) in
        lex_from fuel (i + 2 + length comment) rest
    | false ↦ elim (starts_ident c) [
      | true ↦
          let (word, rest) = span continues_ident bytes in
          emit i (ident (text_of (c ∷ word))) (lex_from fuel (i + 1 + length word) rest)
      | false ↦ elim (is_ascii_digit c) [
        | true ↦
            let (digits, rest) = span is_ascii_digit bytes in
            emit i (number (text_of (c ∷ digits))) (lex_from fuel (i + 1 + length digits) rest)
        | false ↦ elim (is_symbol c) [
          | true ↦ emit i (symbol c) (lex_from fuel (i + 1) bytes)
          | false ↦ failed (record { message = unexpected_character c; offset = i })
        ]
      ]
    ]
  ]
]

unfoldable pub lex : Bytes → Outcome Tokens
unfolding lex_from
lex source = lex_from (suc (length source)) 0 source
