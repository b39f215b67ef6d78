-- ===== src/Compiler/Text.antt =====
-- The texts that crates/compiler/src/lib.rs makes from bytes and numbers.
use ppsc.Base.{ap, ◌∙◌, ℕ, zero, suc, ◌+◌, ◌/◌, ◌%◌, ◌≡◌, [], ◌∷◌, ◌++◌, String, ltb, if◌then◌else◌}
use ppsc.Base.Bytes.{Bytes, text_bytes}
use Prim.Native.Nat.{compare, Ordering}
use text.Mathlib.TextLemmas.{nil-append, cons-append}
use Prim.Native.Char.{code, Char, char, nul}
use Prim.Native.String.{String, ◌++◌ as str_append}

-- A byte as a character, and a slice of ASCII bytes as a text.
abbrev scalar_char : (n : ℕ) (o : Ordering) → compare n 55296 ≡ o → Char
scalar_char n Ordering.lt e = char n (rw e tt)
scalar_char n Ordering.eq e = nul
scalar_char n Ordering.gt e = nul

abbrev pub text_of : Bytes → String
text_of [] = String.[]
text_of (b ∷ bs) = String.◌∷◌ (scalar_char b (compare b 55296) (λ _. compare b 55296)) (text_of bs)

-- The decimal digits of a number below 10 ^ the fuel.
unfoldable pub decimal_digits : ℕ → ℕ → Bytes
decimal_digits zero n = []
decimal_digits (suc f) n =
    let front = decimal_digits f (n / 10) in
    if ltb n 10 then (48 + n) ∷ [] else front ++ (48 + n % 10) ∷ []

-- `format!("{n}")`
unfoldable pub decimal : ℕ → String
unfolding decimal_digits
decimal n = text_of (decimal_digits (suc n) n)

pub text_bytes-append : (s t : String) → text_bytes (str_append s t) ≡ text_bytes s ++ text_bytes t
text_bytes-append String.[] t = ap text_bytes (nil-append t)
text_bytes-append (String.◌∷◌ c s) t =
    ap text_bytes (cons-append c s t) ∙ ap (λ l. code c ∷ l) (text_bytes-append s t)
