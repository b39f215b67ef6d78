-- ===== src/Base/Bytes.antt =====
-- Bytes as numbers below 256, big-endian words, and the prefixes of encoded payloads.
use ppsc.Base.Tests.{◌==◌}
use Prim.Native.Nat.{ℕ, zero, suc, ◌+◌, ◌*◌, ◌/◌, ◌%◌, ◌^◌, ◌<◌}
use mathlib.Core.Path.{◌≡◌, refl}
use mathlib.Core.Bool.{Bool, true, false, ◌&&◌}
use mathlib.Core.List.{List, [], ◌∷◌, ◌++◌, foldl, foldl-append}
use native.Mathlib.Omega.{arith}
use native.Mathlib.Nat.{pow-suc}
use Prim.Native.Char.{code}
use Prim.Native.String.{String}
use ppsc.Base.Lists.{length, length-append}

abbrev pub Bytes : Type 0
Bytes = List ℕ

abbrev pub u64_mod : ℕ
u64_mod = 2 ^ 64

abbrev pub u128_mod : ℕ
u128_mod = 2 ^ 128

-- A byte string literal of ASCII characters.
abbrev pub text_bytes : String → Bytes
text_bytes String.[] = []
text_bytes (String.◌∷◌ c s) = code c ∷ text_bytes s

-- `to_be_bytes`: the last `n` digits of a number in base 256, the highest first.
unfoldable pub to_be_bytes : ℕ → ℕ → Bytes
to_be_bytes zero x = []
to_be_bytes (suc n) x = to_be_bytes n (x / 256) ++ (x % 256) ∷ []

abbrev push_byte : ℕ → ℕ → ℕ
push_byte acc b = acc * 256 + b

-- `from_be_bytes`
unfoldable pub from_be_bytes : Bytes → ℕ
from_be_bytes bytes = foldl push_byte 0 bytes

pub length-to_be_bytes : (n x : ℕ) → length (to_be_bytes n x) ≡ n
unfolding to_be_bytes
length-to_be_bytes zero x = refl
length-to_be_bytes (suc n) x = omega (
  arith,
  length-append (to_be_bytes n (x / 256)) ((x % 256) ∷ []),
  length-to_be_bytes n (x / 256),
)

pub from_be_bytes-to_be_bytes : (n x : ℕ) → x < 256 ^ n → from_be_bytes (to_be_bytes n x) ≡ x
unfolding from_be_bytes to_be_bytes
from_be_bytes-to_be_bytes zero x h = omega arith
from_be_bytes-to_be_bytes (suc n) x h =
    rw foldl-append
      (omega (arith, from_be_bytes-to_be_bytes n (x / 256) (omega (arith, rw pow-suc at h))))

pub from_be_bytes-append :
    (xs : Bytes) (b : ℕ) → from_be_bytes (xs ++ b ∷ []) ≡ from_be_bytes xs * 256 + b
unfolding from_be_bytes
from_be_bytes-append xs b = rw foldl-append

-- `==` on byte slices
abbrev pub bytes_beq : Bytes → Bytes → Bool
bytes_beq [] [] = true
bytes_beq [] (y ∷ ys) = false
bytes_beq (x ∷ xs) [] = false
bytes_beq (x ∷ xs) (y ∷ ys) = x == y && bytes_beq xs ys

-- `starts_with`
abbrev pub starts_with : Bytes → Bytes → Bool
starts_with bytes [] = true
starts_with [] (y ∷ ys) = false
starts_with (x ∷ xs) (y ∷ ys) = x == y && starts_with xs ys

pub bytes_beq_refl : (xs : Bytes) → bytes_beq xs xs ≡ true
bytes_beq_refl [] = refl
bytes_beq_refl (x ∷ xs) = ground (arith, bytes_beq_refl xs)

pub starts_with-append : (prefix rest : Bytes) → starts_with (prefix ++ rest) prefix ≡ true
starts_with-append [] [] = refl
starts_with-append [] (x ∷ rest) = refl
starts_with-append (x ∷ xs) rest = ground (arith, starts_with-append xs rest)
