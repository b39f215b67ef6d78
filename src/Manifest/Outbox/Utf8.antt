-- ===== src/Manifest/Outbox/Utf8.antt =====
-- The UTF-8 bytes of a text, and the test of `String::from_utf8`.
use ppsc.Base.{
  ℕ, zero, suc, ◌==◌, lt→ltb, ◌+◌, ◌/◌, ◌%◌, Bool, true, ◌&&◌, [], ◌∷◌, ◌++◌, ltb, leb,
  if◌then◌else◌, ◌≡◌, ◌<◌, refl,
}
use ppsc.Base.Bytes.{Bytes}
use Prim.Native.Char.{code}
use Prim.Native.String.{String}

-- The bytes of one character, by its scalar value.
unfoldable pub encode_scalar : ℕ → Bytes
encode_scalar c =
    if ltb c 128
    then c ∷ []
    else if ltb c 2048
    then (192 + c / 64) ∷ (128 + c % 64) ∷ []
    else if ltb c 65536
    then (224 + c / 4096) ∷ (128 + (c / 64) % 64) ∷ (128 + c % 64) ∷ []
    else (240 + c / 262144) ∷ (128 + (c / 4096) % 64) ∷ (128 + (c / 64) % 64) ∷ (128 + c % 64) ∷ []

unfoldable pub utf8_bytes : String → Bytes
unfolding encode_scalar
utf8_bytes String.[] = []
utf8_bytes (String.◌∷◌ c s) = encode_scalar (code c) ++ utf8_bytes s

abbrev between : ℕ → ℕ → ℕ → Bool
between low high b = leb low b && leb b high

-- What may follow the bytes read so far of a character: the range of the next byte, and the number
-- of continuation bytes after it.
abbrev pub starts_sequence : ℕ → ℕ × (ℕ × ℕ)
starts_sequence b =
    if between 194 223 b
    then (128, (191, 0))
    else if b == 224
    then (160, (191, 1))
    else if b == 237
    then (128, (159, 1))
    else if between 225 239 b
    then (128, (191, 1))
    else if b == 240
    then (144, (191, 2))
    else if between 241 243 b
    then (128, (191, 2))
    else if b == 244
    then (128, (143, 2))
    else (1, (0, 0))

-- The rest of a text while a number of bytes of a character is pending, the next one in a range.
unfoldable pub continues : ℕ → ℕ → ℕ → Bytes → Bool
continues pending low high [] = pending == 0
continues zero low high (b ∷ bytes) =
    let started = starts_sequence b in
    if ltb b 128
    then continues 0 0 0 bytes
    else continues (suc started.1.1) started.0 started.1.0 bytes
continues (suc pending) low high (b ∷ bytes) = between low high b && continues pending 128 191 bytes

-- `String::from_utf8` succeeds.
unfoldable pub is_utf8 : Bytes → Bool
unfolding continues
is_utf8 bytes = continues 0 0 0 bytes

abbrev pub IsAscii : String → Type 0
IsAscii String.[] = Unit
IsAscii (String.◌∷◌ c s) = (code c < 128) × IsAscii s

-- The bytes of an ASCII text are valid.
pub is_utf8-utf8_bytes : (s : String) → IsAscii s → is_utf8 (utf8_bytes s) ≡ true
unfolding is_utf8 utf8_bytes encode_scalar continues
is_utf8-utf8_bytes String.[] h = refl
is_utf8-utf8_bytes (String.◌∷◌ c s) (h, hs) =
    rw (lt→ltb (code c) 128 h, lt→ltb (code c) 128 h) (is_utf8-utf8_bytes s hs)
