-- ===== src/Backend/Plaintext/Digest.antt =====
-- The commitments of `PlaintextBackend`, crates/runtime/src/lib.rs, are identifiers of 32 bytes.
use mathlib.Core.List.{foldl, flatten}
use native.Mathlib.Nat.{pow-suc, mul-le-mul_right}
use ppsc.Base.{
  ℕ, zero, suc, ◌+◌, ◌*◌, ◌/◌, ◌%◌, ◌^◌, ◌≤◌, ◌<◌, ◌≡◌, List, [], ◌∷◌, ◌++◌, arith, All, length,
  length-append,
}
use ppsc.Base.Bytes.{Bytes, to_be_bytes, from_be_bytes, length-to_be_bytes}
use ppsc.Core.{id_from_bytes}
use ppsc.Backend.Plaintext.{digest_lane, digest, commit}

abbrev AreBytes : Bytes → Type 0
AreBytes bytes = All (λ b. b < 256) bytes

append-AreBytes : (xs ys : Bytes) → AreBytes xs → AreBytes ys → AreBytes (xs ++ ys)
append-AreBytes [] ys hx hy = hy
append-AreBytes (x ∷ xs) ys hx hy = (hx.0, append-AreBytes xs ys hx.1 hy)

to_be_bytes-AreBytes : (n x : ℕ) → AreBytes (to_be_bytes n x)
unfolding to_be_bytes
to_be_bytes-AreBytes zero x = tt
to_be_bytes-AreBytes (suc n) x =
    append-AreBytes (to_be_bytes n (x / 256)) ((x % 256) ∷ []) (to_be_bytes-AreBytes n (x / 256))
      (omega arith, tt)

foldl_bound :
    (acc : ℕ) (bytes : Bytes)
    → AreBytes bytes
    → foldl (λ a b. a * 256 + b) acc bytes < (acc + 1) * 256 ^ length bytes
foldl_bound acc [] h = omega arith
foldl_bound acc (b ∷ bytes) h =
    let later = foldl_bound (acc * 256 + b) bytes h.1 in
    let wider : (acc * 256 + b + 1) * 256 ^ length bytes ≤ ((acc + 1) * 256) * 256 ^ length bytes =
      mul-le-mul_right (256 ^ length bytes) (omega (arith, h.0)) in
    rw (pow-suc 256 (length bytes)) (omega (arith, later, wider))

from_be_bytes_bound : (bytes : Bytes) → AreBytes bytes → from_be_bytes bytes < 256 ^ length bytes
unfolding from_be_bytes
from_be_bytes_bound bytes h = omega (arith, foldl_bound 0 bytes h)

-- Eight bytes.
abbrev IsWord : Bytes → Type 0
IsWord bytes = AreBytes bytes × (length bytes ≡ 8)

digest_lane-IsWord : (input : Bytes) (lane : ℕ) → IsWord (digest_lane input lane)
unfolding digest_lane
digest_lane-IsWord input lane = (to_be_bytes-AreBytes 8 _, length-to_be_bytes 8 _)

four_words :
    (a b c d : Bytes)
    → IsWord a
    → IsWord b
    → IsWord c
    → IsWord d
    → from_be_bytes (a ++ (b ++ (c ++ d))) < 256 ^ 32
four_words a b c d ha hb hc hd =
    let bytes =
      append-AreBytes a (b ++ (c ++ d)) ha.0
        (append-AreBytes b (c ++ d) hb.0 (append-AreBytes c d hc.0 hd.0)) in
    let sized : length (a ++ (b ++ (c ++ d))) ≡ 32 = omega (
      arith,
      length-append a (b ++ (c ++ d)),
      length-append b (c ++ d),
      length-append c d,
      ha.1,
      hb.1,
      hc.1,
      hd.1,
    ) in
    rw sized at (from_be_bytes_bound (a ++ (b ++ (c ++ d))) bytes)

-- A commitment fits its 32 bytes.
pub commit_bound : (domain : Bytes) (parts : List Bytes) → commit domain parts < 256 ^ 32
unfolding commit digest id_from_bytes
commit_bound domain parts =
    let input = domain ++ flatten parts in
    four_words (digest_lane input 0) (digest_lane input 1) (digest_lane input 2)
      (digest_lane input 3) (digest_lane-IsWord input 0) (digest_lane-IsWord input 1)
      (digest_lane-IsWord input 2) (digest_lane-IsWord input 3)
