-- ===== src/Manifest/Plaintext/Laws.antt =====
-- `PlaintextManifestBackend` computes on the amounts that its values encode.
use ppsc.Base.{
  ℕ, ◌+◌, ◌-◌, ◌<◌, ◌≡◌, refl, Bool, true, false, [], ◌∷◌, arith, ltb, leb, if◌then◌else◌,
  length-append, ok, err, and_then, nat_eq, pair_eq, bytes_eq, string_eq,
}
use ppsc.Base.Bytes.{Bytes, u128_mod, to_be_bytes}
use ppsc.Manifest.Types.{
  ValueType, fhe_uint, fhe_bool, sint, secret_bool, opened, type_beq, overflow, underflow,
  ManifestValue,
}
use ppsc.Manifest.Plaintext.{
  fhe_uint_prefix, fhe_bool_prefix, ss_uint_prefix, ss_bool_prefix, opened_prefix, encoded,
  fhe_uint_of, secret_uint_of, bool_byte, decode_u128, decode_bool, two_u128, convert_h2s, evaluate,
  pick, open_for_tests,
}
use ppsc.Base.Bytes.{starts_with-append, length-to_be_bytes, from_be_bytes-to_be_bytes}
use ppsc.Base.{drop-append_self}

decode_u128-encoded :
    (t : ValueType) (prefix : Bytes) (a : ℕ)
    → a < u128_mod
    → decode_u128 (encoded t prefix (to_be_bytes 16 a)) prefix ≡ ok a
unfolding decode_u128
decode_u128-encoded t prefix a h = ground (
  arith,
  starts_with-append prefix (to_be_bytes 16 a),
  length-append prefix (to_be_bytes 16 a),
  length-to_be_bytes 16 a,
  drop-append_self prefix (to_be_bytes 16 a),
  from_be_bytes-to_be_bytes 16 a h,
)

two_u128-encoded :
    (t : ValueType) (prefix : Bytes) (a b : ℕ)
    → a < u128_mod
    → b < u128_mod
    → two_u128
        (encoded t prefix (to_be_bytes 16 a) ∷ encoded t prefix (to_be_bytes 16 b) ∷ [])
        prefix
      ≡ ok (a, b)
unfolding two_u128
two_u128-encoded t prefix a b ha hb =
    rw (decode_u128-encoded t prefix a ha, decode_u128-encoded t prefix b hb) refl

h2s_uint : (a : ℕ) → a < u128_mod → convert_h2s (fhe_uint_of a) ≡ ok (secret_uint_of a)
unfolding convert_h2s type_beq fhe_uint_of
h2s_uint a h = rw (decode_u128-encoded fhe_uint fhe_uint_prefix a h) refl

h2s_bool :
    (b : Bool)
    → convert_h2s (encoded fhe_bool fhe_bool_prefix (bool_byte b))
      ≡ ok (encoded secret_bool ss_bool_prefix (bool_byte b))
unfolding convert_h2s type_beq decode_bool
h2s_bool true = refl
h2s_bool false = refl

evaluate_h2s : (v : ManifestValue) → evaluate "convert.h2s" (v ∷ []) ≡ convert_h2s v
unfolding evaluate
evaluate_h2s v = refl

module _ (a b : ℕ) (a_fits : a < u128_mod) (b_fits : b < u128_mod) where
  -- On the ciphertexts of two amounts below 2 ^ 128, addition gives the ciphertext of the sum or
  -- an overflow, subtraction that of the difference or an underflow, and the comparison the
  -- encrypted truth of the first being at least the second.
  pub evaluate_computes :
      let arguments = fhe_uint_of a ∷ fhe_uint_of b ∷ [] in
      (evaluate "fhe.add" arguments
        ≡ (if ltb (a + b) u128_mod then ok (fhe_uint_of (a + b)) else err overflow))
      × (evaluate "fhe.sub" arguments
          ≡ (if ltb a b then err underflow else ok (fhe_uint_of (a - b))))
      × (evaluate "fhe.ge" arguments ≡ ok (encoded fhe_bool fhe_bool_prefix (bool_byte (leb b a))))
  unfolding evaluate fhe_uint_of
  evaluate_computes =
      let read = two_u128-encoded fhe_uint fhe_uint_prefix a b a_fits b_fits in
      (ground (arith, read), ground (arith, read), ground (arith, read))

  mpc_computes :
      let arguments = secret_uint_of a ∷ secret_uint_of b ∷ [] in
      (evaluate "mpc.add" arguments
        ≡ (if ltb (a + b) u128_mod then ok (secret_uint_of (a + b)) else err overflow))
      × (evaluate "mpc.sub" arguments
          ≡ (if ltb a b then err underflow else ok (secret_uint_of (a - b))))
      × (evaluate "mpc.ge" arguments
          ≡ ok (encoded secret_bool ss_bool_prefix (bool_byte (leb b a))))
  unfolding evaluate secret_uint_of
  mpc_computes =
      let read = two_u128-encoded sint ss_uint_prefix a b a_fits b_fits in
      (ground (arith, read), ground (arith, read), ground (arith, read))

  -- On two amounts below 2 ^ 128, adding, subtracting or comparing their ciphertexts and
  -- converting the result to shares gives the same result, errors included, as the operation on
  -- the shares themselves.
  pub conversion_commutes :
      let encrypted = fhe_uint_of a ∷ fhe_uint_of b ∷ [] in
      let shared = secret_uint_of a ∷ secret_uint_of b ∷ [] in
      (and_then (evaluate "fhe.add" encrypted) (λ c. evaluate "convert.h2s" (c ∷ []))
        ≡ evaluate "mpc.add" shared)
      × (and_then (evaluate "fhe.sub" encrypted) (λ c. evaluate "convert.h2s" (c ∷ []))
          ≡ evaluate "mpc.sub" shared)
      × (and_then (evaluate "fhe.ge" encrypted) (λ c. evaluate "convert.h2s" (c ∷ []))
          ≡ evaluate "mpc.ge" shared)
  conversion_commutes =
      let (add, sub, ge) = evaluate_computes in
      let (mpc_add, mpc_sub, mpc_ge) = mpc_computes in
      (
        ground (arith, add, mpc_add, evaluate_h2s (fhe_uint_of (a + b)), h2s_uint (a + b)),
        ground (
          arith,
          sub,
          mpc_sub,
          evaluate_h2s (fhe_uint_of (a - b)),
          h2s_uint (a - b) (omega (arith, a_fits)),
        ),
        ground (
          arith,
          ge,
          mpc_ge,
          evaluate_h2s (encoded fhe_bool fhe_bool_prefix (bool_byte (leb b a))),
          h2s_bool (leb b a),
        ),
      )

module _ (a : ℕ) (fits : a < u128_mod) where
  -- For an amount below 2 ^ 128, the conversion of its ciphertext to shares and back gives the
  -- ciphertext again, its ciphertext and its shares open to it, and picking its shares gives a
  -- value that opens to it.
  pub conversions_round_trip :
      (and_then (evaluate "convert.h2s" (fhe_uint_of a ∷ [])) (λ v. evaluate "convert.s2h" (v ∷ []))
        ≡ ok (fhe_uint_of a))
      × (open_for_tests (fhe_uint_of a) ≡ ok a)
      × (open_for_tests (secret_uint_of a) ≡ ok a)
      × (and_then (pick (secret_uint_of a)) open_for_tests ≡ ok a)
  unfolding evaluate fhe_uint_of secret_uint_of pick open_for_tests type_beq
  conversions_round_trip =
      let encrypted = decode_u128-encoded fhe_uint fhe_uint_prefix a fits in
      let shared = decode_u128-encoded sint ss_uint_prefix a fits in
      let picked = decode_u128-encoded opened opened_prefix a fits in
      (
        rw (evaluate_h2s (fhe_uint_of a), h2s_uint a fits, shared) refl,
        encrypted,
        shared,
        rw (shared, picked) refl,
      )
