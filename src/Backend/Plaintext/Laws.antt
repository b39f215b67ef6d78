-- ===== src/Backend/Plaintext/Laws.antt =====
-- `PlaintextBackend` meets the contract of a backend and computes on amounts.
use ppsc.Base.{
  refl, ℕ, ◌<◌, ◌≡◌, Option, none, some, arith, Result, ok, err, length-append, drop-append_self,
}
use ppsc.Base.Bytes.{
  u128_mod, to_be_bytes, length-to_be_bytes, from_be_bytes-to_be_bytes, starts_with-append,
}
use ppsc.Backend.{BackendError}
use ppsc.Backend.Plaintext.{
  encode_secret, decode_secret, encode_ciphertext, decode_ciphertext, dev_fhe_prefix,
}
use ppsc.Backend.Plaintext.{fhe_to_mpc, mpc_to_fhe}
use ppsc.Backend.{FheAmount, IsCorrect, MpcAmount}
use ppsc.Backend.Plaintext.{checked_add, checked_sub, greater_than_or_equal, plaintext_backend}
use ppsc.Backend.{PrivateAccountId}
use ppsc.Backend.{AssetId, leb}
use ppsc.Base.{if◌then◌else◌, ◌+◌, ◌≤◌}
use ppsc.Base.{◌-◌}
use ppsc.Backend.Plaintext.{ltb}
use ppsc.Backend.{overflow}
use ppsc.Backend.Plaintext.{conditional_transfer_strictly_greater}
use ppsc.Backend.{insufficient_balance}
use ppsc.Backend.Plaintext.{transfer_values}

-- The amount that a decoding yields, if it is an amount of 128 bits.
abbrev value_of : Result BackendError ℕ → Option ℕ
value_of (ok a) = if ltb a u128_mod then some a else none
value_of (err e) = none

-- Encoding and decoding are inverse on amounts of 128 bits.
pub decode_secret-encode_secret : (a : ℕ) → a < u128_mod → decode_secret (encode_secret a) ≡ ok a
unfolding decode_secret encode_secret
decode_secret-encode_secret a h = rw (length-to_be_bytes 16 a, from_be_bytes-to_be_bytes 16 a h)

pub decode_ciphertext-encode_ciphertext :
    (a : ℕ) → a < u128_mod → decode_ciphertext (encode_ciphertext a) ≡ ok a
unfolding decode_ciphertext encode_ciphertext
decode_ciphertext-encode_ciphertext a h = ground (
  arith,
  starts_with-append dev_fhe_prefix (to_be_bytes 16 a),
  length-append dev_fhe_prefix (to_be_bytes 16 a),
  length-to_be_bytes 16 a,
  drop-append_self dev_fhe_prefix (to_be_bytes 16 a),
  from_be_bytes-to_be_bytes 16 a h,
)

mpc_value : MpcAmount → Option ℕ
mpc_value m = value_of (decode_secret m)

fhe_value : FheAmount → Option ℕ
fhe_value c = value_of (decode_ciphertext c)

decode_of_value :
    (r : Result BackendError ℕ) {a : ℕ} → value_of r ≡ some a → (r ≡ ok a) × (a < u128_mod)
decode_of_value (ok b) h = ground arith
decode_of_value (err e) h = cc

mpc_decoded :
    (m : MpcAmount) (a : ℕ) → mpc_value m ≡ some a → (decode_secret m ≡ ok a) × (a < u128_mod)
unfolding mpc_value
mpc_decoded m a h = decode_of_value (decode_secret m) h

fhe_decoded :
    (c : FheAmount) (a : ℕ) → fhe_value c ≡ some a → (decode_ciphertext c ≡ ok a) × (a < u128_mod)
unfolding fhe_value
fhe_decoded c a h = decode_of_value (decode_ciphertext c) h

mpc_value-encode_secret : (a : ℕ) → a < u128_mod → mpc_value (encode_secret a) ≡ some a
unfolding mpc_value
mpc_value-encode_secret a h = ground (arith, decode_secret-encode_secret a h)

fhe_value-encode_ciphertext : (a : ℕ) → a < u128_mod → fhe_value (encode_ciphertext a) ≡ some a
unfolding fhe_value
fhe_value-encode_ciphertext a h = ground (arith, decode_ciphertext-encode_ciphertext a h)

module _ (l r : MpcAmount) (a b : ℕ) (p : mpc_value l ≡ some a) (q : mpc_value r ≡ some b) where
  plaintext_adds :
      a + b < u128_mod → (m : MpcAmount) × (checked_add l r ≡ ok m) × (mpc_value m ≡ some (a + b))
  unfolding checked_add
  plaintext_adds h = (
    encode_secret (a + b),
    ground (arith, mpc_decoded l a p, mpc_decoded r b q),
    mpc_value-encode_secret (a + b) h,
  )

  plaintext_add_overflows : u128_mod ≤ a + b → checked_add l r ≡ err overflow
  unfolding checked_add
  plaintext_add_overflows h = ground (arith, mpc_decoded l a p, mpc_decoded r b q)

  plaintext_subtracts :
      b ≤ a → (m : MpcAmount) × (checked_sub l r ≡ ok m) × (mpc_value m ≡ some (a - b))
  unfolding checked_sub
  plaintext_subtracts h = (
    encode_secret (a - b),
    ground (arith, mpc_decoded l a p, mpc_decoded r b q),
    mpc_value-encode_secret (a - b) (omega (arith, (mpc_decoded l a p).1)),
  )

  plaintext_compares : greater_than_or_equal l r ≡ ok (leb b a)
  unfolding greater_than_or_equal
  plaintext_compares = ground (arith, mpc_decoded l a p, mpc_decoded r b q)

plaintext_to_mpc :
    (c : FheAmount) (a : ℕ)
    → fhe_value c ≡ some a
    → (m : MpcAmount) × (fhe_to_mpc c ≡ ok m) × (mpc_value m ≡ some a)
unfolding fhe_to_mpc
plaintext_to_mpc c a p =
    (encode_secret a, rw (fhe_decoded c a p).0, mpc_value-encode_secret a (fhe_decoded c a p).1)

plaintext_to_fhe :
    (m : MpcAmount) (account : PrivateAccountId) (asset : AssetId) (a : ℕ)
    → mpc_value m ≡ some a
    → (c : FheAmount) × (mpc_to_fhe m account asset ≡ ok c) × (fhe_value c ≡ some a)
unfolding mpc_to_fhe
plaintext_to_fhe m account asset a p = (
  encode_ciphertext a,
  rw (mpc_decoded m a p).0,
  fhe_value-encode_ciphertext a (mpc_decoded m a p).1,
)

pub plaintext_contract : IsCorrect plaintext_backend
plaintext_contract = record {
  mpc_value = mpc_value;
  fhe_value = fhe_value;
  shares = λ a h. (encode_secret a, refl, mpc_value-encode_secret a h);
  encrypts = λ a account asset h. (encode_ciphertext a, refl, fhe_value-encode_ciphertext a h);
  to_mpc = plaintext_to_mpc;
  to_fhe = plaintext_to_fhe;
  adds = plaintext_adds;
  add_overflows = plaintext_add_overflows;
  subtracts = plaintext_subtracts;
  compares = plaintext_compares;
}

-- The contract reads an encoded amount as that amount.
pub plaintext_value :
    (a : ℕ) → a < u128_mod → plaintext_contract.fhe_value (encode_ciphertext a) ≡ some a
unfolding plaintext_contract
plaintext_value a h = fhe_value-encode_ciphertext a h

module _ (a b : ℕ) (a_fits : a < u128_mod) (b_fits : b < u128_mod) where
  -- On two amounts below 2 ^ 128 of the plaintext backend: the conversions between shares and
  -- ciphertexts keep the first amount, addition and subtraction of the shares give the shares of
  -- the sum and difference or the overflow and insufficient-balance errors, and the comparison
  -- says whether the first is at least the second.
  pub plaintext_backend_computes :
      (fhe_to_mpc (encode_ciphertext a) ≡ ok (encode_secret a))
      × ((account : PrivateAccountId) (asset : AssetId)
          → mpc_to_fhe (encode_secret a) account asset ≡ ok (encode_ciphertext a))
      × (checked_add (encode_secret a) (encode_secret b)
          ≡ (if ltb (a + b) u128_mod then ok (encode_secret (a + b)) else err overflow))
      × (checked_sub (encode_secret a) (encode_secret b)
          ≡ (if ltb a b then err insufficient_balance else ok (encode_secret (a - b))))
      × (greater_than_or_equal (encode_secret a) (encode_secret b) ≡ ok (leb b a))
  unfolding fhe_to_mpc mpc_to_fhe checked_add checked_sub greater_than_or_equal
  plaintext_backend_computes =
      let left = decode_secret-encode_secret a a_fits in
      let right = decode_secret-encode_secret b b_fits in
      (
        rw (decode_ciphertext-encode_ciphertext a a_fits) refl,
        (λ account asset. rw left refl),
        ground (arith, left, right),
        ground (arith, left, right),
        ground (arith, left, right),
      )

-- On shares of four amounts below 2 ^ 128, the conditional transfer leaves both balances alone
-- when the sender's is at most the minimum, and otherwise moves the amount from sender to
-- receiver, or fails when the sender has less than the amount or the receiver's balance would
-- overflow.
pub conditional_transfer_moves :
    (sender receiver minimum amount : ℕ)
    → sender < u128_mod
    → receiver < u128_mod
    → minimum < u128_mod
    → amount < u128_mod
    → conditional_transfer_strictly_greater
        (encode_secret sender)
        (encode_secret receiver)
        (encode_secret minimum)
        (encode_secret amount)
      ≡ (if leb sender minimum
          then ok (encode_secret sender, encode_secret receiver)
          else if ltb sender amount
          then err insufficient_balance
          else if ltb (receiver + amount) u128_mod
          then ok (encode_secret (sender - amount), encode_secret (receiver + amount))
          else err overflow)
unfolding conditional_transfer_strictly_greater transfer_values
conditional_transfer_moves sender receiver minimum amount hs hr hm ha = ground (
  arith,
  decode_secret-encode_secret sender hs,
  decode_secret-encode_secret receiver hr,
  decode_secret-encode_secret minimum hm,
  decode_secret-encode_secret amount ha,
)
