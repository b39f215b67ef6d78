-- ===== src/Backend.antt =====
-- crates/runtime/src/lib.rs: the backend traits `MpcBackend`, `FheBackend`,
-- `HybridConversionBackend` and `CommitmentBackend` as one interface, and what a correct backend
-- promises. `MpcAmount` and `FheAmount` wrap byte strings; the interface handles the bytes.
pub mod Plaintext
pub mod Tests
use ppsc.Base.{ℕ, ◌+◌, ◌-◌, ◌≤◌, ◌<◌, ◌≡◌, Bool, Option, some, List, Result, ok, err, leb}
use ppsc.Base.Bytes.{Bytes, u128_mod}
use ppsc.Core.{Identifier, Commitment}

-- `PrivateAccountId` (32 bytes) and `AssetId` (20 bytes)
abbrev pub PrivateAccountId : Type 0
PrivateAccountId = Identifier

abbrev pub AssetId : Type 0
AssetId = Identifier

abbrev pub MpcAmount : Type 0
MpcAmount = Bytes

abbrev pub FheAmount : Type 0
FheAmount = Bytes

pub data BackendError : Type 0 where
  invalid_encoding invalid_ciphertext unauthorized overflow insufficient_balance : BackendError

pub record ConfidentialBackend : Type 0 where
  pub share_amount : ℕ → Result BackendError MpcAmount
  pub checked_add : MpcAmount → MpcAmount → Result BackendError MpcAmount
  pub checked_sub : MpcAmount → MpcAmount → Result BackendError MpcAmount
  pub greater_than_or_equal : MpcAmount → MpcAmount → Result BackendError Bool
  pub conditional_transfer_strictly_greater :
      MpcAmount → MpcAmount → MpcAmount → MpcAmount → Result BackendError (MpcAmount × MpcAmount)
  pub encrypt_amount : ℕ → PrivateAccountId → AssetId → Result BackendError FheAmount
  pub decrypt_for_owner : FheAmount → PrivateAccountId → Bytes → Result BackendError ℕ
  pub fhe_to_mpc : FheAmount → Result BackendError MpcAmount
  pub mpc_to_fhe : MpcAmount → PrivateAccountId → AssetId → Result BackendError FheAmount
  pub commit : Bytes → List Bytes → Commitment

-- The contract of a backend: what a share and a ciphertext stand for, and that each operation
-- acts on what its arguments stand for. `mpc_value` and `fhe_value` are the specification's.
pub record IsCorrect (B : ConfidentialBackend) : Type 0 where
  pub mpc_value : MpcAmount → Option ℕ
  pub fhe_value : FheAmount → Option ℕ
  pub shares :
      (a : ℕ) → a < u128_mod → (m : MpcAmount) × (B.share_amount a ≡ ok m) × (mpc_value m ≡ some a)
  pub encrypts :
      (a : ℕ) (account : PrivateAccountId) (asset : AssetId)
      → a < u128_mod
      → (c : FheAmount) × (B.encrypt_amount a account asset ≡ ok c) × (fhe_value c ≡ some a)
  pub to_mpc :
      (c : FheAmount) (a : ℕ)
      → fhe_value c ≡ some a
      → (m : MpcAmount) × (B.fhe_to_mpc c ≡ ok m) × (mpc_value m ≡ some a)
  pub to_fhe :
      (m : MpcAmount) (account : PrivateAccountId) (asset : AssetId) (a : ℕ)
      → mpc_value m ≡ some a
      → (c : FheAmount) × (B.mpc_to_fhe m account asset ≡ ok c) × (fhe_value c ≡ some a)
  pub adds :
      (l r : MpcAmount) (a b : ℕ)
      → mpc_value l ≡ some a
      → mpc_value r ≡ some b
      → a + b < u128_mod
      → (m : MpcAmount) × (B.checked_add l r ≡ ok m) × (mpc_value m ≡ some (a + b))
  pub add_overflows :
      (l r : MpcAmount) (a b : ℕ)
      → mpc_value l ≡ some a
      → mpc_value r ≡ some b
      → u128_mod ≤ a + b
      → B.checked_add l r ≡ err overflow
  pub subtracts :
      (l r : MpcAmount) (a b : ℕ)
      → mpc_value l ≡ some a
      → mpc_value r ≡ some b
      → b ≤ a
      → (m : MpcAmount) × (B.checked_sub l r ≡ ok m) × (mpc_value m ≡ some (a - b))
  pub compares :
      (l r : MpcAmount) (a b : ℕ)
      → mpc_value l ≡ some a
      → mpc_value r ≡ some b
      → B.greater_than_or_equal l r ≡ ok (leb b a)
