-- ===== src/Ledger/Value.antt =====
-- What the ledger's ciphertexts stand for, by the backend's contract: the balance of an account,
-- the total of an asset, and the invariant that every stored ciphertext has a value.
use ppsc.Base.{ℕ, ◌+◌, ◌≡◌, refl, ◌==◌, if◌then◌else◌, Option, none, some, nat_eq, pair_eq, arith}
use ppsc.Base.Dict.{
  lookup, insert, AllValues, AllValues-lookup, sum_values, sum_values-insert, measure_at,
}
use ppsc.Backend.{ConfidentialBackend, IsCorrect, AssetId}
use ppsc.Ledger.State.{BalanceKey, BalanceRecord, RuntimeState}

abbrev pub value_or_zero : Option ℕ → ℕ
value_or_zero none = 0
value_or_zero (some a) = a

module _ {B : ConfidentialBackend} (C : IsCorrect B) where
  abbrev pub record_value : Option BalanceRecord → Option ℕ
  record_value none = none
  record_value (some r) = C.fhe_value r.ciphertext

  abbrev pub balance_of : BalanceKey → RuntimeState → Option ℕ
  balance_of key s = record_value (lookup key s.balances)

  abbrev pub HasValue : BalanceRecord → Type 0
  HasValue r = (a : ℕ) × (C.fhe_value r.ciphertext ≡ some a)

  -- Every stored ciphertext decrypts.
  abbrev pub IsValid : RuntimeState → Type 0
  IsValid s = AllValues HasValue s.balances

  -- What one entry adds to the total of an asset.
  abbrev pub share_of : AssetId → BalanceKey → BalanceRecord → ℕ
  share_of asset key r = if key.1 == asset then value_or_zero (C.fhe_value r.ciphertext) else 0

  -- The sum of all balances in an asset.
  abbrev pub total : AssetId → RuntimeState → ℕ
  total asset s = sum_values (share_of asset) s.balances

  pub IsValid-lookup :
      (s : RuntimeState) (key : BalanceKey) {r : BalanceRecord}
      → IsValid s
      → lookup key s.balances ≡ some r
      → HasValue r
  IsValid-lookup s key h found = AllValues-lookup HasValue key s.balances h found

  measure-share_of :
      (asset : AssetId) (key : BalanceKey) (r : Option BalanceRecord)
      → measure_at (share_of asset) key r
        ≡ (if key.1 == asset then value_or_zero (record_value r) else 0)
  measure-share_of asset key none = ground arith
  measure-share_of asset key (some r) = refl

  -- Storing a record changes the total of an asset by the difference of two balances.
  pub total-insert :
      (asset : AssetId) (key : BalanceKey) (r : BalanceRecord) (s : RuntimeState)
      → sum_values (share_of asset) (insert key r s.balances)
          + (if key.1 == asset then value_or_zero (balance_of key s) else 0)
        ≡ total asset s + (if key.1 == asset then value_or_zero (C.fhe_value r.ciphertext) else 0)
  total-insert asset key r s =
      rw (← measure-share_of asset key (lookup key s.balances))
        (sum_values-insert (share_of asset) key r s.balances)
