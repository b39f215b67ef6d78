-- ===== src/Ledger/Deposit.antt =====
-- `credit_deposit` against its specification on plain numbers.
use ppsc.Base.{
  ℕ, ◌+◌, ◌<◌, ◌≤◌, ◌≡◌, refl, ◌==◌, not, if◌then◌else◌, Option, none, some, nat_eq, pair_eq, arith,
  Result, ok, err, ltb, inl, inr, Option-cases, Bool-cases, ltb→lt,
}
use ppsc.Base.Dict.{lookup, lookup-insert, insert-AllValues, contains}
use ppsc.Base.Bytes.{u128_mod}
use ppsc.Backend.{ConfidentialBackend, BackendError, IsCorrect, FheAmount, overflow}
use ppsc.Ledger.State.{BalanceKey, BalanceRecord, RuntimeState}
use ppsc.Ledger.State.{DepositCommand}
use ppsc.Ledger.Operations.{credited}
use ppsc.Ledger.State.{RuntimeError}
use ppsc.Ledger.State.{invalid_amount}
use ppsc.Ledger.Value.{value_or_zero}
use ppsc.Ledger.State.{state_unavailable}
use ppsc.Ledger.State.{stale_state_root}
use ppsc.Ledger.State.{deposit_already_processed}
use ppsc.Ledger.State.{next_version}
use ppsc.Ledger.State.{StateTransition}
use ppsc.Ledger.Operations.{store_deposit}
use ppsc.Base.{ap}
use ppsc.Ledger.Value.{IsValid}
use ppsc.Ledger.Value.{HasValue, balance_of}
use ppsc.Base.{◌∷◌}
use ppsc.Base.{after}
use ppsc.Ledger.Operations.{credit_deposit}
use ppsc.Ledger.Value.{IsValid-lookup}
use ppsc.Ledger.State.{or_backend_error}
use ppsc.Base.{lt→ltb}
use ppsc.Base.{false}
use ppsc.Ledger.Value.{total, total-insert}
use ppsc.Ledger.State.{next_record}
use ppsc.Base.{◌∙◌}

-- The result of a deposit: an error, or the new balance.
abbrev pub deposit_result : DepositCommand → RuntimeState → Option ℕ → Result RuntimeError ℕ
deposit_result c s old =
    if c.amount == 0
    then err invalid_amount
    else if s.poisoned
    then err state_unavailable
    else if not (s.state_root == c.expected_old_state_root)
    then err stale_state_root
    else if contains s.processed_deposits c.deposit_id
    then err deposit_already_processed
    else if ltb (value_or_zero old + c.amount) u128_mod
    then ok (value_or_zero old + c.amount)
    else err (RuntimeError.backend overflow)

module _ {B : ConfidentialBackend} (C : IsCorrect B) (c : DepositCommand) where
  -- What a deposit has done, by its specified result: an error left the state alone; a success
  -- gave the account its new balance and touched no other.
  abbrev pub Deposits :
      RuntimeState
      → BalanceKey
      → Result RuntimeError ℕ
      → Result RuntimeError StateTransition × RuntimeState
      → Type 0
  Deposits s k (err e) out = out ≡ (err e, s)
  Deposits s k (ok a) (err e, s') = ⊥
  Deposits s k (ok a) (ok t, s') =
      IsValid C s'
      × (balance_of C k s'
          ≡ (if pair_eq.beq (c.account, c.asset) k then some a else balance_of C k s))
      × (s'.processed_deposits ≡ c.deposit_id ∷ s.processed_deposits)
      × (s'.state_root ≡ t.new_state_root)
      × (total C k.1 s'
            + (if c.asset == k.1 then value_or_zero (balance_of C (c.account, c.asset) s) else 0)
          ≡ total C k.1 s + (if c.asset == k.1 then a else 0))

module _ {B : ConfidentialBackend} (C : IsCorrect B) (c : DepositCommand)
    (amount_fits : c.amount < u128_mod) where
  credited_new :
      (r : FheAmount × ℕ) × (credited B c none ≡ ok r) × (C.fhe_value r.0 ≡ some c.amount)
  unfolding credited
  credited_new =
      let (x, e, v) = C.encrypts c.amount c.account c.asset amount_fits in ((x, 1), rw e, v)

  credited_fits :
      (current : BalanceRecord) {a : ℕ}
      → C.fhe_value current.ciphertext ≡ some a
      → a + c.amount < u128_mod
      → (r : FheAmount × ℕ) × (credited B c (some current) ≡ ok r)
        × (C.fhe_value r.0 ≡ some (a + c.amount))
  unfolding credited
  credited_fits current {a} h fits =
      let (m, e1, v1) = C.to_mpc current.ciphertext a h in
      let (d, e2, v2) = C.shares c.amount amount_fits in
      let (n, e3, v3) = C.adds m d a c.amount v1 v2 fits in
      let (x, e4, v4) = C.to_fhe n c.account c.asset (a + c.amount) v3 in
      ((x, next_version current.version), rw (e1, e2, e3, e4), v4)

  credited_overflows :
      (current : BalanceRecord) {a : ℕ}
      → C.fhe_value current.ciphertext ≡ some a
      → u128_mod ≤ a + c.amount
      → credited B c (some current) ≡ err overflow
  unfolding credited
  credited_overflows current {a} h over =
      let (m, e1, v1) = C.to_mpc current.ciphertext a h in
      let (d, e2, v2) = C.shares c.amount amount_fits in
      rw (e1, e2, C.add_overflows m d a c.amount v1 v2 over)

  -- The backend's part of a deposit onto a balance.
  abbrev Credits : ℕ → Result BackendError (FheAmount × ℕ) → Type 0
  Credits old (ok r) = (old + c.amount < u128_mod) × (C.fhe_value r.0 ≡ some (old + c.amount))
  Credits old (err e) = (u128_mod ≤ old + c.amount) × (e ≡ overflow)

  credited-none-Credits : Credits 0 (credited B c none)
  credited-none-Credits =
      let (r, e, v) = credited_new in
      rw e (omega (arith, amount_fits), rw v (ap some (omega arith)))

  credited-some-Credits :
      (r : BalanceRecord) {a : ℕ}
      → C.fhe_value r.ciphertext ≡ some a
      → Credits a (credited B c (some r))
  credited-some-Credits r {a} h = elim (Bool-cases (ltb (a + c.amount) u128_mod)) [
    | inl fits ↦ let (x, e, v) = credited_fits r h (ltb→lt _ _ fits) in rw e (ltb→lt _ _ fits, v)
    | inr over ↦
        let big : u128_mod ≤ a + c.amount = ground arith in
        rw (credited_overflows r h big) (big, refl)
  ]

  store_deposit_lem :
      (s : RuntimeState) (k : BalanceKey) (r : FheAmount × ℕ) {a : ℕ}
      → IsValid C s
      → C.fhe_value r.0 ≡ some a
      → Deposits C c s k (ok a) (store_deposit B c r s)
  unfolding store_deposit
  store_deposit_lem s k (x, version) {a} valid v = (
    insert-AllValues (HasValue C) (c.account, c.asset) _ s.balances (a, v) valid,
    rw (lookup-insert (c.account, c.asset) k) (ground arith),
    refl,
    refl,
    total-insert C k.1 (c.account, c.asset)
          (record {
            ciphertext = x;
            data_id = (next_record B s.state_root c.account c.asset x version).0.data_id;
            version = version;
          })
          s
        ∙ ap (λ o. total C k.1 s + (if c.asset == k.1 then value_or_zero o else 0)) v,
  )

  finish_deposit :
      (s : RuntimeState) (k : BalanceKey) (r : Result BackendError (FheAmount × ℕ)) (old : ℕ)
      → IsValid C s
      → Credits old r
      → Deposits C c s k
          (if ltb (old + c.amount) u128_mod
            then ok (old + c.amount)
            else err (RuntimeError.backend overflow))
          (after (or_backend_error r, s) (store_deposit B c))
  finish_deposit s k (ok x) old valid (fits, v) =
      rw (lt→ltb _ _ fits) (store_deposit_lem s k x valid v)
  finish_deposit s k (err e) old valid (over, why) =
      let full : ltb (old + c.amount) u128_mod ≡ false = ground arith in rw (full, why) refl

  credited_balance :
      (s : RuntimeState)
      → IsValid C s
      → Credits
          (value_or_zero (balance_of C (c.account, c.asset) s))
          (credited B c (lookup (c.account, c.asset) s.balances))
  credited_balance s valid = elim (Option-cases (lookup (c.account, c.asset) s.balances)) [
    | inl new ↦ rw new credited-none-Credits
    | inr (r, found) ↦
        let (a, v) = IsValid-lookup C s (c.account, c.asset) valid found in
        rw (found, v) (credited-some-Credits r v)
  ]

  -- For every backend that meets the contract `IsCorrect`, a deposit whose amount fits 128 bits,
  -- on a state whose stored ciphertexts all decrypt, implements `deposit_result` on the plain
  -- balances. Where that is an error (amount 0, unavailable state, stale root, a deposit
  -- processed before, an overflow of the balance), the same error is returned and the state is
  -- unchanged. Otherwise the deposit succeeds, the account holds its old balance plus the amount,
  -- every other balance is as before, the deposit id is recorded, the state root is the returned
  -- one, and the total in the asset grows by the amount.
  pub credit_deposit-refines :
      (s : RuntimeState) (k : BalanceKey)
      → IsValid C s
      → Deposits C c s k
          (deposit_result c s (balance_of C (c.account, c.asset) s))
          (credit_deposit B c s)
  unfolding credit_deposit
  credit_deposit-refines s k valid = elim (Bool-cases (c.amount == 0)) [
    | inl e ↦ rw e refl
    | inr e1 ↦ rw e1 (elim (Bool-cases s.poisoned) [
      | inl e ↦ simp e refl
      | inr e2 ↦ simp e2 (elim (Bool-cases (s.state_root == c.expected_old_state_root)) [
        | inl e3 ↦ rw e3 (elim (Bool-cases (contains s.processed_deposits c.deposit_id)) [
          | inl e ↦ rw e refl
          | inr e4 ↦ rw e4 (finish_deposit s k _ _ valid (credited_balance s valid))
        ])
        | inr e ↦ rw e refl
      ])
    ])
  ]
