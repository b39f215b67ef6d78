-- ===== src/Ledger/Withdrawal.antt =====
-- `debit_withdrawal` against its specification on plain numbers.
use ppsc.Base.{
  ℕ, ◌+◌, ◌-◌, ◌≤◌, ◌<◌, ◌≡◌, refl, ap, ◌∙◌, inl, inr, false, not, Option, none, some, ◌∷◌, arith,
  leb, ◌==◌, if◌then◌else◌, leb→le, le→leb, Bool-cases, Option-cases, Result, ok, err, ok_or, after,
  nat_eq, pair_eq, bytes_eq, string_eq,
}
use ppsc.Ledger.State.{
  RuntimeError, RuntimeState, WithdrawalCommand, StateTransition, BalanceRecord, BalanceKey,
  next_version, next_record, invalid_amount, stale_state_root, nullifier_already_spent,
  balance_not_found, insufficient_balance, state_unavailable,
}
use ppsc.Ledger.Value.{
  value_or_zero, balance_of, HasValue, IsValid, total, IsValid-lookup, total-insert,
}
use ppsc.Base.Dict.{lookup, lookup-insert, insert-AllValues, contains}
use ppsc.Base.Bytes.{u128_mod}
use ppsc.Backend.{ConfidentialBackend, IsCorrect, FheAmount}
use ppsc.Ledger.Operations.{debited, store_withdrawal, debit_withdrawal}

-- A balance after a withdrawal.
abbrev pub debited_balance : ℕ → Option ℕ → Result RuntimeError ℕ
debited_balance amount none = err balance_not_found
debited_balance amount (some a) = if leb amount a then ok (a - amount) else err insufficient_balance

-- The result of a withdrawal: an error, or the new balance.
abbrev pub withdrawal_result : WithdrawalCommand → RuntimeState → Option ℕ → Result RuntimeError ℕ
withdrawal_result c s old =
    if c.gross_amount == 0
    then err invalid_amount
    else if s.poisoned
    then err state_unavailable
    else if not (s.state_root == c.expected_old_state_root)
    then err stale_state_root
    else if contains s.spent_nullifiers c.nullifier
    then err nullifier_already_spent
    else debited_balance c.gross_amount old

module _ {B : ConfidentialBackend} (C : IsCorrect B) (c : WithdrawalCommand) where
  -- What a withdrawal has done, by its specified result: an error left the state alone; a success
  -- gave the account its new balance and touched no other.
  abbrev pub Withdraws :
      RuntimeState
      → BalanceKey
      → Result RuntimeError ℕ
      → Result RuntimeError StateTransition × RuntimeState
      → Type 0
  Withdraws s k (err e) out = out ≡ (err e, s)
  Withdraws s k (ok a) (err e, s') = ⊥
  Withdraws s k (ok a) (ok t, s') =
      IsValid C s'
      × (balance_of C k s'
          ≡ (if pair_eq.beq (c.account, c.asset) k then some a else balance_of C k s))
      × (s'.spent_nullifiers ≡ c.nullifier ∷ s.spent_nullifiers)
      × (s'.state_root ≡ t.new_state_root)
      × (total C k.1 s'
            + (if c.asset == k.1 then value_or_zero (balance_of C (c.account, c.asset) s) else 0)
          ≡ total C k.1 s + (if c.asset == k.1 then a else 0))

module _ {B : ConfidentialBackend} (C : IsCorrect B) (c : WithdrawalCommand)
    (amount_fits : c.gross_amount < u128_mod) where
  -- The backend's part of a withdrawal from a balance.
  abbrev Debits : ℕ → Result RuntimeError FheAmount → Type 0
  Debits old (ok x) = (c.gross_amount ≤ old) × (C.fhe_value x ≡ some (old - c.gross_amount))
  Debits old (err e) = (old < c.gross_amount) × (e ≡ insufficient_balance)

  debited-Debits :
      (r : BalanceRecord) {a : ℕ} → C.fhe_value r.ciphertext ≡ some a → Debits a (debited B c r)
  unfolding debited
  debited-Debits r {a} h =
      let (m, e1, v1) = C.to_mpc r.ciphertext a h in
      let (d, e2, v2) = C.shares c.gross_amount amount_fits in
      elim (Bool-cases (leb c.gross_amount a)) [
        | inl enough ↦
            let covered : c.gross_amount ≤ a = leb→le _ _ enough in
            let (n, e3, v3) = C.subtracts m d a c.gross_amount v1 v2 covered in
            let (x, e4, v4) = C.to_fhe n c.account c.asset (a - c.gross_amount) v3 in
            rw (e1, e2, C.compares m d a c.gross_amount v1 v2, enough, e3, e4) (covered, v4)
        | inr short ↦
            let less : a < c.gross_amount = ground arith in
            rw (e1, e2, C.compares m d a c.gross_amount v1 v2, short) (less, refl)
      ]

  store_withdrawal_lem :
      (s : RuntimeState) (k : BalanceKey) (x : FheAmount) (version : ℕ) {a : ℕ}
      → IsValid C s
      → C.fhe_value x ≡ some a
      → Withdraws C c s k (ok a) (store_withdrawal B c x version s)
  unfolding store_withdrawal
  store_withdrawal_lem s k x version {a} valid v = (
    insert-AllValues (HasValue C) (c.account, c.asset) _ s.balances (a, v) valid,
    rw (lookup-insert (c.account, c.asset) k) (ground arith),
    refl,
    refl,
    total-insert C k.1 (c.account, c.asset)
          (next_record B s.state_root c.account c.asset x version).0 s
        ∙ ap (λ o. total C k.1 s + (if c.asset == k.1 then value_or_zero o else 0)) v,
  )

  finish_withdrawal :
      (s : RuntimeState) (k : BalanceKey) (r : Result RuntimeError FheAmount) (version old : ℕ)
      → IsValid C s
      → Debits old r
      → Withdraws C c s k
          (debited_balance c.gross_amount (some old))
          (after (r, s) (λ x. store_withdrawal B c x version))
  finish_withdrawal s k (ok x) version old valid (covered, v) =
      rw (le→leb _ _ covered) (store_withdrawal_lem s k x version valid v)
  finish_withdrawal s k (err e) version old valid (short, why) =
      let less : leb c.gross_amount old ≡ false = ground arith in rw (less, why) refl

  withdraw_balance :
      (s : RuntimeState) (k : BalanceKey)
      → IsValid C s
      → Withdraws C c s k (debited_balance c.gross_amount (balance_of C (c.account, c.asset) s)) (
          after
            (ok_or (lookup (c.account, c.asset) s.balances) balance_not_found, s)
            (λ r s1.
              after (debited B c r, s1) (λ x. store_withdrawal B c x (next_version r.version))))
  withdraw_balance s k valid = elim (Option-cases (lookup (c.account, c.asset) s.balances)) [
    | inl absent ↦ rw absent refl
    | inr (r, found) ↦
        let (a, v) = IsValid-lookup C s (c.account, c.asset) valid found in
        rw (found, v)
          (finish_withdrawal s k (debited B c r) (next_version r.version) a valid
            (debited-Debits r v))
  ]

  -- For every backend that meets the contract `IsCorrect`, a withdrawal whose gross amount fits
  -- 128 bits, on a state whose stored ciphertexts all decrypt, implements `withdrawal_result` on
  -- the plain balances. Where that is an error (amount 0, unavailable state, stale root, a spent
  -- nullifier, no record, a balance below the amount), the same error is returned and the state
  -- is unchanged. Otherwise the withdrawal succeeds, the account holds its old balance less the
  -- amount, every other balance is as before, the nullifier is recorded, the state root is the
  -- returned one, and the total in the asset falls by the amount.
  pub debit_withdrawal-refines :
      (s : RuntimeState) (k : BalanceKey)
      → IsValid C s
      → Withdraws C c s k
          (withdrawal_result c s (balance_of C (c.account, c.asset) s))
          (debit_withdrawal B c s)
  unfolding debit_withdrawal
  debit_withdrawal-refines s k valid = elim (Bool-cases (c.gross_amount == 0)) [
    | inl e ↦ rw e refl
    | inr e1 ↦ rw e1 (elim (Bool-cases s.poisoned) [
      | inl e ↦ simp e refl
      | inr e2 ↦ simp e2 (elim (Bool-cases (s.state_root == c.expected_old_state_root)) [
        | inl e3 ↦ rw e3 (elim (Bool-cases (contains s.spent_nullifiers c.nullifier)) [
          | inl e ↦ rw e refl
          | inr e4 ↦ rw e4 (withdraw_balance s k valid)
        ])
        | inr e ↦ rw e refl
      ])
    ])
  ]
