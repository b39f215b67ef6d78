-- ===== src/Ledger/Supply.antt =====
-- The supply of an asset: deposits add to it, withdrawals take from it, transfers keep it. Over
-- any sequence of commands, whether they succeed or fail, the supply is what went in less what
-- went out.
use ppsc.Base.{
  ℕ, ◌+◌, ◌<◌, ◌≡◌, refl, List, [], ◌∷◌, arith, ◌==◌, if◌then◌else◌, All, Result, ok, err, nat_eq,
  pair_eq, bytes_eq, string_eq,
}
use ppsc.Ledger.State.{
  RuntimeError, RuntimeState, DepositCommand, WithdrawalCommand, TransferCommand, StateTransition,
  TransferTransition,
}
use ppsc.Ledger.Value.{balance_of, IsValid, total}
use ppsc.Base.Bytes.{u128_mod}
use ppsc.Backend.{ConfidentialBackend, IsCorrect, AssetId}
use ppsc.Ledger.Operations.{credit_deposit, debit_withdrawal}
use ppsc.Ledger.Exchange.{transfer}
use ppsc.Ledger.Deposit.{Deposits, deposit_result, credit_deposit-refines}
use ppsc.Ledger.Withdrawal.{Withdraws, withdrawal_result, debit_withdrawal-refines}
use ppsc.Ledger.Transfer.{Transfers, transfer-refines}

-- A call of the runtime's interface that may change the state.
pub data Command : Type 0 where
  deposit : DepositCommand → Command
  withdraw : WithdrawalCommand → Command
  move : TransferCommand → Command

abbrev pub if_ok : {A : Type 0} → Result RuntimeError A → ℕ → ℕ
if_ok (ok a) n = n
if_ok (err e) n = 0

abbrev if_asset : AssetId → AssetId → ℕ → ℕ
if_asset asset other n = if other == asset then n else 0

-- Amounts are `u128`.
abbrev pub Fits : Command → Type 0
Fits (deposit c) = c.amount < u128_mod
Fits (withdraw c) = c.gross_amount < u128_mod
Fits (move c) = c.amount < u128_mod

module _ (B : ConfidentialBackend) where
  -- The state after one command.
  abbrev pub run_command : Command → RuntimeState → RuntimeState
  run_command (deposit c) s = (credit_deposit B c s).1
  run_command (withdraw c) s = (debit_withdrawal B c s).1
  run_command (move c) s = (transfer B c s).1

  unfoldable pub run : List Command → RuntimeState → RuntimeState
  run [] s = s
  run (c ∷ cs) s = run cs (run_command c s)

  -- What a command brings into an asset, and what it takes out: nothing if it fails.
  abbrev pub inflow : AssetId → Command → RuntimeState → ℕ
  inflow asset (deposit c) s = if_ok (credit_deposit B c s).0 (if_asset asset c.asset c.amount)
  inflow asset (withdraw c) s = 0
  inflow asset (move c) s = 0

  abbrev pub outflow : AssetId → Command → RuntimeState → ℕ
  outflow asset (deposit c) s = 0
  outflow asset (withdraw c) s =
      if_ok (debit_withdrawal B c s).0 (if_asset asset c.asset c.gross_amount)
  outflow asset (move c) s = 0

  unfoldable pub inflows : AssetId → List Command → RuntimeState → ℕ
  inflows asset [] s = 0
  inflows asset (c ∷ cs) s = inflow asset c s + inflows asset cs (run_command c s)

  unfoldable pub outflows : AssetId → List Command → RuntimeState → ℕ
  outflows asset [] s = 0
  outflows asset (c ∷ cs) s = outflow asset c s + outflows asset cs (run_command c s)

module _ {B : ConfidentialBackend} (C : IsCorrect B) (asset : AssetId) where
  -- The state is valid, and the total has moved by the flows.
  abbrev Balanced : RuntimeState → ℕ → ℕ → RuntimeState → Type 0
  Balanced s out in' s' = IsValid C s' × (total C asset s' + out ≡ total C asset s + in')

  deposited :
      (c : DepositCommand) (s : RuntimeState) (r : Result RuntimeError ℕ)
      (out : Result RuntimeError StateTransition × RuntimeState)
      → IsValid C s
      → deposit_result c s (balance_of C (c.account, c.asset) s) ≡ r
      → Deposits C c s (0, asset) r out
      → Balanced s 0 (if_ok out.0 (if_asset asset c.asset c.amount)) out.1
  deposited c s (err e) out valid spec done = rw done (valid, refl)
  deposited c s (ok a) (err e, s') valid spec done = absurd done
  deposited c s (ok a) (ok t, s') valid spec done = (done.0, ground arith)

  withdrawn :
      (c : WithdrawalCommand) (s : RuntimeState) (r : Result RuntimeError ℕ)
      (out : Result RuntimeError StateTransition × RuntimeState)
      → IsValid C s
      → withdrawal_result c s (balance_of C (c.account, c.asset) s) ≡ r
      → Withdraws C c s (0, asset) r out
      → Balanced s (if_ok out.0 (if_asset asset c.asset c.gross_amount)) 0 out.1
  withdrawn c s (err e) out valid spec done = rw done (valid, refl)
  withdrawn c s (ok a) (err e, s') valid spec done = absurd done
  withdrawn c s (ok a) (ok t, s') valid spec done = (done.0, ground arith)

  transferred :
      (c : TransferCommand) (s : RuntimeState) (r : Result RuntimeError (ℕ × ℕ))
      (out : Result RuntimeError TransferTransition × RuntimeState)
      → IsValid C s
      → Transfers C c s (0, asset) r out
      → Balanced s 0 0 out.1
  transferred c s (err e) out valid done = rw done (valid, refl)
  transferred c s (ok a) (err e, s') valid done = absurd done
  transferred c s (ok (a, b)) (ok t, s') valid done = (done.0, omega (arith, done.4))

  run_command-Balanced :
      (c : Command) (s : RuntimeState)
      → Fits c
      → IsValid C s
      → Balanced s (outflow B asset c s) (inflow B asset c s) (run_command B c s)
  run_command-Balanced (deposit c) s fits valid =
      deposited c s _ _ valid refl (credit_deposit-refines C c fits s (0, asset) valid)
  run_command-Balanced (withdraw c) s fits valid =
      withdrawn c s _ _ valid refl (debit_withdrawal-refines C c fits s (0, asset) valid)
  run_command-Balanced (move c) s fits valid =
      transferred c s _ _ valid (transfer-refines C c fits s (0, asset) valid)

  -- Over any sequence of deposits, withdrawals and transfers whose amounts fit 128 bits, from a
  -- state whose stored ciphertexts all decrypt, with a backend that meets the contract: all
  -- stored ciphertexts still decrypt, and the total in an asset plus the amounts that successful
  -- withdrawals took out equals the first total plus the amounts that successful deposits brought
  -- in.
  pub run-total :
      (cs : List Command) (s : RuntimeState)
      → All Fits cs
      → IsValid C s
      → IsValid C (run B cs s)
        × (total C asset (run B cs s) + outflows B asset cs s
            ≡ total C asset s + inflows B asset cs s)
  unfolding run inflows outflows
  run-total [] s fits valid = (valid, refl)
  run-total (c ∷ cs) s fits valid =
      let here = run_command-Balanced c s fits.0 valid in
      let rest = run-total cs (run_command B c s) fits.1 here.0 in
      (rest.0, omega (arith, here.1, rest.1))
